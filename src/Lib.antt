-- ===== src/Lib.antt =====
-- A model of the server of fastapitemplate, a template of a multi-tenant web application in Python
-- (FastAPI, SQLAlchemy): the parts that decide who may sign in, for how long, and what is kept of it.
--
-- How the program is put together. `bounded_contexts/` holds one package for each context, each in
-- the layers domain, application and infrastructure; `presentation/fastapi/` holds the services and
-- routes that compose them; `shared/` holds the tables, settings and authorization types that they share.
--
-- Conventions. A table is the list of its rows, and a statement of SQL is one step that reads and
-- writes it. A time is the number of microseconds since the epoch, and a reading of the clock is an
-- argument; so is every random identifier. An exception is a constructor of the result type of the
-- function that raises it. Code of other packages (token signing, WebAuthn, one-time passwords, the
-- language's own `str.lower`) is a parameter of the definitions that call it.
--
-- Files:
-- - RefreshSessions: presentation/fastapi/services/refresh_sessions.py (`standing_of`, `lifetime_for`,
--   `begin`, `rotate`, `end`), over the rows of shared/infrastructure/models/user.py.
-- - SessionCookies: presentation/fastapi/services/session_cookies.py and session_carry_over.py, which
--   write those rows when a login gets its cookies (`establish_session`).
-- - Throttle: the counting of failed logins in bounded_contexts/account_security (`LoginAttempts`,
--   `SqlLoginAttemptRepository`, `ThrottleLogin`).
-- - TwoFactor: one-time passwords in bounded_contexts/account_security (`manage_totp.py`,
--   `verify_second_factor.py` and their repository).
-- - Passkeys: WebAuthn in bounded_contexts/account_security; Passkeys/Credentials is the table of
--   credentials and Passkeys/UseCases are the requests (`register_passkey.py`,
--   `authenticate_with_passkey.py`).
-- - LocalFactors: the count of a user's own factors in bounded_contexts/account_security
--   (`SqlLocalFactorDirectory`), over the tables of TwoFactor and Passkeys.
-- - Federation: the names of a session at the identity provider, in
--   bounded_contexts/identity_federation/domain/value_objects.
-- - Accounts: which account a user of the identity provider is taken to (`ResolveFederatedAccount`), and
--   in Accounts/Mapping what its claims say of the user (`ClaimsMapping`).
-- - Tickets: how a sign-in comes back from the identity provider (`SqlSsoLoginTicketRepository`,
--   `ExchangeSsoTicket`).
-- - Revocations: back-channel logout (`LogoutNotice`, `SessionRevocation`, their repository and use
--   cases).
-- - Reconciliation: the comparison with the roster of the identity provider
--   (`ReconcileFederatedUsers`, `Roster`, `SqlFederatedIdentityRepository`).
-- - Notes: bounded_contexts/notes; Notes/Book are the use cases (`NoteBook`, `note_access.py`).
-- - Authority: shared/domain/auth (`master_data.py`, `authority.py`).
-- - Users: the rows of users, roles and tenants (shared/infrastructure/models), and Users/Directory how a
--   user or a tenant is found (sign_in_directory.py, tenant_directory.py).
-- - Tokens: presentation/fastapi/services/token_service.py; Tokens/Claims and Tokens/Reading are what a
--   token says and what is accepted of it.
-- - SignIn: the check of a password, presentation/fastapi/services/login_service.py (`authenticate`).
-- - PasswordReset: password_reset_service.py and password_token_purge.py beside it.
-- - Machines: how a machine comes in, in bounded_contexts/identity_federation
--   (`parse_machine_clients`, `ExchangeMachineToken`, `issue_machine_token`).
-- - Gates: presentation/fastapi/dependencies/auth.py, what stands in front of every route.
-- - AuthRoutes: presentation/fastapi/routers/auth.py, which composes RefreshSessions, SessionCookies,
--   Throttle, SignIn, PasswordReset, Tokens and Audit over one state; AuthRoutes/Sessions, Profile and
--   Recovery are its routes, and AuthRoutes/History are requests to them in any order.
-- - DpopProofs: proofs of possession in bounded_contexts/identity_federation (`PyJwtDpopProofVerifier`,
--   `SqlDpopProofReplayRepository`); DpopProofs/Uses has an abstract table of uses that never forgets.
-- - AppTokens: how an application on a device comes in (`AuthenticateAppAccessToken`), and in
--   AppTokens/Entrance presentation/app_bearer.py, which composes it with the gates.
-- - Audit: bounded_contexts/audit, the events and, in Audit/Retention, the deletion of old rows.
-- - Common: what these share: tables, text, decoded JSON, results, the clock.
--
-- Bounds and fuel. Two definitions run on fuel. Audit.Retention.delete_in_chunks, a loop until nothing is
-- left to delete, is given one round more than there are rows to delete; Common.Decimal.digits, which writes
-- a number, is given the number itself, as a number has at most as many digits as its value. Every other
-- loop walks a list. Numbers are natural numbers, as Python's
-- integers are unbounded; a difference of times is written as a comparison of sums where it could be
-- negative.
--
-- Left out: HTTP, cookies' attributes, the signing of tokens, the other contexts (notification, content
-- settings, releases), the settings, the routes of administration and the scripts. A failure of the
-- database other than a key that is taken is not modelled. Where a comment of a file does not say
-- otherwise, requests run one after the other.
pub mod Accounts
pub mod AuthRoutes
pub mod Authority
pub mod AppTokens
pub mod Audit
pub mod SignIn
pub mod Common
pub mod Federation
pub mod DpopProofs
pub mod Gates
pub mod LocalFactors
pub mod Machines
pub mod Notes
pub mod Passkeys
pub mod Reconciliation
pub mod PasswordReset
pub mod RefreshSessions
pub mod Revocations
pub mod SessionCookies
pub mod Throttle
pub mod Tickets
pub mod Tokens
pub mod TwoFactor
pub mod Users
