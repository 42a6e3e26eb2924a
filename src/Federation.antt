-- ===== src/Federation.antt =====
-- The value objects of bounded_contexts/identity_federation/domain/value_objects that name a session
-- at the identity provider: federated_session.py and federated_login.py.
use fastapitemplate.Common.{ℕ, String, Option}

pub record FederatedSession : Type 0 where
  pub issuer : String
  pub subject : String
  pub session_id : Option String

pub record FederatedLogin : Type 0 where
  pub session : FederatedSession
  pub started_at : ℕ
