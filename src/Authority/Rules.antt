-- ===== src/Authority/Rules.antt =====
-- What the rules of authority.py guarantee of the permissions that a person ends up with.
use fastapitemplate.Common.Lists.{contains, keep}
use fastapitemplate.Common.{
  String, ◌≡◌, refl, Bool, true, false, not, ◌&&◌, ◌||◌, List, [], ◌∷◌, ◌++◌, arith, string_eq,
}
use fastapitemplate.Authority.{
  Role, is_system_role, role_permissions, beyond, changed, within_the_seat, system_permissions,
  system_seat_permissions, owner, manager, member, guest, system_admin, system_support, user_admin,
  content_admin, auditor,
}

-- Membership in a filtered list.
pub contains-keep :
    (p : String → Bool) (c : String) (xs : List String)
    → contains c (keep p xs) ≡ (contains c xs && p c)
contains-keep p c [] = refl
contains-keep p c (x ∷ xs) = ground (arith, contains-keep p c xs, string_eq.beq_iff x c)

contains-append :
    (c : String) (xs ys : List String) → contains c (xs ++ ys) ≡ (contains c xs || contains c ys)
contains-append c [] ys = refl
contains-append c (x ∷ xs) ys = ground (arith, contains-append c xs ys)

empty-all : (xs : List String) (c : String) → xs ≡ [] → contains c xs ≡ false
empty-all xs c e = rw e

-- The rule against handing out what one does not hold: if nothing of what a change moves is beyond the
-- actor, then every permission that the change adds or takes away is the actor's own.
pub beyond-changed :
    (actor before after : List String) (code : String)
    → beyond actor (changed before after) ≡ []
    → contains code before ≡ not (contains code after)
    → contains code actor ≡ true
unfolding beyond changed
beyond-changed actor before after code none_beyond moved = ground (
  arith,
  empty-all (beyond actor (changed before after)) code none_beyond,
  contains-keep (λ c. not (contains c actor)) code (changed before after),
  contains-append code (keep (λ c. not (contains c after)) before)
      (keep (λ c. not (contains c before)) after),
  contains-keep (λ c. not (contains c after)) code before,
  contains-keep (λ c. not (contains c before)) code after,
)

-- The seats are kept apart, whatever was granted: in a tenant, nobody has a permission of the whole
-- system, and outside, nobody has one that no system role has; and neither seat adds anything.
pub seats-apart :
    (granted : List String) (code : String)
    → (contains code (within_the_seat true granted)
        ≡ (contains code granted && not (contains code system_permissions)))
      × (contains code (within_the_seat false granted)
          ≡ (contains code granted && contains code system_seat_permissions))
unfolding within_the_seat
seats-apart granted code = (
  contains-keep (λ c. not (contains c system_permissions)) code granted,
  contains-keep (λ c. contains c system_seat_permissions) code granted,
)

-- No role loses a permission in the seat that it is for: the tenant for the roles of a tenant, the
-- outside for the system roles.
pub role-seat :
    (r : Role) → within_the_seat (not (is_system_role r)) (role_permissions r) ≡ role_permissions r
unfolding within_the_seat role_permissions
role-seat owner = refl
role-seat manager = refl
role-seat member = refl
role-seat guest = refl
role-seat system_admin = refl
role-seat system_support = refl
role-seat user_admin = refl
role-seat content_admin = refl
role-seat auditor = refl

-- In a tenant, no role reaches further than the owner's: what its permissions come to in the seat of
-- a tenant is within the owner's range.
pub owner-above :
    (r : Role) → beyond (role_permissions owner) (within_the_seat true (role_permissions r)) ≡ []
unfolding beyond within_the_seat role_permissions
owner-above owner = refl
owner-above manager = refl
owner-above member = refl
owner-above guest = refl
owner-above system_admin = refl
owner-above system_support = refl
owner-above user_admin = refl
owner-above content_admin = refl
owner-above auditor = refl
