-- ===== src/Common/Equality.antt =====
-- Python's `==` on the types that the program uses as keys, as an instance argument.
use Prim.Native.Nat.{ℕ}
use Prim.Native.String.{String}
use mathlib.Core.Path.{◌≡◌, refl}
use mathlib.Core.Logic.{◌↔◌}
use mathlib.Core.Bool.{Bool, true, false, ◌&&◌}
use mathlib.Core.Option.{Option, none, some}
use native.Mathlib.Omega.{arith}
use text.Mathlib.Text.{◌==◌ as str_beq}
use text.Mathlib.TextEquality.{eq_iff}
use fastapitemplate.Common.Booleans.{nat_beq, nat_beq_iff}

pub record Eq (A : Type 0) : Type 0 where
  pub beq : A → A → Bool
  pub beq_iff : (a b : A) → (beq a b ≡ true) ↔ (a ≡ b)

infix 50 ◌==◌
abbrev pub ◌==◌ : {A : Type 0} ⦃e : Eq A⦄ → A → A → Bool
◌==◌ ⦃e⦄ = e.beq

instance abbrev pub nat_eq : Eq ℕ
nat_eq = record { beq = nat_beq; beq_iff = nat_beq_iff }

instance abbrev pub string_eq : Eq String
string_eq = record { beq = str_beq; beq_iff = eq_iff }

abbrev pair_beq : {A B : Type 0} → (A → A → Bool) → (B → B → Bool) → A × B → A × B → Bool
pair_beq p q (a, b) (c, d) = p a c && q b d

pub pair_beq_iff :
    {A B : Type 0} (e : Eq A) (f : Eq B) (x y : A × B) → (pair_beq e.beq f.beq x y ≡ true) ↔ (x ≡ y)
pair_beq_iff e f (a, b) (c, d) = ground (arith, e.beq_iff a c, f.beq_iff b d)

instance abbrev pub pair_eq : {A B : Type 0} ⦃e : Eq A⦄ ⦃f : Eq B⦄ → Eq (A × B)
pair_eq ⦃e⦄ ⦃f⦄ = record { beq = pair_beq e.beq f.beq; beq_iff = pair_beq_iff e f }

abbrev option_beq : {A : Type 0} → (A → A → Bool) → Option A → Option A → Bool
option_beq p none none = true
option_beq p none (some b) = false
option_beq p (some a) none = false
option_beq p (some a) (some b) = p a b

pub option_beq_iff :
    {A : Type 0} (e : Eq A) (x y : Option A) → (option_beq e.beq x y ≡ true) ↔ (x ≡ y)
option_beq_iff e none none = (λ _. refl, λ _. refl)
option_beq_iff e none (some b) = (λ h. cc, λ h. cc)
option_beq_iff e (some a) none = (λ h. cc, λ h. cc)
option_beq_iff e (some a) (some b) = ground (arith, e.beq_iff a b)

instance abbrev pub option_eq : {A : Type 0} ⦃e : Eq A⦄ → Eq (Option A)
option_eq ⦃e⦄ = record { beq = option_beq e.beq; beq_iff = option_beq_iff e }

pub beq_self : {A : Type 0} ⦃e : Eq A⦄ (a : A) → (a == a) ≡ true
beq_self ⦃e⦄ a = (e.beq_iff a a).1 refl

-- What a test of equality says, when it is known to fail.
pub ne_of_beq : {A : Type 0} ⦃e : Eq A⦄ (a b : A) → (a == b) ≡ false → ¬ (a ≡ b)
ne_of_beq ⦃e⦄ a b h p = cc (h, (e.beq_iff a b).1 p)
