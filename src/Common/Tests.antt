-- ===== src/Common/Tests.antt =====
-- Boolean tests, the conditional, and the ways to split on a computed value.
use Prim.Native.Nat.{ℕ, compare, Ordering}
use mathlib.Core.Path.{◌≡◌, refl}
use mathlib.Core.Logic.{◌↔◌, ◌⊎◌, inl, inr}
use mathlib.Core.Bool.{Bool, true, false, not}
use mathlib.Core.Option.{Option, none, some}

abbrev pub ltb : ℕ → ℕ → Bool
ltb a b = elim (compare a b) [ Ordering.lt ↦ true | _ ↦ false ]

abbrev pub leb : ℕ → ℕ → Bool
leb a b = elim (compare a b) [ Ordering.gt ↦ false | _ ↦ true ]

infix 50 ◌==◌
abbrev pub ◌==◌ : ℕ → ℕ → Bool
a == b = elim (compare a b) [ Ordering.eq ↦ true | _ ↦ false ]

infix 1 if◌then◌else◌
abbrev pub if◌then◌else◌ {ℓ} : {A : Type ℓ} → Bool → A → A → A
if true then x else y = x
if false then x else y = y

unfoldable pub Bool-cases : (b : Bool) → (b ≡ true) ⊎ (b ≡ false)
Bool-cases true = inl refl
Bool-cases false = inr refl

pub not-not : (b : Bool) → not b ≡ false → b ≡ true
not-not true h = refl
not-not false h = cc

module _ {ℓ} {A : Type ℓ} where
  pub Option-cases : (o : Option A) → (o ≡ none) ⊎ ((a : A) × (o ≡ some a))
  Option-cases none = inl refl
  Option-cases (some a) = inr (a, refl)

  abbrev pub is_some : Option A → Bool
  is_some none = false
  is_some (some a) = true

  -- `Option::is_some_and`
  abbrev pub is_some_and : Option A → (A → Bool) → Bool
  is_some_and none p = false
  is_some_and (some a) p = p a

  -- `Option::is_none_or`
  abbrev pub is_none_or : Option A → (A → Bool) → Bool
  is_none_or none p = true
  is_none_or (some a) p = p a

  abbrev pub and_then {κ} : {B : Type κ} → Option A → (A → Option B) → Option B
  and_then none f = none
  and_then (some a) f = f a

  -- A decision of equality as a test.
  abbrev pub eqb_of : {a b : A} → Dec (a ≡ b) → Bool
  eqb_of (yes p) = true
  eqb_of (no p) = false

  unfoldable pub eqb : Discrete A → A → A → Bool
  eqb d a b = eqb_of (d a b)

  eqb_of_iff : {a b : A} (e : Dec (a ≡ b)) → (eqb_of e ≡ true) ↔ (a ≡ b)
  eqb_of_iff (yes p) = (λ _. p, λ _. refl)
  eqb_of_iff (no p) = (λ h. cc, λ h. absurd (p h))

  pub eqb_iff : (d : Discrete A) (a b : A) → (eqb d a b ≡ true) ↔ (a ≡ b)
  unfolding eqb
  eqb_iff d a b = eqb_of_iff (d a b)

  pub eqb_refl : (d : Discrete A) (a : A) → eqb d a a ≡ true
  eqb_refl d a = (eqb_iff d a a).1 refl
