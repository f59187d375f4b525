-- ===== src/Base/Tests.antt =====
-- Boolean tests, the conditional, equality as an interface, and results that may be errors.
use Prim.Native.Nat.{ℕ, ◌≤◌, ◌<◌, compare, Ordering}
use Prim.Native.String.{String}
use mathlib.Core.Path.{◌≡◌, refl, sym, ap, ◌∙◌}
use mathlib.Core.Logic.{◌≢◌, ◌↔◌, ◌⊎◌, inl, inr}
use mathlib.Core.Bool.{Bool, true, false}
use mathlib.Core.Option.{Option, none, some}
use native.Mathlib.Omega.{arith}
use text.Mathlib.Text.{◌==◌ as str_eq}
use text.Mathlib.TextEquality.{eq_iff}

abbrev pub ltb : ℕ → ℕ → Bool
ltb a b = elim (compare a b) [ Ordering.lt ↦ true | _ ↦ false ]

abbrev pub leb : ℕ → ℕ → Bool
leb a b = elim (compare a b) [ Ordering.gt ↦ false | _ ↦ true ]

abbrev pub nat_eqb : ℕ → ℕ → Bool
nat_eqb a b = elim (compare a b) [ Ordering.eq ↦ true | _ ↦ false ]

infix 1 if◌then◌else◌
abbrev pub if◌then◌else◌ {ℓ} : {A : Type ℓ} → Bool → A → A → A
if true then x else y = x
if false then x else y = y

pub leb→le : (a b : ℕ) → leb a b ≡ true → a ≤ b
leb→le a b h = ground arith

pub ltb→lt : (a b : ℕ) → ltb a b ≡ true → a < b
ltb→lt a b h = ground arith

pub nat_eqb_iff : (a b : ℕ) → (nat_eqb a b ≡ true) ↔ (a ≡ b)
nat_eqb_iff a b = ground arith

pub Bool-cases : (b : Bool) → (b ≡ true) ⊎ (b ≡ false)
Bool-cases true = inl refl
Bool-cases false = inr refl

pub Option-cases {ℓ} : {A : Type ℓ} (o : Option A) → (o ≡ none) ⊎ ((a : A) × (o ≡ some a))
Option-cases none = inl refl
Option-cases (some a) = inr (a, refl)

-- JavaScript's `===` on a type of keys, with what it decides.
pub record StrictEq {ℓ} (A : Type ℓ) : Type ℓ where
  pub equals : A → A → Bool
  pub equals_iff : (a b : A) → (equals a b ≡ true) ↔ (a ≡ b)

infix 50 ◌==◌
abbrev pub ◌==◌ {ℓ} : {A : Type ℓ} ⦃e : StrictEq A⦄ → A → A → Bool
◌==◌ ⦃e⦄ = e.equals

instance abbrev pub nat_eq : StrictEq ℕ
nat_eq = record { equals = nat_eqb; equals_iff = nat_eqb_iff }

instance abbrev pub string_eq : StrictEq String
string_eq = record { equals = str_eq; equals_iff = eq_iff }

module _ {ℓ} {A : Type ℓ} ⦃e : StrictEq A⦄ where
  pub ==-refl : (a : A) → (a == a) ≡ true
  ==-refl a = (e.equals_iff a a).1 refl

  pub ==-eq : (a b : A) → (a == b) ≡ true → a ≡ b
  ==-eq a b h = (e.equals_iff a b).0 h

  pub ==-comm : (a b : A) → (a == b) ≡ (b == a)
  ==-comm a b = ground (arith, e.equals_iff a b, e.equals_iff b a)

  pub ==-ne : (a b : A) → a ≢ b → (a == b) ≡ false
  ==-ne a b h = ground (arith, e.equals_iff a b)

-- A call that returns a value or throws.
pub data Result {ℓ κ} (E : Type κ) (A : Type ℓ) : Type (ℓ ⊔ κ) where
  ok : A → Result E A
  err : E → Result E A

module _ {ℓ} {A : Type ℓ} (rank : A → ℕ) (unrank : ℕ → A)
    (inverse : (a : A) → unrank (rank a) ≡ a) where
  pub rank_iff : (a b : A) → (nat_eqb (rank a) (rank b) ≡ true) ↔ (a ≡ b)
  rank_iff a b = (
    λ h. sym (inverse a) ∙ ap unrank ((nat_eqb_iff _ _).0 h) ∙ inverse b,
    λ h. (nat_eqb_iff _ _).1 (ap rank h),
  )

-- Equality on a type whose values have a numbering that can be undone.
abbrev pub eq_by_rank {ℓ} :
    {A : Type ℓ} (rank : A → ℕ) (unrank : ℕ → A) → ((a : A) → unrank (rank a) ≡ a) → StrictEq A
eq_by_rank rank unrank inverse = record {
  equals = λ a b. nat_eqb (rank a) (rank b);
  equals_iff = rank_iff rank unrank inverse;
}
