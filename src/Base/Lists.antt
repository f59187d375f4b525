-- ===== src/Base/Lists.antt =====
-- Array methods of the source over lists: `length`, `some`, `every`, `filter`, `includes`.
use mathlib.Core.Logic.{inl, inr}
use devagent_ts.Base.Tests.{Bool-cases}
use Prim.Native.Nat.{ℕ, zero, suc, ◌+◌, ◌≤◌}
use mathlib.Core.Path.{◌≡◌, refl}
use mathlib.Core.Bool.{Bool, true, false, ◌&&◌, ◌||◌, not}
use mathlib.Core.Option.{Option, none, some}
use mathlib.Core.List.{List, [], ◌∷◌, ◌++◌}
use native.Mathlib.Omega.{arith}
use devagent_ts.Base.Tests.{Bool-cases, StrictEq, ◌==◌, if◌then◌else◌}

module _ {ℓ} {A : Type ℓ} where
  abbrev pub length : List A → ℕ
  length [] = 0
  length (x ∷ xs) = suc (length xs)

  abbrev pub any : (A → Bool) → List A → Bool
  any p [] = false
  any p (x ∷ xs) = p x || any p xs

  abbrev pub all : (A → Bool) → List A → Bool
  all p [] = true
  all p (x ∷ xs) = p x && all p xs

  abbrev pub filter : (A → Bool) → List A → List A
  filter p [] = []
  filter p (x ∷ xs) = let rest = filter p xs in if p x then x ∷ rest else rest

  abbrev pub count : (A → Bool) → List A → ℕ
  count p [] = 0
  count p (x ∷ xs) = let rest = count p xs in if p x then suc rest else rest

  abbrev pub find? : (A → Bool) → List A → Option A
  find? p [] = none
  find? p (x ∷ xs) = if p x then some x else find? p xs

  abbrev pub take : ℕ → List A → List A
  take zero xs = []
  take (suc n) [] = []
  take (suc n) (x ∷ xs) = x ∷ take n xs

  abbrev pub is_empty : List A → Bool
  is_empty [] = true
  is_empty (x ∷ xs) = false

  -- Every element satisfies the predicate.
  abbrev pub All {κ} : (A → Type κ) → List A → Type κ
  All P [] = Unit
  All P (x ∷ xs) = P x × All P xs

module _ {ℓ} {A : Type ℓ} where
  pub length-append : (xs ys : List A) → length (xs ++ ys) ≡ length xs + length ys
  length-append [] ys = omega arith
  length-append (x ∷ xs) ys = omega (arith, length-append xs ys)

  pub length-filter-le : (p : A → Bool) (xs : List A) → length (filter p xs) ≤ length xs
  length-filter-le p [] = omega arith
  length-filter-le p (x ∷ xs) = ground (arith, length-filter-le p xs)

  pub count-filter : (p : A → Bool) (xs : List A) → length (filter p xs) ≡ count p xs
  count-filter p [] = refl
  count-filter p (x ∷ xs) = ground (arith, count-filter p xs)

  pub count-append : (p : A → Bool) (xs ys : List A) → count p (xs ++ ys) ≡ count p xs + count p ys
  count-append p [] ys = omega arith
  count-append p (x ∷ xs) ys = ground (arith, count-append p xs ys)

  pub All-append {κ} : (P : A → Type κ) (xs ys : List A) → All P xs → All P ys → All P (xs ++ ys)
  All-append P [] ys h k = k
  All-append P (x ∷ xs) ys h k = (h.0, All-append P xs ys h.1 k)

  pub All-filter {κ} :
      (P : A → Type κ) (p : A → Bool) (xs : List A) → All P xs → All P (filter p xs)
  All-filter P p [] h = tt
  All-filter P p (x ∷ xs) h = ground (arith, All-filter P p xs h.1)

  pub All-map {κ} : (P Q : A → Type κ) (xs : List A) → ((x : A) → P x → Q x) → All P xs → All Q xs
  All-map P Q [] f h = tt
  All-map P Q (x ∷ xs) f h = (f x h.0, All-map P Q xs f h.1)

  pub append-is_empty : (x : A) (xs : List A) → is_empty (xs ++ x ∷ []) ≡ false
  append-is_empty x [] = refl
  append-is_empty x (y ∷ xs) = refl

module _ {ℓ} {A : Type ℓ} ⦃e : StrictEq A⦄ where
  -- xs.includes(a), set.has(a)
  abbrev pub includes : A → List A → Bool
  includes a [] = false
  includes a (x ∷ xs) = x == a || includes a xs

  -- set.add(a) on a set kept in insertion order
  abbrev pub add : A → List A → List A
  add a xs = if includes a xs then xs else xs ++ a ∷ []

  -- a set that `xs` are added to, one by one
  abbrev pub add_all : List A → List A → List A
  add_all seen [] = seen
  add_all seen (x ∷ xs) = add_all (add x seen) xs

  -- set.delete(a)
  abbrev pub remove : A → List A → List A
  remove a [] = []
  remove a (x ∷ xs) = let rest = remove a xs in if x == a then rest else x ∷ rest

module _ {ℓ} {A : Type ℓ} ⦃e : StrictEq A⦄ where
  pub includes-append :
      (a : A) (xs ys : List A) → includes a (xs ++ ys) ≡ (includes a xs || includes a ys)
  includes-append a [] ys = refl
  includes-append a (x ∷ xs) ys = ground (arith, includes-append a xs ys)

  pub includes-add : (a b : A) (xs : List A) → includes b (add a xs) ≡ (a == b || includes b xs)
  includes-add a b xs = ground (arith, includes-append b xs (a ∷ []), e.equals_iff a b)

  pub any-includes :
      (p : A → Bool) (a : A) (xs : List A) → includes a xs ≡ true → p a ≡ true → any p xs ≡ true
  any-includes p a [] h k = h
  any-includes p a (x ∷ xs) h k = ground (arith, e.equals_iff x a, any-includes p a xs)

  pub all-includes :
      (p : A → Bool) (a : A) (xs : List A) → all p xs ≡ true → includes a xs ≡ true → p a ≡ true
  all-includes p a [] h k = ground arith
  all-includes p a (x ∷ xs) h k = ground (arith, e.equals_iff x a, all-includes p a xs)

  -- What is included in `ys`, all of which is included in `zs`.
  pub all-includes_trans :
      (xs ys zs : List A)
      → all (λ x. includes x ys) xs ≡ true
      → all (λ y. includes y zs) ys ≡ true
      → all (λ x. includes x zs) xs ≡ true
  all-includes_trans [] ys zs h k = refl
  all-includes_trans (x ∷ xs) ys zs h k =
      let rest : includes x ys ≡ true → includes x zs ≡ true =
        all-includes (λ y. includes y zs) x ys k in
      ground (arith, all-includes_trans xs ys zs, rest)

  pub all-includes_append :
      (xs ys zs : List A)
      → all (λ x. includes x ys) xs ≡ true
      → all (λ x. includes x (ys ++ zs)) xs ≡ true
  all-includes_append [] ys zs h = refl
  all-includes_append (x ∷ xs) ys zs h =
      ground (arith, includes-append x ys zs, all-includes_append xs ys zs)

  pub includes-add_all :
      (x : A) (seen xs : List A) → includes x (add_all seen xs) ≡ (includes x seen || includes x xs)
  includes-add_all x seen [] = ground arith
  includes-add_all x seen (y ∷ xs) =
      ground (arith, includes-add_all x (add y seen) xs, includes-add y x seen)

  pub includes-remove :
      (a b : A) (xs : List A) → includes b (remove a xs) ≡ (not (a == b) && includes b xs)
  includes-remove a b [] = ground arith
  includes-remove a b (x ∷ xs) =
      ground (arith, includes-remove a b xs, e.equals_iff a b, e.equals_iff x a, e.equals_iff x b)

  pub is_empty-none : (xs : List A) → ((a : A) → includes a xs ≡ false) → is_empty xs ≡ true
  is_empty-none [] h = refl
  is_empty-none (x ∷ xs) h = ground (arith, h x, e.equals_iff x x)

  pub none-is_empty : (a : A) (xs : List A) → is_empty xs ≡ true → includes a xs ≡ false
  none-is_empty a [] h = refl
  none-is_empty a (x ∷ xs) h = cc

pub All-both {ℓ κ} :
    {A : Type ℓ} {P Q S : A → Type κ} (xs : List A)
    → ((x : A) → P x → Q x → S x)
    → All P xs
    → All Q xs
    → All S xs
All-both [] f h k = tt
All-both (x ∷ xs) f h k = (f x h.0 k.0, All-both xs f h.1 k.1)

-- What holds of the kept elements holds of those that pass the test.
pub All-filter_back {ℓ κ} :
    {A : Type ℓ} (P : A → Type κ) (p : A → Bool) (xs : List A)
    → All P (filter p xs)
    → All (λ x. p x ≡ true → P x) xs
All-filter_back P p [] h = tt
All-filter_back P p (x ∷ xs) h = elim (Bool-cases (p x)) [
  | inl y ↦ let h1 : All P (x ∷ filter p xs) = rw y at h in (λ k. h1.0, All-filter_back P p xs h1.1)
  | inr n ↦ let h1 : All P (filter p xs) = rw n at h in (λ k. cc (n, k), All-filter_back P p xs h1)
]

pub All-filter_test {ℓ κ} :
    {A : Type ℓ} (P : A → Type κ) (p : A → Bool) (xs : List A)
    → All P xs
    → All (λ x. (p x ≡ true) × P x) (filter p xs)
All-filter_test P p [] h = tt
All-filter_test P p (x ∷ xs) h = elim (Bool-cases (p x)) [
  | inl y ↦ rw y ((y, h.0), All-filter_test P p xs h.1)
  | inr n ↦ rw n (All-filter_test P p xs h.1)
]

-- for (const a of as) b = f(a, b)
abbrev pub each_of {ℓ κ} : {A : Type ℓ} {B : Type κ} → (A → B → B) → List A → B → B
each_of f [] b = b
each_of f (a ∷ more) b = each_of f more (f a b)
