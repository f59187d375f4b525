-- ===== src/Core/Concurrency/Locks/Tables.antt =====
-- The two loops of src/core/concurrency/resource-locks.ts over a holder's resources.
use devagent_ts.Base.{
  ℕ, not, ◌&&◌, ◌||◌, Option, none, some, String, List, [], ◌∷◌, ◌≡◌, arith, if◌then◌else◌, ◌==◌,
  is_empty, add, remove, includes, nat_eq, string_eq, eq_iff, includes-add, includes-remove,
  none-is_empty, Option-cases, inl, inr,
}
use devagent_ts.Base.Dict.{Dict, get, set, delete, get-set, get-delete}

abbrev pub or_empty {ℓ} : {A : Type ℓ} → Option (List A) → List A
or_empty none = []
or_empty (some l) = l

-- In `grant`: the holder enters the set of each resource.
unfoldable pub grant_each : ℕ → List String → Dict String (List ℕ) → Dict String (List ℕ)
grant_each id [] m = m
grant_each id (r ∷ rs) m = grant_each id rs (set r (add id (or_empty (get r m))) m)

-- In the release function: the holder leaves the set of a resource, and an empty set goes.
release_one : ℕ → String → Dict String (List ℕ) → Dict String (List ℕ)
release_one id r m = elim (get r m) [
  | none ↦ delete r m
  | some s ↦ let s' = remove id s in if is_empty s' then delete r m else set r s' m
]

unfoldable pub release_each : ℕ → List String → Dict String (List ℕ) → Dict String (List ℕ)
unfolding release_one
release_each id [] m = m
release_each id (r ∷ rs) m = release_each id rs (release_one id r m)

pub grant_each_lem :
    (id j : ℕ) (s : String) (rs : List String) (m : Dict String (List ℕ))
    → includes j (or_empty (get s (grant_each id rs m)))
      ≡ (includes s rs && id == j || includes j (or_empty (get s m)))
unfolding grant_each
grant_each_lem id j s [] m = ground arith
grant_each_lem id j s (r ∷ rs) m =
    let m' = set r (add id (or_empty (get r m))) m in
    ground (
      arith,
      grant_each_lem id j s rs m',
      get-set r s (add id (or_empty (get r m))) m,
      includes-add id j (or_empty (get r m)),
      eq_iff r s,
    )

release_one_lem :
    (id j : ℕ) (s r : String) (m : Dict String (List ℕ))
    → includes j (or_empty (get s (release_one id r m)))
      ≡ (includes j (or_empty (get s m)) && not (r == s && id == j))
unfolding release_one
release_one_lem id j s r m = elim (Option-cases (get r m)) [
  | inl e ↦ ground (arith, e, get-delete r s m, eq_iff r s)
  | inr (l, e) ↦ ground (
    arith,
    e,
    get-delete r s m,
    get-set r s (remove id l) m,
    eq_iff r s,
    includes-remove id j l,
    none-is_empty j (remove id l),
  )
]

pub release_each_lem :
    (id j : ℕ) (s : String) (rs : List String) (m : Dict String (List ℕ))
    → includes j (or_empty (get s (release_each id rs m)))
      ≡ (includes j (or_empty (get s m)) && not (includes s rs && id == j))
unfolding release_each
release_each_lem id j s [] m = ground arith
release_each_lem id j s (r ∷ rs) m =
    ground (arith, release_each_lem id j s rs (release_one id r m), release_one_lem id j s r m)
