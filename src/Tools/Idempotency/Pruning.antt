-- ===== src/Tools/Idempotency/Pruning.antt =====
-- The bound that `prune` keeps, src/tools/idempotency.ts.
use devagent_ts.Base.{
  ℕ, zero, suc, ◌+◌, ◌-◌, ◌*◌, ◌≤◌, ◌<◌, Bool, true, false, ◌&&◌, Option, none, some, String,
  string_eq, List, [], ◌∷◌, ◌==◌, ◌≡◌, refl, ◌∙◌, arith, ltb, leb, ==-refl, ==-eq, length,
  length-filter-le, All, All-filter, Bool-cases, Option-cases, inl, inr,
}
use mathlib.Core.Path.{subst}
use devagent_ts.Base.Dict.{Dict, get, has, set, delete}
use devagent_ts.Tools.Idempotency.{
  IdempotencyManager, IdempotencyEntry, check, check_entry, is_recorded, is_older, record_key,
  complete, drop_old, oldest, trim, prune, load,
}

module _ {R : Type 0} where
  -- Each entry stands under its own key.
  abbrev pub IsKeyed : Dict String (IdempotencyEntry R) → Type 0
  IsKeyed entries = All (λ p. (p.0 == p.1.key) ≡ true) entries

  IsKeyed-delete :
      (k : String) (entries : Dict String (IdempotencyEntry R))
      → IsKeyed entries
      → IsKeyed (delete k entries)
  unfolding delete
  IsKeyed-delete k [] h = tt
  IsKeyed-delete k ((j, e) ∷ entries) h = elim (Bool-cases (j == k)) [
    | inl y ↦ rw y (IsKeyed-delete k entries h.1)
    | inr n ↦ rw n (h.0, IsKeyed-delete k entries h.1)
  ]

  IsKeyed-set :
      (k : String) (e : IdempotencyEntry R) (entries : Dict String (IdempotencyEntry R))
      → (k == e.key) ≡ true
      → IsKeyed entries
      → IsKeyed (set k e entries)
  unfolding set
  IsKeyed-set k e [] q h = (q, tt)
  IsKeyed-set k e ((j, f) ∷ entries) q h = elim (Bool-cases (j == k)) [
    | inl y ↦ rw y (rw (==-eq j k y) q, h.1)
    | inr n ↦ rw n (h.0, IsKeyed-set k e entries q h.1)
  ]

  IsKeyed-get :
      (k : String) (e : IdempotencyEntry R) (entries : Dict String (IdempotencyEntry R))
      → IsKeyed entries
      → get k entries ≡ some e
      → (k == e.key) ≡ true
  unfolding get
  IsKeyed-get k e [] h q = cc
  IsKeyed-get k e ((j, f) ∷ entries) h q = elim (Bool-cases (j == k)) [
    | inl y ↦
        let same : f ≡ e = ground arith in
        rw (← same) (subst (λ i. (i == f.key) ≡ true) (==-eq j k y) h.0)
    | inr n ↦ IsKeyed-get k e entries h.1 (ground arith)
  ]

  IsKeyed-load :
      (es : List (IdempotencyEntry R)) (entries : Dict String (IdempotencyEntry R))
      → IsKeyed entries
      → IsKeyed (load es entries)
  unfolding load
  IsKeyed-load [] entries h = h
  IsKeyed-load (e ∷ es) entries h =
      IsKeyed-load es (set e.key e entries) (IsKeyed-set e.key e entries (==-refl e.key) h)

  length-delete_le :
      (k : String) (entries : Dict String (IdempotencyEntry R))
      → length (delete k entries) ≤ length entries
  unfolding delete
  length-delete_le k [] = omega arith
  length-delete_le k ((j, e) ∷ entries) = ground (arith, length-delete_le k entries)

  -- An entry that the map has is dropped with its key.
  length-delete :
      (k : String) (entries : Dict String (IdempotencyEntry R))
      → has k entries ≡ true
      → length (delete k entries) < length entries
  unfolding delete has
  length-delete k [] h = cc
  length-delete k ((j, e) ∷ entries) h = elim (Bool-cases (j == k)) [
    | inl y ↦ rw y (omega (arith, length-delete_le k entries))
    | inr n ↦ rw n (omega (arith, length-delete k entries (ground arith)))
  ]

  oldest-has :
      (entries : Dict String (IdempotencyEntry R)) (e : IdempotencyEntry R)
      → IsKeyed entries
      → oldest entries ≡ some e
      → has e.key entries ≡ true
  unfolding oldest has
  oldest-has [] e h q = cc
  oldest-has ((j, f) ∷ entries) e h q = elim (Bool-cases (j == e.key)) [
    | inl y ↦ rw y refl
    | inr n ↦ elim (Option-cases (oldest entries)) [
      | inl r ↦ let q1 : some f ≡ some e = rw (r) at q in cc (n, h.0, q1)
      | inr (g, r) ↦ elim (Bool-cases (leb f.first_seen_ts g.first_seen_ts)) [
        | inl y ↦ let q1 : some f ≡ some e = rw (r, y, oldest) at q in cc (n, h.0, q1)
        | inr m ↦
            let q1 : some g ≡ some e = rw (r, m, oldest) at q in
            rw n (oldest-has entries e h.1 (r ∙ q1))
      ]
    ]
  ]

  oldest-some :
      (p : String × IdempotencyEntry R) (entries : Dict String (IdempotencyEntry R))
      → (e : IdempotencyEntry R) × (oldest (p ∷ entries) ≡ some e)
  unfolding oldest
  oldest-some p entries = elim (Option-cases (oldest entries)) [
    | inl q ↦ (p.1, rw (q, oldest) refl)
    | inr (e, q) ↦ elim (Bool-cases (leb p.1.first_seen_ts e.first_seen_ts)) [
      | inl y ↦ (p.1, rw (q, y, oldest) refl)
      | inr n ↦ (e, rw (q, n, oldest) refl)
    ]
  ]

  oldest_none :
      (entries : Dict String (IdempotencyEntry R)) → oldest entries ≡ none → length entries ≡ 0
  oldest_none [] q = refl
  oldest_none (p ∷ entries) q = cc (q, (oldest-some p entries).1)

  -- The loop comes to its end: each round drops an entry.
  trim_ends :
      (fuel limit : ℕ) (entries : Dict String (IdempotencyEntry R))
      → IsKeyed entries
      → length entries ≤ limit + fuel
      → (kept : Dict String (IdempotencyEntry R)) × (trim fuel limit entries ≡ some kept)
        × IsKeyed kept
        × (length kept ≤ limit)
        × (length kept ≤ length entries)
  unfolding trim
  trim_ends zero limit entries h b =
      let done : ltb limit (length entries) ≡ false = ground arith in
      (entries, rw done refl, h, omega arith, omega arith)
  trim_ends (suc fuel) limit entries h b = elim (Bool-cases (ltb limit (length entries))) [
    | inr n ↦ (entries, rw (n, trim) refl, h, ground arith, omega arith)
    | inl y ↦ elim (Option-cases (oldest entries)) [
      | inl r ↦
          (entries, rw (y, r, trim) refl, h, omega (arith, oldest_none entries r), omega arith)
      | inr (e, r) ↦
          let rest = delete e.key entries in
          let less : length rest < length entries =
            length-delete e.key entries (oldest-has entries e h r) in
          let (kept, ends, keyed, small, fewer) =
            trim_ends fuel limit rest (IsKeyed-delete e.key entries h) (omega (arith, less)) in
          (kept, rw (y, r, trim) ends, keyed, small, omega (arith, less, fewer))
    ]
  ]

  prune_ends :
      (now : ℕ) (m : IdempotencyManager R)
      → IsKeyed m.entries
      → (kept : Dict String (IdempotencyEntry R)) × (prune now m
          ≡ some (record m { entries = kept }, length m.entries - length kept))
        × IsKeyed kept
        × (length kept ≤ m.max_entries)
        × (length kept ≤ length m.entries)
  unfolding prune drop_old
  prune_ends now m h =
      let left = drop_old now (m.pending_ttl_ms * 4) m.entries in
      let (kept, ends, keyed, small, fewer) =
        trim_ends (length left) m.max_entries left (All-filter _ _ m.entries h) (omega arith) in
      (
        kept,
        rw (ends, prune) refl,
        keyed,
        small,
        omega (arith, fewer, length-filter-le _ m.entries),
      )

  -- A manager that a process can come to hold: the map of a file, then calls in any order.
  pub data IsReached : IdempotencyManager R → Type 0 where
    loaded :
        (ttl limit : ℕ) (es : List (IdempotencyEntry R))
        → IsReached (record { entries = load es []; pending_ttl_ms = ttl; max_entries = limit })
    checked :
        {m : IdempotencyManager R} (now : ℕ) (key : String)
        → IsReached m
        → IsReached (check now key m).0
    recorded_key :
        {m : IdempotencyManager R} (now : ℕ) (key tool : String) (run_id : Option String)
        → IsReached m
        → IsReached (record_key now key tool run_id m)
    completed_key :
        {m : IdempotencyManager R} (key : String) (result : Option R) (has_failed : Bool)
        → IsReached m
        → IsReached (complete key result has_failed m)
    after_prune :
        {m m' : IdempotencyManager R} (now n : ℕ)
        → prune now m ≡ some (m', n)
        → IsReached m
        → IsReached m'

  IsKeyed-check :
      (now : ℕ) (key : String) (m : IdempotencyManager R)
      → IsKeyed m.entries
      → IsKeyed (check now key m).0.entries
  unfolding check check_entry
  IsKeyed-check now key m h = elim (Option-cases (get key m.entries)) [
    | inl q ↦ rw (q, check) h
    | inr (e, q) ↦ elim (Bool-cases (is_recorded e.status && is_older now m.pending_ttl_ms e)) [
      | inl y ↦ rw (q, y, check) (IsKeyed-delete key m.entries h)
      | inr n ↦ rw (q, n, check) h
    ]
  ]

  IsKeyed-complete :
      (key : String) (result : Option R) (has_failed : Bool) (m : IdempotencyManager R)
      → IsKeyed m.entries
      → IsKeyed (complete key result has_failed m).entries
  unfolding complete
  IsKeyed-complete key result has_failed m h = elim (Option-cases (get key m.entries)) [
    | inl q ↦ rw (q, complete) h
    | inr (e, q) ↦
        rw (q, complete) (IsKeyed-set key _ m.entries (IsKeyed-get key e m.entries h q) h)
  ]

  IsKeyed-reached : {m : IdempotencyManager R} → IsReached m → IsKeyed m.entries
  unfolding record_key
  IsKeyed-reached (loaded ttl limit es) = IsKeyed-load es [] tt
  IsKeyed-reached (checked {m} now key r) = IsKeyed-check now key m (IsKeyed-reached r)
  IsKeyed-reached (recorded_key {m} now key tool run_id r) =
      IsKeyed-set key _ m.entries (==-refl key) (IsKeyed-reached r)
  IsKeyed-reached (completed_key {m} key result has_failed r) =
      IsKeyed-complete key result has_failed m (IsKeyed-reached r)
  IsKeyed-reached (after_prune {m} {m'} now n q r) =
      let (kept, ends, keyed, small, fewer) = prune_ends now m (IsKeyed-reached r) in
      let same : record m { entries = kept } ≡ m' = cc (ends, q) in
      subst (λ x. IsKeyed x.entries) same keyed

  -- From any manager that a process can come to hold, `prune` comes to its end; no more entries
  -- are left than the manager may keep, the options stay as they were, and the count it returns is
  -- the number of entries it dropped.
  pub prune-IsReached :
      (now : ℕ) (m : IdempotencyManager R)
      → IsReached m
      → (m' : IdempotencyManager R) × (n : ℕ) × (prune now m ≡ some (m', n))
        × (length m'.entries ≤ m.max_entries)
        × (m'.max_entries ≡ m.max_entries)
        × (m'.pending_ttl_ms ≡ m.pending_ttl_ms)
        × (length m'.entries + n ≡ length m.entries)
  prune-IsReached now m r =
      let (kept, ends, keyed, small, fewer) = prune_ends now m (IsKeyed-reached r) in
      (_, _, ends, small, refl, refl, omega (arith, fewer))
