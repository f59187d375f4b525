-- ===== src/Tools/Idempotency/Lifecycle.antt =====
-- What `check` answers after `record` and `complete`, src/tools/idempotency.ts.
use devagent_ts.Base.{
  Bool-cases, ℕ, ◌+◌, ◌≤◌, ◌<◌, Bool, true, false, ◌&&◌, Option, none, some, String, string_eq,
  ◌==◌, ◌≡◌, ◌≢◌, refl, sym, ap, ◌∙◌, arith, ltb, if◌then◌else◌, ==-refl, Option-cases, inl, inr,
}
use devagent_ts.Base.Dict.{get, get-set}
use devagent_ts.Tools.Idempotency.{
  is_recorded, IdempotencyManager, IdempotencyEntry, is_new, is_in_flight, is_completed, is_failed,
  recorded, completed, failed, check, check_entry, status_of, IdempotencyCheck, record_key,
  complete, or_result, is_older,
}

module _ {R : Type 0} where
  get-record_key :
      (now : ℕ) (key j tool : String) (run_id : Option String) (m : IdempotencyManager R)
      → get j (record_key now key tool run_id m).entries ≡ (
          if key == j
          then some (record {
            key = key;
            tool = tool;
            run_id = run_id;
            first_seen_ts = now;
            status = recorded;
            result = none;
          })
          else get j m.entries)
  unfolding record_key
  get-record_key now key j tool run_id m = get-set key j _ m.entries

  pub check_found :
      (now : ℕ) (key : String) (m : IdempotencyManager R) (e : IdempotencyEntry R)
      → get key m.entries ≡ some e
      → check now key m ≡ check_entry now key m e
  unfolding check
  check_found now key m e h = rw (h, check) refl

  -- Only the check of an entry that has expired changes the manager.
  pub check_unchanged :
      (now : ℕ) (key : String) (m : IdempotencyManager R)
      → (check now key m).1 ≢ is_new
      → (check now key m).0 ≡ m
  unfolding check check_entry
  check_unchanged now key m h = elim (Option-cases (get key m.entries)) [
    | inl q ↦ rw (q, check) refl
    | inr (e, q) ↦ elim (Bool-cases (is_recorded e.status && is_older now m.pending_ttl_ms e)) [
      | inl y ↦
          let expired : (check now key m).1 ≡ is_new = rw (q, y, check) refl in absurd (h expired)
      | inr n ↦ rw (q, n, check) refl
    ]
  ]

  -- An answer other than that the key is new depends on the key's entry alone.
  pub check_same :
      (now : ℕ) (key : String) (m x : IdempotencyManager R) (c : IdempotencyCheck R)
      → get key x.entries ≡ get key m.entries
      → x.pending_ttl_ms ≡ m.pending_ttl_ms
      → c ≢ is_new
      → check now key m ≡ (m, c)
      → check now key x ≡ (x, c)
  unfolding check check_entry
  check_same now key m x c same ttl h k = elim (Option-cases (get key m.entries)) [
    | inl q ↦
        let answer : check now key m ≡ (m, is_new) = rw (q, check) refl in
        absurd (h (cc (answer, k)))
    | inr (e, q) ↦
        let found = same ∙ q in
        elim (Bool-cases (is_recorded e.status && is_older now m.pending_ttl_ms e)) [
          | inl y ↦
              let expired : (check now key m).1 ≡ is_new = rw (q, y, check) refl in
              absurd (h (sym (ap (λ r. r.1) k) ∙ expired))
          | inr n ↦
              let there : (is_recorded e.status && is_older now x.pending_ttl_ms e) ≡ false =
                ap (λ t. is_recorded e.status && is_older now t e) ttl ∙ n in
              let answer : check now key m ≡ (m, status_of e) = rw (q, n, check) refl in
              let is : status_of e ≡ c = cc (answer, k) in
              rw (found, there, check) (ap (λ i. (x, i)) is)
        ]
  ]

  pub check_ttl :
      (now : ℕ) (key : String) (m : IdempotencyManager R)
      → (check now key m).0.pending_ttl_ms ≡ m.pending_ttl_ms
  unfolding check check_entry
  check_ttl now key m = ground arith

  pub complete_ttl :
      (key : String) (result : Option R) (has_failed : Bool) (m : IdempotencyManager R)
      → (complete key result has_failed m).pending_ttl_ms ≡ m.pending_ttl_ms
  unfolding complete
  complete_ttl key result has_failed m = ground arith

  pub record_ttl :
      (now : ℕ) (key tool : String) (run_id : Option String) (m : IdempotencyManager R)
      → (record_key now key tool run_id m).pending_ttl_ms ≡ m.pending_ttl_ms
  unfolding record_key
  record_ttl now key tool run_id m = refl

  pub complete_found :
      (key : String) (result : Option R) (has_failed : Bool) (m : IdempotencyManager R)
      (e : IdempotencyEntry R)
      → get key m.entries ≡ some e
      → get key (complete key result has_failed m).entries
        ≡ some (record e {
          status = if has_failed then failed else completed;
          result = or_result result e.result;
        })
  unfolding complete
  complete_found key result has_failed m e h =
      rw (h, complete) (get-set key key _ m.entries ∙ rw (==-refl key) refl)

  module _ (now seen : ℕ) (key tool : String) (run_id : Option String)
      (m : IdempotencyManager R) where
    abbrev started : IdempotencyManager R
    started = record_key seen key tool run_id m

    abbrev entry : IdempotencyEntry R
    entry = record {
      key = key;
      tool = tool;
      run_id = run_id;
      first_seen_ts = seen;
      status = recorded;
      result = none;
    }

    get-started : get key started.entries ≡ some entry
    get-started = get-record_key seen key key tool run_id m ∙ rw (==-refl key) refl

    started_in_flight :
        now ≤ seen + m.pending_ttl_ms → check now key started ≡ (started, is_in_flight)
    unfolding check_entry record_key
    started_in_flight h =
        let fresh : ltb (seen + m.pending_ttl_ms) now ≡ false = ground arith in
        check_found now key started entry get-started ∙ rw fresh refl

    started_expires : seen + m.pending_ttl_ms < now → (check now key started).1 ≡ is_new
    unfolding check_entry record_key
    started_expires h =
        let old : ltb (seen + m.pending_ttl_ms) now ≡ true = ground arith in
        ap (λ r. r.1) (check_found now key started entry get-started) ∙ rw old refl

    completed_stays :
        (r : R)
        → check now key (complete key (some r) false started)
          ≡ (complete key (some r) false started, is_completed (some r))
    unfolding check_entry
    completed_stays r =
        check_found now key (complete key (some r) false started) _
          (complete_found key (some r) false started entry get-started)

    failed_stays :
        check now key (complete key none true started) ≡ (complete key none true started, is_failed)
    unfolding check_entry
    failed_stays =
        check_found now key (complete key none true started) _
          (complete_found key none true started entry get-started)

    -- What `check` of a key answers once the key has been recorded: while the pending time runs,
    -- that the call is in flight; after that, that it is new; and at any time after it was
    -- completed with a result, that result, or after it failed, that it failed.
    pub check-record_key :
        (now ≤ seen + m.pending_ttl_ms → check now key started ≡ (started, is_in_flight))
        × (seen + m.pending_ttl_ms < now → (check now key started).1 ≡ is_new)
        × ((r : R)
            → check now key (complete key (some r) false started)
              ≡ (complete key (some r) false started, is_completed (some r)))
        × (check now key (complete key none true started)
            ≡ (complete key none true started, is_failed))
    check-record_key = (started_in_flight, started_expires, completed_stays, failed_stays)
