-- ===== src/Tools/Idempotency.antt =====
-- `IdempotencyManager`, src/tools/idempotency.ts. The digest of a call's text and the text of its
-- arguments are parameters, and the clock is an argument. The file that mirrors the map, which is
-- best effort, is left out; `load` is given the entries that the file held.
pub mod Lifecycle
pub mod Pruning
mod Examples
use devagent_ts.Base.{
  ℕ, zero, suc, ◌+◌, ◌-◌, ◌*◌, Bool, true, false, not, ◌&&◌, Option, none, some, String, string_eq,
  List, [], ◌∷◌, filter, length, if◌then◌else◌, ltb, leb,
}
use devagent_ts.Base.Dict.{Dict, get, set, delete}
use Prim.Native.String.{◌++◌ as then_text}

-- `status` of an entry.
pub data EntryStatus : Type 0 where
  recorded completed failed : EntryStatus

abbrev pub is_recorded : EntryStatus → Bool
is_recorded recorded = true
is_recorded completed = false
is_recorded failed = false

pub record IdempotencyEntry (R : Type 0) : Type 0 where
  pub key : String
  pub tool : String
  pub run_id : Option String
  pub first_seen_ts : ℕ
  pub status : EntryStatus
  pub result : Option R

-- The defaults of the two options are five minutes and 1000.
pub record IdempotencyManager (R : Type 0) : Type 0 where
  pub entries : Dict String (IdempotencyEntry R)
  pub pending_ttl_ms : ℕ
  pub max_entries : ℕ

pub data IdempotencyCheck (R : Type 0) : Type 0 where
  is_new : IdempotencyCheck R
  is_in_flight : IdempotencyCheck R
  is_completed : Option R → IdempotencyCheck R
  is_failed : IdempotencyCheck R

-- `idempotencyKeyFor`: `digest` stands for the first 32 digits of the SHA-256 digest, `text_of`
-- for `stableStringify`.
unfoldable pub idempotency_key_for {ℓ} :
    {Args : Type ℓ} → (String → String) → (Args → String) → String → Args → String
idempotency_key_for digest text_of tool args =
    digest (then_text (then_text tool "::") (text_of args))

module _ {R : Type 0} where
  -- Date.now() - entry.firstSeenTs > age
  abbrev pub is_older : ℕ → ℕ → IdempotencyEntry R → Bool
  is_older now age e = ltb (e.first_seen_ts + age) now

  -- The check of an entry that has not expired.
  abbrev pub status_of : IdempotencyEntry R → IdempotencyCheck R
  status_of e = elim e.status [
    | recorded ↦ is_in_flight
    | completed ↦ is_completed e.result
    | failed ↦ is_failed
  ]

  unfoldable pub check_entry :
      ℕ
      → String
      → IdempotencyManager R
      → IdempotencyEntry R
      → IdempotencyManager R × IdempotencyCheck R
  check_entry now key m e =
      if is_recorded e.status && is_older now m.pending_ttl_ms e
      then (record m { entries = delete key m.entries }, is_new)
      else (m, status_of e)

  -- `check` of a key.
  unfoldable pub check :
      ℕ → String → IdempotencyManager R → IdempotencyManager R × IdempotencyCheck R
  check now key m = elim (get key m.entries) [
    | none ↦ (m, is_new)
    | some e ↦ check_entry now key m e
  ]

  -- `record` of a key.
  unfoldable pub record_key :
      ℕ → String → String → Option String → IdempotencyManager R → IdempotencyManager R
  record_key now key tool run_id m = record m {
    entries =
        set key
          (record {
            key = key;
            tool = tool;
            run_id = run_id;
            first_seen_ts = now;
            status = recorded;
            result = none;
          })
          m.entries;
  }

  abbrev pub or_result : Option R → Option R → Option R
  or_result none old = old
  or_result (some r) old = some r

  -- The entry object is changed in place.
  unfoldable pub complete : String → Option R → Bool → IdempotencyManager R → IdempotencyManager R
  complete key result has_failed m = elim (get key m.entries) [
    | none ↦ m
    | some e ↦ record m {
      entries =
          set key
            (record e {
              status = if has_failed then failed else completed;
              result = or_result result e.result;
            })
            m.entries;
    }
  ]

  -- The first loop of `prune`.
  unfoldable pub drop_old :
      ℕ → ℕ → Dict String (IdempotencyEntry R) → Dict String (IdempotencyEntry R)
  drop_old now age entries =
      filter (λ p. not (not (is_recorded p.1.status) && is_older now age p.1)) entries

  -- The first of the oldest entries: the head of the stable sort by `firstSeenTs`.
  unfoldable pub oldest : Dict String (IdempotencyEntry R) → Option (IdempotencyEntry R)
  oldest [] = none
  oldest (p ∷ ps) = elim (oldest ps) [
    | none ↦ some p.1
    | some e ↦ if leb p.1.first_seen_ts e.first_seen_ts then some p.1 else some e
  ]

  -- The second loop of `prune`, on fuel; the last result says whether the loop came to its end.
  unfoldable pub trim :
      ℕ → ℕ → Dict String (IdempotencyEntry R) → Option (Dict String (IdempotencyEntry R))
  trim zero limit entries = if ltb limit (length entries) then none else some entries
  trim (suc fuel) limit entries = elim (ltb limit (length entries)) [
    | false ↦ some entries
    | true ↦ elim (oldest entries) [
      | none ↦ some entries
      | some e ↦ trim fuel limit (delete e.key entries)
    ]
  ]

  abbrev pub pruned :
      IdempotencyManager R
      → Option (Dict String (IdempotencyEntry R))
      → Option (IdempotencyManager R × ℕ)
  pruned m none = none
  pruned m (some entries) = some (record m { entries = entries }, length m.entries - length entries)

  -- `prune`: the manager, and how many entries were dropped. Each round of its second loop drops
  -- an entry.
  unfoldable pub prune : ℕ → IdempotencyManager R → Option (IdempotencyManager R × ℕ)
  prune now m =
      let kept = drop_old now (m.pending_ttl_ms * 4) m.entries in
      pruned m (trim (length kept) m.max_entries kept)

  -- The entries of a file enter the map under their keys.
  unfoldable pub load :
      List (IdempotencyEntry R)
      → Dict String (IdempotencyEntry R)
      → Dict String (IdempotencyEntry R)
  load [] entries = entries
  load (e ∷ es) entries = load es (set e.key e entries)
