-- ===== src/Core/Policy/Broker/Promises.antt =====
-- What becomes of the promises of `ApprovalBroker`, src/core/policy/approval-broker.ts.
use devagent_ts.Base.{
  ℕ, suc, ◌≤◌, Bool, true, false, not, ◌&&◌, ◌||◌, Option, none, some, nat_eq, List, [], ◌∷◌, ◌++◌,
  if◌then◌else◌, ◌==◌, ◌≡◌, refl, sym, ap, ◌∙◌, arith, includes, includes-remove, includes-append,
  is_empty, is_empty-none, Bool-cases, Option-cases, inl, inr, ◌⊎◌, ==-eq,
}
use devagent_ts.Base.Dict.{Dict, get, get-set}
use devagent_ts.Core.Policy.Broker.{
  ApprovalBroker, Settlement, resolved, rejected, approval_broker, set_responder, settle, request,
  answer, fail, resolve_one, resolve_each, resolve_all, BrokerCall, sets_responder, requests,
  answers, fails, resolves_all, call, run_calls,
}

-- A promise that is settled stays as it is.
abbrev kept : Option Settlement → Option Settlement → Option Settlement
kept none s = s
kept (some t) s = some t

kept_none : (s : Option Settlement) → kept s none ≡ s
kept_none none = refl
kept_none (some s) = refl

get-settle :
    (id j : ℕ) (s : Settlement) (d : Dict ℕ Settlement)
    → get j (settle id s d) ≡ kept (get j d) (if id == j then some s else none)
unfolding settle
get-settle id j s d = elim (Bool-cases (id == j)) [
  | inl y ↦
      let same : get id d ≡ get j d = ap (λ i. get i d) (==-eq id j y) in
      elim (Option-cases (get j d)) [
        | inl n ↦ rw (y, n) (rw (same ∙ n, settle) (get-set id j s d ∙ rw y refl))
        | inr (t, h) ↦ rw (y, h) (rw (same ∙ h, settle) h)
      ]
  | inr n ↦ elim (Option-cases (get id d)) [
    | inl q ↦ rw (n, kept_none (get j d)) (rw (q, settle) (get-set id j s d ∙ rw n refl))
    | inr (t, q) ↦ rw (n, kept_none (get j d)) (rw (q, settle) refl)
  ]
]

kept_twice : (a b c : Option Settlement) → kept (kept a b) c ≡ kept a (kept b c)
kept_twice none b c = refl
kept_twice (some a) b c = refl

-- What `resolve_each` makes of a promise, and of the list of those that wait.
get-resolve_each :
    (approved : Bool) (ids : List ℕ) (j : ℕ) (b : ApprovalBroker)
    → get j (resolve_each approved ids b).outcomes
      ≡ kept (get j b.outcomes) (if includes j ids then some (resolved approved) else none)
get-resolve_each approved [] j b = sym (kept_none (get j b.outcomes))
get-resolve_each approved (id ∷ ids) j b =
    let first = get-settle id j (resolved approved) b.outcomes in
    let later = get-resolve_each approved ids j (resolve_one id approved b) in
    ground (arith, first, later)

pending-resolve_each :
    (approved : Bool) (ids : List ℕ) (j : ℕ) (b : ApprovalBroker)
    → includes j (resolve_each approved ids b).pending
      ≡ (not (includes j ids) && includes j b.pending)
pending-resolve_each approved [] j b = refl
pending-resolve_each approved (id ∷ ids) j b = ground (
  arith,
  includes-remove id j b.pending,
  pending-resolve_each approved ids j (resolve_one id approved b),
)

seq-resolve_each :
    (approved : Bool) (ids : List ℕ) (b : ApprovalBroker)
    → (resolve_each approved ids b).seq ≡ b.seq
seq-resolve_each approved [] b = refl
seq-resolve_each approved (id ∷ ids) b = seq-resolve_each approved ids (resolve_one id approved b)

call-settled :
    (c : BrokerCall) (b : ApprovalBroker) (j : ℕ) (v : Settlement)
    → get j b.outcomes ≡ some v
    → get j (call c b).outcomes ≡ some v
unfolding set_responder request answer fail resolve_all
call-settled (sets_responder is_there) b j v h = h
call-settled (requests throws) b j v h =
    ground (arith, h, get-settle (suc b.seq) j rejected b.outcomes)
call-settled (answers id approved) b j v h =
    ground (arith, h, get-settle id j (resolved approved) b.outcomes)
call-settled (fails id) b j v h = ground (arith, h, get-settle id j (resolved false) b.outcomes)
call-settled (resolves_all approved) b j v h = get-resolve_each approved b.pending j b ∙ rw h refl

-- Every promise that was returned waits or is settled.
abbrev pub IsWatched : ApprovalBroker → Type 0
IsWatched b =
    (j : ℕ)
    → 1 ≤ j
    → j ≤ b.seq
    → (includes j b.pending ≡ true) ⊎ ((v : Settlement) × (get j b.outcomes ≡ some v))

resolve_one-IsWatched :
    (id : ℕ) (approved : Bool) (b : ApprovalBroker)
    → IsWatched b
    → IsWatched (resolve_one id approved b)
resolve_one-IsWatched id approved b h j l u = elim (h j l u) [
  | inl w ↦ elim (Bool-cases (id == j)) [
    | inl y ↦ elim (Option-cases (get j b.outcomes)) [
      | inl n ↦
          inr (resolved approved, get-settle id j (resolved approved) b.outcomes ∙ rw (n, y) refl)
      | inr (v, q) ↦ inr (v, get-settle id j (resolved approved) b.outcomes ∙ rw q refl)
    ]
    | inr n ↦ inl (includes-remove id j b.pending ∙ rw (n, w) refl)
  ]
  | inr (v, q) ↦ inr (v, get-settle id j (resolved approved) b.outcomes ∙ rw q refl)
]

resolve_each-IsWatched :
    (approved : Bool) (ids : List ℕ) (b : ApprovalBroker)
    → IsWatched b
    → IsWatched (resolve_each approved ids b)
resolve_each-IsWatched approved [] b h = h
resolve_each-IsWatched approved (id ∷ ids) b h =
    resolve_each-IsWatched approved ids (resolve_one id approved b)
      (resolve_one-IsWatched id approved b h)

answer-IsWatched :
    (id : ℕ) (approved : Bool) (b : ApprovalBroker) → IsWatched b → IsWatched (answer id approved b)
unfolding answer
answer-IsWatched id approved b h = elim (Bool-cases (includes id b.pending)) [
  | inl y ↦ rw y (resolve_one-IsWatched id approved b h)
  | inr n ↦ rw n h
]

enqueued-IsWatched :
    (throws : Bool) (b : ApprovalBroker) (j : ℕ)
    → IsWatched b
    → 1 ≤ j
    → j ≤ suc b.seq
    → (includes j (b.pending ++ suc b.seq ∷ []) ≡ true)
      ⊎ ((v : Settlement) × (get j
              (if throws then settle (suc b.seq) rejected b.outcomes else b.outcomes)
            ≡ some v))
enqueued-IsWatched throws b j h l u = elim (Bool-cases (suc b.seq == j)) [
  | inl y ↦ inl (includes-append j b.pending (suc b.seq ∷ []) ∙ ground arith)
  | inr n ↦
      let other : (suc b.seq == j) ≡ false = n in
      elim (h j l (ground (arith, other))) [
        | inl w ↦ inl (includes-append j b.pending (suc b.seq ∷ []) ∙ rw w refl)
        | inr (v, q) ↦ inr (v, ground (arith, q, get-settle (suc b.seq) j rejected b.outcomes))
      ]
]

request-IsWatched :
    (throws : Bool) (b : ApprovalBroker) → IsWatched b → IsWatched (request throws b).0
unfolding request
request-IsWatched throws b h = elim (Bool-cases (b.auto_approve || not b.has_responder)) [
  | inl y ↦ rw y h
  | inr n ↦ rw n (λ j l u. enqueued-IsWatched throws b j h l u)
]

call-IsWatched : (c : BrokerCall) (b : ApprovalBroker) → IsWatched b → IsWatched (call c b)
unfolding set_responder fail resolve_all
call-IsWatched (sets_responder is_there) b h = h
call-IsWatched (requests throws) b h = request-IsWatched throws b h
call-IsWatched (answers id approved) b h = answer-IsWatched id approved b h
call-IsWatched (fails id) b h = answer-IsWatched id false b h
call-IsWatched (resolves_all approved) b h = resolve_each-IsWatched approved b.pending b h

run-IsWatched :
    (cs : List BrokerCall) (b : ApprovalBroker) → IsWatched b → IsWatched (run_calls cs b)
run-IsWatched [] b h = h
run-IsWatched (c ∷ cs) b h = run-IsWatched cs (call c b) (call-IsWatched c b h)

run-settled :
    (cs : List BrokerCall) (b : ApprovalBroker) (j : ℕ) (v : Settlement)
    → get j b.outcomes ≡ some v
    → get j (run_calls cs b).outcomes ≡ some v
run-settled [] b j v h = h
run-settled (c ∷ cs) b j v h = run-settled cs (call c b) j v (call-settled c b j v h)

new-IsWatched : (auto_approve : Bool) → IsWatched (approval_broker auto_approve)
unfolding approval_broker
new-IsWatched auto_approve j l u = ground (arith, l, u)

-- For a new broker, whatever calls are made of it and however its responder answers, fails or
-- throws: after `resolveAll` no request waits, and every promise that was ever returned to wait for
-- is settled, as it was if it was settled before and else with the given answer, and it stays so
-- whatever calls follow.
pub resolve_all_settles :
    (auto_approve approved : Bool) (before later : List BrokerCall)
    → let b = run_calls before (approval_broker auto_approve) in
      let after = resolve_all approved b in
      (is_empty after.pending ≡ true)
      × ((j : ℕ)
          → 1 ≤ j
          → j ≤ b.seq
          → (v : Settlement) × (get j after.outcomes ≡ some v)
            × (get j b.outcomes ≡ none → v ≡ resolved approved)
            × ((w : Settlement) → get j b.outcomes ≡ some w → v ≡ w)
            × (get j (run_calls later after).outcomes ≡ some v))
unfolding resolve_all approval_broker
resolve_all_settles auto_approve approved before later =
    let b = run_calls before (approval_broker auto_approve) in
    let watched : IsWatched b =
      run-IsWatched before (approval_broker auto_approve) (new-IsWatched auto_approve) in
    (
      is_empty-none (resolve_each approved b.pending b).pending
          (λ j. pending-resolve_each approved b.pending j b ∙ ground arith),
      λ j l u.
          let now = get-resolve_each approved b.pending j b in
          elim (Option-cases (get j b.outcomes)) [
            | inl n ↦
                let waited : includes j b.pending ≡ true = elim (watched j l u) [
                  | inl w ↦ w
                  | inr (v, q) ↦ cc (n, q)
                ] in
                let is = now ∙ rw (n, waited) refl in
                (
                  resolved approved,
                  is,
                  λ h. refl,
                  λ w h. cc (n, h),
                  run-settled later (resolve_each approved b.pending b) j (resolved approved) is,
                )
            | inr (v, q) ↦
                let is = now ∙ rw q refl in
                (
                  v,
                  is,
                  λ n. cc (n, q),
                  λ w h. cc (h, q),
                  run-settled later (resolve_each approved b.pending b) j v is,
                )
          ],
    )
