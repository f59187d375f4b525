-- ===== src/Core/Cancellation/Sound.antt =====
-- The signals that a process can come to have, src/core/cancellation/cancellation.ts.
use devagent_ts.Base.Dict.{has-set}
use devagent_ts.Base.{
  All-both, ℕ, suc, ◌<◌, Bool, true, false, Option, none, some, String, string_eq, nat_eq, [], ◌∷◌,
  ◌≡◌, arith, Bool-cases, inl, inr, All, All-map, All-append,
}
use devagent_ts.Base.Dict.{Dict, has, set}
use devagent_ts.Core.Cancellation.{
  non_empty, AbortReason, cancelled_error, Link, Signals, no_signals, aborted, abort_signal,
  new_controller, linked_signal, dispose, time_out, cancellation_scope, abort_scope, name_of,
}
use devagent_ts.Core.Cancellation.Propagation.{abort_from-ClosedBut, IsForward}

abbrev nowhere : ℕ → Bool
nowhere j = false

-- A signal that exists, if there is one.
abbrev pub Exists : Option ℕ → Signals → Type 0
Exists none st = Unit
Exists (some p) st = p < st.next

-- The signals that a process can come to have: none, then any series of calls on signals that
-- exist.
pub data IsReached : Signals → Type 0 where
  started : IsReached no_signals
  controlled : {st : Signals} → IsReached st → IsReached (new_controller st)
  linked :
      {st : Signals} (label : String) (parent timeout_ms : Option ℕ)
      → Exists parent st
      → IsReached st
      → IsReached (linked_signal label parent timeout_ms st)
  scoped :
      {st : Signals} (name : String) (parent : Option ℕ)
      → Exists parent st
      → IsReached st
      → IsReached (cancellation_scope name parent st)
  disposed : {st : Signals} (id : ℕ) → IsReached st → IsReached (dispose id st)
  timed_out :
      {st : Signals} (id : ℕ) (label text : String)
      → id < st.next
      → IsReached st
      → IsReached (time_out id label text st)
  signalled :
      {st : Signals} (id : ℕ) (reason : AbortReason)
      → id < st.next
      → IsReached st
      → IsReached (abort_signal id reason st)
  scope_aborted :
      {st : Signals} (id : ℕ) (reason : Option String)
      → id < st.next
      → IsReached st
      → IsReached (abort_scope id reason st)

-- Links lead to newer signals, and where a signal is aborted, those linked to it are.
pub record IsSound (st : Signals) : Type 0 where
  pub forward : IsForward st.links st.next st.links
  pub closed : All (λ l. aborted l.parent st ≡ true → aborted l.child st ≡ true) st.links

pub abort_signal-IsSound :
    (id : ℕ) (reason : AbortReason) (st : Signals)
    → id < st.next
    → IsSound st
    → IsSound (abort_signal id reason st) × (aborted id (abort_signal id reason st) ≡ true)
unfolding abort_signal
abort_signal-IsSound id reason st known s =
    let (closed, hit) =
      abort_from-ClosedBut st.links st.next st.next id reason st.reasons nowhere s.forward
        (omega arith) known s.closed in
    (record { forward = s.forward; closed = closed }, hit)

abort_scope-IsSound :
    (id : ℕ) (reason : Option String) (st : Signals)
    → id < st.next
    → IsSound st
    → IsSound (abort_scope id reason st) × (aborted id (abort_scope id reason st) ≡ true)
unfolding abort_scope
abort_scope-IsSound id reason st known s = elim (Bool-cases (aborted id st)) [
  | inl y ↦ rw (y, abort_scope) (s, y)
  | inr m ↦
      rw (m, abort_scope)
        (abort_signal-IsSound id (cancelled_error (name_of id st) (non_empty reason)) st known s)
]

grown : (st : Signals) → IsSound st → IsForward st.links (suc st.next) st.links
grown st s = All-map _ _ st.links (λ l h. (h.0, omega (arith, h.1))) s.forward

-- A signal that is born aborted has no links yet.
born_aborted :
    (id : ℕ) (r : AbortReason) (d : Dict ℕ AbortReason) (l : Link)
    → l.parent < l.child
    → l.child < id
    → (has l.parent d ≡ true → has l.child d ≡ true)
    → has l.parent (set id r d) ≡ true
    → has l.child (set id r d) ≡ true
born_aborted id r d l a b h k =
    ground (arith, a, b, h, k, has-set id l.parent r d, has-set id l.child r d)

linked_signal-IsSound :
    (label : String) (parent timeout_ms : Option ℕ) (st : Signals)
    → Exists parent st
    → IsSound st
    → IsSound (linked_signal label parent timeout_ms st)
unfolding linked_signal
linked_signal-IsSound label none timeout_ms st known s = record {
  forward = grown st s;
  closed = s.closed;
}
linked_signal-IsSound label (some p) timeout_ms st known s = elim (Bool-cases (aborted p st)) [
  | inl y ↦
      rw (y, linked_signal)
        (record {
          forward = grown st s;
          closed =
              All-both st.links
                (λ l f h.
                  born_aborted st.next (cancelled_error label (some "parent already aborted"))
                    st.reasons l f.0 f.1 h)
                s.forward s.closed;
        })
  | inr m ↦
      rw (m, linked_signal)
        (record {
          forward = All-append _ st.links (_ ∷ []) (grown st s) ((known, omega arith), tt);
          closed = All-append _ st.links (_ ∷ []) s.closed (λ k. cc (m, k), tt);
        })
]

time_out-IsSound :
    (id : ℕ) (label text : String) (st : Signals)
    → id < st.next
    → IsSound st
    → IsSound (time_out id label text st)
unfolding time_out dispose
time_out-IsSound id label text st known s = elim (Bool-cases (has id st.timers)) [
  | inl y ↦
      rw y
        (abort_signal-IsSound id (cancelled_error label (some text)) (dispose id st) known
          (record { forward = s.forward; closed = s.closed })).0
  | inr m ↦ rw m s
]

pub IsSound-reached : {st : Signals} → IsReached st → IsSound st
unfolding new_controller cancellation_scope dispose
IsSound-reached started = record { forward = tt; closed = tt }
IsSound-reached (controlled {st} h) =
    let s = IsSound-reached h in record { forward = grown st s; closed = s.closed }
IsSound-reached (linked {st} label parent timeout_ms known h) =
    linked_signal-IsSound label parent timeout_ms st known (IsSound-reached h)
IsSound-reached (scoped {st} name parent known h) =
    let s = linked_signal-IsSound name parent none st known (IsSound-reached h) in
    record { forward = s.forward; closed = s.closed }
IsSound-reached (disposed {st} id h) =
    let s = IsSound-reached h in record { forward = s.forward; closed = s.closed }
IsSound-reached (timed_out {st} id label text known h) =
    time_out-IsSound id label text st known (IsSound-reached h)
IsSound-reached (signalled {st} id reason known h) =
    (abort_signal-IsSound id reason st known (IsSound-reached h)).0
IsSound-reached (scope_aborted {st} id reason known h) =
    (abort_scope-IsSound id reason st known (IsSound-reached h)).0
