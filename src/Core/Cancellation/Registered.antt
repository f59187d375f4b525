-- ===== src/Core/Cancellation/Registered.antt =====
-- What `cancel` of a run reaches, src/core/cancellation/cancellation.ts.
use devagent_ts.Core.Cancellation.Sound.{IsReached, IsSound, IsSound-reached, abort_signal-IsSound}
use devagent_ts.Base.{
  ℕ, suc, ◌<◌, Bool, true, ◌||◌, Option, some, String, string_eq, nat_eq, List, [], ◌∷◌, ◌≡◌, refl,
  sym, ◌∙◌, arith, Bool-cases, inl, inr, All,
}
use devagent_ts.Base.Dict.{get}
use devagent_ts.Core.Cancellation.{
  non_empty, AbortReason, cancelled_error, Signals, aborted, abort_signal, abort_scope, name_of,
}
use devagent_ts.Core.Cancellation.Registry.{
  Entry, CancellationRegistry, registered, cancel, cancel_each,
}
use mathlib.Core.Path.{subst}
use devagent_ts.Core.Cancellation.Propagation.{
  Keeps-trans, Keeps-has, abort_from-Keeps, abort_from-only, Keeps,
}

-- What a series of aborts of scopes makes of the signals.
record Cancelled (es : List Entry) (st after : Signals) : Type 0 where
  sound : IsSound after
  same_next : after.next ≡ st.next
  same_links : after.links ≡ st.links
  keeps : Keeps st.reasons after.reasons
  reached : All (λ e. aborted e.scope after ≡ true) es
  only :
      (within : ℕ → Bool)
      → All (λ l. within l.parent ≡ true → within l.child ≡ true) st.links
      → All (λ e. within e.scope ≡ true) es
      → (j : ℕ) → aborted j after ≡ true
      → (aborted j st || within j) ≡ true

already-Cancelled :
    (e : Entry) (st : Signals) → IsSound st → aborted e.scope st ≡ true → Cancelled (e ∷ []) st st
already-Cancelled e st s y = record {
  sound = s;
  same_next = refl;
  same_links = refl;
  keeps = λ j r h. h;
  reached = (y, tt);
  only = λ within down start j h. ground (arith, h);
}

Cancelled-trans :
    (e : Entry) (es : List Entry) (st m after : Signals)
    → Cancelled (e ∷ []) st m
    → Cancelled es m after
    → Cancelled (e ∷ es) st after
Cancelled-trans e es st m after a b = record {
  sound = b.sound;
  same_next = b.same_next ∙ a.same_next;
  same_links = b.same_links ∙ a.same_links;
  keeps = Keeps-trans st.reasons m.reasons after.reasons a.keeps b.keeps;
  reached = (Keeps-has m.reasons after.reasons e.scope b.keeps a.reached.0, b.reached);
  only = λ within down start j h.
      let down_there =
        subst (λ ls. All (λ l. within l.parent ≡ true → within l.child ≡ true) ls)
          (sym a.same_links) down in
      let later = b.only within down_there start.1 j h in
      let earlier = a.only within down (start.0, tt) j in ground (arith, later, earlier);
}

abort_scope-Cancelled :
    (e : Entry) (reason : Option String) (st : Signals)
    → e.scope < st.next
    → IsSound st
    → Cancelled (e ∷ []) st (abort_scope e.scope reason st)
unfolding abort_scope abort_signal
abort_scope-Cancelled e reason st known s = elim (Bool-cases (aborted e.scope st)) [
  | inl y ↦ rw (y, abort_scope) (already-Cancelled e st s y)
  | inr m ↦
      let (sound, hit) =
        abort_signal-IsSound e.scope (cancelled_error (name_of e.scope st) (non_empty reason)) st
          known s in
      rw (m, abort_scope)
        (record {
          sound = sound;
          same_next = refl;
          same_links = refl;
          keeps = abort_from-Keeps st.links st.next st.next e.scope _ st.reasons;
          reached = (hit, tt);
          only = λ within down start j h.
              abort_from-only st.links st.next st.next e.scope _ st.reasons within down start.0 j h;
        })
]

cancel_each-Cancelled :
    (reason : Option String) (es : List Entry) (st : Signals) (n : ℕ)
    → All (λ e. e.scope < st.next) es
    → IsSound st
    → Cancelled es st (cancel_each reason es st n).0
cancel_each-Cancelled reason [] st n known s = record {
  sound = s;
  same_next = refl;
  same_links = refl;
  keeps = λ j r h. h;
  reached = tt;
  only = λ within down start j h. ground (arith, h);
}
cancel_each-Cancelled reason (e ∷ es) st n known s = elim (Bool-cases (aborted e.scope st)) [
  | inl y ↦
      let rest = cancel_each-Cancelled reason es st n known.1 s in
      rw y (Cancelled-trans e es st st _ (already-Cancelled e st s y) rest)
  | inr m ↦
      let first = abort_scope-Cancelled e reason st known.0 s in
      let next = abort_scope e.scope reason st in
      let still : All (λ e. e.scope < next.next) es =
        subst (λ k. All (λ e. e.scope < k) es) (sym first.same_next) known.1 in
      rw m (
        Cancelled-trans e es st next _ first
          (cancel_each-Cancelled reason es next (suc n) still first.sound))
]

-- When a run is cancelled, in any state that signals can come to be in, every scope that is
-- registered under the run is aborted, and so is every signal linked to an aborted one, directly
-- or through others. What was aborted before keeps its reason. Nothing else is aborted: no signal
-- outside a set that has the run's scopes and, with a signal, those linked to it.
pub cancel_reaches :
    (run_id : String) (reason : Option String) (g : CancellationRegistry) (st : Signals)
    → IsReached st
    → All (λ e. e.scope < st.next) (registered run_id g)
    → let after = (cancel run_id reason g st).0 in
      All (λ e. aborted e.scope after ≡ true) (registered run_id g)
      × All (λ l. aborted l.parent after ≡ true → aborted l.child after ≡ true) st.links
      × ((j : ℕ) (r : AbortReason) → get j st.reasons ≡ some r → get j after.reasons ≡ some r)
      × ((within : ℕ → Bool)
          → All (λ l. within l.parent ≡ true → within l.child ≡ true) st.links
          → All (λ e. within e.scope ≡ true) (registered run_id g)
          → (j : ℕ) → aborted j after ≡ true
          → (aborted j st || within j) ≡ true)
unfolding cancel
cancel_reaches run_id reason g st h known =
    let c = cancel_each-Cancelled reason (registered run_id g) st 0 known (IsSound-reached h) in
    let after = (cancel_each reason (registered run_id g) st 0).0 in
    (
      c.reached,
      subst (λ ls. All (λ l. aborted l.parent after ≡ true → aborted l.child after ≡ true) ls)
          c.same_links c.sound.closed,
      c.keeps,
      c.only,
    )
