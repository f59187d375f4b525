-- ===== src/Core/Cancellation.antt =====
-- src/core/cancellation/cancellation.ts. A signal is a number, given in the order of creation; the
-- state has the listeners that `linkedSignal` adds to parents, the reasons of the signals that are
-- aborted, the timers that run and the names of scopes. A scope is its signal.
pub mod Propagation
pub mod Sound
pub mod Registry
pub mod Registered
mod Examples
use devagent_ts.Base.{
  each_of, ℕ, zero, suc, ◌+◌, Bool, true, false, not, ◌&&◌, ◌||◌, Option, none, some, String,
  string_eq, nat_eq, List, [], ◌∷◌, ◌++◌, if◌then◌else◌, ◌==◌, filter, map, is_empty, ltb, length,
}
use Prim.Native.String.{◌++◌ as then_text}
use devagent_ts.Base.Dict.{Dict, get, has, set, delete}

-- The reason of an aborted signal: a `CancelledError` with its operation and its own reason, another
-- error with its message, a string, or another value with its text.
pub data AbortReason : Type 0 where
  cancelled_error : String → Option String → AbortReason
  other_error string_reason other_value : String → AbortReason

-- The listener on the signal `parent` that aborts the signal `child`.
pub record Link : Type 0 where
  pub parent : ℕ
  pub child : ℕ
  pub label : String

pub record Signals : Type 0 where
  pub next : ℕ
  pub links : List Link
  pub reasons : Dict ℕ AbortReason
  pub timers : Dict ℕ ℕ
  pub names : Dict ℕ String

abbrev pub no_signals : Signals
no_signals = record { next = 0; links = []; reasons = []; timers = []; names = [] }

abbrev pub aborted : ℕ → Signals → Bool
aborted id st = has id st.reasons

-- reason instanceof Error ? reason : new CancelledError(label, String(reason))
abbrev pub passed_on : String → AbortReason → AbortReason
passed_on label (cancelled_error operation reason) = cancelled_error operation reason
passed_on label (other_error message) = other_error message
passed_on label (string_reason text) = cancelled_error label (some text)
passed_on label (other_value text) = cancelled_error label (some text)

-- The listeners on a signal, in the order in which they were added.
abbrev pub listeners : ℕ → List Link → List Link
listeners id links = filter (λ l. l.parent == id) links

-- `controller.abort` on fuel: it does nothing on an aborted signal; otherwise the signal has its
-- reason, and then its listeners abort their own signals.
unfoldable pub abort_from :
    List Link → ℕ → ℕ → AbortReason → Dict ℕ AbortReason → Dict ℕ AbortReason
abort_from links zero id reason reasons = reasons
abort_from links (suc fuel) id reason reasons =
    let go =
      each_of (λ l. abort_from links fuel l.child (passed_on l.label reason)) (listeners id links)
        (set id reason reasons) in
    if has id reasons then reasons else go

-- A child is newer than its parent, so that a chain of listeners is no longer than the signals.
unfoldable pub abort_signal : ℕ → AbortReason → Signals → Signals
abort_signal id reason st = record st { reasons = abort_from st.links st.next id reason st.reasons }

-- A controller of the embedding program, which may abort its signal with any reason.
unfoldable pub new_controller : Signals → Signals
new_controller st = record st { next = suc st.next }

abbrev pub with_timer : ℕ → Option ℕ → Dict ℕ ℕ → Dict ℕ ℕ
with_timer id none timers = timers
with_timer id (some ms) timers = set id ms timers

-- `linkedSignal` with the label, the parent and the timeout; no parent, and no timeout that is
-- above zero, are `none`.
unfoldable pub linked_signal : String → Option ℕ → Option ℕ → Signals → Signals
linked_signal label parent timeout_ms st =
    let id = st.next in
    let born = record st { next = suc id; timers = with_timer id timeout_ms st.timers } in
    elim parent [
      | none ↦ born
      | some p ↦
          if aborted p st
          then record born {
            reasons = set id (cancelled_error label (some "parent already aborted")) st.reasons;
          }
          else record born {
            links = st.links ++ record { parent = p; child = id; label = label } ∷ [];
          }
    ]

-- `dispose` of a linked signal and of a scope.
unfoldable pub dispose : ℕ → Signals → Signals
dispose id st = record st { timers = delete id st.timers }

-- The timer of a linked signal with this label fires; `text` is "timeout after …ms".
unfoldable pub time_out : ℕ → String → String → Signals → Signals
time_out id label text st =
    if has id st.timers
    then abort_signal id (cancelled_error label (some text)) (dispose id st)
    else st

-- `new CancellationScope` with the signal of a parent.
unfoldable pub cancellation_scope : String → Option ℕ → Signals → Signals
cancellation_scope name parent st = record (linked_signal name parent none st) {
  names = set st.next name st.names;
}

abbrev pub name_of : ℕ → Signals → String
name_of id st = elim (get id st.names) [ none ↦ "" | some name ↦ name ]

-- An empty reason counts as none.
abbrev pub non_empty : Option String → Option String
non_empty none = none
non_empty (some text) = if text == "" then none else some text

-- `abort` of a scope.
unfoldable pub abort_scope : ℕ → Option String → Signals → Signals
abort_scope id reason st =
    if aborted id st
    then st
    else abort_signal id (cancelled_error (name_of id st) (non_empty reason)) st

-- The message of a `CancelledError`.
unfoldable pub message_of : String → Option String → String
message_of operation reason =
    let start = then_text (then_text "operation \"" operation) "\" cancelled" in
    elim reason [
      | none ↦ start
      | some why ↦ if why == "" then start else then_text (then_text start ": ") why
    ]

abbrev pub reason_text : AbortReason → Option String
reason_text (cancelled_error operation reason) = some (message_of operation reason)
reason_text (other_error message) = some message
reason_text (string_reason text) = some text
reason_text (other_value text) = none

-- `throwIfAborted`: the error that it throws.
unfoldable pub throw_if_aborted : Option ℕ → String → Signals → Option AbortReason
throw_if_aborted none operation st = none
throw_if_aborted (some id) operation st = elim (get id st.reasons) [
  | none ↦ none
  | some reason ↦ some (cancelled_error operation (reason_text reason))
]

-- `check` of a scope.
unfoldable pub check_scope : ℕ → String → Signals → Option AbortReason
unfolding throw_if_aborted
check_scope id operation st =
    throw_if_aborted (some id) (then_text (then_text (name_of id st) ":") operation) st
