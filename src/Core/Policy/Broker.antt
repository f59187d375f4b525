-- ===== src/Core/Policy/Broker.antt =====
-- src/core/policy/approval-broker.ts: which calls of tools need an approval, and `ApprovalBroker`.
-- The texts of titles are left out. A promise is its
-- number in the order of the requests, and `outcomes` has what came of it; that a responder
-- answers or fails is a call of its own.
pub mod Classification
pub mod Promises
mod Examples
use devagent_ts.Base.{
  ℕ, suc, Bool, true, false, not, ◌&&◌, ◌||◌, Option, none, some, String, string_eq, nat_eq, List,
  [], ◌∷◌, ◌++◌, if◌then◌else◌, ◌==◌, includes, remove,
}
use devagent_ts.Base.Dict.{Dict, get, has, set}
use devagent_ts.Core.Policy.Rules.{Element, word, thing, ArgValue, text, items, other}
use devagent_ts.Core.Policy.ArgRules.{text_or_empty}

-- The four titles, each with what its summary shows.
pub data ApprovalNeed : Type 0 where
  deletes runs : String → ApprovalNeed
  pushes creates_pull_request : List Element → ApprovalNeed

abbrev pub text_or {ℓ} : {A : Type ℓ} → (String → A) → A → Option ArgValue → A
text_or f a (some (text s)) = f s
text_or f a (some (items l)) = a
text_or f a (some other) = a
text_or f a none = a

-- `Array.isArray(args.args) ? (args.args as string[]) : []`, where the cast changes nothing.
unfoldable pub raw_items : Option ArgValue → List Element
raw_items (some (items l)) = l
raw_items (some (text s)) = []
raw_items (some other) = []
raw_items none = []

-- x === s
unfoldable pub is_word : String → Element → Bool
is_word s (word w) = w == s
is_word s (thing t) = false

-- `gitArgs[0] === "push"`
unfoldable pub is_push : List Element → Bool
unfolding is_word
is_push [] = false
is_push (x ∷ xs) = is_word "push" x

-- `ghArgs[0] === "pr" && ghArgs[1] === "create"`
unfoldable pub is_raw_pr_create : List Element → Bool
unfolding is_word
is_raw_pr_create (x ∷ y ∷ ys) = is_word "pr" x && is_word "create" y
is_raw_pr_create _ = false

module _ (is_destructive : String → Bool) where
  unfoldable pub classify_approval_needed :
      String → (String → Option ArgValue) → Option ApprovalNeed
  classify_approval_needed name args =
      if name == "delete_file"
      then some (deletes (text_or (λ s. s) "(unknown path)" (args "path")))
      else if name == "run_shell" && is_destructive (text_or_empty (args "command"))
      then some (runs (text_or_empty (args "command")))
      else if name == "git" && is_push (raw_items (args "args"))
      then some (pushes (raw_items (args "args")))
      else if name == "github" && is_raw_pr_create (raw_items (args "args"))
      then some (creates_pull_request (raw_items (args "args")))
      else none

-- The request that is shown: one of the four, or one with the tool and the policy's reason.
pub data ShownRequest : Type 0 where
  established : ApprovalNeed → ShownRequest
  generic : String → String → ShownRequest

unfoldable pub describe_confirmation :
    (String → Bool) → String → (String → Option ArgValue) → String → ShownRequest
unfolding classify_approval_needed
describe_confirmation is_destructive name args policy_reason =
    elim (classify_approval_needed is_destructive name args) [
      | none ↦ generic name policy_reason
      | some need ↦ established need
    ]

pub data Settlement : Type 0 where
  resolved : Bool → Settlement
  rejected : Settlement

pub record ApprovalBroker : Type 0 where
  pub auto_approve : Bool
  pub has_responder : Bool
  pub pending : List ℕ
  pub seq : ℕ
  pub outcomes : Dict ℕ Settlement

-- What `request` returns: a promise that is resolved already, or one that waits.
pub data Requested : Type 0 where
  approved_at_once : Requested
  waits : ℕ → Requested

unfoldable pub approval_broker : Bool → ApprovalBroker
approval_broker auto_approve = record {
  auto_approve = auto_approve;
  has_responder = false;
  pending = [];
  seq = 0;
  outcomes = [];
}

unfoldable pub set_responder : Bool → ApprovalBroker → ApprovalBroker
set_responder is_there b = record b { has_responder = is_there }

-- A promise keeps its first settlement.
unfoldable pub settle : ℕ → Settlement → Dict ℕ Settlement → Dict ℕ Settlement
settle id s d = elim (get id d) [ none ↦ set id s d | some t ↦ d ]

-- `request`; the flag says that the responder throws in place of returning a promise, which
-- rejects the promise of the request and leaves its entry.
unfoldable pub request : Bool → ApprovalBroker → ApprovalBroker × Requested
request throws b = if b.auto_approve || not b.has_responder then (b, approved_at_once) else (
  record b {
    pending = b.pending ++ suc b.seq ∷ [];
    seq = suc b.seq;
    outcomes = if throws then settle (suc b.seq) rejected b.outcomes else b.outcomes;
  },
  waits (suc b.seq),
)

abbrev pub resolve_one : ℕ → Bool → ApprovalBroker → ApprovalBroker
resolve_one id approved b = record b {
  pending = remove id b.pending;
  outcomes = settle id (resolved approved) b.outcomes;
}

-- The responder's promise for the request `id` is fulfilled.
unfoldable pub answer : ℕ → Bool → ApprovalBroker → ApprovalBroker
answer id approved b = if includes id b.pending then resolve_one id approved b else b

-- The responder's promise for the request `id` is rejected.
unfoldable pub fail : ℕ → ApprovalBroker → ApprovalBroker
unfolding answer
fail id b = answer id false b

abbrev pub resolve_each : Bool → List ℕ → ApprovalBroker → ApprovalBroker
resolve_each approved [] b = b
resolve_each approved (id ∷ ids) b = resolve_each approved ids (resolve_one id approved b)

unfoldable pub resolve_all : Bool → ApprovalBroker → ApprovalBroker
resolve_all approved b = resolve_each approved b.pending b

-- Calls of a broker and of its responder.
pub data BrokerCall : Type 0 where
  sets_responder requests : Bool → BrokerCall
  answers : ℕ → Bool → BrokerCall
  fails : ℕ → BrokerCall
  resolves_all : Bool → BrokerCall

abbrev pub call : BrokerCall → ApprovalBroker → ApprovalBroker
call (sets_responder is_there) b = set_responder is_there b
call (requests throws) b = (request throws b).0
call (answers id approved) b = answer id approved b
call (fails id) b = fail id b
call (resolves_all approved) b = resolve_all approved b

abbrev pub run_calls : List BrokerCall → ApprovalBroker → ApprovalBroker
run_calls [] b = b
run_calls (c ∷ cs) b = run_calls cs (call c b)
