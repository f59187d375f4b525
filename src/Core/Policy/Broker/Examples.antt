-- ===== src/Core/Policy/Broker/Examples.antt =====
-- A broker that is asked three times, and the theorems at it.
use devagent_ts.Base.{
  ℕ, ◌≤◌, ◌≡◌, refl, Bool, true, false, none, some, String, List, [], ◌∷◌, ◌↔◌, is_empty, nat_eq,
  if◌then◌else◌, ◌==◌, string_eq,
}
use devagent_ts.Base.Dict.{get, set}
use devagent_ts.Core.Policy.Tools.{
  ToolDefinition, high, optional, no_side_effects, default_execution_spec,
}
use devagent_ts.Core.Policy.Rules.{PolicyRequest, items, word, thing}
use devagent_ts.Core.Policy.ArgRules.{
  destructive_shell_rule, git_publish_rule, delete_file_rule, items_or_empty, string_of,
  starts_with_word,
}
use devagent_ts.Core.Policy.Engine.{arg_rules, first_decision}
use devagent_ts.Core.Policy.Broker.{
  raw_items, is_push, is_word, ApprovalNeed, pushes, classify_approval_needed, Settlement, resolved,
  rejected, approval_broker, set_responder, settle, request, answer, resolve_all, BrokerCall,
  sets_responder, requests, answers, fails, run_calls,
}
use devagent_ts.Core.Policy.Broker.Classification.{has_words, classified_iff}
use devagent_ts.Core.Policy.Broker.Promises.{resolve_all_settles}

abbrev git : ToolDefinition
git = record {
  id = "git";
  description = "";
  capabilities = [];
  pack = "git";
  tags = [];
  risk = high;
  side_effects = no_side_effects;
  execution = default_execution_spec;
  confirmation = optional;
  network = none;
}

abbrev push : PolicyRequest
push = record {
  tool = git;
  args = λ name. if name == "args" then some (items (word "push" ∷ word "origin" ∷ [])) else none;
  agent_id = "devagent";
  run_id = "run_1";
  mode = none;
  unattended = false;
  environment = none;
  budget = none;
}

abbrev no_pattern : String → Bool
no_pattern s = false

push_is_classified :
    classify_approval_needed no_pattern "git" push.args
    ≡ some (pushes (word "push" ∷ word "origin" ∷ []))
unfolding classify_approval_needed raw_items is_push is_word
push_is_classified = refl

classified_iff_example :
    ((n : ApprovalNeed) × (classify_approval_needed no_pattern push.tool.id push.args ≡ some n)) ↔ (
      ((first_decision (arg_rules no_pattern false) push).require_confirmation ≡ true)
      × (has_words push ≡ true))
classified_iff_example = classified_iff no_pattern false push

-- The array [["push"]]: the rule asks, and the classification finds nothing.
abbrev nested : PolicyRequest
nested = record push {
  args = λ name. if name == "args" then some (items (thing "push" ∷ [])) else none;
}

nested_is_asked :
    ((first_decision (arg_rules no_pattern false) nested).require_confirmation ≡ true)
    × (classify_approval_needed no_pattern "git" nested.args ≡ none)
unfolding classify_approval_needed raw_items is_push is_word first_decision arg_rules
    destructive_shell_rule git_publish_rule delete_file_rule items_or_empty string_of
    starts_with_word
nested_is_asked = (refl, refl)

-- The first request is answered, the responder throws at the second, the third waits.
abbrev three_requests : List BrokerCall
three_requests =
    sets_responder true ∷ requests false ∷ requests true ∷ requests false ∷ answers 1 false ∷ []

three_outcomes :
    (resolve_all true (run_calls three_requests (approval_broker false))).outcomes
    ≡ (2, rejected) ∷ (1, resolved false) ∷ (3, resolved true) ∷ []
unfolding resolve_all approval_broker set_responder request answer settle get set
three_outcomes = refl

resolve_all_settles_example :
    let b = run_calls three_requests (approval_broker false) in
    let after = resolve_all true b in
    (is_empty after.pending ≡ true)
    × ((j : ℕ)
        → 1 ≤ j
        → j ≤ b.seq
        → (v : Settlement) × (get j after.outcomes ≡ some v)
          × (get j b.outcomes ≡ none → v ≡ resolved true)
          × ((w : Settlement) → get j b.outcomes ≡ some w → v ≡ w)
          × (get j (run_calls (fails 1 ∷ []) after).outcomes ≡ some v))
resolve_all_settles_example = resolve_all_settles false true three_requests (fails 1 ∷ [])
