-- ===== src/Core/Policy/Broker/Classification.antt =====
-- The classification of src/core/policy/approval-broker.ts against the rules of
-- src/core/policy/rules.ts.
use devagent_ts.Base.{
  ℕ, zero, suc, ◌&&◌, List, [], ◌∷◌, if◌then◌else◌, ◌∙◌, sym, Bool, true, false, Option, none, some,
  String, string_eq, ◌==◌, ◌≡◌, ◌↔◌, arith, refl, ==-eq,
}
use devagent_ts.Core.Policy.Rules.{
  PolicyRequest, ArgValue, Element, word, thing, text, items, other,
}
use devagent_ts.Core.Policy.ArgRules.{
  items_or_empty, starts_with_word, is_pr_create, destructive_shell_rule, git_publish_rule,
  delete_file_rule,
}
use devagent_ts.Core.Policy.Engine.{arg_rules, first_decision}
use devagent_ts.Core.Policy.Broker.{
  classify_approval_needed, ApprovalNeed, raw_items, is_push, is_raw_pr_create,
}

abbrev is_some {ℓ} : {A : Type ℓ} → Option A → Bool
is_some none = false
is_some (some a) = true

is_some_iff {ℓ} : {A : Type ℓ} (o : Option A) → ((a : A) × (o ≡ some a)) ↔ (is_some o ≡ true)
is_some_iff none = (λ h. cc h.1, λ h. cc h)
is_some_iff (some a) = (λ h. refl, λ h. (a, refl))

not_both : (name a b : String) → (a == b) ≡ false → (name == a) ≡ true → (name == b) ≡ false
not_both name a b h k = rw (==-eq name a k) h

-- The first `n` elements are strings, those that there are.
abbrev pub are_words : ℕ → List Element → Bool
are_words n [] = true
are_words zero (x ∷ xs) = true
are_words (suc n) (word w ∷ xs) = are_words n xs
are_words (suc n) (thing t ∷ xs) = false

-- The arguments that decide about a call of `git` or `github` are strings.
abbrev pub has_words : PolicyRequest → Bool
has_words r =
    if r.tool.id == "git"
    then are_words 1 (raw_items (r.args "args"))
    else if r.tool.id == "github"
    then are_words 2 (raw_items (r.args "args"))
    else true

is_push-words :
    (o : Option ArgValue)
    → is_push (raw_items o)
      ≡ (starts_with_word "push" (items_or_empty o) && are_words 1 (raw_items o))
unfolding is_push raw_items items_or_empty starts_with_word
is_push-words none = refl
is_push-words (some (text s)) = refl
is_push-words (some other) = refl
is_push-words (some (items [])) = refl
is_push-words (some (items (word w ∷ []))) = ground arith
is_push-words (some (items (word w ∷ x ∷ xs))) = ground arith
is_push-words (some (items (thing t ∷ xs))) = ground arith

is_raw_pr_create-words :
    (o : Option ArgValue)
    → is_raw_pr_create (raw_items o)
      ≡ (is_pr_create (items_or_empty o) && are_words 2 (raw_items o))
unfolding is_raw_pr_create raw_items items_or_empty is_pr_create
is_raw_pr_create-words none = refl
is_raw_pr_create-words (some (text s)) = refl
is_raw_pr_create-words (some other) = refl
is_raw_pr_create-words (some (items [])) = refl
is_raw_pr_create-words (some (items (x ∷ []))) = refl
is_raw_pr_create-words (some (items (thing t ∷ y ∷ ys))) = ground arith
is_raw_pr_create-words (some (items (word w ∷ thing t ∷ ys))) = ground arith
is_raw_pr_create-words (some (items (word w ∷ word v ∷ []))) = ground arith
is_raw_pr_create-words (some (items (word w ∷ word v ∷ y ∷ ys))) = ground arith

is_some-classify :
    (is_destructive : String → Bool) (allow_benign_faces : Bool) (r : PolicyRequest)
    → is_some (classify_approval_needed is_destructive r.tool.id r.args) ≡ (
        (first_decision (arg_rules is_destructive allow_benign_faces) r).require_confirmation
        && has_words r)
unfolding classify_approval_needed first_decision arg_rules destructive_shell_rule git_publish_rule
    delete_file_rule
is_some-classify is_destructive allow_benign_faces r = ground (
  arith,
  is_push-words (r.args "args"),
  is_raw_pr_create-words (r.args "args"),
  not_both r.tool.id "delete_file" "run_shell" refl,
  not_both r.tool.id "delete_file" "git" refl,
  not_both r.tool.id "delete_file" "github" refl,
  not_both r.tool.id "run_shell" "git" refl,
  not_both r.tool.id "run_shell" "github" refl,
  not_both r.tool.id "git" "github" refl,
)

and_iff : (a b : Bool) → ((a && b) ≡ true) ↔ ((a ≡ true) × (b ≡ true))
and_iff true b = (λ h. (refl, h), λ h. h.1)
and_iff false b = (λ h. cc h, λ h. cc h.0)

-- A product that asks before the gateway does, by `classifyApprovalNeeded`, asks about exactly the
-- calls for which the argument rules want a confirmation (whether these let harmless calls pass
-- or leave them to the later rules) and in which, for `git`, the first element of the array
-- `args` is a string and, for `github`, its first two are, where they are there. For the rules
-- read the elements after `String(x)`, and the classification as they are.
pub classified_iff :
    (is_destructive : String → Bool) (allow_benign_faces : Bool) (r : PolicyRequest)
    → ((n : ApprovalNeed) × (classify_approval_needed is_destructive r.tool.id r.args ≡ some n)) ↔ (
        ((first_decision (arg_rules is_destructive allow_benign_faces) r).require_confirmation
          ≡ true)
        × (has_words r ≡ true))
classified_iff is_destructive allow_benign_faces r =
    let (to, from) = is_some_iff (classify_approval_needed is_destructive r.tool.id r.args) in
    let same = is_some-classify is_destructive allow_benign_faces r in
    let (split, joined) = and_iff _ (has_words r) in
    (λ h. split (sym same ∙ to h), λ h. from (same ∙ joined h))
