-- ===== src/Core/Policy/ArgRules.antt =====
-- The rules that look at arguments, src/core/policy/rules.ts. `is_destructive` stands for the
-- test of `DESTRUCTIVE_SHELL_PATTERNS` by the platform's regular expressions.
use devagent_ts.Base.{
  Bool, false, not, ◌&&◌, ◌||◌, Option, none, some, String, string_eq, List, [], ◌∷◌, map,
  if◌then◌else◌, ◌==◌,
}
use devagent_ts.Core.Policy.Rules.{
  Element, word, thing, ArgValue, text, items, other, PolicyRule, confirmed_by, allowed_by,
}

-- `typeof args.command === "string" ? args.command : ""`
unfoldable pub text_or_empty : Option ArgValue → String
text_or_empty (some (text s)) = s
text_or_empty (some (items l)) = ""
text_or_empty (some other) = ""
text_or_empty none = ""

-- String(x)
unfoldable pub string_of : Element → String
string_of (word s) = s
string_of (thing s) = s

-- `Array.isArray(args.args) ? args.args.map(String) : []`
unfoldable pub items_or_empty : Option ArgValue → List String
unfolding string_of
items_or_empty (some (items l)) = map string_of l
items_or_empty (some (text s)) = []
items_or_empty (some other) = []
items_or_empty none = []

-- `argv[0] === s`
unfoldable pub starts_with_word : String → List String → Bool
starts_with_word s [] = false
starts_with_word s (w ∷ ws) = w == s

-- `argv[0] === "pr" && argv[1] === "create"`
unfoldable pub is_pr_create : List String → Bool
is_pr_create (w ∷ v ∷ ws) = w == "pr" && v == "create"
is_pr_create _ = false

module _ (is_destructive : String → Bool) where
  unfoldable pub destructive_shell_rule : Bool → PolicyRule
  destructive_shell_rule allow_benign_faces r =
      if not (r.tool.id == "run_shell")
      then none
      else if is_destructive (text_or_empty (r.args "command"))
      then some (confirmed_by "destructive-shell")
      else if allow_benign_faces
      then some (allowed_by "destructive-shell")
      else none

unfoldable pub git_publish_rule : Bool → PolicyRule
git_publish_rule allow_benign_faces r =
    let argv = items_or_empty (r.args "args") in
    if not (r.tool.id == "git" || r.tool.id == "github")
    then none
    else if r.tool.id == "git" && starts_with_word "push" argv
    then some (confirmed_by "git-publish")
    else if r.tool.id == "github" && is_pr_create argv
    then some (confirmed_by "git-publish")
    else if allow_benign_faces
    then some (allowed_by "git-publish")
    else none

unfoldable pub delete_file_rule : PolicyRule
delete_file_rule r =
    if not (r.tool.id == "delete_file") then none else some (confirmed_by "delete-file")
