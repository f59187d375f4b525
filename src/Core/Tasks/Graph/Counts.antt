-- ===== src/Core/Tasks/Graph/Counts.antt =====
-- `summary` and `settled` of src/core/tasks/task-graph.ts.
use devagent_ts.Base.{
  ◌∙◌, if◌then◌else◌, ℕ, suc, ◌+◌, true, not, [], ◌∷◌, ◌≡◌, ◌↔◌, refl, arith, length, count,
  Bool-cases, inl, inr,
}
use devagent_ts.Core.Tasks.Graph.Nodes.{GraphNodeStatus, is_terminal, pending}
use devagent_ts.Core.Tasks.Graph.{Graph, Summary, summary_from, summary, settled, tally}

abbrev pub sum_of : Summary → ℕ
sum_of s = s.completed + s.failed + s.skipped + s.cancelled + s.blocked + s.pending + s.running

abbrev pub open_of : Summary → ℕ
open_of s = s.blocked + s.pending + s.running

tally_lem :
    (x : GraphNodeStatus) (s : Summary)
    → (sum_of (tally x s) ≡ suc (sum_of s))
      × ((tally x s).total ≡ s.total)
      × (open_of (tally x s) ≡ (if is_terminal x then open_of s else suc (open_of s)))
unfolding tally
tally_lem pending s = (omega arith, refl, omega arith)
tally_lem _ s = (omega arith, refl, omega arith)

summary_from_lem :
    (s : Summary) (g : Graph)
    → (sum_of (summary_from s g) ≡ sum_of s + length g)
      × ((summary_from s g).total ≡ s.total)
      × (open_of (summary_from s g) ≡ open_of s + count (λ n. not (is_terminal n.status)) g)
unfolding summary_from
summary_from_lem s [] = (omega arith, refl, omega arith)
summary_from_lem s (n ∷ g) =
    let (a, b, c) = summary_from_lem (tally n.status s) g in
    let (d, e, f) = tally_lem n.status s in (omega arith, b ∙ e, ground arith)

count-all : (g : Graph) → (count (λ n. not (is_terminal n.status)) g ≡ 0) ↔ (settled g ≡ true)
unfolding settled
count-all [] = (λ h. refl, λ h. refl)
count-all (n ∷ g) =
    let (to, from) = count-all g in
    elim (Bool-cases (is_terminal n.status)) [
      | inl e ↦ (λ h. ground (arith, to), λ h. ground (arith, from))
      | inr e ↦ (λ h. ground arith, λ h. ground arith)
    ]

-- The seven counts of a summary add up to its total, which is the number of nodes, and the graph
-- is settled exactly when the counts of blocked, pending and running nodes are all zero.
pub summary_counts :
    (g : Graph)
    → (sum_of (summary g) ≡ (summary g).total)
      × ((summary g).total ≡ length g)
      × ((settled g ≡ true)
          ↔ (((summary g).blocked ≡ 0) × ((summary g).pending ≡ 0) × ((summary g).running ≡ 0)))
unfolding summary
summary_counts g =
    let (sum, total, opens) = summary_from_lem _ g in
    let (to, from) = count-all g in
    (
      omega arith,
      total,
      (
        λ h. let none_open = from h in (omega arith, omega arith, omega arith),
        λ (a, b, c). to (omega arith),
      ),
    )
