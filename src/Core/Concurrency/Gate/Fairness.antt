-- ===== src/Core/Concurrency/Gate/Fairness.antt =====
-- The two lanes of src/core/concurrency/gate.ts.
use mathlib.Core.Path.{subst}
use devagent_ts.Base.{
  ◌∙◌, ==-refl, includes-append, sym, ◌<◌, ◌⊎◌, ap, ℕ, suc, ◌+◌, ◌≤◌, true, Option, none, some,
  List, [], ◌∷◌, ◌++◌, length, ltb, includes, ◌≡◌, refl, arith, nat_eq, Bool-cases, inl, inr,
}
use devagent_ts.Core.Concurrency.Gate.{Gate, Entry, take_next, choose}

-- Entries join the ends of the two queues.
abbrev pub arrives : Gate → List Entry × List Entry → Gate
arrives g (critical, normal) = record g {
  critical_queue = g.critical_queue ++ critical;
  normal_queue = g.normal_queue ++ normal;
}

abbrev pub promises : Option Entry → List ℕ
promises none = []
promises (some e) = e.promise ∷ []

-- The promises of the entries that a row of choices of `dispatchNext` takes, where before each of
-- them some entries have joined the queues.
unfoldable pub taken : Gate → List (List Entry × List Entry) → List ℕ
taken g [] = []
taken g (a ∷ later) = let (g', next) = take_next (arrives g a) in promises next ++ taken g' later

-- With the entry `e` first in the normal queue, either it is taken, or a critical one is, fewer
-- than ten of them having been taken since the last normal one.
abbrev Choice : Gate → Entry → List Entry → Gate × Option Entry → Type 0
Choice g e rest r =
    (r.1 ≡ some e)
    ⊎ ((r.0.normal_queue ≡ e ∷ rest)
        × (r.0.consecutive_critical ≡ suc g.consecutive_critical)
        × (g.consecutive_critical < 10))

choose-Choice :
    (g : Gate) (cs : List Entry) (e : Entry) (rest : List Entry)
    → g.normal_queue ≡ e ∷ rest
    → Choice g e rest (choose g cs (e ∷ rest))
unfolding choose
choose-Choice g [] e rest h = inl refl
choose-Choice g (c ∷ cs) e rest h = elim (Bool-cases (ltb g.consecutive_critical 10)) [
  | inl few ↦ rw few (inr (h, refl, ground arith))
  | inr many ↦ rw many (inl refl)
]

take_next-Choice :
    (g : Gate) (e : Entry) (rest : List Entry)
    → g.normal_queue ≡ e ∷ rest
    → Choice g e rest (take_next g)
unfolding take_next
take_next-Choice g e rest h =
    subst (λ l. Choice g e rest (choose g g.critical_queue l)) (sym h)
      (choose-Choice g g.critical_queue e rest h)

-- The first entry of the normal queue is taken within the next eleven choices of `dispatchNext`,
-- and sooner the more critical entries have been taken in a row before, however many entries
-- join the two queues meanwhile.
pub normal_is_taken :
    (g : Gate) (e : Entry) (rest : List Entry) (later : List (List Entry × List Entry))
    → g.normal_queue ≡ e ∷ rest
    → 11 ≤ length later + g.consecutive_critical
    → 1 ≤ length later
    → includes e.promise (taken g later) ≡ true
unfolding taken
normal_is_taken g e rest [] h long some_left = absurd (omega arith)
normal_is_taken g e rest (a ∷ later) h long some_left =
    let g' = (take_next (arrives g a)).0 in
    elim (take_next-Choice (arrives g a) e (rest ++ a.1) (ap (λ (l : List Entry). l ++ a.1) h)) [
      | inl now ↦ rw now (ground (arith, ==-refl e.promise))
      | inr (kept, counted, few) ↦
          includes-append e.promise (promises (take_next (arrives g a)).1) (taken g' later)
          ∙ ground (
            arith,
            normal_is_taken g' e (rest ++ a.1) later kept (omega (arith, long, counted))
                (omega (arith, long, few)),
          )
    ]
