-- ===== src/Core/Cancellation/Propagation.antt =====
-- What an aborted signal aborts, src/core/cancellation/cancellation.ts.
use devagent_ts.Base.Dict.{has-set}
use devagent_ts.Base.{
  each_of, All-both, All-filter_back, All-filter_test, All-map, ℕ, zero, suc, ◌+◌, ◌≤◌, ◌<◌, Bool,
  true, false, ◌||◌, some, nat_eq, List, [], ◌∷◌, ◌==◌, ◌≡◌, refl, sym, ap, ◌∙◌, arith, Bool-cases,
  inl, inr, ==-refl, ==-eq, All,
}
use devagent_ts.Base.Dict.{Dict, get, has, set, get-set, has-get}
use devagent_ts.Core.Cancellation.{AbortReason, Link, listeners, passed_on, abort_from}

abbrev Reasons : Type 0
Reasons = Dict ℕ AbortReason

-- What is aborted stays aborted, with the same reason.
abbrev pub Keeps : Reasons → Reasons → Type 0
Keeps d d' = (j : ℕ) (r : AbortReason) → get j d ≡ some r → get j d' ≡ some r

has-some : (j : ℕ) (d : Reasons) → has j d ≡ true → (r : AbortReason) × (get j d ≡ some r)
unfolding has get
has-some j [] h = cc h
has-some j ((i, w) ∷ d) h = elim (Bool-cases (i == j)) [
  | inl y ↦ (w, rw y refl)
  | inr n ↦ let (r, q) = has-some j d (ground (arith, h, n)) in (r, rw n q)
]

pub Keeps-has : (d d' : Reasons) (j : ℕ) → Keeps d d' → has j d ≡ true → has j d' ≡ true
Keeps-has d d' j k h = let (r, q) = has-some j d h in has-get j d' (k j r q)

pub Keeps-trans : (d d' d'' : Reasons) → Keeps d d' → Keeps d' d'' → Keeps d d''
Keeps-trans d d' d'' k k' j r h = k' j r (k j r h)

each_of-Keeps :
    (f : Link → Reasons → Reasons) (ls : List Link) (d : Reasons)
    → ((l : Link) (e : Reasons) → Keeps e (f l e))
    → Keeps d (each_of f ls d)
each_of-Keeps f [] d k = λ j r h. h
each_of-Keeps f (l ∷ ls) d k = Keeps-trans d (f l d) _ (k l d) (each_of-Keeps f ls (f l d) k)

set-Keeps : (id : ℕ) (r : AbortReason) (d : Reasons) → has id d ≡ false → Keeps d (set id r d)
set-Keeps id r d fresh j s h = elim (Bool-cases (id == j)) [
  | inl y ↦ let there : has id d ≡ true = rw (==-eq id j y) (has-get j d h) in cc (fresh, there)
  | inr n ↦ get-set id j r d ∙ rw n h
]

shut :
    (id p : ℕ) (o c : Bool)
    → ((id == p || o) || c) ≡ true
    → ((p == id) ≡ true → c ≡ true)
    → (o || c) ≡ true
shut id p o c h k = ground arith

module _ (links : List Link) (n : ℕ) where
  -- Each link leads to a newer signal, one of the first `n`.
  abbrev pub IsForward : List Link → Type 0
  IsForward ls = All (λ l. (l.parent < l.child) × (l.child < n)) ls

  -- Where the parent of a link is aborted, its child is; links from the signals that `open_at`
  -- names are excepted.
  abbrev pub ClosedBut : (ℕ → Bool) → Reasons → Type 0
  ClosedBut open_at d =
      All (λ l. has l.parent d ≡ true → (open_at l.parent || has l.child d) ≡ true) links

  abbrev go : ℕ → AbortReason → Link → Reasons → Reasons
  go fuel r l d = abort_from links fuel l.child (passed_on l.label r) d

  pub abort_from-Keeps :
      (fuel id : ℕ) (r : AbortReason) (d : Reasons) → Keeps d (abort_from links fuel id r d)
  unfolding abort_from
  abort_from-Keeps zero id r d = λ j s h. h
  abort_from-Keeps (suc fuel) id r d = elim (Bool-cases (has id d)) [
    | inl y ↦ λ j s h. rw y h
    | inr m ↦ λ j s h. rw m (
        each_of-Keeps (go fuel r) (listeners id links) (set id r d)
          (λ l e. abort_from-Keeps fuel l.child (passed_on l.label r) e) j s
          (set-Keeps id r d m j s h))
  ]

  -- What the listeners' aborts do, where each of them aborts its signal and keeps what is closed.
  each_of-ClosedBut :
      (f : Link → Reasons → Reasons) (open_at : ℕ → Bool) (ls : List Link) (d : Reasons)
      → ((l : Link) (e : Reasons) → Keeps e (f l e))
      → All
          (λ l.
            (e : Reasons)
            → ClosedBut open_at e
            → ClosedBut open_at (f l e) × (has l.child (f l e) ≡ true))
          ls
      → ClosedBut open_at d
      → ClosedBut open_at (each_of f ls d) × All (λ l. has l.child (each_of f ls d) ≡ true) ls
  each_of-ClosedBut f open_at [] d k h c = (c, tt)
  each_of-ClosedBut f open_at (l ∷ ls) d k h c =
      let (here, hit) = h.0 d c in
      let (rest, hits) = each_of-ClosedBut f open_at ls (f l d) k h.1 here in
      (rest, (Keeps-has (f l d) _ l.child (each_of-Keeps f ls (f l d) k) hit, hits))

  child_enough :
      (fuel id parent child : ℕ)
      → n ≤ suc fuel + id
      → (parent == id) ≡ true
      → parent < child
      → n ≤ fuel + child
  child_enough fuel id parent child h k l = ground (arith, h, k, l)

  set_opens :
      (id : ℕ) (r : AbortReason) (d : Reasons) (open_at : ℕ → Bool) (l : Link)
      → (has l.parent d ≡ true → (open_at l.parent || has l.child d) ≡ true)
      → has l.parent (set id r d) ≡ true
      → ((id == l.parent || open_at l.parent) || has l.child (set id r d)) ≡ true
  set_opens id r d open_at l h k =
      ground (arith, h, k, has-set id l.parent r d, has-set id l.child r d)

  pub abort_from-ClosedBut :
      (fuel id : ℕ) (r : AbortReason) (d : Reasons) (open_at : ℕ → Bool)
      → IsForward links
      → n ≤ fuel + id
      → id < n
      → ClosedBut open_at d
      → ClosedBut open_at (abort_from links fuel id r d)
        × (has id (abort_from links fuel id r d) ≡ true)
  unfolding abort_from
  abort_from-ClosedBut zero id r d open_at forward enough known c =
      let never : ⊥ = omega (arith, enough, known) in absurd never
  abort_from-ClosedBut (suc fuel) id r d open_at forward enough known c =
      elim (Bool-cases (has id d)) [
        | inl y ↦ rw (y, abort_from) (c, y)
        | inr m ↦
            let inside : ℕ → Bool = λ j. id == j || open_at j in
            let marked : ClosedBut inside (set id r d) =
              All-map _ _ links (λ l h. set_opens id r d open_at l h) c in
            let ls = listeners id links in
            let (closed, hits) =
              each_of-ClosedBut (go fuel r) inside ls (set id r d)
                (λ l e. abort_from-Keeps fuel l.child (passed_on l.label r) e)
                (All-map _ _ ls
                  (λ l h e c'.
                    abort_from-ClosedBut fuel l.child (passed_on l.label r) e inside forward
                      (child_enough fuel id l.parent l.child enough h.0 h.1.0) h.1.1 c')
                  (All-filter_test _ (λ l. l.parent == id) links forward))
                marked in
            let here : has id (each_of (go fuel r) ls (set id r d)) ≡ true =
              Keeps-has (set id r d) _ id
                (each_of-Keeps (go fuel r) ls (set id r d)
                  (λ l e. abort_from-Keeps fuel l.child (passed_on l.label r) e))
                (has-set id id r d ∙ rw (==-refl id) refl) in
            rw (m, abort_from)
              (
                All-both links
                    (λ l a b k.
                      shut id l.parent (open_at l.parent)
                        (has l.child (each_of (go fuel r) ls (set id r d))) (a k) b)
                    closed (All-filter_back _ (λ l. l.parent == id) links hits),
                here,
              )
      ]

  each_of-only :
      (f : Link → Reasons → Reasons) (within : ℕ → Bool) (ls : List Link) (d : Reasons)
      → All (λ l. (e : Reasons) (j : ℕ) → has j (f l e) ≡ true → (has j e || within j) ≡ true) ls
      → (j : ℕ) → has j (each_of f ls d) ≡ true
      → (has j d || within j) ≡ true
  each_of-only f within [] d h j k = ground (arith, k)
  each_of-only f within (l ∷ ls) d h j k =
      ground (arith, each_of-only f within ls (f l d) h.1 j k, h.0 d j)

  set_only :
      (within : ℕ → Bool) (id j : ℕ) (r : AbortReason) (d : Reasons)
      → within id ≡ true
      → (has j (set id r d) || within j) ≡ true
      → (has j d || within j) ≡ true
  set_only within id j r d start h = elim (Bool-cases (id == j)) [
    | inl y ↦
        let there : within j ≡ true = ap within (sym (==-eq id j y)) ∙ start in
        ground (arith, there)
    | inr m ↦ ground (arith, h, m, has-set id j r d)
  ]

  -- Nothing is aborted outside a set of signals that has this one and, with a signal, those linked
  -- to it.
  pub abort_from-only :
      (fuel id : ℕ) (r : AbortReason) (d : Reasons) (within : ℕ → Bool)
      → All (λ l. within l.parent ≡ true → within l.child ≡ true) links
      → within id ≡ true
      → (j : ℕ) → has j (abort_from links fuel id r d) ≡ true
      → (has j d || within j) ≡ true
  unfolding abort_from
  abort_from-only zero id r d within down start j h = ground (arith, h)
  abort_from-only (suc fuel) id r d within down start j h = elim (Bool-cases (has id d)) [
    | inl y ↦ let h1 : has j d ≡ true = rw (y, abort_from) at h in ground (arith, h1)
    | inr m ↦
        let h1 : has j (each_of (go fuel r) (listeners id links) (set id r d)) ≡ true =
          rw (m, abort_from) at h in
        set_only within id j r d start (
          each_of-only (go fuel r) within (listeners id links) (set id r d)
            (All-map _ _ (listeners id links)
              (λ l q e i k.
                abort_from-only fuel l.child (passed_on l.label r) e within down
                  (q.1 (ap within (==-eq l.parent id q.0) ∙ start)) i k)
              (All-filter_test _ (λ l. l.parent == id) links down))
            j h1)
  ]
