-- ===== src/Core/Concurrency/Locks/Serving.antt =====
-- What the first call of a release function does, src/core/concurrency/resource-locks.ts.
use devagent_ts.Base.{
  ==-refl, ℕ, ◌<◌, Bool, true, false, not, Option, none, some, String, List, [], ◌∷◌, ◌++◌, ◌==◌,
  ◌≡◌, refl, sym, ap, ◌∙◌, arith, filter, find?, is_empty, includes, nat_eq, string_eq, All,
  Bool-cases, inl, inr, ◌⊎◌,
}
use devagent_ts.Core.Concurrency.Locks.{
  Registry, empty, Waiter, holder, holders_of, is_free_set, grant, without_waiter, serve, pump,
  free_holder, release, Call, run, serving_order, is_critical, Resolved,
}
use devagent_ts.Core.Concurrency.Locks.Exclusion.{
  IsConsistent, holders_of-grant, holders_of-free_holder, run-IsConsistent, empty-IsConsistent,
}
use devagent_ts.Core.Concurrency.Locks.Wakeup.{
  IsBusy, run-IsAwake, release-IsAwake, find?-append-none,
}

find?-none-All {ℓ} :
    {A : Type ℓ} (p : A → Bool) (l : List A) → find? p l ≡ none → All (λ x. p x ≡ false) l
find?-none-All p [] h = tt
find?-none-All p (x ∷ l) h = elim (Bool-cases (p x)) [
  | inl y ↦ absurd (ground arith)
  | inr n ↦ (n, find?-none-All p l (ground arith))
]

All-unfilter {ℓ} :
    {A : Type ℓ} (P : A → Type 0) (p : A → Bool) (l : List A)
    → All P (filter p l)
    → All P (filter (λ x. not (p x)) l)
    → All P l
All-unfilter P p [] h k = tt
All-unfilter P p (x ∷ l) h k = elim (Bool-cases (p x)) [
  | inl y ↦
      let a : All P (x ∷ filter p l) = rw y at h in
      let b : All P (filter (λ z. not (p z)) l) = rw y at k in (a.0, All-unfilter P p l a.1 b)
  | inr n ↦
      let a : All P (filter p l) = rw n at h in
      let b : All P (x ∷ filter (λ z. not (p z)) l) = rw n at k in (b.0, All-unfilter P p l a b.1)
]

-- No waiter can be served.
none_served :
    (p : Waiter → Bool) (ws : List Waiter)
    → find? p (serving_order ws) ≡ none
    → All (λ w. p w ≡ false) ws
unfolding serving_order
none_served p ws h =
    let (a, b) =
      find?-append-none p (filter (λ w. is_critical w.priority) ws)
        (filter (λ w. not (is_critical w.priority)) ws) h in
    All-unfilter (λ w. p w ≡ false) (λ w. is_critical w.priority) ws (find?-none-All p _ a)
      (find?-none-All p _ b)

-- The first element of a list that passes a test.
abbrev pub IsFirst {ℓ} : {A : Type ℓ} → (A → Bool) → List A → A → Type ℓ
IsFirst {A = A} p l a =
    (front : List A) × (back : List A) × (l ≡ front ++ a ∷ back)
    × All (λ x. p x ≡ false) front
    × (p a ≡ true)

find?-IsFirst {ℓ} :
    {A : Type ℓ} (p : A → Bool) (l : List A) (a : A) → find? p l ≡ some a → IsFirst p l a
find?-IsFirst p [] a h = cc h
find?-IsFirst p (x ∷ l) a h = elim (Bool-cases (p x)) [
  | inl y ↦
      let same : x ≡ a = ground arith in ([], l, ap (λ i. i ∷ l) same, tt, ap p (sym same) ∙ y)
  | inr n ↦
      let (front, back, e, none_there, there) = find?-IsFirst p l a (ground arith) in
      (x ∷ front, back, ap (λ i. x ∷ i) e, (n, none_there), there)
]

-- A release after which nobody is served: the waiters stay, and none of them could be.
abbrev pub NobodyServed : Registry → Registry → Resolved → Type 0
NobodyServed reg after r =
    (r ≡ none)
    × (after.waiters ≡ reg.waiters)
    × All (λ w. is_free_set after w.resources ≡ false) after.waiters

-- A release by which a waiter is served: of those whose resources are free, the first in the order
-- of service. It leaves the queue, and a new holder that its promise is resolved with holds all
-- its resources.
abbrev pub OneServed : Registry → Registry → ℕ → Resolved → Type 0
OneServed reg after id r =
    (w : Waiter) × (r ≡ some (w.promise, holder reg.next_holder_id))
    × IsFirst (λ v. is_free_set (free_holder reg id) v.resources) (serving_order reg.waiters) w
    × (after.waiters ≡ without_waiter w.promise reg.waiters)
    × ((s : String)
        → includes s w.resources ≡ true
        → includes reg.next_holder_id (holders_of after s) ≡ true)

-- A holder that is freed holds nothing.
freed :
    (reg : Registry) (id : ℕ)
    → IsConsistent reg
    → (s : String) → includes id (holders_of (free_holder reg id) s) ≡ false
freed reg id h s = ground (arith, holders_of-free_holder reg id s id, h.agree s id, ==-refl id)

serve_lem :
    (reg : Registry) (id : ℕ) (w : Option Waiter)
    → IsConsistent reg
    → id < reg.next_holder_id
    → find? (λ v. is_free_set (free_holder reg id) v.resources) (serving_order reg.waiters) ≡ w
    → let (after, r) = serve (free_holder reg id) w in
      ((s : String) → includes id (holders_of after s) ≡ false)
      × (NobodyServed reg after r ⊎ OneServed reg after id r)
unfolding serve
serve_lem reg id none h below e =
    unfold free_holder in
    (
      freed reg id h,
      inl (
        refl,
        refl,
        none_served (λ v. is_free_set (free_holder reg id) v.resources) reg.waiters e,
      ),
    )
serve_lem reg id (some w) h below e =
    unfold free_holder in
    unfold grant in
    (
      λ s.
          let other : (reg.next_holder_id == id) ≡ false = ground (arith, below) in
          ground (
            arith,
            holders_of-grant
                (record (free_holder reg id) { waiters = without_waiter w.promise reg.waiters })
                w.resources s id,
            freed reg id h s,
            other,
          ),
      inr (
        w,
        refl,
        find?-IsFirst (λ v. is_free_set (free_holder reg id) v.resources)
            (serving_order reg.waiters) w e,
        refl,
        λ s m. ground (
          arith,
          m,
          ==-refl reg.next_holder_id,
          holders_of-grant
              (record (free_holder reg id) { waiters = without_waiter w.promise reg.waiters })
              w.resources s reg.next_holder_id,
        ),
      ),
    )

-- After any series of calls and timer events on a new registry, the first call of the release
-- function of a holder ends with that holder holding nothing. Either no waiter is served, and
-- then the queue is as before and each waiter in it waits for a resource that is held; or one
-- waiter is served, which is the first in the order of service (the critical ones before the
-- others, each in the order of their arrival) whose resources are then free: it leaves the queue,
-- and its promise is resolved with the release function of a new holder that holds them all. As
-- long as a waiter is left, some holder holds a resource.
pub release_serves :
    (cs : List Call) (id : ℕ)
    → id < (run empty cs).next_holder_id
    → includes id (run empty cs).released ≡ false
    → let reg = run empty cs in
      let (after, r) = release reg (holder id) in
      ((s : String) → includes id (holders_of after s) ≡ false)
      × (NobodyServed reg after r ⊎ OneServed reg after id r)
      × (is_empty after.waiters ≡ false → IsBusy after)
unfolding release pump
release_serves cs id below first =
    let reg = run empty cs in
    let busy = (release-IsAwake reg id (run-IsAwake cs)).served in
    let (gone, served) : ((s : String)
          → includes id (holders_of (release reg (holder id)).0 s) ≡ false)
        × (NobodyServed reg (release reg (holder id)).0 (release reg (holder id)).1
            ⊎ OneServed reg (release reg (holder id)).0 id (release reg (holder id)).1) =
      rw (first, release)
        (unfold free_holder in
          serve_lem reg id
            (find? (λ v. is_free_set (free_holder reg id) v.resources) (serving_order reg.waiters))
            (run-IsConsistent empty cs empty-IsConsistent) below refl) in
    (gone, served, busy)
