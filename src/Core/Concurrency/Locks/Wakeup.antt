-- ===== src/Core/Concurrency/Locks/Wakeup.antt =====
-- Where there is a waiter there is a holder, src/core/concurrency/resource-locks.ts.
use mathlib.Core.Path.{subst}
use devagent_ts.Base.{
  All-filter, eq_iff, ℕ, Bool, true, false, not, ◌&&◌, Option, none, some, String, List, [], ◌∷◌,
  ◌++◌, ◌==◌, ◌≡◌, refl, arith, any, filter, find?, is_empty, includes, nat_eq, string_eq, All,
  All-append, Bool-cases, inl, inr, ==-refl,
}
use devagent_ts.Core.Concurrency.Locks.{
  Registry, empty, Waiter, Release, nothing, holder, holders_of, is_free, is_free_set, grant,
  try_acquire, without_waiter, serve, pump, free_holder, release, enqueue, acquire, time_out, Call,
  acquires, tries, releases, times_out, step, run, serving_order, is_critical,
}
use devagent_ts.Core.Concurrency.Locks.Exclusion.{holders_of-grant}

-- Somebody holds something.
abbrev pub IsBusy : Registry → Type 0
IsBusy reg = (r : String) × (id : ℕ) × (includes id (holders_of reg r) ≡ true)

-- Every waiter waits for something, and where there is a waiter there is a holder.
pub record IsAwake (reg : Registry) : Type 0 where
  pub wanted : All (λ w. is_empty w.resources ≡ false) reg.waiters
  pub served : is_empty reg.waiters ≡ false → IsBusy reg

an_element : (l : List ℕ) → is_empty l ≡ false → (id : ℕ) × (includes id l ≡ true)
an_element [] h = cc
an_element (x ∷ l) h = (x, ground (arith, ==-refl x))

not_free-IsBusy : (reg : Registry) (r : String) → is_free reg r ≡ false → IsBusy reg
unfolding is_free
not_free-IsBusy reg r h = let (id, m) = an_element (holders_of reg r) h in (r, id, m)

contended-IsBusy :
    (reg : Registry) (rs : List String) → any (λ r. not (is_free reg r)) rs ≡ true → IsBusy reg
contended-IsBusy reg [] h = cc
contended-IsBusy reg (r ∷ rs) h = elim (Bool-cases (is_free reg r)) [
  | inl e ↦ contended-IsBusy reg rs (ground arith)
  | inr e ↦ not_free-IsBusy reg r e
]

not_free_set-IsBusy : (reg : Registry) (rs : List String) → is_free_set reg rs ≡ false → IsBusy reg
unfolding is_free_set
not_free_set-IsBusy reg [] h = cc
not_free_set-IsBusy reg (r ∷ rs) h = elim (Bool-cases (is_free reg r)) [
  | inl e ↦ not_free_set-IsBusy reg rs (ground arith)
  | inr e ↦ not_free-IsBusy reg r e
]

grant-IsBusy : (reg : Registry) (rs : List String) → is_empty rs ≡ false → IsBusy (grant reg rs).0
grant-IsBusy reg [] h = cc
grant-IsBusy reg (r ∷ rs) h = (
  r,
  reg.next_holder_id,
  ground (arith, holders_of-grant reg (r ∷ rs) r reg.next_holder_id, eq_iff r r),
)

grant_keeps-IsBusy : (reg : Registry) (rs : List String) → IsBusy reg → IsBusy (grant reg rs).0
grant_keeps-IsBusy reg rs (r, id, h) = (r, id, ground (arith, holders_of-grant reg rs r id))

All-without_waiter {ℓ} :
    (P : Waiter → Type ℓ) (promise : ℕ) (ws : List Waiter)
    → All P ws
    → All P (without_waiter promise ws)
unfolding without_waiter
All-without_waiter P promise [] h = h
All-without_waiter P promise (w ∷ ws) h = elim (Bool-cases (w.promise == promise)) [
  | inl e ↦ rw e h.1
  | inr e ↦ rw e (h.0, All-without_waiter P promise ws h.1)
]

pub find?-append-none {ℓ} :
    {A : Type ℓ} (p : A → Bool) (xs ys : List A)
    → find? p (xs ++ ys) ≡ none
    → (find? p xs ≡ none) × (find? p ys ≡ none)
find?-append-none p [] ys h = (refl, h)
find?-append-none p (x ∷ xs) ys h = ground (arith, find?-append-none p xs ys)

-- The waiter at the front of the queue was tried.
find?-serving_order-none :
    (p : Waiter → Bool) (w : Waiter) (ws : List Waiter)
    → find? p (serving_order (w ∷ ws)) ≡ none
    → p w ≡ false
unfolding serving_order
find?-serving_order-none p w ws h = ground (
  arith,
  find?-append-none p (filter (λ v. is_critical v.priority) (w ∷ ws))
      (filter (λ v. not (is_critical v.priority)) (w ∷ ws)),
)

abbrev Wants : Waiter → Type 0
Wants w = is_empty w.resources ≡ false

find?-All {ℓ} :
    {A : Type ℓ} (P : A → Type 0) (p : A → Bool) (l : List A) (a : A)
    → All P l
    → find? p l ≡ some a
    → P a
find?-All P p [] a h e = cc
find?-All P p (x ∷ l) a h e = elim (Bool-cases (p x)) [
  | inl q ↦ let same : x ≡ a = ground arith in subst P same h.0
  | inr q ↦ find?-All P p l a h.1 (ground arith)
]

serving_order-All : (P : Waiter → Type 0) (ws : List Waiter) → All P ws → All P (serving_order ws)
unfolding serving_order
serving_order-All P ws h =
    All-append P (filter (λ w. is_critical w.priority) ws)
      (filter (λ w. not (is_critical w.priority)) ws) (All-filter P _ ws h) (All-filter P _ ws h)

serve-IsAwake :
    (reg : Registry) (o : Option Waiter)
    → All Wants reg.waiters
    → (o ≡ none → is_empty reg.waiters ≡ false → IsBusy reg)
    → ((w : Waiter) → o ≡ some w → Wants w)
    → IsAwake (serve reg o).0
unfolding serve
serve-IsAwake reg none wanted idle chosen = record { wanted = wanted; served = idle refl }
serve-IsAwake reg (some w) wanted idle chosen = record {
  wanted = unfold grant in All-without_waiter Wants w.promise reg.waiters wanted;
  served = λ _.
      grant-IsBusy (record reg { waiters = without_waiter w.promise reg.waiters }) w.resources
        (chosen w refl);
}

first_waiter-IsBusy :
    (reg : Registry) (ws : List Waiter)
    → find? (λ w. is_free_set reg w.resources) (serving_order ws) ≡ none
    → is_empty ws ≡ false
    → IsBusy reg
first_waiter-IsBusy reg [] e waiting = cc
first_waiter-IsBusy reg (w ∷ ws) e waiting =
    not_free_set-IsBusy reg w.resources
      (find?-serving_order-none (λ v. is_free_set reg v.resources) w ws e)

pump-IsAwake : (reg : Registry) → All Wants reg.waiters → IsAwake (pump reg).0
unfolding pump
pump-IsAwake reg wanted = serve-IsAwake reg _ wanted (first_waiter-IsBusy reg reg.waiters) (λ w e.
    find?-All Wants (λ v. is_free_set reg v.resources) (serving_order reg.waiters) w
      (serving_order-All Wants reg.waiters wanted) e)

pub release-IsAwake : (reg : Registry) (id : ℕ) → IsAwake reg → IsAwake (release reg (holder id)).0
unfolding release
release-IsAwake reg id h = elim (Bool-cases (includes id reg.released)) [
  | inl e ↦ rw (e, release) h
  | inr e ↦ rw (e, release) (pump-IsAwake (free_holder reg id) (unfold free_holder in h.wanted))
]

nonempty :
    (promise : ℕ) (ws : List Waiter)
    → is_empty (without_waiter promise ws) ≡ false
    → is_empty ws ≡ false
unfolding without_waiter
nonempty promise [] q = cc
nonempty promise (w ∷ ws) q = refl

time_out-IsAwake : (reg : Registry) (promise : ℕ) → IsAwake reg → IsAwake (time_out reg promise).0
unfolding time_out
time_out-IsAwake reg promise h =
    elim (Bool-cases (any (λ w. w.promise == promise && w.has_timer) reg.waiters)) [
      | inl e ↦
          rw (e, time_out)
            (record {
              wanted = All-without_waiter Wants promise reg.waiters h.wanted;
              served = λ q. h.served (nonempty promise reg.waiters q);
            })
      | inr e ↦ rw (e, time_out) h
    ]

try_acquire-IsAwake :
    (reg : Registry) (rs : List String) → IsAwake reg → IsAwake (try_acquire reg rs).0
unfolding try_acquire
try_acquire-IsAwake reg [] h = h
try_acquire-IsAwake reg (r ∷ rs) h = elim (Bool-cases (any (λ s. not (is_free reg s)) (r ∷ rs))) [
  | inl e ↦ rw e h
  | inr e ↦
      rw e
        (record { wanted = unfold grant in h.wanted; served = λ _. grant-IsBusy reg (r ∷ rs) refl })
]

-- A fast attempt that fails leaves the registry as it was, with a resource that is held.
try_acquire-none :
    (reg : Registry) (r : String) (rs : List String)
    → (try_acquire reg (r ∷ rs)).1 ≡ none
    → ((try_acquire reg (r ∷ rs)).0 ≡ reg) × IsBusy reg
unfolding try_acquire
try_acquire-none reg r rs h = elim (Bool-cases (any (λ s. not (is_free reg s)) (r ∷ rs))) [
  | inl e ↦ (rw e refl, contended-IsBusy reg (r ∷ rs) e)
  | inr e ↦ absurd (ground arith)
]

enqueue-IsAwake :
    (reg : Registry) (w : Waiter) (o : Option Release)
    → Wants w
    → (o ≡ none → IsBusy reg)
    → IsAwake reg
    → IsAwake (enqueue reg w o).0
unfolding enqueue
enqueue-IsAwake reg w (some release) wants busy h = h
enqueue-IsAwake reg w none wants busy h = record {
  wanted = All-append Wants reg.waiters (w ∷ []) h.wanted (wants, tt);
  served = λ _. busy refl;
}

step-IsAwake : (reg : Registry) (c : Call) → IsAwake reg → IsAwake (step reg c)
unfolding step acquire release
step-IsAwake reg (acquires promise [] priority timed) h = h
step-IsAwake reg (acquires promise (r ∷ rs) priority timed) h =
    enqueue-IsAwake (try_acquire reg (r ∷ rs)).0 _ (try_acquire reg (r ∷ rs)).1 refl
      (λ e. let (same, busy) = try_acquire-none reg r rs e in rw same busy)
      (try_acquire-IsAwake reg (r ∷ rs) h)
step-IsAwake reg (tries rs) h = try_acquire-IsAwake reg rs h
step-IsAwake reg (releases nothing) h = h
step-IsAwake reg (releases (holder id)) h = release-IsAwake reg id h
step-IsAwake reg (times_out promise) h = time_out-IsAwake reg promise h

run-IsAwake_from : (reg : Registry) (cs : List Call) → IsAwake reg → IsAwake (run reg cs)
unfolding run
run-IsAwake_from reg [] h = h
run-IsAwake_from reg (c ∷ cs) h = run-IsAwake_from (step reg c) cs (step-IsAwake reg c h)

-- Where there is a waiter there is a holder: after any series of calls and timer events on a new registry, every
-- waiter waits for at least one resource, and as long as there is a waiter some holder holds a
-- resource.
pub run-IsAwake : (cs : List Call) → IsAwake (run empty cs)
run-IsAwake cs = run-IsAwake_from empty cs (record { wanted = tt; served = λ h. cc })
