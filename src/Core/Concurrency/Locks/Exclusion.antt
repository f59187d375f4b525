-- ===== src/Core/Concurrency/Locks/Exclusion.antt =====
-- Mutual exclusion of src/core/concurrency/resource-locks.ts.
use devagent_ts.Base.{
  eq_iff, ℕ, ◌<◌, Bool, true, false, not, ◌&&◌, ◌||◌, Option, none, some, String, List, [], ◌∷◌,
  if◌then◌else◌, ◌==◌, ◌≡◌, refl, ◌∙◌, arith, any, find?, is_empty, add_all, includes, nat_eq,
  string_eq, none-is_empty, all-includes, includes-add_all, Bool-cases, inl, inr,
}
use devagent_ts.Base.Dict.{get, get-set, get-delete}
use devagent_ts.Core.Concurrency.Locks.Tables.{grant_each_lem, release_each_lem}
use devagent_ts.Core.Concurrency.Locks.{
  enqueue, serve, Registry, empty, Waiter, Release, nothing, holder, holders_of, held_of, is_free,
  is_free_set, grant, try_acquire, without_waiter, pump, free_holder, release, acquire, time_out,
  Call, acquires, tries, releases, times_out, step, run, serving_order,
}

-- The two tables say the same, no resource has two holders, and no future holder's number is in
-- use.
pub record IsConsistent (reg : Registry) : Type 0 where
  pub agree : (r : String) (id : ℕ) → includes id (holders_of reg r) ≡ includes r (held_of reg id)
  pub alone :
      (r : String) (a b : ℕ)
      → includes a (holders_of reg r) ≡ true
      → includes b (holders_of reg r) ≡ true
      → a ≡ b
  pub below :
      (r : String) (id : ℕ) → includes id (holders_of reg r) ≡ true → id < reg.next_holder_id

abbrev pub AllFree : Registry → List String → Type 0
AllFree reg rs =
    (r : String) (id : ℕ) → includes r rs ≡ true → includes id (holders_of reg r) ≡ false

pub is_free_set-AllFree :
    (reg : Registry) (rs : List String) → is_free_set reg rs ≡ true → AllFree reg rs
unfolding is_free_set
is_free_set-AllFree reg rs h r id m =
    none-is_empty id (holders_of reg r) (all-includes (λ r. is_empty (holders_of reg r)) r rs h m)

pub holders_of-grant :
    (reg : Registry) (rs : List String) (r : String) (id : ℕ)
    → includes id (holders_of (grant reg rs).0 r)
      ≡ (includes r rs && reg.next_holder_id == id || includes id (holders_of reg r))
unfolding grant
holders_of-grant reg rs r id = grant_each_lem reg.next_holder_id id r rs reg.holders

held_of-grant :
    (reg : Registry) (rs : List String) (r : String) (id : ℕ)
    → includes r (held_of (grant reg rs).0 id)
      ≡ (if reg.next_holder_id == id then includes r rs else includes r (held_of reg id))
unfolding grant
held_of-grant reg rs r id =
    ground
      (arith, get-set reg.next_holder_id id (add_all [] rs) reg.held_by, includes-add_all r [] rs)

pub grant-IsConsistent :
    (reg : Registry) (rs : List String)
    → AllFree reg rs
    → IsConsistent reg
    → IsConsistent (grant reg rs).0
grant-IsConsistent reg rs free h = record {
  agree = λ r id.
      ground (
        arith,
        holders_of-grant reg rs r id,
        held_of-grant reg rs r id,
        h.agree r id,
        h.below r id,
      );
  alone = λ r a b p q. ground (
    arith,
    holders_of-grant reg rs r a,
    holders_of-grant reg rs r b,
    h.alone r a b,
    free r a,
    free r b,
  );
  below = λ r id p. unfold grant in ground (arith, holders_of-grant reg rs r id, h.below r id);
}

pub holders_of-free_holder :
    (reg : Registry) (id : ℕ) (r : String) (j : ℕ)
    → includes j (holders_of (free_holder reg id) r)
      ≡ (includes j (holders_of reg r) && not (includes r (held_of reg id) && id == j))
unfolding free_holder
holders_of-free_holder reg id r j = release_each_lem id j r (held_of reg id) reg.holders

held_of-free_holder :
    (reg : Registry) (id : ℕ) (r : String) (j : ℕ)
    → includes r (held_of (free_holder reg id) j) ≡ (not (id == j) && includes r (held_of reg j))
unfolding free_holder
held_of-free_holder reg id r j = ground (arith, get-delete id j reg.held_by)

free_holder-IsConsistent :
    (reg : Registry) (id : ℕ) → IsConsistent reg → IsConsistent (free_holder reg id)
free_holder-IsConsistent reg id h = record {
  agree = λ r j.
      ground
        (arith, holders_of-free_holder reg id r j, held_of-free_holder reg id r j, h.agree r j);
  alone = λ r a b p q.
      ground (
        arith,
        holders_of-free_holder reg id r a,
        holders_of-free_holder reg id r b,
        h.alone r a b,
      );
  below =
      λ r j p. unfold free_holder in ground (arith, holders_of-free_holder reg id r j, h.below r j);
}

-- The waiters are in none of the three fields.
waiters-IsConsistent :
    (reg : Registry) (ws : List Waiter)
    → IsConsistent reg
    → IsConsistent (record reg { waiters = ws })
waiters-IsConsistent reg ws h = record { agree = h.agree; alone = h.alone; below = h.below }

pub find?-true {ℓ} :
    {A : Type ℓ} (p : A → Bool) (l : List A) (a : A) → find? p l ≡ some a → p a ≡ true
find?-true p [] a h = cc
find?-true p (x ∷ l) a h = ground (arith, find?-true p l a)

serve-IsConsistent :
    (reg : Registry) (o : Option Waiter)
    → ((w : Waiter) → o ≡ some w → AllFree reg w.resources)
    → IsConsistent reg
    → IsConsistent (serve reg o).0
unfolding serve
serve-IsConsistent reg none free h = h
serve-IsConsistent reg (some w) free h =
    grant-IsConsistent (record reg { waiters = without_waiter w.promise reg.waiters }) w.resources
      (free w refl) (waiters-IsConsistent reg _ h)

pump-IsConsistent : (reg : Registry) → IsConsistent reg → IsConsistent (pump reg).0
unfolding pump
pump-IsConsistent reg h =
    serve-IsConsistent reg _
      (λ w e.
        is_free_set-AllFree reg w.resources
          (find?-true (λ v. is_free_set reg v.resources) (serving_order reg.waiters) w e))
      h

pub is_free-none :
    (reg : Registry) (s : String) (id : ℕ)
    → is_free reg s ≡ true
    → includes id (holders_of reg s) ≡ false
unfolding is_free
is_free-none reg s id h = none-is_empty id (holders_of reg s) h

pub uncontended-none :
    (reg : Registry) (rs : List String) (r : String) (id : ℕ)
    → any (λ s. not (is_free reg s)) rs ≡ false
    → includes r rs ≡ true
    → includes id (holders_of reg r) ≡ false
uncontended-none reg [] r id h m = cc
uncontended-none reg (s ∷ rs) r id h m =
    ground (arith, uncontended-none reg rs r id, is_free-none reg s id, eq_iff s r)

pub try_acquire-IsConsistent :
    (reg : Registry) (rs : List String) → IsConsistent reg → IsConsistent (try_acquire reg rs).0
unfolding try_acquire
try_acquire-IsConsistent reg [] h = h
try_acquire-IsConsistent reg (r ∷ rs) h =
    elim (Bool-cases (any (λ s. not (is_free reg s)) (r ∷ rs))) [
      | inl e ↦ rw e h
      | inr e ↦
          rw e
            (grant-IsConsistent reg (r ∷ rs) (λ s id m. uncontended-none reg (r ∷ rs) s id e m) h)
    ]

enqueue-IsConsistent :
    (reg : Registry) (w : Waiter) (o : Option Release)
    → IsConsistent reg
    → IsConsistent (enqueue reg w o).0
unfolding enqueue
enqueue-IsConsistent reg w none h = waiters-IsConsistent reg _ h
enqueue-IsConsistent reg w (some r) h = h

pub release-IsConsistent :
    (reg : Registry) (id : ℕ) → IsConsistent reg → IsConsistent (release reg (holder id)).0
unfolding release
release-IsConsistent reg id h = elim (Bool-cases (includes id reg.released)) [
  | inl e ↦ rw (e, release) h
  | inr e ↦
      rw (e, release) (pump-IsConsistent (free_holder reg id) (free_holder-IsConsistent reg id h))
]

time_out-IsConsistent :
    (reg : Registry) (promise : ℕ) → IsConsistent reg → IsConsistent (time_out reg promise).0
unfolding time_out
time_out-IsConsistent reg promise h =
    elim (Bool-cases (any (λ w. w.promise == promise && w.has_timer) reg.waiters)) [
      | inl e ↦ rw (e, time_out) (waiters-IsConsistent reg _ h)
      | inr e ↦ rw (e, time_out) h
    ]

step-IsConsistent : (reg : Registry) (c : Call) → IsConsistent reg → IsConsistent (step reg c)
unfolding step acquire release time_out
step-IsConsistent reg (acquires promise [] priority timed) h = h
step-IsConsistent reg (acquires promise (r ∷ rs) priority timed) h =
    enqueue-IsConsistent (try_acquire reg (r ∷ rs)).0 _ (try_acquire reg (r ∷ rs)).1
      (try_acquire-IsConsistent reg (r ∷ rs) h)
step-IsConsistent reg (tries rs) h = try_acquire-IsConsistent reg rs h
step-IsConsistent reg (releases nothing) h = h
step-IsConsistent reg (releases (holder id)) h = release-IsConsistent reg id h
step-IsConsistent reg (times_out promise) h = time_out-IsConsistent reg promise h

pub run-IsConsistent :
    (reg : Registry) (cs : List Call) → IsConsistent reg → IsConsistent (run reg cs)
unfolding run
run-IsConsistent reg [] h = h
run-IsConsistent reg (c ∷ cs) h = run-IsConsistent (step reg c) cs (step-IsConsistent reg c h)

pub empty-IsConsistent : IsConsistent empty
unfolding get
empty-IsConsistent = record { agree = λ r id. refl; alone = λ r a b p q. cc; below = λ r id p. cc }

-- Mutual exclusion: after any series of calls and timer events on a new registry, two holders
-- that both hold a resource are the same one, and the table of holders by resource agrees with
-- the table of resources by holder.
pub run_exclusion :
    (cs : List Call)
    → let reg = run empty cs in
      ((r : String) (a b : ℕ)
        → includes r (held_of reg a) ≡ true
        → includes r (held_of reg b) ≡ true
        → a ≡ b)
      × ((r : String) (id : ℕ) → includes id (holders_of reg r) ≡ includes r (held_of reg id))
run_exclusion cs =
    let h = run-IsConsistent empty cs empty-IsConsistent in
    (λ r a b p q. h.alone r a b (h.agree r a ∙ p) (h.agree r b ∙ q), h.agree)

grant-free_holder :
    (reg : Registry) (rs : List String) (r : String) (j : ℕ)
    → IsConsistent reg
    → includes j (holders_of (free_holder (grant reg rs).0 reg.next_holder_id) r)
      ≡ includes j (holders_of reg r)
grant-free_holder reg rs r j h = ground (
  arith,
  holders_of-free_holder (grant reg rs).0 reg.next_holder_id r j,
  holders_of-grant reg rs r j,
  held_of-grant reg rs r reg.next_holder_id,
  h.below r j,
)

try_acquire_granted :
    (reg : Registry) (rs : List String) (id : ℕ)
    → is_empty rs ≡ false
    → (try_acquire reg rs).1 ≡ some (holder id)
    → (id ≡ reg.next_holder_id) × ((try_acquire reg rs).0 ≡ (grant reg rs).0)
unfolding try_acquire grant
try_acquire_granted reg [] id full got = cc
try_acquire_granted reg (r ∷ rs) id full got =
    elim (Bool-cases (any (λ s. not (is_free reg s)) (r ∷ rs))) [
      | inl e ↦ absurd (ground arith)
      | inr e ↦ (ground arith, ground arith)
    ]

-- A set that was acquired and freed again leaves no trace: on a registry that is consistent,
-- where `tryAcquire` succeeds on a set that is not empty, freeing its holder gives every resource
-- the holders that it had before.
pub try_acquire-free_holder :
    (reg : Registry) (rs : List String) (id : ℕ)
    → IsConsistent reg
    → is_empty rs ≡ false
    → (try_acquire reg rs).1 ≡ some (holder id)
    → (r : String) (j : ℕ)
    → includes j (holders_of (free_holder (try_acquire reg rs).0 id) r)
      ≡ includes j (holders_of reg r)
try_acquire-free_holder reg rs id h full got r j =
    let (named, granted) = try_acquire_granted reg rs id full got in
    rw (granted, named) (grant-free_holder reg rs r j h)
