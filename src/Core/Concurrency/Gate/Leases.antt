-- ===== src/Core/Concurrency/Gate/Leases.antt =====
-- The count of leases of src/core/concurrency/gate.ts.
use devagent_ts.Base.{
  ℕ, zero, suc, ◌+◌, ◌≤◌, ◌<◌, if◌then◌else◌, ==-eq, ltb→lt, false, not, Option, none, some, List,
  [], ◌∷◌, ◌++◌, filter, length, max, includes, All, All-append, All-map, sym, ltb, leb, ◌==◌, ◌≡◌,
  refl, ap, ◌∙◌, arith, nat_eq, ==-comm, Bool-cases, inl, inr,
}
use devagent_ts.Core.Concurrency.Gate.{
  Gate, gate, Entry, Priority, critical, normal, Dispatched, is_aborted, queued_count, grant_lease,
  enqueue, acquire, choose, take_next, invoke, decremented, dispatch_next, release, has_signal,
  abort, Call, acquires, releases, aborts, gate_of, and_then, step, run,
}

-- The leases among the first `n` whose release function has not been called.
abbrev pub out : ℕ → List ℕ → ℕ
out zero used = zero
out (suc n) used = let rest = out n used in if includes n used then rest else suc rest

-- The leases that are out.
abbrev pub leases_out : Gate → ℕ
leases_out g = out g.granted g.used

out-other : (n lease : ℕ) (used : List ℕ) → n ≤ lease → out n (lease ∷ used) ≡ out n used
out-other zero lease used h = refl
out-other (suc n) lease used h =
    let other : (lease == n) ≡ false = ground arith in
    ground (arith, other, out-other n lease used (omega (arith, h)))

-- The first call of a release function.
out-given_back :
    (n lease : ℕ) (used : List ℕ)
    → lease < n
    → includes lease used ≡ false
    → suc (out n (lease ∷ used)) ≡ out n used
out-given_back zero lease used h first = absurd (omega (arith, h))
out-given_back (suc n) lease used h first = elim (Bool-cases (lease == n)) [
  | inl y ↦
      let same : lease ≡ n = ==-eq lease n y in
      let at : includes n used ≡ false = ap (λ i. includes i used) (sym same) ∙ first in
      rw (y, at) (ap suc (out-other n lease used (omega (arith, same))))
  | inr other ↦
      let rest = out-given_back n lease used (ground (arith, h, other)) first in
      elim (Bool-cases (includes n used)) [
        | inl gone ↦ rw (other, gone) rest
        | inr there ↦ rw (other, there) (ap suc rest)
      ]
]

not_includes-below : (n : ℕ) (l : List ℕ) → All (λ x. x < n) l → includes n l ≡ false
not_includes-below n [] h = refl
not_includes-below n (x ∷ l) h =
    let other : (x == n) ≡ false = ground (arith, h.0) in
    ground (arith, other, not_includes-below n l h.1)

below_suc : (n : ℕ) (l : List ℕ) → All (λ x. x < n) l → All (λ x. x < suc n) l
below_suc n l h = All-map _ _ l (λ x b. omega (arith, b)) h

-- No entry waits with an aborted signal, each lease that was given back was granted and is counted
-- once, and the leases that are out are within the limit.
pub record Sound (g : Gate) : Type 0 where
  pub clean_critical : All (λ e. is_aborted g e.signal ≡ false) g.critical_queue
  pub clean_normal : All (λ e. is_aborted g e.signal ≡ false) g.normal_queue
  pub balanced : g.decrements ≡ length g.used
  pub issued : All (λ x. x < g.granted) g.used
  pub counted : leases_out g + g.decrements ≡ g.granted
  pub capped : g.granted ≤ g.max_concurrent + g.decrements

-- What a choice of `dispatchNext` leaves, where no entry waits with an aborted signal.
record Chosen (g : Gate) (r : Gate × Option Entry) : Type 0 where
  clean_critical : All (λ e. is_aborted g e.signal ≡ false) r.0.critical_queue
  clean_normal : All (λ e. is_aborted g e.signal ≡ false) r.0.normal_queue
  same_counts :
      (r.0.granted ≡ g.granted)
      × (r.0.decrements ≡ g.decrements)
      × (r.0.used ≡ g.used)
      × (r.0.aborted ≡ g.aborted)
      × (r.0.max_concurrent ≡ g.max_concurrent)
  live : (e : Entry) → r.1 ≡ some e → is_aborted g e.signal ≡ false

choose-Chosen :
    (g : Gate) (cs ns : List Entry)
    → g.critical_queue ≡ cs
    → g.normal_queue ≡ ns
    → All (λ e. is_aborted g e.signal ≡ false) cs
    → All (λ e. is_aborted g e.signal ≡ false) ns
    → Chosen g (choose g cs ns)
unfolding choose
choose-Chosen g [] [] p q hc hn = record {
  clean_critical = rw p tt;
  clean_normal = rw q tt;
  same_counts = (refl, refl, refl, refl, refl);
  live = λ e h. absurd cc;
}
choose-Chosen g [] (n ∷ ns) p q hc hn = record {
  clean_critical = rw p tt;
  clean_normal = hn.1;
  same_counts = (refl, refl, refl, refl, refl);
  live = λ e h. ground (arith, hn.0);
}
choose-Chosen g (c ∷ cs) [] p q hc hn = record {
  clean_critical = hc.1;
  clean_normal = rw q tt;
  same_counts = (refl, refl, refl, refl, refl);
  live = λ e h. ground (arith, hc.0);
}
choose-Chosen g (c ∷ cs) (n ∷ ns) p q hc hn = elim (Bool-cases (ltb g.consecutive_critical 10)) [
  | inl few ↦ rw few (record {
    clean_critical = hc.1;
    clean_normal = rw q hn;
    same_counts = (refl, refl, refl, refl, refl);
    live = λ e h. ground (arith, hc.0);
  })
  | inr many ↦ rw many (record {
    clean_critical = rw p hc;
    clean_normal = hn.1;
    same_counts = (refl, refl, refl, refl, refl);
    live = λ e h. ground (arith, hn.0);
  })
]

is_aborted_same :
    (g g' : Gate) (signal : Option ℕ)
    → g'.aborted ≡ g.aborted
    → is_aborted g signal ≡ false
    → is_aborted g' signal ≡ false
is_aborted_same g g' none e h = refl
is_aborted_same g g' (some x) e h = ap (includes x) e ∙ h

clean_same :
    (g g' : Gate) (es : List Entry)
    → g'.aborted ≡ g.aborted
    → All (λ e. is_aborted g e.signal ≡ false) es
    → All (λ e. is_aborted g' e.signal ≡ false) es
clean_same g g' es e h = All-map _ _ es (λ x. is_aborted_same g g' x.signal e) h

-- The leases and the count of them after the first call of a release function.
given_back_same :
    (g : Gate) (lease : ℕ) (g' : Gate)
    → g'.granted ≡ g.granted
    → g'.used ≡ lease ∷ g.used
    → g'.decrements ≡ suc g.decrements
    → Sound g
    → lease < g.granted
    → includes lease g.used ≡ false
    → All (λ x. x < g'.granted) g'.used × (leases_out g' + g'.decrements ≡ g'.granted)
given_back_same g lease g' granted used decrements s l f =
    let fewer = out-given_back g.granted lease g.used l f in
    rw (granted, used, decrements) ((l, s.issued), omega (arith, fewer, s.counted))

-- One lease more.
granted_one :
    (n : ℕ) (used : List ℕ) (decrements : ℕ)
    → All (λ x. x < n) used × (out n used + decrements ≡ n)
    → All (λ x. x < suc n) used × (out (suc n) used + decrements ≡ suc n)
granted_one n used decrements (issued, counted) =
    (below_suc n used issued, rw (not_includes-below n used issued) (omega (arith, counted)))

-- One round after a lease was given back.
invoke-Sound :
    (g : Gate) (lease : ℕ) (r : Gate × Option Entry) (again : Dispatched)
    → Sound g
    → lease < g.granted
    → includes lease g.used ≡ false
    → Chosen (decremented (record g { used = lease ∷ g.used })) r
    → (g' : Gate) × (gate_of (invoke r.0 r.1 again) ≡ some g')
      × Sound g'
      × (g'.max_concurrent ≡ g.max_concurrent)
      × (g'.used ≡ lease ∷ g.used)
unfolding invoke grant_lease
invoke-Sound g lease (g', none) again s l f c =
    let (granted, decrements, used, aborted, limit) = c.same_counts in
    (
      g',
      refl,
      record {
        clean_critical = clean_same g g' g'.critical_queue aborted c.clean_critical;
        clean_normal = clean_same g g' g'.normal_queue aborted c.clean_normal;
        balanced = decrements ∙ ap suc s.balanced ∙ ap length (sym used);
        issued = (given_back_same g lease g' granted used decrements s l f).0;
        counted = (given_back_same g lease g' granted used decrements s l f).1;
        capped = omega (arith, granted, decrements, limit, s.capped);
      },
      limit,
      used,
    )
invoke-Sound g lease (g', some e) again s l f c =
    let (granted, decrements, used, aborted, limit) = c.same_counts in
    let (issued, counted) =
      granted_one g'.granted g'.used g'.decrements
        (given_back_same g lease g' granted used decrements s l f) in
    (
      record g' { granted = suc g'.granted },
      rw (is_aborted_same g g' e.signal aborted (c.live e refl)) refl,
      record {
        clean_critical =
            clean_same g (record g' { granted = suc g'.granted }) g'.critical_queue aborted
              c.clean_critical;
        clean_normal =
            clean_same g (record g' { granted = suc g'.granted }) g'.normal_queue aborted
              c.clean_normal;
        balanced = decrements ∙ ap suc s.balanced ∙ ap length (sym used);
        issued = issued;
        counted = counted;
        capped = omega (arith, granted, decrements, limit, s.capped);
      },
      limit,
      used,
    )

release-Sound :
    (g : Gate) (lease : ℕ)
    → lease < g.granted
    → Sound g
    → (g' : Gate) × (gate_of (release g lease) ≡ some g')
      × Sound g'
      × (g'.max_concurrent ≡ g.max_concurrent)
unfolding release dispatch_next take_next
release-Sound g lease l s = elim (Bool-cases (includes lease g.used)) [
  | inl twice ↦ (g, rw (twice, release) refl, s, refl)
  | inr first ↦
      let h = decremented (record g { used = lease ∷ g.used }) in
      let (g', e, sound, limit, _) =
        invoke-Sound g lease (take_next h) (dispatch_next (queued_count g) (take_next h).0) s l
          first
          (choose-Chosen h g.critical_queue g.normal_queue refl refl s.clean_critical
            s.clean_normal) in
      (g', rw (first, release) e, sound, limit)
]

enqueue-Sound :
    (g : Gate) (p : Priority) (e : Entry)
    → is_aborted g e.signal ≡ false
    → Sound g
    → Sound (enqueue g p e) × ((enqueue g p e).max_concurrent ≡ g.max_concurrent)
unfolding enqueue
enqueue-Sound g critical e live s = (
  record {
    clean_critical = All-append _ g.critical_queue (e ∷ []) s.clean_critical (live, tt);
    clean_normal = s.clean_normal;
    balanced = s.balanced;
    issued = s.issued;
    counted = s.counted;
    capped = s.capped;
  },
  refl,
)
enqueue-Sound g normal e live s = (
  record {
    clean_critical = s.clean_critical;
    clean_normal = All-append _ g.normal_queue (e ∷ []) s.clean_normal (live, tt);
    balanced = s.balanced;
    issued = s.issued;
    counted = s.counted;
    capped = s.capped;
  },
  refl,
)

acquire-Sound :
    (g : Gate) (promise : ℕ) (p : Priority) (signal : Option ℕ)
    → Sound g
    → let g' = (acquire g promise p signal).0 in Sound g' × (g'.max_concurrent ≡ g.max_concurrent)
unfolding acquire grant_lease
acquire-Sound g promise p signal s = elim (Bool-cases (is_aborted g signal)) [
  | inl dead ↦ rw dead (s, refl)
  | inr live ↦ elim (Bool-cases (leb g.max_queue_depth (queued_count g))) [
    | inl full ↦ rw (live, full) (s, refl)
    | inr room ↦ elim (Bool-cases (ltb g.granted (g.max_concurrent + g.decrements))) [
      | inl free ↦
          rw (live, room, free)
            (
              record {
                clean_critical = s.clean_critical;
                clean_normal = s.clean_normal;
                balanced = s.balanced;
                issued = (granted_one g.granted g.used g.decrements (s.issued, s.counted)).0;
                counted = (granted_one g.granted g.used g.decrements (s.issued, s.counted)).1;
                capped = ground arith;
              },
              refl,
            )
      | inr busy ↦ rw (live, room, busy) (enqueue-Sound g p _ live s)
    ]
  ]
]

other_signal :
    (g : Gate) (signal : ℕ) (o : Option ℕ)
    → (elim o [ none ↦ false | some s ↦ s == signal ]) ≡ false
    → is_aborted g o ≡ false
    → is_aborted (abort g signal) o ≡ false
unfolding abort
other_signal g signal none h k = refl
other_signal g signal (some s) h k = ground (arith, ==-comm s signal)

-- The listeners leave the entries of the other signals.
filter-clean :
    (g : Gate) (signal : ℕ) (es : List Entry)
    → All (λ e. is_aborted g e.signal ≡ false) es
    → All
        (λ e. is_aborted (abort g signal) e.signal ≡ false)
        (filter (λ e. not (has_signal signal e)) es)
filter-clean g signal [] h = tt
filter-clean g signal (e ∷ es) h = elim (Bool-cases (has_signal signal e)) [
  | inl tied ↦ rw tied (filter-clean g signal es h.1)
  | inr free ↦ rw free (other_signal g signal e.signal free h.0, filter-clean g signal es h.1)
]

abort-Sound :
    (g : Gate) (signal : ℕ)
    → Sound g
    → Sound (abort g signal) × ((abort g signal).max_concurrent ≡ g.max_concurrent)
unfolding abort
abort-Sound g signal s = (
  record {
    clean_critical = filter-clean g signal g.critical_queue s.clean_critical;
    clean_normal = filter-clean g signal g.normal_queue s.clean_normal;
    balanced = s.balanced;
    issued = s.issued;
    counted = s.counted;
    capped = s.capped;
  },
  refl,
)

pub step-Sound :
    (g : Gate) (c : Call)
    → Sound g
    → (g' : Gate) × (step g c ≡ some g') × Sound g' × (g'.max_concurrent ≡ g.max_concurrent)
unfolding step
step-Sound g (acquires promise p signal) s =
    let (sound, limit) = acquire-Sound g promise p signal s in
    ((acquire g promise p signal).0, refl, sound, limit)
step-Sound g (aborts signal) s =
    let (sound, limit) = abort-Sound g signal s in (abort g signal, refl, sound, limit)
step-Sound g (releases lease) s = elim (Bool-cases (ltb lease g.granted)) [
  | inl real ↦
      let (g', e, sound, limit) = release-Sound g lease (ltb→lt lease g.granted real) s in
      (g', rw (real, step) e, sound, limit)
  | inr unreal ↦ (g, rw (unreal, step) refl, s, refl)
]

run-Sound :
    (g : Gate) (cs : List Call)
    → Sound g
    → (g' : Gate) × (run cs g ≡ some g') × Sound g' × (g'.max_concurrent ≡ g.max_concurrent)
unfolding run
run-Sound g [] s = (g, refl, s, refl)
run-Sound g (c ∷ cs) s =
    let (g1, e1, s1, l1) = step-Sound g c s in
    let (g2, e2, s2, l2) = run-Sound g1 cs s1 in
    (g2, ap (λ o. and_then o (run cs)) e1 ∙ e2, s2, l2 ∙ l1)

pub gate-Sound : (max_concurrent max_queue_depth : ℕ) → Sound (gate max_concurrent max_queue_depth)
gate-Sound max_concurrent max_queue_depth = record {
  clean_critical = tt;
  clean_normal = tt;
  balanced = refl;
  issued = tt;
  counted = refl;
  capped = omega arith;
}

-- After any series of calls and aborted signals on a new gate, where the listeners of a signal
-- run together with its abort: every call came to an end; of the leases granted, at most
-- `maxConcurrent` have a release function that has not been called, and that many is the counter
-- `active`, the leases granted less the decrements; and no entry in the queues waits with a
-- signal that is aborted.
pub run-gate :
    (max_concurrent max_queue_depth : ℕ) (cs : List Call)
    → (g : Gate) × (run cs (gate max_concurrent max_queue_depth) ≡ some g)
      × (leases_out g ≤ max 1 max_concurrent)
      × (leases_out g + g.decrements ≡ g.granted)
      × All (λ e. is_aborted g e.signal ≡ false) (g.critical_queue ++ g.normal_queue)
run-gate max_concurrent max_queue_depth cs =
    let (g, e, s, l) =
      run-Sound (gate max_concurrent max_queue_depth) cs
        (gate-Sound max_concurrent max_queue_depth) in
    (
      g,
      e,
      omega (arith, l, s.counted, s.capped),
      s.counted,
      All-append _ g.critical_queue g.normal_queue s.clean_critical s.clean_normal,
    )
