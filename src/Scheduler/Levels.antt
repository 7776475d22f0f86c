-- ===== src/Scheduler/Levels.antt =====
-- The levels of processes: their range, the boost, and how a process loses priority.
use os_2_course_work.Prelude.{
  ℕ, zero, suc, ◌+◌, ◌-◌, ◌%◌, ◌^◌, ◌≤◌, ◌<◌, ◌≡◌, ◌≢◌, ◌⊎◌, inl, inr, refl, sym, ◌∙◌, ap, Bool,
  true, false, ◌&&◌, ◌||◌, Option, none, some, List, [], ◌∷◌, map, arith, if◌then◌else◌, Bool-cases,
  length, get_elem?, get_or, modify, u32, leb, ltb,
}
use os_2_course_work.Proc.{runnable, running, Proc}
use os_2_course_work.Scheduler.{
  Sched, mlfq_levels, boost_ticks, quantum_times, boosted, boost, dispatched, dispatch, schedule,
  find, descheduled, deschedule, ticked, raised, timer_tick, timer_boost,
}

-- Every process is at one of the four levels.
abbrev pub Levels : List Proc → Type 0
Levels [] = Unit {0}
Levels (p ∷ ps) = (p.level < mlfq_levels) × Levels ps

Levels-map :
    (f : Proc → Proc) (ps : List Proc)
    → ((p : Proc) → p.level < mlfq_levels → (f p).level < mlfq_levels)
    → Levels ps
    → Levels (map f ps)
Levels-map f [] k h = tt
Levels-map f (p ∷ ps) k h = (k p h.0, Levels-map f ps k h.1)

Levels-modify :
    (f : Proc → Proc) (ps : List Proc) (i : ℕ)
    → ((p : Proc) → p.level < mlfq_levels → (f p).level < mlfq_levels)
    → Levels ps
    → Levels (modify f ps i)
Levels-modify f [] i k h = tt
Levels-modify f (p ∷ ps) zero k h = (k p h.0, h.1)
Levels-modify f (p ∷ ps) (suc i) k h = (h.0, Levels-modify f ps i k h.1)

boost-Levels : (ticks : ℕ) (s : Sched) → Levels s.procs → Levels (boost ticks s).procs
unfolding boost
boost-Levels ticks s h = elim (Bool-cases (leb boost_ticks (u32 (ticks + 2 ^ 32 - u32 s.prev_b)))) [
  | inl e ↦ rw e (Levels-map boosted s.procs (λ p l. ground arith) h)
  | inr e ↦ rw e h
]

timer_boost-Levels : (ticks : ℕ) (ps : List Proc) → Levels ps → Levels (timer_boost ticks ps)
unfolding timer_boost
timer_boost-Levels ticks ps h =
    elim (Bool-cases (os_2_course_work.Prelude.◌==◌ (ticks % boost_ticks) 0)) [
      | inl e ↦ rw e (Levels-map raised ps (λ p l. ground arith) h)
      | inr e ↦ rw e h
    ]

schedule-Levels : (ticks : ℕ) (s : Sched) → Levels s.procs → Levels (schedule ticks s).0.procs
unfolding schedule dispatch
schedule-Levels ticks s h = go (find (boost ticks s))
  where
    go :
        (o : Option ℕ)
        → Levels
            (let r : Sched × Option ℕ = elim o [
              | none ↦ (boost ticks s, none)
              | some i ↦ (dispatch i (boost ticks s), some i)
            ] in
              r).0.procs
    go none = boost-Levels ticks s h
    go (some i) =
        Levels-modify dispatched (boost ticks s).procs i (λ p l. l) (boost-Levels ticks s h)

-- A round of the scheduler, on both sides of its `swtch`, and a timer tick with its boost keep every
-- process at levels 0 to 3, so `quantum_times[p->level]` is never read out of range.
pub step-Levels :
    (ticks i : ℕ) (s : Sched)
    → Levels s.procs
    → Levels (schedule ticks s).0.procs
      × Levels (deschedule i s).procs
      × Levels (timer_tick i s.procs)
      × Levels (timer_boost ticks s.procs)
unfolding deschedule timer_tick
step-Levels ticks i s h = (
  schedule-Levels ticks s h,
  Levels-modify descheduled s.procs i (λ p l. ground arith) h,
  Levels-modify ticked s.procs i (λ p l. ground arith) h,
  timer_boost-Levels ticks s.procs h,
)

boosted_at :
    (ps : List Proc) (j : ℕ) (p : Proc)
    → get_elem? ps j ≡ some p
    → get_elem? (map boosted ps) j ≡ some (boosted p)
boosted_at [] j p e = cc
boosted_at (q ∷ ps) zero p e =
    ap (λ (o : Option Proc). elim o [ none ↦ none | some x ↦ some (boosted x) ]) e
boosted_at (q ∷ ps) (suc j) p e = boosted_at ps j p e

-- When 128 ticks or more have passed since the last boost, a runnable or running process goes back
-- to level 0 with a fresh quantum, and any other process keeps its entry.
pub boost_lem :
    (ticks : ℕ) (s : Sched) (j : ℕ) (p : Proc)
    → boost_ticks ≤ u32 (ticks + 2 ^ 32 - u32 s.prev_b)
    → get_elem? s.procs j ≡ some p
    → (get_elem? (boost ticks s).procs j ≡ some (record p { level = 0; used_ticks = 0 }))
        × ((p.state ≡ runnable) ⊎ (p.state ≡ running))
      ⊎ (get_elem? (boost ticks s).procs j ≡ some p) × (p.state ≢ runnable) × (p.state ≢ running)
unfolding boost
boost_lem ticks s j p due e = ground (arith, boosted_at s.procs j p e)

-- One tick of a process that makes `m` system calls in it: it is dispatched, calls, is stopped by the
-- timer, and the scheduler looks at it again. No boost falls into it.
unfoldable pub one_tick : ℕ → Proc → Proc
one_tick m p = let q = dispatched p in descheduled (ticked (record q { syscount = q.syscount + m }))

-- `n` ticks; `calls i` is the number of system calls in the tick `i`.
unfoldable pub ticks_of : ℕ → (ℕ → ℕ) → Proc → Proc
ticks_of zero calls p = p
ticks_of (suc n) calls p = ticks_of n (λ i. calls (suc i)) (one_tick (calls 0) p)

-- What one tick does to the level and to the ticks used.
tick_early :
    (m : ℕ) (p : Proc)
    → p.state ≡ runnable
    → p.used_ticks + 1 < get_or quantum_times p.level 0
    → get_or quantum_times p.level 0 < 17
    → ((one_tick m p).level ≡ p.level)
      × ((one_tick m p).used_ticks ≡ p.used_ticks + 1)
      × ((one_tick m p).state ≡ runnable)
unfolding one_tick
tick_early m p r h b =
    let small : u32 (p.used_ticks + 1) ≡ p.used_ticks + 1 = omega arith in
    let early : leb (get_or quantum_times p.level 0) (p.used_ticks + 1) ≡ false = ground arith in
    ground (arith, small, early)

tick_last :
    (m : ℕ) (p : Proc)
    → p.state ≡ runnable
    → p.level < 3
    → p.used_ticks + 1 ≡ get_or quantum_times p.level 0
    → m < p.used_ticks + 1
    → p.used_ticks + 1 < 17
    → ((one_tick m p).level ≡ p.level + 1) × ((one_tick m p).used_ticks ≡ 0)
unfolding one_tick
tick_last m p r l h c b =
    let small : u32 (p.used_ticks + 1) ≡ p.used_ticks + 1 = omega arith in ground (arith, small)

demoted_after :
    (n : ℕ) (calls : ℕ → ℕ) (p : Proc)
    → p.state ≡ runnable
    → p.level < 3
    → p.used_ticks + suc n ≡ get_or quantum_times p.level 0
    → calls n < get_or quantum_times p.level 0
    → get_or quantum_times p.level 0 < 17
    → ((ticks_of (suc n) calls p).level ≡ p.level + 1) × ((ticks_of (suc n) calls p).used_ticks ≡ 0)
unfolding ticks_of
demoted_after zero calls p r l e c b =
    tick_last (calls 0) p r l (omega arith) (omega arith) (omega arith)
demoted_after (suc n) calls p r l e c b =
    let t = tick_early (calls 0) p r (omega arith) b in
    let same = ap (λ (k : ℕ). get_or quantum_times k 0) t.0 in
    let rest =
      demoted_after n (λ i. calls (suc i)) (one_tick (calls 0) p) t.2 (omega (arith, t.0))
        (omega (arith, t.1, same)) (omega (arith, same)) (omega (arith, same)) in
    (rest.0 ∙ omega (arith, t.0), rest.1)

quantum_small : (l : ℕ) → l < 3 → (0 < get_or quantum_times l 0) × (get_or quantum_times l 0 < 17)
quantum_small zero h = (omega arith, omega arith)
quantum_small (suc zero) h = (omega arith, omega arith)
quantum_small (suc (suc zero)) h = (omega arith, omega arith)
quantum_small (suc (suc (suc l))) h = absurd (omega arith)

-- With no boost in between, a runnable process above the last level with no ticks used loses a level, and
-- has no ticks used again, after as many ticks as its quantum has, if it makes fewer system calls in the
-- last of them than the quantum has ticks, whatever the numbers of its calls in the ticks before.
pub demoted_lem :
    (calls : ℕ → ℕ) (p : Proc)
    → p.state ≡ runnable
    → p.level < 3
    → p.used_ticks ≡ 0
    → calls (get_or quantum_times p.level 0 - 1) < get_or quantum_times p.level 0
    → ((ticks_of (get_or quantum_times p.level 0) calls p).level ≡ p.level + 1)
      × ((ticks_of (get_or quantum_times p.level 0) calls p).used_ticks ≡ 0)
demoted_lem calls p r l u c =
    let q = quantum_small p.level l in
    let e : get_or quantum_times p.level 0 ≡ suc (get_or quantum_times p.level 0 - 1) =
      omega (arith, q.0) in
    let k : ℕ = get_or quantum_times p.level 0 - 1 in
    let d = demoted_after k calls p r l (omega (arith, q.0)) c q.1 in
    (
      ap (λ n. (ticks_of n calls p).level) e ∙ d.0,
      ap (λ n. (ticks_of n calls p).used_ticks) e ∙ d.1,
    )
