-- ===== src/Scheduler/Tests.antt =====
-- Tests of the scheduler, and the properties at concrete inputs.
use os_2_course_work.Prelude.{
  ℕ, zero, suc, ◌+◌, ◌<◌, ◌≡◌, ◌≢◌, ◌⊎◌, refl, false, none, some, List, [], ◌∷◌, get_elem?, get_or,
  arith,
}
use os_2_course_work.Proc.{runnable, running, Proc, nproc, null_proc, proc_at}
use os_2_course_work.Scheduler.{
  Sched, mlfq_levels, quantum_times, is_ready, find_offset, find_level, find, boost, schedule,
  deschedule, timer_tick, timer_boost,
}
use os_2_course_work.Scheduler.Pick.{Chosen, find_lem}
use os_2_course_work.Scheduler.Levels.{Levels, step-Levels, boost_lem, ticks_of, demoted_lem}

abbrev ready_at : ℕ → ℕ → Proc
ready_at pid level = record null_proc { state = runnable; pid = pid; level = level }

abbrev two_ready : List Proc
two_ready = ready_at 1 2 ∷ ready_at 2 1 ∷ ready_at 3 1 ∷ []

abbrev sched : Sched
sched = record { procs = two_ready; prev_b = 0; prev_i = 2 }

find_lem_example :
    ((find sched ≡ none)
      × ((l j : ℕ) → l < mlfq_levels → j < nproc → is_ready l (proc_at two_ready j) ≡ false))
    ⊎ Chosen sched (find sched)
find_lem_example = find_lem sched (omega arith)

step-Levels_example :
    Levels (schedule 130 sched).0.procs
    × Levels (deschedule 1 sched).procs
    × Levels (timer_tick 1 two_ready)
    × Levels (timer_boost 130 two_ready)
step-Levels_example = step-Levels 130 1 sched (omega arith, (omega arith, (omega arith, tt)))

boost_lem_test :
    (get_elem? (boost 130 sched).procs 1
        ≡ some (record (ready_at 2 1) { level = 0; used_ticks = 0 }))
      × ((runnable ≡ runnable) ⊎ (runnable ≡ running))
    ⊎ (get_elem? (boost 130 sched).procs 1 ≡ some (ready_at 2 1))
      × (runnable ≢ runnable)
      × (runnable ≢ running)
boost_lem_test = boost_lem 130 sched 1 (ready_at 2 1) (omega arith) refl

-- Four calls in four ticks at level 1, and yet a level lost.
-- A hundred calls in the first tick and one in the second.
abbrev busy_first : ℕ → ℕ
busy_first zero = 100
busy_first (suc i) = 1

demoted_lem_example :
    ((ticks_of (get_or quantum_times 1 0) busy_first (ready_at 2 1)).level ≡ 1 + 1)
    × ((ticks_of (get_or quantum_times 1 0) busy_first (ready_at 2 1)).used_ticks ≡ 0)
demoted_lem_example = demoted_lem busy_first (ready_at 2 1) refl (omega arith) refl (omega arith)

-- The search starts behind the process that ran last.
find_test : find sched ≡ some 2
unfolding find find_level find_offset
find_test = refl

schedule_test : (schedule 130 sched).1 ≡ some 2
unfolding schedule boost find find_level find_offset
schedule_test = refl
