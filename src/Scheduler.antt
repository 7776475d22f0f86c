-- ===== src/Scheduler.antt =====
-- The multi-level feedback queue: `scheduler` of kernel/proc.c, and the timer interrupt's part in
-- `usertrap` and `kerneltrap` of kernel/trap.c. One round of `scheduler` is cut at its `swtch` into
-- the choice of a process and what follows when that process comes back.
pub mod Pick
pub mod Levels
mod Tests
use os_2_course_work.Prelude.{
  ℕ, zero, suc, ◌+◌, ◌-◌, ◌%◌, ◌^◌, Bool, true, false, ◌&&◌, ◌||◌, not, Option, none, some, List,
  [], ◌∷◌, map, ◌==◌, ltb, leb, if◌then◌else◌, u32, int_ltb, get_or, modify,
}
use os_2_course_work.Proc.{
  ProcState, runnable, running, is_state, Proc, nproc, proc_at, make_runnable,
}

abbrev pub mlfq_levels : ℕ
mlfq_levels = 4

abbrev pub boost_ticks : ℕ
boost_ticks = 128

abbrev pub quantum_times : List ℕ
quantum_times = 2 ∷ 4 ∷ 8 ∷ 16 ∷ []

-- The process table and the two statics of `scheduler`.
pub record Sched : Type 0 where
  pub procs : List Proc
  pub prev_b : ℕ
  pub prev_i : ℕ

abbrev pub boosted : Proc → Proc
boosted p =
    if is_state p.state runnable || is_state p.state running
    then record p { level = 0; used_ticks = 0 }
    else p

-- The boost at the head of a round; `ticks - prev_b` is a `uint` subtraction.
unfoldable pub boost : ℕ → Sched → Sched
boost ticks s =
    if leb boost_ticks (u32 (ticks + 2 ^ 32 - u32 s.prev_b))
    then record s { procs = map boosted s.procs; prev_b = ticks }
    else s

abbrev pub is_ready : ℕ → Proc → Bool
is_ready level p = is_state p.state runnable && p.level == level

-- The search of one level, from `offset` on with `n` rounds left.
unfoldable pub find_offset : List Proc → ℕ → ℕ → ℕ → ℕ → Option ℕ
find_offset ps prev_i level zero offset = none
find_offset ps prev_i level (suc n) offset =
    let index = (prev_i + offset) % nproc in
    if is_ready level (proc_at ps index)
    then some index
    else find_offset ps prev_i level n (offset + 1)

abbrev pub or_else : Option ℕ → Option ℕ → Option ℕ
or_else (some i) o = some i
or_else none o = o

-- The search of the levels from `level` on, with `n` levels left.
unfoldable pub find_level : List Proc → ℕ → ℕ → ℕ → Option ℕ
find_level ps prev_i zero level = none
find_level ps prev_i (suc n) level =
    or_else (find_offset ps prev_i level nproc 0) (find_level ps prev_i n (level + 1))

-- The process that the round runs; `none` is `found == 0`.
unfoldable pub find : Sched → Option ℕ
find s = find_level s.procs s.prev_i mlfq_levels 0

abbrev pub dispatched : Proc → Proc
dispatched p = record p {
  times_scheduled = u32 (p.times_scheduled + 1);
  slice_start_syscount = u32 p.syscount;
  state = running;
}

-- From the choice up to `swtch`.
unfoldable pub dispatch : ℕ → Sched → Sched
dispatch index s = record s {
  procs = modify dispatched s.procs index;
  prev_i = (index + 1) % nproc;
}

-- A round of `scheduler` up to its `swtch` (or its `wfi`).
unfoldable pub schedule : ℕ → Sched → Sched × Option ℕ
schedule ticks s =
    let t = boost ticks s in elim (find t) [ none ↦ (t, none) | some i ↦ (dispatch i t, some i) ]

-- The system calls of the slice, as the `int` that the code assigns.
abbrev pub del_s : Proc → ℕ
del_s p = u32 (p.syscount + 2 ^ 32 - u32 p.slice_start_syscount)

abbrev pub used_up : Proc → Bool
used_up p = leb (get_or quantum_times p.level 0) p.used_ticks

-- What the scheduler does to a process that has come back.
abbrev pub descheduled : Proc → Proc
descheduled p =
    if used_up p
    then record p {
      level =
          if int_ltb (del_s p) p.used_ticks
          then (if ltb p.level 3 then p.level + 1 else p.level)
          else p.level;
      used_ticks = 0;
    }
    else p

unfoldable pub deschedule : ℕ → Sched → Sched
deschedule index s = record s { procs = modify descheduled s.procs index }

abbrev pub ticked : Proc → Proc
ticked p =
    if is_state p.state running
    then record p {
      used_ticks = u32 (p.used_ticks + 1);
      total_ticks = modify (λ t. u32 (t + 1)) p.total_ticks p.level;
      state = runnable;
    }
    else p

abbrev pub raised : Proc → Proc
raised p = if is_state p.state runnable then record p { level = 0 } else p

-- The timer interrupt of the current process, with `yield` up to its `swtch`; `mlfq_global_ticks`
-- has been counted up to `ticks`. The boost follows when the process runs again.
unfoldable pub timer_tick : ℕ → List Proc → List Proc
timer_tick i ps = modify ticked ps i

unfoldable pub timer_boost : ℕ → List Proc → List Proc
timer_boost ticks ps = if ticks % boost_ticks == 0 then map raised ps else ps
