-- ===== src/Proc/Exit.antt =====
-- `reparent`, `kexit` and `kwait` of kernel/proc.c: how a process dies and is reaped.
-- Of `kexit`, the part on the process table is modelled: closing the files comes before it.
pub mod Laws
pub mod Wait
use os_2_course_work.Prelude.{
  ℕ, zero, suc, ◌+◌, Bool, true, false, ◌&&◌, ◌||◌, not, Option, none, some, List, [], ◌∷◌, Outcome,
  done, panic, init_exiting, ◌>>=◌, ◌==◌, if◌then◌else◌, modify, minus_one,
}
use os_2_course_work.Frames.{same_proc}
use os_2_course_work.Proc.{
  ProcState, zombie, Chan, null, of_proc, Proc, Kernel, FreeMemory, nproc, proc_at, is_state,
  wakeup, freeproc, killed,
}

abbrev pub set_parent : Option ℕ → Proc → Proc
set_parent parent p = record p { parent = parent }

-- One round of the loop of `reparent`.
unfoldable pub reparent_step : ℕ → ℕ → Option ℕ → ℕ → List Proc → List Proc
reparent_step p initproc self i ps =
    if same_proc (proc_at ps i).parent (some p)
    then wakeup (of_proc initproc) self (modify (set_parent (some initproc)) ps i)
    else ps

-- The loop from index `i` on, with `n` processes left.
unfoldable pub reparent_loop : ℕ → ℕ → Option ℕ → ℕ → ℕ → List Proc → List Proc
reparent_loop p initproc self zero i ps = ps
reparent_loop p initproc self (suc n) i ps =
    reparent_loop p initproc self n (i + 1) (reparent_step p initproc self i ps)

unfoldable pub reparent : ℕ → ℕ → Option ℕ → List Proc → List Proc
reparent p initproc self ps = reparent_loop p initproc self nproc 0 ps

-- The channel that a `struct proc *` is.
abbrev pub chan_of : Option ℕ → Chan
chan_of none = null
chan_of (some p) = of_proc p

abbrev pub make_zombie : ℕ → Proc → Proc
make_zombie status p = record p { xstate = status; state = zombie }

-- `kexit` from the acquisition of `wait_lock` up to `sched`.
unfoldable pub kexit : ℕ → ℕ → ℕ → List Proc → Outcome (List Proc)
kexit p initproc status ps =
    if p == initproc
    then panic init_exiting
    else let qs = reparent p initproc (some p) ps in
      let rs = wakeup (chan_of (proc_at qs p).parent) (some p) qs in
      done (modify (make_zombie status) rs p)

-- How the scan of `kwait` ends: at a dead child, with its index and the pid read from it, or with
-- `havekids`, whether a child was seen.
pub data Waited : Type 0 where
  dead_child : ℕ → ℕ → Waited
  no_zombie : Bool → Waited

-- The scan from index `i` on.
unfoldable pub scan_children : ℕ → List Proc → ℕ → Bool → Waited
scan_children p [] i havekids = no_zombie havekids
scan_children p (q ∷ qs) i havekids = elim (same_proc q.parent (some p)) [
  | false ↦ scan_children p qs (i + 1) havekids
  | true ↦ elim (is_state q.state zombie) [
    | false ↦ scan_children p qs (i + 1) true
    | true ↦ dead_child i q.pid
  ]
]

-- What one round of the loop of `kwait` does: `returned` with a value, or `asleep` on the process.
pub data WaitStep : Type 0 where
  returned : ℕ → WaitStep
  asleep : WaitStep

-- What the copy of the status of a child to the caller does to the tables, and whether it went well. The
-- `copyout` of it may evict pages and bring pages in, whether it then succeeds or not, and may panic;
-- the module Sys/Wait has it.
abbrev pub CopyStatus : Type 0
CopyStatus = ℕ → Kernel → Outcome (Bool × Kernel)

-- The dead child is freed if its status was copied.
abbrev pub reap : FreeMemory → ℕ → ℕ → Bool × Kernel → Kernel × WaitStep
reap free_memory i pid (copied, k) =
    if copied then (freeproc free_memory i k, returned pid) else (k, returned minus_one)

unfoldable pub kwait_round : FreeMemory → CopyStatus → ℕ → Kernel → Outcome (Kernel × WaitStep)
kwait_round free_memory copy p k = elim (scan_children p k.procs 0 false) [
  | dead_child i pid ↦ (copy i k >>= λ r. done (reap free_memory i pid r))
  | no_zombie havekids ↦
      done (k, if not havekids || not (killed p k.procs == 0) then returned minus_one else asleep)
]
