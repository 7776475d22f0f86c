-- ===== src/Lock.antt =====
-- kernel/spinlock.c and kernel/sleeplock.c: the locks. A CPU is its number; `__sync_lock_test_and_set`
-- and `__sync_lock_release` are atomic, and a sleep lock's fields change with its spin lock held.
pub mod Nest
pub mod Steps
pub mod Disabled
pub mod Exclusion
mod Tests
use os_2_course_work.Prelude.{
  ℕ, zero, suc, ◌+◌, ◌-◌, Bool, true, false, ◌&&◌, not, Option, none, some, Outcome, done, panic,
  acquire_bad, release_bad, pop_off_interruptible, pop_off_bad, ◌>>=◌, ◌==◌, ltb, if◌then◌else◌,
}

-- `locked` and the CPU that holds the lock.
pub record Spinlock : Type 0 where
  pub locked : Bool
  pub cpu : Option ℕ

-- The fields of `struct cpu` for `push_off`, and whether interrupts are enabled (`intr_get`).
pub record Cpu : Type 0 where
  pub noff : ℕ
  pub intena : Bool
  pub intr : Bool

abbrev pub initlock : Spinlock
initlock = record { locked = false; cpu = none }

unfoldable pub push_off : Cpu → Cpu
push_off c = record {
  noff = c.noff + 1;
  intena = if c.noff == 0 then c.intr else c.intena;
  intr = false;
}

unfoldable pub pop_off : Cpu → Outcome Cpu
pop_off c =
    if c.intr
    then panic pop_off_interruptible
    else if ltb c.noff 1
    then panic pop_off_bad
    else done (record {
      noff = c.noff - 1;
      intena = c.intena;
      intr = if c.noff - 1 == 0 && c.intena then true else c.intr;
    })

abbrev pub is_cpu : Option ℕ → ℕ → Bool
is_cpu none i = false
is_cpu (some j) i = j == i

unfoldable pub holding : Spinlock → ℕ → Bool
holding lk i = lk.locked && is_cpu lk.cpu i

-- `acquire` up to its loop.
unfoldable pub acquire_begin : Spinlock → ℕ → Cpu → Outcome Cpu
acquire_begin lk i c = let c' = push_off c in if holding lk i then panic acquire_bad else done c'

-- `__sync_lock_test_and_set(&lk->locked, 1)`: the old value, and the lock.
abbrev pub test_and_set : Spinlock → Bool × Spinlock
test_and_set lk = (lk.locked, record lk { locked = true })

-- `lk->cpu = mycpu()`.
abbrev pub set_cpu : ℕ → Spinlock → Spinlock
set_cpu i lk = record lk { cpu = some i }

-- `release` up to `__sync_lock_release`.
unfoldable pub release_begin : Spinlock → ℕ → Outcome Spinlock
release_begin lk i =
    if not (holding lk i) then panic release_bad else done (record lk { cpu = none })

-- `__sync_lock_release(&lk->locked)`.
abbrev pub lock_release : Spinlock → Spinlock
lock_release lk = record lk { locked = false }

-- `struct sleeplock` without its spin lock: whether it is locked, and the pid of the holder.
pub record Sleeplock : Type 0 where
  pub locked : Bool
  pub pid : ℕ

abbrev pub initsleeplock : Sleeplock
initsleeplock = record { locked = false; pid = 0 }

-- A round of the loop of `acquiresleep`; `none` is a process that goes to sleep.
unfoldable pub acquiresleep : ℕ → Sleeplock → Option Sleeplock
acquiresleep pid lk = if lk.locked then none else some (record { locked = true; pid = pid })

unfoldable pub releasesleep : Sleeplock → Sleeplock
releasesleep lk = record { locked = false; pid = 0 }

unfoldable pub holdingsleep : ℕ → Sleeplock → Bool
holdingsleep pid lk = lk.locked && lk.pid == pid
