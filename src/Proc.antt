-- ===== src/Proc.antt =====
-- kernel/proc.c and kernel/proc.h: the process table and the operations that change it.
-- A routine that holds `p->lock` over a step is one step on the table. A process is named by its
-- index in `proc[NPROC]`. What kalloc.c and vm.c return to these routines is an argument.
pub mod Exit
pub mod Wakeup
pub mod Life
mod Tests
use os_2_course_work.Prelude.{
  ℕ, zero, suc, ◌+◌, Bool, true, false, ◌&&◌, not, Option, none, some, List, [], ◌∷◌, map, ◌==◌,
  if◌then◌else◌, u32, replicate, get_or, modify,
}
use os_2_course_work.Frames.{FrameEntry, same_proc}
use os_2_course_work.Swap.{SwapSlot, DiskStats}

abbrev pub nproc : ℕ
nproc = 64

pub data ProcState : Type 0 where
  unused used sleeping runnable running zombie : ProcState

-- The values of `enum procstate`.
abbrev pub state_code : ProcState → ℕ
state_code unused = 0
state_code used = 1
state_code sleeping = 2
state_code runnable = 3
state_code running = 4
state_code zombie = 5

abbrev pub is_state : ProcState → ProcState → Bool
is_state a b = state_code a == state_code b

-- A wait channel: the null pointer, the address of a process, or that of another object.
pub data Chan : Type 0 where
  null : Chan
  of_proc : ℕ → Chan
  address : ℕ → Chan

abbrev pub same_chan : Chan → Chan → Bool
same_chan null null = true
same_chan (of_proc p) (of_proc q) = p == q
same_chan (address a) (address b) = a == b
same_chan _ _ = false

-- `struct proc`, less its lock, stack, context, files, directory and name. The pointers `trapframe`
-- and `pagetable` are `none` for 0; `killed` and the statistics are C's integers.
pub record Proc : Type 0 where
  pub state : ProcState
  pub chan : Chan
  pub killed : ℕ
  pub xstate : ℕ
  pub pid : ℕ
  pub parent : Option ℕ
  pub sz : ℕ
  pub pagetable : Option ℕ
  pub trapframe : Option ℕ
  pub syscount : ℕ
  pub level : ℕ
  pub used_ticks : ℕ
  pub total_ticks : List ℕ
  pub times_scheduled : ℕ
  pub slice_start_syscount : ℕ
  pub page_faults : ℕ
  pub pages_evicted : ℕ
  pub pages_swapped_in : ℕ
  pub pages_swapped_out : ℕ
  pub resident_pages : ℕ
  pub disk : DiskStats

-- The tables that process creation and removal change.
pub record Kernel : Type 0 where
  pub procs : List Proc
  pub nextpid : ℕ
  pub frame_table : List FrameEntry
  pub swap_space : List SwapSlot

abbrev pub no_disk_stats : DiskStats
no_disk_stats = record { disk_reads = 0; disk_writes = 0; total_disk_latency = 0; disk_ops = 0 }

unfoldable pub allocpid : Kernel → Kernel × ℕ
allocpid k = (record k { nextpid = u32 (k.nextpid + 1) }, k.nextpid)

-- The first `UNUSED` process from index `i` on.
unfoldable pub find_unused : List Proc → ℕ → Option ℕ
find_unused [] i = none
find_unused (p ∷ ps) i = if is_state p.state unused then some i else find_unused ps (i + 1)

-- The statements from `found:` up to the allocation of the trapframe.
abbrev pub fresh_proc : ℕ → Proc → Proc
fresh_proc pid p = record p {
  level = 0;
  used_ticks = 0;
  times_scheduled = 0;
  slice_start_syscount = 0;
  total_ticks = replicate 4 0;
  page_faults = 0;
  pages_evicted = 0;
  pages_swapped_in = 0;
  pages_swapped_out = 0;
  resident_pages = 0;
  disk = no_disk_stats;
  pid = pid;
  state = used;
  syscount = 0;
}

-- The fields that `freeproc` clears before it cleans the tables, and the state after.
abbrev pub cleared_proc : Proc → Proc
cleared_proc p = record p {
  trapframe = none;
  pagetable = none;
  sz = 0;
  pid = 0;
  parent = none;
  chan = null;
  killed = 0;
  xstate = 0;
  state = unused;
}

abbrev pub drop_frame : ℕ → FrameEntry → FrameEntry
drop_frame i f = if same_proc f.proc (some i) then record f { used = false; proc = none } else f

abbrev pub drop_slot : ℕ → SwapSlot → SwapSlot
drop_slot i s = if same_proc s.proc (some i) then record s { used = false; proc = none } else s

abbrev pub null_proc : Proc
null_proc = record {
  state = unused;
  chan = null;
  killed = 0;
  xstate = 0;
  pid = 0;
  parent = none;
  sz = 0;
  pagetable = none;
  trapframe = none;
  syscount = 0;
  level = 0;
  used_ticks = 0;
  total_ticks = replicate 4 0;
  times_scheduled = 0;
  slice_start_syscount = 0;
  page_faults = 0;
  pages_evicted = 0;
  pages_swapped_in = 0;
  pages_swapped_out = 0;
  resident_pages = 0;
  disk = no_disk_stats;
}

abbrev pub proc_at : List Proc → ℕ → Proc
proc_at ps i = get_or ps i null_proc

-- The memory that `freeproc` hands to `kfree` and `proc_freepagetable` (with its size).
pub record Released : Type 0 where
  pub frame_page : Option ℕ
  pub table : Option ℕ
  pub table_size : ℕ

-- What a `proc_freepagetable` of a table and a size leaves of the frame table and the swap area, by the
-- entries of the page table: `uvmunmap` clears frames and frees slots. The module Sys/Wait has it.
abbrev pub FreeMemory : Type 0
FreeMemory = ℕ → ℕ → List FrameEntry × List SwapSlot → List FrameEntry × List SwapSlot

abbrev pub free_table : FreeMemory → Proc → Kernel → List FrameEntry × List SwapSlot
free_table free_memory p k = elim p.pagetable [
  | none ↦ (k.frame_table, k.swap_space)
  | some table ↦ free_memory table p.sz (k.frame_table, k.swap_space)
]

unfoldable pub freeproc : FreeMemory → ℕ → Kernel → Kernel
freeproc free_memory i k =
    let left = free_table free_memory (proc_at k.procs i) k in
    record k {
      procs = modify cleared_proc k.procs i;
      frame_table = map (drop_frame i) left.0;
      swap_space = map (drop_slot i) left.1;
    }

-- What a call of `freeproc` releases.
unfoldable pub released : ℕ → Kernel → Released
released i k = record {
  frame_page = (proc_at k.procs i).trapframe;
  table = (proc_at k.procs i).pagetable;
  table_size = (proc_at k.procs i).sz;
}

abbrev pub set_trapframe : Option ℕ → Proc → Proc
set_trapframe t p = record p { trapframe = t }

abbrev pub set_pagetable : Option ℕ → Proc → Proc
set_pagetable t p = record p { pagetable = t }

-- The rest of `allocproc` for the process found, by what `kalloc` and `proc_pagetable` return.
unfoldable pub allocproc_found : FreeMemory → ℕ → Option ℕ → Option ℕ → Kernel → Kernel × Option ℕ
allocproc_found free_memory i trapframe pagetable k =
    let (k1, pid) = allocpid k in
    let k2 = record k1 { procs = modify (fresh_proc pid) k1.procs i } in
    let k3 = record k2 { procs = modify (set_trapframe trapframe) k2.procs i } in
    elim trapframe [
      | none ↦ (freeproc free_memory i k3, none)
      | some t ↦
          let k4 = record k3 { procs = modify (set_pagetable pagetable) k3.procs i } in
          elim pagetable [ none ↦ (freeproc free_memory i k4, none) | some table ↦ (k4, some i) ]
    ]

unfoldable pub allocproc : FreeMemory → Option ℕ → Option ℕ → Kernel → Kernel × Option ℕ
allocproc free_memory trapframe pagetable k = elim (find_unused k.procs 0) [
  | none ↦ (k, none)
  | some i ↦ allocproc_found free_memory i trapframe pagetable k
]

abbrev pub wakes : Chan → Proc → Bool
wakes chan p = is_state p.state sleeping && same_chan p.chan chan

abbrev pub make_runnable : Proc → Proc
make_runnable p = record p { state = runnable }

-- The loop of `wakeup` from index `i` on; `self` is `myproc()`.
unfoldable pub wakeup_from : Chan → Option ℕ → List Proc → ℕ → List Proc
wakeup_from chan self [] i = []
wakeup_from chan self (p ∷ ps) i =
    (if not (same_proc (some i) self) && wakes chan p then make_runnable p else p)
    ∷ wakeup_from chan self ps (i + 1)

unfoldable pub wakeup : Chan → Option ℕ → List Proc → List Proc
wakeup chan self ps = wakeup_from chan self ps 0

abbrev pub killed_proc : Proc → Proc
killed_proc p = record p {
  killed = 1;
  state = if is_state p.state sleeping then runnable else p.state;
}

abbrev pub keep_head : Proc → Option (List Proc) → Option (List Proc)
keep_head p none = none
keep_head p (some ps) = some (p ∷ ps)

-- `none` is the return value -1.
unfoldable pub kkill : ℕ → List Proc → Option (List Proc)
kkill pid [] = none
kkill pid (p ∷ ps) = if p.pid == pid then some (killed_proc p ∷ ps) else keep_head p (kkill pid ps)

unfoldable pub setkilled : ℕ → List Proc → List Proc
setkilled i ps = modify (λ p. record p { killed = 1 }) ps i

unfoldable pub killed : ℕ → List Proc → ℕ
killed i ps = (proc_at ps i).killed

-- `yield` up to its call of `sched`.
unfoldable pub yield : ℕ → List Proc → List Proc
yield i ps = modify make_runnable ps i

-- `sleep` up to its call of `sched`, and from its return on.
unfoldable pub sleep : Chan → ℕ → List Proc → List Proc
sleep chan i ps = modify (λ p. record p { chan = chan; state = sleeping }) ps i

unfoldable pub sleep_return : ℕ → List Proc → List Proc
sleep_return i ps = modify (λ p. record p { chan = null }) ps i
