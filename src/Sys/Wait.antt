-- ===== src/Sys/Wait.antt =====
-- kernel/proc.c, kernel/vm.c: how `kwait` copies the status of a child to the caller, and how `freeproc`
-- gives back the memory of a process, on the whole machine.
use os_2_course_work.Prelude.{
  ℕ, ◌-◌, ◌/◌, true, false, List, Outcome, done, panic, ◌>>=◌, ◌==◌, ltb, if◌then◌else◌,
}
use os_2_course_work.Proc.{Kernel, FreeMemory, proc_at}
use os_2_course_work.Proc.Exit.{CopyStatus}
use os_2_course_work.Frames.{FrameEntry}
use os_2_course_work.Swap.{SwapSlot}
use os_2_course_work.Memory.{pgsize, pgroundup}
use os_2_course_work.PageTable.{maxva}
use os_2_course_work.Evict.{Machine}
use os_2_course_work.Vm.{uvmunmap}
use os_2_course_work.Vm.Grow.{trapframe_va}
use os_2_course_work.Vm.Transfer.{copyout}
use os_2_course_work.Sys.{int_bytes}

-- The machine with the tables of the kernel, and the tables of a machine.
abbrev pub with_kernel : Kernel → Machine → Machine
with_kernel k m = record m {
  procs = k.procs;
  clock = record m.clock { frame_table = k.frame_table };
  swap = record m.swap { swap_space = k.swap_space };
}

abbrev pub kernel_of : ℕ → Machine → Kernel
kernel_of nextpid m = record {
  procs = m.procs;
  nextpid = nextpid;
  frame_table = m.clock.frame_table;
  swap_space = m.swap.swap_space;
}

-- The test of `kwait` on `addr` and its `copyout`; `self` is the caller, and `m` has the memory, the disks
-- and the page tables.
unfoldable pub copy_status : ℕ → ℕ → ℕ → ℕ → Machine → CopyStatus
copy_status kernel_end self pagetable addr m i k =
    if addr == 0
    then done (true, k)
    else (copyout kernel_end self pagetable addr (int_bytes (proc_at k.procs i).xstate)
          (with_kernel k m)
        >>= λ (fine, m'). done (fine, kernel_of k.nextpid m'))

-- `proc_freepagetable` and `uvmfree` up to `freewalk`, which gives back the pages of the tables and touches
-- neither frames nor slots.
unfoldable pub proc_freepagetable : ℕ → ℕ → ℕ → Machine → Outcome Machine
proc_freepagetable kernel_end pagetable sz m = do
  m1 ← uvmunmap kernel_end pagetable (maxva - pgsize) 1 false m
  m2 ← uvmunmap kernel_end pagetable trapframe_va 1 false m1
  if ltb 0 sz then uvmunmap kernel_end pagetable 0 (pgroundup sz / pgsize) true m2 else done m2

abbrev tables_left :
    List FrameEntry × List SwapSlot → Outcome Machine → List FrameEntry × List SwapSlot
tables_left old (done m) = (m.clock.frame_table, m.swap.swap_space)
tables_left old (panic e) = old

-- What that leaves of the frame table and the slots; with a panic the kernel stops.
abbrev pub free_memory : ℕ → Machine → FreeMemory
free_memory kernel_end m pagetable sz (frames, slots) =
    tables_left (frames, slots)
      (proc_freepagetable kernel_end pagetable sz (record m {
        clock = record m.clock { frame_table = frames };
        swap = record m.swap { swap_space = slots };
      }))
