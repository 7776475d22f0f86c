-- ===== src/Proc/Tests.antt =====
-- Tests of the process table, and the properties at concrete inputs: process 0 is init, process 1
-- its child and the parent of 2, which is a zombie, and process 3 is unused.
use os_2_course_work.Prelude.{
  ℕ, map, false, ◌==◌, if◌then◌else◌, ◌≡◌, ◌≢◌, ◌⊎◌, refl, true, not, ◌||◌, none, some, List, [],
  ◌∷◌, replicate, get_elem?, ◌&&◌, ◌>>=◌, done, panic, init_exiting, minus_one, arith,
}
use os_2_course_work.Frames.{FrameEntry}
use os_2_course_work.Proc.{
  sleeping, runnable, running, zombie, of_proc, address, Proc, Kernel, FreeMemory, null_proc,
  cleared_proc, freeproc, allocproc, wakeup, kkill, killed, sleep,
}
use os_2_course_work.Proc.Wakeup.{woken, wakeup_lem, wakeup-sleep, NoPid, Killed, kkill_lem}
use os_2_course_work.Proc.Life.{NoneUnused, NoFrame, NoSlot, freeproc_lem, kkill_zero-allocproc}
use os_2_course_work.PageTable.{walkaddr, walk, walk_down}
use os_2_course_work.Evict.{Machine}
use os_2_course_work.Vm.Fault.{vmfault}
use os_2_course_work.Vm.Transfer.{copyout, copyout_loop, copyout_round, resident}
use os_2_course_work.Sys.Wait.{copy_status, proc_freepagetable, free_memory}
use os_2_course_work.Vm.{uvmunmap, unmap_loop, unmap_entry}
use os_2_course_work.Swap.{SwapSlot, swap_free}
use os_2_course_work.Proc.Exit.{kexit, scan_children, kwait_round, returned, asleep}
use os_2_course_work.Proc.Exit.Laws.{parent_at, adopted, kexit-no_orphan}
use os_2_course_work.Proc.Exit.Wait.{None, is_child, is_dead_child, any, FirstDead, kwait_round_lem}

abbrev init_proc : Proc
init_proc = record null_proc { state = sleeping; chan = of_proc 0; pid = 1 }

abbrev shell : Proc
shell = record null_proc { state = running; pid = 2; parent = some 0 }

abbrev dead : Proc
dead = record null_proc { state = zombie; pid = 3; parent = some 1; xstate = 7 }

abbrev procs : List Proc
procs = init_proc ∷ shell ∷ dead ∷ null_proc ∷ []

abbrev table : List Proc
table = init_proc ∷ shell ∷ dead ∷ replicate 61 null_proc

abbrev kernel : Kernel
kernel = record { procs = procs; nextpid = 4; frame_table = []; swap_space = [] }

abbrev forgotten : FrameEntry → FrameEntry
forgotten f = record f { used = false; proc = none; va = 0; pa = 0 }

-- A `proc_freepagetable` of all frames.
abbrev forget_all : FreeMemory
forget_all root sz (frames, slots) = (map forgotten frames, slots)

wakeup_lem_test :
    get_elem? (wakeup (of_proc 0) (some 1) procs) 0 ≡ some (woken (of_proc 0) (some 1) 0 init_proc)
wakeup_lem_test = wakeup_lem (of_proc 0) (some 1) procs 0 init_proc refl

wakeup-sleep_test :
    get_elem? (wakeup (address 9) (some 2) (sleep (address 9) 1 procs)) 1
    ≡ some (record shell { chan = address 9; state = runnable })
wakeup-sleep_test = wakeup-sleep (address 9) (some 2) procs 1 shell refl refl

kkill_lem_test : ((kkill 3 procs ≡ none) × NoPid 3 procs) ⊎ Killed 3 procs
kkill_lem_test = kkill_lem 3 procs

freeproc_lem_test :
    (get_elem? (freeproc forget_all 2 kernel).procs 2 ≡ some (cleared_proc dead))
    × NoFrame 2 (freeproc forget_all 2 kernel).frame_table
    × NoSlot 2 (freeproc forget_all 2 kernel).swap_space
    × ((j : ℕ) → 2 ≢ j → get_elem? (freeproc forget_all 2 kernel).procs j ≡ get_elem? procs j)
freeproc_lem_test = freeproc_lem forget_all 2 kernel dead refl

kkill_zero-allocproc_example :
    NoneUnused procs
    ⊎ ((ps : List Proc) × (i : ℕ) × (p : Proc) × (kkill 0 procs ≡ some ps)
        × ((allocproc forget_all (some 5) (some 6) (record kernel { procs = ps })).1 ≡ some i)
        × (get_elem?
              (allocproc forget_all (some 5) (some 6) (record kernel { procs = ps })).0.procs
              i
            ≡ some p)
        × (p.killed ≡ 1))
kkill_zero-allocproc_example =
    kkill_zero-allocproc forget_all 5 6 kernel
      (ground arith, (ground arith, (ground arith, (ground arith, tt))))

kexit-no_orphan_example :
    (qs : List Proc) × (kexit 1 0 7 table ≡ done qs)
    × (parent_at qs 2 ≡ adopted 1 0 (parent_at table 2))
    × (parent_at qs 2 ≢ some 1)
kexit-no_orphan_example = kexit-no_orphan 1 0 7 table 2 refl (omega arith) (omega arith)

-- A machine whose tables are empty: every `copyout` fails.
abbrev bare : Machine
bare = record {
  mem = record { freelist = []; page = λ pa. [] };
  clock = record { frame_table = []; clock_hand = 0 };
  swap = record { swap_space = []; swap_head = 0 };
  raid = record { sim_disk = λ d b. []; disk_failed = λ d. false; raid_mode = 5 };
  procs = [];
  tables = λ t i. 0;
}

kwait_round_lem_example :
    (None (is_dead_child 1) procs
      × (kwait_round (free_memory 0x80030000 bare) (copy_status 0x80030000 1 4096 0 bare) 1 kernel
          ≡ done (
            kernel,
            if not (any (is_child 1) procs) || not (killed 1 procs == 0)
                then returned minus_one
                else asleep,
          )))
    ⊎ ((i : ℕ) × (f : FirstDead 1 procs i) × (kwait_round
            (free_memory 0x80030000 bare)
            (copy_status 0x80030000 1 4096 0 bare)
            1
            kernel
          ≡ (copy_status 0x80030000 1 4096 0 bare i kernel >>= λ (copied, k'). done (
              if copied
              then (freeproc (free_memory 0x80030000 bare) i k', returned f.child.pid)
              else (k', returned minus_one)))))
kwait_round_lem_example =
    kwait_round_lem (free_memory 0x80030000 bare) (copy_status 0x80030000 1 4096 0 bare) 1 kernel

-- With the address 0 the child is freed, with an address that is not mapped it is kept.
kwait_round_test :
    kwait_round forget_all (copy_status 0x80030000 1 4096 0 bare) 1 kernel
    ≡ done (freeproc forget_all 2 kernel, returned 3)
unfolding kwait_round scan_children copy_status
kwait_round_test = refl

-- A process whose page at 4096 is in slot 0: the slot is free afterwards.
abbrev swapped_bare : Machine
swapped_bare = record bare {
  tables = λ t i.
      if t == 4096 && i == 0
      then 2049
      else if t == 8192 && i == 0
      then 3073
      else if t == 12288 && i == 1
      then 256
      else 0;
}

abbrev taken : SwapSlot
taken = record { used = true; proc = some 2; va = 4096; disk_block = 0 }

free_memory_test :
    free_memory 0x80030000 swapped_bare 4096 8192 ([], taken ∷ [])
    ≡ ([], record { used = false; proc = none; va = 0; disk_block = 0 } ∷ [])
unfolding proc_freepagetable uvmunmap unmap_loop unmap_entry walk walk_down swap_free
free_memory_test = refl

kwait_unmapped_test :
    kwait_round forget_all (copy_status 0x80030000 1 4096 8192 bare) 1 kernel
    ≡ done (kernel, returned minus_one)
unfolding kwait_round scan_children copy_status copyout copyout_loop copyout_round resident walkaddr
    walk walk_down vmfault
kwait_unmapped_test = refl

kexit_test : kexit 0 0 7 table ≡ panic init_exiting
unfolding kexit
kexit_test = refl

kkill_test : kkill 9 procs ≡ none
unfolding kkill
kkill_test = refl
