-- ===== src/Vm/Tests.antt =====
-- The properties of the memory of a process at concrete inputs. The tables of process 1 stand in the
-- pages 1 to 3, and its page at address 4096 is the one at 0x80400000.
use os_2_course_work.Prelude.{
  ◌^◌, ◌-◌, u32, minus_one, ℕ, zero, suc, ◌+◌, ◌*◌, ◌≡◌, refl, sym, true, false, none, some, [],
  ◌∷◌, ◌&&◌, ◌==◌, if◌then◌else◌, take, drop, done, arith, true-false,
}
use os_2_course_work.Raid.Array.{guarded}
use os_2_course_work.Swap.Store.{IsSwap, InSlot}
use os_2_course_work.Frames.{FrameEntry, empty_frame, frame_at}
use os_2_course_work.Proc.{Proc, null_proc, proc_at}
use os_2_course_work.Memory.{pgsize, filled_page, kfree}
use os_2_course_work.PageTable.{Tables, Place, flag_w, pte_at, pa2pte, pte_flags, walk_down, walk}
use os_2_course_work.Evict.{Machine, free_frame, kalloc_user}
use os_2_course_work.Evict.Out.{Evicted, kalloc_user-Evicted}
use os_2_course_work.Evict.Tests.{
  zeros_page, zeros_page-IsPage, next_clock, one_slot_swap, machine, no_free_frame, first_picked,
  first_slot, one_slot_swap-IsSwap,
}
use os_2_course_work.Vm.{forget_page, with_frames, unmap_entry, unmap_loop, uvmunmap, uvmalloc}
use os_2_course_work.Vm.Fault.{touch_frame, vmfault}
use os_2_course_work.Vm.In.{kalloc_user-free}
use os_2_course_work.Vm.Return.{vmfault-kalloc_user}
use os_2_course_work.Vm.Transfer.{
  bytes_of, store_bytes, copyout, copyout_loop, copyin, copyin_loop, copyinstr,
}
use os_2_course_work.Vm.Access.{Present, copyin-copyout}
use os_2_course_work.Vm.Hazards.{copyout-not_user, copyinstr-swapped_out}
use os_2_course_work.Vm.Rounds.{copy-rounds}
use os_2_course_work.Vm.Grow.{growproc, sys_sbrk, trapframe_va}
use os_2_course_work.Vm.Shrink.{CanGrow, growproc-shrink}
use os_2_course_work.Vm.Forget.{IsTidy, Unshared}
use os_2_course_work.Vm.Unmap.{uvmunmap-IsTidy}
use os_2_course_work.Vm.Stale.{uvmalloc-stale}

-- Three tables that lead from 4096 to the entry `e`.
abbrev tables_with : ℕ → Tables
tables_with e = λ t i.
    if t == 4096 && i == 0
    then 2049
    else if t == 8192 && i == 0
    then 3073
    else if t == 12288 && i == 1
    then e
    else 0

abbrev leaf_place : Place
leaf_place = (12288, 1)

abbrev user_proc : Proc
user_proc = record null_proc { sz = 8192; pagetable = some 4096 }

abbrev with_entry : ℕ → Machine
with_entry e = record machine {
  tables = tables_with e;
  procs = null_proc ∷ user_proc ∷ null_proc ∷ [];
}

-- The physical page number of 0x80400000, and the flags V, R, W and U.
abbrev user_entry : ℕ
user_entry = 0x80400 * 1024 + 23

abbrev running : Machine
running = with_entry user_entry

leaf_there : (e : ℕ) → walk_down 2 (tables_with e) 4096 4096 ≡ some leaf_place
unfolding walk_down
leaf_there e = refl

evicted :
    Evicted guarded 0x80030000 1 8192 0 0 0x80400000 zeros_page one_slot_swap next_clock running
evicted =
    kalloc_user-Evicted guarded 0x80030000 1 8192 0 0 next_clock one_slot_swap running no_free_frame
      first_picked first_slot (omega arith) (omega arith) one_slot_swap-IsSwap zeros_page-IsPage
      refl (omega arith) (omega arith) (omega arith)

-- Later a frame and a page are free.
abbrev later : Machine
later = record evicted.after {
  mem = record { freelist = 0x80500000 ∷ []; page = λ pa. zeros_page };
  clock = record { frame_table = empty_frame ∷ []; clock_hand = 0 };
  procs = running.procs;
}

first_free : free_frame (empty_frame ∷ []) 0 ≡ some 0
unfolding free_frame
first_free = refl

vmfault-kalloc_user_example :
    (out : Machine) × (vmfault 0x80030000 1 4096 4096 later ≡ done (0x80500000, out))
    × (out.mem.page 0x80500000 ≡ zeros_page)
    × (pte_at out.tables leaf_place ≡ pa2pte 0x80500000 + pte_flags user_entry)
vmfault-kalloc_user_example =
    vmfault-kalloc_user guarded 0x80030000 1 8192 0 0 0x80400000 1 4096 0x80500000 0 [] zeros_page
      one_slot_swap next_clock running later leaf_place evicted refl refl (leaf_there user_entry)
      (λ e. absurd (omega arith), (λ e. absurd (omega arith), tt)) refl refl (omega arith)
      zeros_page-IsPage refl (omega arith) refl refl refl (omega arith) first_free refl

there : Present (tables_with user_entry) 4096 4096 leaf_place
there = record {
  low = omega arith;
  there = leaf_there user_entry;
  valid = refl;
  user = refl;
  somewhere = refl;
}

copyin-copyout_example :
    (m' : Machine) × (copyout 0x80030000 1 4096 4100 (7 ∷ 8 ∷ []) running ≡ done (true, m'))
    × (copyin 0x80030000 1 4096 4100 2 m' ≡ done (true, 7 ∷ 8 ∷ [], m'))
copyin-copyout_example =
    copyin-copyout 0x80030000 1 4096 4100 leaf_place (7 ∷ 8 ∷ []) running (omega arith)
      (omega arith) there refl zeros_page-IsPage

-- The same page as the kernel leaves the guard page under a stack, without U.
abbrev guard_entry : ℕ
guard_entry = 0x80400 * 1024 + 7

copyout-not_user_example :
    copyout 0x80030000 1 4096 4100 (7 ∷ 8 ∷ []) (with_entry guard_entry)
    ≡ done (
      true,
      store_bytes 0x80400000 4
          (7 ∷ 8 ∷ [])
          (with_frames (touch_frame 1 4096) (with_entry guard_entry)),
    )
copyout-not_user_example =
    copyout-not_user 0x80030000 1 4096 4100 leaf_place (7 ∷ 8 ∷ []) (with_entry guard_entry)
      (omega arith) (omega arith) (omega arith) (omega arith) (leaf_there guard_entry) refl refl
      refl refl refl

-- The page of 4096 lies in slot 0.
abbrev swapped_entry : ℕ
swapped_entry = 256 + 22

abbrev away : Machine
away = record later { tables = tables_with swapped_entry }

given :
    (n : Machine) × (kalloc_user 0x80030000 (some 1) 4096 away ≡ done (some 0x80500000, n))
    × (n.swap ≡ away.swap)
    × (n.raid ≡ away.raid)
    × (n.tables ≡ away.tables)
    × (n.procs ≡ away.procs)
    × (n.mem.freelist ≡ [])
given = kalloc_user-free 0x80030000 1 4096 0 0x80500000 [] away first_free refl

given_swap : IsSwap guarded given.0.swap given.0.raid
given_swap = rw (given.2, given.3) evicted.sound

given_slot : InSlot guarded 0 zeros_page given.0.swap given.0.raid
given_slot = rw (given.2, given.3) evicted.in_slot

copyinstr-swapped_out_test :
    (out : Machine) × (copyin 0x80030000 1 4096 4100 2 away
      ≡ done (true, take 2 (drop 4 (bytes_of zeros_page)), out))
    × (copyinstr 4096 4100 2 away ≡ done (false, []))
copyinstr-swapped_out_test =
    copyinstr-swapped_out guarded 0x80030000 1 4096 4100 2 0 0x80500000 leaf_place zeros_page away
      given.0 (omega arith) (omega arith) (omega arith) (omega arith) (leaf_there swapped_entry)
      refl refl refl (omega arith) zeros_page-IsPage given.1 refl given_swap given_slot

copy-rounds_example :
    (copyout_loop 10 0x80030000 1 4096 4100 (7 ∷ 8 ∷ []) running
      ≡ copyout 0x80030000 1 4096 4100 (7 ∷ 8 ∷ []) running)
    × (copyin_loop 11 0x80030000 1 4096 4100 3 [] running ≡ copyin 0x80030000 1 4096 4100 3 running)
copy-rounds_example = copy-rounds 8 0x80030000 1 4096 4100 3 (7 ∷ 8 ∷ []) running

-- One used frame, for the page at 0x80400000.
abbrev one_frame : FrameEntry
one_frame = record {
  used = true;
  proc = some 1;
  va = 4096;
  pa = 0x80400000;
  ref_bit = true;
  grace = 0;
}

abbrev tidy : Machine
tidy = record running { clock = record { frame_table = one_frame ∷ []; clock_hand = 0 } }

one_frame-Unshared : Unshared (one_frame ∷ [])
one_frame-Unshared zero zero a b e = refl
one_frame-Unshared zero (suc k) a b e = absurd (true-false (sym b))
one_frame-Unshared (suc j) zero a b e = absurd (true-false (sym a))
one_frame-Unshared (suc j) (suc k) a b e = absurd (true-false (sym a))

tidy-IsTidy : IsTidy tidy
tidy-IsTidy = record { unshared = one_frame-Unshared; apart = λ j used. tt }

abbrev unmapped : Machine
unmapped = record tidy {
  mem = record {
    freelist = 0x80400000 ∷ [];
    page = λ q. if q == 0x80400000 then filled_page 1 else zeros_page;
  };
  clock = record {
    frame_table =
        record { used = false; proc = none; va = 0; pa = 0; ref_bit = true; grace = 0 } ∷ [];
    clock_hand = 0;
  };
  tables = λ t i. if t == 12288 && i == 1 then 0 else tables_with user_entry t i;
}

unmap_test : uvmunmap 0x80030000 4096 4096 1 true tidy ≡ done unmapped
unfolding uvmunmap unmap_loop unmap_entry walk walk_down kfree forget_page
unmap_test = refl

uvmunmap-IsTidy_example : IsTidy unmapped
uvmunmap-IsTidy_example =
    uvmunmap-IsTidy 0x80030000 4096 4096 1 tidy unmapped unmap_test tidy-IsTidy

-- A process with an empty root table at page 1, a free frame and three free pages.
abbrev roomy : Machine
roomy = record machine {
  mem = record { freelist = 0x80500000 ∷ 0x80501000 ∷ 0x80502000 ∷ []; page = λ pa. zeros_page };
  clock = record { frame_table = empty_frame ∷ []; clock_hand = 0 };
  procs = null_proc ∷ user_proc ∷ [];
  tables = λ t i. 0;
}

abbrev last_page : Machine
last_page = record roomy { mem = record { freelist = 0x80500000 ∷ []; page = λ pa. zeros_page } }

uvmalloc-stale_example :
    (out : Machine) × (uvmalloc 0x80030000 (some 1) 4096 8192 (8192 + pgsize) flag_w last_page
      ≡ done (0, out))
    × (out.mem.freelist ≡ 0x80500000 ∷ [])
    × ((frame_at out.clock.frame_table 0).used ≡ true)
    × ((frame_at out.clock.frame_table 0).proc ≡ some 1)
    × ((frame_at out.clock.frame_table 0).pa ≡ 0x80500000)
uvmalloc-stale_example =
    uvmalloc-stale 0x80030000 1 4096 8192 0 0x80500000 last_page refl (omega arith) first_free
      (omega arith) refl refl (omega arith) (omega arith) refl

roomy-CanGrow : CanGrow 1 4096 8192 0x80500000 0 (0x80501000 ∷ 0x80502000 ∷ []) roomy
roomy-CanGrow = record {
  aligned = refl;
  low = omega arith;
  frame = first_free;
  pages = refl;
  sound = record {
    free = (refl, (λ e. absurd (omega arith), tt), (refl, tt, tt));
    closed = λ q live valid. absurd (true-false (sym valid));
  };
  table_live = (λ e. absurd (omega arith), (λ e. absurd (omega arith), tt));
  page_live = (λ e. absurd (omega arith), (λ e. absurd (omega arith), tt));
  enough = omega arith;
  unmapped = λ q h. refl;
  page_aligned = refl;
}

growproc-shrink_example :
    (m' out : Machine) × (growproc 0x80030000 1 4096 pgsize roomy ≡ done (true, m'))
    × (growproc 0x80030000 1 4096 (2 ^ 32 - pgsize) m' ≡ done (true, out))
    × ((proc_at out.procs 1).sz ≡ 8192)
    × (out.mem.freelist ≡ 0x80500000 ∷ m'.mem.freelist)
    × ((proc_at out.procs 1).resident_pages ≡ u32 (0 + minus_one))
growproc-shrink_example =
    growproc-shrink 0x80030000 1 4096 8192 0x80500000 0 (0x80501000 ∷ 0x80502000 ∷ []) roomy refl
      (omega arith) (omega arith) (omega arith) (omega arith) roomy-CanGrow

sbrk_high_test :
    sys_sbrk 0x80030000 1 4096 0x7fffffff 2
      (record roomy { procs = null_proc ∷ record user_proc { sz = trapframe_va } ∷ [] })
    ≡ done (none, record roomy { procs = null_proc ∷ record user_proc { sz = trapframe_va } ∷ [] })
unfolding sys_sbrk
sbrk_high_test = refl
