-- ===== src/Vm/ForkTests.antt =====
-- A page that is evicted while `uvmcopy` copies it: process 1, with its tables in the pages 1 to 3, forks
-- process 2, whose tables stand in the pages 4 to 6, and the page of process 1 at 4096 is the victim.
use os_2_course_work.Prelude.{
  ℕ, ◌+◌, ◌*◌, ◌≡◌, refl, inl, true, false, ◌&&◌, none, some, List, [], ◌∷◌, ◌==◌, if◌then◌else◌,
  replicate, done, arith,
}
use os_2_course_work.Raid.Array.{guarded}
use os_2_course_work.Swap.Store.{InSlot}
use os_2_course_work.Frames.{FrameEntry, Clock, clock_pick_victim, sweep_loop, is_own, is_owned}
use os_2_course_work.Proc.{Proc, null_proc}
use os_2_course_work.Memory.{filled_page}
use os_2_course_work.PageTable.{Tables, Place, pte_at, walk_down, walkaddr}
use os_2_course_work.Evict.{Machine, free_frame, swapped_pte}
use os_2_course_work.Evict.Out.{Evicted, kalloc_user-Evicted}
use os_2_course_work.Evict.Tests.{
  zeros_page, zeros_page-IsPage, one_slot_swap, machine, first_slot, one_slot_swap-IsSwap,
}
use os_2_course_work.Vm.Fork.{copy_entry}
use os_2_course_work.Vm.Hazards.{copy_entry-Evicted}

abbrev frame_of : ℕ → ℕ → FrameEntry
frame_of p pa = record {
  used = true;
  proc = some p;
  va = 4096;
  pa = pa;
  ref_bit = false;
  grace = 0;
}

abbrev frames : List FrameEntry
frames = frame_of 1 0x80400000 ∷ replicate 31 (frame_of 0 0x80800000)

abbrev picked_clock : Clock
picked_clock = record { frame_table = frames; clock_hand = 1 }

-- The flags of the parent's page are V, R, W and U.
abbrev both_tables : Tables
both_tables = λ t i.
    if t == 4096 && i == 0
    then 2049
    else if t == 8192 && i == 0
    then 3073
    else if t == 12288 && i == 1
    then 0x80400 * 1024 + 23
    else if t == 16384 && i == 0
    then 5121
    else if t == 20480 && i == 0
    then 6145
    else 0

abbrev parent_place : Place
parent_place = (12288, 1)

abbrev child_place : Place
child_place = (24576, 1)

abbrev process : ℕ → Proc
process table = record null_proc { sz = 8192; pagetable = some table }

abbrev forking : Machine
forking = record machine {
  clock = record { frame_table = frames; clock_hand = 0 };
  procs = null_proc ∷ process 4096 ∷ process 16384 ∷ [];
  tables = both_tables;
}

all_used : free_frame frames 0 ≡ none
unfolding free_frame
all_used = refl

parent_picked : clock_pick_victim (some 2) forking.clock ≡ done (0, picked_clock)
unfolding clock_pick_victim sweep_loop is_own is_owned
parent_picked = refl

evicted :
    Evicted guarded 0x80030000 2 4096 0 0 0x80400000 zeros_page one_slot_swap picked_clock forking
evicted =
    kalloc_user-Evicted guarded 0x80030000 2 4096 0 0 picked_clock one_slot_swap forking all_used
      parent_picked first_slot (omega arith) (omega arith) one_slot_swap-IsSwap zeros_page-IsPage
      refl (omega arith) (omega arith) (omega arith)

child_there : walk_down 2 both_tables 16384 4096 ≡ some child_place
unfolding walk_down
child_there = refl

parent_there : walk_down 2 both_tables 4096 4096 ≡ some parent_place
unfolding walk_down
parent_there = refl

copy_entry-Evicted_example :
    (out : Machine) × (copy_entry 0x80030000 2 16384 4096 (some parent_place) forking
      ≡ done (true, out))
    × (walkaddr out.tables 16384 4096 ≡ done 0x80400000)
    × (out.mem.page 0x80400000 ≡ filled_page 5)
    × (pte_at out.tables parent_place ≡ swapped_pte 0 (pte_at both_tables parent_place))
    × InSlot guarded 0 zeros_page out.swap out.raid
copy_entry-Evicted_example =
    copy_entry-Evicted guarded 0x80030000 2 16384 4096 0 0 0x80400000 parent_place child_place
      zeros_page one_slot_swap picked_clock forking evicted parent_there refl refl refl refl refl
      (omega arith) child_there refl
      (inl (λ e. absurd (omega arith)), (inl (λ e. absurd (omega arith)), tt))
