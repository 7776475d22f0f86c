-- ===== src/Evict/Tests.antt =====
-- Tests of the page allocator, and the properties at concrete inputs: all 32 frames are in use, the
-- first by process 1 and the others by process 2.
use os_2_course_work.Prelude.{
  ℕ, ◌≡◌, refl, true, false, none, some, List, [], ◌∷◌, replicate, done, arith,
}
use os_2_course_work.Raid.{Page, zero_block}
use os_2_course_work.Raid.Xor.{length-zero_block}
use os_2_course_work.Raid.Array.{guarded, IsPage}
use os_2_course_work.Swap.{Swap, max_swap, empty_slot, take_slot, free_from, swap_alloc}
use os_2_course_work.Swap.Store.{IsSwap}
use os_2_course_work.Frames.{FrameEntry, Clock, frame_at, is_own, sweep_loop, clock_pick_victim}
use os_2_course_work.Proc.{null_proc}
use os_2_course_work.Evict.{Machine, free_frame, kalloc_user, evict_page}
use os_2_course_work.Evict.Out.{Evicted, kalloc_user-Evicted, kalloc_user-full}

abbrev pub zeros_page : Page
zeros_page = zero_block ∷ zero_block ∷ zero_block ∷ zero_block ∷ []

pub zeros_page-IsPage : IsPage zeros_page
zeros_page-IsPage = record {
  four = refl;
  whole = (length-zero_block, (length-zero_block, (length-zero_block, (length-zero_block, tt))));
}

abbrev frame_of : ℕ → ℕ → FrameEntry
frame_of p pa = record {
  used = true;
  proc = some p;
  va = 4096;
  pa = pa;
  ref_bit = false;
  grace = 0;
}

abbrev full_table : List FrameEntry
full_table = frame_of 1 0x80400000 ∷ replicate 31 (frame_of 2 0x80800000)

abbrev pub full_clock : Clock
full_clock = record { frame_table = full_table; clock_hand = 0 }

abbrev pub next_clock : Clock
next_clock = record { frame_table = full_table; clock_hand = 1 }

abbrev empty_swap : Swap
empty_swap = record { swap_space = replicate max_swap empty_slot; swap_head = 0 }

abbrev pub one_slot_swap : Swap
one_slot_swap = record {
  swap_space = take_slot empty_slot ∷ replicate 127 empty_slot;
  swap_head = 0;
}

abbrev pub machine : Machine
machine = record {
  mem = record { freelist = []; page = λ pa. zeros_page };
  clock = full_clock;
  swap = empty_swap;
  raid = record { sim_disk = λ d b. zero_block; disk_failed = λ d. false; raid_mode = 5 };
  procs = null_proc ∷ null_proc ∷ null_proc ∷ [];
  tables = λ t i. 0;
}

pub no_free_frame : free_frame full_table 0 ≡ none
unfolding free_frame
no_free_frame = refl

pub first_picked : clock_pick_victim (some 1) full_clock ≡ done (0, next_clock)
unfolding clock_pick_victim sweep_loop is_own
first_picked = refl

pub first_slot : swap_alloc empty_swap ≡ (one_slot_swap, some 0)
unfolding swap_alloc free_from
first_slot = refl

pub one_slot_swap-IsSwap : IsSwap guarded one_slot_swap machine.raid
one_slot_swap-IsSwap = record {
  slots = refl;
  ready = record { healthy = λ d. refl; sized = λ d b. length-zero_block };
  mode = refl;
}

kalloc_user-Evicted_example :
    Evicted guarded 0x80030000 1 8192 0 0 0x80400000 zeros_page one_slot_swap next_clock machine
kalloc_user-Evicted_example =
    kalloc_user-Evicted guarded 0x80030000 1 8192 0 0 next_clock one_slot_swap machine no_free_frame
      first_picked first_slot (omega arith) (omega arith) one_slot_swap-IsSwap zeros_page-IsPage
      refl (omega arith) (omega arith) (omega arith)

abbrev no_slots : Swap
no_slots = record { swap_space = []; swap_head = 0 }

no_slot : swap_alloc no_slots ≡ (no_slots, none)
unfolding swap_alloc free_from
no_slot = refl

abbrev swapless : Machine
swapless = record machine { swap = no_slots }

kalloc_user-full_test :
    (m' : Machine) × (kalloc_user 0x80030000 (some 1) 8192 swapless ≡ done (none, m'))
    × ((frame_at m'.clock.frame_table 0).used ≡ false)
    × (m'.mem ≡ swapless.mem)
    × (m'.tables ≡ swapless.tables)
kalloc_user-full_test =
    kalloc_user-full 0x80030000 1 8192 0 next_clock no_slots swapless no_free_frame first_picked
      no_slot (omega arith)

-- The entry of process 1 in the table is `UNUSED`, so only its frame is given up.
evict_page_test :
    evict_page 0x80030000 0 machine
    ≡ done (record machine {
      clock = record {
        frame_table =
            record {
              used = false;
              proc = none;
              va = 4096;
              pa = 0x80400000;
              ref_bit = false;
              grace = 0;
            }
            ∷ replicate 31 (frame_of 2 0x80800000);
        clock_hand = 0;
      };
    })
unfolding evict_page
evict_page_test = refl
