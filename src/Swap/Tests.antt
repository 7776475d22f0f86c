-- ===== src/Swap/Tests.antt =====
-- Tests of the swap area, and the properties at concrete inputs: the slots as `swap_init` leaves
-- them, on an array in mode 5 that is full of zeros.
use os_2_course_work.Prelude.{
  ℕ, ◌==◌, ◌≡◌, ◌⊎◌, refl, Bool, true, false, Option, none, some, List, [], ◌∷◌, replicate,
  length-replicate, done, arith,
}
use os_2_course_work.Raid.{Page, zero_block, Raid}
use os_2_course_work.Raid.Array.{guarded, IsPage}
use os_2_course_work.Raid.Pages.{lose}
use os_2_course_work.Raid.Rebuild.{parity}
use os_2_course_work.Raid.Xor.{length-zero_block}
use os_2_course_work.Swap.{
  SwapSlot, Swap, DiskStats, max_swap, empty_slot, block_of, latency_to, credit, credit_read,
  free_from, swap_alloc, swap_write, swap_read,
}
use os_2_course_work.Swap.Slots.{AllUsed, Allocated, swap_alloc_lem}
use os_2_course_work.Swap.Store.{IsSwap, swap_read-write}

abbrev zeros_page : Page
zeros_page = zero_block ∷ zero_block ∷ zero_block ∷ zero_block ∷ []

zeros_page-IsPage : IsPage zeros_page
zeros_page-IsPage = record {
  four = refl;
  whole = (length-zero_block, (length-zero_block, (length-zero_block, (length-zero_block, tt))));
}

abbrev zeros_array : Raid
zeros_array = record { sim_disk = λ d b. zero_block; disk_failed = λ d. false; raid_mode = 5 }

unfoldable empty_slots : List SwapSlot
empty_slots = replicate max_swap empty_slot

abbrev empty_swap : Swap
empty_swap = record { swap_space = empty_slots; swap_head = 0 }

empty_swap-IsSwap : IsSwap guarded empty_swap zeros_array
unfolding empty_slots
empty_swap-IsSwap = record {
  slots = length-replicate {A = SwapSlot} max_swap empty_slot;
  ready = record { healthy = λ d. refl; sized = λ d b. length-zero_block };
  mode = refl;
}

abbrev lost_one : ℕ → Bool
lost_one d = d == 1

lost_one-Tolerates : parity.Tolerates lost_one
lost_one-Tolerates = (1, λ d h ne. ground arith)

swap_read-write_example :
    (w' w'' : Swap) × (r' : Raid) × (r'' : Raid) × (s' : Option DiskStats) × (s'' : Option
      DiskStats)
    × (swap_write 3 zeros_page (some 1) 4096 none empty_swap zeros_array ≡ done (w', r', s'))
    × (swap_write 4 zeros_page (some 2) 8192 none w' r' ≡ done (w'', r'', s''))
    × (swap_read 3 none w'' (lose r'' lost_one)
        ≡ done (
          zeros_page,
          record w'' { swap_head = block_of 3 },
          credit (credit_read (latency_to (block_of 3) w''.swap_head)) none,
        ))
swap_read-write_example =
    swap_read-write guarded 3 4 zeros_page zeros_page (some 1) (some 2) 4096 8192 none none none
      empty_swap zeros_array lost_one (omega arith) (omega arith) (omega arith) zeros_page-IsPage
      zeros_page-IsPage empty_swap-IsSwap lost_one-Tolerates

abbrev full_slot : SwapSlot
full_slot = record { used = true; proc = some 1; va = 4096; disk_block = 0 }

abbrev two_slots : Swap
two_slots = record { swap_space = full_slot ∷ empty_slot ∷ []; swap_head = 0 }

swap_alloc_lem_test :
    ((swap_alloc two_slots ≡ (two_slots, none)) × AllUsed two_slots.swap_space)
    ⊎ ((k : ℕ) × Allocated two_slots k)
swap_alloc_lem_test = swap_alloc_lem two_slots

-- The first free slot is taken.
swap_alloc_test : (swap_alloc two_slots).1 ≡ some 1
unfolding swap_alloc free_from
swap_alloc_test = refl
