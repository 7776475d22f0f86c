-- ===== src/PageTable/Tests.antt =====
-- The properties of the page tables at concrete inputs, and tests of the walk.
use os_2_course_work.Prelude.{
  ℕ, ◌<◌, ◌≡◌, ◌≢◌, refl, sym, true, none, [], ◌∷◌, done, panic, walk_bad, arith, true-false,
}
use os_2_course_work.Raid.{zero_block}
use os_2_course_work.Memory.{Memory, pgsize}
use os_2_course_work.PageTable.{Tables, maxva, walk_down, walk, walkaddr, mappages}
use os_2_course_work.PageTable.Sound.{IsSound}
use os_2_course_work.PageTable.Map.{walkaddr-mappages}

-- An empty root table at page 1, and two free pages.
abbrev no_tables : Tables
no_tables = λ t i. 0

abbrev two_pages : Memory
two_pages = record { freelist = 20480 ∷ 24576 ∷ []; page = λ pa. zero_block ∷ [] }

no_tables-IsSound : IsSound two_pages no_tables
no_tables-IsSound = record {
  free = (refl, (λ e. absurd (omega arith), tt), (refl, tt, tt));
  closed = λ q live valid. absurd (true-false (sym valid));
}

walkaddr-mappages_example :
    (mem' : Memory) × (tables' : Tables) × (mappages 4096 8192 pgsize 28672 22 two_pages no_tables
      ≡ done (true, mem', tables'))
    × IsSound mem' tables'
    × (walkaddr tables' 4096 8192 ≡ done 28672)
    × ((other pa' : ℕ)
        → other < maxva
        → pa' ≢ 0
        → walkaddr no_tables 4096 other ≡ done pa'
        → walkaddr tables' 4096 other ≡ done pa')
walkaddr-mappages_example =
    walkaddr-mappages 4096 8192 28672 22 two_pages no_tables refl (omega arith) refl (omega arith)
      refl no_tables-IsSound (λ e. absurd (omega arith), (λ e. absurd (omega arith), tt))
      (λ e. absurd (omega arith), (λ e. absurd (omega arith), tt)) (omega arith) (λ q h. refl)

walk_high_test : walk no_tables 4096 maxva ≡ panic walk_bad
unfolding walk
walk_high_test = refl

walk_empty_test : walk no_tables 4096 8192 ≡ done none
unfolding walk walk_down
walk_empty_test = refl
