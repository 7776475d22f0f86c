-- ===== src/Memory/Tests.antt =====
-- Tests of the page allocator.
use os_2_course_work.Prelude.{◌≡◌, refl, none, [], ◌∷◌, panic, kfree_bad}
use os_2_course_work.Raid.{zero_block}
use os_2_course_work.Memory.{Memory, kfree, kalloc}

abbrev no_pages : Memory
no_pages = record {
  freelist = [];
  page = λ pa. zero_block ∷ zero_block ∷ zero_block ∷ zero_block ∷ [];
}

kfree_test : kfree 0x80030000 0x80400001 no_pages ≡ panic kfree_bad
unfolding kfree
kfree_test = refl

kalloc_test : kalloc no_pages ≡ (none, no_pages)
unfolding kalloc
kalloc_test = refl
