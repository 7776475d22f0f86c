-- ===== src/Vm/Return.antt =====
-- A page that `kalloc_user` moved to the swap area and `vmfault` brings back.
use os_2_course_work.Prelude.{
  ℕ, zero, suc, ◌+◌, ◌*◌, ◌/◌, ◌%◌, ◌<◌, ◌≡◌, ◌≢◌, inl, inr, refl, sym, ap, ◌∙◌, true, false,
  Bool-cases, some, List, ◌∷◌, done, arith,
}
use os_2_course_work.Raid.{Page}
use os_2_course_work.Raid.Layout.{Layout}
use os_2_course_work.Raid.Array.{Selects, IsPage}
use os_2_course_work.Swap.{Swap, max_swap}
use os_2_course_work.Frames.{Clock, frame_at}
use os_2_course_work.Proc.{proc_at}
use os_2_course_work.Memory.{pgsize, pgrounddown}
use os_2_course_work.PageTable.{
  Tables, Place, maxva, pte_at, pte2pa, pa2pte, pte_flags, has_flag, with_flag, without_flag,
  flag_v, pte_v, px, walk_down,
}
use os_2_course_work.PageTable.Walk.{walk_down-valid, walk_down-invalid}
use os_2_course_work.Evict.{Machine, pte_swapped, free_frame}
use os_2_course_work.Evict.Mark.{entry_of}
use os_2_course_work.Evict.Out.{Evicted}
use os_2_course_work.Vm.{slot_of}
use os_2_course_work.Vm.Fault.{restored_pte, vmfault}
use os_2_course_work.Vm.In.{vmfault-Restored, kalloc_user-free}

-- The tables above the last one on the way to an address are other pages than `x`.
abbrev pub Clear : ℕ → Tables → ℕ → ℕ → ℕ → Type 0
Clear zero tables t va x = Unit {0}
Clear (suc level) tables t va x =
    (t ≢ x) × Clear level tables (pte2pa (pte_at tables (t, px (suc level) va))) va x

-- A change in one table does not redirect a walk that meets it last.
walk_down-Clear :
    (level : ℕ) (tables tables' : Tables) (t va x : ℕ)
    → ((q : Place) → q.0 ≢ x → pte_at tables' q ≡ pte_at tables q)
    → Clear level tables t va x
    → walk_down level tables' t va ≡ walk_down level tables t va
unfolding walk_down
walk_down-Clear zero tables tables' t va x same c = refl
walk_down-Clear (suc level) tables tables' t va x same c =
    let at : Place = (t, px (suc level) va) in
    let e = same at c.0 in
    elim (Bool-cases (pte_v (pte_at tables at))) [
      | inl valid ↦
          walk_down-valid level tables' t va (ap pte_v e ∙ valid)
          ∙ (rw e (walk_down-Clear level tables tables' (pte2pa (pte_at tables at)) va x same c.1)
              ∙ sym (walk_down-valid level tables t va valid))
      | inr invalid ↦
          walk_down-invalid level tables' t va (ap pte_v e ∙ invalid)
          ∙ sym (walk_down-invalid level tables t va invalid)
    ]

-- The flags of a valid page, with `PTE_SWAPPED` clear.
odd : (e : ℕ) → pte_v e ≡ true → e % 1024 % 2 ≡ 1
odd e valid = let h : e % 2 ≡ 1 = ground arith in omega arith

small : (e : ℕ) → has_flag pte_swapped e ≡ false → e % 1024 / 256 % 2 ≡ 0
small e fresh = let h : e / 256 % 2 ≡ 0 = ground arith in omega arith

-- What the entry of such a page becomes, and what it becomes again, for flags `r`.
module _ (slot r : ℕ) (h : slot < max_swap) (low : r < 1024) (valid : r % 2 ≡ 1)
    (fresh : r / 256 % 2 ≡ 0) where
  swapped_marked : has_flag pte_swapped (slot * 1024 + r + 255) ≡ true
  swapped_marked = let d : (slot * 1024 + r + 255) / 256 % 2 ≡ 1 = omega arith in rw d refl

  slot_of-swapped : slot_of (slot * 1024 + r + 255) ≡ slot
  slot_of-swapped = omega arith

  swapped_sum : without_flag flag_v (slot * 1024 + with_flag pte_swapped r) ≡ slot * 1024 + r + 255
  swapped_sum =
      let a : (slot * 1024 + (r + 256)) / 1 % 2 ≡ 1 = omega arith in rw fresh (rw a (omega arith))

  restored_sum : (pa : ℕ) → restored_pte pa (slot * 1024 + r + 255) ≡ pa2pte pa + r
  restored_sum pa =
      let a : (slot * 1024 + r + 255) % 1024 ≡ r + 255 = omega arith in
      let b : (r + 255) / 1 % 2 ≡ 0 = omega arith in
      let c : (pa / 4096 * 1024 + (r + 255 + 1)) / 256 % 2 ≡ 1 = omega arith in
      rw a (rw b (rw c (omega arith)))

-- After `kalloc_user` has moved the page of a victim to the swap area, where the victim's valid entry
-- for it lies at the end of the walk, in a table that the walk does not pass before: on every machine
-- with the same swap area, array and page tables, a free frame and a free page, and for an aligned
-- address below `MAXVA` and the size of the victim, `vmfault` for the victim gives it the free page
-- with the content and the flags that its page had.
pub vmfault-kalloc_user :
    {L : Layout} (sel : Selects L) (kernel_end p va slot i pa v table pa' j : ℕ) (rest : List ℕ)
    (content : Page) (w : Swap) (clock : Clock) (m n : Machine) (place : Place)
    (moved : Evicted sel kernel_end p va slot i pa content w clock m)
    → (frame_at clock.frame_table i).proc ≡ some v
    → (proc_at m.procs v).pagetable ≡ some table
    → walk_down 2 m.tables table (frame_at clock.frame_table i).va ≡ some place
    → Clear 2 m.tables table (frame_at clock.frame_table i).va place.0
    → pte_v (pte_at m.tables place) ≡ true
    → has_flag pte_swapped (pte_at m.tables place) ≡ false
    → slot < max_swap
    → IsPage content
    → (frame_at clock.frame_table i).va % pgsize ≡ 0
    → (frame_at clock.frame_table i).va < maxva
    → n.swap ≡ moved.after.swap
    → n.raid ≡ moved.after.raid
    → n.tables ≡ moved.after.tables
    → (frame_at clock.frame_table i).va < (proc_at n.procs v).sz
    → free_frame n.clock.frame_table 0 ≡ some j
    → n.mem.freelist ≡ pa' ∷ rest
    → (out : Machine) × (vmfault kernel_end v table (frame_at clock.frame_table i).va n
        ≡ done (pa', out))
      × (out.mem.page pa' ≡ content)
      × (pte_at out.tables place ≡ pa2pte pa' + pte_flags (pte_at m.tables place))
vmfault-kalloc_user sel kernel_end p va slot i pa v table pa' j rest content w clock m n place moved
      owner has there clear valid fresh h pg aligned low same_swap same_raid same_tables inside free
      pages =
    let f = frame_at clock.frame_table i in
    let e = pte_at m.tables place in
    let r = e % 1024 in
    let here : entry_of f.proc f.va m ≡ some place = rw (owner, has) there in
    let round : pgrounddown f.va ≡ f.va = omega arith in
    let entry : pte_at n.tables place ≡ slot * 1024 + r + 255 = rw same_tables (
      moved.entry place here valid
      ∙ swapped_sum slot r h (omega arith) (odd e valid) (small e fresh)) in
    let still : walk_down 2 n.tables table f.va ≡ some place = rw same_tables (
      walk_down-Clear 2 m.tables moved.after.tables table f.va place.0
        (λ q ne. moved.apart place q here (inl ne)) clear
      ∙ there) in
    let (given, gives, g_swap, g_raid, g_tables, g_procs, g_free) =
      kalloc_user-free kernel_end v f.va j pa' rest n free pages in
    let back =
      vmfault-Restored sel kernel_end v table f.va slot pa' place content n given (rw round inside)
        (rw round low) (rw round still)
        (rw entry (swapped_marked slot r h (omega arith) (odd e valid) (small e fresh)))
        (rw entry (slot_of-swapped slot r h (omega arith) (odd e valid) (small e fresh))) h pg
        (rw round gives) (rw (g_swap, g_raid, same_swap, same_raid) moved.sound)
        (rw (g_swap, g_raid, same_swap, same_raid) moved.in_slot) in
    (
      back.after,
      back.returns,
      back.content,
      back.entry
          ∙ (rw (g_tables, entry)
              (restored_sum slot r h (omega arith) (odd e valid) (small e fresh) pa')),
    )
