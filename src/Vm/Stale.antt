-- ===== src/Vm/Stale.antt =====
-- `uvmalloc` when `mappages` finds no page for a table: what it leaves of the frame that it got.
use os_2_course_work.Prelude.{
  ℕ, ◌+◌, ◌-◌, ◌/◌, ◌%◌, ◌≤◌, ◌<◌, ◌≡◌, refl, ap, true, false, none, some, [], ◌∷◌, done, ◌==◌, ltb,
  leb, length, arith,
}
use os_2_course_work.Frames.{FrameEntry, frame_at}
use os_2_course_work.Memory.{Memory, pgsize, phystop, pgroundup, fill, kfree_lem, take_page, kalloc}
use os_2_course_work.PageTable.{
  Tables, maxva, pte_at, pte_v, flag_w, px, alloc_down, walk_alloc, map_loop, mappages,
}
use os_2_course_work.Evict.{
  Machine, with_frame, claim, set_pa, free_frame, finish_frame, kalloc_user,
}
use os_2_course_work.Evict.Out.{give_self}
use os_2_course_work.Vm.{uvmdealloc, alloc_loop, uvmalloc}

-- With a free frame and a free page, `kalloc_user` enters the page into the frame.
kalloc_user-claimed :
    (kernel_end p va i pa : ℕ) (m : Machine)
    → free_frame m.clock.frame_table 0 ≡ some i
    → i < length m.clock.frame_table
    → m.mem.freelist ≡ pa ∷ []
    → (n : Machine) × (kalloc_user kernel_end (some p) va m ≡ done (some pa, n))
      × (n.tables ≡ m.tables)
      × (n.mem.freelist ≡ [])
      × (frame_at n.clock.frame_table i
          ≡ set_pa pa (claim (some p) va (frame_at m.clock.frame_table i)))
unfolding kalloc_user finish_frame kalloc
kalloc_user-claimed kernel_end p va i pa m free h pages = (
  (finish_frame i (with_frame (claim (some p) va) i m)).1,
  rw (free, kalloc_user, finish_frame, kalloc, pages) refl,
  rw (finish_frame, kalloc, pages) refl,
  rw (finish_frame, kalloc, pages) refl,
  rw (finish_frame, kalloc, pages)
      (give_self m.clock.frame_table i pa (claim (some p) va (frame_at m.clock.frame_table i)) h),
)

kalloc-empty : (mem : Memory) → mem.freelist ≡ [] → kalloc mem ≡ (none, mem)
unfolding kalloc
kalloc-empty mem empty = ap (λ pages. take_page pages mem) empty

alloc_down-full :
    (pagetable va : ℕ) (mem : Memory) (tables : Tables)
    → pte_v (pte_at tables (pagetable, px 2 va)) ≡ false
    → mem.freelist ≡ []
    → alloc_down 2 pagetable va mem tables ≡ (none, mem, tables)
unfolding alloc_down
alloc_down-full pagetable va mem tables none_there empty =
    let e = kalloc-empty mem empty in
    let nothing : (kalloc mem).0 ≡ none = ap (λ r. r.0) e in
    let same : (kalloc mem).1 ≡ mem = ap (λ r. r.1) e in
    rw (alloc_down, none_there, nothing) (ap (λ x. (none, x, tables)) same)

-- Without a page for a table, `mappages` fails at an address that has no second-level table.
mappages-full :
    (pagetable va pa perm : ℕ) (mem : Memory) (tables : Tables)
    → va % pgsize ≡ 0
    → va < maxva
    → pte_v (pte_at tables (pagetable, px 2 va)) ≡ false
    → mem.freelist ≡ []
    → mappages pagetable va pgsize pa perm mem tables ≡ done (false, mem, tables)
unfolding mappages map_loop walk_alloc
mappages-full pagetable va pa perm mem tables aligned low none_there empty =
    let whole : (va % pgsize == 0) ≡ true = ground arith in
    let below : leb maxva va ≡ false = ground arith in
    rw (whole, below, alloc_down-full pagetable va mem tables none_there empty) refl

-- For an aligned size whose end has no second-level table, with a free frame and one free page, which
-- `kfree` accepts: `uvmalloc` of a page returns 0 and the page is free again, but the frame is still
-- used, by the process and with that page.
pub uvmalloc-stale :
    (kernel_end p pagetable sz i pa : ℕ) (m : Machine)
    → sz % pgsize ≡ 0
    → sz < maxva
    → free_frame m.clock.frame_table 0 ≡ some i
    → i < length m.clock.frame_table
    → m.mem.freelist ≡ pa ∷ []
    → pa % pgsize ≡ 0
    → kernel_end ≤ pa
    → pa < phystop
    → pte_v (pte_at m.tables (pagetable, px 2 sz)) ≡ false
    → (out : Machine) × (uvmalloc kernel_end (some p) pagetable sz (sz + pgsize) flag_w m
        ≡ done (0, out))
      × (out.mem.freelist ≡ pa ∷ [])
      × ((frame_at out.clock.frame_table i).used ≡ true)
      × ((frame_at out.clock.frame_table i).proc ≡ some p)
      × ((frame_at out.clock.frame_table i).pa ≡ pa)
unfolding uvmalloc alloc_loop uvmdealloc
uvmalloc-stale kernel_end p pagetable sz i pa m aligned low free there pages pa_aligned lo hi
      none_there =
    let (n, gives, g_tables, g_free, at_i) =
      kalloc_user-claimed kernel_end p sz i pa m free there pages in
    let zeroed : Memory = record n.mem { page = fill n.mem.page pa 0 } in
    let fails =
      mappages-full pagetable sz pa 22 zeroed n.tables aligned low (rw g_tables none_there)
        g_free in
    let up : pgroundup sz ≡ sz = omega (arith, aligned) in
    let order : ltb (sz + pgsize) sz ≡ false = ground arith in
    let one : (sz + pgsize - sz + pgsize - 1) / pgsize ≡ 1 = omega arith in
    let same : leb sz sz ≡ true = ground arith in
    let freed = kfree_lem kernel_end pa zeroed pa_aligned lo hi in
    (
      record n { mem = record { freelist = pa ∷ zeroed.freelist; page = fill zeroed.page pa 1 } },
      rw (uvmalloc, up, order, one)
          (rw (alloc_loop, gives, fails, freed) (rw (uvmdealloc, same) refl)),
      ap (λ xs. pa ∷ xs) g_free,
      ap (λ (f : FrameEntry). f.used) at_i,
      ap (λ (f : FrameEntry). f.proc) at_i,
      ap (λ (f : FrameEntry). f.pa) at_i,
    )
