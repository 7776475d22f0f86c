-- ===== src/Vm/Shrink.antt =====
-- A process that grows by a page and gives it back.
use os_2_course_work.Prelude.{
  NotIn, ℕ, zero, suc, ◌+◌, ◌-◌, ◌*◌, ◌/◌, ◌%◌, ◌^◌, ◌≤◌, ◌<◌, ◌≡◌, refl, ap, ◌∙◌, true, false,
  some, List, [], ◌∷◌, done, ◌==◌, ltb, leb, u32, u64, minus_one, length, length-modify, modify,
  arith,
}
use os_2_course_work.Proc.{Proc, proc_at}
use os_2_course_work.Memory.{Memory, pgsize, phystop, pgroundup, fill, kfree_lem}
use os_2_course_work.PageTable.{
  Place, maxva, pte_at, pte2pa, pte_v, has_flag, flag_w, leaf, walk_down,
}
use os_2_course_work.PageTable.Walk.{walk_lem, pte_at-set_pte_self}
use os_2_course_work.PageTable.Sound.{IsSound}
use os_2_course_work.PageTable.Map.{Entered, Unmapped, mappages-Entered, leaf_pa, leaf_valid}
use os_2_course_work.Evict.{Machine, pte_swapped, free_frame}
use os_2_course_work.Vm.{
  with_frames, forget_page, clear_pte, unmap_entry, unmap_loop, uvmunmap, count_down, leave_loop,
  uvmdealloc, alloc_loop, uvmalloc,
}
use os_2_course_work.Vm.In.{kalloc_user-free}
use os_2_course_work.Vm.Grow.{growproc, set_sz, trapframe_va}

-- A machine on which the process can get the page `pa`.
pub record CanGrow (p pagetable sz pa i : ℕ) (rest : List ℕ) (m : Machine) : Type 0 where
  pub aligned : sz % pgsize ≡ 0
  pub low : sz + pgsize < maxva
  pub frame : free_frame m.clock.frame_table 0 ≡ some i
  pub pages : m.mem.freelist ≡ pa ∷ rest
  pub sound : IsSound (record { freelist = rest; page = m.mem.page }) m.tables
  pub table_live : NotIn pagetable rest
  pub page_live : NotIn pa rest
  pub enough : 2 ≤ length rest
  pub unmapped : Unmapped m.tables pagetable sz
  pub page_aligned : pa % pgsize ≡ 0

-- What `uvmalloc` leaves of one page.
record Grown (kernel_end p pagetable sz pa : ℕ) (m : Machine) : Type 0 where
  after : Machine
  returns :
      uvmalloc kernel_end (some p) pagetable sz (sz + pgsize) flag_w m ≡ done (sz + pgsize, after)
  procs : after.procs ≡ m.procs
  place : Place
  found : walk_down 2 after.tables pagetable sz ≡ some place
  entry : pte_at after.tables place ≡ leaf pa 22

uvmalloc-Grown :
    (kernel_end p pagetable sz pa i : ℕ) (rest : List ℕ) (m : Machine)
    → CanGrow p pagetable sz pa i rest m
    → Grown kernel_end p pagetable sz pa m
unfolding uvmalloc alloc_loop
uvmalloc-Grown kernel_end p pagetable sz pa i rest m v =
    let (n, gives, g_swap, g_raid, g_tables, g_procs, g_free) =
      kalloc_user-free kernel_end p sz i pa rest m v.frame v.pages in
    let mem : Memory = record n.mem { page = fill n.mem.page pa 0 } in
    let t : Entered pagetable sz pa 22 mem n.tables =
      mappages-Entered pagetable sz pa 22 mem n.tables v.aligned (omega (arith, v.low))
        v.page_aligned (omega arith)
        (rw (g_free, g_tables) (record { free = v.sound.free; closed = v.sound.closed }))
        (rw g_free v.table_live) (rw g_free v.page_live) (rw g_free v.enough)
        (rw g_tables v.unmapped) in
    let up : pgroundup sz ≡ sz = omega (arith, v.aligned) in
    let order : ltb (sz + pgsize) sz ≡ false = ground arith in
    let one : (sz + pgsize - sz + pgsize - 1) / pgsize ≡ 1 = omega arith in
    record {
      after = record n { mem = t.after; tables = t.grown };
      returns = rw (uvmalloc, up, order, one) (rw (alloc_loop, gives, t.returns) refl);
      procs = g_procs;
      place = t.place;
      found = t.found;
      entry = t.entry;
    }

-- What `uvmdealloc` leaves of one page.
record Shrunk (kernel_end p pagetable sz pa : ℕ) (place : Place) (m : Machine) : Type 0 where
  after : Machine
  returns : uvmdealloc kernel_end (some p) pagetable (sz + pgsize) sz m ≡ done (sz, after)
  procs : after.procs ≡ modify count_down m.procs p
  freed : after.mem.freelist ≡ pa ∷ m.mem.freelist
  entry : pte_at after.tables place ≡ 0

uvmdealloc-Shrunk :
    (kernel_end p pagetable sz pa : ℕ) (place : Place) (m : Machine)
    → sz % pgsize ≡ 0
    → sz + pgsize < maxva
    → walk_down 2 m.tables pagetable sz ≡ some place
    → pte_at m.tables place ≡ leaf pa 22
    → pa % pgsize ≡ 0
    → kernel_end ≤ pa
    → pa < phystop
    → Shrunk kernel_end p pagetable sz pa place m
unfolding uvmdealloc leave_loop uvmunmap unmap_loop unmap_entry
uvmdealloc-Shrunk kernel_end p pagetable sz pa place m aligned low there entry pa_aligned lo hi =
    let up : pgroundup sz ≡ sz = omega (arith, aligned) in
    let up' : pgroundup (sz + pgsize) ≡ sz + pgsize = omega (arith, aligned) in
    let order : leb (sz + pgsize) sz ≡ false = ground arith in
    let more : ltb sz (sz + pgsize) ≡ true = ground arith in
    let one : (sz + pgsize - sz) / pgsize ≡ 1 = omega arith in
    let one' : (u64 (sz + 1 * pgsize) - sz) / pgsize ≡ 1 = omega arith in
    let whole : (sz % pgsize == 0) ≡ true = ground arith in
    let at_place = walk_lem m.tables pagetable sz (omega (arith, low)) in
    let valid : pte_v (pte_at m.tables place) ≡ true = rw entry (leaf_valid pa 22) in
    let here : has_flag pte_swapped (pte_at m.tables place) ≡ false = rw entry (ground arith) in
    let at_pa : pte2pa (pte_at m.tables place) ≡ pa =
      rw entry (leaf_pa pa 22 pa_aligned (omega arith)) in
    let mem : Memory = record { freelist = pa ∷ m.mem.freelist; page = fill m.mem.page pa 1 } in
    let left : Machine = record m { procs = modify count_down m.procs p } in
    let after = clear_pte place (with_frames (forget_page pa) (record left { mem = mem })) in
    let leaves : leave_loop (some p) 1 pagetable sz m ≡ done left =
      rw (leave_loop, at_place, there, valid) refl in
    let unmaps : uvmunmap kernel_end pagetable sz 1 true left ≡ done after =
      rw (uvmunmap, whole, one')
        (rw (unmap_loop, at_place, there)
          (rw (unmap_entry, here, valid, at_pa, kfree_lem kernel_end pa m.mem pa_aligned lo hi)
            refl)) in
    record {
      after = after;
      returns = rw (uvmdealloc, up, up', order, more, one) (rw (leaves, unmaps) refl);
      procs = refl;
      freed = refl;
      entry = pte_at-set_pte_self m.tables place 0;
    }

proc_at-modify :
    (f : Proc → Proc) (ps : List Proc) (p : ℕ)
    → p < length ps
    → proc_at (modify f ps p) p ≡ f (proc_at ps p)
proc_at-modify f [] p h = absurd (omega arith)
proc_at-modify f (q ∷ qs) zero h = refl
proc_at-modify f (q ∷ qs) (suc p) h = proc_at-modify f qs p (omega arith)

-- `growproc` up and down again, by a page.
grow_page :
    (kernel_end p pagetable sz : ℕ) (m after : Machine)
    → (proc_at m.procs p).sz ≡ sz
    → sz + pgsize ≤ trapframe_va
    → uvmalloc kernel_end (some p) pagetable sz (sz + pgsize) flag_w m ≡ done (sz + pgsize, after)
    → growproc kernel_end p pagetable pgsize m ≡ done (true, set_sz p (sz + pgsize) after)
unfolding growproc
grow_page kernel_end p pagetable sz m after at_sz low gives =
    let sum : u64 (sz + pgsize) ≡ sz + pgsize = omega arith in
    let fits : ltb trapframe_va (sz + pgsize) ≡ false = ground arith in
    let positive : (sz + pgsize == 0) ≡ false = ground arith in
    rw (growproc, at_sz, sum, fits, gives) (rw positive refl)

shrink_page :
    (kernel_end p pagetable sz : ℕ) (m after : Machine)
    → (proc_at m.procs p).sz ≡ sz + pgsize
    → sz + pgsize ≤ trapframe_va
    → uvmdealloc kernel_end (some p) pagetable (sz + pgsize) sz m ≡ done (sz, after)
    → growproc kernel_end p pagetable (2 ^ 32 - pgsize) m ≡ done (true, set_sz p sz after)
unfolding growproc
shrink_page kernel_end p pagetable sz m after at_sz low gives =
    let sum : u64 (sz + pgsize + 18446744073709547520) ≡ sz = omega arith in
    rw (growproc, at_sz, sum, gives) refl

-- A process of an aligned size, for which a frame and three pages are free, no page is mapped at its
-- end and the page tables share no page with the rest of the free list: `growproc` by a page and then
-- by minus a page both return 0 and restore the size. The page is free again, and the process counts
-- one resident page less than before.
pub growproc-shrink :
    (kernel_end p pagetable sz pa i : ℕ) (rest : List ℕ) (m : Machine)
    → (proc_at m.procs p).sz ≡ sz
    → p < length m.procs
    → sz + pgsize ≤ trapframe_va
    → kernel_end ≤ pa
    → pa < phystop
    → CanGrow p pagetable sz pa i rest m
    → (m' out : Machine) × (growproc kernel_end p pagetable pgsize m ≡ done (true, m'))
      × (growproc kernel_end p pagetable (2 ^ 32 - pgsize) m' ≡ done (true, out))
      × ((proc_at out.procs p).sz ≡ sz)
      × (out.mem.freelist ≡ pa ∷ m'.mem.freelist)
      × ((proc_at out.procs p).resident_pages
          ≡ u32 ((proc_at m.procs p).resident_pages + minus_one))
growproc-shrink kernel_end p pagetable sz pa i rest m at_sz there low lo hi v =
    let g = uvmalloc-Grown kernel_end p pagetable sz pa i rest m v in
    let resize : ℕ → Proc → Proc = λ x q. record q { sz = x } in
    let m' = set_sz p (sz + pgsize) g.after in
    let len : length g.after.procs ≡ length m.procs = ap length g.procs in
    let len' : length m'.procs ≡ length m.procs =
      length-modify (resize (sz + pgsize)) g.after.procs p ∙ len in
    let at' : proc_at m'.procs p ≡ resize (sz + pgsize) (proc_at m.procs p) =
      proc_at-modify (resize (sz + pgsize)) g.after.procs p (omega (arith, len, there))
      ∙ ap (λ ps. resize (sz + pgsize) (proc_at ps p)) g.procs in
    let d =
      uvmdealloc-Shrunk kernel_end p pagetable sz pa g.place m' v.aligned v.low g.found g.entry
        v.page_aligned lo hi in
    let len'' : length d.after.procs ≡ length m.procs =
      ap length d.procs ∙ (length-modify count_down m'.procs p ∙ len') in
    let last : proc_at (set_sz p sz d.after).procs p ≡ resize sz (count_down (proc_at m'.procs p)) =
      proc_at-modify (resize sz) d.after.procs p (omega (arith, len'', there))
      ∙ ap (resize sz) (
          ap (λ ps. proc_at ps p) d.procs
          ∙ proc_at-modify count_down m'.procs p (omega (arith, len', there))) in
    (
      m',
      set_sz p sz d.after,
      grow_page kernel_end p pagetable sz m g.after at_sz low g.returns,
      shrink_page kernel_end p pagetable sz m' d.after (ap (λ (q : Proc). q.sz) at') low d.returns,
      ap (λ (q : Proc). q.sz) last,
      d.freed,
      ap (λ (q : Proc). q.resident_pages) last
          ∙ ap (λ (q : Proc). u32 (q.resident_pages + minus_one)) at',
    )
