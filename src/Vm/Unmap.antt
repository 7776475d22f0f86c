-- ===== src/Vm/Unmap.antt =====
-- The frame table and the free list: `uvmunmap` keeps them apart.
use os_2_course_work.Prelude.{
  panic_done, done_done, ℕ, zero, suc, ◌+◌, ◌%◌, ◌≡◌, inl, inr, refl, sym, ap, ◌∙◌, true, ◌||◌, not,
  Bool-cases, Option, none, some, ◌∷◌, Outcome, done, panic, kfree_bad, bind_done, ◌*◌, ◌/◌, ◌-◌,
  u64, uvmunmap_bad, ◌>>=◌, ◌==◌, ltb, leb,
}
use os_2_course_work.Swap.{swap_free}
use os_2_course_work.Memory.{Memory, pgsize, phystop, fill, kfree}
use os_2_course_work.PageTable.{Place, pte_at, pte2pa, has_flag, pte_v, walk}
use os_2_course_work.Evict.{Machine, pte_swapped}
use os_2_course_work.Vm.{
  slot_of, clear_pte, with_frames, forget_page, unmap_entry, unmap_loop, uvmunmap,
}
use os_2_course_work.Vm.Forget.{IsTidy, forget_page-Unshared, forget_page-Apart}

-- When `kfree` returns, the page is the first of the free list.
kfree-freelist :
    (kernel_end pa : ℕ) (mem after : Memory)
    → kfree kernel_end pa mem ≡ done after
    → after.freelist ≡ pa ∷ mem.freelist
unfolding kfree
kfree-freelist kernel_end pa mem after h =
    elim (Bool-cases (not (pa % pgsize == 0) || ltb pa kernel_end || leb phystop pa)) [
      | inl bad ↦
          let e : kfree kernel_end pa mem ≡ panic kfree_bad = rw (bad, kfree) refl in
          absurd (panic_done (sym e ∙ h))
      | inr fine ↦
          let e : kfree kernel_end pa mem
              ≡ done (record { freelist = pa ∷ mem.freelist; page = fill mem.page pa 1 }) =
            rw (fine, kfree) refl in
          sym (ap (λ (x : Memory). x.freelist) (done_done (sym e ∙ h)))
    ]

free_entry-IsTidy :
    (kernel_end pa : ℕ) (place : Place) (m m' : Machine) (r : Outcome Memory)
    → kfree kernel_end pa m.mem ≡ r
    → (r >>= λ mem. done (clear_pte place (with_frames (forget_page pa) (record m { mem = mem }))))
      ≡ done m'
    → IsTidy m
    → IsTidy m'
free_entry-IsTidy kernel_end pa place m m' (panic e) freed h t = absurd (panic_done h)
free_entry-IsTidy kernel_end pa place m m' (done mem) freed h t =
    let e = done_done h in
    let fl = kfree-freelist kernel_end pa m.mem mem freed in
    rw (← e) (record {
      unshared = forget_page-Unshared pa m.clock.frame_table t.unshared;
      apart = rw fl (forget_page-Apart pa m.clock.frame_table m.mem.freelist t.unshared t.apart);
    })

unmap_entry-IsTidy :
    (kernel_end : ℕ) (o : Option Place) (m m' : Machine)
    → unmap_entry kernel_end true o m ≡ done m'
    → IsTidy m
    → IsTidy m'
unfolding unmap_entry
unmap_entry-IsTidy kernel_end none m m' h t = let e = done_done h in rw (← e) t
unmap_entry-IsTidy kernel_end (some place) m m' h t =
    let e = pte_at m.tables place in
    elim (Bool-cases (has_flag pte_swapped e)) [
      | inl swapped ↦
          let freed = clear_pte place (record m { swap = swap_free (slot_of e) m.swap }) in
          let r : unmap_entry kernel_end true (some place) m ≡ done freed =
            rw (swapped, unmap_entry) refl in
          rw (← done_done (sym r ∙ h)) (record { unshared = t.unshared; apart = t.apart })
      | inr here ↦ elim (Bool-cases (pte_v e)) [
        | inl valid ↦
            let r : unmap_entry kernel_end true (some place) m ≡ (
                kfree kernel_end (pte2pa e) m.mem >>= λ mem.
                done (
                  clear_pte place
                    (with_frames (forget_page (pte2pa e)) (record m { mem = mem })))) =
              rw (here, valid, unmap_entry) refl in
            free_entry-IsTidy kernel_end (pte2pa e) place m m' (kfree kernel_end (pte2pa e) m.mem)
              refl (sym r ∙ h) t
        | inr invalid ↦
            let r : unmap_entry kernel_end true (some place) m ≡ done m =
              rw (here, invalid, unmap_entry) refl in
            rw (← done_done (sym r ∙ h)) t
      ]
    ]

unmap_loop-IsTidy :
    (kernel_end n pagetable a : ℕ) (m m' : Machine)
    → unmap_loop kernel_end n pagetable a true m ≡ done m'
    → IsTidy m
    → IsTidy m'
unfolding unmap_loop
unmap_loop-IsTidy kernel_end zero pagetable a m m' h t = rw (← done_done h) t
unmap_loop-IsTidy kernel_end (suc n) pagetable a m m' h t =
    let (o, found, later) = bind_done (walk m.tables pagetable a) _ m' h in
    let (next, fine, rest) = bind_done (unmap_entry kernel_end true o m) _ m' later in
    unmap_loop-IsTidy kernel_end n pagetable (a + pgsize) next m' rest
      (unmap_entry-IsTidy kernel_end o m next fine t)

-- If different used frames have different pages and no page of a used frame is free, that also
-- holds after every `uvmunmap` that frees the pages, if it returns.
pub uvmunmap-IsTidy :
    (kernel_end pagetable va npages : ℕ) (m m' : Machine)
    → uvmunmap kernel_end pagetable va npages true m ≡ done m'
    → IsTidy m
    → IsTidy m'
unfolding uvmunmap
uvmunmap-IsTidy kernel_end pagetable va npages m m' h t = elim (Bool-cases (va % pgsize == 0)) [
  | inl aligned ↦
      let n = (u64 (va + npages * pgsize) - va) / pgsize in
      let r : uvmunmap kernel_end pagetable va npages true m
          ≡ unmap_loop kernel_end n pagetable va true m =
        rw (aligned, uvmunmap) refl in
      unmap_loop-IsTidy kernel_end n pagetable va m m' (sym r ∙ h) t
  | inr odd ↦
      let r : uvmunmap kernel_end pagetable va npages true m ≡ panic uvmunmap_bad =
        rw (odd, uvmunmap) refl in
      absurd (panic_done (sym r ∙ h))
]
