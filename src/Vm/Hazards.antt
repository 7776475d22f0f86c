-- ===== src/Vm/Hazards.antt =====
-- Pages that are not where a routine of kernel/vm.c looks for them: a page that is not for the user,
-- a string in the swap area, and a page that moves while `uvmcopy` copies it.
use os_2_course_work.Prelude.{
  ℕ, zero, suc, ◌+◌, ◌-◌, ◌%◌, ◌≤◌, ◌<◌, ◌≡◌, ◌≢◌, ◌⊎◌, inl, inr, refl, sym, ap, ◌∙◌, true, false,
  true-false, some, List, [], done, ◌==◌, length, take, drop, arith,
}
use os_2_course_work.Raid.{Page}
use os_2_course_work.Raid.Layout.{Layout}
use os_2_course_work.Raid.Array.{Selects, IsPage}
use os_2_course_work.Swap.{Swap, max_swap}
use os_2_course_work.Swap.Store.{IsSwap, InSlot}
use os_2_course_work.Frames.{Clock, frame_at}
use os_2_course_work.Memory.{Memory, pgsize, pgrounddown, put_page, filled_page}
use os_2_course_work.PageTable.{
  Tables, Place, maxva, pte_at, set_pte, leaf, pte2pa, pte_flags, pte_v, has_flag, flag_w, flag_u,
  walk_down, walkaddr, pa_of_place,
}
use os_2_course_work.PageTable.Map.{walkaddr_lem}
use os_2_course_work.PageTable.Walk.{Place-cases, pte_at-set_pte_ne}
use os_2_course_work.PageTable.There.{Avoids, walk_down-Avoids, mappages_there, walkaddr_there}
use os_2_course_work.Proc.{proc_at}
use os_2_course_work.Evict.{Machine, pte_swapped, swapped_pte, kalloc_user}
use os_2_course_work.Evict.Mark.{entry_of}
use os_2_course_work.Evict.Out.{Evicted}
use os_2_course_work.Vm.{slot_of, with_frames}
use os_2_course_work.Vm.Fault.{touch_frame, fault_at, vmfault}
use os_2_course_work.Vm.In.{put_page_self, vmfault_lem, vmfault-Restored}
use os_2_course_work.Vm.Fork.{copy_entry}
use os_2_course_work.Vm.Transfer.{
  bytes_of, store_bytes, resident, copyout, copyin, copyinstr, copyinstr_loop,
}
use os_2_course_work.Vm.Access.{copyout-page, copyin-page}

-- A valid entry is served as it is, whatever its flags.
vmfault-valid :
    (kernel_end p pagetable va : ℕ) (place : Place) (m : Machine)
    → pgrounddown va < (proc_at m.procs p).sz
    → pgrounddown va < maxva
    → walk_down 2 m.tables pagetable (pgrounddown va) ≡ some place
    → has_flag pte_swapped (pte_at m.tables place) ≡ false
    → pte_v (pte_at m.tables place) ≡ true
    → vmfault kernel_end p pagetable va m
      ≡ done (pte2pa (pte_at m.tables place), with_frames (touch_frame p (pgrounddown va)) m)
unfolding fault_at
vmfault-valid kernel_end p pagetable va place m inside low there here valid =
    vmfault_lem kernel_end p pagetable va place m inside low there
    ∙ (rw (fault_at, here, valid) refl)

rounddown_twice : (va : ℕ) → pgrounddown (pgrounddown va) ≡ pgrounddown va
rounddown_twice va = omega arith

-- `walkaddr` does not find a page that is not for the user, or not there.
walkaddr-hidden :
    (tables : Tables) (pagetable va : ℕ) (place : Place)
    → va < maxva
    → walk_down 2 tables pagetable va ≡ some place
    → pa_of_place tables (some place) ≡ 0
    → walkaddr tables pagetable va ≡ done 0
walkaddr-hidden tables pagetable va place low there hidden =
    walkaddr_lem tables pagetable va low ∙ ap done (ap (pa_of_place tables) there ∙ hidden)

resident-fault :
    (kernel_end p pagetable va0 : ℕ) (m : Machine)
    → walkaddr m.tables pagetable va0 ≡ done 0
    → resident kernel_end p pagetable va0 m ≡ vmfault kernel_end p pagetable va0 m
unfolding resident
resident-fault kernel_end p pagetable va0 m hidden = rw (hidden, resident) refl

-- For bytes within one page below the size of the process and `MAXVA`, whose entry is valid, writable
-- and not for the user (`PTE_U` clear), and not at physical address 0, `copyout` returns 0 and writes
-- the bytes to the page.
pub copyout-not_user :
    (kernel_end p pagetable va : ℕ) (place : Place) (src : List ℕ) (m : Machine)
    → va - pgrounddown va + length src ≤ pgsize
    → 0 < length src
    → pgrounddown va < (proc_at m.procs p).sz
    → pgrounddown va < maxva
    → walk_down 2 m.tables pagetable (pgrounddown va) ≡ some place
    → has_flag pte_swapped (pte_at m.tables place) ≡ false
    → pte_v (pte_at m.tables place) ≡ true
    → has_flag flag_u (pte_at m.tables place) ≡ false
    → has_flag flag_w (pte_at m.tables place) ≡ true
    → (pte2pa (pte_at m.tables place) == 0) ≡ false
    → copyout kernel_end p pagetable va src m
      ≡ done (
        true,
        store_bytes
            (pte2pa (pte_at m.tables place))
            (va - pgrounddown va)
            src
            (with_frames (touch_frame p (pgrounddown va)) m),
      )
copyout-not_user kernel_end p pagetable va place src m fits some_bytes inside low there here valid
      user w ne =
    let va0 = pgrounddown va in
    let round = rounddown_twice va in
    let hidden : pa_of_place m.tables (some place) ≡ 0 = rw (valid, user) refl in
    let fault =
      vmfault-valid kernel_end p pagetable va0 place m (rw round inside) (rw round low)
        (rw round there) here valid in
    copyout-page kernel_end p pagetable va (pte2pa (pte_at m.tables place)) place src m
      (with_frames (touch_frame p va0) m) fits some_bytes low
      (resident-fault kernel_end p pagetable va0 m
          (walkaddr-hidden m.tables pagetable va0 place low there hidden)
        ∙ (fault
            ∙ ap (λ a. done (pte2pa (pte_at m.tables place), with_frames (touch_frame p a) m))
                round))
      ne there w

-- `copyinstr` from a page that is in the swap area, or in no page at all.
copyinstr-hidden :
    (pagetable va max : ℕ) (place : Place) (m : Machine)
    → 0 < max
    → pgrounddown va < maxva
    → walk_down 2 m.tables pagetable (pgrounddown va) ≡ some place
    → pa_of_place m.tables (some place) ≡ 0
    → copyinstr pagetable va max m ≡ done (false, [])
unfolding copyinstr copyinstr_loop
copyinstr-hidden pagetable va zero place m h low there hidden = absurd (omega arith)
copyinstr-hidden pagetable va (suc l) place m h low there hidden =
    let e = walkaddr-hidden m.tables pagetable (pgrounddown va) place low there hidden in
    rw (copyinstr, copyinstr_loop, e) refl

-- For an address below the size of the process and `MAXVA` in a page that lies in a slot of a sound
-- swap area, if `kalloc_user` finds a page other than 0 for it and leaves the slot and the swap area
-- sound, `copyin` of bytes within the page delivers them, while `copyinstr` from the same address
-- returns -1 and nothing.
pub copyinstr-swapped_out :
    {L : Layout} (sel : Selects L) (kernel_end p pagetable va len slot pa : ℕ) (place : Place)
    (page : Page) (m n : Machine)
    → va - pgrounddown va + len ≤ pgsize
    → 0 < len
    → pgrounddown va < (proc_at m.procs p).sz
    → pgrounddown va < maxva
    → walk_down 2 m.tables pagetable (pgrounddown va) ≡ some place
    → has_flag pte_swapped (pte_at m.tables place) ≡ true
    → pte_v (pte_at m.tables place) ≡ false
    → slot_of (pte_at m.tables place) ≡ slot
    → slot < max_swap
    → IsPage page
    → kalloc_user kernel_end (some p) (pgrounddown va) m ≡ done (some pa, n)
    → (pa == 0) ≡ false
    → IsSwap sel n.swap n.raid
    → InSlot sel slot page n.swap n.raid
    → (out : Machine) × (copyin kernel_end p pagetable va len m
        ≡ done (true, take len (drop (va - pgrounddown va) (bytes_of page)), out))
      × (copyinstr pagetable va len m ≡ done (false, []))
copyinstr-swapped_out sel kernel_end p pagetable va len slot pa place page m n fits some_bytes
      inside low there swapped invalid at_slot h pg gives ne v here =
    let va0 = pgrounddown va in
    let round = rounddown_twice va in
    let hidden : pa_of_place m.tables (some place) ≡ 0 = rw invalid refl in
    let back =
      vmfault-Restored sel kernel_end p pagetable va0 slot pa place page m n (rw round inside)
        (rw round low) (rw round there) swapped at_slot h pg (rw round gives) v here in
    let at_pa =
      resident-fault kernel_end p pagetable va0 m
        (walkaddr-hidden m.tables pagetable va0 place low there hidden)
      ∙ back.returns in
    (
      back.after,
      copyin-page kernel_end p pagetable va len pa m back.after fits some_bytes at_pa ne
          ∙ ap (λ content. done (true, take len (drop (va - va0) (bytes_of content)), back.after))
              back.content,
      copyinstr-hidden pagetable va len place m some_bytes low there hidden,
    )

-- For an aligned address below `MAXVA` whose tables the child has, without a page, when the victim that
-- `kalloc_user` moves to the swap area is the very page that `uvmcopy` copies, by its frame's owner and
-- address, and the page is for the user: the round of `uvmcopy` succeeds, and `walkaddr` then translates
-- the address for the child to that same page, which is full of the byte 5. The content is in the slot,
-- which the parent's entry names.
pub copy_entry-Evicted :
    {L : Layout} (sel : Selects L) (kernel_end newp new i slot k pa : ℕ) (place q : Place)
    (content : Page) (w : Swap) (clock : Clock) (m : Machine)
    (moved : Evicted sel kernel_end newp i slot k pa content w clock m)
    → entry_of (frame_at clock.frame_table k).proc (frame_at clock.frame_table k).va m ≡ some place
    → has_flag pte_swapped (pte_at m.tables place) ≡ false
    → pte_v (pte_at m.tables place) ≡ true
    → has_flag flag_u (pte_at m.tables place) ≡ true
    → pte2pa (pte_at m.tables place) ≡ pa
    → i % pgsize ≡ 0
    → i < maxva
    → walk_down 2 m.tables new i ≡ some q
    → pte_v (pte_at m.tables q) ≡ false
    → Avoids 2 m.tables new i place
    → (out : Machine) × (copy_entry kernel_end newp new i (some place) m ≡ done (true, out))
      × (walkaddr out.tables new i ≡ done pa)
      × (out.mem.page pa ≡ filled_page 5)
      × (pte_at out.tables place ≡ swapped_pte slot (pte_at m.tables place))
      × InSlot sel slot content out.swap out.raid
unfolding copy_entry
copy_entry-Evicted sel kernel_end newp new i slot k pa place q content w clock m moved owned here
      valid user at_pa aligned low there empty avoids =
    let after = moved.after in
    let flags = pte_flags (pte_at m.tables place) in
    let copied : Memory = record after.mem {
      page = put_page after.mem.page pa (after.mem.page pa);
    } in
    let there' : walk_down 2 after.tables new i ≡ some q =
      walk_down-Avoids 2 m.tables after.tables new i place (λ r. moved.apart place r owned) avoids
      ∙ there in
    let empty' : pte_v (pte_at after.tables q) ≡ false = ap pte_v (moved.invalid q empty) ∙ empty in
    let enters = mappages_there new i pa flags copied after.tables q aligned low there' empty' in
    let pa_aligned : pa % pgsize ≡ 0 = omega (arith, at_pa) in
    let apart : (place.0 ≢ q.0) ⊎ (place.1 ≢ q.1) = elim (Place-cases place q) [
      | inl (a, b) ↦
          let same : pte_at m.tables place ≡ pte_at m.tables q = rw (a, b) refl in
          absurd (true-false (sym valid ∙ ap pte_v same ∙ empty))
      | inr ne ↦ ne
    ] in
    (
      record after { mem = copied; tables = set_pte after.tables q (leaf pa flags) },
      rw (copy_entry, here, valid, moved.returns, at_pa) (rw enters refl),
      walkaddr_there new i pa flags copied after.tables q aligned low there' empty' pa_aligned
          (omega arith) (ground (arith, user)),
      put_page_self after.mem.page pa (after.mem.page pa) ∙ moved.junk,
      pte_at-set_pte_ne after.tables q place (leaf pa flags) apart ∙ moved.entry place owned valid,
      moved.in_slot,
    )
