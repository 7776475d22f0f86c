-- ===== src/Vm/In.antt =====
-- `vmfault` on a page that is in a slot of the swap area.
use os_2_course_work.Prelude.{
  ℕ, ◌<◌, ◌≡◌, ◌≢◌, refl, ◌∙◌, true, false, some, List, ◌∷◌, Outcome, done, leb, modify, get_elem?,
  arith,
}
use os_2_course_work.Raid.{Page}
use os_2_course_work.Raid.Layout.{Layout}
use os_2_course_work.Raid.Array.{Selects, IsPage}
use os_2_course_work.Raid.Pages.{healthy-Tolerates}
use os_2_course_work.Swap.{
  Swap, SwapSlot, max_swap, block_of, latency_to, credit, credit_read, release_slot, swap_free,
}
use os_2_course_work.Swap.Slots.{swap_free_lem}
use os_2_course_work.Swap.Store.{IsSwap, InSlot, has_slot, swap_read_lem}
use os_2_course_work.Proc.{proc_at}
use os_2_course_work.Memory.{kalloc, pgrounddown, put_page}
use os_2_course_work.PageTable.{Place, maxva, pte_at, set_pte, has_flag, walk_down, walk_alloc}
use os_2_course_work.PageTable.Walk.{pte_at-set_pte_self, alloc_down-walk_down}
use os_2_course_work.Evict.{
  Machine, pte_swapped, creditor, credit_to, kalloc_user, free_frame, finish_frame, with_frame,
  claim,
}
use os_2_course_work.Vm.{slot_of}
use os_2_course_work.Vm.Fault.{Served, count_in, restored_pte, swap_in, fault_at, vmfault}

-- What a swap-in to `pa` leaves of the machine `m`.
pub record Restored (slot pa : ℕ) (place : Place) (page : Page) (m : Machine)
    (result : Outcome Served) : Type 0 where
  pub after : Machine
  pub returns : result ≡ done (pa, after)
  pub content : after.mem.page pa ≡ page
  pub pages : (q : ℕ) → q ≢ pa → after.mem.page q ≡ m.mem.page q
  pub entry : pte_at after.tables place ≡ restored_pte pa (pte_at m.tables place)
  pub was : SwapSlot
  pub freed : get_elem? after.swap.swap_space slot ≡ some (release_slot was)
  pub slots : (j : ℕ) → slot ≢ j → get_elem? after.swap.swap_space j ≡ get_elem? m.swap.swap_space j
  pub frames : after.clock ≡ m.clock

pub put_page_self :
    (page : ℕ → Page) (pa : ℕ) (content : Page) → put_page page pa content pa ≡ content
put_page_self page pa content = ground arith

put_page-ne :
    (page : ℕ → Page) (pa q : ℕ) (content : Page) → q ≢ pa → put_page page pa content q ≡ page q
put_page-ne page pa q content ne = ground arith

swap_in-Restored :
    {L : Layout} (sel : Selects L) (p slot pa : ℕ) (place : Place) (page : Page) (m : Machine)
    → slot < max_swap
    → IsPage page
    → IsSwap sel m.swap m.raid
    → InSlot sel slot page m.swap m.raid
    → Restored slot pa place page m (swap_in p place slot (some pa, m))
unfolding swap_in
swap_in-Restored sel p slot pa place page m h pg v inside =
    let read =
      swap_read_lem sel slot page (creditor (some p) m) m.swap m.raid m.raid.disk_failed h pg v.mode
        (healthy-Tolerates sel m.raid.disk_failed v.ready.healthy) inside in
    let (s, e) = has_slot m.swap.swap_space slot (omega (arith, v.slots)) in
    let w : Swap = record m.swap { swap_head = block_of slot } in
    let freed = swap_free_lem w slot s e in
    let stats =
      credit (credit_read (latency_to (block_of slot) m.swap.swap_head)) (creditor (some p) m) in
    record {
      after = record m {
        mem = record m.mem { page = put_page m.mem.page pa page };
        swap = swap_free slot w;
        tables = set_pte m.tables place (restored_pte pa (pte_at m.tables place));
        procs = modify count_in (credit_to (some p) stats m.procs) p;
      };
      returns = rw read refl;
      content = put_page_self m.mem.page pa page;
      pages = λ q ne. put_page-ne m.mem.page pa q page ne;
      entry = pte_at-set_pte_self m.tables place (restored_pte pa (pte_at m.tables place));
      was = s;
      freed = freed.0;
      slots = freed.1;
      frames = refl;
    }

-- `vmfault` below the size of the process, where the page tables have a place for the address.
pub vmfault_lem :
    (kernel_end p pagetable va : ℕ) (place : Place) (m : Machine)
    → pgrounddown va < (proc_at m.procs p).sz
    → pgrounddown va < maxva
    → walk_down 2 m.tables pagetable (pgrounddown va) ≡ some place
    → vmfault kernel_end p pagetable va m ≡ fault_at kernel_end p (pgrounddown va) (some place) m
unfolding vmfault walk_alloc
vmfault_lem kernel_end p pagetable va place m inside low there =
    let size : leb (proc_at m.procs p).sz (pgrounddown va) ≡ false = ground arith in
    let small : leb maxva (pgrounddown va) ≡ false = ground arith in
    rw (size, small, alloc_down-walk_down 2 m.tables pagetable (pgrounddown va) m.mem place there)
      refl

-- The swap-in, by what `kalloc_user` returns.
pub vmfault-Restored :
    {L : Layout} (sel : Selects L) (kernel_end p pagetable va slot pa : ℕ) (place : Place)
    (page : Page) (m n : Machine)
    → pgrounddown va < (proc_at m.procs p).sz
    → pgrounddown va < maxva
    → walk_down 2 m.tables pagetable (pgrounddown va) ≡ some place
    → has_flag pte_swapped (pte_at m.tables place) ≡ true
    → slot_of (pte_at m.tables place) ≡ slot
    → slot < max_swap
    → IsPage page
    → kalloc_user kernel_end (some p) (pgrounddown va) m ≡ done (some pa, n)
    → IsSwap sel n.swap n.raid
    → InSlot sel slot page n.swap n.raid
    → Restored slot pa place page n (vmfault kernel_end p pagetable va m)
unfolding fault_at
vmfault-Restored sel kernel_end p pagetable va slot pa place page m n inside low there swapped
      at_slot h pg gives v here =
    let e : vmfault kernel_end p pagetable va m ≡ swap_in p place slot (some pa, n) =
      vmfault_lem kernel_end p pagetable va place m inside low there
      ∙ (rw (fault_at, swapped, gives, at_slot) refl) in
    rw e (swap_in-Restored sel p slot pa place page n h pg v here)

-- With a free frame and a free page `kalloc_user` touches neither the swap area nor the page tables.
pub kalloc_user-free :
    (kernel_end p va i pa : ℕ) (rest : List ℕ) (m : Machine)
    → free_frame m.clock.frame_table 0 ≡ some i
    → m.mem.freelist ≡ pa ∷ rest
    → (n : Machine) × (kalloc_user kernel_end (some p) va m ≡ done (some pa, n))
      × (n.swap ≡ m.swap)
      × (n.raid ≡ m.raid)
      × (n.tables ≡ m.tables)
      × (n.procs ≡ m.procs)
      × (n.mem.freelist ≡ rest)
unfolding kalloc_user finish_frame kalloc
kalloc_user-free kernel_end p va i pa rest m free pages = (
  (finish_frame i (with_frame (claim (some p) va) i m)).1,
  rw (free, kalloc_user, finish_frame, kalloc, pages) refl,
  rw (finish_frame, kalloc, pages) refl,
  rw (finish_frame, kalloc, pages) refl,
  rw (finish_frame, kalloc, pages) refl,
  rw (finish_frame, kalloc, pages) refl,
  rw (finish_frame, kalloc, pages) refl,
)
