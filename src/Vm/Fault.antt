-- ===== src/Vm/Fault.antt =====
-- kernel/vm.c: `vmfault`, which brings the page of an address into memory.
use os_2_course_work.Prelude.{
  ℕ, ◌+◌, true, ◌&&◌, not, Option, none, some, List, [], ◌∷◌, Outcome, done, ◌>>=◌, ◌==◌, leb,
  if◌then◌else◌, u32, modify,
}
use os_2_course_work.Swap.{swap_free, swap_read}
use os_2_course_work.Frames.{FrameEntry, same_proc}
use os_2_course_work.Proc.{Proc, proc_at}
use os_2_course_work.Memory.{pgrounddown, put_page, fill}
use os_2_course_work.PageTable.{
  Place, pte_at, set_pte, pte2pa, pa2pte, pte_flags, has_flag, with_flag, without_flag, flag_v,
  flag_r, flag_w, flag_u, pte_v, walk_alloc,
}
use os_2_course_work.Evict.{Machine, pte_swapped, creditor, credit_to, kalloc_user}
use os_2_course_work.Vm.{slot_of, with_frames}

-- The address that is returned, 0 for a fault that is not served, and the machine.
abbrev pub Served : Type 0
Served = ℕ × Machine

-- The entry of a page that comes back from a slot to `pa`.
abbrev pub restored_pte : ℕ → ℕ → ℕ
restored_pte pa e = without_flag pte_swapped (pa2pte pa + with_flag flag_v (pte_flags e))

abbrev pub zeroed_pte : ℕ → ℕ
zeroed_pte pa =
    pa2pte pa + with_flag flag_u (with_flag flag_w (with_flag flag_r (with_flag flag_v 0)))

abbrev pub count_in : Proc → Proc
count_in p = record p {
  pages_swapped_in = u32 (p.pages_swapped_in + 1);
  resident_pages = u32 (p.resident_pages + 1);
}

abbrev pub count_fault : Proc → Proc
count_fault p = record p {
  page_faults = u32 (p.page_faults + 1);
  resident_pages = u32 (p.resident_pages + 1);
}

-- The swap-in, from what `kalloc_user` returns on.
unfoldable pub swap_in : ℕ → Place → ℕ → Option ℕ × Machine → Outcome Served
swap_in p place slot (none, m) = done (0, m)
swap_in p place slot (some pa, m) = do
  (page, w, stats) ← swap_read slot (creditor (some p) m) m.swap m.raid
  done (
    pa,
    record m {
      mem = record m.mem { page = put_page m.mem.page pa page };
      swap = swap_free slot w;
      tables = set_pte m.tables place (restored_pte pa (pte_at m.tables place));
      procs = modify count_in (credit_to (some p) stats m.procs) p;
    },
  )

-- The lazy allocation, from what `kalloc_user` returns on.
unfoldable pub zero_in : ℕ → Place → Option ℕ × Machine → Outcome Served
zero_in p place (none, m) = done (0, m)
zero_in p place (some pa, m) = done (
  pa,
  record m {
    mem = record m.mem { page = fill m.mem.page pa 0 };
    tables = set_pte m.tables place (zeroed_pte pa);
    procs = modify count_fault m.procs p;
  },
)

-- The loop over the frame table that sets a reference bit.
unfoldable pub touch_frame : ℕ → ℕ → List FrameEntry → List FrameEntry
touch_frame p va [] = []
touch_frame p va (f ∷ fs) =
    let rest = touch_frame p va fs in
    if f.used && same_proc f.proc (some p) && f.va == va
    then record f { ref_bit = true } ∷ fs
    else f ∷ rest

unfoldable pub fault_at : ℕ → ℕ → ℕ → Option Place → Machine → Outcome Served
fault_at kernel_end p va none m = done (0, m)
fault_at kernel_end p va (some place) m =
    let e = pte_at m.tables place in
    if has_flag pte_swapped e
    then (kalloc_user kernel_end (some p) va m >>= swap_in p place (slot_of e))
    else if not (pte_v e)
    then (kalloc_user kernel_end (some p) va m >>= zero_in p place)
    else done (pte2pa e, with_frames (touch_frame p va) m)

-- The argument `write` is not read.
unfoldable pub vmfault : ℕ → ℕ → ℕ → ℕ → Machine → Outcome Served
vmfault kernel_end p pagetable va m =
    let va0 = pgrounddown va in
    if leb (proc_at m.procs p).sz va0 then done (0, m) else do
      (o, mem, tables) ← walk_alloc pagetable va0 m.mem m.tables
      fault_at kernel_end p va0 o (record m { mem = mem; tables = tables })
