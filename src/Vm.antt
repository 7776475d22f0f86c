-- ===== src/Vm.antt =====
-- kernel/vm.c: the memory of a process on the whole machine, where a page of it is in a frame, in a slot
-- of the swap area, or not there yet: `uvmunmap`, `uvmdealloc`, `uvmalloc`, `uvmcopy` and `vmfault`.
-- `kernel_end` is the symbol `end`, `myproc()` is an argument, and addresses stay below 2^63.
pub mod Fault
pub mod In
pub mod Return
pub mod Transfer
pub mod Access
pub mod Hazards
pub mod Rounds
pub mod Grow
pub mod Shrink
pub mod Forget
pub mod Unmap
pub mod Stale
pub mod Fork
mod Tests
mod ForkTests
use os_2_course_work.Prelude.{
  ℕ, zero, suc, ◌+◌, ◌-◌, ◌*◌, ◌/◌, ◌%◌, Bool, true, false, ◌&&◌, ◌||◌, not, Option, none, some,
  List, [], ◌∷◌, Outcome, done, panic, uvmunmap_bad, ◌>>=◌, ◌==◌, ltb, leb, if◌then◌else◌, u32, u64,
  minus_one, get_elem?, modify,
}
use os_2_course_work.Raid.{Page, Raid, raid_copy}
use os_2_course_work.Swap.{
  SwapSlot, Swap, DiskStats, block_of, block_at, swap_alloc, swap_free, swap_read,
}
use os_2_course_work.Frames.{FrameEntry, Clock, same_proc}
use os_2_course_work.Proc.{Proc, proc_at}
use os_2_course_work.Memory.{Memory, pgsize, pgroundup, pgrounddown, put_page, fill, kfree}
use os_2_course_work.PageTable.{
  Tables, Place, pte_at, set_pte, pte2pa, pa2pte, pte_flags, has_flag, with_flag, without_flag,
  flag_v, flag_r, flag_w, flag_u, pte_v, walk, Walked, walk_alloc, Mapped, mappages,
}
use os_2_course_work.Evict.{Machine, pte_swapped, creditor, credit_to, kalloc_user}

abbrev pub with_frames : (List FrameEntry → List FrameEntry) → Machine → Machine
with_frames f m = record m { clock = record m.clock { frame_table = f m.clock.frame_table } }

abbrev pub forget_frame : FrameEntry → FrameEntry
forget_frame f = record f { used = false; proc = none; va = 0; pa = 0 }

-- The loop of `uvmunmap` over the frame table.
unfoldable pub forget_page : ℕ → List FrameEntry → List FrameEntry
forget_page pa [] = []
forget_page pa (f ∷ fs) =
    let rest = forget_page pa fs in if f.used && f.pa == pa then forget_frame f ∷ fs else f ∷ rest

abbrev pub slot_of : ℕ → ℕ
slot_of e = e / 1024 % 256

abbrev pub clear_pte : Place → Machine → Machine
clear_pte place m = record m { tables = set_pte m.tables place 0 }

-- One round of `uvmunmap`, from what `walk` returns on.
unfoldable pub unmap_entry : ℕ → Bool → Option Place → Machine → Outcome Machine
unmap_entry kernel_end do_free none m = done m
unmap_entry kernel_end do_free (some place) m =
    let e = pte_at m.tables place in
    if has_flag pte_swapped e
    then done (clear_pte place (record m { swap = swap_free (slot_of e) m.swap }))
    else if not (pte_v e)
    then done m
    else if do_free
    then (kfree kernel_end (pte2pa e) m.mem >>= λ mem.
        done (clear_pte place (with_frames (forget_page (pte2pa e)) (record m { mem = mem }))))
    else done (clear_pte place m)

unfoldable pub unmap_loop : ℕ → ℕ → ℕ → ℕ → Bool → Machine → Outcome Machine
unmap_loop kernel_end zero pagetable a do_free m = done m
unmap_loop kernel_end (suc n) pagetable a do_free m = do
  o ← walk m.tables pagetable a
  m' ← unmap_entry kernel_end do_free o m
  unmap_loop kernel_end n pagetable (a + pgsize) do_free m'

-- The bound of the loop is a sum on 64 bits.
unfoldable pub uvmunmap : ℕ → ℕ → ℕ → ℕ → Bool → Machine → Outcome Machine
uvmunmap kernel_end pagetable va npages do_free m =
    if not (va % pgsize == 0)
    then panic uvmunmap_bad
    else unmap_loop kernel_end ((u64 (va + npages * pgsize) - va) / pgsize) pagetable va do_free m

abbrev pub count_down : Proc → Proc
count_down p = record p { resident_pages = u32 (p.resident_pages + minus_one) }

abbrev pub is_resident : Tables → Option Place → Bool
is_resident tables none = false
is_resident tables (some place) = pte_v (pte_at tables place)

-- The first loop of `uvmdealloc`.
unfoldable pub leave_loop : Option ℕ → ℕ → ℕ → ℕ → Machine → Outcome Machine
leave_loop none n pagetable a m = done m
leave_loop (some p) zero pagetable a m = done m
leave_loop (some p) (suc n) pagetable a m = do
  o ← walk m.tables pagetable a
  let procs = if is_resident m.tables o then modify count_down m.procs p else m.procs
  leave_loop (some p) n pagetable (a + pgsize) (record m { procs = procs })

unfoldable pub uvmdealloc : ℕ → Option ℕ → ℕ → ℕ → ℕ → Machine → Outcome (ℕ × Machine)
uvmdealloc kernel_end p pagetable oldsz newsz m =
    let first = pgroundup newsz in
    let npages = (pgroundup oldsz - first) / pgsize in
    if leb oldsz newsz
    then done (oldsz, m)
    else if ltb first (pgroundup oldsz)
    then (do
      m' ← leave_loop p npages pagetable first m
      m'' ← uvmunmap kernel_end pagetable first npages true m'
      done (newsz, m''))
    else done (newsz, m)

-- The errors of `uvmalloc` return 0.
abbrev pub alloc_fails : ℕ → Option ℕ → ℕ → ℕ → ℕ → Machine → Outcome (ℕ × Machine)
alloc_fails kernel_end p pagetable a oldsz m = do
  (size, m') ← uvmdealloc kernel_end p pagetable a oldsz m
  done (0, m')

-- A page of zeros at `pa`, entered for the address `a`; whether that worked, and if not it is freed.
abbrev pub enter_page : ℕ → ℕ → ℕ → ℕ → ℕ → Machine → Outcome (Bool × Machine)
enter_page kernel_end pagetable a pa perm m = do
  (entered, mem, tables) ← mappages pagetable a pgsize pa perm m.mem m.tables
  let m' = record m { mem = mem; tables = tables }
  elim entered [
    | true ↦ done (true, m')
    | false ↦ (kfree kernel_end pa mem >>= λ freed. done (false, record m' { mem = freed }))
  ]

abbrev pub alloc_page : ℕ → ℕ → ℕ → ℕ → Option ℕ × Machine → Outcome (Bool × Machine)
alloc_page kernel_end pagetable a perm (none, m) = done (false, m)
alloc_page kernel_end pagetable a perm (some pa, m) =
    enter_page kernel_end pagetable a pa perm
      (record m { mem = record m.mem { page = fill m.mem.page pa 0 } })

-- The loop of `uvmalloc` with `n` pages left.
unfoldable pub alloc_loop : ℕ → ℕ → Option ℕ → ℕ → ℕ → ℕ → ℕ → ℕ → Machine → Outcome (ℕ × Machine)
alloc_loop kernel_end zero p pagetable a oldsz newsz perm m = done (newsz, m)
alloc_loop kernel_end (suc n) p pagetable a oldsz newsz perm m = do
  given ← kalloc_user kernel_end p a m
  (fine, m') ← alloc_page kernel_end pagetable a perm given
  elim fine [
    | true ↦ alloc_loop kernel_end n p pagetable (a + pgsize) oldsz newsz perm m'
    | false ↦ alloc_fails kernel_end p pagetable a oldsz m'
  ]

unfoldable pub uvmalloc : ℕ → Option ℕ → ℕ → ℕ → ℕ → ℕ → Machine → Outcome (ℕ × Machine)
uvmalloc kernel_end p pagetable oldsz newsz xperm m =
    let first = pgroundup oldsz in
    if ltb newsz oldsz
    then done (oldsz, m)
    else alloc_loop kernel_end ((newsz - first + pgsize - 1) / pgsize) p pagetable first first newsz
        (with_flag flag_r (with_flag flag_u xperm)) m
