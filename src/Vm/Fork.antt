-- ===== src/Vm/Fork.antt =====
-- kernel/vm.c: `uvmcopy`, which `kfork` calls to copy the memory of a process.
use os_2_course_work.Prelude.{
  ℕ, zero, suc, ◌+◌, ◌-◌, ◌*◌, ◌/◌, Bool, true, false, not, Option, none, some, Outcome, done,
  ◌>>=◌, if◌then◌else◌, get_elem?, modify,
}
use os_2_course_work.Raid.{raid_copy}
use os_2_course_work.Swap.{SwapSlot, Swap, block_of, block_at, swap_alloc}
use os_2_course_work.Memory.{pgsize, put_page}
use os_2_course_work.PageTable.{
  Place, pte_at, set_pte, pte2pa, pte_flags, has_flag, with_flag, pte_v, walk, Walked, walk_alloc,
}
use os_2_course_work.Evict.{Machine, pte_swapped, kalloc_user}
use os_2_course_work.Vm.{slot_of, uvmunmap, enter_page}

-- Whether the round went well, and the machine.
abbrev pub Copied : Type 0
Copied = Bool × Machine

abbrev pub name_slot : ℕ → ℕ → SwapSlot → SwapSlot
name_slot newblk va s = record s { used = true; proc = none; va = va; disk_block = newblk }

-- The entry of the child for the slot, from the place that `walk` returns on.
abbrev pub enter_slot : ℕ → Place → Machine → Walked → Copied
enter_slot newslot place m (none, mem, tables) = (false, record m { mem = mem; tables = tables })
enter_slot newslot place m (some newpte, mem, tables) = (
  true,
  record m {
    mem = mem;
    tables =
        set_pte tables newpte
          (newslot * 1024 + with_flag pte_swapped (pte_flags (pte_at tables place)));
  },
)

-- A page that is swapped out goes from its slot to a new one.
abbrev pub copy_slot : ℕ → ℕ → ℕ → Place → Machine → Swap × Option ℕ → Outcome Copied
copy_slot new i slot place m (w, none) = done (false, record m { swap = w })
copy_slot new i slot place m (w, some newslot) = do
  let newblk = block_of newslot
  let named = record w { swap_space = modify (name_slot newblk i) w.swap_space newslot }
  r ← raid_copy (block_at (get_elem? named.swap_space slot)) newblk m.raid
  out ← walk_alloc new i m.mem m.tables
  done (enter_slot newslot place (record m { swap = named; raid = r }) out)

-- A page in memory is copied to a page of the child, from what `kalloc_user` returns on.
abbrev pub copy_page : ℕ → ℕ → ℕ → ℕ → ℕ → Option ℕ × Machine → Outcome Copied
copy_page kernel_end new i pa flags (none, m) = done (false, m)
copy_page kernel_end new i pa flags (some copy, m) =
    enter_page kernel_end new i copy flags
      (record m { mem = record m.mem { page = put_page m.mem.page copy (m.mem.page pa) } })

unfoldable pub copy_entry : ℕ → ℕ → ℕ → ℕ → Option Place → Machine → Outcome Copied
copy_entry kernel_end newp new i none m = done (true, m)
copy_entry kernel_end newp new i (some place) m =
    let e = pte_at m.tables place in
    if has_flag pte_swapped e
    then copy_slot new i (slot_of e) place m (swap_alloc m.swap)
    else if not (pte_v e)
    then done (true, m)
    else (kalloc_user kernel_end (some newp) i m
        >>= copy_page kernel_end new i (pte2pa e) (pte_flags e))

-- The loop of `uvmcopy` with `n` pages left, and its `err:`.
unfoldable pub copy_loop : ℕ → ℕ → ℕ → ℕ → ℕ → ℕ → Machine → Outcome Copied
copy_loop kernel_end zero newp old new i m = done (true, m)
copy_loop kernel_end (suc n) newp old new i m = do
  o ← walk m.tables old i
  (fine, m') ← copy_entry kernel_end newp new i o m
  elim fine [
    | true ↦ copy_loop kernel_end n newp old new (i + pgsize) m'
    | false ↦ do m'' ← uvmunmap kernel_end new 0 (i / pgsize) true m'; done (false, m'')
  ]

-- Whether it returns 0, and the machine.
unfoldable pub uvmcopy : ℕ → ℕ → ℕ → ℕ → ℕ → Machine → Outcome Copied
uvmcopy kernel_end old new sz newp m =
    copy_loop kernel_end ((sz + pgsize - 1) / pgsize) newp old new 0 m
