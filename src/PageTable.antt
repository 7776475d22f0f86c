-- ===== src/PageTable.antt =====
-- kernel/vm.c and kernel/riscv.h: the page tables of Sv39, three levels of pages of 512 entries.
-- An entry is its 64-bit number: the flags are the low 10 bits and the page number stands above them.
-- `tables` has for a page that serves as a table its entries; a page becomes one when `walk` or
-- `uvmcreate` sets it to zero.
pub mod Walk
pub mod Sound
pub mod Grow
pub mod Map
pub mod There
mod Tests
use os_2_course_work.Prelude.{
  ℕ, zero, suc, ◌+◌, ◌-◌, ◌*◌, ◌/◌, ◌%◌, ◌^◌, Bool, true, false, ◌&&◌, ◌||◌, not, Option, none,
  some, Outcome, done, panic, walk_bad, mappages_va, mappages_size, mappages_zero, mappages_remap,
  uvmclear_bad, kvmmap_bad, ◌>>=◌, ◌==◌, ltb, leb, if◌then◌else◌, u64,
}
use os_2_course_work.Memory.{Memory, pgsize, kalloc}

abbrev pub maxva : ℕ
maxva = 2 ^ 38

abbrev pub Tables : Type 0
Tables = ℕ → ℕ → ℕ

-- A `pte_t *`: a table page and an index into it.
abbrev pub Place : Type 0
Place = ℕ × ℕ

abbrev pub pte_at : Tables → Place → ℕ
pte_at tables place = tables place.0 place.1

abbrev pub set_pte : Tables → Place → ℕ → Tables
set_pte tables place e = λ t i. if t == place.0 && i == place.1 then e else tables t i

-- `memset(pagetable, 0, PGSIZE)`.
abbrev pub zero_table : Tables → ℕ → Tables
zero_table tables pg = λ t i. if t == pg then 0 else tables t i

abbrev pub px : ℕ → ℕ → ℕ
px level va = va / 2 ^ (12 + 9 * level) % 512

abbrev pub pte2pa : ℕ → ℕ
pte2pa e = e / 1024 * pgsize

abbrev pub pa2pte : ℕ → ℕ
pa2pte pa = pa / pgsize * 1024

abbrev pub pte_flags : ℕ → ℕ
pte_flags e = e % 1024

-- Whether the flag `2 ^ k` is set, and the number with it set or cleared.
abbrev pub has_flag : ℕ → ℕ → Bool
has_flag flag e = e / flag % 2 == 1

abbrev pub with_flag : ℕ → ℕ → ℕ
with_flag flag e = if has_flag flag e then e else e + flag

abbrev pub without_flag : ℕ → ℕ → ℕ
without_flag flag e = if has_flag flag e then e - flag else e

abbrev pub flag_v : ℕ
flag_v = 1

abbrev pub flag_r : ℕ
flag_r = 2

abbrev pub flag_w : ℕ
flag_w = 4

abbrev pub flag_u : ℕ
flag_u = 16

abbrev pub pte_v : ℕ → Bool
pte_v e = has_flag flag_v e

-- The loop of `walk(…, 0)` with the levels from `level` down to 1 to go.
unfoldable pub walk_down : ℕ → Tables → ℕ → ℕ → Option Place
walk_down zero tables pagetable va = some (pagetable, px 0 va)
walk_down (suc level) tables pagetable va =
    let e = tables pagetable (px (suc level) va) in
    elim (pte_v e) [ true ↦ walk_down level tables (pte2pa e) va | false ↦ none ]

-- `walk` with `alloc` 0; `none` is the return value 0.
unfoldable pub walk : Tables → ℕ → ℕ → Outcome (Option Place)
walk tables pagetable va =
    if leb maxva va then panic walk_bad else done (walk_down 2 tables pagetable va)

-- What `walk` with `alloc` 1 leaves.
abbrev pub Walked : Type 0
Walked = Option Place × Memory × Tables

-- The loop of `walk(…, 1)`; a page that `kalloc` gives is set to zero and entered.
unfoldable pub alloc_down : ℕ → ℕ → ℕ → Memory → Tables → Walked
alloc_down zero pagetable va mem tables = (some (pagetable, px 0 va), mem, tables)
alloc_down (suc level) pagetable va mem tables =
    let place : Place = (pagetable, px (suc level) va) in
    let e = pte_at tables place in
    elim (pte_v e) [
      | true ↦ alloc_down level (pte2pa e) va mem tables
      | false ↦
          let (o, mem') = kalloc mem in
          elim o [
            | none ↦ (none, mem', tables)
            | some pg ↦
                alloc_down level pg va mem'
                  (set_pte (zero_table tables pg) place (pa2pte pg + flag_v))
          ]
    ]

unfoldable pub walk_alloc : ℕ → ℕ → Memory → Tables → Outcome Walked
walk_alloc pagetable va mem tables =
    if leb maxva va then panic walk_bad else done (alloc_down 2 pagetable va mem tables)

abbrev pub user_pa : ℕ → ℕ
user_pa e = if pte_v e then (if has_flag flag_u e then pte2pa e else 0) else 0

abbrev pub pa_of_place : Tables → Option Place → ℕ
pa_of_place tables none = 0
pa_of_place tables (some place) = user_pa (pte_at tables place)

unfoldable pub walkaddr : Tables → ℕ → ℕ → Outcome ℕ
walkaddr tables pagetable va =
    if leb maxva va then done 0 else (walk tables pagetable va >>= λ o. done (pa_of_place tables o))

abbrev pub mapped_place : Tables → Option Place → Bool
mapped_place tables none = false
mapped_place tables (some place) = pte_v (pte_at tables place)

unfoldable pub ismapped : Tables → ℕ → ℕ → Outcome Bool
ismapped tables pagetable va = do o ← walk tables pagetable va; done (mapped_place tables o)

-- `PA2PTE(pa) | perm | PTE_V` for flags that stay below the page number.
abbrev pub leaf : ℕ → ℕ → ℕ
leaf pa perm = pa2pte pa + with_flag flag_v perm

-- The result of `mappages`: whether it returns 0, and the state.
abbrev pub Mapped : Type 0
Mapped = Bool × Memory × Tables

abbrev pub map_place : ℕ → ℕ → Walked → Outcome Mapped
map_place pa perm (none, mem, tables) = done (false, mem, tables)
map_place pa perm (some place, mem, tables) =
    if pte_v (pte_at tables place)
    then panic mappages_remap
    else done (true, mem, set_pte tables place (leaf pa perm))

abbrev pub map_on : Mapped → (Memory → Tables → Outcome Mapped) → Outcome Mapped
map_on (false, mem, tables) k = done (false, mem, tables)
map_on (true, mem, tables) k = k mem tables

-- The loop of `mappages` with `n` pages left, from `a` and `pa` on.
unfoldable pub map_loop : ℕ → ℕ → ℕ → ℕ → ℕ → Memory → Tables → Outcome Mapped
map_loop zero pagetable a pa perm mem tables = done (true, mem, tables)
map_loop (suc n) pagetable a pa perm mem tables = do
  w ← walk_alloc pagetable a mem tables
  r ← map_place pa perm w
  map_on r (λ mem' tables'. map_loop n pagetable (a + pgsize) (pa + pgsize) perm mem' tables')

unfoldable pub mappages : ℕ → ℕ → ℕ → ℕ → ℕ → Memory → Tables → Outcome Mapped
mappages pagetable va size pa perm mem tables =
    if not (va % pgsize == 0)
    then panic mappages_va
    else if not (size % pgsize == 0)
    then panic mappages_size
    else if size == 0
    then panic mappages_zero
    else map_loop (size / pgsize) pagetable va pa perm mem tables

abbrev pub kvmmap_done : Mapped → Outcome (Memory × Tables)
kvmmap_done (false, mem, tables) = panic kvmmap_bad
kvmmap_done (true, mem, tables) = done (mem, tables)

unfoldable pub kvmmap : ℕ → ℕ → ℕ → ℕ → ℕ → Memory → Tables → Outcome (Memory × Tables)
kvmmap kpgtbl va pa sz perm mem tables = mappages kpgtbl va sz pa perm mem tables >>= kvmmap_done

abbrev pub create_in : Option ℕ × Memory → Tables → Option ℕ × Memory × Tables
create_in (none, mem) tables = (none, mem, tables)
create_in (some pg, mem) tables = (some pg, mem, zero_table tables pg)

unfoldable pub uvmcreate : Memory → Tables → Option ℕ × Memory × Tables
uvmcreate mem tables = create_in (kalloc mem) tables

abbrev pub clear_place : Tables → Option Place → Outcome Tables
clear_place tables none = panic uvmclear_bad
clear_place tables (some place) =
    done (set_pte tables place (without_flag flag_u (pte_at tables place)))

unfoldable pub uvmclear : Tables → ℕ → ℕ → Outcome Tables
uvmclear tables pagetable va = walk tables pagetable va >>= clear_place tables
