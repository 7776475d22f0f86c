-- ===== src/Swap.antt =====
-- kernel/swap.c and kernel/swap.h: the swap area, 128 slots of one page each on the RAID array.
-- The statements under `swap_lock` are one step on the state, and the array's routine is the next.
pub mod Slots
pub mod Store
mod Tests
use os_2_course_work.Prelude.{
  ℕ, zero, suc, ◌+◌, ◌-◌, ◌*◌, Bool, true, false, not, Option, none, some, List, [], ◌∷◌, Outcome,
  done, ◌>>=◌, ltb, if◌then◌else◌, u32, u64, get_elem?, modify, replicate,
}
use os_2_course_work.Raid.{Page, Raid, blocks_per_page, raid_init, raid_write, raid_read}

abbrev pub max_swap : ℕ
max_swap = 128

abbrev pub swap_start_block : ℕ
swap_start_block = 0

abbrev pub rotational_const : ℕ
rotational_const = 5

-- `proc` is the index of the process in the table, or `none` for the null pointer.
pub record SwapSlot : Type 0 where
  pub used : Bool
  pub proc : Option ℕ
  pub va : ℕ
  pub disk_block : ℕ

pub record Swap : Type 0 where
  pub swap_space : List SwapSlot
  pub swap_head : ℕ

-- The counters of `struct proc` that the swap area credits to a process.
pub record DiskStats : Type 0 where
  pub disk_reads : ℕ
  pub disk_writes : ℕ
  pub total_disk_latency : ℕ
  pub disk_ops : ℕ

abbrev pub empty_slot : SwapSlot
empty_slot = record { used = false; proc = none; va = 0; disk_block = 0 }

unfoldable pub swap_init : Swap × Raid
swap_init = (record { swap_space = replicate max_swap empty_slot; swap_head = 0 }, raid_init)

-- The search of `swap_alloc` from index `i` on.
unfoldable pub free_from : List SwapSlot → ℕ → Option ℕ
free_from [] i = none
free_from (s ∷ ss) i = if not s.used then some i else free_from ss (i + 1)

abbrev pub take_slot : SwapSlot → SwapSlot
take_slot s = record s { used = true }

-- `none` is -1.
unfoldable pub swap_alloc : Swap → Swap × Option ℕ
swap_alloc w = elim (free_from w.swap_space 0) [
  | none ↦ (w, none)
  | some i ↦ (record w { swap_space = modify take_slot w.swap_space i }, some i)
]

abbrev pub release_slot : SwapSlot → SwapSlot
release_slot s = record s { used = false; proc = none; va = 0 }

unfoldable pub swap_free : ℕ → Swap → Swap
swap_free slot w = record w { swap_space = modify release_slot w.swap_space slot }

-- `uint32 blk` of a slot.
abbrev pub block_of : ℕ → ℕ
block_of slot = u32 (swap_start_block + u32 slot * blocks_per_page)

abbrev pub fill_slot : ℕ → Option ℕ → ℕ → SwapSlot → SwapSlot
fill_slot blk victim va s = record s { disk_block = blk; proc = victim; va = va }

-- The seek distance and the constant of both routines.
abbrev pub latency_to : ℕ → ℕ → ℕ
latency_to blk head = u32 ((if ltb head blk then blk - head else head - blk) + rotational_const)

abbrev pub credit_write : ℕ → DiskStats → DiskStats
credit_write latency c = record c {
  disk_writes = u64 (c.disk_writes + 1);
  total_disk_latency = u64 (c.total_disk_latency + latency);
  disk_ops = u32 (c.disk_ops + 1);
}

abbrev pub credit_read : ℕ → DiskStats → DiskStats
credit_read latency c = record c {
  disk_reads = u64 (c.disk_reads + 1);
  total_disk_latency = u64 (c.total_disk_latency + latency);
  disk_ops = u32 (c.disk_ops + 1);
}

abbrev pub credit : (DiskStats → DiskStats) → Option DiskStats → Option DiskStats
credit f none = none
credit f (some c) = some (f c)

-- The swap area, the array below it, and the counters of the creditor.
abbrev pub After : Type 0
After = Swap × Raid × Option DiskStats

unfoldable pub swap_write : ℕ → Page → Option ℕ → ℕ → Option DiskStats → Swap → Raid → Outcome After
swap_write slot pa victim va creditor w r = do
  let blk = block_of slot
  let latency = latency_to blk w.swap_head
  r' ← raid_write blk pa r
  done (
    record { swap_space = modify (fill_slot blk victim va) w.swap_space slot; swap_head = blk },
    r',
    credit (credit_write latency) creditor,
  )

abbrev pub block_at : Option SwapSlot → ℕ
block_at none = 0
block_at (some s) = s.disk_block

-- The page is what is moved to `pa`.
unfoldable pub swap_read :
    ℕ → Option DiskStats → Swap → Raid → Outcome (Page × Swap × Option DiskStats)
swap_read slot creditor w r = do
  let blk = block_at (get_elem? w.swap_space slot)
  let latency = latency_to blk w.swap_head
  page ← raid_read blk r
  done (page, record w { swap_head = blk }, credit (credit_read latency) creditor)
