-- ===== src/Raid.antt =====
-- kernel/raid.c and kernel/raid.h: the simulated RAID array behind the swap area.
-- A routine runs with `raid_lock` held, so it is one step on the state. A block is the list of its
-- BSIZE bytes, a page the list of its BLOCKS_PER_PAGE blocks: `src + i * BSIZE` is its i-th block.
pub mod Xor
pub mod Layout
pub mod Striping
pub mod Mirroring
mod Parity
pub mod Rebuild
pub mod Array
pub mod Pages
pub mod Faults
mod Tests
use Prim.Native.Nat.{bit_xor}
use os_2_course_work.Prelude.{
  ℕ, zero, suc, ◌+◌, ◌/◌, ◌%◌, Bool, true, false, ◌&&◌, Option, none, some, List, [], ◌∷◌, Outcome,
  done, panic, Panic, phys_write_bad_disk, phys_write_out_of_range, phys_read_bad_disk,
  phys_read_out_of_range, raid0_failed, raid1_failed, raid5_two_failed, raid5_parity_failed,
  raid_bad_mode, raid_invalid_mode, ◌>>=◌, ◌==◌, leb, if◌then◌else◌, u32, replicate,
}
use os_2_course_work.Prelude

abbrev pub bsize : ℕ
bsize = 1024

abbrev pub num_disks : ℕ
num_disks = 4

abbrev pub disk_blocks : ℕ
disk_blocks = 512

abbrev pub blocks_per_page : ℕ
blocks_per_page = 4

abbrev pub data_disks : ℕ
data_disks = 3

abbrev pub raid_mode_0 : ℕ
raid_mode_0 = 0

abbrev pub raid_mode_1 : ℕ
raid_mode_1 = 1

abbrev pub raid_mode_5 : ℕ
raid_mode_5 = 5

abbrev pub Block : Type 0
Block = List ℕ

abbrev pub Page : Type 0
Page = List Block

-- `sim_disk[disk][block]`, `disk_failed[disk]`, `raid_mode`.
pub record Raid : Type 0 where
  pub sim_disk : ℕ → ℕ → Block
  pub disk_failed : ℕ → Bool
  pub raid_mode : ℕ

-- What the `memset(_, 0, BSIZE)` of the code leaves.
unfoldable pub zero_block : Block
zero_block = replicate bsize 0

-- `sim_disk` after `memmove(sim_disk[d][b], src, BSIZE)`.
abbrev pub store : (ℕ → ℕ → Block) → ℕ → ℕ → Block → ℕ → ℕ → Block
store disk d b src e c = if e == d && c == b then src else disk e c

-- A negative `disk_id` is a 32-bit pattern above every disk, so one test makes both checks.
unfoldable pub phys_write_block : ℕ → ℕ → Block → Raid → Outcome Raid
phys_write_block disk_id blk src r =
    if leb num_disks disk_id
    then panic phys_write_bad_disk
    else if leb disk_blocks blk
    then panic phys_write_out_of_range
    else if r.disk_failed disk_id
    then done r
    else done (record r { sim_disk = store r.sim_disk disk_id blk src })

-- `none` is the return value -1; otherwise the bytes that are moved to `dst`.
unfoldable pub phys_read_block : ℕ → ℕ → Raid → Outcome (Option Block)
phys_read_block disk_id blk r =
    if leb num_disks disk_id
    then panic phys_read_bad_disk
    else if leb disk_blocks blk
    then panic phys_read_out_of_range
    else if r.disk_failed disk_id
    then done none
    else done (some (r.sim_disk disk_id blk))

unfoldable pub xor_block : Block → Block → Block
xor_block [] src = []
xor_block (x ∷ dst) [] = x ∷ dst
xor_block (x ∷ dst) (y ∷ src) = bit_xor x y ∷ xor_block dst src

abbrev or_panic : Panic → Option Block → Outcome Block
or_panic e none = panic e
or_panic e (some b) = done b

unfoldable pub raid0_write : ℕ → Block → Raid → Outcome Raid
raid0_write lb src r = phys_write_block (lb % num_disks) (lb / num_disks) src r

unfoldable pub raid0_read : ℕ → Raid → Outcome Block
raid0_read lb r = do
  b ← phys_read_block (lb % num_disks) (lb / num_disks) r
  or_panic raid0_failed b

unfoldable pub raid1_write : ℕ → Block → Raid → Outcome Raid
raid1_write lb src r = do r' ← phys_write_block 0 lb src r; phys_write_block 1 lb src r'

-- The read of the second mirror, when the first one has failed.
abbrev raid1_fallback : ℕ → Raid → Option Block → Outcome Block
raid1_fallback lb r (some b) = done b
raid1_fallback lb r none = do b ← phys_read_block 1 lb r; or_panic raid1_failed b

unfoldable pub raid1_read : ℕ → Raid → Outcome Block
raid1_read lb r = do b ← phys_read_block 0 lb r; raid1_fallback lb r b

abbrev pub raid5_parity_disk : ℕ → ℕ
raid5_parity_disk stripe = stripe % num_disks

abbrev pub raid5_data_disk : ℕ → ℕ → ℕ
raid5_data_disk stripe d = (raid5_parity_disk stripe + 1 + d) % num_disks

abbrev xor_if_read : Block → Option Block → Block
xor_if_read acc none = acc
xor_if_read acc (some b) = xor_block acc b

-- `for(d = d; d < d + n; d++)` of `raid5_write`: a disk that cannot be read is skipped.
unfoldable pub parity_loop : ℕ → ℕ → ℕ → Raid → Block → Outcome Block
parity_loop zero d stripe r parity = done parity
parity_loop (suc n) d stripe r parity = do
  tmp ← phys_read_block (raid5_data_disk stripe d) stripe r
  parity_loop n (d + 1) stripe r (xor_if_read parity tmp)

unfoldable pub raid5_write : ℕ → Block → Raid → Outcome Raid
raid5_write lb src r = do
  let stripe = lb / data_disks
  r' ← phys_write_block (raid5_data_disk stripe (lb % data_disks)) stripe src r
  parity ← parity_loop data_disks 0 stripe r' zero_block
  phys_write_block (raid5_parity_disk stripe) stripe parity r'

-- The reconstruction loop of `raid5_read`: the lost disk is passed over.
unfoldable pub rebuild_loop : ℕ → ℕ → ℕ → ℕ → Raid → Block → Outcome Block
rebuild_loop zero d stripe this_d r rec = done rec
rebuild_loop (suc n) d stripe this_d r rec = elim (raid5_data_disk stripe d == this_d) [
  | true ↦ rebuild_loop n (d + 1) stripe this_d r rec
  | false ↦ do
    tmp ← phys_read_block (raid5_data_disk stripe d) stripe r
    b ← or_panic raid5_two_failed tmp
    rebuild_loop n (d + 1) stripe this_d r (xor_block rec b)
]

abbrev raid5_fallback : ℕ → Raid → Option Block → Outcome Block
raid5_fallback lb r (some b) = done b
raid5_fallback lb r none = do
  let stripe = lb / data_disks
  rec ← rebuild_loop data_disks 0 stripe (raid5_data_disk stripe (lb % data_disks)) r zero_block
  ptmp ← phys_read_block (raid5_parity_disk stripe) stripe r
  parity ← or_panic raid5_parity_failed ptmp
  done (xor_block rec parity)

unfoldable pub raid5_read : ℕ → Raid → Outcome Block
raid5_read lb r = do
  let stripe = lb / data_disks
  b ← phys_read_block (raid5_data_disk stripe (lb % data_disks)) stripe r
  raid5_fallback lb r b

-- `lock` and array aside, `raid_init` leaves nothing of the state before it.
unfoldable pub raid_init : Raid
raid_init = record {
  sim_disk = λ d b. zero_block;
  disk_failed = λ d. false;
  raid_mode = raid_mode_0;
}

unfoldable pub raid_setmode : ℕ → Raid → Outcome Raid
raid_setmode mode r =
    if mode == raid_mode_0
    then done (record r { raid_mode = mode })
    else if mode == raid_mode_1
    then done (record r { raid_mode = mode })
    else if mode == raid_mode_5
    then done (record r { raid_mode = mode })
    else panic raid_invalid_mode

unfoldable pub raid_getmode : Raid → ℕ
raid_getmode r = r.raid_mode

abbrev pub mark : (ℕ → Bool) → ℕ → Bool → ℕ → Bool
mark failed d v e = if e == d then v else failed e

unfoldable pub raid_fail_disk : ℕ → Raid → Outcome Raid
raid_fail_disk d r =
    if leb num_disks d
    then panic Panic.raid_fail_disk
    else done (record r { disk_failed = mark r.disk_failed d true })

unfoldable pub raid_restore_disk : ℕ → Raid → Outcome Raid
raid_restore_disk d r =
    if leb num_disks d
    then panic Panic.raid_restore_disk
    else done (record r { disk_failed = mark r.disk_failed d false })

-- The `switch` in the loops of `raid_write` and `raid_copy`.
unfoldable pub write_block : ℕ → Block → Raid → Outcome Raid
write_block lb s r =
    if r.raid_mode == raid_mode_0
    then raid0_write lb s r
    else if r.raid_mode == raid_mode_1
    then raid1_write lb s r
    else if r.raid_mode == raid_mode_5
    then raid5_write lb s r
    else panic raid_bad_mode

-- The `switch` in the loops of `raid_read` and `raid_copy`.
unfoldable pub read_block : ℕ → Raid → Outcome Block
read_block lb r =
    if r.raid_mode == raid_mode_0
    then raid0_read lb r
    else if r.raid_mode == raid_mode_1
    then raid1_read lb r
    else if r.raid_mode == raid_mode_5
    then raid5_read lb r
    else panic raid_bad_mode

-- The write loop from round `i` on, over the blocks that are left.
unfoldable pub write_loop : ℕ → ℕ → Page → Raid → Outcome Raid
write_loop lblock i [] r = done r
write_loop lblock i (s ∷ src) r = do
  r' ← write_block (u32 (lblock + i)) s r
  write_loop lblock (i + 1) src r'

-- The read loop from round `i` on, with `n` rounds left.
unfoldable pub read_loop : ℕ → ℕ → ℕ → Raid → Outcome Page
read_loop zero lblock i r = done []
read_loop (suc n) lblock i r = do
  d ← read_block (u32 (lblock + i)) r
  dst ← read_loop n lblock (i + 1) r
  done (d ∷ dst)

unfoldable pub raid_write : ℕ → Page → Raid → Outcome Raid
raid_write lblock src r = write_loop lblock 0 src r

unfoldable pub raid_read : ℕ → Raid → Outcome Page
raid_read lblock r = read_loop blocks_per_page lblock 0 r

-- `raid_copy_buf` is filled by the first loop and read by the second, and nowhere else.
unfoldable pub raid_copy : ℕ → ℕ → Raid → Outcome Raid
raid_copy src_lblock dst_lblock r = do
  raid_copy_buf ← read_loop blocks_per_page src_lblock 0 r
  write_loop dst_lblock 0 raid_copy_buf r
