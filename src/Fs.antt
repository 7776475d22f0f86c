-- ===== src/Fs.antt =====
-- kernel/fs.c and kernel/fs.h: blocks and their bitmap. `blocks` is what `bread` yields inside the
-- transaction, so `log_write` of a changed buffer is an update of it; the inode blocks are read as
-- their `struct dinode`s, in `dinodes`. There is one device. The size is below 2^31.
pub mod Bits
pub mod Marks
pub mod Alloc
pub mod Free
pub mod Inode
pub mod Table
pub mod Content
pub mod Directory
pub mod Names
pub mod Words
pub mod Slots
pub mod Filled
pub mod Direct
pub mod Indirect
pub mod Bmap
pub mod Store
pub mod Moved
pub mod Loops
pub mod Write
pub mod Read
pub mod Freeing
pub mod Clear
pub mod Trunc
pub mod Iget
pub mod Unique
pub mod Touch
pub mod Reach
pub mod Elements
mod Tests
use os_2_course_work.Prelude.{
  ℕ, zero, suc, ◌+◌, ◌-◌, ◌*◌, ◌/◌, ◌%◌, ◌^◌, Option, none, some, Outcome, done, panic,
  freeing_free_block, ◌==◌, ltb, if◌then◌else◌,
}
use os_2_course_work.Str.{Bytes, poke}
use os_2_course_work.PageTable.{has_flag, with_flag, without_flag}

-- `BPB`, the bits of a block.
abbrev pub bpb : ℕ
bpb = 8192

abbrev pub ndirect : ℕ
ndirect = 12

abbrev pub nindirect : ℕ
nindirect = 256

abbrev pub fsmagic : ℕ
fsmagic = 0x10203040

pub record Superblock : Type 0 where
  pub magic : ℕ
  pub size : ℕ
  pub nblocks : ℕ
  pub ninodes : ℕ
  pub nlog : ℕ
  pub logstart : ℕ
  pub inodestart : ℕ
  pub bmapstart : ℕ

-- `struct dinode`; a type of 0 is a free inode.
pub record Dinode : Type 0 where
  pub type : ℕ
  pub major : ℕ
  pub minor : ℕ
  pub nlink : ℕ
  pub size : ℕ
  pub addrs : ℕ → ℕ

pub record Volume : Type 0 where
  pub sb : Superblock
  pub blocks : ℕ → Bytes
  pub dinodes : ℕ → Dinode

abbrev pub bblock : Superblock → ℕ → ℕ
bblock sb b = b / bpb + sb.bmapstart

-- `1 << (bi % 8)`.
abbrev pub mask : ℕ → ℕ
mask bi = 2 ^ (bi % 8)

-- `log_write` of block `bno` with the content `bytes`.
abbrev pub put_block : ℕ → Bytes → Volume → Volume
put_block bno bytes disk = record disk { blocks = λ b. if b == bno then bytes else disk.blocks b }

-- The `i`-th `uint` of a block.
abbrev pub word : Bytes → ℕ → ℕ
word d i = d (4 * i) + 256 * d (4 * i + 1) + 65536 * d (4 * i + 2) + 16777216 * d (4 * i + 3)

abbrev pub set_word : Bytes → ℕ → ℕ → Bytes
set_word d i v =
    poke
      (poke (poke (poke d (4 * i) (v % 256)) (4 * i + 1) (v / 256 % 256)) (4 * i + 2)
        (v / 65536 % 256))
      (4 * i + 3) (v / 16777216 % 256)

unfoldable pub readsb : Volume → Volume
readsb disk =
    let d = disk.blocks 1 in
    record disk {
      sb = record {
        magic = word d 0;
        size = word d 1;
        nblocks = word d 2;
        ninodes = word d 3;
        nlog = word d 4;
        logstart = word d 5;
        inodestart = word d 6;
        bmapstart = word d 7;
      };
    }

unfoldable pub bzero : ℕ → Volume → Volume
bzero bno disk = put_block bno (λ i. 0) disk

-- The inner loop of `balloc` from bit `bi` on, with `n` bits of the block left.
unfoldable pub scan_bits : ℕ → ℕ → ℕ → ℕ → Bytes → Option ℕ
scan_bits zero size b bi d = none
scan_bits (suc n) size b bi d =
    let rest = scan_bits n size b (bi + 1) d in
    if ltb (b + bi) size then (if has_flag (mask bi) (d (bi / 8)) then rest else some bi) else none

abbrev pub mark_bit : ℕ → ℕ → Volume → Volume
mark_bit bno bi disk =
    let d = disk.blocks bno in
    put_block bno (poke d (bi / 8) (with_flag (mask bi) (d (bi / 8)))) disk

-- `balloc` from the block of the bitmap for `b` on, with `n` such blocks left.
unfoldable pub balloc_loop : ℕ → ℕ → Volume → ℕ × Volume
balloc_loop zero b disk = (0, disk)
balloc_loop (suc n) b disk =
    let bno = bblock disk.sb b in
    elim (scan_bits bpb disk.sb.size b 0 (disk.blocks bno)) [
      | none ↦ balloc_loop n (b + bpb) disk
      | some bi ↦ (b + bi, bzero (b + bi) (mark_bit bno bi disk))
    ]

-- The loop makes a round for each block of the bitmap.
unfoldable pub balloc : Volume → ℕ × Volume
balloc disk = balloc_loop ((disk.sb.size + bpb - 1) / bpb) 0 disk

unfoldable pub bfree : ℕ → Volume → Outcome Volume
bfree b disk =
    let bno = bblock disk.sb b in
    let bi = b % bpb in
    let d = disk.blocks bno in
    if has_flag (mask bi) (d (bi / 8))
    then done (put_block bno (poke d (bi / 8) (without_flag (mask bi) (d (bi / 8)))) disk)
    else panic freeing_free_block
