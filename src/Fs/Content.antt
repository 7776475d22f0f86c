-- ===== src/Fs/Content.antt =====
-- kernel/fs.c: `readi` and `writei`. The memory on the other side is a function from the offset to the
-- byte, and `copies` says how the transfer at an offset goes: `either_copyin` and `either_copyout` end in
-- `memmove` for the kernel's memory and in `copyin`, `copyout` for a user's, which go page by page and
-- may have moved bytes before they fail. The blocks are those that `bread` gives: a block that a failing
-- `either_copyin` has changed is changed in its buffer, but not logged. The transaction has room for the
-- blocks that `log_write` is called with, as those of `filewrite` have.
use os_2_course_work.Prelude.{
  ℕ, zero, suc, ◌+◌, ◌-◌, ◌*◌, ◌/◌, ◌%◌, min, true, false, ◌&&◌, ◌||◌, Outcome, done, ◌>>=◌, ◌==◌,
  ltb, leb, if◌then◌else◌, u32, minus_one,
}
use os_2_course_work.Str.{Bytes}
use os_2_course_work.Raid.{bsize}
use os_2_course_work.Fs.{Volume, ndirect, nindirect, put_block}
use os_2_course_work.Fs.Inode.{Inode, bmap, iupdate}

-- `m` bytes of `src` from `from` on, moved to `at` in `dst`.
abbrev pub blit : Bytes → ℕ → Bytes → ℕ → ℕ → Bytes
blit dst at src from m = λ a. if leb at a && ltb a (at + m) then src (from + (a - at)) else dst a

-- A transfer moves all its bytes, or fails after so many of them.
pub data Transfer : Type 0 where
  whole : Transfer
  stopped : ℕ → Transfer

-- The bytes that one round moves.
abbrev pub part : ℕ → ℕ → ℕ → ℕ
part n tot off = min (n - tot) (bsize - off % bsize)

-- The loop of `readi`; a round moves a byte at least, so `n` rounds suffice.
unfoldable pub readi_loop :
    (ℕ → Transfer) → ℕ → ℕ → ℕ → ℕ → Bytes → Inode → Volume → Outcome (ℕ × Bytes × Inode × Volume)
readi_loop copies n zero tot off dst ip disk = done (tot, dst, ip, disk)
readi_loop copies n (suc k) tot off dst ip disk = elim (ltb tot n) [
  | false ↦ done (tot, dst, ip, disk)
  | true ↦ bmap (off / bsize) ip disk >>= (λ (addr, ip1, disk1).
      let m = part n tot off in
      elim (addr == 0) [
        | true ↦ done (tot, dst, ip1, disk1)
        | false ↦ elim (copies tot) [
          | stopped q ↦
              done (minus_one, blit dst tot (disk1.blocks addr) (off % bsize) (min q m), ip1, disk1)
          | whole ↦
              readi_loop copies n k (tot + m) (off + m)
                (blit dst tot (disk1.blocks addr) (off % bsize) m) ip1 disk1
        ]
      ])
]

unfoldable pub readi :
    (ℕ → Transfer) → ℕ → ℕ → Bytes → Inode → Volume → Outcome (ℕ × Bytes × Inode × Volume)
readi copies off n dst ip disk =
    if ltb ip.size off || ltb (u32 (off + n)) off
    then done (0, dst, ip, disk)
    else let len = if ltb ip.size (u32 (off + n)) then ip.size - off else n in
      readi_loop copies len len 0 off dst ip disk

-- The loop of `writei`: it gives `tot` and `off`.
unfoldable pub writei_loop :
    (ℕ → Transfer) → ℕ → ℕ → ℕ → ℕ → Bytes → Inode → Volume → Outcome (ℕ × ℕ × Inode × Volume)
writei_loop copies n zero tot off src ip disk = done (tot, off, ip, disk)
writei_loop copies n (suc k) tot off src ip disk = elim (ltb tot n) [
  | false ↦ done (tot, off, ip, disk)
  | true ↦ bmap (off / bsize) ip disk >>= (λ (addr, ip1, disk1).
      let m = part n tot off in
      elim (addr == 0) [
        | true ↦ done (tot, off, ip1, disk1)
        | false ↦ elim (copies tot) [
          | stopped q ↦ done (
            tot,
            off,
            ip1,
            put_block addr (blit (disk1.blocks addr) (off % bsize) src tot (min q m)) disk1,
          )
          | whole ↦
              writei_loop copies n k (tot + m) (off + m) src ip1
                (put_block addr (blit (disk1.blocks addr) (off % bsize) src tot m) disk1)
        ]
      ])
]

abbrev pub grown : ℕ → Inode → Inode
grown off ip = record ip { size = if ltb ip.size off then off else ip.size }

unfoldable pub writei :
    (ℕ → Transfer) → ℕ → ℕ → Bytes → Inode → Volume → Outcome (ℕ × Inode × Volume)
writei copies off n src ip disk =
    if ltb ip.size off || ltb (u32 (off + n)) off
    then done (minus_one, ip, disk)
    else if ltb ((ndirect + nindirect) * bsize) (u32 (off + n))
    then done (minus_one, ip, disk)
    else do
      (tot, end, ip1, disk1) ← writei_loop copies n n 0 off src ip disk
      let ip2 : Inode = grown end ip1
      done (tot, ip2, iupdate ip2 disk1)
