-- ===== src/Fs/Inode.antt =====
-- kernel/fs.c: what is done with one in-memory inode, whose lock is held: `iupdate`, `bmap`, `itrunc`
-- and `stati`. `struct inode` is from kernel/file.h, `struct stat` from kernel/stat.h.
use os_2_course_work.Prelude.{
  ℕ, zero, suc, ◌+◌, ◌-◌, Bool, true, false, Outcome, done, panic, bmap_out_of_range, ◌>>=◌, ◌==◌,
  ltb, if◌then◌else◌,
}
use os_2_course_work.Lock.{Sleeplock}
use os_2_course_work.Fs.{
  Volume, Dinode, ndirect, nindirect, word, set_word, put_block, balloc, bfree,
}

-- `ref` is a C `int` by its 32-bit pattern.
pub record Inode : Type 0 where
  pub dev : ℕ
  pub inum : ℕ
  pub ref : ℕ
  pub lock : Sleeplock
  pub valid : Bool
  pub type : ℕ
  pub major : ℕ
  pub minor : ℕ
  pub nlink : ℕ
  pub size : ℕ
  pub addrs : ℕ → ℕ

pub record Stat : Type 0 where
  pub dev : ℕ
  pub ino : ℕ
  pub type : ℕ
  pub nlink : ℕ
  pub size : ℕ

abbrev pub stati : Inode → Stat
stati ip = record { dev = ip.dev; ino = ip.inum; type = ip.type; nlink = ip.nlink; size = ip.size }

abbrev pub write_dinode : ℕ → Dinode → Volume → Volume
write_dinode inum d disk = record disk { dinodes = λ i. if i == inum then d else disk.dinodes i }

unfoldable pub iupdate : Inode → Volume → Volume
iupdate ip disk =
    write_dinode ip.inum
      (record {
        type = ip.type;
        major = ip.major;
        minor = ip.minor;
        nlink = ip.nlink;
        size = ip.size;
        addrs = ip.addrs;
      })
      disk

abbrev pub set_addr : ℕ → ℕ → Inode → Inode
set_addr i addr ip = record ip { addrs = λ j. if j == i then addr else ip.addrs j }

abbrev pub store_addr : ℕ → Inode → ℕ × Volume → ℕ × Inode × Volume
store_addr i ip (addr, disk) = if addr == 0 then (0, ip, disk) else (addr, set_addr i addr ip, disk)

-- The block in `ip->addrs[i]`, which is allocated if there is none.
unfoldable pub addr_block : ℕ → Inode → Volume → ℕ × Inode × Volume
addr_block i ip disk =
    if ip.addrs i == 0 then store_addr i ip (balloc disk) else (ip.addrs i, ip, disk)

abbrev pub store_word : ℕ → ℕ → Inode → ℕ × Volume → ℕ × Inode × Volume
store_word ind bn ip (addr, disk) =
    if addr == 0
    then (0, ip, disk)
    else (addr, ip, put_block ind (set_word (disk.blocks ind) bn addr) disk)

-- The same for the `bn`-th entry of the indirect block `ind`.
unfoldable pub word_block : ℕ → ℕ × Inode × Volume → ℕ × Inode × Volume
word_block bn (ind, ip, disk) =
    if ind == 0
    then (0, ip, disk)
    else if word (disk.blocks ind) bn == 0
    then store_word ind bn ip (balloc disk)
    else (word (disk.blocks ind) bn, ip, disk)

unfoldable pub bmap : ℕ → Inode → Volume → Outcome (ℕ × Inode × Volume)
bmap bn ip disk =
    if ltb bn ndirect
    then done (addr_block bn ip disk)
    else if ltb (bn - ndirect) nindirect
    then done (word_block (bn - ndirect) (addr_block ndirect ip disk))
    else panic bmap_out_of_range

-- The first loop of `itrunc` from `i` on, with `n` entries left.
unfoldable pub free_addrs : ℕ → ℕ → Inode → Volume → Outcome (Inode × Volume)
free_addrs zero i ip disk = done (ip, disk)
free_addrs (suc n) i ip disk = elim (ip.addrs i == 0) [
  | true ↦ free_addrs n (i + 1) ip disk
  | false ↦ bfree (ip.addrs i) disk >>= (λ d. free_addrs n (i + 1) (set_addr i 0 ip) d)
]

-- The second loop, over the entries of the indirect block `ind` from `j` on.
unfoldable pub free_words : ℕ → ℕ → ℕ → Volume → Outcome Volume
free_words zero j ind disk = done disk
free_words (suc n) j ind disk = elim (word (disk.blocks ind) j == 0) [
  | true ↦ free_words n (j + 1) ind disk
  | false ↦ bfree (word (disk.blocks ind) j) disk >>= (λ d. free_words n (j + 1) ind d)
]

unfoldable pub free_indirect : Inode → Volume → Outcome (Inode × Volume)
free_indirect ip disk = if ip.addrs ndirect == 0 then done (ip, disk) else do
  d ← free_words nindirect 0 (ip.addrs ndirect) disk
  e ← bfree (ip.addrs ndirect) d
  done (set_addr ndirect 0 ip, e)

unfoldable pub itrunc : Inode → Volume → Outcome (Inode × Volume)
itrunc ip disk = do
  (ip1, d1) ← free_addrs ndirect 0 ip disk
  (ip2, d2) ← free_indirect ip1 d1
  let ip3 : Inode = record ip2 { size = 0 }
  done (ip3, iupdate ip3 d2)
