-- ===== src/Fs/Directory.antt =====
-- kernel/fs.c: directories. A name is a function from the index to the byte, of which 14 are read.
use os_2_course_work.Prelude.{
  ℕ, zero, suc, ◌+◌, ◌-◌, ◌*◌, ◌/◌, ◌%◌, true, false, ◌||◌, not, Option, none, some, Outcome, done,
  panic, dirlookup_not_dir, dirlookup_read, dirlink_read, ◌>>=◌, ◌==◌, ltb, if◌then◌else◌,
  minus_one,
}
use os_2_course_work.Str.{Bytes, strncmp, strncpy}
use os_2_course_work.Fs.{Volume}
use os_2_course_work.Fs.Inode.{Inode}
use os_2_course_work.Fs.Content.{Transfer, whole, readi, writei}
use os_2_course_work.Fs.Table.{Fs, inode_at, set_inode, iget, iput}

abbrev pub dirsiz : ℕ
dirsiz = 14

-- `sizeof(struct dirent)`: two bytes of the inode number and the name.
abbrev pub dirent_size : ℕ
dirent_size = 16

abbrev pub t_dir : ℕ
t_dir = 1

-- A transfer in the kernel's memory does not fail.
abbrev pub kernel_copies : ℕ → Transfer
kernel_copies tot = whole

-- The two names stand one after the other in memory.
abbrev pub both_names : Bytes → Bytes → Bytes
both_names s t = λ a. if ltb a dirsiz then s a else t (a - dirsiz)

unfoldable pub namecmp : Bytes → Bytes → ℕ
namecmp s t = strncmp 0 dirsiz dirsiz (both_names s t)

abbrev pub de_inum : Bytes → ℕ
de_inum de = de 0 + 256 * de 1

abbrev pub de_name : Bytes → Bytes
de_name de = λ i. de (2 + i)

-- The loop of `dirlookup` from `off` on, with `n` entries left: the inode number and the offset.
unfoldable pub lookup_loop :
    ℕ → Bytes → ℕ → Bytes → Inode → Volume → Outcome (Option (ℕ × ℕ) × Inode × Volume)
lookup_loop zero name off de dp disk = done (none, dp, disk)
lookup_loop (suc n) name off de dp disk =
    readi kernel_copies off dirent_size de dp disk >>= (λ (r, de1, dp1, disk1).
      elim (r == dirent_size) [
        | false ↦ panic dirlookup_read
        | true ↦ elim (de_inum de1 == 0 || not (namecmp name (de_name de1) == 0)) [
          | true ↦ lookup_loop n name (off + dirent_size) de1 dp1 disk1
          | false ↦ done (some (de_inum de1, off), dp1, disk1)
        ]
      ])

-- The number of entries: the loops go on while `off < dp->size`.
abbrev pub entries : Inode → ℕ
entries dp = (dp.size + dirent_size - 1) / dirent_size

abbrev pub get_entry : ℕ → Fs → Option (ℕ × ℕ) → Outcome (Option (ℕ × ℕ) × Fs)
get_entry dev fs none = done (none, fs)
get_entry dev fs (some (inum, off)) =
    iget dev inum fs.itable >>= (λ (i, table). done (some (i, off), record fs { itable = table }))

abbrev pub lookup_in : ℕ → Bytes → Fs → Outcome (Option (ℕ × ℕ) × Fs)
lookup_in d name fs = do
  let dp = inode_at fs d
  (found, dp1, disk1) ← lookup_loop (entries dp) name 0 (λ i. 0) dp fs.disk
  get_entry dp1.dev (set_inode d dp1 (record fs { disk = disk1 })) found

-- The inode and the offset for `*poff`.
unfoldable pub dirlookup : ℕ → Bytes → Fs → Outcome (Option (ℕ × ℕ) × Fs)
dirlookup d name fs =
    if (inode_at fs d).type == t_dir then lookup_in d name fs else panic dirlookup_not_dir

-- The loop of `dirlink`: the offset of an empty entry or of the end, and the last entry read.
unfoldable pub empty_loop : ℕ → ℕ → Bytes → Inode → Volume → Outcome (ℕ × Bytes × Inode × Volume)
empty_loop zero off de dp disk = done (off, de, dp, disk)
empty_loop (suc n) off de dp disk =
    readi kernel_copies off dirent_size de dp disk >>= (λ (r, de1, dp1, disk1).
      elim (r == dirent_size) [
        | false ↦ panic dirlink_read
        | true ↦ elim (de_inum de1 == 0) [
          | true ↦ done (off, de1, dp1, disk1)
          | false ↦ empty_loop n (off + dirent_size) de1 dp1 disk1
        ]
      ])

-- `strncpy(de.name, name, DIRSIZ)` and `de.inum = inum`, an `unsigned short`.
unfoldable pub fill_dirent : ℕ → Bytes → Bytes → Bytes
fill_dirent inum name de =
    let names = strncpy 0 dirsiz dirsiz (both_names (de_name de) name) in
    λ a. if a == 0 then inum % 256 else if a == 1 then inum / 256 % 256 else names (a - 2)

unfoldable pub write_entry : ℕ → Bytes → ℕ → Fs → Outcome (ℕ × Fs)
write_entry d name inum fs = do
  let dp = inode_at fs d
  (off, de, dp1, disk1) ← empty_loop (entries dp) 0 (λ i. 0) dp fs.disk
  (r, dp2, disk2) ← writei kernel_copies off dirent_size (fill_dirent inum name de) dp1 disk1
  done (if r == dirent_size then 0 else minus_one, set_inode d dp2 (record fs { disk = disk2 }))

abbrev pub link_found : ℕ → Bytes → ℕ → Option (ℕ × ℕ) → Fs → Outcome (ℕ × Fs)
link_found d name inum (some (i, off)) fs = iput i fs >>= (λ fs1. done (minus_one, fs1))
link_found d name inum none fs = write_entry d name inum fs

unfoldable pub dirlink : ℕ → Bytes → ℕ → Fs → Outcome (ℕ × Fs)
dirlink d name inum fs = do (found, fs1) ← dirlookup d name fs; link_found d name inum found fs1
