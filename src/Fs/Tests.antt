-- ===== src/Fs/Tests.antt =====
-- Runs of the file system on a volume of 64 blocks, whose bitmap is block 3, and the theorems there.
use os_2_course_work.Prelude.{
  ℕ, zero, suc, ◌+◌, ◌≡◌, ◌≢◌, refl, true, false, List, [], ◌∷◌, Option, none, some, Outcome, done,
  panic, freeing_free_block, ◌>>=◌, ◌==◌, ltb, if◌then◌else◌, modify, ◌≤◌, arith,
}
use mathlib.Core.Path.{sym, ap, ◌∙◌, subst}
use os_2_course_work.Lock.{holdingsleep}
use os_2_course_work.Str.{Bytes, strncmp, strncpy, pad_zeros}
use os_2_course_work.Fs.{Superblock, Volume, balloc, balloc_loop, scan_bits, bzero, bfree}
use os_2_course_work.Fs.Marks.{marked, Guarded}
use os_2_course_work.Fs.Alloc.{Allocated, Balloc, balloc_lem}
use os_2_course_work.Fs.Free.{balloc-bfree}
use os_2_course_work.Fs.Slots.{slot, Sound}
use os_2_course_work.Fs.Write.{Written, writei_lem}
use os_2_course_work.Fs.Read.{readi-writei}
use os_2_course_work.Fs.Trunc.{Truncated, itrunc_lem}
use os_2_course_work.Fs.Elements.{walk_names, namex-elements}
use os_2_course_work.Fs.Unique.{Unique}
use os_2_course_work.Fs.Reach.{get, start, then_step, Reaches-Unique}
use os_2_course_work.Fs.Inode.{
  Inode, iupdate, bmap, addr_block, word_block, itrunc, free_addrs, free_indirect, free_words,
}
use os_2_course_work.Fs.Content.{Transfer, whole, stopped, readi, readi_loop, writei, writei_loop}
use os_2_course_work.Fs.Table.{
  Fs, iinit, iget, iget_loop, idup, recycle, ialloc, ialloc_loop, ilock, iunlock, iput, iunlockput,
  free_inode,
}
use os_2_course_work.Fs.Directory.{
  dirlink, dirlookup, lookup_loop, namecmp, fill_dirent, write_entry, empty_loop, kernel_copies,
}
use os_2_course_work.Fs.Names.{
  namei, namex_start, namex, namex_loop, namex_end, enter_dir, skipelem, skip_slashes, element,
  name_bytes,
}

abbrev small_sb : Superblock
small_sb = record {
  magic = 0x10203040;
  size = 64;
  nblocks = 60;
  ninodes = 8;
  nlog = 0;
  logstart = 2;
  inodestart = 2;
  bmapstart = 3;
}

-- Blocks 0 to 4 are in use; inode 1 is the root directory.
abbrev small : Volume
small = record {
  sb = small_sb;
  blocks = λ b i. if b == 3 then (if i == 0 then 31 else 0) else 0;
  dinodes = λ i. record {
    type = if i == 1 then 1 else 0;
    major = 0;
    minor = 0;
    nlink = if i == 1 then 1 else 0;
    size = 0;
    addrs = λ j. 0;
  };
}

abbrev small_fs : Fs
small_fs = record { disk = small; itable = iinit; pid = 7 }

abbrev name_a : Bytes
name_a = name_bytes (0x61 ∷ 0x62 ∷ [])

-- Makes a file `ab` in the root and looks `/ab` and `//ab/` up.
made : Outcome (Option ℕ × Option ℕ)
unfolding ialloc ilock dirlink iunlock namei
made = do
  (root, t) ← iget 1 1 iinit
  fs1 ← ilock root (record { disk = small; itable = t; pid = 7 })
  (file, fs2) ← ialloc 1 2 fs1
  (r, fs3) ← dirlink root name_a 2 fs2
  fs4 ← iunlock root fs3
  (a, n, fs5) ← namei (0x2F ∷ 0x61 ∷ 0x62 ∷ []) 0 fs4
  (b, n, fs6) ← namei (0x2F ∷ 0x61 ∷ []) 0 fs5
  done (a, b)

made_test : made ≡ done (some 1, none)
unfolding made iget iget_loop idup ialloc ialloc_loop ilock iunlock iput iunlockput free_inode
    itrunc free_addrs free_indirect free_words bfree dirlink dirlookup lookup_loop namecmp
    fill_dirent write_entry empty_loop readi readi_loop writei writei_loop bmap addr_block balloc
    balloc_loop scan_bits word_block bzero iupdate namei namex namex_start namex_loop namex_end
    enter_dir skipelem skip_slashes element strncmp strncpy pad_zeros holdingsleep
made_test = refl

balloc_test : (balloc small).0 ≡ 5
unfolding balloc balloc_loop scan_bits
balloc_test = refl

bfree_test : bfree 5 small ≡ panic freeing_free_block
unfolding bfree
bfree_test = refl

abbrev file_ip : Inode
file_ip = record {
  dev = 1;
  inum = 2;
  ref = 1;
  lock = record { locked = true; pid = 7 };
  valid = true;
  type = 2;
  major = 0;
  minor = 0;
  nlink = 1;
  size = 12300;
  addrs = λ i. 0;
}

abbrev text : Bytes
text i = i + 40

-- Bytes 12285 to 12294 of a file, the last before the indirect block and the first in it.
abbrev written : ℕ × Inode × Volume
unfolding writei
written = elim (writei kernel_copies 12285 10 text file_ip small) [
  | done r ↦ r
  | panic e ↦ (0, file_ip, small)
]

back : Outcome (List ℕ)
unfolding readi
back = do
  (s, dst, ip1, disk1) ← readi kernel_copies 12285 10 (λ i. 0) written.1 written.2
  done (s ∷ dst 0 ∷ dst 9 ∷ dst 10 ∷ ip1.size ∷ ip1.addrs 11 ∷ ip1.addrs 12 ∷ [])

back_test : back ≡ done (10 ∷ 40 ∷ 49 ∷ 0 ∷ 12300 ∷ 5 ∷ 6 ∷ [])
unfolding back written writei_loop bmap addr_block balloc balloc_loop scan_bits word_block bzero
    readi_loop iupdate
back_test = refl

three_free : marked small 3 ≢ false
three_free h = cc

small-Guarded : Guarded small
small-Guarded b c hb hc free e =
    let three : b ≡ 3 = omega (arith, e) in
    three_free (subst (λ x. marked small x ≡ false) three free)

file_ip-slot : (k : ℕ) → slot file_ip small k ≡ 0
unfolding slot
file_ip-slot k = ground arith

file_ip-Sound : Sound file_ip small
file_ip-Sound = record {
  guarded = small-Guarded;
  boot = refl;
  size = omega arith;
  used = λ k h n. absurd (n (file_ip-slot k));
  inside = λ k h n. absurd (n (file_ip-slot k));
  plain = λ k c h hc n e. n (file_ip-slot k);
  apart = λ k l h h' n e. absurd (n (file_ip-slot k));
}

written_test : writei kernel_copies 12285 10 text file_ip small ≡ done (10, written.1, written.2)
unfolding written writei writei_loop bmap addr_block balloc balloc_loop scan_bits word_block bzero
written_test = refl

readi-writei_example :
    (dst' : Bytes) × (readi kernel_copies 12285 10 (λ i. 0) written.1 written.2
      ≡ done (10, dst', written.1, written.2))
    × ((i : ℕ) → dst' i ≡ (if ltb i 10 then text i else 0))
readi-writei_example =
    readi-writei kernel_copies 12285 10 text (λ i. 0) file_ip small written.1 written.2
      file_ip-Sound (omega arith) (omega arith) written_test

-- The transfer into the second block fails after two bytes.
abbrev failing : ℕ → Transfer
failing zero = whole
failing (suc tot) = stopped 2

writei_lem_example :
    (r : ℕ × Inode × Volume) × (writei failing 12285 10 text file_ip small ≡ done r)
    × Written failing text 10 12285 file_ip small r.0 r.1 r.2
writei_lem_example =
    writei_lem failing 12285 10 text file_ip small file_ip-Sound (omega arith) (omega arith)

-- The count is that of the first block, and the second block has two bytes more.
partly_written : Outcome (List ℕ)
unfolding writei
partly_written = do
  (tot, ip1, disk1) ← writei failing 12285 10 text file_ip small
  done (tot ∷ ip1.size ∷ disk1.blocks 7 0 ∷ disk1.blocks 7 1 ∷ disk1.blocks 7 2 ∷ [])

partly_written_test : partly_written ≡ done (3 ∷ 12300 ∷ 43 ∷ 44 ∷ 0 ∷ [])
unfolding partly_written writei_loop bmap addr_block balloc balloc_loop scan_bits word_block bzero
    iupdate
partly_written_test = refl

balloc_lem_example : Balloc small (balloc small)
balloc_lem_example = balloc_lem small small-Guarded

balloc-bfree_example :
    (d : Volume) × (bfree 4 small ≡ done d)
    × Allocated d (balloc d).0 (balloc d).1
    × ((balloc d).0 ≤ 4)
balloc-bfree_example = balloc-bfree 4 small small-Guarded refl (omega arith) (λ c h. omega arith)

namex-elements_example : namex (0x2F ∷ 0x2F ∷ 0x61 ∷ 0x2F ∷ []) false 0 [] small_fs ≡ (
    namex_start (0x2F ∷ 0x2F ∷ 0x61 ∷ 0x2F ∷ []) 0 small_fs
    >>= (λ (ip, fs1). walk_names false ip ((0x61 ∷ []) ∷ []) [] fs1))
namex-elements_example = namex-elements (0x2F ∷ 0x2F ∷ 0x61 ∷ 0x2F ∷ []) false 0 [] small_fs

abbrev root_table : List Inode
root_table = modify (recycle 1 1) iinit 0

abbrev root_fs : Fs
root_fs = record { disk = small; itable = root_table; pid = 7 }

root_got : iget 1 1 iinit ≡ done (0, root_table)
unfolding iget iget_loop
root_got = refl

Reaches-Unique_example : Unique root_table
Reaches-Unique_example = Reaches-Unique small root_fs (
    then_step (record { disk = small; itable = iinit; pid = 7 }) root_fs (start 7)
      (get 1 1 0 root_table root_got))

-- A file whose first block is block 4.
abbrev one_block : Inode
one_block = record {
  dev = 1;
  inum = 2;
  ref = 1;
  lock = record { locked = true; pid = 7 };
  valid = true;
  type = 2;
  major = 0;
  minor = 0;
  nlink = 0;
  size = 1000;
  addrs = λ i. if i == 0 then 4 else 0;
}

one_block-slot : (k : ℕ) → slot one_block small k ≢ 0 → (k ≡ 0) × (slot one_block small k ≡ 4)
unfolding slot
one_block-slot k n = ground arith

one_block-Sound : Sound one_block small
one_block-Sound = record {
  guarded = small-Guarded;
  boot = refl;
  size = omega arith;
  used = λ k h n. ap (marked small) (one_block-slot k n).1;
  inside = λ k h n. (let e = (one_block-slot k n).1 in omega arith);
  plain = λ k c h hc n e. (let f = (one_block-slot k n).1 in absurd (omega (arith, e)));
  apart = λ k l h h' n e. (one_block-slot k n).0 ∙ sym (one_block-slot l (λ z. n (e ∙ z))).0;
}

itrunc_lem_example :
    (r : Inode × Volume) × (itrunc one_block small ≡ done r) × Truncated one_block small r.0 r.1
itrunc_lem_example = itrunc_lem one_block small one_block-Sound
