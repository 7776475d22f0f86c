-- ===== src/Fs/Read.antt =====
-- `readi` of blocks that are there, and after `writei`.
use os_2_course_work.Prelude.{
  ℕ, zero, suc, ◌+◌, ◌-◌, ◌/◌, ◌%◌, ◌<◌, ◌≤◌, ◌≡◌, ◌≢◌, refl, sym, ap, ◌∙◌, true, false, Bool-cases,
  inl, inr, ltb→lt, done_done, done, ◌&&◌, ◌==◌, ltb, leb, if◌then◌else◌, u32, ◌>>=◌, arith,
}
use mathlib.Core.Path.{subst}
use os_2_course_work.Str.{Bytes}
use os_2_course_work.Raid.{bsize}
use os_2_course_work.Fs.{Volume}
use os_2_course_work.Fs.Inode.{Inode, bmap}
use os_2_course_work.Fs.Content.{Transfer, blit, part, readi_loop, readi, writei}
use os_2_course_work.Fs.Slots.{slot, Sound}
use os_2_course_work.Fs.Filled.{max_bytes, data_slot, byte_slot, byte, byte_at}
use os_2_course_work.Fs.Store.{blit-blit, blit_at}
use os_2_course_work.Fs.Bmap.{bmap_present}
use os_2_course_work.Fs.Directory.{kernel_copies}
use os_2_course_work.Fs.Write.{Written, writei_lem}

-- The bytes of a part of one block are bytes of the file.
blit-byte :
    (dst : Bytes) (tot off m i b : ℕ) (ip : Inode) (disk : Volume)
    → slot ip disk (byte_slot off) ≡ b
    → b ≢ 0
    → m ≤ bsize - off % bsize
    → blit dst tot (disk.blocks b) (off % bsize) m i ≡ blit dst tot (byte ip disk) off m i
blit-byte dst tot off m i b ip disk e there h = elim (Bool-cases (leb tot i && ltb i (tot + m))) [
  | inr out ↦ rw out refl
  | inl in_part ↦
      let x = off + (i - tot) in
      let same : x / bsize ≡ off / bsize = ground arith in
      let at : off % bsize + (i - tot) ≡ x % bsize = ground arith in
      rw (in_part, at)
        (sym (byte_at ip disk x b (ap (λ k. slot ip disk (data_slot k)) same ∙ e) there))
]

-- A round that finds its block.
loop_there :
    (n k tot off : ℕ) (dst : Bytes) (ip : Inode) (disk : Volume) (b : ℕ)
    → ltb tot n ≡ true
    → bmap (off / bsize) ip disk ≡ done (b, ip, disk)
    → (b == 0) ≡ false
    → readi_loop kernel_copies n (suc k) tot off dst ip disk
      ≡ readi_loop kernel_copies n k
          (tot + part n tot off)
          (off + part n tot off)
          (blit dst tot (disk.blocks b) (off % bsize) (part n tot off))
          ip
          disk
unfolding readi_loop
loop_there n k tot off dst ip disk b more e there = rw (more, readi_loop, e, ◌>>=◌, there) refl

readi_loop_lem :
    (n k tot off : ℕ) (dst : Bytes) (ip : Inode) (disk : Volume)
    → tot ≤ n
    → n - tot ≤ k
    → off + (n - tot) ≤ max_bytes
    → ((x : ℕ) → off ≤ x → x < off + (n - tot) → slot ip disk (byte_slot x) ≢ 0)
    → (dst' : Bytes) × (readi_loop kernel_copies n k tot off dst ip disk ≡ done (n, dst', ip, disk))
      × ((i : ℕ) → dst' i ≡ blit dst tot (byte ip disk) off (n - tot) i)
unfolding readi_loop
readi_loop_lem n zero tot off dst ip disk h1 h2 h3 p =
    let e : tot ≡ n = omega arith in (dst, ap (λ t. done (t, dst, ip, disk)) e, λ i. ground arith)
readi_loop_lem n (suc k) tot off dst ip disk h1 h2 h3 p = elim (Bool-cases (ltb tot n)) [
  | inr end ↦
      let e : tot ≡ n = ground arith in
      (dst, rw (end, readi_loop) (ap (λ t. done (t, dst, ip, disk)) e), λ i. ground arith)
  | inl more ↦
      let lt = ltb→lt tot n more in
      let b = slot ip disk (byte_slot off) in
      let there : b ≢ 0 = p off (omega arith) (omega arith) in
      let there' : (b == 0) ≡ false = ground arith in
      let m = part n tot off in
      let fit : (1 ≤ m) × (m ≤ n - tot) × (m ≤ bsize - off % bsize) = ground arith in
      let next = blit dst tot (disk.blocks b) (off % bsize) m in
      let (dst', e, at) =
        readi_loop_lem n k (tot + m) (off + m) next ip disk (omega arith) (omega arith)
          (omega arith) (λ x lo hi. p x (omega arith) (omega arith)) in
      (
        dst',
        loop_there n k tot off dst ip disk b more
              (bmap_present (off / bsize) ip disk (omega arith) there) there'
            ∙ e,
        λ i.
            at i
            ∙ blit_at next (blit dst tot (byte ip disk) off m) (byte ip disk) (tot + m) (off + m)
                (n - (tot + m)) i (blit-byte dst tot off m i b ip disk refl there fit.2)
            ∙ blit-blit dst (byte ip disk) tot off m (n - (tot + m)) i
            ∙ ap (λ q. blit dst tot (byte ip disk) off q i) (let f = fit.1 in omega arith),
      )
]

readi_run :
    (off n : ℕ) (dst : Bytes) (ip : Inode) (disk : Volume)
    → off + n ≤ ip.size
    → off + n ≤ max_bytes
    → readi kernel_copies off n dst ip disk ≡ readi_loop kernel_copies n n 0 off dst ip disk
unfolding readi
readi_run off n dst ip disk h1 h2 =
    let low : ltb ip.size off ≡ false = ground arith in
    let no_wrap : u32 (off + n) ≡ off + n = omega arith in
    let ordered : ltb (off + n) off ≡ false = ground arith in
    let within : ltb ip.size (off + n) ≡ false = ground arith in
    rw (low, no_wrap, ordered, within) refl

-- The bytes delivered are those that were moved into the file.
moved_back :
    (f g src dst : Bytes) (off n i : ℕ)
    → ((x : ℕ) → x < off + n → g x ≡ blit f off src 0 n x)
    → blit dst 0 g off n i ≡ (if ltb i n then src i else dst i)
moved_back f g src dst off n i e = elim (Bool-cases (ltb i n)) [
  | inl in_range ↦
      let lt = ltb→lt i n in_range in
      let a : leb 0 i ≡ true = ground arith in
      let b : ltb i (0 + n) ≡ true = ground arith in
      let lo : leb off (off + (i - 0)) ≡ true = ground arith in
      let hi : ltb (off + (i - 0)) (off + n) ≡ true = ground arith in
      let back : 0 + (off + (i - 0) - off) ≡ i = omega arith in
      rw (in_range, a, b) (e (off + (i - 0)) (omega arith) ∙ (rw (lo, hi, back) refl))
  | inr out ↦ let b : ltb i (0 + n) ≡ false = ground arith in rw (out, b) (ground arith)
]

-- `readi` of `n` bytes that lie within the size and whose blocks are all there gives them, and changes
-- neither the inode nor the disk.
pub readi_lem :
    (off n : ℕ) (dst : Bytes) (ip : Inode) (disk : Volume)
    → off + n ≤ ip.size
    → off + n ≤ max_bytes
    → ((x : ℕ) → off ≤ x → x < off + n → slot ip disk (byte_slot x) ≢ 0)
    → (dst' : Bytes) × (readi kernel_copies off n dst ip disk ≡ done (n, dst', ip, disk))
      × ((i : ℕ) → dst' i ≡ blit dst 0 (byte ip disk) off n i)
readi_lem off n dst ip disk h1 h2 p =
    let all : n - 0 ≡ n = omega arith in
    let (dst', e, at) =
      readi_loop_lem n n 0 off dst ip disk (omega arith) (omega arith) (omega arith)
        (λ x lo hi. p x lo (omega arith)) in
    (
      dst',
      readi_run off n dst ip disk h1 h2 ∙ e,
      λ i. at i ∙ ap (λ q. blit dst 0 (byte ip disk) off q i) all,
    )

-- What `writei` wrote is what `readi` reads, in a file whose blocks are different, in use and not of the
-- bitmap: after a `writei` of `n` bytes that returned `n`, at an offset within the file and up to `MAXFILE`
-- blocks, `readi` of the same range returns `n`, delivers the bytes of the source and no others, and
-- changes neither the inode nor the disk.
pub readi-writei :
    (copies : ℕ → Transfer) (off n : ℕ) (src dst : Bytes) (ip : Inode) (disk : Volume) (ip' : Inode)
    (disk' : Volume)
    → Sound ip disk
    → off ≤ ip.size
    → off + n ≤ max_bytes
    → writei copies off n src ip disk ≡ done (n, ip', disk')
    → (dst' : Bytes) × (readi kernel_copies off n dst ip' disk' ≡ done (n, dst', ip', disk'))
      × ((i : ℕ) → dst' i ≡ (if ltb i n then src i else dst i))
readi-writei copies off n src dst ip disk ip' disk' s h1 h2 h =
    let (r, e, w0) = writei_lem copies off n src ip disk s h1 h2 in
    let same : r ≡ (n, ip', disk') = done_done (sym e ∙ h) in
    let w = subst (λ r. Written copies src n off ip disk r.0 r.1 r.2) same w0 in
    let lo = w.reach_from in
    let hi = w.reach_to in
    let all_moved : w.reach ≡ n = omega (arith, lo, hi) in
    let (dst', e', at) =
      readi_lem off n dst ip' disk' (let z = w.size in ground arith) h2 w.present in
    (
      dst',
      e',
      λ i.
          at i
          ∙ moved_back (byte ip disk) (byte ip' disk') src dst off n i (λ x lt.
            w.bytes x (omega arith) ∙ ap (λ q. blit (byte ip disk) off src 0 q x) all_moved),
    )
