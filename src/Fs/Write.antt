-- ===== src/Fs/Write.antt =====
-- `writei`: the bytes of the file after it.
use os_2_course_work.Prelude.{
  ℕ, ◌+◌, ◌-◌, ◌*◌, ◌<◌, ◌≤◌, ◌≡◌, ◌≢◌, refl, ap, ◌∙◌, true, false, done, ◌==◌, ltb, if◌then◌else◌,
  u32, arith,
}
use os_2_course_work.Str.{Bytes}
use os_2_course_work.Raid.{bsize}
use os_2_course_work.Fs.{Volume, ndirect, nindirect}
use os_2_course_work.Fs.Inode.{Inode, iupdate}
use os_2_course_work.Fs.Content.{Transfer, whole, blit, writei_loop, grown, writei}
use os_2_course_work.Fs.Slots.{slot, Sound}
use os_2_course_work.Fs.Filled.{max_bytes, byte_slot, byte}
use os_2_course_work.Fs.Moved.{Moved}
use os_2_course_work.Fs.Loops.{writei_loop_lem}

-- Saving the inode and its size does not touch what the file has.
saved-Sound :
    (end : ℕ) (ip : Inode) (disk : Volume)
    → Sound ip disk
    → Sound (grown end ip) (iupdate (grown end ip) disk)
unfolding iupdate slot
saved-Sound end ip disk s = record {
  guarded = s.guarded;
  boot = s.boot;
  size = s.size;
  used = s.used;
  inside = s.inside;
  plain = s.plain;
  apart = s.apart;
}

-- What `writei` leaves: `tot` bytes are moved and counted, and those up to `reach` only moved, by a transfer
-- that failed.
pub record Written (copies : ℕ → Transfer) (src : Bytes) (n off : ℕ) (ip : Inode) (disk : Volume)
    (tot : ℕ) (ip' : Inode) (disk' : Volume) : Type 0 where
  pub reach : ℕ
  pub bound : tot ≤ n
  pub reach_from : tot ≤ reach
  pub reach_to : reach ≤ n
  pub near : reach ≤ tot + bsize
  pub exact : ((t : ℕ) → copies t ≡ whole) → reach ≡ tot
  pub sound : Sound ip' disk'
  pub bytes : (x : ℕ) → x < max_bytes → byte ip' disk' x ≡ blit (byte ip disk) off src 0 reach x
  pub present : (x : ℕ) → off ≤ x → x < off + tot → slot ip' disk' (byte_slot x) ≢ 0
  pub size : ip'.size ≡ (if ltb ip.size (off + tot) then off + tot else ip.size)
  pub saved_size : (disk'.dinodes ip'.inum).size ≡ ip'.size
  pub saved_addrs : (disk'.dinodes ip'.inum).addrs ≡ ip'.addrs

writei_run :
    (copies : ℕ → Transfer) (off n : ℕ) (src : Bytes) (ip : Inode) (disk : Volume) (tot end : ℕ)
    (ip1 : Inode) (disk1 : Volume)
    → off ≤ ip.size
    → off + n ≤ max_bytes
    → writei_loop copies n n 0 off src ip disk ≡ done (tot, end, ip1, disk1)
    → writei copies off n src ip disk ≡ done (tot, grown end ip1, iupdate (grown end ip1) disk1)
unfolding writei
writei_run copies off n src ip disk tot end ip1 disk1 h1 h2 e =
    let low : ltb ip.size off ≡ false = ground arith in
    let no_wrap : u32 (off + n) ≡ off + n = omega arith in
    let ordered : ltb (off + n) off ≡ false = ground arith in
    let fits : ltb ((ndirect + nindirect) * bsize) (off + n) ≡ false = ground arith in
    rw (low, no_wrap, ordered, fits, e) refl

Moved-Written :
    (copies : ℕ → Transfer) (src : Bytes) (n off : ℕ) (ip : Inode) (disk : Volume) (tot end : ℕ)
    (ip1 : Inode) (disk1 : Volume)
    → end ≡ off + (tot - 0)
    → Moved copies src n 0 off ip disk tot ip1 disk1
    → Written copies src n off ip disk tot (grown end ip1) (iupdate (grown end ip1) disk1)
unfolding iupdate slot byte
Moved-Written copies src n off ip disk tot end ip1 disk1 at m =
    let all : m.reach - 0 ≡ m.reach = omega arith in
    let at' : end ≡ off + tot = omega arith in
    let self : (ip1.inum == ip1.inum) ≡ true = ground arith in
    record {
      reach = m.reach;
      bound = m.to;
      reach_from = m.reach_from;
      reach_to = m.reach_to;
      near = m.near;
      exact = m.exact;
      sound = saved-Sound end ip1 disk1 m.sound;
      bytes = λ x h. m.bytes x h ∙ ap (λ q. blit (byte ip disk) off src 0 q x) all;
      present = λ x lo hi. m.present x lo (omega arith);
      size =
          ap (λ z. if ltb z end then end else z) m.same_size
          ∙ ap (λ z. if ltb ip.size z then z else ip.size) at';
      saved_size = rw self refl;
      saved_addrs = rw self refl;
    }

-- In a transaction with room for the blocks it logs, `writei` into a file whose blocks are different, in use and not of the bitmap, at an offset within the
-- file and up to `MAXFILE` blocks, returns a count of at most `n`, whatever transfers from the source fail.
-- The bytes of the source up to `reach` are then the bytes of the file from the offset on, where `reach`
-- is at least the count and at most `n` and a block more than the count, and is the count if no transfer
-- fails. The other bytes of the file are as before, its size reaches as far as the count, the inode on
-- disk has the size and the blocks, the blocks of the counted bytes are there, and the blocks of the file
-- are still different, in use and not of the bitmap.
pub writei_lem :
    (copies : ℕ → Transfer) (off n : ℕ) (src : Bytes) (ip : Inode) (disk : Volume)
    → Sound ip disk
    → off ≤ ip.size
    → off + n ≤ max_bytes
    → (r : ℕ × Inode × Volume) × (writei copies off n src ip disk ≡ done r)
      × Written copies src n off ip disk r.0 r.1 r.2
writei_lem copies off n src ip disk s h1 h2 =
    let ((tot, end, ip1, disk1), e, at, m) =
      writei_loop_lem copies n n 0 off src ip disk s (omega arith) (omega arith) (omega arith) in
    (
      (tot, grown end ip1, iupdate (grown end ip1) disk1),
      writei_run copies off n src ip disk tot end ip1 disk1 h1 h2 e,
      Moved-Written copies src n off ip disk tot end ip1 disk1 at m,
    )
