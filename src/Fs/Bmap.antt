-- ===== src/Fs/Bmap.antt =====
-- `bmap` finds the block of an offset, or allocates it.
use os_2_course_work.Prelude.{
  ℕ, ◌+◌, ◌-◌, ◌<◌, ◌≡◌, ◌≢◌, refl, sym, ap, ◌∙◌, true, false, Bool-cases, inl, inr, done, ltb→lt,
  ◌==◌, ltb, arith,
}
use os_2_course_work.Fs.{Volume, ndirect, nindirect, word}
use os_2_course_work.Fs.Inode.{Inode, addr_block, word_block, bmap}
use os_2_course_work.Fs.Slots.{slot, Sound, addr-slot, word-slot}
use os_2_course_work.Fs.Filled.{data_slot}
use os_2_course_work.Fs.Direct.{Found, ne_zero, addr_block-Found}
use os_2_course_work.Fs.Indirect.{indirect-Found}

-- `bmap` of a block below `MAXFILE` does not panic. It returns 0, or the block that the file now has
-- there. Either way the file's blocks stay different and in use, the file has the blocks that it had,
-- and each of its bytes is the same, those of a new block being zero.
pub bmap_lem :
    (bn : ℕ) (ip : Inode) (disk : Volume)
    → Sound ip disk
    → bn < 268
    → (r : ℕ × Inode × Volume) × (bmap bn ip disk ≡ done r) × Found ip disk (data_slot bn) r
unfolding bmap
bmap_lem bn ip disk s h = elim (Bool-cases (ltb bn 12)) [
  | inl low ↦ (
    addr_block bn ip disk,
    rw low refl,
    rw low (addr_block-Found ip disk s bn (let l = ltb→lt bn 12 low in omega arith)),
  )
  | inr high ↦
      let in_range : ltb (bn - ndirect) nindirect ≡ true = ground arith in
      let split : 13 + (bn - 12) ≡ bn + 1 = ground arith in
      (
        word_block (bn - ndirect) (addr_block ndirect ip disk),
        rw (high, in_range) refl,
        rw (high, ← split)
            (indirect-Found ip disk (bn - 12) (addr_block 12 ip disk) (ltb→lt _ _ in_range)
              (addr_block-Found ip disk s 12 (omega arith))),
      )
]

-- A block that the file has is found, and nothing changes.
pub bmap_present :
    (bn : ℕ) (ip : Inode) (disk : Volume)
    → bn < 268
    → slot ip disk (data_slot bn) ≢ 0
    → bmap bn ip disk ≡ done (slot ip disk (data_slot bn), ip, disk)
unfolding bmap addr_block word_block
bmap_present bn ip disk h n = elim (Bool-cases (ltb bn 12)) [
  | inl low ↦
      let e = addr-slot ip disk bn (let l = ltb→lt bn 12 low in omega arith) in
      let used : (ip.addrs bn == 0) ≡ false = ne_zero _ (λ z. (rw low at n) (e ∙ z)) in
      rw (low, used) (ap (λ a. done (a, ip, disk)) (sym e))
  | inr high ↦
      let in_range : ltb (bn - ndirect) nindirect ≡ true = ground arith in
      let split : 13 + (bn - 12) ≡ bn + 1 = ground arith in
      let e = word-slot ip disk (bn - 12) in
      let n' : slot ip disk (13 + (bn - 12)) ≢ 0 = rw split (rw high at n) in
      elim (Bool-cases (ip.addrs 12 == 0)) [
        | inl none_there ↦ absurd (n' (e ∙ (rw none_there refl)))
        | inr there ↦
            let e' : slot ip disk (13 + (bn - 12)) ≡ word (disk.blocks (ip.addrs 12)) (bn - 12) =
              e ∙ (rw there refl) in
            let used : (word (disk.blocks (ip.addrs 12)) (bn - 12) == 0) ≡ false =
              ne_zero _ (λ z. n' (e' ∙ z)) in
            rw (high, in_range, there, there, used, ← split) (ap (λ a. done (a, ip, disk)) (sym e'))
      ]
]
