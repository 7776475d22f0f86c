-- ===== src/Fs/Filled.antt =====
-- The bytes of a file, and what a new block leaves of them.
use os_2_course_work.Prelude.{
  ℕ, ◌+◌, ◌/◌, ◌%◌, ◌<◌, ◌≡◌, ◌≢◌, refl, sym, ap, ◌∙◌, true, false, true-false, Bool-cases, inl,
  inr, ==_iff, ◌==◌, ltb, if◌then◌else◌, arith,
}
use os_2_course_work.Raid.{bsize}
use os_2_course_work.Fs.{Volume}
use os_2_course_work.Fs.Inode.{Inode}
use os_2_course_work.Fs.Slots.{nslots, slot, Sound, Fills, Fills-slot, Fills-Sound, new_ne_zero}

-- `MAXFILE * BSIZE`.
abbrev pub max_bytes : ℕ
max_bytes = 274432

-- The slot of the `bn`-th block of data.
abbrev pub data_slot : ℕ → ℕ
data_slot bn = if ltb bn 12 then bn else bn + 1

abbrev pub byte_slot : ℕ → ℕ
byte_slot x = data_slot (x / bsize)

-- The byte at an offset; a hole has zeros.
unfoldable pub byte : Inode → Volume → ℕ → ℕ
byte ip disk x =
    if slot ip disk (byte_slot x) == 0
    then 0
    else disk.blocks (slot ip disk (byte_slot x)) (x % bsize)

pub byte_slot_range : (x : ℕ) → x < max_bytes → byte_slot x < nslots
byte_slot_range x h = ground arith

pub byte_slot_ne : (x : ℕ) → byte_slot x ≢ 12
byte_slot_ne x = ground arith

-- The file has the bytes that it had, in the blocks that it had.
pub record Extends (ip : Inode) (disk : Volume) (ip' : Inode) (disk' : Volume) : Type 0 where
  pub sound : Sound ip' disk'
  pub bytes : (x : ℕ) → x < max_bytes → byte ip' disk' x ≡ byte ip disk x
  pub stays : (k : ℕ) → k < nslots → slot ip disk k ≢ 0 → slot ip' disk' k ≡ slot ip disk k
  pub same_size : ip'.size ≡ ip.size
  pub same_inum : ip'.inum ≡ ip.inum

pub Extends-refl : (ip : Inode) (disk : Volume) → Sound ip disk → Extends ip disk ip disk
Extends-refl ip disk s = record {
  sound = s;
  bytes = λ x h. refl;
  stays = λ k h n. refl;
  same_size = refl;
  same_inum = refl;
}

pub Extends-trans :
    (a : Inode) (c : Volume) (a1 : Inode) (c1 : Volume) (a2 : Inode) (c2 : Volume)
    → Extends a c a1 c1
    → Extends a1 c1 a2 c2
    → Extends a c a2 c2
Extends-trans a c a1 c1 a2 c2 p q = record {
  sound = q.sound;
  bytes = λ x h. q.bytes x h ∙ p.bytes x h;
  stays = λ k h n. q.stays k h (λ z. n (sym (p.stays k h n) ∙ z)) ∙ p.stays k h n;
  same_size = q.same_size ∙ p.same_size;
  same_inum = q.same_inum ∙ p.same_inum;
}

-- The bytes of a block whose number is known.
pub byte_at :
    (ip : Inode) (disk : Volume) (x b : ℕ)
    → slot ip disk (byte_slot x) ≡ b
    → b ≢ 0
    → byte ip disk x ≡ disk.blocks b (x % bsize)
unfolding byte
byte_at ip disk x b e n = let z : (b == 0) ≡ false = ground arith in rw (e, z) refl

pub byte_hole :
    (ip : Inode) (disk : Volume) (x : ℕ) → slot ip disk (byte_slot x) ≡ 0 → byte ip disk x ≡ 0
unfolding byte
byte_hole ip disk x e = let z : (slot ip disk (byte_slot x) == 0) ≡ true = ground arith in rw z refl

module _ (ip : Inode) (disk : Volume) (k r : ℕ) (ip' : Inode) (disk' : Volume) (s : Sound ip disk)
    (f : Fills ip disk k r ip' disk') where
  Fills-bytes : (x : ℕ) → x < max_bytes → byte ip' disk' x ≡ byte ip disk x
  Fills-bytes x h =
      let l = byte_slot x in
      let in_range = byte_slot_range x h in
      elim (Fills-slot ip disk k r ip' disk' f l in_range) [
        | inl (at, e) ↦
            byte_at ip' disk' x r e (new_ne_zero ip disk k r ip' disk' s f)
            ∙ f.zeroed (x % bsize)
            ∙ sym (byte_hole ip disk x (ap (slot ip disk) at ∙ f.empty))
        | inr (_, e) ↦ elim (Bool-cases (slot ip disk l == 0)) [
          | inl z ↦
              let hole = (==_iff _ _).0 z in
              byte_hole ip' disk' x (e ∙ hole) ∙ sym (byte_hole ip disk x hole)
          | inr z ↦
              let n : slot ip disk l ≢ 0 = λ y. true-false (sym ((==_iff _ _).1 y) ∙ z) in
              byte_at ip' disk' x (slot ip disk l) e n
              ∙ ap (λ d. d (x % bsize)) (f.kept l in_range (byte_slot_ne x) n)
              ∙ sym (byte_at ip disk x (slot ip disk l) refl n)
        ]
      ]

  pub Fills-Extends : Extends ip disk ip' disk'
  Fills-Extends = record {
    sound = Fills-Sound ip disk k r ip' disk' s f;
    bytes = Fills-bytes;
    stays = λ l h n. elim (Fills-slot ip disk k r ip' disk' f l h) [
      | inl (at, _) ↦ absurd (n (ap (slot ip disk) at ∙ f.empty))
      | inr (_, e) ↦ e
    ];
    same_size = f.same_size;
    same_inum = f.same_inum;
  }
