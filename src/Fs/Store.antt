-- ===== src/Fs/Store.antt =====
-- New content for a block of a file: the bytes that change.
use os_2_course_work.Prelude.{
  ℕ, ◌+◌, ◌-◌, ◌/◌, ◌%◌, ◌<◌, ◌≤◌, ◌≡◌, ◌≢◌, refl, sym, ap, ◌∙◌, true, false, true-false,
  Bool-cases, inl, inr, ltb→lt, ==_iff, ◌&&◌, ◌==◌, ltb, leb, if◌then◌else◌, arith,
}
use os_2_course_work.Str.{Bytes}
use os_2_course_work.PageTable.{has_flag}
use os_2_course_work.Raid.{bsize}
use os_2_course_work.Fs.{Volume, bpb, bblock, mask, word, put_block}
use os_2_course_work.Fs.Inode.{Inode}
use os_2_course_work.Fs.Content.{blit}
use os_2_course_work.Fs.Marks.{marked}
use os_2_course_work.Fs.Slots.{nslots, slot, Sound, addr-slot, word-slot}
use os_2_course_work.Fs.Filled.{
  max_bytes, data_slot, byte_slot, byte, byte_at, byte_hole, byte_slot_range,
}

pub blit_at :
    (f g src : Bytes) (off tot m x : ℕ)
    → f x ≡ g x
    → blit f off src tot m x ≡ blit g off src tot m x
blit_at f g src off tot m x e =
    ap (λ y. if leb off x && ltb x (off + m) then src (tot + (x - off)) else y) e

pub blit-blit :
    (f src : Bytes) (off tot m q x : ℕ)
    → blit (blit f off src tot m) (off + m) src (tot + m) q x ≡ blit f off src tot (m + q) x
blit-blit f src off tot m q x = elim (Bool-cases (leb off x)) [
  | inl a ↦ elim (Bool-cases (leb (off + m) x)) [
    | inl b ↦
        let e : tot + m + (x - (off + m)) ≡ tot + (x - off) = ground arith in
        let assoc : off + (m + q) ≡ off + m + q = omega arith in
        let late : ltb x (off + m) ≡ false = ground arith in rw (e, assoc, a, b, late) refl
    | inr b ↦ ground arith
  ]
  | inr a ↦ ground arith
]

data_slot-ne : (a b : ℕ) → (a == b) ≡ false → data_slot a ≢ data_slot b
data_slot-ne a b h = ground arith

module _ (ip : Inode) (disk : Volume) (s : Sound ip disk) (bn addr : ℕ)
    (range : data_slot bn < nslots) (at : slot ip disk (data_slot bn) ≡ addr) (there : addr ≢ 0)
    (d : Bytes) where
  abbrev changed : Volume
  changed = put_block addr d disk

  block_there : slot ip disk (data_slot bn) ≢ 0
  block_there z = there (sym at ∙ z)

  other_block : (b : ℕ) → b ≢ addr → changed.blocks b ≡ disk.blocks b
  other_block b n = let e : (b == addr) ≡ false = ground arith in rw e refl

  not_indirect : slot ip disk 12 ≢ addr
  not_indirect e =
      let k : data_slot bn ≡ 12 =
        s.apart (data_slot bn) 12 range (omega arith) block_there (at ∙ sym e) in
      absurd (ground arith)

  pub changed-slot : (l : ℕ) → slot ip changed l ≡ slot ip disk l
  changed-slot l = elim (Bool-cases (ltb l 13)) [
    | inl low ↦ let lt = ltb→lt l 13 low in addr-slot ip changed l lt ∙ sym (addr-slot ip disk l lt)
    | inr high ↦
        let split : 13 + (l - 13) ≡ l = ground arith in
        let e = addr-slot ip disk 12 (omega arith) in
        ap (slot ip changed) (sym split)
        ∙ word-slot ip changed (l - 13)
        ∙ ap (λ b. if ip.addrs 12 == 0 then 0 else word b (l - 13))
            (other_block (ip.addrs 12) (λ x. not_indirect (e ∙ x)))
        ∙ sym (word-slot ip disk (l - 13))
        ∙ ap (slot ip disk) split
  ]

  changed-marked : (c : ℕ) → c < disk.sb.size → marked changed c ≡ marked disk c
  changed-marked c hc =
      ap (λ b. has_flag (mask c) (b (c % bpb / 8)))
        (other_block (bblock disk.sb c)
          (λ x. s.plain (data_slot bn) c range hc block_there (at ∙ sym x)))

  pub changed-Sound : Sound ip changed
  changed-Sound = record {
    guarded = λ b c hb hc free. s.guarded b c hb hc (sym (changed-marked b hb) ∙ free);
    boot =
        changed-marked 0 (let w = s.inside (data_slot bn) range block_there in omega arith)
        ∙ s.boot;
    size = s.size;
    used = λ k h n.
        ap (marked changed) (changed-slot k)
        ∙ changed-marked (slot ip disk k) (s.inside k h (λ z. n (changed-slot k ∙ z)))
        ∙ s.used k h (λ z. n (changed-slot k ∙ z));
    inside = λ k h n. rw (changed-slot k) (s.inside k h (λ z. n (changed-slot k ∙ z)));
    plain =
        λ k c h hc n e. s.plain k c h hc (λ z. n (changed-slot k ∙ z)) (sym (changed-slot k) ∙ e);
    apart = λ k l h h' n e.
        s.apart k l h h' (λ z. n (changed-slot k ∙ z)) (sym (changed-slot k) ∙ e ∙ changed-slot l);
  }

  -- The bytes of this block are those of `d`, the others are kept.
  pub changed-byte :
      (x : ℕ)
      → x < max_bytes
      → byte ip changed x ≡ (if x / bsize == bn then d (x % bsize) else byte ip disk x)
  changed-byte x h = elim (Bool-cases (x / bsize == bn)) [
    | inl here ↦
        let e : slot ip changed (byte_slot x) ≡ addr =
          changed-slot (byte_slot x)
          ∙ ap (λ k. slot ip disk (data_slot k)) ((==_iff _ _).0 here)
          ∙ at in
        let self : (addr == addr) ≡ true = ground arith in
        rw here (byte_at ip changed x addr e there ∙ (rw self refl))
    | inr away ↦ elim (Bool-cases (slot ip disk (byte_slot x) == 0)) [
      | inl hole ↦
          let z = (==_iff _ _).0 hole in
          rw away
            (byte_hole ip changed x (changed-slot (byte_slot x) ∙ z) ∙ sym (byte_hole ip disk x z))
      | inr used ↦
          let n : slot ip disk (byte_slot x) ≢ 0 =
            λ y. true-false (sym ((==_iff _ _).1 y) ∙ used) in
          let apart : slot ip disk (byte_slot x) ≢ addr = λ e.
            data_slot-ne _ _ away
              (s.apart (byte_slot x) (data_slot bn) (byte_slot_range x h) range n (e ∙ sym at)) in
          rw away (
            byte_at ip changed x _ (changed-slot (byte_slot x)) n
            ∙ ap (λ b. b (x % bsize)) (other_block _ apart)
            ∙ sym (byte_at ip disk x _ refl n))
    ]
  ]

  -- A part of the block that is moved from `src`.
  pub part-byte :
      (off tot m x : ℕ) (src : Bytes)
      → off / bsize ≡ bn
      → m ≤ bsize - off % bsize
      → d ≡ blit (disk.blocks addr) (off % bsize) src tot m
      → x < max_bytes
      → byte ip changed x ≡ blit (byte ip disk) off src tot m x
  part-byte off tot m x src block fits made h =
      changed-byte x h ∙ elim (Bool-cases (x / bsize == bn)) [
        | inr away ↦ rw away (ground arith)
        | inl here ↦
            let b = (==_iff _ _).0 here in
            let old : byte ip disk x ≡ disk.blocks addr (x % bsize) =
              byte_at ip disk x addr (ap (λ k. slot ip disk (data_slot k)) b ∙ at) there in
            let from : leb (off % bsize) (x % bsize) ≡ leb off x = ground arith in
            let to : ltb (x % bsize) (off % bsize + m) ≡ ltb x (off + m) = ground arith in
            let far : x % bsize - off % bsize ≡ x - off = omega arith in
            rw (here, made, old, from, to, far) refl
      ]
