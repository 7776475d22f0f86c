-- ===== src/Fs/Marks.antt =====
-- The bitmap of the blocks as a set: which bits a change of one bit changes.
use os_2_course_work.Prelude.{
  ℕ, ◌+◌, ◌-◌, ◌/◌, ◌%◌, ◌^◌, ◌<◌, ◌≡◌, ◌≢◌, inl, inr, refl, sym, ap, ◌∙◌, Bool, true, false,
  true-false, Bool-cases, ==_iff, ◌==◌, if◌then◌else◌, arith,
}
use os_2_course_work.Str.{poke}
use os_2_course_work.PageTable.{has_flag, with_flag, without_flag}
use os_2_course_work.Fs.{Volume, bpb, bblock, mask, put_block}
use os_2_course_work.Fs.Bits.{
  has_flag-add_self, has_flag-add_ne, has_flag-sub_self, has_flag-sub_ne,
}

-- Whether block `b` is in use.
abbrev pub marked : Volume → ℕ → Bool
marked disk b = has_flag (mask b) (disk.blocks (bblock disk.sb b) (b % bpb / 8))

-- No block of the bitmap is free. The bits of the bitmap from the size on mean nothing.
abbrev pub Guarded : Volume → Type 0
Guarded disk =
    (b c : ℕ) → b < disk.sb.size → c < disk.sb.size → marked disk b ≡ false → b ≢ bblock disk.sb c

-- The bitmap with the byte of block `b` replaced.
abbrev pub change_byte : ℕ → (ℕ → ℕ) → Volume → Volume
change_byte b f disk =
    let d = disk.blocks (bblock disk.sb b) in
    put_block (bblock disk.sb b) (poke d (b % bpb / 8) (f (d (b % bpb / 8)))) disk

pub with_flag-flag :
    (i j e : ℕ)
    → has_flag (2 ^ j) (with_flag (2 ^ i) e) ≡ (if j == i then true else has_flag (2 ^ j) e)
with_flag-flag i j e = elim (Bool-cases (has_flag (2 ^ i) e)) [
  | inl set ↦ elim (Bool-cases (j == i)) [
    | inl same ↦ rw (set, same) (ap (λ k. has_flag (2 ^ k) e) ((==_iff j i).0 same) ∙ set)
    | inr other ↦ rw (set, other) refl
  ]
  | inr clear ↦ elim (Bool-cases (j == i)) [
    | inl same ↦
        rw (clear, same)
          (ap (λ k. has_flag (2 ^ k) (e + 2 ^ i)) ((==_iff j i).0 same)
            ∙ has_flag-add_self i e clear)
    | inr other ↦
        rw (clear, other)
          (has_flag-add_ne i j e (λ x. true-false (sym ((==_iff j i).1 (sym x)) ∙ other)) clear)
  ]
]

pub without_flag-flag :
    (i j e : ℕ)
    → has_flag (2 ^ j) (without_flag (2 ^ i) e) ≡ (if j == i then false else has_flag (2 ^ j) e)
without_flag-flag i j e = elim (Bool-cases (has_flag (2 ^ i) e)) [
  | inr clear ↦ elim (Bool-cases (j == i)) [
    | inl same ↦ rw (clear, same) (ap (λ k. has_flag (2 ^ k) e) ((==_iff j i).0 same) ∙ clear)
    | inr other ↦ rw (clear, other) refl
  ]
  | inl set ↦ elim (Bool-cases (j == i)) [
    | inl same ↦
        rw (set, same)
          (ap (λ k. has_flag (2 ^ k) (e - 2 ^ i)) ((==_iff j i).0 same) ∙ has_flag-sub_self i e set)
    | inr other ↦
        rw (set, other)
          (has_flag-sub_ne i j e (λ x. true-false (sym ((==_iff j i).1 (sym x)) ∙ other)) set)
  ]
]

ne-==_false : (a b : ℕ) → a ≢ b → (a == b) ≡ false
ne-==_false a b h = ground arith

-- A change of the byte of block `b` that gives its bit the value `v` and keeps the other bits.
module _ (f : ℕ → ℕ) (v : Bool) (b : ℕ)
    (bits : (j e : ℕ) → has_flag (2 ^ j) (f e) ≡ (if j == b % 8 then v else has_flag (2 ^ j) e))
    (disk : Volume) where
  at_byte :
      (c : ℕ)
      → bblock disk.sb c ≡ bblock disk.sb b
      → c % bpb / 8 ≡ b % bpb / 8
      → (c == b) ≡ (c % 8 == b % 8)
  at_byte c p q = ground arith

  pub change_byte-marked :
      (c : ℕ) → marked (change_byte b f disk) c ≡ (if c == b then v else marked disk c)
  change_byte-marked c = elim (Bool-cases (bblock disk.sb c == bblock disk.sb b)) [
    | inr other ↦
        let ne : c ≢ b = λ e. true-false (sym ((==_iff _ _).1 (ap (bblock disk.sb) e)) ∙ other) in
        rw (ne-==_false c b ne, other) refl
    | inl same ↦ elim (Bool-cases (c % bpb / 8 == b % bpb / 8)) [
      | inr other ↦
          let ne : c ≢ b =
            λ e. true-false (sym ((==_iff _ _).1 (ap (λ x. x % bpb / 8) e)) ∙ other) in
          rw (ne-==_false c b ne, same, other)
            (ap (λ k. has_flag (mask c) (disk.blocks k (c % bpb / 8))) (sym ((==_iff _ _).0 same)))
      | inl byte ↦
          let p = (==_iff _ _).0 same in
          let q = (==_iff _ _).0 byte in
          rw (at_byte c p q, same, byte)
            (bits (c % 8) (disk.blocks (bblock disk.sb b) (b % bpb / 8))
              ∙ ap (λ e. if c % 8 == b % 8 then v else has_flag (mask c) e)
                  (ap (λ k. disk.blocks k (b % bpb / 8)) (sym p)
                    ∙ ap (disk.blocks (bblock disk.sb c)) (sym q)))
    ]
  ]
