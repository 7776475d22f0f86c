-- ===== src/Fs/Free.antt =====
-- `bfree`, and `balloc` after it.
use os_2_course_work.Prelude.{
  ℕ, ◌%◌, ◌^◌, ◌<◌, ◌≤◌, ◌≡◌, ◌≢◌, ◌⊎◌, inl, inr, refl, sym, ap, ◌∙◌, true, false, done, panic,
  freeing_free_block, true-false, Bool-cases, ltb→lt, ==_iff, ◌==◌, ltb, if◌then◌else◌, arith,
}
use mathlib.Core.Path.{subst}
use os_2_course_work.PageTable.{without_flag}
use os_2_course_work.Fs.{Volume, bpb, bblock, balloc, bfree}
use os_2_course_work.Fs.Marks.{marked, Guarded, change_byte, change_byte-marked, without_flag-flag}
use os_2_course_work.Fs.Alloc.{Allocated, balloc_lem}

-- What giving block `b` back makes of a volume.
pub record Freed (disk : Volume) (b : ℕ) (disk' : Volume) : Type 0 where
  pub given : (c : ℕ) → marked disk' c ≡ (if c == b then false else marked disk c)
  pub others : (c : ℕ) → c ≢ bblock disk.sb b → disk'.blocks c ≡ disk.blocks c
  pub sb : disk'.sb ≡ disk.sb
  pub dinodes : disk'.dinodes ≡ disk.dinodes

bfree_byte :
    (b : ℕ) (disk : Volume)
    → bfree b disk ≡ (
        if marked disk b
        then done (change_byte b (without_flag (2 ^ (b % 8))) disk)
        else panic freeing_free_block)
unfolding bfree
bfree_byte b disk = let bit : b % bpb % 8 ≡ b % 8 = omega arith in rw bit refl

-- `bfree` of a marked block clears its mark and no other and changes no block but the one of the bitmap
-- that has the mark; of a block that is not marked it panics.
pub bfree_lem :
    (b : ℕ) (disk : Volume)
    → ((marked disk b ≡ true) × (d : Volume) × (bfree b disk ≡ done d) × Freed disk b d)
      ⊎ ((marked disk b ≡ false) × (bfree b disk ≡ panic freeing_free_block))
bfree_lem b disk = elim (Bool-cases (marked disk b)) [
  | inr free ↦ inr (free, bfree_byte b disk ∙ (rw free refl))
  | inl used ↦ inl (
    used,
    change_byte b (without_flag (2 ^ (b % 8))) disk,
    bfree_byte b disk ∙ (rw used refl),
    record {
      given =
          change_byte-marked (without_flag (2 ^ (b % 8))) false b (without_flag-flag (b % 8)) disk;
      others = λ c ne. (let e : (c == bblock disk.sb b) ≡ false = ground arith in rw e refl);
      sb = refl;
      dinodes = refl;
    },
  )
]

Freed-Guarded :
    (disk : Volume) (b : ℕ) (d : Volume)
    → Guarded disk
    → ((c : ℕ) → c < disk.sb.size → b ≢ bblock disk.sb c)
    → Freed disk b d
    → Guarded d
Freed-Guarded disk b d guarded plain f x c hx hc free e =
    let hx' : x < disk.sb.size = subst (λ s. x < s.size) f.sb hx in
    let hc' : c < disk.sb.size = subst (λ s. c < s.size) f.sb hc in
    let e' : x ≡ bblock disk.sb c = e ∙ ap (λ s. bblock s c) f.sb in
    elim (Bool-cases (x == b)) [
      | inl same ↦ plain c hc' (sym ((==_iff x b).0 same) ∙ e')
      | inr other ↦ guarded x c hx' hc' (sym (f.given x ∙ rw other refl) ∙ free) e'
    ]

-- Space that is freed is found again: after `bfree` of a marked block below the size that is none of the
-- bitmap's, where no block of the bitmap is free, `balloc` takes a block, and none above the one freed.
pub balloc-bfree :
    (b : ℕ) (disk : Volume)
    → Guarded disk
    → marked disk b ≡ true
    → b < disk.sb.size
    → ((c : ℕ) → c < disk.sb.size → b ≢ bblock disk.sb c)
    → (d : Volume) × (bfree b disk ≡ done d)
      × Allocated d (balloc d).0 (balloc d).1
      × ((balloc d).0 ≤ b)
balloc-bfree b disk guarded used size plain = elim (bfree_lem b disk) [
  | inr (free, e) ↦ absurd (true-false (sym used ∙ free))
  | inl (_, d, e, f) ↦
      let same : (b == b) ≡ true = ground arith in
      let cleared : marked d b ≡ false = f.given b ∙ (rw same refl) in
      elim (balloc_lem d (Freed-Guarded disk b d guarded plain f)) [
        | inl (z, all) ↦ absurd (true-false (sym (all b (rw f.sb size)) ∙ cleared))
        | inr a ↦ (
          d,
          e,
          a,
          elim (Bool-cases (ltb b (balloc d).0)) [
            | inl above ↦ absurd (true-false (sym (a.least b (ltb→lt _ _ above)) ∙ cleared))
            | inr low ↦ ground arith
          ],
        )
      ]
]
