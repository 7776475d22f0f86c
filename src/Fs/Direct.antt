-- ===== src/Fs/Direct.antt =====
-- The blocks in `ip->addrs`: found, or allocated.
use os_2_course_work.Prelude.{
  ℕ, ◌+◌, ◌-◌, ◌*◌, ◌<◌, ◌≡◌, ◌≢◌, refl, sym, ap, ◌∙◌, Bool, true, false, true-false, Bool-cases,
  inl, inr, ltb→lt, ==_iff, ◌==◌, ltb, if◌then◌else◌, arith,
}
use mathlib.Core.Path.{subst}
use os_2_course_work.Str.{Bytes}
use os_2_course_work.Fs.{Volume, word, balloc}
use os_2_course_work.Fs.Inode.{Inode, set_addr, store_addr, addr_block}
use os_2_course_work.Fs.Marks.{marked}
use os_2_course_work.Fs.Alloc.{Allocated, Balloc, balloc_lem}
use os_2_course_work.Fs.Slots.{nslots, slot, Sound, Fills, new_ne_zero, addr-slot, word-slot}
use os_2_course_work.Fs.Filled.{Extends, Extends-refl, Fills-Extends}

-- What a search for the block in slot `k` gives: 0, or the block in that slot now.
pub record Found (ip : Inode) (disk : Volume) (k : ℕ) (r : ℕ × Inode × Volume) : Type 0 where
  pub extends : Extends ip disk r.1 r.2
  pub at : r.0 ≢ 0 → slot r.1 r.2 k ≡ r.0

pub eq_zero : (n : ℕ) → n ≡ 0 → (n == 0) ≡ true
eq_zero n h = ground arith

if_same : (b : Bool) → ◌≡◌ {A = ℕ} (if b then 0 else 0) 0
if_same true = refl
if_same false = refl

pub ne_zero : (n : ℕ) → n ≢ 0 → (n == 0) ≡ false
ne_zero n h = ground arith

words_zero : (d : Bytes) (j : ℕ) → ((i : ℕ) → d i ≡ 0) → word d j ≡ 0
words_zero d j z = rw (z (4 * j), z (4 * j + 1), z (4 * j + 2), z (4 * j + 3)) refl

module _ (ip : Inode) (disk : Volume) (s : Sound ip disk) where
  -- A block that was in use is not changed by an allocation.
  pub kept_block :
      (r : ℕ) (disk' : Volume)
      → Allocated disk r disk'
      → (l : ℕ) → l < nslots
      → slot ip disk l ≢ 0
      → disk'.blocks (slot ip disk l) ≡ disk.blocks (slot ip disk l)
  kept_block r disk' a l h n =
      a.others (slot ip disk l) (λ e. true-false (sym (s.used l h n) ∙ ap (marked disk) e ∙ a.free))
        (s.plain l r h a.within n)

  -- The entries of an indirect block, when slot `k` gets a block.
  word_slots :
      (k r : ℕ) (disk' : Volume)
      → ip.addrs k ≡ 0
      → Allocated disk r disk'
      → (j : ℕ) → 13 + j < nslots
      → slot (set_addr k r ip) disk' (13 + j) ≡ slot ip disk (13 + j)
  word_slots k r disk' e a j h = word-slot (set_addr k r ip) disk' j ∙ elim (Bool-cases (12 == k)) [
    | inl ind ↦
        let z = ap ip.addrs ((==_iff 12 k).0 ind) ∙ e in
        let zero_word = words_zero (disk'.blocks r) j a.zeroed in
        rw (ind, zero_word) (if_same (r == 0) ∙ sym (word-slot ip disk j ∙ (rw (eq_zero _ z) refl)))
    | inr other ↦ elim (Bool-cases (ip.addrs 12 == 0)) [
      | inl none_there ↦ rw (other, none_there) (sym (word-slot ip disk j ∙ (rw none_there refl)))
      | inr there ↦
          let at = addr-slot ip disk 12 (omega arith) in
          let n : slot ip disk 12 ≢ 0 = λ z. true-false (sym (eq_zero _ (sym at ∙ z)) ∙ there) in
          let same =
            ap disk'.blocks (sym at)
            ∙ kept_block r disk' a 12 (omega arith) n
            ∙ ap disk.blocks at in
          rw (other, there) (ap (λ d. word d j) same ∙ sym (word-slot ip disk j ∙ (rw there refl)))
    ]
  ]

  addr-slots :
      (k r : ℕ) (disk' : Volume)
      → k < 13
      → ip.addrs k ≡ 0
      → Allocated disk r disk'
      → (l : ℕ) → l < nslots
      → slot (set_addr k r ip) disk' l ≡ (if l == k then r else slot ip disk l)
  addr-slots k r disk' h e a l h' = elim (Bool-cases (ltb l 13)) [
    | inl low ↦
        let lt = ltb→lt l 13 low in
        addr-slot (set_addr k r ip) disk' l lt
        ∙ ap (λ x. if l == k then r else x) (sym (addr-slot ip disk l lt))
    | inr high ↦
        let ne : (l == k) ≡ false = ground arith in
        let split : 13 + (l - 13) ≡ l = ground arith in
        rw ne (
          subst (λ m. slot (set_addr k r ip) disk' m ≡ slot ip disk m) split
            (word_slots k r disk' e a (l - 13) (omega arith)))
  ]

  addr-Fills :
      (k r : ℕ) (disk' : Volume)
      → k < 13
      → ip.addrs k ≡ 0
      → Allocated disk r disk'
      → Fills ip disk k r (set_addr k r ip) disk'
  addr-Fills k r disk' h e a = record {
    range = omega arith;
    empty = addr-slot ip disk k h ∙ e;
    within = a.within;
    free = a.free;
    slots = λ l h'. addr-slots k r disk' h e a l h';
    marks = a.taken;
    sb = a.sb;
    zeroed = a.zeroed;
    kept = λ l h' ne. kept_block r disk' a l h';
    same_size = refl;
    same_inum = refl;
  }

  pub same_Mapped : (k : ℕ) → Found ip disk k (0, ip, disk)
  same_Mapped k = record { extends = Extends-refl ip disk s; at = λ n. absurd (n refl) }

  -- Whether `balloc` finds a block or not.
  store_addr-Found :
      (k : ℕ) (got : ℕ × Volume)
      → k < 13
      → ip.addrs k ≡ 0
      → Balloc disk got
      → Found ip disk k (store_addr k ip got)
  store_addr-Found k got h e (inl (full, _)) =
      subst (λ g. Found ip disk k (store_addr k ip g)) (sym full) (same_Mapped k)
  store_addr-Found k (r, disk') h e (inr a) =
      let f = addr-Fills k r disk' h e a in
      let z = ne_zero r (new_ne_zero ip disk k r (set_addr k r ip) disk' s f) in
      let self : (k == k) ≡ true = ground arith in
      rw z (record {
        extends = Fills-Extends ip disk k r (set_addr k r ip) disk' s f;
        at = λ n. f.slots k (omega arith) ∙ (rw self refl);
      })

  pub addr_block-Found : (k : ℕ) → k < 13 → Found ip disk k (addr_block k ip disk)
  unfolding addr_block
  addr_block-Found k h = elim (Bool-cases (ip.addrs k == 0)) [
    | inl hole ↦
        rw hole
          (store_addr-Found k (balloc disk) h ((==_iff _ _).0 hole) (balloc_lem disk s.guarded))
    | inr there ↦
        rw there (record { extends = Extends-refl ip disk s; at = λ n. addr-slot ip disk k h })
  ]
