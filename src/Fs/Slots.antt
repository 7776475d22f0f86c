-- ===== src/Fs/Slots.antt =====
-- The blocks of a file: entries 0 to 11 of `addrs` are of data, entry 12 is the indirect block, and
-- from 13 on stand its entries.
use os_2_course_work.Prelude.{
  ℕ, ◌+◌, ◌-◌, ◌^◌, ◌<◌, ◌≡◌, ◌≢◌, refl, sym, ap, ◌∙◌, true, false, true-false, lt→ltb, Bool-cases,
  ◌⊎◌, inl, inr, ==_iff, ◌==◌, ltb, if◌then◌else◌, arith,
}
use mathlib.Core.Path.{subst}
use os_2_course_work.Fs.{Volume, bblock, ndirect, word}
use os_2_course_work.Fs.Inode.{Inode}
use os_2_course_work.Fs.Marks.{marked, Guarded}

abbrev pub nslots : ℕ
nslots = 269

unfoldable pub slot : Inode → Volume → ℕ → ℕ
slot ip disk k =
    if ltb k 13
    then ip.addrs k
    else if ip.addrs ndirect == 0
    then 0
    else word (disk.blocks (ip.addrs ndirect)) (k - 13)

pub addr-slot : (ip : Inode) (disk : Volume) (k : ℕ) → k < 13 → slot ip disk k ≡ ip.addrs k
unfolding slot
addr-slot ip disk k h = rw (lt→ltb k 13 h) refl

-- A slot of the indirect block.
pub word-slot :
    (ip : Inode) (disk : Volume) (j : ℕ)
    → slot ip disk (13 + j) ≡ (if ip.addrs 12 == 0 then 0 else word (disk.blocks (ip.addrs 12)) j)
unfolding slot
word-slot ip disk j =
    let high : ltb (13 + j) 13 ≡ false = ground arith in
    let back : 13 + j - 13 ≡ j = omega arith in rw (high, back) refl

-- A file whose blocks are in use, not of the bitmap, and all different.
pub record Sound (ip : Inode) (disk : Volume) : Type 0 where
  pub guarded : Guarded disk
  pub boot : marked disk 0 ≡ true
  pub size : disk.sb.size < 2 ^ 32
  pub used : (k : ℕ) → k < nslots → slot ip disk k ≢ 0 → marked disk (slot ip disk k) ≡ true
  pub inside : (k : ℕ) → k < nslots → slot ip disk k ≢ 0 → slot ip disk k < disk.sb.size
  pub plain :
      (k c : ℕ)
      → k < nslots
      → c < disk.sb.size
      → slot ip disk k ≢ 0
      → slot ip disk k ≢ bblock disk.sb c
  pub apart :
      (k l : ℕ)
      → k < nslots
      → l < nslots
      → slot ip disk k ≢ 0
      → slot ip disk k ≡ slot ip disk l
      → k ≡ l

-- The file gets the free block `r` in its empty slot `k`.
pub record Fills (ip : Inode) (disk : Volume) (k r : ℕ) (ip' : Inode) (disk' : Volume)
    : Type 0 where
  pub range : k < nslots
  pub empty : slot ip disk k ≡ 0
  pub within : r < disk.sb.size
  pub free : marked disk r ≡ false
  pub slots : (l : ℕ) → l < nslots → slot ip' disk' l ≡ (if l == k then r else slot ip disk l)
  pub marks : (c : ℕ) → c < disk.sb.size → marked disk' c ≡ (if c == r then true else marked disk c)
  pub sb : disk'.sb ≡ disk.sb
  pub zeroed : (i : ℕ) → disk'.blocks r i ≡ 0
  pub kept :
      (l : ℕ)
      → l < nslots
      → l ≢ 12
      → slot ip disk l ≢ 0
      → disk'.blocks (slot ip disk l) ≡ disk.blocks (slot ip disk l)
  pub same_size : ip'.size ≡ ip.size
  pub same_inum : ip'.inum ≡ ip.inum

-- A slot after `k` is filled with `r`: it is the old one, or it is `k`.
pub Fills-slot :
    (ip : Inode) (disk : Volume) (k r : ℕ) (ip' : Inode) (disk' : Volume)
    → Fills ip disk k r ip' disk'
    → (l : ℕ) → l < nslots
    → ((l ≡ k) × (slot ip' disk' l ≡ r)) ⊎ ((l ≢ k) × (slot ip' disk' l ≡ slot ip disk l))
Fills-slot ip disk k r ip' disk' f l h = elim (Bool-cases (l == k)) [
  | inl e ↦ inl ((==_iff l k).0 e, f.slots l h ∙ (rw e refl))
  | inr n ↦ inr (ground arith, f.slots l h ∙ (rw n refl))
]

module _ (ip : Inode) (disk : Volume) (k r : ℕ) (ip' : Inode) (disk' : Volume) (s : Sound ip disk)
    (f : Fills ip disk k r ip' disk') where
  -- A block that was in use is still, and a block that is free was free.
  marked_still : (c : ℕ) → c < disk.sb.size → marked disk c ≡ true → marked disk' c ≡ true
  marked_still c hc h = elim (Bool-cases (c == r)) [
    | inl e ↦ f.marks c hc ∙ (rw e refl)
    | inr n ↦ f.marks c hc ∙ (rw n h)
  ]

  free_before : (c : ℕ) → c < disk.sb.size → marked disk' c ≡ false → marked disk c ≡ false
  free_before c hc h = elim (Bool-cases (marked disk c)) [
    | inl e ↦ absurd (true-false (sym (marked_still c hc e) ∙ h))
    | inr n ↦ n
  ]

  -- No old slot has the new block.
  fresh : (l : ℕ) → l < nslots → slot ip disk l ≢ 0 → slot ip disk l ≢ r
  fresh l h n e = true-false (sym (s.used l h n) ∙ ap (marked disk) e ∙ f.free)

  pub new_ne_zero : r ≢ 0
  new_ne_zero e = true-false (sym s.boot ∙ ap (marked disk) (sym e) ∙ f.free)

  new_marked : marked disk' r ≡ true
  new_marked = let e : (r == r) ≡ true = ground arith in f.marks r f.within ∙ (rw e refl)

  Fills-used : (l : ℕ) → l < nslots → slot ip' disk' l ≢ 0 → marked disk' (slot ip' disk' l) ≡ true
  Fills-used l h n = elim (Fills-slot ip disk k r ip' disk' f l h) [
    | inl (_, e) ↦ ap (marked disk') e ∙ new_marked
    | inr (_, e) ↦
        ap (marked disk') e
        ∙ marked_still (slot ip disk l) (s.inside l h (λ z. n (e ∙ z)))
            (s.used l h (λ z. n (e ∙ z)))
  ]

  old_size : (c : ℕ) → c < disk'.sb.size → c < disk.sb.size
  old_size c = subst (λ x. c < x.size) f.sb

  Fills-inside : (l : ℕ) → l < nslots → slot ip' disk' l ≢ 0 → slot ip' disk' l < disk'.sb.size
  Fills-inside l h n = elim (Fills-slot ip disk k r ip' disk' f l h) [
    | inl (_, e) ↦ rw (e, f.sb) f.within
    | inr (_, e) ↦ rw (e, f.sb) (s.inside l h (λ z. n (e ∙ z)))
  ]

  Fills-plain :
      (l c : ℕ)
      → l < nslots
      → c < disk'.sb.size
      → slot ip' disk' l ≢ 0
      → slot ip' disk' l ≢ bblock disk'.sb c
  Fills-plain l c h hc' n b =
      let hc = old_size c hc' in
      let b' = b ∙ ap (λ x. bblock x c) f.sb in
      elim (Fills-slot ip disk k r ip' disk' f l h) [
        | inl (_, e) ↦ s.guarded r c f.within hc f.free (sym e ∙ b')
        | inr (_, e) ↦ s.plain l c h hc (λ z. n (e ∙ z)) (sym e ∙ b')
      ]

  Fills-apart :
      (l m : ℕ)
      → l < nslots
      → m < nslots
      → slot ip' disk' l ≢ 0
      → slot ip' disk' l ≡ slot ip' disk' m
      → l ≡ m
  Fills-apart l m h h' n e = elim (Fills-slot ip disk k r ip' disk' f l h) [
    | inl (a, x) ↦ elim (Fills-slot ip disk k r ip' disk' f m h') [
      | inl (b, y) ↦ a ∙ sym b
      | inr (_, y) ↦ absurd (fresh m h' (λ z. n (e ∙ y ∙ z)) (sym y ∙ sym e ∙ x))
    ]
    | inr (_, x) ↦ elim (Fills-slot ip disk k r ip' disk' f m h') [
      | inl (_, y) ↦ absurd (fresh l h (λ z. n (x ∙ z)) (sym x ∙ e ∙ y))
      | inr (_, y) ↦ s.apart l m h h' (λ z. n (x ∙ z)) (sym x ∙ e ∙ y)
    ]
  ]

  pub Fills-Sound : Sound ip' disk'
  Fills-Sound = record {
    guarded = λ b c hb hc free e.
        s.guarded b c (old_size b hb) (old_size c hc) (free_before b (old_size b hb) free)
          (e ∙ ap (λ x. bblock x c) f.sb);
    boot = marked_still 0 (let w = f.within in omega arith) s.boot;
    size = rw f.sb s.size;
    used = Fills-used;
    inside = Fills-inside;
    plain = Fills-plain;
    apart = Fills-apart;
  }
