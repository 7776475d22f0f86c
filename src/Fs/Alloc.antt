-- ===== src/Fs/Alloc.antt =====
-- `balloc` takes the least free block, `bfree` gives one back.
use os_2_course_work.Prelude.{
  ℕ, zero, suc, ◌+◌, ◌-◌, ◌*◌, ◌/◌, ◌%◌, ◌^◌, ◌<◌, ◌≤◌, ◌≡◌, ◌≢◌, ◌⊎◌, inl, inr, refl, sym, ap, ◌∙◌,
  true, false, none, some, true-false, Bool-cases, ltb→lt, lt→ltb, ==_iff, ◌==◌, ltb, if◌then◌else◌,
  arith,
}
use os_2_course_work.Str.{Bytes}
use os_2_course_work.PageTable.{has_flag, with_flag}
use os_2_course_work.Fs.{Volume, bpb, bblock, mask, bzero, mark_bit, scan_bits, balloc_loop, balloc}
use os_2_course_work.Fs.Marks.{marked, Guarded, change_byte-marked, with_flag-flag}

-- What taking block `r` makes of a volume.
pub record Allocated (disk : Volume) (r : ℕ) (disk' : Volume) : Type 0 where
  pub within : r < disk.sb.size
  pub free : marked disk r ≡ false
  pub least : (c : ℕ) → c < r → marked disk c ≡ true
  pub taken : (c : ℕ) → c < disk.sb.size → marked disk' c ≡ (if c == r then true else marked disk c)
  pub zeroed : (i : ℕ) → disk'.blocks r i ≡ 0
  pub others : (b : ℕ) → b ≢ r → b ≢ bblock disk.sb r → disk'.blocks b ≡ disk.blocks b
  pub sb : disk'.sb ≡ disk.sb
  pub dinodes : disk'.dinodes ≡ disk.dinodes

-- The first clear bit among `n` from `bi` on, or none below the size.
scan_bits_lem :
    (n size b bi : ℕ) (d : Bytes)
    → ((scan_bits n size b bi d ≡ none)
        × ((j : ℕ) → bi ≤ j → j < bi + n → b + j < size → has_flag (mask j) (d (j / 8)) ≡ true))
      ⊎ ((r : ℕ) × (scan_bits n size b bi d ≡ some r)
          × (bi ≤ r)
          × (r < bi + n)
          × (b + r < size)
          × (has_flag (mask r) (d (r / 8)) ≡ false)
          × ((j : ℕ) → bi ≤ j → j < r → has_flag (mask j) (d (j / 8)) ≡ true))
unfolding scan_bits
scan_bits_lem zero size b bi d = inl (refl, λ j lo hi h. absurd (omega arith))
scan_bits_lem (suc n) size b bi d = elim (Bool-cases (ltb (b + bi) size)) [
  | inr out ↦ inl (
    rw out refl,
    λ j lo hi h. absurd (let x = lt→ltb (b + bi) size (omega arith) in true-false (sym x ∙ out)),
  )
  | inl in_size ↦ elim (Bool-cases (has_flag (mask bi) (d (bi / 8)))) [
    | inr clear ↦ inr (
      bi,
      rw (in_size, clear) refl,
      omega arith,
      omega arith,
      ltb→lt _ _ in_size,
      clear,
      λ j lo hi. absurd (omega arith),
    )
    | inl set ↦
        let here = λ (j : ℕ) (e : j ≡ bi). ap (λ k. has_flag (mask k) (d (k / 8))) e ∙ set in
        elim (scan_bits_lem n size b (bi + 1) d) [
          | inl (e, all) ↦ inl (
            rw (in_size, set) e,
            λ j lo hi h. elim (Bool-cases (j == bi)) [
              | inl same ↦ here j ((==_iff j bi).0 same)
              | inr other ↦ all j (ground arith) (omega arith) h
            ],
          )
          | inr (r, e, lo, hi, size_r, clear, all) ↦ inr (
            r,
            rw (in_size, set) e,
            omega arith,
            omega arith,
            size_r,
            clear,
            λ j lo' hi'. elim (Bool-cases (j == bi)) [
              | inl same ↦ here j ((==_iff j bi).0 same)
              | inr other ↦ all j (ground arith) hi'
            ],
          )
        ]
  ]
]

abbrev allocate : ℕ → Volume → Volume
allocate r disk = bzero r (mark_bit (bblock disk.sb r) (r % bpb) disk)

module _ (disk : Volume) (guarded : Guarded disk) (r : ℕ) (within : r < disk.sb.size)
    (free : marked disk r ≡ false) where
  allocate-taken :
      (c : ℕ)
      → c < disk.sb.size
      → marked (allocate r disk) c ≡ (if c == r then true else marked disk c)
  unfolding bzero
  allocate-taken c h =
      let bit : r % bpb % 8 ≡ r % 8 = omega arith in
      let apart : (bblock disk.sb c == r) ≡ false =
        let ne = guarded r c within h free in ground arith in
      rw (apart, bit)
        (change_byte-marked (with_flag (2 ^ (r % 8))) true r (with_flag-flag (r % 8)) disk c)

  allocate-others :
      (b : ℕ) → b ≢ r → b ≢ bblock disk.sb r → (allocate r disk).blocks b ≡ disk.blocks b
  unfolding bzero
  allocate-others b p q =
      let e : (b == r) ≡ false = ground arith in
      let f : (b == bblock disk.sb r) ≡ false = ground arith in rw (e, f) refl

  allocate-Allocated : ((c : ℕ) → c < r → marked disk c ≡ true) → Allocated disk r (allocate r disk)
  unfolding bzero
  allocate-Allocated least = record {
    within = within;
    free = free;
    least = least;
    taken = allocate-taken;
    zeroed = λ i. (let e : (r == r) ≡ true = ground arith in rw e refl);
    others = allocate-others;
    sb = refl;
    dinodes = refl;
  }

-- What `balloc` may do.
abbrev pub Balloc : Volume → ℕ × Volume → Type 0
Balloc disk r =
    ((r ≡ (0, disk)) × ((c : ℕ) → c < disk.sb.size → marked disk c ≡ true)) ⊎ Allocated disk r.0 r.1

-- A bit of the block of the bitmap for `8192 q`.
block-marked :
    (disk : Volume) (q j : ℕ)
    → j < bpb
    → marked disk (bpb * q + j) ≡ has_flag (mask j) (disk.blocks (bblock disk.sb (bpb * q)) (j / 8))
block-marked disk q j h =
    let low : (bpb * q + j) % bpb ≡ j = omega arith in
    let bit : (bpb * q + j) % 8 ≡ j % 8 = omega arith in
    let high : (bpb * q + j) / bpb ≡ bpb * q / bpb = omega arith in rw (low, bit, high) refl

-- Every block before the first `k` of a block of the bitmap is marked, if these are and those before.
all_marked :
    (disk : Volume) (q k : ℕ)
    → ((c : ℕ) → c < bpb * q → c < disk.sb.size → marked disk c ≡ true)
    → k ≤ bpb
    → ((j : ℕ)
        → 0 ≤ j
        → j < k
        → bpb * q + j < disk.sb.size
        → has_flag (mask j) (disk.blocks (bblock disk.sb (bpb * q)) (j / 8)) ≡ true)
    → (c : ℕ) → c < bpb * q + k
    → c < disk.sb.size
    → marked disk c ≡ true
all_marked disk q k before hi all c lt h = elim (Bool-cases (ltb c (bpb * q))) [
  | inl early ↦ before c (ltb→lt _ _ early) h
  | inr here ↦
      let j = c - bpb * q in
      let back : bpb * q + j ≡ c = ground arith in
      ap (marked disk) (sym back)
      ∙ block-marked disk q j (omega arith)
      ∙ all j (omega arith) (omega arith) (omega arith)
]

balloc_loop_lem :
    (n q : ℕ) (disk : Volume)
    → Guarded disk
    → disk.sb.size ≤ bpb * (q + n)
    → ((c : ℕ) → c < bpb * q → c < disk.sb.size → marked disk c ≡ true)
    → Balloc disk (balloc_loop n (bpb * q) disk)
unfolding balloc_loop
balloc_loop_lem zero q disk guarded size before = inl (refl, λ c h. before c (omega arith) h)
balloc_loop_lem (suc n) q disk guarded size before =
    let d = disk.blocks (bblock disk.sb (bpb * q)) in
    elim (scan_bits_lem bpb disk.sb.size (bpb * q) 0 d) [
      | inl (e, all) ↦
          let next : bpb * q + bpb ≡ bpb * (q + 1) = omega arith in
          rw (e, balloc_loop, next)
            (balloc_loop_lem n (q + 1) disk guarded (omega arith)
              (λ c hi h. all_marked disk q bpb before (omega arith) all c (omega arith) h))
      | inr (r, e, lo, hi, size_r, clear, all) ↦
          let block : bblock disk.sb (bpb * q + r) ≡ bblock disk.sb (bpb * q) =
            ap (λ k. k + disk.sb.bmapstart) (omega arith) in
          let low : (bpb * q + r) % bpb ≡ r = omega arith in
          rw (e, balloc_loop)
            (inr (
              rw (block, low) at
                (allocate-Allocated disk guarded (bpb * q + r) size_r
                  (block-marked disk q r hi ∙ clear)
                  (λ c lt.
                    all_marked disk q r before (omega arith) (λ j l m s. all j l m) c lt
                      (omega arith)))))
    ]

-- `balloc` either finds every block in use, returns 0 and changes nothing, or takes the least free
-- block: it marks this block and no other, fills it with zeros, and changes no further block, where no
-- block of the bitmap itself is marked as free.
pub balloc_lem : (disk : Volume) → Guarded disk → Balloc disk (balloc disk)
unfolding balloc
balloc_lem disk guarded =
    balloc_loop_lem ((disk.sb.size + bpb - 1) / bpb) 0 disk guarded (omega arith)
      (λ c h. absurd (omega arith))
