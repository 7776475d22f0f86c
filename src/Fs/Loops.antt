-- ===== src/Fs/Loops.antt =====
-- The loop of `writei` ends, and what it has moved then.
use os_2_course_work.Prelude.{
  ℕ, zero, suc, ◌+◌, ◌-◌, ◌/◌, ◌%◌, ◌<◌, ◌≤◌, ◌≡◌, ◌≢◌, ◌⊎◌, min, refl, sym, ◌∙◌, true, false,
  true-false, Bool-cases, inl, inr, ltb→lt, ==_iff, done, ◌==◌, ltb, ◌>>=◌, arith,
}
use os_2_course_work.Str.{Bytes}
use os_2_course_work.Raid.{bsize}
use os_2_course_work.Fs.{Volume, put_block}
use os_2_course_work.Fs.Inode.{Inode, bmap}
use os_2_course_work.Fs.Content.{Transfer, whole, stopped, blit, part, writei_loop}
use os_2_course_work.Fs.Slots.{Sound}
use os_2_course_work.Fs.Filled.{max_bytes, data_slot, Extends-refl}
use os_2_course_work.Fs.Direct.{Found}
use os_2_course_work.Fs.Bmap.{bmap_lem}
use os_2_course_work.Fs.Moved.{Moved, Moved-none, part_fits, moved-Sound, Moved-part, Moved-round}

-- What `writei_loop` gives: the end in the source and in the file, the inode and the disk.
abbrev pub Result : Type 0
Result = ℕ × ℕ × Inode × Volume

-- The loop ends, with what it moved.
abbrev pub Loops : (ℕ → Transfer) → ℕ → ℕ → ℕ → ℕ → Bytes → Inode → Volume → Type 0
Loops copies n k tot off src ip disk =
    (r : Result) × (writei_loop copies n k tot off src ip disk ≡ done r)
    × (r.1 ≡ off + (r.0 - tot))
    × Moved copies src n tot off ip disk r.0 r.2 r.3

transfer-cases : (t : Transfer) → (t ≡ whole) ⊎ ((q : ℕ) × (t ≡ stopped q))
transfer-cases whole = inl refl
transfer-cases (stopped q) = inr (q, refl)

-- The three ways in which a round goes on after `bmap`.
module _ (copies : ℕ → Transfer) (n k tot off : ℕ) (src : Bytes) (ip : Inode) (disk : Volume)
    (addr : ℕ) (ip1 : Inode) (disk1 : Volume) (more : ltb tot n ≡ true)
    (e : bmap (off / bsize) ip disk ≡ done (addr, ip1, disk1)) where
  loop_full :
      (addr == 0) ≡ true
      → writei_loop copies n (suc k) tot off src ip disk ≡ done (tot, off, ip1, disk1)
  unfolding writei_loop
  loop_full full = rw (more, writei_loop, e, ◌>>=◌, full) refl

  loop_fails :
      (q : ℕ)
      → (addr == 0) ≡ false
      → copies tot ≡ stopped q
      → writei_loop copies n (suc k) tot off src ip disk
        ≡ done (
          tot,
          off,
          ip1,
          put_block addr
              (blit (disk1.blocks addr) (off % bsize) src tot (min q (part n tot off)))
              disk1,
        )
  unfolding writei_loop
  loop_fails q found fails = rw (more, writei_loop, e, ◌>>=◌, found, fails) refl

  loop_copied :
      (addr == 0) ≡ false
      → copies tot ≡ whole
      → writei_loop copies n (suc k) tot off src ip disk
        ≡ writei_loop copies n k
            (tot + part n tot off)
            (off + part n tot off)
            src
            ip1
            (put_block addr (blit (disk1.blocks addr) (off % bsize) src tot (part n tot off)) disk1)
  unfolding writei_loop
  loop_copied found copied = rw (more, writei_loop, e, ◌>>=◌, found, copied) refl

  -- A round, if the loop does the rest.
  round_lem :
      tot < n
      → off + (n - tot) ≤ max_bytes
      → Found ip disk (data_slot (off / bsize)) (addr, ip1, disk1)
      → (Sound ip1
            (put_block addr (blit (disk1.blocks addr) (off % bsize) src tot (part n tot off)) disk1)
          → (1 ≤ part n tot off)
            × (part n tot off ≤ n - tot)
            × (part n tot off ≤ bsize - off % bsize)
          → Loops copies n k (tot + part n tot off) (off + part n tot off) src ip1 (
              put_block addr
                (blit (disk1.blocks addr) (off % bsize) src tot (part n tot off))
                disk1))
      → Loops copies n (suc k) tot off src ip disk
  round_lem lt h3 m others = elim (Bool-cases (addr == 0)) [
    | inl full ↦ (
      (tot, off, ip1, disk1),
      loop_full full,
      omega arith,
      Moved-none copies src n tot off ip disk ip1 disk1 (omega arith) m.extends,
    )
    | inr found ↦
        let there : addr ≢ 0 = λ z. true-false (sym ((==_iff _ _).1 z) ∙ found) in
        let fit = part_fits n tot off lt in
        elim (transfer-cases (copies tot)) [
          | inr (q, fails) ↦
              let len = min q (part n tot off) in
              let less : len ≤ part n tot off = ground arith in
              (
                (
                  tot,
                  off,
                  ip1,
                  put_block addr (blit (disk1.blocks addr) (off % bsize) src tot len) disk1,
                ),
                loop_fails q found fails,
                omega arith,
                Moved-part copies src n tot off len ip disk addr ip1 disk1 lt h3
                    (omega (arith, fit.1)) (omega (arith, fit.2)) m there q fails,
              )
          | inl copied ↦
              let (r, e', at, rest) =
                others
                  (moved-Sound copies src n tot off (part n tot off) ip disk addr ip1 disk1 lt h3
                    fit.1 fit.2 m there)
                  fit in
              let from = rest.from in
              (
                r,
                loop_copied found copied ∙ e',
                omega (arith, at, fit.0),
                Moved-round copies src n tot off (part n tot off) ip disk addr ip1 disk1 lt h3 fit.1
                    fit.2 m there r.0 r.2 r.3 rest,
              )
        ]
  ]

pub writei_loop_lem :
    (copies : ℕ → Transfer) (n k tot off : ℕ) (src : Bytes) (ip : Inode) (disk : Volume)
    → Sound ip disk
    → tot ≤ n
    → n - tot ≤ k
    → off + (n - tot) ≤ max_bytes
    → Loops copies n k tot off src ip disk
unfolding writei_loop
writei_loop_lem copies n zero tot off src ip disk s h1 h2 h3 = (
  (tot, off, ip, disk),
  refl,
  omega arith,
  Moved-none copies src n tot off ip disk ip disk h1 (Extends-refl ip disk s),
)
writei_loop_lem copies n (suc k) tot off src ip disk s h1 h2 h3 = elim (Bool-cases (ltb tot n)) [
  | inr end ↦ (
    (tot, off, ip, disk),
    rw (end, writei_loop) refl,
    omega arith,
    Moved-none copies src n tot off ip disk ip disk h1 (Extends-refl ip disk s),
  )
  | inl more ↦
      let ((addr, ip1, disk1), e, m) =
        bmap_lem (off / bsize) ip disk s (let lt = ltb→lt tot n more in omega arith) in
      round_lem copies n k tot off src ip disk addr ip1 disk1 more e (ltb→lt tot n more) h3 m
        (λ s1 fit.
          writei_loop_lem copies n k (tot + part n tot off) (off + part n tot off) src ip1 _ s1
            (let f = fit.1 in omega arith) (let f = fit.0 in omega arith)
            (let f = fit.1 in omega arith))
]
