-- ===== src/Fs/Trunc.antt =====
-- `itrunc` gives back all blocks of a file.
use os_2_course_work.Prelude.{
  ℕ, ◌+◌, ◌-◌, ◌<◌, ◌≡◌, ◌≢◌, refl, sym, ap, ◌∙◌, Bool, true, false, ◌||◌, true-false, Bool-cases,
  inl, inr, done, ==_iff, ◌==◌, ltb, ◌>>=◌, arith,
}
use os_2_course_work.Fs.{Volume, ndirect, nindirect, bfree}
use os_2_course_work.Fs.Inode.{
  Inode, set_addr, iupdate, free_addrs, free_words, free_indirect, itrunc,
}
use os_2_course_work.Fs.Marks.{marked}
use os_2_course_work.Fs.Slots.{nslots, slot, Sound, addr-slot, word-slot}
use os_2_course_work.Fs.Freeing.{Freeing, Freeing-start, Freeing-same, free_slot}
use os_2_course_work.Fs.Clear.{
  Cleared, first, words_to, set-Cleared, skip-Cleared, ind_slot, free_addrs_lem, free_words_lem,
}

abbrev every : ℕ → Bool
every k = true

no_words :
    (ip : Inode) (disk : Volume)
    → ip.addrs 12 ≡ 0
    → (k : ℕ) → slot ip disk k ≢ 0
    → every k ≡ first 12 k
no_words ip disk e k n = elim (Bool-cases (ltb k 12)) [
  | inl low ↦ sym low
  | inr high ↦ elim (Bool-cases (k == 12)) [
    | inl at ↦
        absurd (n (ap (slot ip disk) ((==_iff k 12).0 at) ∙ addr-slot ip disk 12 (omega arith) ∙ e))
    | inr above ↦
        let split : 13 + (k - 13) ≡ k = ground arith in
        let z : (ip.addrs 12 == 0) ≡ true = ground arith in
        absurd (n (ap (slot ip disk) (sym split) ∙ word-slot ip disk (k - 13) ∙ (rw z refl)))
  ]
]

free_indirect_run :
    (ip : Inode) (d d1 d2 : Volume)
    → (ip.addrs 12 == 0) ≡ false
    → free_words nindirect 0 (ip.addrs 12) d ≡ done d1
    → bfree (ip.addrs 12) d1 ≡ done d2
    → free_indirect ip d ≡ done (set_addr 12 0 ip, d2)
unfolding free_indirect
free_indirect_run ip d d1 d2 there e1 e2 = rw (there, e1, ◌>>=◌, e2) refl

free_indirect_lem :
    (ip0 : Inode) (disk : Volume) (ip : Inode) (d : Volume)
    → Sound ip0 disk
    → Cleared ip0 12 ip
    → Freeing ip0 disk (first 12) d
    → (r : Inode × Volume) × (free_indirect ip d ≡ done r)
      × Cleared ip0 13 r.0
      × Freeing ip0 disk every r.1
unfolding free_indirect
free_indirect_lem ip0 disk ip d s c f =
    let at = c.rest 12 (omega arith) in
    elim (Bool-cases (ip.addrs 12 == 0)) [
      | inl hole ↦
          let z = (==_iff _ _).0 hole in
          (
            (ip, d),
            rw hole refl,
            skip-Cleared ip0 12 ip z c,
            Freeing-same ip0 disk (first 12) every d (λ k h n. no_words ip0 disk (sym at ∙ z) k n)
                f,
          )
      | inr used ↦
          let there : ip0.addrs 12 ≢ 0 = λ z. true-false (sym ((==_iff _ _).1 (at ∙ z)) ∙ used) in
          let ind = ind_slot ip0 disk s there in
          let f0 = Freeing-same ip0 disk (first 12) (words_to 0) d (λ k h n. ground arith) f in
          let (d1, e1, f1) = free_words_lem ip0 disk s there nindirect 0 d (omega arith) f0 in
          let (d2, e2, f2) =
            free_slot ip0 disk s (words_to nindirect) d1 f1 12 (omega arith)
              (λ z. there (sym ind ∙ z)) refl in
          (
            (set_addr 12 0 ip, d2),
            free_indirect_run ip d d1 d2 used (ap (λ b. free_words nindirect 0 b d) at ∙ e1)
                (ap (λ b. bfree b d1) (at ∙ sym ind) ∙ e2),
            set-Cleared ip0 12 ip c,
            Freeing-same ip0 disk (λ k. k == 12 || words_to nindirect k) every d2
                (λ k h n. ground arith) f2,
          )
    ]

-- What `itrunc` leaves of a file.
pub record Truncated (ip : Inode) (disk : Volume) (ip' : Inode) (disk' : Volume) : Type 0 where
  pub freed : (k : ℕ) → k < nslots → slot ip disk k ≢ 0 → marked disk' (slot ip disk k) ≡ false
  pub others :
      (c : ℕ)
      → c < disk.sb.size
      → ((k : ℕ) → k < nslots → slot ip disk k ≢ 0 → slot ip disk k ≢ c)
      → marked disk' c ≡ marked disk c
  pub no_addrs : (k : ℕ) → k < 13 → ip'.addrs k ≡ 0
  pub no_size : ip'.size ≡ 0
  pub saved_addrs : (k : ℕ) → k < 13 → (disk'.dinodes ip.inum).addrs k ≡ 0
  pub saved_size : (disk'.dinodes ip.inum).size ≡ 0
  pub dinodes_kept : (i : ℕ) → i ≢ ip.inum → disk'.dinodes i ≡ disk.dinodes i

emptied-Truncated :
    (ip : Inode) (disk : Volume) (ip1 : Inode) (d : Volume)
    → Cleared ip 13 ip1
    → Freeing ip disk every d
    → Truncated ip disk (record ip1 { size = 0 }) (iupdate (record ip1 { size = 0 }) d)
unfolding iupdate
emptied-Truncated ip disk ip1 d c f =
    let self : (ip.inum == ip.inum) ≡ true = ground arith in
    let same = c.same_inum in
    record {
      freed = λ k h n. f.freed k h refl n;
      others = λ b h out. f.others b h (λ k hk g n. out k hk n);
      no_addrs = c.gone;
      no_size = refl;
      saved_addrs = λ k h. rw (same, self) (c.gone k h);
      saved_size = rw (same, self) refl;
      dinodes_kept = λ i n.
          let other : (i == ip.inum) ≡ false = ground arith in
          rw (same, other) (ap (λ t. t i) f.dinodes);
    }

itrunc_run :
    (ip : Inode) (disk : Volume) (r1 r2 : Inode × Volume)
    → free_addrs ndirect 0 ip disk ≡ done r1
    → free_indirect r1.0 r1.1 ≡ done r2
    → itrunc ip disk
      ≡ (let ip3 : Inode = record (r2.0) { size = 0 } in done (ip3, iupdate ip3 r2.1))
unfolding itrunc
itrunc_run ip disk r1 r2 e1 e2 = rw (e1, ◌>>=◌, e2) refl

-- `itrunc` of a file whose blocks are different, in use and not of the bitmap does not panic: it frees every block of the
-- file, the indirect one included, and no other, leaves no address and no size in the inode, in memory and
-- on disk, and changes no other inode on disk.
pub itrunc_lem :
    (ip : Inode) (disk : Volume)
    → Sound ip disk
    → (r : Inode × Volume) × (itrunc ip disk ≡ done r) × Truncated ip disk r.0 r.1
itrunc_lem ip disk s =
    let c0 : Cleared ip 0 ip = record {
      gone = λ k h. absurd (omega arith);
      rest = λ k h. refl;
      same_inum = refl;
    } in
    let f0 = Freeing-start ip disk (first 0) (λ k. ground arith) in
    let (r1, e1, c1, f1) = free_addrs_lem ip disk s 12 0 ip disk (omega arith) c0 f0 in
    let (r2, e2, c2, f2) = free_indirect_lem ip disk r1.0 r1.1 s c1 f1 in
    let ip3 : Inode = record (r2.0) { size = 0 } in
    (
      (ip3, iupdate ip3 r2.1),
      itrunc_run ip disk r1 r2 e1 e2,
      emptied-Truncated ip disk r2.0 r2.1 c2 f2,
    )
