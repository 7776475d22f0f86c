-- ===== src/Fs/Clear.antt =====
-- The two loops of `itrunc` give back the direct blocks and the entries of the indirect block.
use os_2_course_work.Prelude.{
  ℕ, zero, suc, ◌+◌, ◌<◌, ◌≤◌, ◌≡◌, ◌≢◌, refl, sym, ap, ◌∙◌, Bool, false, ◌&&◌, ◌||◌, true-false,
  Bool-cases, inl, inr, done, ==_iff, ◌==◌, ltb, leb, ◌>>=◌, arith,
}
use mathlib.Core.Path.{subst}
use os_2_course_work.Fs.{Volume, nindirect, word, bfree}
use os_2_course_work.Fs.Inode.{Inode, set_addr, free_addrs, free_words}
use os_2_course_work.Fs.Slots.{slot, Sound, addr-slot, word-slot}
use os_2_course_work.Fs.Freeing.{Freeing, Freeing-same, free_slot}

-- The first `i` addresses are zero, the others are those of `ip0`.
pub record Cleared (ip0 : Inode) (i : ℕ) (ip : Inode) : Type 0 where
  pub gone : (k : ℕ) → k < i → ip.addrs k ≡ 0
  pub rest : (k : ℕ) → i ≤ k → ip.addrs k ≡ ip0.addrs k
  pub same_inum : ip.inum ≡ ip0.inum

abbrev pub first : ℕ → ℕ → Bool
first i k = ltb k i

-- The direct blocks and the first `j` entries of the indirect block.
abbrev pub words_to : ℕ → ℕ → Bool
words_to j k = ltb k 12 || (leb 13 k && ltb k (13 + j))

pub set-Cleared :
    (ip0 : Inode) (i : ℕ) (ip : Inode) → Cleared ip0 i ip → Cleared ip0 (suc i) (set_addr i 0 ip)
set-Cleared ip0 i ip c = record {
  gone = λ k h. elim (Bool-cases (k == i)) [
    | inl e ↦ rw e refl
    | inr n ↦ rw n (c.gone k (ground arith))
  ];
  rest = λ k h. (let n : (k == i) ≡ false = ground arith in rw n (c.rest k (omega arith)));
  same_inum = c.same_inum;
}

pub skip-Cleared :
    (ip0 : Inode) (i : ℕ) (ip : Inode) → ip.addrs i ≡ 0 → Cleared ip0 i ip → Cleared ip0 (suc i) ip
skip-Cleared ip0 i ip e c = record {
  gone = λ k h. elim (Bool-cases (k == i)) [
    | inl a ↦ ap ip.addrs ((==_iff k i).0 a) ∙ e
    | inr n ↦ c.gone k (ground arith)
  ];
  rest = λ k h. c.rest k (omega arith);
  same_inum = c.same_inum;
}

first-suc : (i k : ℕ) → first (suc i) k ≡ (k == i || first i k)
first-suc i k = ground arith

free_addrs_used :
    (n i : ℕ) (ip : Inode) (d d1 : Volume)
    → (ip.addrs i == 0) ≡ false
    → bfree (ip.addrs i) d ≡ done d1
    → free_addrs (suc n) i ip d ≡ free_addrs n (suc i) (set_addr i 0 ip) d1
unfolding free_addrs
free_addrs_used n i ip d d1 used e =
    let plus : i + 1 ≡ suc i = omega arith in rw (used, free_addrs, e, ◌>>=◌, plus) refl

free_words_used :
    (n j ind : ℕ) (d d1 : Volume)
    → (word (d.blocks ind) j == 0) ≡ false
    → bfree (word (d.blocks ind) j) d ≡ done d1
    → free_words (suc n) j ind d ≡ free_words n (suc j) ind d1
unfolding free_words
free_words_used n j ind d d1 used e =
    let plus : j + 1 ≡ suc j = omega arith in rw (used, free_words, e, ◌>>=◌, plus) refl

words_to-suc : (j k : ℕ) → words_to (suc j) k ≡ (k == 13 + j || words_to j k)
words_to-suc j k = ground arith

module _ (ip0 : Inode) (disk : Volume) (s : Sound ip0 disk) where
  pub free_addrs_lem :
      (n i : ℕ) (ip : Inode) (d : Volume)
      → i + n ≤ 12
      → Cleared ip0 i ip
      → Freeing ip0 disk (first i) d
      → (r : Inode × Volume) × (free_addrs n i ip d ≡ done r)
        × Cleared ip0 (i + n) r.0
        × Freeing ip0 disk (first (i + n)) r.1
  unfolding free_addrs
  free_addrs_lem zero i ip d h c f =
      let e : i ≡ i + 0 = omega arith in
      (
        (ip, d),
        refl,
        subst (λ m. Cleared ip0 m ip) e c,
        subst (λ m. Freeing ip0 disk (first m) d) e f,
      )
  free_addrs_lem (suc n) i ip d h c f =
      let at = addr-slot ip0 disk i (omega arith) ∙ sym (c.rest i (omega arith)) in
      let more : suc i + n ≡ i + suc n = omega arith in
      let plus : i + 1 ≡ suc i = omega arith in
      elim (Bool-cases (ip.addrs i == 0)) [
        | inl hole ↦
            let z = (==_iff _ _).0 hole in
            let g =
              Freeing-same ip0 disk (first i) (first (suc i)) d (λ k hk n. not_empty i (at ∙ z) k n)
                f in
            let (r, e, c', f') =
              free_addrs_lem n (suc i) ip d (omega arith) (skip-Cleared ip0 i ip z c) g in
            (
              r,
              rw (hole, free_addrs, plus) e,
              subst (λ m. Cleared ip0 m r.0) more c',
              subst (λ m. Freeing ip0 disk (first m) r.1) more f',
            )
        | inr used ↦
            let n0 : slot ip0 disk i ≢ 0 =
              λ z. true-false (sym ((==_iff _ _).1 (sym at ∙ z)) ∙ used) in
            let (d1, e1, f1) =
              free_slot ip0 disk s (first i) d f i (omega arith) n0 (ground arith) in
            let g =
              Freeing-same ip0 disk (λ k. k == i || first i k) (first (suc i)) d1
                (λ k hk nk. first-suc i k) f1 in
            let (r, e, c', f') =
              free_addrs_lem n (suc i) (set_addr i 0 ip) d1 (omega arith) (set-Cleared ip0 i ip c)
                g in
            (
              r,
              free_addrs_used n i ip d d1 used (ap (λ b. bfree b d) (sym at) ∙ e1) ∙ e,
              subst (λ m. Cleared ip0 m r.0) more c',
              subst (λ m. Freeing ip0 disk (first m) r.1) more f',
            )
      ]
    where
      not_empty :
          (i : ℕ)
          → slot ip0 disk i ≡ 0
          → (k : ℕ) → slot ip0 disk k ≢ 0
          → first (suc i) k ≡ first i k
      not_empty i e k n = elim (Bool-cases (k == i)) [
        | inl a ↦ absurd (n (ap (slot ip0 disk) ((==_iff k i).0 a) ∙ e))
        | inr b ↦ ground arith
      ]

  module _ (there : ip0.addrs 12 ≢ 0) where
    pub ind_slot : slot ip0 disk 12 ≡ ip0.addrs 12
    ind_slot = addr-slot ip0 disk 12 (omega arith)

    -- The entries of the indirect block are there while blocks are freed.
    word_kept :
        (gone : ℕ → Bool) (d : Volume) (j : ℕ)
        → Freeing ip0 disk gone d
        → slot ip0 disk (13 + j) ≡ word (d.blocks (ip0.addrs 12)) j
    word_kept gone d j f =
        let z : (ip0.addrs 12 == 0) ≡ false = ground arith in
        word-slot ip0 disk j
        ∙ (rw z (
            ap (λ b. word b j)
              (sym (
                f.blocks (ip0.addrs 12) (λ c h e.
                  s.plain 12 c (omega arith) h (λ y. there (sym ind_slot ∙ y)) (ind_slot ∙ e))))))

    pub free_words_lem :
        (n j : ℕ) (d : Volume)
        → j + n ≤ nindirect
        → Freeing ip0 disk (words_to j) d
        → (r : Volume) × (free_words n j (ip0.addrs 12) d ≡ done r)
          × Freeing ip0 disk (words_to (j + n)) r
    unfolding free_words
    free_words_lem zero j d h f =
        let e : j ≡ j + 0 = omega arith in
        (d, refl, subst (λ m. Freeing ip0 disk (words_to m) d) e f)
    free_words_lem (suc n) j d h f =
        let at = word_kept (words_to j) d j f in
        let more : suc j + n ≡ j + suc n = omega arith in
        let plus : j + 1 ≡ suc j = omega arith in
        elim (Bool-cases (word (d.blocks (ip0.addrs 12)) j == 0)) [
          | inl hole ↦
              let g =
                Freeing-same ip0 disk (words_to j) (words_to (suc j)) d
                  (λ k hk nk. not_empty j (at ∙ (==_iff _ _).0 hole) k nk) f in
              let (r, e, f') = free_words_lem n (suc j) d (omega arith) g in
              (
                r,
                rw (hole, free_words, plus) e,
                subst (λ m. Freeing ip0 disk (words_to m) r) more f',
              )
          | inr used ↦
              let n0 : slot ip0 disk (13 + j) ≢ 0 =
                λ z. true-false (sym ((==_iff _ _).1 (sym at ∙ z)) ∙ used) in
              let (d1, e1, f1) =
                free_slot ip0 disk s (words_to j) d f (13 + j) (omega arith) n0 (ground arith) in
              let g =
                Freeing-same ip0 disk (λ k. k == 13 + j || words_to j k) (words_to (suc j)) d1
                  (λ k hk nk. words_to-suc j k) f1 in
              let (r, e, f') = free_words_lem n (suc j) d1 (omega arith) g in
              (
                r,
                free_words_used n j (ip0.addrs 12) d d1 used (ap (λ b. bfree b d) (sym at) ∙ e1)
                    ∙ e,
                subst (λ m. Freeing ip0 disk (words_to m) r) more f',
              )
        ]
      where
        not_empty :
            (j : ℕ)
            → slot ip0 disk (13 + j) ≡ 0
            → (k : ℕ) → slot ip0 disk k ≢ 0
            → words_to (suc j) k ≡ words_to j k
        not_empty j e k n = elim (Bool-cases (k == 13 + j)) [
          | inl a ↦ absurd (n (ap (slot ip0 disk) ((==_iff k (13 + j)).0 a) ∙ e))
          | inr b ↦ ground arith
        ]
