-- ===== src/Fs/Freeing.antt =====
-- A file whose blocks are given back one after another.
use os_2_course_work.Prelude.{
  ℕ, ◌<◌, ◌≡◌, ◌≢◌, refl, sym, ap, ◌∙◌, Bool, true, false, ◌||◌, true-false, Bool-cases, inl, inr,
  done, ==_iff, ◌==◌, arith,
}
use os_2_course_work.Fs.{Volume, bblock, bfree}
use os_2_course_work.Fs.Inode.{Inode}
use os_2_course_work.Fs.Marks.{marked}
use os_2_course_work.Fs.Free.{Freed, bfree_lem}
use os_2_course_work.Fs.Slots.{nslots, slot, Sound}

-- The blocks in the slots `gone` are free in `d`, the others are marked as they were, and no block
-- but those of the bitmap has changed.
pub record Freeing (ip : Inode) (disk : Volume) (gone : ℕ → Bool) (d : Volume) : Type 0 where
  pub freed :
      (k : ℕ) → k < nslots → gone k ≡ true → slot ip disk k ≢ 0 → marked d (slot ip disk k) ≡ false
  pub others :
      (c : ℕ)
      → c < disk.sb.size
      → ((k : ℕ) → k < nslots → gone k ≡ true → slot ip disk k ≢ 0 → slot ip disk k ≢ c)
      → marked d c ≡ marked disk c
  pub blocks :
      (b : ℕ) → ((c : ℕ) → c < disk.sb.size → b ≢ bblock disk.sb c) → d.blocks b ≡ disk.blocks b
  pub sb : d.sb ≡ disk.sb
  pub dinodes : d.dinodes ≡ disk.dinodes

pub Freeing-start :
    (ip : Inode) (disk : Volume) (gone : ℕ → Bool)
    → ((k : ℕ) → gone k ≡ false)
    → Freeing ip disk gone disk
Freeing-start ip disk gone none_gone = record {
  freed = λ k h g n. absurd (true-false (sym g ∙ none_gone k));
  others = λ c h out. refl;
  blocks = λ b plain. refl;
  sb = refl;
  dinodes = refl;
}

-- Another description of the slots that are not empty.
pub Freeing-same :
    (ip : Inode) (disk : Volume) (gone gone' : ℕ → Bool) (d : Volume)
    → ((k : ℕ) → k < nslots → slot ip disk k ≢ 0 → gone' k ≡ gone k)
    → Freeing ip disk gone d
    → Freeing ip disk gone' d
Freeing-same ip disk gone gone' d same f = record {
  freed = λ k h g n. f.freed k h (sym (same k h n) ∙ g) n;
  others = λ c h out. f.others c h (λ k hk g n. out k hk (same k hk n ∙ g) n);
  blocks = f.blocks;
  sb = f.sb;
  dinodes = f.dinodes;
}

module _ (ip : Inode) (disk : Volume) (s : Sound ip disk) (gone : ℕ → Bool) (d : Volume)
    (f : Freeing ip disk gone d) (k0 : ℕ) (range : k0 < nslots) where
  abbrev pub and_this : ℕ → Bool
  and_this k = k == k0 || gone k

  or_right : (k : ℕ) → gone k ≡ true → and_this k ≡ true
  or_right k g = elim (Bool-cases (k == k0)) [ inl a ↦ rw a refl | inr b ↦ rw b g ]

  or_left : and_this k0 ≡ true
  or_left = let e : (k0 == k0) ≡ true = ground arith in rw e refl

  module _ (n : slot ip disk k0 ≢ 0) (not_yet : gone k0 ≡ false) where
    -- The block is in use until now, so `bfree` does not panic.
    still_marked : marked d (slot ip disk k0) ≡ true
    still_marked =
        f.others (slot ip disk k0) (s.inside k0 range n)
          (λ k hk g nk e. true-false (sym g ∙ ap gone (s.apart k k0 hk range nk e) ∙ not_yet))
        ∙ s.used k0 range n

    now_free : (d' : Volume) → Freed d (slot ip disk k0) d' → Freeing ip disk and_this d'
    now_free d' g = record {
      freed = λ k h a nk. elim (Bool-cases (slot ip disk k == slot ip disk k0)) [
        | inl this ↦ g.given (slot ip disk k) ∙ (rw this refl)
        | inr other ↦ g.given (slot ip disk k) ∙ (rw other (f.freed k h (was_gone k a other) nk))
      ];
      others = λ c h out.
          let ne : (c == slot ip disk k0) ≡ false =
            let o = out k0 range or_left n in ground arith in
          g.given c ∙ (rw ne (f.others c h (λ k hk a nk. out k hk (or_right k a) nk)));
      blocks = λ b plain.
          g.others b (λ e.
            plain (slot ip disk k0) (s.inside k0 range n)
              (e ∙ ap (λ x. bblock x (slot ip disk k0)) f.sb))
          ∙ f.blocks b plain;
      sb = g.sb ∙ f.sb;
      dinodes = g.dinodes ∙ f.dinodes;
    }
      where
        was_gone :
            (k : ℕ)
            → and_this k ≡ true
            → (slot ip disk k == slot ip disk k0) ≡ false
            → gone k ≡ true
        was_gone k a other = elim (Bool-cases (k == k0)) [
          | inl this ↦
              absurd (
                true-false
                  (sym ((==_iff _ _).1 (ap (slot ip disk) ((==_iff k k0).0 this))) ∙ other))
          | inr ne ↦ rw ne at a
        ]

    pub free_slot :
        (d' : Volume) × (bfree (slot ip disk k0) d ≡ done d') × Freeing ip disk and_this d'
    free_slot = elim (bfree_lem (slot ip disk k0) d) [
      | inr (free, e) ↦ absurd (true-false (sym still_marked ∙ free))
      | inl (_, d', e, g) ↦ (d', e, now_free d' g)
    ]
