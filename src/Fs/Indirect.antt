-- ===== src/Fs/Indirect.antt =====
-- The blocks in the indirect block: found, or allocated.
use os_2_course_work.Prelude.{
  ℕ, ◌+◌, ◌-◌, ◌/◌, ◌%◌, ◌<◌, ◌≡◌, ◌≢◌, refl, sym, ap, ◌∙◌, true, false, true-false, Bool-cases,
  inl, inr, ltb→lt, ==_iff, ◌==◌, ltb, if◌then◌else◌, arith,
}
use mathlib.Core.Path.{subst}
use os_2_course_work.PageTable.{has_flag}
use os_2_course_work.Fs.{Volume, bblock, bpb, mask, nindirect, word, set_word, put_block, balloc}
use os_2_course_work.Fs.Inode.{Inode, store_word, word_block}
use os_2_course_work.Fs.Marks.{marked}
use os_2_course_work.Fs.Alloc.{Allocated, Balloc, balloc_lem}
use os_2_course_work.Fs.Words.{word-set_word_self, word-set_word_ne}
use os_2_course_work.Fs.Slots.{nslots, slot, Sound, Fills, new_ne_zero, addr-slot, word-slot}
use os_2_course_work.Fs.Filled.{Extends-refl, Extends-trans, Fills-Extends}
use os_2_course_work.Fs.Direct.{Found, eq_zero, ne_zero, kept_block, same_Mapped}

module _ (ip : Inode) (disk : Volume) (s : Sound ip disk) (ind : ℕ) (at : ip.addrs 12 ≡ ind)
    (there : ind ≢ 0) where
  ind_slot : slot ip disk 12 ≡ ind
  ind_slot = addr-slot ip disk 12 (omega arith) ∙ at

  -- An entry of the indirect block.
  entry-slot : (d : Volume) (j : ℕ) → slot ip d (13 + j) ≡ word (d.blocks ind) j
  entry-slot d j = word-slot ip d j ∙ (rw (at, ne_zero ind there) refl)

  ind_plain : (c : ℕ) → c < disk.sb.size → bblock disk.sb c ≢ ind
  ind_plain c hc e =
      s.plain 12 c (omega arith) hc (λ z. there (sym ind_slot ∙ z)) (ind_slot ∙ sym e)

  module _ (bn r : ℕ) (disk' : Volume) (h : bn < nindirect) (a : Allocated disk r disk') where
    abbrev stored : Volume
    stored = put_block ind (set_word (disk'.blocks ind) bn r) disk'

    ind_kept : disk'.blocks ind ≡ disk.blocks ind
    ind_kept =
        ap disk'.blocks (sym ind_slot)
        ∙ kept_block ip disk s r disk' a 12 (omega arith) (λ z. there (sym ind_slot ∙ z))
        ∙ ap disk.blocks ind_slot

    stored_ind : stored.blocks ind ≡ set_word (disk'.blocks ind) bn r
    stored_ind = let self : (ind == ind) ≡ true = ground arith in rw self refl

    stored_ne : (b : ℕ) → b ≢ ind → stored.blocks b ≡ disk'.blocks b
    stored_ne b n = let other : (b == ind) ≡ false = ground arith in rw other refl

    stored_slots :
        (l : ℕ) → l < nslots → slot ip stored l ≡ (if l == 13 + bn then r else slot ip disk l)
    stored_slots l h' = elim (Bool-cases (ltb l 13)) [
      | inl low ↦
          let ne : (l == 13 + bn) ≡ false = ground arith in
          let lt = ltb→lt l 13 low in
          rw ne (addr-slot ip stored l lt ∙ sym (addr-slot ip disk l lt))
      | inr high ↦
          let split : 13 + (l - 13) ≡ l = ground arith in
          let old = entry-slot disk (l - 13) in
          let new = entry-slot stored (l - 13) ∙ ap (λ d. word d (l - 13)) stored_ind in
          elim (Bool-cases (l == 13 + bn)) [
            | inl same ↦
                let j : l - 13 ≡ bn = ground arith in
                rw same (
                  ap (slot ip stored) (sym split)
                  ∙ new
                  ∙ ap (word (set_word (disk'.blocks ind) bn r)) j
                  ∙ word-set_word_self (disk'.blocks ind) bn r
                      (let w = a.within in let z = s.size in omega arith))
            | inr other ↦
                let j : l - 13 ≢ bn = ground arith in
                rw other (
                  ap (slot ip stored) (sym split)
                  ∙ new
                  ∙ word-set_word_ne (disk'.blocks ind) bn (l - 13) r j
                  ∙ ap (λ d. word d (l - 13)) ind_kept
                  ∙ sym old
                  ∙ ap (slot ip disk) split)
          ]
    ]

    new_ne_ind : r ≢ ind
    new_ne_ind e = true-false (
        sym (s.used 12 (omega arith) (λ z. there (sym ind_slot ∙ z)))
        ∙ ap (marked disk) (ind_slot ∙ sym e)
        ∙ a.free)

    word-Fills : word (disk.blocks ind) bn ≡ 0 → Fills ip disk (13 + bn) r ip stored
    word-Fills e = record {
      range = omega arith;
      empty = entry-slot disk bn ∙ e;
      within = a.within;
      free = a.free;
      slots = stored_slots;
      marks = λ c hc.
          ap (λ d. has_flag (mask c) (d (c % bpb / 8)))
            (stored_ne (bblock disk'.sb c)
              (λ x. ind_plain c hc (ap (λ y. bblock y c) (sym a.sb) ∙ x)))
          ∙ a.taken c hc;
      sb = a.sb;
      zeroed = λ i. ap (λ d. d i) (stored_ne r new_ne_ind) ∙ a.zeroed i;
      kept = λ l h' ne n.
          stored_ne (slot ip disk l) (λ x. ne (s.apart l 12 h' (omega arith) n (x ∙ sym ind_slot)))
          ∙ kept_block ip disk s r disk' a l h' n;
      same_size = refl;
      same_inum = refl;
    }

  store_word-Found :
      (bn : ℕ) (got : ℕ × Volume)
      → bn < nindirect
      → word (disk.blocks ind) bn ≡ 0
      → Balloc disk got
      → Found ip disk (13 + bn) (store_word ind bn ip got)
  store_word-Found bn got h e (inl (full, _)) =
      subst (λ g. Found ip disk (13 + bn) (store_word ind bn ip g)) (sym full)
        (same_Mapped ip disk s (13 + bn))
  store_word-Found bn (r, disk') h e (inr a) =
      let f = word-Fills bn r disk' h a e in
      let made = stored bn r disk' h a in
      let z = ne_zero r (new_ne_zero ip disk (13 + bn) r ip made s f) in
      let self : (13 + bn == 13 + bn) ≡ true = ground arith in
      rw z (record {
        extends = Fills-Extends ip disk (13 + bn) r ip made s f;
        at = λ n. f.slots (13 + bn) (omega arith) ∙ (rw self refl);
      })

  word_block-Found :
      (bn : ℕ) → bn < nindirect → Found ip disk (13 + bn) (word_block bn (ind, ip, disk))
  unfolding word_block
  word_block-Found bn h = elim (Bool-cases (word (disk.blocks ind) bn == 0)) [
    | inl hole ↦
        rw (ne_zero ind there, hole)
          (store_word-Found bn (balloc disk) h ((==_iff _ _).0 hole) (balloc_lem disk s.guarded))
    | inr used ↦
        rw (ne_zero ind there, used)
          (record { extends = Extends-refl ip disk s; at = λ n. entry-slot disk bn })
  ]

-- The indirect block is found or allocated first.
pub indirect-Found :
    (ip : Inode) (disk : Volume) (bn : ℕ) (got : ℕ × Inode × Volume)
    → bn < nindirect
    → Found ip disk 12 got
    → Found ip disk (13 + bn) (word_block bn got)
indirect-Found ip disk bn (ind, ip1, disk1) h m = elim (Bool-cases (ind == 0)) [
  | inl none_left ↦
      unfold word_block in
      (rw none_left (record { extends = m.extends; at = λ n. absurd (n refl) }))
  | inr there ↦
      let n : ind ≢ 0 = λ z. true-false (sym (eq_zero ind z) ∙ there) in
      let at = sym (addr-slot ip1 disk1 12 (omega arith)) ∙ m.at n in
      let w = word_block-Found ip1 disk1 m.extends.sound ind at n bn h in
      record { extends = Extends-trans ip disk ip1 disk1 _ _ m.extends w.extends; at = w.at }
]
