-- ===== src/Bio/Change.antt =====
-- Changes of one buffer that leave every block as it is.
use mathlib.Core.Path.{subst}
use os_2_course_work.Prelude.{
  NotIn, ℕ, ◌≡◌, ◌≢◌, inl, inr, refl, sym, ap, ◌∙◌, true, false, Bool-cases, List, [], ◌∷◌, ◌==◌,
  if◌then◌else◌, ℕ_discrete, arith,
}
use os_2_course_work.Raid.{Block}
use os_2_course_work.Bio.{Buf, hits, at_index, buf_at}
use os_2_course_work.Bio.View.{
  view_in, Absent, NoTwin, Clean, indices, IsCache, hits_dev, buf_at-behind, tail,
}

-- A change of a buffer that is referred to which nobody sees in the blocks.
pub record Unseen (disk : ℕ → Block) (f : Buf → Buf) (b : Buf) : Type 0 where
  pub index : (f b).index ≡ b.index
  pub dev : (f b).dev ≡ b.dev
  pub blockno : (f b).blockno ≡ b.blockno
  pub count : (f b).refcnt ≢ 0
  pub shown :
      (if (f b).valid then (f b).content else disk b.blockno)
      ≡ (if b.valid then b.content else disk b.blockno)

-- What such a change of the buffer `i` leaves.
pub record Changed (dev i : ℕ) (disk : ℕ → Block) (f : Buf → Buf) (bufs after : List Buf)
    : Type 0 where
  pub same : (k : ℕ) → view_in dev after disk k ≡ view_in dev bufs disk k
  pub order : indices after ≡ indices bufs
  pub absent : (k : ℕ) → Absent dev k bufs → Absent dev k after
  pub single : NoTwin dev after
  pub clean : Clean dev disk after
  pub here : (NotIn i (indices bufs) → ⊥) → buf_at i after ≡ f (buf_at i bufs)

change_here :
    (dev : ℕ) (disk : ℕ → Block) (f : Buf → Buf) (b : Buf) (bs : List Buf)
    → IsCache dev (b ∷ bs) disk
    → Unseen disk f b
    → Changed dev b.index disk f (b ∷ bs) (f b ∷ bs)
unfolding buf_at
change_here dev disk f b bs v u =
    let hit : (k : ℕ) → hits dev k (f b) ≡ hits dev k b = λ k. rw (u.dev, u.blockno) refl in
    let own : buf_at b.index (b ∷ bs) ≡ b = ground arith in
    let index = u.index in
    let new : buf_at b.index (f b ∷ bs) ≡ f b = ground arith in
    record {
      same = same;
      order = ap (λ x. x ∷ indices bs) u.index;
      absent = λ k h. (hit k ∙ h.0, h.1);
      single = (
        λ d. subst (λ x. Absent dev x bs) (sym u.blockno) (v.single.0 (sym u.dev ∙ d)),
        v.single.1,
      );
      clean = (λ d valid z. absurd (u.count z), v.clean.1);
      here = λ present. new ∙ ap f (sym own);
    }
  where
    same : (k : ℕ) → view_in dev (f b ∷ bs) disk k ≡ view_in dev (b ∷ bs) disk k
    same k = elim (Bool-cases (hits dev k b)) [
      | inl yes_b ↦
          let yes_f : hits dev k (f b) ≡ true = rw (u.dev, u.blockno) yes_b in
          let (d, at_k) = hits_dev dev k b yes_b in
          rw (yes_b, yes_f)
            (subst
              (λ x.
                (if (f b).valid then (f b).content else disk x)
                ≡ (if b.valid then b.content else disk x))
              at_k u.shown)
      | inr no_b ↦
          let no_f : hits dev k (f b) ≡ false = rw (u.dev, u.blockno) no_b in rw (no_b, no_f) refl
    ]

change_behind :
    (dev i : ℕ) (disk : ℕ → Block) (f : Buf → Buf) (b : Buf) (bs after : List Buf)
    → IsCache dev (b ∷ bs) disk
    → b.index ≢ i
    → Changed dev i disk f bs after
    → Changed dev i disk f (b ∷ bs) (b ∷ after)
change_behind dev i disk f b bs after v ne t = record {
  same =
      λ k. ap (λ x. if hits dev k b then (if b.valid then b.content else disk k) else x) (t.same k);
  order = ap (λ is. b.index ∷ is) t.order;
  absent = λ k h. (h.0, t.absent k h.1);
  single = (λ d. t.absent b.blockno (v.single.0 d), t.single);
  clean = (v.clean.0, t.clean);
  here = λ present.
      buf_at-behind i b after ne
      ∙ (t.here (λ away. present ((λ e. ne (sym e)), away)) ∙ ap f (sym (buf_at-behind i b bs ne)));
}

pub at_index-Changed :
    (dev i : ℕ) (disk : ℕ → Block) (f : Buf → Buf) (bufs : List Buf)
    → IsCache dev bufs disk
    → Unseen disk f (buf_at i bufs)
    → Changed dev i disk f bufs (at_index i f bufs)
unfolding at_index buf_at
at_index-Changed dev i disk f [] v u = record {
  same = λ k. refl;
  order = refl;
  absent = λ k h. h;
  single = tt;
  clean = tt;
  here = λ present. absurd (present tt);
}
at_index-Changed dev i disk f (b ∷ bs) v u = elim (ℕ_discrete b.index i) [
  | yes same ↦
      let hit : (b.index == i) ≡ true = ground arith in
      let e : at_index i f (b ∷ bs) ≡ f b ∷ bs = rw (hit, at_index) refl in
      let own : buf_at i (b ∷ bs) ≡ b = rw (hit, buf_at) refl in
      rw e (
        subst (λ x. Changed dev x disk f (b ∷ bs) (f b ∷ bs)) same
          (change_here dev disk f b bs v (subst (λ x. Unseen disk f x) own u)))
  | no ne ↦
      let miss : (b.index == i) ≡ false = ground arith in
      let e : at_index i f (b ∷ bs) ≡ b ∷ at_index i f bs = rw (miss, at_index) refl in
      rw e (
        change_behind dev i disk f b bs (at_index i f bs) v ne (
          at_index-Changed dev i disk f bs (tail v)
            (subst (λ x. Unseen disk f x) (buf_at-behind i b bs ne) u)))
]

pub Changed-IsCache :
    {dev i : ℕ} {disk : ℕ → Block} {f : Buf → Buf} {bufs after : List Buf}
    → IsCache dev bufs disk
    → Changed dev i disk f bufs after
    → IsCache dev after disk
Changed-IsCache v t = record { own = rw t.order v.own; single = t.single; clean = t.clean }
