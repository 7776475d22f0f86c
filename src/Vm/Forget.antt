-- ===== src/Vm/Forget.antt =====
-- The frame table after `uvmunmap` has forgotten a page.
use os_2_course_work.Prelude.{
  NotIn, true-false, ℕ, zero, suc, ◌≡◌, ◌≢◌, inl, inr, refl, sym, ap, ◌∙◌, true, false, ◌&&◌,
  Bool-cases, List, [], ◌∷◌, ◌==◌, arith,
}
use mathlib.Core.Path.{subst}
use os_2_course_work.Frames.{FrameEntry, frame_at}
use os_2_course_work.Evict.{Machine}
use os_2_course_work.Vm.{forget_frame, forget_page}

-- Different used frames have different pages.
abbrev pub Unshared : List FrameEntry → Type 0
Unshared frames =
    (j k : ℕ)
    → (frame_at frames j).used ≡ true
    → (frame_at frames k).used ≡ true
    → (frame_at frames j).pa ≡ (frame_at frames k).pa
    → j ≡ k

-- No page of a used frame is free.
abbrev pub Apart : List FrameEntry → List ℕ → Type 0
Apart frames freelist =
    (j : ℕ) → (frame_at frames j).used ≡ true → NotIn (frame_at frames j).pa freelist

pub record IsTidy (m : Machine) : Type 0 where
  pub unshared : Unshared m.clock.frame_table
  pub apart : Apart m.clock.frame_table m.mem.freelist

forget_page-here :
    (pa : ℕ) (f : FrameEntry) (fs : List FrameEntry)
    → f.used && f.pa == pa ≡ true
    → forget_page pa (f ∷ fs) ≡ forget_frame f ∷ fs
unfolding forget_page
forget_page-here pa f fs h = rw (h, forget_page) refl

forget_page-other :
    (pa : ℕ) (f : FrameEntry) (fs : List FrameEntry)
    → f.used && f.pa == pa ≡ false
    → forget_page pa (f ∷ fs) ≡ f ∷ forget_page pa fs
unfolding forget_page
forget_page-other pa f fs h = rw (h, forget_page) refl

-- The entry is as before, and its page is another one.
abbrev Spared : ℕ → List FrameEntry → List FrameEntry → ℕ → Type 0
Spared pa frames after j = (frame_at after j ≡ frame_at frames j) × ((frame_at frames j).pa ≢ pa)

-- A frame that is still used after `forget_page` is spared.
forget_page-Spared :
    (pa : ℕ) (frames : List FrameEntry) (j : ℕ)
    → Unshared frames
    → (frame_at (forget_page pa frames) j).used ≡ true
    → Spared pa frames (forget_page pa frames) j
unfolding forget_page
forget_page-Spared pa [] j u h = absurd (true-false (sym h))
forget_page-Spared pa (f ∷ fs) zero u h = elim (Bool-cases (f.used && f.pa == pa)) [
  | inl here ↦
      let e = forget_page-here pa f fs here in
      let free : (frame_at (forget_page pa (f ∷ fs)) 0).used ≡ false = rw e refl in
      absurd (true-false (sym h ∙ free))
  | inr other ↦
      let e = forget_page-other pa f fs other in
      let used : f.used ≡ true = sym (rw e refl) ∙ h in (rw e refl, λ same. ground arith)
]
forget_page-Spared pa (f ∷ fs) (suc j) u h = elim (Bool-cases (f.used && f.pa == pa)) [
  | inl here ↦
      let e = forget_page-here pa f fs here in
      let used : (frame_at fs j).used ≡ true = sym (rw e refl) ∙ h in (rw e refl, second here used)
  | inr other ↦
      let e = forget_page-other pa f fs other in
      let used : (frame_at (forget_page pa fs) j).used ≡ true = sym (rw e refl) ∙ h in
      let below = forget_page-Spared pa fs j tail used in (rw e below.0, below.1)
]
  where
    tail : Unshared fs
    tail a b x y e = let k : suc a ≡ suc b = u (suc a) (suc b) x y e in omega arith

    first_used : f.used && f.pa == pa ≡ true → (f.used ≡ true) × (f.pa ≡ pa)
    first_used t = ground arith

    second : f.used && f.pa == pa ≡ true → (frame_at fs j).used ≡ true → (frame_at fs j).pa ≢ pa
    second t used same =
        let (a, b) = first_used t in
        let k : 0 ≡ suc j = u 0 (suc j) a used (b ∙ sym same) in absurd (omega arith)

pub forget_page-Unshared :
    (pa : ℕ) (frames : List FrameEntry) → Unshared frames → Unshared (forget_page pa frames)
forget_page-Unshared pa frames u j k hj hk same =
    let a = forget_page-Spared pa frames j u hj in
    let b = forget_page-Spared pa frames k u hk in
    let used_j : (frame_at frames j).used ≡ true = sym (ap (λ (f : FrameEntry). f.used) a.0) ∙ hj in
    let used_k : (frame_at frames k).used ≡ true = sym (ap (λ (f : FrameEntry). f.used) b.0) ∙ hk in
    u j k used_j used_k
      (sym (ap (λ (f : FrameEntry). f.pa) a.0) ∙ (same ∙ ap (λ (f : FrameEntry). f.pa) b.0))

pub forget_page-Apart :
    (pa : ℕ) (frames : List FrameEntry) (freelist : List ℕ)
    → Unshared frames
    → Apart frames freelist
    → Apart (forget_page pa frames) (pa ∷ freelist)
forget_page-Apart pa frames freelist u apart j hj =
    let a = forget_page-Spared pa frames j u hj in
    let used_j : (frame_at frames j).used ≡ true = sym (ap (λ (f : FrameEntry). f.used) a.0) ∙ hj in
    subst (λ x. NotIn x (pa ∷ freelist)) (sym (ap (λ (f : FrameEntry). f.pa) a.0))
      (a.1, apart j used_j)
