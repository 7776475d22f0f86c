-- ===== src/Lock/Exclusion.antt =====
-- Mutual exclusion of the CPUs at one spin lock.
use mathlib.Core.Path.{subst}
use os_2_course_work.Prelude.{
  ℕ, ◌+◌, ◌≡◌, ◌≢◌, inl, inr, refl, sym, ap, ◌∙◌, Bool, true, false, ◌&&◌, Option, none, some, done,
  panic, ◌==◌, Bool-cases, release_bad, panic_done, done_done, true-false, some-some, some-none,
  arith,
}
use os_2_course_work.Lock.{
  Spinlock, Cpu, push_off, pop_off, is_cpu, holding, acquire_begin, test_and_set, set_cpu,
  release_begin, lock_release,
}
use os_2_course_work.Lock.Disabled.{update-cases, Reaches-AreOff, pop_off-done}
use os_2_course_work.Lock.Steps.{
  Pc, outside, spinning, entering, critical, leaving, popping, update, System, at_pc, Step, begin,
  spin, grab, own, disown, free, pop, inside, pushed, IsExclusive, Reaches, start, later,
}

-- A CPU other than `i` is where it was.
module _ (pc : ℕ → Pc) (i : ℕ) (x : Pc) (j : ℕ) where
  not_self : (y : Pc) → update pc i x j ≡ y → x ≢ y → (j ≢ i) × (pc j ≡ y)
  not_self y h ne = elim (update-cases pc i x j) [
    | inl (e, at_x) ↦ absurd (ne (sym at_x ∙ h))
    | inr (other, same) ↦ (other, sym same ∙ h)
  ]

  not_inside : inside (update pc i x j) ≡ true → inside x ≡ false → (j ≢ i) × (inside (pc j) ≡ true)
  not_inside h out = elim (update-cases pc i x j) [
    | inl (e, at_x) ↦ absurd (true-false (sym h ∙ (ap inside at_x ∙ out)))
    | inr (other, same) ↦ (other, ap inside (sym same) ∙ h)
  ]

  -- A CPU that stays inside or outside.
  as_before : inside (pc i) ≡ inside x → inside (update pc i x j) ≡ inside (pc j)
  as_before h = elim (update-cases pc i x j) [
    | inl (e, at_x) ↦ ap inside at_x ∙ (sym h ∙ ap (λ k. inside (pc k)) (sym e))
    | inr (other, same) ↦ ap inside same
  ]

  stays : (y : Pc) → pc j ≡ y → pc i ≢ y → update pc i x j ≡ y
  stays y h ne = elim (update-cases pc i x j) [
    | inl (e, at_x) ↦ absurd (ne (ap pc (sym e) ∙ h))
    | inr (other, same) ↦ same ∙ h
  ]

-- Places are told apart by their number.
abbrev code : Pc → ℕ
code outside = 0
code spinning = 1
code entering = 2
code critical = 3
code leaving = 4
code popping = 5

apart : (x y : Pc) → code x ≢ code y → x ≢ y
apart x y ne e = ne (ap code e)

elsewhere : (pc : Pc) (x y : Pc) → pc ≡ x → code x ≢ code y → pc ≢ y
elsewhere pc x y e ne h = ne (sym (ap code e) ∙ ap code h)

module _ (s : System) (v : IsExclusive s) (i : ℕ) where
  begin-IsExclusive :
      (c : Cpu)
      → s.pc i ≡ outside
      → IsExclusive (at_pc i spinning (record s { cpus = update s.cpus i c }))
  begin-IsExclusive c at_i = record {
    locked = λ j h. v.locked j (not_inside s.pc i spinning j h refl).1;
    one = λ j k hj hk.
        v.one j k (not_inside s.pc i spinning j hj refl).1 (not_inside s.pc i spinning k hk refl).1;
    named = λ j h.
        v.named j
          (not_self s.pc i spinning j critical h
            (apart spinning critical (λ e. absurd (omega arith)))).1;
    owner = λ j h.
        stays s.pc i spinning j critical (v.owner j h)
          (elsewhere (s.pc i) outside critical at_i (λ e. absurd (omega arith)));
  }

  grab-IsExclusive :
      s.pc i ≡ spinning
      → s.lock.locked ≡ false
      → IsExclusive (at_pc i entering (record s { lock = (test_and_set s.lock).1 }))
  grab-IsExclusive at_i unlocked = record {
    locked = λ j h. refl;
    one = λ j k hj hk. alone j hj ∙ sym (alone k hk);
    named = λ j h.
        v.named j
          (not_self s.pc i entering j critical h
            (apart entering critical (λ e. absurd (omega arith)))).1;
    owner = λ j h.
        stays s.pc i entering j critical (v.owner j h)
          (elsewhere (s.pc i) spinning critical at_i (λ e. absurd (omega arith)));
  }
    where
      alone : (j : ℕ) → inside (update s.pc i entering j) ≡ true → j ≡ i
      alone j h = elim (update-cases s.pc i entering j) [
        | inl (e, at_x) ↦ e
        | inr (other, same) ↦
            absurd (true-false (sym (v.locked j (ap inside (sym same) ∙ h)) ∙ unlocked))
      ]

  own-IsExclusive :
      s.pc i ≡ entering → IsExclusive (at_pc i critical (record s { lock = set_cpu i s.lock }))
  own-IsExclusive at_i = record {
    locked = λ j h. v.locked j (sym (before j) ∙ h);
    one = λ j k hj hk. v.one j k (sym (before j) ∙ hj) (sym (before k) ∙ hk);
    named = λ j h. ap some (v.one i j (ap inside at_i) (sym (before j) ∙ ap inside h));
    owner = λ j h.
        let e : j ≡ i = sym (some-some h) in
        elim (update-cases s.pc i critical j) [
          | inl (same, at_x) ↦ at_x
          | inr (other, same) ↦ absurd (other e)
        ];
  }
    where
      before : (j : ℕ) → inside (update s.pc i critical j) ≡ inside (s.pc j)
      before j = as_before s.pc i critical j (ap inside at_i)

  disown-IsExclusive :
      s.pc i ≡ critical
      → IsExclusive (at_pc i leaving (record s { lock = record s.lock { cpu = none } }))
  disown-IsExclusive at_i = record {
    locked = λ j h. v.locked j (sym (before j) ∙ h);
    one = λ j k hj hk. v.one j k (sym (before j) ∙ hj) (sym (before k) ∙ hk);
    named = λ j h.
        let (other, there) =
          not_self s.pc i leaving j critical h
            (apart leaving critical (λ e. absurd (omega arith))) in
        absurd (other (v.one j i (ap inside there) (ap inside at_i)));
    owner = λ j h. absurd (some-none (sym h));
  }
    where
      before : (j : ℕ) → inside (update s.pc i leaving j) ≡ inside (s.pc j)
      before j = as_before s.pc i leaving j (ap inside at_i)

  free-IsExclusive :
      s.pc i ≡ leaving → IsExclusive (at_pc i popping (record s { lock = lock_release s.lock }))
  free-IsExclusive at_i = record {
    locked = λ j h.
        let (other, there) = not_inside s.pc i popping j h refl in
        absurd (other (v.one j i there (ap inside at_i)));
    one = λ j k hj hk.
        v.one j k (not_inside s.pc i popping j hj refl).1 (not_inside s.pc i popping k hk refl).1;
    named = λ j h.
        v.named j
          (not_self s.pc i popping j critical h
            (apart popping critical (λ e. absurd (omega arith)))).1;
    owner = λ j h.
        stays s.pc i popping j critical (v.owner j h)
          (elsewhere (s.pc i) leaving critical at_i (λ e. absurd (omega arith)));
  }

  pop-IsExclusive :
      (c : Cpu)
      → s.pc i ≡ popping
      → IsExclusive (at_pc i outside (record s { cpus = update s.cpus i c }))
  pop-IsExclusive c at_i = record {
    locked = λ j h. v.locked j (not_inside s.pc i outside j h refl).1;
    one = λ j k hj hk.
        v.one j k (not_inside s.pc i outside j hj refl).1 (not_inside s.pc i outside k hk refl).1;
    named = λ j h.
        v.named j
          (not_self s.pc i outside j critical h
            (apart outside critical (λ e. absurd (omega arith)))).1;
    owner = λ j h.
        stays s.pc i outside j critical (v.owner j h)
          (elsewhere (s.pc i) popping critical at_i (λ e. absurd (omega arith)));
  }

-- What `release` leaves of the lock, when it returns.
release_begin-done :
    (lk lk' : Spinlock) (i : ℕ) → release_begin lk i ≡ done lk' → record lk { cpu = none } ≡ lk'
unfolding release_begin
release_begin-done lk lk' i h = elim (Bool-cases (holding lk i)) [
  | inl held ↦
      let e : release_begin lk i ≡ done (record lk { cpu = none }) =
        rw (release_begin, held) refl in
      done_done (sym e ∙ h)
  | inr foreign ↦
      let e : release_begin lk i ≡ panic release_bad = rw (release_begin, foreign) refl in
      absurd (panic_done (sym e ∙ h))
]

Step-IsExclusive : {s t : System} → Step s t → IsExclusive s → IsExclusive t
Step-IsExclusive {s = s} (begin i c at_i r) v = begin-IsExclusive s v i c at_i
Step-IsExclusive (spin i at_i r) v = v
Step-IsExclusive {s = s} (grab i at_i r) v = grab-IsExclusive s v i at_i r
Step-IsExclusive {s = s} (own i at_i) v = own-IsExclusive s v i at_i
Step-IsExclusive {s = s} (disown i lk at_i r) v =
    subst (λ x. IsExclusive (at_pc i leaving (record s { lock = x })))
      (release_begin-done s.lock lk i r) (disown-IsExclusive s v i at_i)
Step-IsExclusive {s = s} (free i at_i) v = free-IsExclusive s v i at_i
Step-IsExclusive {s = s} (pop i c at_i r) v = pop-IsExclusive s v i c at_i

Reaches-IsExclusive : (cpus : ℕ → Cpu) (s : System) → Reaches cpus s → IsExclusive s
Reaches-IsExclusive cpus s start = record {
  locked = λ i h. absurd (true-false (sym h));
  one = λ i j hi hj. absurd (true-false (sym hi));
  named = λ i h. absurd (apart outside critical (λ e. absurd (omega arith)) h);
  owner = λ i h. absurd (some-none (sym h));
}
Reaches-IsExclusive cpus s (later {s = s'} r step) =
    Step-IsExclusive step (Reaches-IsExclusive cpus s' r)

is_cpu-some : (o : Option ℕ) (i : ℕ) → is_cpu o i ≡ true → o ≡ some i
is_cpu-some none i h = absurd (true-false (sym h))
is_cpu-some (some j) i h = let e : j ≡ i = ground arith in ap some e

-- In every interleaving of CPUs that acquire and release a spin lock from its initialization on: two
-- CPUs between the end of the loop of `acquire` and `__sync_lock_release` are the same; `release` panics
-- neither on a CPU in the critical section nor in the `pop_off` at its end, which counts one down; and
-- `acquire` does not panic on a CPU that is not at the lock.
pub acquire-exclusive :
    (cpus : ℕ → Cpu) (s : System)
    → Reaches cpus s
    → ((i j : ℕ) → inside (s.pc i) ≡ true → inside (s.pc j) ≡ true → i ≡ j)
      × ((i : ℕ) → s.pc i ≡ critical → release_begin s.lock i ≡ done (record s.lock { cpu = none }))
      × ((i : ℕ)
          → s.pc i ≡ popping
          → (c : Cpu) × (pop_off (s.cpus i) ≡ done c) × (c.noff + 1 ≡ (s.cpus i).noff))
      × ((i : ℕ)
          → s.pc i ≡ outside
          → acquire_begin s.lock i (s.cpus i) ≡ done (push_off (s.cpus i)))
unfolding release_begin acquire_begin holding
acquire-exclusive cpus s r =
    let v = Reaches-IsExclusive cpus s r in
    (
      v.one,
      λ i at_i.
          let same : (i == i) ≡ true = ground arith in
          rw (release_begin, holding, v.locked i (ap inside at_i), v.named i at_i) (rw same refl),
      λ i at_i.
          let (off, counted) = Reaches-AreOff cpus s r i (ap pushed at_i) in
          pop_off-done (s.cpus i) off counted,
      λ i at_i.
          let free : holding s.lock i ≡ false = elim (Bool-cases (holding s.lock i)) [
            | inl held ↦ absurd (
                elsewhere (s.pc i) outside critical at_i (λ e. absurd (omega arith))
                  (v.owner i (is_cpu-some s.lock.cpu i (second s.lock.locked held))))
            | inr not_held ↦ not_held
          ] in
          rw (acquire_begin, free) refl,
    )
  where
    second : (a : Bool) {b : Bool} → (a && b) ≡ true → b ≡ true
    second true h = h
    second false h = absurd (true-false (sym h))
