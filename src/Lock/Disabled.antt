-- ===== src/Lock/Disabled.antt =====
-- Interrupts at a spin lock: `push_off` at the start of `acquire` and `pop_off` at the end of `release`.
use os_2_course_work.Prelude.{
  ℕ, ◌+◌, ◌-◌, ◌≤◌, ◌≡◌, ◌≢◌, ◌⊎◌, inl, inr, refl, sym, ap, ◌∙◌, true, false, ◌&&◌, done, panic,
  acquire_bad, ◌==◌, ltb, Bool-cases, panic_done, done_done, true-false, ℕ_discrete, arith,
  if◌then◌else◌,
}
use os_2_course_work.Lock.{Spinlock, Cpu, push_off, pop_off, holding, acquire_begin}
use os_2_course_work.Lock.Steps.{
  Pc, outside, spinning, entering, critical, leaving, popping, update, System, Step, begin, spin,
  grab, own, disown, free, pop, pushed, AreOff, Reaches, start, later,
}

-- A place of the updated map: the one that was updated, or another, as it was.
pub update-cases {ℓ} :
    {A : Type ℓ} (f : ℕ → A) (i : ℕ) (x : A) (j : ℕ)
    → ((j ≡ i) × (update f i x j ≡ x)) ⊎ ((j ≢ i) × (update f i x j ≡ f j))
update-cases f i x j = elim (ℕ_discrete j i) [
  | yes e ↦ let hit : (j == i) ≡ true = ground arith in inl (e, rw hit refl)
  | no ne ↦ let miss : (j == i) ≡ false = ground arith in inr (ne, rw miss refl)
]

-- What `acquire` does to the CPU before its loop, when it does not panic.
acquire_begin-off :
    (lk : Spinlock) (i : ℕ) (c c' : Cpu)
    → acquire_begin lk i c ≡ done c'
    → (c'.intr ≡ false) × (1 ≤ c'.noff)
unfolding acquire_begin push_off
acquire_begin-off lk i c c' h = elim (Bool-cases (holding lk i)) [
  | inl held ↦
      let e : acquire_begin lk i c ≡ panic acquire_bad = rw (acquire_begin, held) refl in
      absurd (panic_done (sym e ∙ h))
  | inr other ↦
      let e : acquire_begin lk i c ≡ done (push_off c) = rw (acquire_begin, other) refl in
      let same : push_off c ≡ c' = done_done (sym e ∙ h) in
      (ap (λ (x : Cpu). x.intr) (sym same), rw (← same) (omega arith))
]

pub pop_off-done :
    (c : Cpu)
    → c.intr ≡ false
    → 1 ≤ c.noff
    → (c' : Cpu) × (pop_off c ≡ done c') × (c'.noff + 1 ≡ c.noff)
unfolding pop_off
pop_off-done c off counted =
    let some_left : ltb c.noff 1 ≡ false = ground arith in
    (
      record {
        noff = c.noff - 1;
        intena = c.intena;
        intr = if c.noff - 1 == 0 && c.intena then true else c.intr;
      },
      rw (pop_off, off, some_left) refl,
      omega arith,
    )

module _ (s : System) (h : AreOff s) (i : ℕ) where
  -- A step of a CPU that stays between the two calls.
  stays-AreOff :
      (x : Pc)
      → pushed (s.pc i) ≡ true
      → (j : ℕ) → pushed (update s.pc i x j) ≡ true
      → ((s.cpus j).intr ≡ false) × (1 ≤ (s.cpus j).noff)
  stays-AreOff x at_i j on = elim (update-cases s.pc i x j) [
    | inl (e, at_x) ↦ h j (ap (λ k. pushed (s.pc k)) e ∙ at_i)
    | inr (other, same) ↦ h j (ap pushed (sym same) ∙ on)
  ]

  -- A step that changes the CPU too.
  changed-AreOff :
      (x : Pc) (c : Cpu)
      → (pushed x ≡ true → (c.intr ≡ false) × (1 ≤ c.noff))
      → (j : ℕ) → pushed (update s.pc i x j) ≡ true
      → ((update s.cpus i c j).intr ≡ false) × (1 ≤ (update s.cpus i c j).noff)
  changed-AreOff x c new j on = elim (ℕ_discrete j i) [
    | yes e ↦
        let hit : (j == i) ≡ true = ground arith in
        let at_x : update s.pc i x j ≡ x = rw hit refl in rw hit (new (ap pushed (sym at_x) ∙ on))
    | no ne ↦
        let miss : (j == i) ≡ false = ground arith in
        let same : update s.pc i x j ≡ s.pc j = rw miss refl in
        rw miss (h j (ap pushed (sym same) ∙ on))
  ]

Step-AreOff : {s t : System} → Step s t → AreOff s → AreOff t
Step-AreOff {s = s} (begin i c at_i r) h =
    changed-AreOff s h i spinning c (λ e. acquire_begin-off s.lock i (s.cpus i) c r)
Step-AreOff (spin i at_i r) h = h
Step-AreOff {s = s} (grab i at_i r) h = stays-AreOff s h i entering (ap pushed at_i)
Step-AreOff {s = s} (own i at_i) h = stays-AreOff s h i critical (ap pushed at_i)
Step-AreOff {s = s} (disown i lk at_i r) h = stays-AreOff s h i leaving (ap pushed at_i)
Step-AreOff {s = s} (free i at_i) h = stays-AreOff s h i popping (ap pushed at_i)
Step-AreOff {s = s} (pop i c at_i r) h =
    changed-AreOff s h i outside c (λ e. absurd (true-false (sym e)))

pub Reaches-AreOff : (cpus : ℕ → Cpu) (s : System) → Reaches cpus s → AreOff s
Reaches-AreOff cpus s start = λ i e. absurd (true-false (sym e))
Reaches-AreOff cpus s (later {s = s'} r step) = Step-AreOff step (Reaches-AreOff cpus s' r)
