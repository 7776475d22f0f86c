-- ===== src/Lock/Steps.antt =====
-- CPUs that acquire and release one spin lock, interleaved in any order.
use os_2_course_work.Prelude.{ℕ, ◌≤◌, ◌≡◌, Bool, true, false, some, done, ◌==◌, if◌then◌else◌}
use os_2_course_work.Lock.{
  Spinlock, Cpu, initlock, pop_off, acquire_begin, test_and_set, set_cpu, release_begin,
  lock_release,
}

-- Where a CPU is: not at the lock, in the loop of `acquire`, between the loop and `lk->cpu = mycpu()`, in the
-- critical section, between `lk->cpu = 0` and `__sync_lock_release`, and before the `pop_off` of `release`.
pub data Pc : Type 0 where
  outside spinning entering critical leaving popping : Pc

abbrev pub update {ℓ} : {A : Type ℓ} → (ℕ → A) → ℕ → A → ℕ → A
update f i x = λ j. if j == i then x else f j

pub record System : Type 0 where
  pub lock : Spinlock
  pub cpus : ℕ → Cpu
  pub pc : ℕ → Pc

abbrev pub at_pc : ℕ → Pc → System → System
at_pc i x s = record s { pc = update s.pc i x }

-- One step of the CPU `i`.
pub data Step (s : System) : System → Type 0 where
  begin :
      (i : ℕ) (c : Cpu)
      → s.pc i ≡ outside
      → acquire_begin s.lock i (s.cpus i) ≡ done c
      → Step s (at_pc i spinning (record s { cpus = update s.cpus i c }))
  spin : (i : ℕ) → s.pc i ≡ spinning → (test_and_set s.lock).0 ≡ true → Step s s
  grab :
      (i : ℕ)
      → s.pc i ≡ spinning
      → (test_and_set s.lock).0 ≡ false
      → Step s (at_pc i entering (record s { lock = (test_and_set s.lock).1 }))
  own :
      (i : ℕ) → s.pc i ≡ entering → Step s (at_pc i critical (record s { lock = set_cpu i s.lock }))
  disown :
      (i : ℕ) (lk : Spinlock)
      → s.pc i ≡ critical
      → release_begin s.lock i ≡ done lk
      → Step s (at_pc i leaving (record s { lock = lk }))
  free :
      (i : ℕ)
      → s.pc i ≡ leaving
      → Step s (at_pc i popping (record s { lock = lock_release s.lock }))
  pop :
      (i : ℕ) (c : Cpu)
      → s.pc i ≡ popping
      → pop_off (s.cpus i) ≡ done c
      → Step s (at_pc i outside (record s { cpus = update s.cpus i c }))

abbrev pub inside : Pc → Bool
inside outside = false
inside spinning = false
inside entering = true
inside critical = true
inside leaving = true
inside popping = false

-- Between `push_off` and `pop_off`.
abbrev pub pushed : Pc → Bool
pushed outside = false
pushed spinning = true
pushed entering = true
pushed critical = true
pushed leaving = true
pushed popping = true

-- The state between steps.
pub record IsExclusive (s : System) : Type 0 where
  pub locked : (i : ℕ) → inside (s.pc i) ≡ true → s.lock.locked ≡ true
  pub one : (i j : ℕ) → inside (s.pc i) ≡ true → inside (s.pc j) ≡ true → i ≡ j
  pub named : (i : ℕ) → s.pc i ≡ critical → s.lock.cpu ≡ some i
  pub owner : (i : ℕ) → s.lock.cpu ≡ some i → s.pc i ≡ critical

-- A CPU between `push_off` and `pop_off` has interrupts disabled, and has counted the `push_off`.
abbrev pub AreOff : System → Type 0
AreOff s = (i : ℕ) → pushed (s.pc i) ≡ true → ((s.cpus i).intr ≡ false) × (1 ≤ (s.cpus i).noff)

-- The runs from a free lock with every CPU elsewhere.
pub data Reaches (cpus : ℕ → Cpu) : System → Type 0 where
  start : Reaches cpus (record { lock = initlock; cpus = cpus; pc = λ i. outside })
  later : {s t : System} → Reaches cpus s → Step s t → Reaches cpus t
