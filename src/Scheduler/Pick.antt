-- ===== src/Scheduler/Pick.antt =====
-- Which process a round of `scheduler` runs: a runnable one of the best level, in rotation.
use os_2_course_work.Prelude.{
  ℕ, zero, suc, ◌+◌, ◌-◌, ◌%◌, ◌≤◌, ◌<◌, ◌≡◌, ◌⊎◌, inl, inr, refl, true, false, Option, none, some,
  List, arith, Bool-cases,
}
use os_2_course_work.Proc.{Proc, proc_at, nproc}
use os_2_course_work.Scheduler.{Sched, mlfq_levels, is_ready, find_offset, find_level, find}

-- The index that the rotation visits at an offset.
abbrev pub turn : ℕ → ℕ → ℕ
turn prev_i offset = (prev_i + offset) % nproc

-- The offset `at` is the first one, from `from` on, whose process is ready at the level.
pub record FirstReady (ps : List Proc) (prev_i level from upto : ℕ) (r : Option ℕ) : Type 0 where
  pub at : ℕ
  pub returns : r ≡ some (turn prev_i at)
  pub lower : from ≤ at
  pub upper : at < upto
  pub ready : is_ready level (proc_at ps (turn prev_i at)) ≡ true
  pub earlier : (o : ℕ) → from ≤ o → o < at → is_ready level (proc_at ps (turn prev_i o)) ≡ false

abbrev NoneReady : List Proc → ℕ → ℕ → ℕ → ℕ → Type 0
NoneReady ps prev_i level from upto =
    (o : ℕ) → from ≤ o → o < upto → is_ready level (proc_at ps (turn prev_i o)) ≡ false

extend :
    (ps : List Proc) (prev_i level from at : ℕ)
    → is_ready level (proc_at ps (turn prev_i from)) ≡ false
    → ((o : ℕ) → from + 1 ≤ o → o < at → is_ready level (proc_at ps (turn prev_i o)) ≡ false)
    → (o : ℕ) → from ≤ o
    → o < at
    → is_ready level (proc_at ps (turn prev_i o)) ≡ false
extend ps prev_i level from at h k o lo hi = elim (eq_or_lt from o lo) [
  | inl e ↦ rw (← e) h
  | inr lt ↦ k o (omega arith) hi
]
  where
    eq_or_lt : (a b : ℕ) → a ≤ b → (a ≡ b) ⊎ (a < b)
    eq_or_lt a b h = ground arith

find_offset_lem :
    (ps : List Proc) (prev_i level n from : ℕ)
    → ((find_offset ps prev_i level n from ≡ none) × NoneReady ps prev_i level from (from + n))
      ⊎ FirstReady ps prev_i level from (from + n) (find_offset ps prev_i level n from)
unfolding find_offset
find_offset_lem ps prev_i level zero from = inl (refl, λ o lo hi. absurd (omega arith))
find_offset_lem ps prev_i level (suc n) from =
    elim (Bool-cases (is_ready level (proc_at ps (turn prev_i from)))) [
      | inl h ↦ inr (record {
        at = from;
        returns = rw (h, find_offset);
        lower = omega arith;
        upper = omega arith;
        ready = h;
        earlier = λ o lo hi. absurd (omega arith);
      })
      | inr h ↦ elim (find_offset_lem ps prev_i level n (from + 1)) [
        | inl r ↦ inl (
          rw (h, find_offset) r.0,
          extend ps prev_i level from (from + suc n) h (λ o lo hi. r.1 o lo (omega arith)),
        )
        | inr r ↦ inr (record {
          at = r.at;
          returns = rw (h, find_offset) r.returns;
          lower = omega (arith, r.lower);
          upper = omega (arith, r.upper);
          ready = r.ready;
          earlier = extend ps prev_i level from r.at h r.earlier;
        })
      ]
    ]

-- Every index is visited in one turn of the rotation.
none_ready :
    (ps : List Proc) (prev_i level j : ℕ)
    → prev_i < nproc
    → j < nproc
    → NoneReady ps prev_i level 0 (0 + nproc)
    → is_ready level (proc_at ps j) ≡ false
none_ready ps prev_i level j hp hj h =
    let e : turn prev_i ((j + nproc - prev_i) % nproc) ≡ j = omega arith in
    rw e at (h ((j + nproc - prev_i) % nproc) (omega arith) (omega arith))

-- The round runs the process at `at` of the rotation: it is runnable, at level `level`; no process
-- is runnable at a better level, nor comes earlier in the rotation at the same level.
pub record Chosen (s : Sched) (r : Option ℕ) : Type 0 where
  pub level : ℕ
  pub level_small : level < mlfq_levels
  pub first : FirstReady s.procs s.prev_i level 0 nproc r
  pub better : (l j : ℕ) → l < level → j < nproc → is_ready l (proc_at s.procs j) ≡ false

find_level_lem :
    (s : Sched) (n level : ℕ)
    → s.prev_i < nproc
    → level + n ≡ mlfq_levels
    → ((l j : ℕ) → l < level → j < nproc → is_ready l (proc_at s.procs j) ≡ false)
    → ((find_level s.procs s.prev_i n level ≡ none)
        × ((l j : ℕ) → l < mlfq_levels → j < nproc → is_ready l (proc_at s.procs j) ≡ false))
      ⊎ Chosen s (find_level s.procs s.prev_i n level)
unfolding find_level
find_level_lem s zero level hp e h = inl (refl, λ l j hl hj. h l j (omega arith) hj)
find_level_lem s (suc n) level hp e h = elim (find_offset_lem s.procs s.prev_i level nproc 0) [
  | inl r ↦
      let rest = find_level_lem s n (level + 1) hp (omega arith) (extend_levels r.1) in
      rw (r.0, find_level) rest
  | inr r ↦ inr (
      rw (r.returns, find_level)
        (record {
          level = level;
          level_small = omega arith;
          first = record {
            at = r.at;
            returns = refl;
            lower = r.lower;
            upper = omega (arith, r.upper);
            ready = r.ready;
            earlier = r.earlier;
          };
          better = h;
        }))
]
  where
    extend_levels :
        NoneReady s.procs s.prev_i level 0 (0 + nproc)
        → (l j : ℕ) → l < level + 1
        → j < nproc
        → is_ready l (proc_at s.procs j) ≡ false
    extend_levels none_here l j hl hj = elim (lt_or_eq l level hl) [
      | inl lt ↦ h l j lt hj
      | inr eq ↦ rw eq (none_ready s.procs s.prev_i level j hp hj none_here)
    ]
      where
        lt_or_eq : (a b : ℕ) → a < b + 1 → (a < b) ⊎ (a ≡ b)
        lt_or_eq a b k = ground arith

-- With `prev_i` inside the table, a round finds no process only if none is runnable at levels 0 to
-- 3. Otherwise it finds a runnable process of the least level that has one, the first of that level
-- in the rotation from `prev_i`.
pub find_lem :
    (s : Sched)
    → s.prev_i < nproc
    → ((find s ≡ none)
        × ((l j : ℕ) → l < mlfq_levels → j < nproc → is_ready l (proc_at s.procs j) ≡ false))
      ⊎ Chosen s (find s)
unfolding find
find_lem s hp = find_level_lem s mlfq_levels 0 hp refl (λ l j hl hj. absurd (omega arith))
