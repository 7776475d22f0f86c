-- ===== src/Proc/Exit/Wait.antt =====
-- `kwait`: which child a round of its loop reaps, and when it returns -1 or sleeps.
use os_2_course_work.Prelude.{
  ℕ, zero, suc, ◌+◌, ◌<◌, ◌≡◌, ◌⊎◌, inl, inr, refl, Bool, true, false, ◌&&◌, ◌||◌, not, some, done,
  ◌>>=◌, List, [], ◌∷◌, ◌==◌, if◌then◌else◌, arith, get_elem?, Bool-cases, minus_one,
}
use os_2_course_work.Frames.{same_proc}
use os_2_course_work.Proc.{zombie, Proc, Kernel, FreeMemory, is_state, freeproc, killed}
use os_2_course_work.Proc.Exit.{
  Waited, dead_child, no_zombie, CopyStatus, scan_children, returned, asleep, kwait_round,
}

abbrev pub is_child : ℕ → Proc → Bool
is_child p q = same_proc q.parent (some p)

abbrev pub is_dead_child : ℕ → Proc → Bool
is_dead_child p q = is_child p q && is_state q.state zombie

abbrev pub None : (Proc → Bool) → List Proc → Type 0
None test [] = Unit {0}
None test (q ∷ qs) = (test q ≡ false) × None test qs

abbrev pub any : (Proc → Bool) → List Proc → Bool
any test [] = false
any test (q ∷ qs) = test q || any test qs

-- `k` is the first dead child.
pub record FirstDead (p : ℕ) (qs : List Proc) (k : ℕ) : Type 0 where
  pub child : Proc
  pub at_k : get_elem? qs k ≡ some child
  pub dead : is_dead_child p child ≡ true
  pub alive_before :
      (j : ℕ) (q : Proc) → j < k → get_elem? qs j ≡ some q → is_dead_child p q ≡ false

FirstDead-suc :
    (p : ℕ) (q : Proc) (qs : List Proc) (k : ℕ)
    → is_dead_child p q ≡ false
    → FirstDead p qs k
    → FirstDead p (q ∷ qs) (suc k)
FirstDead-suc p q qs k h f = record {
  child = f.child;
  at_k = f.at_k;
  dead = f.dead;
  alive_before = before;
}
  where
    before :
        (j : ℕ) (r : Proc) → j < suc k → get_elem? (q ∷ qs) j ≡ some r → is_dead_child p r ≡ false
    before zero r hj e = let same : q ≡ r = cc in rw (← same) h
    before (suc j) r hj e = f.alive_before j r (omega arith) e

-- How the scan ends.
abbrev Ends : ℕ → List Proc → ℕ → Bool → Waited → Type 0
Ends p qs i havekids r =
    ((r ≡ no_zombie (havekids || any (is_child p) qs)) × None (is_dead_child p) qs)
    ⊎ ((k : ℕ) × (f : FirstDead p qs k) × (r ≡ dead_child (i + k) f.child.pid))

scan_skip :
    (p : ℕ) (q : Proc) (qs : List Proc) (i : ℕ) (havekids seen : Bool) (r : Waited)
    → is_dead_child p q ≡ false
    → seen ≡ (havekids || is_child p q)
    → Ends p qs (i + 1) seen r
    → Ends p (q ∷ qs) i havekids r
unfolding FirstDead-suc
scan_skip p q qs i havekids seen r h e (inl n) = inl (ground (arith, n.0, e), (h, n.1))
scan_skip p q qs i havekids seen r h e (inr (k, f, n)) =
    let same : i + 1 + k ≡ i + suc k = omega arith in
    inr (suc k, FirstDead-suc p q qs k h f, rw same at n)

module _ (p : ℕ) (q : Proc) (qs : List Proc) (i : ℕ) (havekids : Bool) where
  scan_other :
      is_child p q ≡ false
      → scan_children p (q ∷ qs) i havekids ≡ scan_children p qs (i + 1) havekids
  unfolding scan_children
  scan_other h = ground arith

  scan_alive :
      is_child p q ≡ true
      → is_state q.state zombie ≡ false
      → scan_children p (q ∷ qs) i havekids ≡ scan_children p qs (i + 1) true
  unfolding scan_children
  scan_alive h a = ground arith

  scan_dead :
      is_child p q ≡ true
      → is_state q.state zombie ≡ true
      → scan_children p (q ∷ qs) i havekids ≡ dead_child i q.pid
  unfolding scan_children
  scan_dead h a = ground arith

scan_children_lem :
    (p : ℕ) (qs : List Proc) (i : ℕ) (havekids : Bool)
    → Ends p qs i havekids (scan_children p qs i havekids)
scan_children_lem p [] i havekids = inl (unfold scan_children in ground arith, tt)
scan_children_lem p (q ∷ qs) i havekids = elim (Bool-cases (is_child p q)) [
  | inr other ↦
      (rw (scan_other p q qs i havekids other) (
        scan_skip p q qs i havekids havekids (scan_children p qs (i + 1) havekids) (ground arith)
          (ground arith) (scan_children_lem p qs (i + 1) havekids)))
  | inl child ↦ elim (Bool-cases (is_state q.state zombie)) [
    | inr alive ↦
        (rw (scan_alive p q qs i havekids child alive) (
          scan_skip p q qs i havekids true (scan_children p qs (i + 1) true) (ground arith)
            (ground arith) (scan_children_lem p qs (i + 1) true)))
    | inl dead ↦
        let same : i + 0 ≡ i = omega arith in
        inr (
          0,
          record {
            child = q;
            at_k = refl;
            dead = ground arith;
            alive_before = λ j r hj e. absurd (omega arith);
          },
          rw same (scan_dead p q qs i havekids child dead),
        )
  ]
]

-- A round of `kwait` with no dead child changes nothing: it returns -1 if the caller has no child or
-- has been killed, and sleeps otherwise. With a dead child it takes the first one and copies its status
-- to the caller: if that goes well it frees that entry in what the copy leaves and returns the pid that
-- the child had before, otherwise it returns -1 and frees nothing, and if the copy panics so does it.
pub kwait_round_lem :
    (free_memory : FreeMemory) (copy : CopyStatus) (p : ℕ) (k : Kernel)
    → (None (is_dead_child p) k.procs
        × (kwait_round free_memory copy p k
            ≡ done (
              k,
              if not (any (is_child p) k.procs) || not (killed p k.procs == 0)
                  then returned minus_one
                  else asleep,
            )))
      ⊎ ((i : ℕ) × (f : FirstDead p k.procs i) × (kwait_round free_memory copy p k ≡ (
            copy i k >>= λ (copied, k'). done (
              if copied
              then (freeproc free_memory i k', returned f.child.pid)
              else (k', returned minus_one)))))
unfolding kwait_round
kwait_round_lem free_memory copy p k = elim (scan_children_lem p k.procs 0 false) [
  | inl n ↦ inl (n.1, rw (kwait_round, n.0) refl)
  | inr (i, f, n) ↦ let same : 0 + i ≡ i = omega arith in inr (i, f, rw (kwait_round, n, same) refl)
]
