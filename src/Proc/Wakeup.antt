-- ===== src/Proc/Wakeup.antt =====
-- `wakeup`, `sleep` and `kkill` on the process table, process by process.
use os_2_course_work.Prelude.{
  ℕ, zero, suc, ◌+◌, ◌<◌, ◌≡◌, ◌≢◌, ◌⊎◌, inl, inr, refl, ◌∙◌, ap, true, false, ◌&&◌, not, Option,
  none, some, List, [], ◌∷◌, get_elem?, arith, if◌then◌else◌, ◌==◌, get_elem?-modify_self, ==_iff,
  Bool-cases,
}
use os_2_course_work.Frames.{same_proc}
use os_2_course_work.Proc.{
  sleeping, runnable, Chan, same_chan, Proc, wakes, make_runnable, wakeup_from, wakeup, killed_proc,
  kkill, sleep,
}

-- What `wakeup` makes of the process at an index.
abbrev pub woken : Chan → Option ℕ → ℕ → Proc → Proc
woken chan self j p = if not (same_proc (some j) self) && wakes chan p then make_runnable p else p

wakeup_from_lem :
    (chan : Chan) (self : Option ℕ) (ps : List Proc) (i j : ℕ) (p : Proc)
    → get_elem? ps j ≡ some p
    → get_elem? (wakeup_from chan self ps i) j ≡ some (woken chan self (i + j) p)
unfolding wakeup_from
wakeup_from_lem chan self [] i j p e = cc
wakeup_from_lem chan self (q ∷ ps) i zero p e =
    let same : i + 0 ≡ i = omega arith in
    rw same
      (ap (λ (o : Option Proc). elim o [ none ↦ none | some x ↦ some (woken chan self i x) ]) e)
wakeup_from_lem chan self (q ∷ ps) i (suc j) p e =
    let same : i + suc j ≡ i + 1 + j = omega arith in
    rw same (wakeup_from_lem chan self ps (i + 1) j p e)

-- `wakeup` makes every process runnable that sleeps on the channel, but for the current one, and
-- changes no other process.
pub wakeup_lem :
    (chan : Chan) (self : Option ℕ) (ps : List Proc) (j : ℕ) (p : Proc)
    → get_elem? ps j ≡ some p
    → get_elem? (wakeup chan self ps) j ≡ some (woken chan self j p)
unfolding wakeup
wakeup_lem chan self ps j p e =
    let same : 0 + j ≡ j = omega arith in
    wakeup_from_lem chan self ps 0 j p e ∙ ap (λ k. some (woken chan self k p)) same

pub same_chan_refl : (c : Chan) → same_chan c c ≡ true
same_chan_refl Chan.null = refl
same_chan_refl (Chan.of_proc p) = (==_iff p p).1 refl
same_chan_refl (Chan.address a) = (==_iff a a).1 refl

-- No wakeup is lost: a process that went to sleep on a channel is runnable after a `wakeup` of that
-- channel by another process, and its channel is still the one that it slept on.
pub wakeup-sleep :
    (chan : Chan) (self : Option ℕ) (ps : List Proc) (j : ℕ) (p : Proc)
    → get_elem? ps j ≡ some p
    → same_proc (some j) self ≡ false
    → get_elem? (wakeup chan self (sleep chan j ps)) j
      ≡ some (record p { chan = chan; state = runnable })
unfolding sleep
wakeup-sleep chan self ps j p e ne =
    wakeup_lem chan self (sleep chan j ps) j (record p { chan = chan; state = sleeping })
      (get_elem?-modify_self (λ q. record q { chan = chan; state = sleeping }) ps j p e)
    ∙ ground (arith, same_chan_refl chan)

-- The process that `kkill pid` finds: the first one with that pid.
pub record Killed (pid : ℕ) (ps : List Proc) : Type 0 where
  pub place : ℕ
  pub victim : Proc
  pub after : List Proc
  pub returns : kkill pid ps ≡ some after
  pub at_place : get_elem? ps place ≡ some victim
  pub named : victim.pid ≡ pid
  pub first : (j : ℕ) (q : Proc) → j < place → get_elem? ps j ≡ some q → q.pid ≢ pid
  pub now : get_elem? after place ≡ some (killed_proc victim)
  pub others : (j : ℕ) → place ≢ j → get_elem? after j ≡ get_elem? ps j

abbrev pub NoPid : ℕ → List Proc → Type 0
NoPid pid [] = Unit {0}
NoPid pid (p ∷ ps) = (p.pid ≢ pid) × NoPid pid ps

Killed-cons :
    (pid : ℕ) (p : Proc) (ps : List Proc) → p.pid ≢ pid → Killed pid ps → Killed pid (p ∷ ps)
Killed-cons pid p ps ne k = record {
  place = suc k.place;
  victim = k.victim;
  after = p ∷ k.after;
  returns = unfold kkill in ground (arith, k.returns);
  at_place = k.at_place;
  named = k.named;
  first = before;
  now = k.now;
  others = rest;
}
  where
    before : (j : ℕ) (q : Proc) → j < suc k.place → get_elem? (p ∷ ps) j ≡ some q → q.pid ≢ pid
    before zero q h e = ground arith
    before (suc j) q h e = k.first j q (omega arith) e

    rest : (j : ℕ) → suc k.place ≢ j → get_elem? (p ∷ k.after) j ≡ get_elem? (p ∷ ps) j
    rest zero h = refl
    rest (suc j) h = k.others j (λ e. h (ap suc e))

Killed-head : (pid : ℕ) (p : Proc) (ps : List Proc) → p.pid ≡ pid → Killed pid (p ∷ ps)
Killed-head pid p ps e = record {
  place = 0;
  victim = p;
  after = killed_proc p ∷ ps;
  returns = unfold kkill in ground arith;
  at_place = refl;
  named = e;
  first = λ j q h f. absurd (omega arith);
  now = refl;
  others = rest;
}
  where
    rest : (j : ℕ) → 0 ≢ j → get_elem? (killed_proc p ∷ ps) j ≡ get_elem? (p ∷ ps) j
    rest zero h = absurd (h refl)
    rest (suc j) h = refl

-- `kkill` returns -1 exactly when no process has the pid; otherwise it marks the first process that
-- has it as killed, wakes that one if it sleeps, and changes no other process.
pub kkill_lem : (pid : ℕ) (ps : List Proc) → ((kkill pid ps ≡ none) × NoPid pid ps) ⊎ Killed pid ps
unfolding kkill
kkill_lem pid [] = inl (refl, tt)
kkill_lem pid (p ∷ ps) = elim (Bool-cases (p.pid == pid)) [
  | inl h ↦ inr (Killed-head pid p ps ((==_iff p.pid pid).0 h))
  | inr h ↦ elim (kkill_lem pid ps) [
    | inl n ↦ inl (rw (h, n.0), (ground arith, n.1))
    | inr k ↦ inr (Killed-cons pid p ps (ground arith) k)
  ]
]
