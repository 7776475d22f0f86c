-- ===== src/Frames/Victim.antt =====
-- `clock_pick_victim`: a process pays with its own frames first, and the search never fails while
-- some frame is owned.
use os_2_course_work.Prelude.{
  ℕ, zero, suc, ◌+◌, ◌%◌, ◌<◌, ◌≡◌, inl, inr, refl, sym, ◌∙◌, ap, Bool, true, Option, some, List,
  Outcome, done, length, set, arith, ℕ_discrete, get_or-set_self, get_or-set_ne, length-set,
}
use os_2_course_work.Frames.{
  FrameEntry, Clock, Visit, skip, second_chance, victim, visit, empty_frame, clear_ref, frame_at,
  is_own, is_owned, sweep_loop, clock_pick_victim, max_frames,
}
use os_2_course_work.Frames.Sweep.{Picks, sweep_finds, sweep_sound}

pub record IsClock (c : Clock) : Type 0 where
  pub frames : length c.frame_table ≡ max_frames
  pub hand : c.clock_hand < max_frames

-- What a sweep may change: reference bits and the hand.
pub record SameFrames (c d : Clock) : Type 0 where
  pub valid : IsClock d
  pub used : (i : ℕ) → (frame_at d.frame_table i).used ≡ (frame_at c.frame_table i).used
  pub proc : (i : ℕ) → (frame_at d.frame_table i).proc ≡ (frame_at c.frame_table i).proc
  pub va : (i : ℕ) → (frame_at d.frame_table i).va ≡ (frame_at c.frame_table i).va
  pub pa : (i : ℕ) → (frame_at d.frame_table i).pa ≡ (frame_at c.frame_table i).pa

SameFrames-refl : (c : Clock) → IsClock c → SameFrames c c
SameFrames-refl c v = record {
  valid = v;
  used = λ i. refl;
  proc = λ i. refl;
  va = λ i. refl;
  pa = λ i. refl;
}

SameFrames-trans : (a b c : Clock) → SameFrames a b → SameFrames b c → SameFrames a c
SameFrames-trans a b c p q = record {
  valid = q.valid;
  used = λ i. q.used i ∙ p.used i;
  proc = λ i. q.proc i ∙ p.proc i;
  va = λ i. q.va i ∙ p.va i;
  pa = λ i. q.pa i ∙ p.pa i;
}

-- A field that `clear_ref` keeps is kept at every index.
kept :
    {A : Type 0} (field : FrameEntry → A) (table : List FrameEntry) (h i : ℕ)
    → ((f : FrameEntry) → field (clear_ref f) ≡ field f)
    → h < length table
    → field (frame_at (set table h (clear_ref (frame_at table h))) i) ≡ field (frame_at table i)
kept field table h i keep hh = elim (ℕ_discrete h i) [
  | yes e ↦
      rw (← e, get_or-set_self table h (clear_ref (frame_at table h)) empty_frame hh)
        (keep (frame_at table h))
  | no ne ↦ ap field (get_or-set_ne table h i (clear_ref (frame_at table h)) empty_frame ne)
]

abbrev onward : Clock → Clock
onward c = record c { clock_hand = (c.clock_hand + 1) % 32 }

abbrev marked : Clock → Clock
marked c = record {
  frame_table = set c.frame_table c.clock_hand (clear_ref (frame_at c.frame_table c.clock_hand));
  clock_hand = (c.clock_hand + 1) % 32;
}

onward_same : (c : Clock) → IsClock c → SameFrames c (onward c)
onward_same c v = record {
  valid = record { frames = v.frames; hand = omega arith };
  used = λ i. refl;
  proc = λ i. refl;
  va = λ i. refl;
  pa = λ i. refl;
}

marked_same : (c : Clock) → IsClock c → SameFrames c (marked c)
marked_same c v =
    let h : c.clock_hand < length c.frame_table = omega (arith, v.hand, v.frames) in
    record {
      valid = record {
        frames =
            length-set c.frame_table c.clock_hand (clear_ref (frame_at c.frame_table c.clock_hand))
            ∙ v.frames;
        hand = omega arith;
      };
      used = λ i. kept (λ g. g.used) c.frame_table c.clock_hand i (λ g. refl) h;
      proc = λ i. kept (λ g. g.proc) c.frame_table c.clock_hand i (λ g. refl) h;
      va = λ i. kept (λ g. g.va) c.frame_table c.clock_hand i (λ g. refl) h;
      pa = λ i. kept (λ g. g.pa) c.frame_table c.clock_hand i (λ g. refl) h;
    }

visit_same :
    (c : Clock) (w : Visit) (a b d : Option ℕ × Clock)
    → SameFrames c a.1
    → SameFrames c b.1
    → SameFrames c d.1
    → SameFrames c
        (let r : Option ℕ × Clock = elim w [ skip ↦ a | second_chance ↦ b | victim ↦ d ] in r).1
visit_same c skip a b d p q r = p
visit_same c second_chance a b d p q r = q
visit_same c victim a b d p q r = r

sweep_loop-SameFrames :
    (considers : FrameEntry → Bool) (n : ℕ) (c : Clock)
    → IsClock c
    → SameFrames c (sweep_loop considers n c).1
unfolding sweep_loop
sweep_loop-SameFrames considers zero c v = SameFrames-refl c v
sweep_loop-SameFrames considers (suc n) c v =
    let f = frame_at c.frame_table c.clock_hand in
    let o = onward_same c v in
    let m = marked_same c v in
    visit_same c (visit (considers f) f.ref_bit) (sweep_loop considers n (onward c))
      (sweep_loop considers n (marked c)) (some c.clock_hand, onward c)
      (SameFrames-trans c (onward c) _ o (sweep_loop-SameFrames considers n (onward c) o.valid))
      (SameFrames-trans c (marked c) _ m (sweep_loop-SameFrames considers n (marked c) m.valid)) o

-- What `clock_pick_victim` returns: a frame that `considers` accepts, with nothing changed but
-- reference bits and the hand.
pub record Victim (considers : FrameEntry → Bool) (c : Clock) (r : Outcome (ℕ × Clock))
    : Type 0 where
  pub index : ℕ
  pub after : Clock
  pub returns : r ≡ done (index, after)
  pub in_table : index < max_frames
  pub considered : considers (frame_at c.frame_table index) ≡ true
  pub same : SameFrames c after

is_own-blind : (curr : Option ℕ) (f : FrameEntry) → is_own curr (clear_ref f) ≡ is_own curr f
unfolding is_own
is_own-blind curr f = refl

is_owned-blind : (f : FrameEntry) → is_owned (clear_ref f) ≡ is_owned f
unfolding is_owned
is_owned-blind f = refl

-- On a table of 32 frames with the hand inside it: if the current process has a frame, in whatever
-- state the reference bits are, the victim is a frame of the current process, and nothing but
-- reference bits and the hand changes.
pub clock_pick_victim-own :
    (curr : Option ℕ) (c : Clock) (t : ℕ)
    → IsClock c
    → t < max_frames
    → is_own curr (frame_at c.frame_table t) ≡ true
    → Victim (is_own curr) c (clock_pick_victim curr c)
clock_pick_victim-own curr c t v ht h =
    let p = sweep_finds (is_own curr) (is_own-blind curr) c t v.frames v.hand ht h in
    record {
      index = p.index;
      after = (sweep_loop (is_own curr) 64 c).1;
      returns = unfold clock_pick_victim in ground (arith, p.picks);
      in_table = p.in_table;
      considered = p.considered;
      same = sweep_loop-SameFrames (is_own curr) 64 c v;
    }

is_owned_of_own : (p : ℕ) (f : FrameEntry) → is_own (some p) f ≡ true → is_owned f ≡ true
unfolding is_own is_owned
is_owned_of_own p f h = ground arith

is_owned-same :
    (c d : Clock) (i : ℕ)
    → SameFrames c d
    → is_owned (frame_at d.frame_table i) ≡ is_owned (frame_at c.frame_table i)
unfolding is_owned
is_owned-same c d i s = rw (s.used i, s.proc i)

-- On a table of 32 frames with the hand inside it: if some frame is in use by some process, in
-- whatever state the reference bits are, `clock_pick_victim` does not panic. It returns a frame
-- that is in use by a process, and changes nothing but reference bits and the hand.
pub clock_pick_victim-owned :
    (p : ℕ) (c : Clock) (t : ℕ)
    → IsClock c
    → t < max_frames
    → is_owned (frame_at c.frame_table t) ≡ true
    → Victim is_owned c (clock_pick_victim (some p) c)
clock_pick_victim-owned p c t v ht h =
    elim (sweep_sound (is_own (some p)) (is_own-blind (some p)) 64 c v.frames v.hand) [
      | inr k ↦ record {
        index = k.index;
        after = (sweep_loop (is_own (some p)) 64 c).1;
        returns = unfold clock_pick_victim in ground (arith, k.picks);
        in_table = k.in_table;
        considered = is_owned_of_own p _ k.considered;
        same = first;
      }
      | inl e ↦ record {
        index = second.index;
        after = (sweep_loop is_owned 64 (sweep_loop (is_own (some p)) 64 c).1).1;
        returns = unfold clock_pick_victim in ground (arith, e, second.picks);
        in_table = second.in_table;
        considered = sym (is_owned-same c _ second.index first) ∙ second.considered;
        same =
            SameFrames-trans c _ _ first
              (sweep_loop-SameFrames is_owned 64 (sweep_loop (is_own (some p)) 64 c).1 first.valid);
      }
    ]
  where
    first : SameFrames c (sweep_loop (is_own (some p)) 64 c).1
    first = sweep_loop-SameFrames (is_own (some p)) 64 c v

    second :
        Picks is_owned
          (sweep_loop (is_own (some p)) 64 c).1.frame_table
          (sweep_loop is_owned 64 (sweep_loop (is_own (some p)) 64 c).1)
    second =
        sweep_finds is_owned is_owned-blind (sweep_loop (is_own (some p)) 64 c).1 t
          first.valid.frames first.valid.hand ht (is_owned-same c _ t first ∙ h)
