-- ===== src/Frames/Sweep.antt =====
-- One sweep of the clock hand: two turns round the table find a frame if there is one to find.
use os_2_course_work.Prelude.{
  ℕ, zero, suc, ◌+◌, ◌-◌, ◌%◌, ◌<◌, ◌≡◌, ◌≢◌, ◌⊎◌, inl, inr, refl, ◌∙◌, ap, Bool, true, false,
  Bool-cases, Option, none, some, List, length, set, arith, ℕ_discrete, get_or-set_self,
  get_or-set_ne, length-set,
}
use os_2_course_work.Frames.{FrameEntry, Clock, empty_frame, clear_ref, frame_at, sweep_loop}

-- How far the hand is from frame `t`.
abbrev pub to_go : ℕ → ℕ → ℕ
to_go hand t = (t + 32 - hand) % 32

-- The sweep picks a frame of the table that it considers.
pub record Picks (considers : FrameEntry → Bool) (table : List FrameEntry) (r : Option ℕ × Clock)
    : Type 0 where
  pub index : ℕ
  pub picks : r.0 ≡ some index
  pub in_table : index < 32
  pub considered : considers (frame_at table index) ≡ true

module _ (considers : FrameEntry → Bool)
    (blind : (f : FrameEntry) → considers (clear_ref f) ≡ considers f) where
  -- Clearing a reference bit does not change which frames are considered.
  considers-set :
      (table : List FrameEntry) (h i : ℕ)
      → length table ≡ 32
      → h < 32
      → considers (frame_at (set table h (clear_ref (frame_at table h))) i)
        ≡ considers (frame_at table i)
  considers-set table h i len hh = elim (ℕ_discrete h i) [
    | yes e ↦
        rw (← e, get_or-set_self table h (clear_ref (frame_at table h)) empty_frame (omega arith))
          (blind (frame_at table h))
    | no ne ↦ ap considers (get_or-set_ne table h i (clear_ref (frame_at table h)) empty_frame ne)
  ]

  Picks-set :
      (table : List FrameEntry) (h : ℕ) (r : Option ℕ × Clock)
      → length table ≡ 32
      → h < 32
      → Picks considers (set table h (clear_ref (frame_at table h))) r
      → Picks considers table r
  Picks-set table h r len hh p = record {
    index = p.index;
    picks = p.picks;
    in_table = p.in_table;
    considered = rw (← considers-set table h p.index len hh) p.considered;
  }

  abbrev moved : Clock → Clock
  moved c = record c { clock_hand = (c.clock_hand + 1) % 32 }

  abbrev cleared : Clock → Clock
  cleared c = record {
    frame_table = set c.frame_table c.clock_hand (clear_ref (frame_at c.frame_table c.clock_hand));
    clock_hand = (c.clock_hand + 1) % 32;
  }

  sweep_skip :
      (n : ℕ) (c : Clock)
      → considers (frame_at c.frame_table c.clock_hand) ≡ false
      → sweep_loop considers (suc n) c ≡ sweep_loop considers n (moved c)
  unfolding sweep_loop
  sweep_skip n c h = ground arith

  sweep_clear :
      (n : ℕ) (c : Clock)
      → considers (frame_at c.frame_table c.clock_hand) ≡ true
      → (frame_at c.frame_table c.clock_hand).ref_bit ≡ true
      → sweep_loop considers (suc n) c ≡ sweep_loop considers n (cleared c)
  unfolding sweep_loop
  sweep_clear n c h b = ground arith

  sweep_pick :
      (n : ℕ) (c : Clock)
      → considers (frame_at c.frame_table c.clock_hand) ≡ true
      → (frame_at c.frame_table c.clock_hand).ref_bit ≡ false
      → sweep_loop considers (suc n) c ≡ (some c.clock_hand, moved c)
  unfolding sweep_loop
  sweep_pick n c h b = ground arith

  picked :
      (n : ℕ) (c : Clock)
      → c.clock_hand < 32
      → considers (frame_at c.frame_table c.clock_hand) ≡ true
      → (frame_at c.frame_table c.clock_hand).ref_bit ≡ false
      → Picks considers c.frame_table (sweep_loop considers (suc n) c)
  picked n c hh h b =
      rw (sweep_pick n c h b)
        (record { index = c.clock_hand; picks = refl; in_table = hh; considered = h })

  -- A frame whose bit is clear is reached, or another one is picked before.
  reach_clear :
      (n : ℕ) (c : Clock) (t : ℕ)
      → length c.frame_table ≡ 32
      → c.clock_hand < 32
      → t < 32
      → to_go c.clock_hand t < n
      → considers (frame_at c.frame_table t) ≡ true
      → (frame_at c.frame_table t).ref_bit ≡ false
      → Picks considers c.frame_table (sweep_loop considers n c)
  reach_clear zero c t len hh ht d h b = elim d [ ]
  reach_clear (suc n) c t len hh ht d h b = elim (ℕ_discrete c.clock_hand t) [
    | yes e ↦ picked n c hh (rw e h) (rw e b)
    | no ne ↦ elim (Bool-cases (considers (frame_at c.frame_table c.clock_hand))) [
      | inr out ↦
          (rw (sweep_skip n c out)
            (reach_clear n (moved c) t len (omega arith) ht (omega arith) h b))
      | inl is_in ↦ elim (Bool-cases (frame_at c.frame_table c.clock_hand).ref_bit) [
        | inr free ↦ picked n c hh is_in free
        | inl busy ↦
            (rw (sweep_clear n c is_in busy) (
              Picks-set c.frame_table c.clock_hand _ len hh (
                reach_clear n (cleared c) t (length-set c.frame_table c.clock_hand _ ∙ len)
                  (omega arith) ht (omega arith)
                  (considers-set c.frame_table c.clock_hand t len hh ∙ h)
                  (ap (λ (f : FrameEntry). f.ref_bit)
                      (get_or-set_ne c.frame_table c.clock_hand t _ empty_frame ne)
                    ∙ b))))
      ]
    ]
  ]

  -- Two turns are enough for a frame whose bit is set: the first turn clears it.
  pub reach :
      (n : ℕ) (c : Clock) (t : ℕ)
      → length c.frame_table ≡ 32
      → c.clock_hand < 32
      → t < 32
      → to_go c.clock_hand t + 32 < n
      → considers (frame_at c.frame_table t) ≡ true
      → Picks considers c.frame_table (sweep_loop considers n c)
  reach zero c t len hh ht d h = elim d [ ]
  reach (suc n) c t len hh ht d h =
      elim (Bool-cases (considers (frame_at c.frame_table c.clock_hand))) [
        | inr out ↦
            (rw (sweep_skip n c out)
              (reach n (moved c) t len (omega arith) ht (omega (arith, not_here out)) h))
        | inl is_in ↦ elim (Bool-cases (frame_at c.frame_table c.clock_hand).ref_bit) [
          | inr free ↦ picked n c hh is_in free
          | inl busy ↦
              (rw (sweep_clear n c is_in busy) (
                Picks-set c.frame_table c.clock_hand _ len hh
                  (after_clear (reach n (cleared c) t))))
        ]
      ]
    where
      same_length : length (cleared c).frame_table ≡ 32
      same_length = length-set c.frame_table c.clock_hand _ ∙ len

      not_here : considers (frame_at c.frame_table c.clock_hand) ≡ false → c.clock_hand ≢ t
      not_here out e = let both = ap (λ k. considers (frame_at c.frame_table k)) e in cc

      still : considers (frame_at (cleared c).frame_table t) ≡ true
      still = considers-set c.frame_table c.clock_hand t len hh ∙ h

      now_clear : c.clock_hand ≡ t → (frame_at (cleared c).frame_table t).ref_bit ≡ false
      now_clear e = rw (
        ← e,
        get_or-set_self c.frame_table c.clock_hand (clear_ref (frame_at c.frame_table c.clock_hand))
            empty_frame (omega arith),
      )

      after_clear :
          (length (cleared c).frame_table ≡ 32
            → (cleared c).clock_hand < 32
            → t < 32
            → to_go (cleared c).clock_hand t + 32 < n
            → considers (frame_at (cleared c).frame_table t) ≡ true
            → Picks considers (cleared c).frame_table (sweep_loop considers n (cleared c)))
          → Picks considers (cleared c).frame_table (sweep_loop considers n (cleared c))
      after_clear again = elim (ℕ_discrete c.clock_hand t) [
        | yes e ↦
            reach_clear n (cleared c) t same_length (omega arith) ht (omega (arith, e)) still
              (now_clear e)
        | no ne ↦ again same_length (omega arith) ht (omega (arith, ne)) still
      ]

  -- From any position of the hand, a sweep over 2 * 32 frames finds one if there is one.
  pub sweep_finds :
      (c : Clock) (t : ℕ)
      → length c.frame_table ≡ 32
      → c.clock_hand < 32
      → t < 32
      → considers (frame_at c.frame_table t) ≡ true
      → Picks considers c.frame_table (sweep_loop considers 64 c)
  sweep_finds c t len hh ht h = reach 64 c t len hh ht (omega arith) h

  -- Whatever a sweep picks is a frame of the table that it considers.
  pub sweep_sound :
      (n : ℕ) (c : Clock)
      → length c.frame_table ≡ 32
      → c.clock_hand < 32
      → ((sweep_loop considers n c).0 ≡ none)
        ⊎ Picks considers c.frame_table (sweep_loop considers n c)
  sweep_sound zero c len hh = inl (unfold sweep_loop in refl)
  sweep_sound (suc n) c len hh =
      elim (Bool-cases (considers (frame_at c.frame_table c.clock_hand))) [
        | inr out ↦ (rw (sweep_skip n c out) (sweep_sound n (moved c) len (omega arith)))
        | inl is_in ↦ elim (Bool-cases (frame_at c.frame_table c.clock_hand).ref_bit) [
          | inr free ↦ inr (picked n c hh is_in free)
          | inl busy ↦
              (rw (sweep_clear n c is_in busy) (
                widen (
                  sweep_sound n (cleared c) (length-set c.frame_table c.clock_hand _ ∙ len)
                    (omega arith))))
        ]
      ]
    where
      widen :
          {r : Option ℕ × Clock}
          → (r.0 ≡ none) ⊎ Picks considers (cleared c).frame_table r
          → (r.0 ≡ none) ⊎ Picks considers c.frame_table r
      widen (inl e) = inl e
      widen {r} (inr p) = inr (Picks-set c.frame_table c.clock_hand r len hh p)
