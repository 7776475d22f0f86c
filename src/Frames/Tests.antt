-- ===== src/Frames/Tests.antt =====
-- Tests of the clock algorithm, and the properties at concrete inputs: the first two frames of the
-- table are in use.
use os_2_course_work.Prelude.{
  ℕ, ◌≡◌, refl, Bool, true, false, some, ◌∷◌, replicate, done, panic, no_evictable_frame, arith,
}
use os_2_course_work.Frames.{
  FrameEntry, Clock, empty_frame, init_clock, is_own, is_owned, scan_owned, sweep_loop,
  clock_pick_victim,
}
use os_2_course_work.Frames.Victim.{IsClock, Victim, clock_pick_victim-own, clock_pick_victim-owned}

abbrev frame_of : ℕ → Bool → FrameEntry
frame_of p ref_bit = record {
  used = true;
  proc = some p;
  va = 4096;
  pa = 8192;
  ref_bit = ref_bit;
  grace = 0;
}

abbrev two_frames : Clock
two_frames = record {
  frame_table = frame_of 1 true ∷ frame_of 2 false ∷ replicate 30 empty_frame;
  clock_hand = 0;
}

two_frames-IsClock : IsClock two_frames
two_frames-IsClock = record { frames = refl; hand = omega arith }

clock_pick_victim-own_test :
    Victim (is_own (some 1)) two_frames (clock_pick_victim (some 1) two_frames)
clock_pick_victim-own_test =
    clock_pick_victim-own (some 1) two_frames 0 two_frames-IsClock (omega arith)
      (unfold is_own in refl)

clock_pick_victim-owned_example : Victim is_owned two_frames (clock_pick_victim (some 3) two_frames)
clock_pick_victim-owned_example =
    clock_pick_victim-owned 3 two_frames 1 two_frames-IsClock (omega arith)
      (unfold is_owned in refl)

-- Process 3 has no frame, so it takes the first one in the turn whose reference bit is clear.
clock_pick_victim_test :
    clock_pick_victim (some 3) two_frames
    ≡ done (
      1,
      record {
        frame_table = frame_of 1 false ∷ frame_of 2 false ∷ replicate 30 empty_frame;
        clock_hand = 2;
      },
    )
unfolding clock_pick_victim sweep_loop is_own is_owned
clock_pick_victim_test = refl

init_clock_test : clock_pick_victim (some 3) init_clock ≡ panic no_evictable_frame
unfolding clock_pick_victim sweep_loop is_own is_owned scan_owned init_clock
init_clock_test = refl
