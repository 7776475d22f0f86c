-- ===== src/Frames.antt =====
-- kernel/kalloc.c: the table of user frames and the clock algorithm over it (`frame_table`,
-- `clock_hand`, `clock_pick_victim`), which runs with `frame_lock` held.
pub mod Sweep
pub mod Victim
mod Tests
use os_2_course_work.Prelude.{
  ℕ, zero, suc, ◌+◌, ◌*◌, ◌%◌, Bool, true, false, ◌&&◌, not, Option, none, some, List, [], ◌∷◌,
  Outcome, done, panic, no_evictable_frame, ◌==◌, if◌then◌else◌, get_or, set, replicate,
}

abbrev pub max_frames : ℕ
max_frames = 32

-- `proc` is the index of a process in the table, or `none` for the null pointer.
pub record FrameEntry : Type 0 where
  pub used : Bool
  pub proc : Option ℕ
  pub va : ℕ
  pub pa : ℕ
  pub ref_bit : Bool
  pub grace : ℕ

pub record Clock : Type 0 where
  pub frame_table : List FrameEntry
  pub clock_hand : ℕ

abbrev pub empty_frame : FrameEntry
empty_frame = record { used = false; proc = none; va = 0; pa = 0; ref_bit = false; grace = 0 }

-- The frame table as `kinit` leaves it; `clock_hand` starts at 0.
unfoldable pub init_clock : Clock
init_clock = record { frame_table = replicate max_frames empty_frame; clock_hand = 0 }

abbrev pub same_proc : Option ℕ → Option ℕ → Bool
same_proc none none = true
same_proc (some p) (some q) = p == q
same_proc _ _ = false

-- `f->used && f->proc == curr`, the frames that sweep 1 considers.
unfoldable pub is_own : Option ℕ → FrameEntry → Bool
is_own curr f = f.used && same_proc f.proc curr

-- `f->used && f->proc != 0`, the frames that sweep 2 and the last loop consider.
unfoldable pub is_owned : FrameEntry → Bool
is_owned f = f.used && not (same_proc f.proc none)

pub data Visit : Type 0 where
  skip second_chance victim : Visit

abbrev pub visit : Bool → Bool → Visit
visit false ref_bit = skip
visit true true = second_chance
visit true false = victim

abbrev pub clear_ref : FrameEntry → FrameEntry
clear_ref f = record f { ref_bit = false }

abbrev pub frame_at : List FrameEntry → ℕ → FrameEntry
frame_at table i = get_or table i empty_frame

-- A sweep with `n` rounds left over the frames that it considers; `none` if none was picked.
unfoldable pub sweep_loop : (FrameEntry → Bool) → ℕ → Clock → Option ℕ × Clock
sweep_loop considers zero c = (none, c)
sweep_loop considers (suc n) c =
    let idx = c.clock_hand in
    let f = frame_at c.frame_table idx in
    let next = (idx + 1) % max_frames in
    elim (visit (considers f) f.ref_bit) [
      | skip ↦ sweep_loop considers n (record c { clock_hand = next })
      | second_chance ↦
          sweep_loop considers n
            (record { frame_table = set c.frame_table idx (clear_ref f); clock_hand = next })
      | victim ↦ (some idx, record c { clock_hand = next })
    ]

-- The last loop, from index `i` on.
unfoldable pub scan_owned : List FrameEntry → ℕ → Option ℕ
scan_owned [] i = none
scan_owned (f ∷ fs) i = if is_owned f then some i else scan_owned fs (i + 1)

abbrev pub last_resort : Clock → Outcome (ℕ × Clock)
last_resort c = elim (scan_owned c.frame_table 0) [
  | none ↦ panic no_evictable_frame
  | some i ↦ done (i, c)
]

abbrev pub second_sweep : Option ℕ × Clock → Outcome (ℕ × Clock)
second_sweep (some i, c) = done (i, c)
second_sweep (none, c) = last_resort c

abbrev pub first_sweep : Option ℕ × Clock → Outcome (ℕ × Clock)
first_sweep (some i, c) = done (i, c)
first_sweep (none, c) = second_sweep (sweep_loop is_owned (2 * max_frames) c)

unfoldable pub clock_pick_victim : Option ℕ → Clock → Outcome (ℕ × Clock)
clock_pick_victim curr c = first_sweep (sweep_loop (is_own curr) (2 * max_frames) c)
