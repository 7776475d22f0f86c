-- ===== src/Pipe.antt =====
-- kernel/pipe.c: the ring of 512 bytes between two processes. A call runs with `pi->lock` held until
-- it returns or sleeps, so one run up to there is one step; after a sleep the caller runs again from
-- the place where it stopped. What `copyin` yields is a list, one entry for each byte.
pub mod Queue
pub mod Fifo
pub mod Read
pub mod RoundTrip
mod Tests
use os_2_course_work.Prelude.{
  ℕ, zero, suc, ◌+◌, ◌%◌, Bool, true, false, ◌&&◌, ◌||◌, not, Option, none, some, List, [], ◌∷◌,
  ◌==◌, if◌then◌else◌, u32, get_or, set, minus_one,
}

abbrev pub pipesize : ℕ
pipesize = 512

-- The field `data` of `struct pipe` is named `ring`.
pub record Pipe : Type 0 where
  pub ring : List ℕ
  pub nread : ℕ
  pub nwrite : ℕ
  pub readopen : Bool
  pub writeopen : Bool

-- What `pipealloc` makes of the page that `kalloc` gave it.
unfoldable pub new_pipe : List ℕ → Pipe
new_pipe ring = record { ring = ring; nread = 0; nwrite = 0; readopen = true; writeopen = true }

-- The flag tells whether the pipe's page goes to `kfree`.
unfoldable pub pipeclose : Bool → Pipe → Pipe × Bool
pipeclose writable pi =
    let t = if writable then record pi { writeopen = false } else record pi { readopen = false } in
    (t, not t.readopen && not t.writeopen)

-- How a run ends: it returns a number (a 32-bit pattern), or sleeps with `i` bytes done.
pub data Ended : Type 0 where
  returned : ℕ → Ended
  asleep : ℕ → Ended

abbrev pub put_byte : ℕ → Pipe → Pipe
put_byte ch pi = record pi {
  ring = set pi.ring (pi.nwrite % pipesize) ch;
  nwrite = u32 (pi.nwrite + 1);
}

abbrev pub is_full : Pipe → Bool
is_full pi = pi.nwrite == u32 (pi.nread + pipesize)

abbrev pub is_empty : Pipe → Bool
is_empty pi = pi.nread == pi.nwrite

-- The loop of `pipewrite` from byte `i` on; `src` is what `copyin` yields for the bytes left, `none`
-- for -1, and `killed_at i` what `killed(pr)` says at byte `i`.
unfoldable pub write_loop : (ℕ → Bool) → List (Option ℕ) → ℕ → Pipe → Ended × Pipe
write_loop killed_at [] i pi = (returned i, pi)
write_loop killed_at (b ∷ src) i pi = elim (not pi.readopen || killed_at i) [
  | true ↦ (returned minus_one, pi)
  | false ↦ elim (is_full pi) [
    | true ↦ (asleep i, pi)
    | false ↦ elim b [
      | none ↦ (returned i, pi)
      | some ch ↦ write_loop killed_at src (i + 1) (put_byte ch pi)
    ]
  ]
]

unfoldable pub pipewrite : (ℕ → Bool) → List (Option ℕ) → Pipe → Ended × Pipe
pipewrite killed_at src pi = write_loop killed_at src 0 pi

abbrev pub drop_byte : Pipe → Pipe
drop_byte pi = record pi { nread = u32 (pi.nread + 1) }

abbrev pub front : Pipe → ℕ
front pi = get_or pi.ring (pi.nread % pipesize) 0

abbrev pub add_byte : ℕ → Ended × Pipe × List ℕ → Ended × Pipe × List ℕ
add_byte ch (e, pi, out) = (e, pi, ch ∷ out)

-- The copy loop of `piperead` from byte `i` on with `n` bytes left: how it ends, the pipe, and the
-- bytes that were copied out. `copied i` tells whether `copyout` of byte `i` succeeds.
unfoldable pub read_loop : (ℕ → Bool) → ℕ → ℕ → Pipe → Ended × Pipe × List ℕ
read_loop copied zero i pi = (returned i, pi, [])
read_loop copied (suc n) i pi = elim (is_empty pi) [
  | true ↦ (returned i, pi, [])
  | false ↦ elim (copied i) [
    | false ↦ (returned (if i == 0 then minus_one else i), pi, [])
    | true ↦ add_byte (front pi) (read_loop copied n (i + 1) (drop_byte pi))
  ]
]

unfoldable pub piperead : Bool → (ℕ → Bool) → ℕ → Pipe → Ended × Pipe × List ℕ
piperead is_killed copied n pi =
    if is_empty pi && pi.writeopen
    then (if is_killed then (returned minus_one, pi, []) else (asleep 0, pi, []))
    else read_loop copied n 0 pi
