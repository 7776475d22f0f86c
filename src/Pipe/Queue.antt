-- ===== src/Pipe/Queue.antt =====
-- The bytes that a pipe holds, oldest first, and what one byte in or out does to them.
use os_2_course_work.Prelude.{
  ℕ, zero, suc, ◌+◌, ◌-◌, ◌%◌, ◌^◌, ◌≤◌, ◌<◌, ◌≡◌, ◌≢◌, refl, ◌∙◌, ap, ap₂, true, false, List, [],
  ◌∷◌, ◌++◌, arith, length, get_or, set, length-set, get_or-set_self, get_or-set_ne, u32,
}
use os_2_course_work.Pipe.{Pipe, pipesize, put_byte, is_full, is_empty, drop_byte, front}

-- `n` bytes of the ring from the byte number `h` on; byte numbers wrap at 2 ^ 32.
abbrev pub window : List ℕ → ℕ → ℕ → List ℕ
window ring h zero = []
window ring h (suc n) = get_or ring (h % pipesize) 0 ∷ window ring (u32 (h + 1)) n

-- How many bytes are between the two counters.
abbrev pub held : Pipe → ℕ
held pi = u32 (pi.nwrite + 2 ^ 32 - pi.nread)

abbrev pub contents : Pipe → List ℕ
contents pi = window pi.ring pi.nread (held pi)

pub record IsPipe (pi : Pipe) : Type 0 where
  pub ring_size : length pi.ring ≡ pipesize
  pub nread_small : pi.nread < 2 ^ 32
  pub nwrite_small : pi.nwrite < 2 ^ 32
  pub fits : held pi ≤ pipesize

-- The place of byte `h + n` is free while fewer than 512 bytes are held.
window-set :
    (ring : List ℕ) (n h i x : ℕ)
    → length ring ≡ pipesize
    → h < 2 ^ 32
    → n < pipesize
    → i ≡ (h + n) % pipesize
    → window (set ring i x) h (suc n) ≡ window ring h n ++ (x ∷ [])
window-set ring zero h i x len hh hn e =
    let same : i ≡ h % pipesize = omega arith in
    rw (same, get_or-set_self ring (h % pipesize) x 0 (omega arith))
window-set ring (suc n) h i x len hh hn e =
    ap₂ ◌∷◌ (get_or-set_ne ring i (h % pipesize) x 0 (omega arith))
      (window-set ring n (u32 (h + 1)) i x len (omega arith) (omega arith) (omega arith))

-- A byte that is put into a pipe that is not full comes after the bytes in it.
pub put_byte_lem :
    (ch : ℕ) (pi : Pipe)
    → IsPipe pi
    → is_full pi ≡ false
    → IsPipe (put_byte ch pi) × (contents (put_byte ch pi) ≡ contents pi ++ (ch ∷ []))
put_byte_lem ch pi v h = (
  record {
    ring_size = length-set pi.ring (pi.nwrite % pipesize) ch ∙ v.ring_size;
    nread_small = v.nread_small;
    nwrite_small = omega arith;
    fits = omega (arith, room, v.nread_small, v.nwrite_small);
  },
  rw grown (
      window-set pi.ring (held pi) pi.nread (pi.nwrite % pipesize) ch v.ring_size v.nread_small room
        (omega (arith, v.nread_small, v.nwrite_small))),
)
  where
    room : held pi < pipesize
    room = ground (arith, v.fits, v.nread_small, v.nwrite_small)

    grown : held (put_byte ch pi) ≡ suc (held pi)
    grown = omega (arith, room, v.nread_small, v.nwrite_small)

-- A byte that is taken from a pipe that is not empty is the first one in it.
pub drop_byte_lem :
    (pi : Pipe)
    → IsPipe pi
    → is_empty pi ≡ false
    → IsPipe (drop_byte pi) × (contents pi ≡ front pi ∷ contents (drop_byte pi))
drop_byte_lem pi v h = (
  record {
    ring_size = v.ring_size;
    nread_small = omega arith;
    nwrite_small = v.nwrite_small;
    fits = omega (arith, shrunk, v.fits);
  },
  ap (window pi.ring pi.nread) shrunk,
)
  where
    some_held : pi.nread ≢ pi.nwrite
    some_held = ground arith

    shrunk : held pi ≡ suc (held (drop_byte pi))
    shrunk = omega (arith, some_held, v.nread_small, v.nwrite_small)

pub contents-empty : (pi : Pipe) → IsPipe pi → is_empty pi ≡ true → contents pi ≡ []
contents-empty pi v h =
    let same : pi.nread ≡ pi.nwrite = ground arith in
    let none_held : held pi ≡ 0 = omega (arith, same, v.nread_small) in
    ap (window pi.ring pi.nread) none_held

length-window : (ring : List ℕ) (h n : ℕ) → length (window ring h n) ≡ n
length-window ring h zero = refl
length-window ring h (suc n) = ap suc (length-window ring (u32 (h + 1)) n)

pub length-contents : (pi : Pipe) → length (contents pi) ≡ held pi
length-contents pi = length-window pi.ring pi.nread (held pi)

pub held-full : (pi : Pipe) → IsPipe pi → is_full pi ≡ true → held pi ≡ pipesize
held-full pi v h =
    let same : pi.nwrite ≡ u32 (pi.nread + pipesize) = ground arith in
    omega (arith, same, v.nread_small, v.nwrite_small)
