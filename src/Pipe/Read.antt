-- ===== src/Pipe/Read.antt =====
-- What `piperead` takes out of a pipe, and the round trip of a write and a read.
use os_2_course_work.Prelude.{
  ℕ, zero, suc, ◌+◌, ◌≤◌, ◌≡◌, ◌⊎◌, inl, inr, minus_one, refl, ◌∙◌, ap, Bool, true, false, ◌&&◌,
  Bool-cases, List, [], ◌∷◌, ◌++◌, arith, length, if◌then◌else◌, ◌==◌,
}
use os_2_course_work.Pipe.{
  Pipe, Ended, returned, asleep, is_empty, drop_byte, front, add_byte, read_loop, piperead,
}
use os_2_course_work.Pipe.Queue.{IsPipe, contents, drop_byte_lem}

-- How the copy loop ends that has copied `m` bytes since byte `i`, of `n` that it was to copy.
abbrev pub ReadEnd : (ℕ → Bool) → ℕ → ℕ → ℕ → Pipe → Ended → Type 0
ReadEnd copied n i m pi e =
    ((e ≡ returned (i + m)) × ((m ≡ n) ⊎ (is_empty pi ≡ true) ⊎ (copied (i + m) ≡ false)))
    ⊎ ((e ≡ returned minus_one) × (i + m ≡ 0) × (copied 0 ≡ false))

-- What a copy loop leaves: the bytes taken and the bytes left make up what was there.
pub record Taken (copied : ℕ → Bool) (n i : ℕ) (pi : Pipe) (r : Ended × Pipe × List ℕ)
    : Type 0 where
  pub valid : IsPipe r.1
  pub split : contents pi ≡ r.2 ++ contents r.1
  pub within : length r.2 ≤ n
  pub ends : ReadEnd copied n i (length r.2) r.1 r.0

take_none :
    (copied : ℕ → Bool) (n i : ℕ) (pi : Pipe) (e : Ended)
    → IsPipe pi
    → ReadEnd copied n i 0 pi e
    → Taken copied n i pi (e, pi, [])
take_none copied n i pi e v w = record { valid = v; split = refl; within = omega arith; ends = w }

take_one :
    (copied : ℕ → Bool) (n i : ℕ) (pi : Pipe) (r : Ended × Pipe × List ℕ)
    → contents pi ≡ front pi ∷ contents (drop_byte pi)
    → Taken copied n (i + 1) (drop_byte pi) r
    → Taken copied (suc n) i pi (add_byte (front pi) r)
take_one copied n i pi (e, qi, out) c w = record {
  valid = w.valid;
  split = c ∙ ap (λ (xs : List ℕ). front pi ∷ xs) w.split;
  within = omega (arith, w.within);
  ends =
      let same : i + suc (length out) ≡ i + 1 + length out = omega arith in rw same (grow w.ends);
}
  where
    grow :
        ReadEnd copied n (i + 1) (length out) qi e
        → ((e ≡ returned (i + 1 + length out))
            × ((suc (length out) ≡ suc n)
                ⊎ (is_empty qi ≡ true)
                ⊎ (copied (i + 1 + length out) ≡ false)))
          ⊎ ((e ≡ returned minus_one) × (i + 1 + length out ≡ 0) × (copied 0 ≡ false))
    grow (inl (a, inl b)) = inl (a, inl (ap suc b))
    grow (inl (a, inr b)) = inl (a, inr b)
    grow (inr b) = inr b

read_loop_lem :
    (copied : ℕ → Bool) (n i : ℕ) (pi : Pipe)
    → IsPipe pi
    → Taken copied n i pi (read_loop copied n i pi)
unfolding read_loop
read_loop_lem copied zero i pi v =
    take_none copied 0 i pi (returned i) v (inl (ap returned (omega arith), inl refl))
read_loop_lem copied (suc n) i pi v = elim (Bool-cases (is_empty pi)) [
  | inl none_left ↦
      (rw (empty_eq none_left) (
        take_none copied (suc n) i pi (returned i) v
          (inl (ap returned (omega arith), inr (inl none_left)))))
  | inr more ↦ elim (Bool-cases (copied i)) [
    | inl fine ↦
        (rw (fine_eq more fine) (
          take_one copied n i pi _ (drop_byte_lem pi v more).1
            (read_loop_lem copied n (i + 1) (drop_byte pi) (drop_byte_lem pi v more).0)))
    | inr bad ↦ (rw (bad_eq more bad) (take_none copied (suc n) i pi _ v (failed bad)))
  ]
]
  where
    empty_eq : is_empty pi ≡ true → read_loop copied (suc n) i pi ≡ (returned i, pi, [])
    empty_eq h = ground arith

    fine_eq :
        is_empty pi ≡ false
        → copied i ≡ true
        → read_loop copied (suc n) i pi
          ≡ add_byte (front pi) (read_loop copied n (i + 1) (drop_byte pi))
    fine_eq h f = ground arith

    bad_eq :
        is_empty pi ≡ false
        → copied i ≡ false
        → read_loop copied (suc n) i pi ≡ (returned (if i == 0 then minus_one else i), pi, [])
    bad_eq h f = ground arith

    failed :
        copied i ≡ false
        → ReadEnd copied (suc n) i 0 pi (returned (if i == 0 then minus_one else i))
    failed bad = let same : i + 0 ≡ i = omega arith in rw same (split_zero (Bool-cases (i == 0)))
      where
        split_zero :
            ((i == 0) ≡ true) ⊎ ((i == 0) ≡ false)
            → ((returned (if i == 0 then minus_one else i) ≡ returned i)
                × ((0 ≡ suc n) ⊎ (is_empty pi ≡ true) ⊎ (copied i ≡ false)))
              ⊎ ((returned (if i == 0 then minus_one else i) ≡ returned minus_one)
                  × (i ≡ 0)
                  × (copied 0 ≡ false))
        split_zero (inl z) = inr (ground arith, ground arith, ground arith)
        split_zero (inr z) = inl (ground arith, inr (inr bad))

-- On a pipe with a ring of 512 bytes and counters at most 512 apart: `piperead` on an empty pipe
-- whose writing end is open changes nothing: it sleeps, or returns -1 if the process has been
-- killed. Otherwise it takes the oldest bytes, in order, until it has copied `n` or the pipe is
-- empty or `copyout` fails, and leaves the rest.
pub piperead_lem :
    (is_killed : Bool) (copied : ℕ → Bool) (n : ℕ) (pi : Pipe)
    → IsPipe pi
    → ((is_empty pi ≡ true)
        × (pi.writeopen ≡ true)
        × (piperead is_killed copied n pi
            ≡ (if is_killed then (returned minus_one, pi, []) else (asleep 0, pi, []))))
      ⊎ Taken copied n 0 pi (piperead is_killed copied n pi)
unfolding piperead
piperead_lem is_killed copied n pi v = elim (Bool-cases (is_empty pi && pi.writeopen)) [
  | inl h ↦ inl (ground arith, ground arith, rw (h, piperead))
  | inr h ↦ inr (rw (h, piperead) (read_loop_lem copied n 0 pi v))
]
