-- ===== src/Pipe/Fifo.antt =====
-- Pipes are first in, first out, also when the byte counters wrap round at 2 ^ 32.
use os_2_course_work.Prelude.{
  ℕ, suc, ◌+◌, ◌≤◌, ◌<◌, ◌≡◌, ◌⊎◌, inl, inr, minus_one, refl, sym, ◌∙◌, ap, Bool, true, false, ◌||◌,
  not, Bool-cases, Option, none, some, List, [], ◌∷◌, ◌++◌, arith, length, take,
}
use mathlib.Core.List.{append-nil, append_assoc}
use os_2_course_work.Pipe.{Pipe, Ended, returned, asleep, put_byte, is_full, write_loop, pipewrite}
use os_2_course_work.Pipe.Queue.{IsPipe, contents, put_byte_lem}

-- The bytes that `copyin` yields before it fails.
abbrev pub yielded : List (Option ℕ) → List ℕ
yielded [] = []
yielded (none ∷ src) = []
yielded (some ch ∷ src) = ch ∷ yielded src

-- How a run of `pipewrite` ends that has put `n` bytes into the pipe `pi`: all bytes that `copyin`
-- yielded are in and their number is returned, or the pipe is full with bytes left and the process
-- sleeps, or the reading end is closed or the process killed, and -1 is returned.
abbrev pub WriteEnd : (ℕ → Bool) → List (Option ℕ) → ℕ → ℕ → Pipe → Ended → Type 0
WriteEnd killed_at src i n pi e =
    ((e ≡ returned (i + n)) × (n ≡ length (yielded src)))
    ⊎ ((e ≡ asleep (i + n)) × (is_full pi ≡ true) × (n < length src))
    ⊎ ((e ≡ returned minus_one) × ((not pi.readopen || killed_at (i + n)) ≡ true))

pub record Written (killed_at : ℕ → Bool) (src : List (Option ℕ)) (i : ℕ) (pi : Pipe)
    (r : Ended × Pipe) : Type 0 where
  pub put : ℕ
  pub valid : IsPipe r.1
  pub appended : contents r.1 ≡ contents pi ++ take put (yielded src)
  pub within : put ≤ length (yielded src)
  pub same_open : r.1.readopen ≡ pi.readopen
  pub ends : WriteEnd killed_at src i put r.1 r.0

stop :
    (killed_at : ℕ → Bool) (src : List (Option ℕ)) (i : ℕ) (pi : Pipe) (e : Ended)
    → IsPipe pi
    → WriteEnd killed_at src i 0 pi e
    → Written killed_at src i pi (e, pi)
stop killed_at src i pi e v w = record {
  put = 0;
  valid = v;
  appended = sym (append-nil (contents pi));
  within = omega arith;
  same_open = refl;
  ends = w;
}

WriteEnd-suc :
    (killed_at : ℕ → Bool) (ch : ℕ) (src : List (Option ℕ)) (i n : ℕ) (pi : Pipe) (e : Ended)
    → WriteEnd killed_at src (i + 1) n pi e
    → WriteEnd killed_at (some ch ∷ src) i (suc n) pi e
WriteEnd-suc killed_at ch src i n pi e w =
    let same : i + suc n ≡ i + 1 + n = omega arith in rw same (grow w)
  where
    grow :
        WriteEnd killed_at src (i + 1) n pi e
        → ((e ≡ returned (i + 1 + n)) × (suc n ≡ suc (length (yielded src))))
          ⊎ ((e ≡ asleep (i + 1 + n)) × (is_full pi ≡ true) × (suc n < suc (length src)))
          ⊎ ((e ≡ returned minus_one) × ((not pi.readopen || killed_at (i + 1 + n)) ≡ true))
    grow (inl a) = inl (a.0, ap suc a.1)
    grow (inr (inl b)) = inr (inl (b.0, b.1, omega (arith, b.2)))
    grow (inr (inr b)) = inr (inr b)

advance :
    (killed_at : ℕ → Bool) (ch : ℕ) (src : List (Option ℕ)) (i : ℕ) (pi : Pipe) (r : Ended × Pipe)
    → contents (put_byte ch pi) ≡ contents pi ++ (ch ∷ [])
    → Written killed_at src (i + 1) (put_byte ch pi) r
    → Written killed_at (some ch ∷ src) i pi r
advance killed_at ch src i pi r e w = record {
  put = suc w.put;
  valid = w.valid;
  appended =
      w.appended
      ∙ (ap (λ c. c ++ take w.put (yielded src)) e
          ∙ append_assoc (contents pi) (ch ∷ []) (take w.put (yielded src)));
  within = omega (arith, w.within);
  same_open = w.same_open;
  ends = WriteEnd-suc killed_at ch src i w.put r.1 r.0 w.ends;
}

write_loop_lem :
    (killed_at : ℕ → Bool) (src : List (Option ℕ)) (i : ℕ) (pi : Pipe)
    → IsPipe pi
    → Written killed_at src i pi (write_loop killed_at src i pi)
unfolding write_loop
write_loop_lem killed_at [] i pi v =
    stop killed_at [] i pi (returned i) v (inl (ap returned (omega arith), refl))
write_loop_lem killed_at (b ∷ src) i pi v = elim (Bool-cases (not pi.readopen || killed_at i)) [
  | inl shut ↦
      (rw (shut_eq shut) (
        stop killed_at (b ∷ src) i pi (returned minus_one) v
          (let same : i + 0 ≡ i = omega arith in rw same (inr (inr (refl, shut))))))
  | inr live ↦ elim (Bool-cases (is_full pi)) [
    | inl full ↦
        (rw (full_eq live full) (
          stop killed_at (b ∷ src) i pi (asleep i) v
            (inr (inl (ap asleep (omega arith), full, omega arith)))))
    | inr room ↦
        yields b live room (λ ch.
          write_loop_lem killed_at src (i + 1) (put_byte ch pi) (put_byte_lem ch pi v room).0)
  ]
]
  where
    shut_eq :
        (not pi.readopen || killed_at i) ≡ true
        → write_loop killed_at (b ∷ src) i pi ≡ (returned minus_one, pi)
    shut_eq h = ground arith

    full_eq :
        (not pi.readopen || killed_at i) ≡ false
        → is_full pi ≡ true
        → write_loop killed_at (b ∷ src) i pi ≡ (asleep i, pi)
    full_eq h f = ground arith

    yields :
        (o : Option ℕ)
        → (not pi.readopen || killed_at i) ≡ false
        → (room : is_full pi ≡ false)
        → ((ch : ℕ)
            → Written killed_at src
                (i + 1)
                (put_byte ch pi)
                (write_loop killed_at src (i + 1) (put_byte ch pi)))
        → Written killed_at (o ∷ src) i pi (write_loop killed_at (o ∷ src) i pi)
    yields none h room again =
        rw none_eq
          (stop killed_at (none ∷ src) i pi (returned i) v (inl (ap returned (omega arith), refl)))
      where
        none_eq : write_loop killed_at (none ∷ src) i pi ≡ (returned i, pi)
        none_eq = ground arith
    yields (some ch) h room again =
        rw some_eq (advance killed_at ch src i pi _ (put_byte_lem ch pi v room).1 (again ch))
      where
        some_eq :
            write_loop killed_at (some ch ∷ src) i pi
            ≡ write_loop killed_at src (i + 1) (put_byte ch pi)
        some_eq = ground arith

-- On a pipe with a ring of 512 bytes and counters at most 512 apart, a run of `pipewrite` appends
-- to the pipe the first `put` bytes that `copyin` yields, in order. It returns their number if
-- these are all, sleeps if the pipe is full, and returns -1 if the reading end is closed or the
-- process has been killed.
pub pipewrite_lem :
    (killed_at : ℕ → Bool) (src : List (Option ℕ)) (pi : Pipe)
    → IsPipe pi
    → Written killed_at src 0 pi (pipewrite killed_at src pi)
unfolding pipewrite
pipewrite_lem killed_at src pi v = write_loop_lem killed_at src 0 pi v
