-- ===== src/Pipe/Tests.antt =====
-- Tests of the pipe, and the properties at concrete inputs: an empty pipe whose counters are about
-- to wrap.
use os_2_course_work.Prelude.{
  ℕ, ◌≡◌, ◌⊎◌, refl, if◌then◌else◌, Bool, true, false, Option, none, some, List, [], ◌∷◌, map,
  replicate, length-replicate, minus_one, arith,
}
use os_2_course_work.Pipe.{
  Pipe, returned, asleep, is_empty, pipeclose, write_loop, pipewrite, piperead,
}
use os_2_course_work.Pipe.Queue.{IsPipe}
use os_2_course_work.Pipe.Fifo.{Written, pipewrite_lem}
use os_2_course_work.Pipe.Read.{Taken, piperead_lem}
use os_2_course_work.Pipe.RoundTrip.{piperead-pipewrite}

unfoldable blank_ring : List ℕ
blank_ring = replicate 512 0

abbrev late_pipe : Pipe
late_pipe = record {
  ring = blank_ring;
  nread = 0xFFFFFFFF;
  nwrite = 0xFFFFFFFF;
  readopen = true;
  writeopen = true;
}

late_pipe-IsPipe : IsPipe late_pipe
unfolding blank_ring
late_pipe-IsPipe = record {
  ring_size = length-replicate {A = ℕ} 512 0;
  nread_small = omega arith;
  nwrite_small = omega arith;
  fits = omega arith;
}

abbrev never : ℕ → Bool
never i = false

abbrev always : ℕ → Bool
always i = true

abbrev faulty_source : List (Option ℕ)
faulty_source = some 5 ∷ some 6 ∷ none ∷ some 7 ∷ []

pipewrite_lem_test :
    Written never faulty_source 0 late_pipe (pipewrite never faulty_source late_pipe)
pipewrite_lem_test = pipewrite_lem never faulty_source late_pipe late_pipe-IsPipe

piperead_lem_test :
    ((is_empty late_pipe ≡ true)
      × (true ≡ true)
      × (piperead false always 3 late_pipe
          ≡ (if false then (returned minus_one, late_pipe, []) else (asleep 0, late_pipe, []))))
    ⊎ Taken always 3 0 late_pipe (piperead false always 3 late_pipe)
piperead_lem_test = piperead_lem false always 3 late_pipe late_pipe-IsPipe

piperead-pipewrite_example :
    let (e, qi) = pipewrite never (map some (5 ∷ 6 ∷ 7 ∷ [])) late_pipe in
    let (f, ri, out) = piperead false always 3 qi in
    (e ≡ returned 3) × (f ≡ returned 3) × (out ≡ 5 ∷ 6 ∷ 7 ∷ [])
piperead-pipewrite_example =
    piperead-pipewrite never always (5 ∷ 6 ∷ 7 ∷ []) late_pipe late_pipe-IsPipe refl refl
      (omega arith) (omega arith) (λ i. refl) (λ i. refl)

-- The third byte cannot be fetched, so two are written.
pipewrite_test : (pipewrite never faulty_source late_pipe).0 ≡ returned 2
unfolding pipewrite write_loop
pipewrite_test = refl

-- The page is freed when the second end closes.
pipeclose_test : (pipeclose true (pipeclose false late_pipe).0).1 ≡ true
unfolding pipeclose
pipeclose_test = refl
