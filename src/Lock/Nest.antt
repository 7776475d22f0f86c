-- ===== src/Lock/Nest.antt =====
-- `push_off` and `pop_off` are matched.
use os_2_course_work.Prelude.{
  ◌+◌, ◌-◌, ◌≡◌, ◌≢◌, refl, sym, ◌∙◌, true, false, Outcome, done, ◌>>=◌, ◌==◌, ltb, ◌&&◌,
  if◌then◌else◌, arith,
}
use os_2_course_work.Lock.{Cpu, push_off, pop_off}

-- What runs on one CPU between two points: pairs of calls, one in the other or one after the other.
pub data Nest : Type 0 where
  idle : Nest
  nest : Nest → Nest → Nest

unfoldable pub run_nest : Nest → Cpu → Outcome Cpu
run_nest idle c = done c
run_nest (nest inner next) c = do
  c' ← run_nest inner (push_off c)
  c'' ← pop_off c'
  run_nest next c''

-- Interrupts are disabled inside.
pub record IsOff (c : Cpu) : Type 0 where
  pub off : c.noff ≢ 0 → c.intr ≡ false

-- What a run leaves.
pub record Matched (c : Cpu) (r : Outcome Cpu) : Type 0 where
  pub after : Cpu
  pub returns : r ≡ done after
  pub noff : after.noff ≡ c.noff
  pub intr : after.intr ≡ c.intr
  pub intena : c.noff ≢ 0 → after.intena ≡ c.intena

pop_push :
    (c d : Cpu)
    → IsOff c
    → d.noff ≡ c.noff + 1
    → d.intr ≡ false
    → d.intena ≡ (if c.noff == 0 then c.intr else c.intena)
    → Matched c (pop_off d)
unfolding pop_off
pop_push c d v noff intr intena =
    let more : ltb d.noff 1 ≡ false = ground arith in
    record {
      after = record {
        noff = d.noff - 1;
        intena = d.intena;
        intr = if d.noff - 1 == 0 && d.intena then true else d.intr;
      };
      returns = rw (pop_off, more) (rw intr refl);
      noff = omega arith;
      intr = ground arith;
      intena = λ nested. ground arith;
    }

push_off-IsOff : (c : Cpu) → IsOff (push_off c)
unfolding push_off
push_off-IsOff c = record { off = λ nested. refl }

-- However pairs of `push_off` and `pop_off` are nested on a CPU whose interrupts are disabled if its
-- count is not 0: they run without a panic, and afterwards the count and the interrupts are as before.
pub run_nest-Matched : (t : Nest) (c : Cpu) → IsOff c → Matched c (run_nest t c)
unfolding run_nest push_off
run_nest-Matched idle c v = record {
  after = c;
  returns = refl;
  noff = refl;
  intr = refl;
  intena = λ nested. refl;
}
run_nest-Matched (nest inner next) c v =
    let a = run_nest-Matched inner (push_off c) (push_off-IsOff c) in
    let b = pop_push c a.after v a.noff a.intr (a.intena (λ z. absurd (omega arith))) in
    let rest =
      run_nest-Matched next b.after
        (record { off = λ nested. b.intr ∙ v.off (λ z. nested (b.noff ∙ z)) }) in
    record {
      after = rest.after;
      returns = rw (run_nest, a.returns, b.returns) rest.returns;
      noff = rest.noff ∙ b.noff;
      intr = rest.intr ∙ b.intr;
      intena = λ nested. rest.intena (λ z. nested (sym b.noff ∙ z)) ∙ b.intena nested;
    }
