-- ===== src/Str/Safe.antt =====
-- `safestrcpy` always leaves a terminated string inside its buffer.
use os_2_course_work.Prelude.{
  ℕ, zero, suc, ◌+◌, ◌≤◌, ◌<◌, ◌≡◌, ◌⊎◌, inl, inr, ◌∙◌, Bool-cases, ◌==◌, arith,
}
use os_2_course_work.Str.{Bytes, poke, safe_loop, safestrcpy}

-- The buffer of `n + 1` bytes at `s` has a NUL, and nothing outside it has changed.
pub record Terminated (s n : ℕ) (before after : Bytes) : Type 0 where
  pub end : ℕ
  pub in_buffer : end ≤ n
  pub nul : after (s + end) ≡ 0
  pub outside : (a : ℕ) → (a < s) ⊎ (s + n < a) → after a ≡ before a

safe_loop_lem : (n s t : ℕ) (mem : Bytes) → Terminated s n mem (safe_loop n s t mem)
unfolding safe_loop
safe_loop_lem zero s t mem = record {
  end = 0;
  in_buffer = omega arith;
  nul = ground arith;
  outside = λ a o. ground arith;
}
safe_loop_lem (suc n) s t mem = elim (Bool-cases (poke mem s (mem t) s == 0)) [
  | inl e ↦ rw e (record {
    end = 1;
    in_buffer = omega arith;
    nul = ground arith;
    outside = λ a o. ground arith;
  })
  | inr e ↦
      let v = safe_loop_lem n (s + 1) (t + 1) (poke mem s (mem t)) in
      let place : s + suc v.end ≡ s + 1 + v.end = omega arith in
      rw e (record {
        end = suc v.end;
        in_buffer = omega (arith, v.in_buffer);
        nul = rw place v.nul;
        outside = λ a o. v.outside a (ground arith) ∙ ground arith;
      })
]

-- `safestrcpy` of a positive size leaves a NUL inside the buffer, whatever the source holds, and
-- writes nothing outside the buffer.
pub safestrcpy_lem : (s t n : ℕ) (mem : Bytes) → Terminated s n mem (safestrcpy s t (suc n) mem)
unfolding safestrcpy
safestrcpy_lem s t n mem = safe_loop_lem n s t mem
