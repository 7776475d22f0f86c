-- ===== src/Str/Length.antt =====
-- `strlen` ends at the first NUL.
use os_2_course_work.Prelude.{
  ℕ, zero, suc, ◌+◌, ◌<◌, ◌≡◌, ◌≢◌, refl, sym, ap, ◌∙◌, true, false, some, ◌==◌, arith,
}
use os_2_course_work.Str.{Bytes, strlen_loop}

-- With more rounds than the string has bytes the loop of `strlen` returns their number.
pub strlen_lem :
    (k fuel s n : ℕ) (mem : Bytes)
    → ((j : ℕ) → j < k → mem (s + (n + j)) ≢ 0)
    → mem (s + (n + k)) ≡ 0
    → k < fuel
    → strlen_loop fuel s n mem ≡ some (n + k)
unfolding strlen_loop
strlen_lem k zero s n mem before at h = absurd (omega arith)
strlen_lem zero (suc fuel) s n mem before at h =
    let e : n + 0 ≡ n = omega arith in
    let nul : (mem (s + n) == 0) ≡ true =
      let z : mem (s + n) ≡ 0 = ap (λ x. mem (s + x)) (sym e) ∙ at in ground arith in
    rw (strlen_loop, nul, e) refl
strlen_lem (suc k) (suc fuel) s n mem before at h =
    let e : n + 0 ≡ n = omega arith in
    let shift : (j : ℕ) → n + 1 + j ≡ n + (j + 1) = λ j. omega arith in
    let more : (mem (s + n) == 0) ≡ false =
      let z : mem (s + n) ≢ 0 = λ x. before 0 (omega arith) (ap (λ y. mem (s + y)) e ∙ x) in
      ground arith in
    let rest =
      strlen_lem k fuel s (n + 1) mem
        (λ j hj x. before (j + 1) (omega arith) (ap (λ y. mem (s + y)) (sym (shift j)) ∙ x))
        (ap (λ y. mem (s + y)) (omega arith) ∙ at) (omega arith) in
    rw (strlen_loop, more) (rest ∙ ap some (omega arith))
