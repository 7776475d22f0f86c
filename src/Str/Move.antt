-- ===== src/Str/Move.antt =====
-- `memmove` copies a range correctly also when it overlaps its destination.
use os_2_course_work.Prelude.{
  ℕ, zero, suc, ◌+◌, ◌-◌, ◌≤◌, ◌<◌, ◌≡◌, ◌⊎◌, inl, inr, refl, ◌∙◌, ◌&&◌, Bool-cases, ◌==◌, ltb,
  ℕ_discrete, arith,
}
use os_2_course_work.Str.{Bytes, poke, copy_up, copy_down, memmove}

-- The `n` bytes at `d` are those that were at `s`, and no other byte has changed.
pub record Moved (d s n : ℕ) (before after : Bytes) : Type 0 where
  pub inside : (j : ℕ) → j < n → after (d + j) ≡ before (s + j)
  pub outside : (a : ℕ) → (a < d) ⊎ (d + n ≤ a) → after a ≡ before a

copy_up_lem :
    (n d s : ℕ) (mem : Bytes) → (d ≤ s) ⊎ (s + n ≤ d) → Moved d s n mem (copy_up n d s mem)
unfolding copy_up
copy_up_lem zero d s mem h = record { inside = λ j lt. absurd (omega arith); outside = λ a o. refl }
copy_up_lem (suc n) d s mem h =
    let v = copy_up_lem n (d + 1) (s + 1) (poke mem d (mem s)) (ground arith) in
    record {
      inside = λ j lt. elim (ℕ_discrete j 0) [
        | yes e ↦
            let at_d : d + j ≡ d = omega arith in
            let at_s : s + j ≡ s = omega arith in
            rw (at_d, at_s) (v.outside d (inl (omega arith)) ∙ ground arith)
        | no ne ↦
            let at_d : d + j ≡ d + 1 + (j - 1) = omega arith in
            let at_s : s + j ≡ s + 1 + (j - 1) = omega arith in
            rw (at_d, at_s) (v.inside (j - 1) (omega arith) ∙ ground arith)
      ];
      outside = λ a o. v.outside a (ground arith) ∙ ground arith;
    }

copy_down_lem : (n d s : ℕ) (mem : Bytes) → s ≤ d → Moved d s n mem (copy_down n d s mem)
unfolding copy_down
copy_down_lem zero d s mem h = record {
  inside = λ j lt. absurd (omega arith);
  outside = λ a o. refl;
}
copy_down_lem (suc n) d s mem h =
    let v = copy_down_lem n d s (poke mem (d + n) (mem (s + n))) h in
    record {
      inside = λ j lt. elim (ℕ_discrete j n) [
        | yes e ↦
            let at_d : d + j ≡ d + n = omega arith in
            let at_s : s + j ≡ s + n = omega arith in
            rw (at_d, at_s) (v.outside (d + n) (inr (omega arith)) ∙ ground arith)
        | no ne ↦ v.inside j (omega arith) ∙ ground arith
      ];
      outside = λ a o. v.outside a (ground arith) ∙ ground arith;
    }

-- `memmove` puts the `n` bytes that were at `src` at `dst`, however the two ranges overlap, and changes
-- no other byte.
pub memmove_lem : (dst src n : ℕ) (mem : Bytes) → Moved dst src n mem (memmove dst src n mem)
unfolding memmove
memmove_lem dst src n mem = elim (Bool-cases (n == 0)) [
  | inl e ↦ rw e (record { inside = λ j lt. absurd (ground arith); outside = λ a o. refl })
  | inr e ↦ elim (Bool-cases (ltb src dst && ltb dst (src + n))) [
    | inl below ↦ rw (e, below) (copy_down_lem n dst src mem (ground arith))
    | inr apart ↦ rw (e, apart) (copy_up_lem n dst src mem (ground arith))
  ]
]
