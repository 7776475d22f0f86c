-- ===== src/Fs/Bits.antt =====
-- The bits of a byte: setting or clearing one leaves the others.
use os_2_course_work.Prelude.{
  ℕ, zero, suc, ◌+◌, ◌-◌, ◌*◌, ◌/◌, ◌%◌, ◌^◌, ◌<◌, ◌≤◌, ◌≡◌, ◌≢◌, refl, sym, ap, ◌∙◌, true, false,
  ◌==◌, arith,
}
use os_2_course_work.PageTable.{has_flag}

div-mul_two : (e k : ℕ) → 0 < k → e / (2 * k) ≡ e / 2 / k
div-mul_two e k h = grind arith

pow_pos : (j : ℕ) → 0 < 2 ^ j
pow_pos zero = omega arith
pow_pos (suc j) = omega (arith, pow_pos j)

-- A flag of the number is a flag of its half.
has_flag-half : (j e : ℕ) → has_flag (2 ^ suc j) e ≡ has_flag (2 ^ j) (e / 2)
has_flag-half j e =
    let two : 2 ^ suc j ≡ 2 * 2 ^ j = omega arith in
    ap (λ f. e / f % 2 == 1) two ∙ ap (λ n. n % 2 == 1) (div-mul_two e (2 ^ j) (pow_pos j))

has_flag_one : (e : ℕ) → has_flag (2 ^ 0) e ≡ (e % 2 == 1)
has_flag_one e = ground arith

pub has_flag-add_ne :
    (i j e : ℕ)
    → i ≢ j
    → has_flag (2 ^ i) e ≡ false
    → has_flag (2 ^ j) (e + 2 ^ i) ≡ has_flag (2 ^ j) e
has_flag-add_ne zero zero e n u = absurd (n refl)
has_flag-add_ne zero (suc j) e n u =
    let same : (e + 2 ^ 0) / 2 ≡ e / 2 = ground arith in
    has_flag-half j (e + 2 ^ 0) ∙ ap (has_flag (2 ^ j)) same ∙ sym (has_flag-half j e)
has_flag-add_ne (suc i) zero e n u =
    let same : (e + 2 ^ suc i) % 2 ≡ e % 2 = omega arith in
    has_flag_one (e + 2 ^ suc i) ∙ ap (λ n. n == 1) same ∙ sym (has_flag_one e)
has_flag-add_ne (suc i) (suc j) e n u =
    let half : (e + 2 ^ suc i) / 2 ≡ e / 2 + 2 ^ i = omega arith in
    has_flag-half j (e + 2 ^ suc i)
    ∙ ap (has_flag (2 ^ j)) half
    ∙ has_flag-add_ne i j (e / 2) (λ x. n (ap suc x)) (sym (has_flag-half i e) ∙ u)
    ∙ sym (has_flag-half j e)

pub has_flag-add_self : (i e : ℕ) → has_flag (2 ^ i) e ≡ false → has_flag (2 ^ i) (e + 2 ^ i) ≡ true
has_flag-add_self zero e u = ground arith
has_flag-add_self (suc i) e u =
    let half : (e + 2 ^ suc i) / 2 ≡ e / 2 + 2 ^ i = omega arith in
    has_flag-half i (e + 2 ^ suc i)
    ∙ ap (has_flag (2 ^ i)) half
    ∙ has_flag-add_self i (e / 2) (sym (has_flag-half i e) ∙ u)

pub le-has_flag : (i e : ℕ) → has_flag (2 ^ i) e ≡ true → 2 ^ i ≤ e
le-has_flag zero e u = ground arith
le-has_flag (suc i) e u = omega (arith, le-has_flag i (e / 2) (sym (has_flag-half i e) ∙ u))

pub has_flag-sub_self : (i e : ℕ) → has_flag (2 ^ i) e ≡ true → has_flag (2 ^ i) (e - 2 ^ i) ≡ false
has_flag-sub_self zero e u = ground arith
has_flag-sub_self (suc i) e u =
    let half : (e - 2 ^ suc i) / 2 ≡ e / 2 - 2 ^ i = omega (arith, le-has_flag (suc i) e u) in
    has_flag-half i (e - 2 ^ suc i)
    ∙ ap (has_flag (2 ^ i)) half
    ∙ has_flag-sub_self i (e / 2) (sym (has_flag-half i e) ∙ u)

pub has_flag-sub_ne :
    (i j e : ℕ)
    → i ≢ j
    → has_flag (2 ^ i) e ≡ true
    → has_flag (2 ^ j) (e - 2 ^ i) ≡ has_flag (2 ^ j) e
has_flag-sub_ne i j e n u =
    let back : e - 2 ^ i + 2 ^ i ≡ e = omega (arith, le-has_flag i e u) in
    sym (has_flag-add_ne i j (e - 2 ^ i) n (has_flag-sub_self i e u)) ∙ ap (has_flag (2 ^ j)) back
