-- ===== src/Prelude/Xor.antt =====
-- The laws of `^` on bytes, at every width, from the recursion on binary digits.
use Prim.Native.Nat.{
  ℕ, zero, suc, ◌+◌, ◌*◌, ◌/◌, ◌%◌, ◌≤◌, ◌<◌, bit_xor, digits, bitwise, bit_xor-bitwise, differ,
}
use mathlib.Core.Path.{◌≡◌, refl, ap₂, ◌≡⟨◌⟩◌, ◌∎}
use mathlib.Core.WellFounded as Wf
use mathlib.Core.WellFounded.{Acc, WellFounded}
use native.Mathlib.Nat.{le_refl}
use native.Mathlib.Omega.{arith}

Acc-below : (k n : ℕ) → n < k → Acc ◌<◌ n
Acc-below zero n h = elim h [ ]
Acc-below (suc k) n h = Acc.intro n (λ m hm. Acc-below k m (omega arith))

lt_wf : WellFounded ◌<◌
lt_wf = record { apply = λ n. Acc-below (suc n) n (omega arith) }

-- More fuel than the first number itself changes nothing.
digits_enough :
    (fuel more x y : ℕ)
    → x ≤ fuel
    → fuel ≤ more
    → digits (λ d. d) differ more x y ≡ digits (λ d. d) differ fuel x y
digits_enough zero zero x y lo hi = refl
digits_enough zero (suc more) zero y lo hi = refl
digits_enough zero (suc more) (suc x) y lo hi = absurd (omega arith)
digits_enough (suc fuel) zero x y lo hi = absurd (omega arith)
digits_enough (suc fuel) (suc more) zero y lo hi = refl
digits_enough (suc fuel) (suc more) (suc x) y lo hi =
    rw (digits_enough fuel more (suc x / 2) (y / 2) (omega arith) (omega arith))

bitwise-suc :
    (x y : ℕ)
    → bitwise (λ d. d) differ (suc x) y
      ≡ bitwise (λ d. d) differ (suc x / 2) (y / 2) * 2 + differ (suc x % 2) (y % 2)
bitwise-suc x y =
    let enough = digits_enough (suc x / 2) x (suc x / 2) (y / 2) (le_refl _) (omega arith) in
    omega (arith, enough)

pub zero-bit_xor : (b : ℕ) → bit_xor 0 b ≡ b
zero-bit_xor b = bit_xor-bitwise 0 b

-- One digit at a time: the recursion that every law below follows.
bit_xor-suc :
    (a b : ℕ) → bit_xor (suc a) b ≡ bit_xor (suc a / 2) (b / 2) * 2 + differ (suc a % 2) (b % 2)
bit_xor-suc a b = simp bit_xor-bitwise (bitwise-suc a b)

digit_lt : (a b : ℕ) → a < 2 → b < 2 → differ a b < 2
digit_lt zero b p q = q
digit_lt (suc zero) zero p q = omega arith
digit_lt (suc zero) (suc zero) p q = omega arith
digit_lt (suc zero) (suc (suc b)) p q = absurd (omega arith)
digit_lt (suc (suc a)) b p q = absurd (omega arith)

pub bit_xor_self : (a : ℕ) → bit_xor a a ≡ 0
bit_xor_self a = Wf.induction lt_wf a step
  where
    same : (d : ℕ) → differ d d ≡ 0
    same zero = refl
    same (suc d) = same d

    step : (n : ℕ) → ((m : ℕ) → m < n → bit_xor m m ≡ 0) → bit_xor n n ≡ 0
    step zero ih = refl
    step (suc n) ih =
        omega (arith, bit_xor-suc n (suc n), ih (suc n / 2) (omega arith), same (suc n % 2))

bit_xor_step : (a b : ℕ) → bit_xor a b ≡ bit_xor (a / 2) (b / 2) * 2 + differ (a % 2) (b % 2)
bit_xor_step zero b = omega (arith, zero-bit_xor b, zero-bit_xor (b / 2))
bit_xor_step (suc a) b = bit_xor-suc a b

bit_xor-half : (a b : ℕ) → bit_xor a b / 2 ≡ bit_xor (a / 2) (b / 2)
bit_xor-half a b =
    omega (arith, bit_xor_step a b, digit_lt (a % 2) (b % 2) (omega arith) (omega arith))

bit_xor-digit : (a b : ℕ) → bit_xor a b % 2 ≡ differ (a % 2) (b % 2)
bit_xor-digit a b =
    omega (arith, bit_xor_step a b, digit_lt (a % 2) (b % 2) (omega arith) (omega arith))

digit_comm : (a b : ℕ) → a < 2 → b < 2 → differ a b ≡ differ b a
digit_comm zero zero p q = refl
digit_comm zero (suc b) p q = refl
digit_comm (suc a) zero p q = refl
digit_comm (suc zero) (suc zero) p q = refl
digit_comm (suc zero) (suc (suc b)) p q = absurd (omega arith)
digit_comm (suc (suc a)) (suc b) p q = absurd (omega arith)

digit_assoc : (a b c : ℕ) → a < 2 → b < 2 → c < 2 → differ (differ a b) c ≡ differ a (differ b c)
digit_assoc zero b c p q r = refl
digit_assoc (suc zero) zero c p q r = refl
digit_assoc (suc zero) (suc zero) zero p q r = refl
digit_assoc (suc zero) (suc zero) (suc zero) p q r = refl
digit_assoc (suc zero) (suc zero) (suc (suc c)) p q r = absurd (omega arith)
digit_assoc (suc zero) (suc (suc b)) c p q r = absurd (omega arith)
digit_assoc (suc (suc a)) b c p q r = absurd (omega arith)

bit_xor-zero : (a : ℕ) → bit_xor a 0 ≡ a
bit_xor-zero a = Wf.induction lt_wf a step
  where
    right : (d : ℕ) → differ d 0 ≡ d
    right zero = refl
    right (suc d) = refl

    step : (n : ℕ) → ((m : ℕ) → m < n → bit_xor m 0 ≡ m) → bit_xor n 0 ≡ n
    step zero ih = refl
    step (suc n) ih =
        omega (arith, bit_xor-suc n 0, ih (suc n / 2) (omega arith), right (suc n % 2))

pub bit_xor_comm : (a b : ℕ) → bit_xor a b ≡ bit_xor b a
bit_xor_comm a = Wf.induction lt_wf {C = λ k. (b : ℕ) → bit_xor k b ≡ bit_xor b k} a step
  where
    step :
        (n : ℕ)
        → ((m : ℕ) → m < n → (b : ℕ) → bit_xor m b ≡ bit_xor b m)
        → (b : ℕ) → bit_xor n b ≡ bit_xor b n
    step zero ih b = omega (arith, zero-bit_xor b, bit_xor-zero b)
    step (suc n) ih b = omega (
      arith,
      bit_xor-suc n b,
      bit_xor_step b (suc n),
      ih (suc n / 2) (omega arith) (b / 2),
      digit_comm (suc n % 2) (b % 2) (omega arith) (omega arith),
    )

pub bit_xor_assoc : (a b c : ℕ) → bit_xor (bit_xor a b) c ≡ bit_xor a (bit_xor b c)
bit_xor_assoc a =
    Wf.induction lt_wf {C = λ k. (b c : ℕ) → bit_xor (bit_xor k b) c ≡ bit_xor k (bit_xor b c)} a
      step
  where
    step :
        (n : ℕ)
        → ((m : ℕ) → m < n → (b c : ℕ) → bit_xor (bit_xor m b) c ≡ bit_xor m (bit_xor b c))
        → (b c : ℕ) → bit_xor (bit_xor n b) c ≡ bit_xor n (bit_xor b c)
    step zero ih b c = rw (zero-bit_xor, zero-bit_xor)
    step (suc n) ih b c =
        bit_xor (bit_xor (suc n) b) c
        ≡⟨ bit_xor_step (bit_xor (suc n) b) c ⟩
          bit_xor (bit_xor (suc n) b / 2) (c / 2) * 2 + differ (bit_xor (suc n) b % 2) (c % 2)
        ≡⟨ rw (bit_xor-half, bit_xor-digit, bit_xor-half, bit_xor-digit)
            (ap₂ (λ (x y : ℕ). x * 2 + y) (ih (suc n / 2) (omega arith) (b / 2) (c / 2))
              (digit_assoc (suc n % 2) (b % 2) (c % 2) (omega arith) (omega arith) (omega arith))) ⟩
          bit_xor (suc n / 2) (bit_xor b c / 2) * 2 + differ (suc n % 2) (bit_xor b c % 2)
        ≡⟨ omega (arith, bit_xor-suc n (bit_xor b c)) ⟩ bit_xor (suc n) (bit_xor b c) ∎
