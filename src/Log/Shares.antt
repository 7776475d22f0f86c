-- ===== src/Log/Shares.antt =====
-- One `begin_op`, `log_write` or `end_op`, and the shares of the log that operations hold.
use os_2_course_work.Prelude.{
  ℕ, zero, suc, ◌+◌, ◌*◌, ◌≤◌, ◌<◌, ◌≡◌, inl, inr, refl, sym, ◌∙◌, ap, Bool, true, false,
  Bool-cases, Option, none, some, List, [], ◌∷◌, Outcome, done, panic, length, get_elem?, set, ◌==◌,
  if◌then◌else◌, u32, minus_one, int_ltb, arith,
}
use os_2_course_work.Log.{Log, maxopblocks, logblocks, put, begin_op, end_op, absorb, log_write}

abbrev pub sum : List ℕ → ℕ
sum [] = 0
sum (x ∷ xs) = x + sum xs

abbrev pub remove : List ℕ → ℕ → List ℕ
remove [] i = []
remove (x ∷ xs) zero = xs
remove (x ∷ xs) (suc i) = x ∷ remove xs i

abbrev pub AtMost : List ℕ → Type 0
AtMost [] = Unit {0}
AtMost (x ∷ xs) = (x ≤ maxopblocks) × AtMost xs

abbrev pub some_or {ℓ} : {A : Type ℓ} → A → Option A → A
some_or d none = d
some_or d (some x) = x

abbrev pub done_or {ℓ} : {A : Type ℓ} → A → Outcome A → A
done_or d (done x) = x
done_or d (panic e) = d

pub sum_le : (ops : List ℕ) → AtMost ops → sum ops ≤ length ops * maxopblocks
sum_le [] h = omega arith
sum_le (x ∷ xs) h = omega (arith, h.0, sum_le xs h.1)

pub AtMost-set :
    (ops : List ℕ) (i left : ℕ)
    → get_elem? ops i ≡ some (suc left)
    → AtMost ops
    → AtMost (set ops i left)
      × (sum (set ops i left) + 1 ≡ sum ops)
      × (length (set ops i left) ≡ length ops)
AtMost-set [] i left e h = cc
AtMost-set (x ∷ xs) zero left e h =
    let same : x ≡ suc left = ap (some_or 0) e in ((omega (arith, h.0), h.1), omega arith, refl)
AtMost-set (x ∷ xs) (suc i) left e h =
    let r = AtMost-set xs i left e h.1 in ((h.0, r.0), omega (arith, r.1), ap suc r.2)

pub AtMost-remove :
    (ops : List ℕ) (i left : ℕ)
    → get_elem? ops i ≡ some left
    → AtMost ops
    → AtMost (remove ops i)
      × (sum (remove ops i) ≤ sum ops)
      × (length (remove ops i) + 1 ≡ length ops)
AtMost-remove [] i left e h = cc
AtMost-remove (x ∷ xs) zero left e h = (h.1, omega arith, omega arith)
AtMost-remove (x ∷ xs) (suc i) left e h =
    let r = AtMost-remove xs i left e h.1 in ((h.0, r.0), omega (arith, r.1), omega (arith, r.2))

pub sum_get :
    (ops : List ℕ) (i left : ℕ) → get_elem? ops i ≡ some left → (left ≤ sum ops) × (0 < length ops)
sum_get [] i left e = cc
sum_get (x ∷ xs) zero left e = let same : x ≡ left = ap (some_or 0) e in (omega arith, omega arith)
sum_get (x ∷ xs) (suc i) left e = (omega (arith, (sum_get xs i left e).0), omega arith)

absorb_le : (block : ℕ → ℕ) (b n i : ℕ) → absorb block b n i ≤ i + n
unfolding absorb
absorb_le block b zero i = omega arith
absorb_le block b (suc n) i = ground (arith, absorb_le block b n (i + 1))

-- What `log_write` makes of a log with room and an operation in progress.
pub record Noted (log : Log) (r : Outcome Log) : Type 0 where
  pub after : Log
  pub returns : r ≡ done after
  pub grown : after.lh.n ≤ log.lh.n + 1
  pub outstanding : after.outstanding ≡ log.outstanding
  pub committing : after.committing ≡ log.committing

pub log_write-Noted :
    (b : ℕ) (log : Log)
    → log.lh.n < logblocks
    → 0 < log.outstanding
    → log.outstanding ≤ 3
    → Noted log (log_write b log)
unfolding log_write
log_write-Noted b log room some_op few =
    let i = absorb log.lh.block b log.lh.n 0 in
    record {
      after = record log {
        lh = record {
          n = if i == log.lh.n then log.lh.n + 1 else log.lh.n;
          block = put log.lh.block i b;
        };
      };
      returns = ground arith;
      grown = ground arith;
      outstanding = refl;
      committing = refl;
    }

pub record Ended (log : Log) (r : Outcome (Log × Bool)) : Type 0 where
  pub after : Log
  pub flag : Bool
  pub returns : r ≡ done (after, flag)
  pub same_n : after.lh.n ≡ log.lh.n
  pub one_less : after.outstanding + 1 ≡ log.outstanding
  pub last : after.committing ≡ true → after.outstanding ≡ 0

pub end_op-Ended :
    (log : Log)
    → log.committing ≡ false
    → 0 < log.outstanding
    → log.outstanding ≤ 3
    → Ended log (end_op log)
unfolding end_op
end_op-Ended log idle some_op few = elim (Bool-cases (u32 (log.outstanding + minus_one) == 0)) [
  | inl e ↦ record {
    after = record log { outstanding = u32 (log.outstanding + minus_one); committing = true };
    flag = true;
    returns = rw (idle, e) refl;
    same_n = refl;
    one_less = omega arith;
    last = λ h. ground arith;
  }
  | inr e ↦ record {
    after = record log { outstanding = u32 (log.outstanding + minus_one) };
    flag = false;
    returns = rw (idle, e) refl;
    same_n = refl;
    one_less = omega arith;
    last = λ h. cc;
  }
]

pub record Begun (log log' : Log) : Type 0 where
  pub idle : log'.committing ≡ false
  pub same_n : log'.lh.n ≡ log.lh.n
  pub one_more : log'.outstanding ≡ log.outstanding + 1
  pub room : log.lh.n + (log.outstanding + 1) * maxopblocks ≤ logblocks

pub begin_op-Begun :
    (log log' : Log)
    → log.lh.n ≤ logblocks
    → log.outstanding ≤ 3
    → begin_op log ≡ some log'
    → Begun log log'
unfolding begin_op
begin_op-Begun log log' hn ho e = elim (Bool-cases log.committing) [
  | inl c ↦ cc
  | inr c ↦
      elim (Bool-cases (int_ltb logblocks (u32 (log.lh.n + (log.outstanding + 1) * maxopblocks)))) [
        | inl f ↦ let bad : begin_op log ≡ none = rw (c, f) refl in cc
        | inr f ↦
            let new : begin_op log ≡ some (record log { outstanding = u32 (log.outstanding + 1) }) =
              rw (c, f) refl in
            let same : log' ≡ record log { outstanding = u32 (log.outstanding + 1) } =
              ap (some_or log) (sym e ∙ new) in
            rw same
              (record { idle = c; same_n = refl; one_more = omega arith; room = ground arith })
      ]
]
