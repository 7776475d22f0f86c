-- ===== src/Prelude/Lists.antt =====
-- C arrays as lists, measured and indexed by native numbers.
use Prim.Native.Nat.{ℕ, zero, suc, ◌+◌, ◌<◌}
use mathlib.Core.Path.{◌≡◌, refl, ap}
use mathlib.Core.Logic.{◌≢◌, ◌⊎◌, inl, inr}
use mathlib.Core.List.{List, [], ◌∷◌, ◌++◌}
use mathlib.Core.Option.{Option, none, some}
use native.Mathlib.Omega.{arith}

module _ {ℓ} {A : Type ℓ} where
  abbrev pub length : List A → ℕ
  length [] = 0
  length (x ∷ xs) = suc (length xs)

  abbrev pub get_elem? : List A → ℕ → Option A
  get_elem? [] i = none
  get_elem? (x ∷ xs) zero = some x
  get_elem? (x ∷ xs) (suc i) = get_elem? xs i

  abbrev pub get_or : List A → ℕ → A → A
  get_or [] i d = d
  get_or (x ∷ xs) zero d = x
  get_or (x ∷ xs) (suc i) d = get_or xs i d

  -- A write out of bounds changes nothing.
  abbrev pub set : List A → ℕ → A → List A
  set [] i v = []
  set (x ∷ xs) zero v = v ∷ xs
  set (x ∷ xs) (suc i) v = x ∷ set xs i v

  abbrev pub replicate : ℕ → A → List A
  replicate zero a = []
  replicate (suc n) a = a ∷ replicate n a

  abbrev pub take : ℕ → List A → List A
  take zero xs = []
  take (suc n) [] = []
  take (suc n) (x ∷ xs) = x ∷ take n xs

  abbrev pub drop : ℕ → List A → List A
  drop zero xs = xs
  drop (suc n) [] = []
  drop (suc n) (x ∷ xs) = drop n xs

module _ {ℓ} {A : Type ℓ} where
  pub length-append : (xs ys : List A) → length (xs ++ ys) ≡ length xs + length ys
  length-append [] ys = omega arith
  length-append (x ∷ xs) ys = omega (arith, length-append xs ys)

  pub length-set : (xs : List A) (i : ℕ) (v : A) → length (set xs i v) ≡ length xs
  length-set [] i v = refl
  length-set (x ∷ xs) zero v = refl
  length-set (x ∷ xs) (suc i) v = ap suc (length-set xs i v)

  pub length-replicate : (n : ℕ) (a : A) → length (replicate n a) ≡ n
  length-replicate zero a = refl
  length-replicate (suc n) a = ap suc (length-replicate n a)

  pub get_elem?-set_self :
      (xs : List A) (i : ℕ) (v : A) → i < length xs → get_elem? (set xs i v) i ≡ some v
  get_elem?-set_self [] i v h = elim h [ ]
  get_elem?-set_self (x ∷ xs) zero v h = refl
  get_elem?-set_self (x ∷ xs) (suc i) v h = get_elem?-set_self xs i v (omega arith)

  pub get_elem?-set_ne :
      (xs : List A) (i j : ℕ) (v : A) → i ≢ j → get_elem? (set xs i v) j ≡ get_elem? xs j
  get_elem?-set_ne [] i j v h = refl
  get_elem?-set_ne (x ∷ xs) zero zero v h = absurd (h refl)
  get_elem?-set_ne (x ∷ xs) zero (suc j) v h = refl
  get_elem?-set_ne (x ∷ xs) (suc i) zero v h = refl
  get_elem?-set_ne (x ∷ xs) (suc i) (suc j) v h = get_elem?-set_ne xs i j v (λ e. h (ap suc e))

  pub get_or-set_self :
      (xs : List A) (i : ℕ) (v d : A) → i < length xs → get_or (set xs i v) i d ≡ v
  get_or-set_self [] i v d h = elim h [ ]
  get_or-set_self (x ∷ xs) zero v d h = refl
  get_or-set_self (x ∷ xs) (suc i) v d h = get_or-set_self xs i v d (omega arith)

  pub get_or-set_ne :
      (xs : List A) (i j : ℕ) (v d : A) → i ≢ j → get_or (set xs i v) j d ≡ get_or xs j d
  get_or-set_ne [] i j v d h = refl
  get_or-set_ne (x ∷ xs) zero zero v d h = absurd (h refl)
  get_or-set_ne (x ∷ xs) zero (suc j) v d h = refl
  get_or-set_ne (x ∷ xs) (suc i) zero v d h = refl
  get_or-set_ne (x ∷ xs) (suc i) (suc j) v d h = get_or-set_ne xs i j v d (λ e. h (ap suc e))

abbrev pub NotIn : ℕ → List ℕ → Type 0
NotIn t [] = Unit {0}
NotIn t (x ∷ xs) = (t ≢ x) × NotIn t xs

-- A list without repetition.
abbrev pub Distinct : List ℕ → Type 0
Distinct [] = Unit {0}
Distinct (x ∷ xs) = NotIn x xs × Distinct xs

-- `f` applied to the entry at an index; out of bounds nothing changes.
abbrev pub modify {ℓ} : {A : Type ℓ} → (A → A) → List A → ℕ → List A
modify f [] i = []
modify f (x ∷ xs) zero = f x ∷ xs
modify f (x ∷ xs) (suc i) = x ∷ modify f xs i

module _ {ℓ} {A : Type ℓ} (f : A → A) where
  pub length-modify : (xs : List A) (i : ℕ) → length (modify f xs i) ≡ length xs
  length-modify [] i = refl
  length-modify (x ∷ xs) zero = refl
  length-modify (x ∷ xs) (suc i) = ap suc (length-modify xs i)

  pub get_elem?-modify_self :
      (xs : List A) (i : ℕ) (x : A)
      → get_elem? xs i ≡ some x
      → get_elem? (modify f xs i) i ≡ some (f x)
  get_elem?-modify_self [] i x e = cc
  get_elem?-modify_self (y ∷ xs) zero x e = cc
  get_elem?-modify_self (y ∷ xs) (suc i) x e = get_elem?-modify_self xs i x e

  pub get_elem?-modify_ne :
      (xs : List A) (i j : ℕ) → i ≢ j → get_elem? (modify f xs i) j ≡ get_elem? xs j
  get_elem?-modify_ne [] i j h = refl
  get_elem?-modify_ne (x ∷ xs) zero zero h = absurd (h refl)
  get_elem?-modify_ne (x ∷ xs) zero (suc j) h = refl
  get_elem?-modify_ne (x ∷ xs) (suc i) zero h = refl
  get_elem?-modify_ne (x ∷ xs) (suc i) (suc j) h = get_elem?-modify_ne xs i j (λ e. h (ap suc e))

  pub get_or-modify_self :
      (xs : List A) (i : ℕ) (d : A) → i < length xs → get_or (modify f xs i) i d ≡ f (get_or xs i d)
  get_or-modify_self [] i d h = elim h [ ]
  get_or-modify_self (x ∷ xs) zero d h = refl
  get_or-modify_self (x ∷ xs) (suc i) d h = get_or-modify_self xs i d (omega arith)

  pub get_or-modify_ne :
      (xs : List A) (i j : ℕ) (d : A) → i ≢ j → get_or (modify f xs i) j d ≡ get_or xs j d
  get_or-modify_ne [] i j d h = refl
  get_or-modify_ne (x ∷ xs) zero zero d h = absurd (h refl)
  get_or-modify_ne (x ∷ xs) zero (suc j) d h = refl
  get_or-modify_ne (x ∷ xs) (suc i) zero d h = refl
  get_or-modify_ne (x ∷ xs) (suc i) (suc j) d h = get_or-modify_ne xs i j d (λ e. h (ap suc e))

  -- Either the entry read is another one, or it is the one changed.
  pub get_or-modify :
      (xs : List A) (i j : ℕ) (d : A)
      → (get_or (modify f xs i) j d ≡ get_or xs j d)
        ⊎ ((j ≡ i) × (get_or (modify f xs i) j d ≡ f (get_or xs j d)))
  get_or-modify [] i j d = inl refl
  get_or-modify (x ∷ xs) zero zero d = inr (refl, refl)
  get_or-modify (x ∷ xs) zero (suc j) d = inl refl
  get_or-modify (x ∷ xs) (suc i) zero d = inl refl
  get_or-modify (x ∷ xs) (suc i) (suc j) d = elim (get_or-modify xs i j d) [
    | inl e ↦ inl e
    | inr (e, v) ↦ inr (ap suc e, v)
  ]

pub get_or-set {ℓ} :
    {A : Type ℓ} (xs : List A) (i j : ℕ) (v d : A)
    → (get_or (set xs i v) j d ≡ get_or xs j d) ⊎ ((j ≡ i) × (get_or (set xs i v) j d ≡ v))
get_or-set [] i j v d = inl refl
get_or-set (x ∷ xs) zero zero v d = inr (refl, refl)
get_or-set (x ∷ xs) zero (suc j) v d = inl refl
get_or-set (x ∷ xs) (suc i) zero v d = inl refl
get_or-set (x ∷ xs) (suc i) (suc j) v d = elim (get_or-set xs i j v d) [
  | inl e ↦ inl e
  | inr (e, w) ↦ inr (ap suc e, w)
]
