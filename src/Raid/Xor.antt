-- ===== src/Raid/Xor.antt =====
-- The group laws of `xor_block` on blocks of one length, which make RAID-5 parity work.
use Prim.Native.Nat.{bit_xor}
use os_2_course_work.Prelude.{
  ℕ, zero, suc, ◌≡◌, refl, sym, ap, ap₂, ◌∙◌, [], ◌∷◌, arith, length, replicate, length-replicate,
}
use os_2_course_work.Prelude.Xor.{zero-bit_xor, bit_xor_self, bit_xor_comm, bit_xor_assoc}
use os_2_course_work.Raid.{Block, bsize, zero_block, xor_block}

pub length-xor_block : (x y : Block) → length (xor_block x y) ≡ length x
unfolding xor_block
length-xor_block [] y = refl
length-xor_block (a ∷ x) [] = refl
length-xor_block (a ∷ x) (b ∷ y) = ap suc (length-xor_block x y)

pub length-zero_block : length zero_block ≡ bsize
unfolding zero_block
length-zero_block = length-replicate {A = ℕ} bsize 0

pub xor_block_comm : (x y : Block) → length x ≡ length y → xor_block x y ≡ xor_block y x
unfolding xor_block
xor_block_comm [] [] h = refl
xor_block_comm [] (b ∷ y) h = absurd (omega arith)
xor_block_comm (a ∷ x) [] h = absurd (omega arith)
xor_block_comm (a ∷ x) (b ∷ y) h = ap₂ ◌∷◌ (bit_xor_comm a b) (xor_block_comm x y (omega arith))

pub xor_block_assoc :
    (x y z : Block)
    → length x ≡ length y
    → xor_block (xor_block x y) z ≡ xor_block x (xor_block y z)
unfolding xor_block
xor_block_assoc [] [] z h = refl
xor_block_assoc [] (b ∷ y) z h = absurd (omega arith)
xor_block_assoc (a ∷ x) [] z h = absurd (omega arith)
xor_block_assoc (a ∷ x) (b ∷ y) [] h = refl
xor_block_assoc (a ∷ x) (b ∷ y) (c ∷ z) h =
    ap₂ ◌∷◌ (bit_xor_assoc a b c) (xor_block_assoc x y z (omega arith))

byte_cancel : (a b : ℕ) → bit_xor a (bit_xor a b) ≡ b
byte_cancel a b = cc (bit_xor_assoc a a b, bit_xor_self a, zero-bit_xor b)

-- Adding a block twice takes it away.
pub xor_block_cancel : (x y : Block) → length x ≡ length y → xor_block x (xor_block x y) ≡ y
unfolding xor_block
xor_block_cancel [] [] h = refl
xor_block_cancel [] (b ∷ y) h = absurd (omega arith)
xor_block_cancel (a ∷ x) [] h = absurd (omega arith)
xor_block_cancel (a ∷ x) (b ∷ y) h = ap₂ ◌∷◌ (byte_cancel a b) (xor_block_cancel x y (omega arith))

zeros-xor_block : (n : ℕ) (y : Block) → length y ≡ n → xor_block (replicate n 0) y ≡ y
unfolding xor_block
zeros-xor_block zero [] h = refl
zeros-xor_block zero (b ∷ y) h = absurd (omega arith)
zeros-xor_block (suc n) [] h = absurd (omega arith)
zeros-xor_block (suc n) (b ∷ y) h = ap₂ ◌∷◌ (zero-bit_xor b) (zeros-xor_block n y (omega arith))

pub zero_block-xor_block : (y : Block) → length y ≡ bsize → xor_block zero_block y ≡ y
unfolding zero_block
zero_block-xor_block y h = zeros-xor_block bsize y h

zeros_self : (y : Block) → xor_block y y ≡ replicate (length y) 0
unfolding xor_block
zeros_self [] = refl
zeros_self (b ∷ y) = ap₂ ◌∷◌ (bit_xor_self b) (zeros_self y)

pub xor_block_self : (y : Block) → length y ≡ bsize → xor_block y y ≡ zero_block
unfolding zero_block
xor_block_self y h = zeros_self y ∙ ap (λ n. replicate n 0) h

-- The parity of a stripe with data blocks `a`, `b` and `c`, and what rebuilding each one computes.
unfoldable pub parity_of : Block → Block → Block → Block
parity_of a b c = xor_block (xor_block (xor_block zero_block a) b) c

module _ (a b c : Block) (la : length a ≡ bsize) (lb : length b ≡ bsize)
    (lc : length c ≡ bsize) where
  pub parity_of_lem : parity_of a b c ≡ xor_block (xor_block a b) c
  unfolding parity_of
  parity_of_lem = rw (zero_block-xor_block a la)

  pub length-parity_of : length (parity_of a b c) ≡ bsize
  length-parity_of =
      omega
        (arith, ap length parity_of_lem, length-xor_block (xor_block a b) c, length-xor_block a b)

  pub rebuild_third : xor_block (xor_block (xor_block zero_block a) b) (parity_of a b c) ≡ c
  rebuild_third =
      rw (zero_block-xor_block a la, parity_of_lem)
        (xor_block_cancel (xor_block a b) c (omega (arith, length-xor_block a b)))

  pub rebuild_second : xor_block (xor_block (xor_block zero_block a) c) (parity_of a b c) ≡ b
  rebuild_second =
      rw (zero_block-xor_block a la, parity_of_lem, swap)
        (xor_block_cancel (xor_block a c) b (omega (arith, length-xor_block a c)))
    where
      swap : xor_block (xor_block a b) c ≡ xor_block (xor_block a c) b
      swap =
          xor_block_assoc a b c (la ∙ sym lb)
          ∙ (ap (xor_block a) (xor_block_comm b c (lb ∙ sym lc))
              ∙ sym (xor_block_assoc a c b (la ∙ sym lc)))

  pub rebuild_first : xor_block (xor_block (xor_block zero_block b) c) (parity_of a b c) ≡ a
  rebuild_first =
      rw (zero_block-xor_block b lb, parity_of_lem, swap)
        (xor_block_cancel (xor_block b c) a (omega (arith, length-xor_block b c)))
    where
      swap : xor_block (xor_block a b) c ≡ xor_block (xor_block b c) a
      swap =
          xor_block_assoc a b c (la ∙ sym lb)
          ∙ xor_block_comm a (xor_block b c) (omega (arith, length-xor_block b c))
