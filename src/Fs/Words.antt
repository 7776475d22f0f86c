-- ===== src/Fs/Words.antt =====
-- A block as an array of `uint`s.
use os_2_course_work.Prelude.{ℕ, ◌+◌, ◌*◌, ◌/◌, ◌%◌, ◌^◌, ◌<◌, ◌≡◌, ◌≢◌, refl, arith}
use os_2_course_work.Str.{Bytes}
use os_2_course_work.Fs.{word, set_word}

set_word_out : (d : Bytes) (i v a : ℕ) → a / 4 ≢ i → set_word d i v a ≡ d a
set_word_out d i v a h = ground arith

pub word-set_word_ne : (d : Bytes) (i j v : ℕ) → j ≢ i → word (set_word d i v) j ≡ word d j
word-set_word_ne d i j v h =
    rw
      (
        set_word_out d i v (4 * j) (omega arith),
        set_word_out d i v (4 * j + 1) (omega arith),
        set_word_out d i v (4 * j + 2) (omega arith),
        set_word_out d i v (4 * j + 3) (omega arith),
      )
      refl

module _ (d : Bytes) (i v : ℕ) where
  byte_0 : set_word d i v (4 * i) ≡ v % 256
  byte_0 = ground arith

  byte_1 : set_word d i v (4 * i + 1) ≡ v / 256 % 256
  byte_1 = ground arith

  byte_2 : set_word d i v (4 * i + 2) ≡ v / 65536 % 256
  byte_2 = ground arith

  byte_3 : set_word d i v (4 * i + 3) ≡ v / 16777216 % 256
  byte_3 = ground arith

  pub word-set_word_self : v < 2 ^ 32 → word (set_word d i v) i ≡ v
  word-set_word_self h = rw (byte_0, byte_1, byte_2, byte_3) (omega arith)
