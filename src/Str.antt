-- ===== src/Str.antt =====
-- kernel/string.c: the routines on bytes. Memory is a function from addresses to bytes, and the ranges
-- of a call do not wrap. A pointer that a loop moves is its start plus the count of rounds.
pub mod Move
pub mod Safe
pub mod Length
mod Tests
use os_2_course_work.Prelude.{
  ℕ, zero, suc, ◌+◌, ◌-◌, ◌%◌, ◌^◌, Bool, true, false, ◌&&◌, not, Option, none, some, ◌==◌, ltb,
  if◌then◌else◌, u32,
}

abbrev pub Bytes : Type 0
Bytes = ℕ → ℕ

abbrev pub poke : Bytes → ℕ → ℕ → Bytes
poke mem a c = λ b. if b == a then c else mem b

-- The loop of `memset` with `n` rounds left, at `dst`.
unfoldable pub set_loop : ℕ → ℕ → ℕ → Bytes → Bytes
set_loop zero dst c mem = mem
set_loop (suc n) dst c mem = set_loop n (dst + 1) c (poke mem dst (c % 256))

unfoldable pub memset : ℕ → ℕ → ℕ → Bytes → Bytes
memset dst c n mem = set_loop n dst c mem

-- The difference is a C `int`, by its 32-bit pattern.
unfoldable pub memcmp : ℕ → ℕ → ℕ → Bytes → ℕ
memcmp v1 v2 zero mem = 0
memcmp v1 v2 (suc n) mem =
    if mem v1 == mem v2 then memcmp (v1 + 1) (v2 + 1) n mem else u32 (mem v1 + 2 ^ 32 - mem v2)

-- `*d++ = *s++` and `*--d = *--s`, with `n` rounds left.
unfoldable pub copy_up : ℕ → ℕ → ℕ → Bytes → Bytes
copy_up zero d s mem = mem
copy_up (suc n) d s mem = copy_up n (d + 1) (s + 1) (poke mem d (mem s))

unfoldable pub copy_down : ℕ → ℕ → ℕ → Bytes → Bytes
copy_down zero d s mem = mem
copy_down (suc n) d s mem = copy_down n d s (poke mem (d + n) (mem (s + n)))

unfoldable pub memmove : ℕ → ℕ → ℕ → Bytes → Bytes
memmove dst src n mem =
    if n == 0
    then mem
    else if ltb src dst && ltb dst (src + n)
    then copy_down n dst src mem
    else copy_up n dst src mem

unfoldable pub memcpy : ℕ → ℕ → ℕ → Bytes → Bytes
memcpy dst src n mem = memmove dst src n mem

-- The copy loop of `safestrcpy` with `n` rounds left; the byte that ends it is set after it.
unfoldable pub safe_loop : ℕ → ℕ → ℕ → Bytes → Bytes
safe_loop zero s t mem = poke mem s 0
safe_loop (suc n) s t mem =
    let copied = poke mem s (mem t) in
    let rest = safe_loop n (s + 1) (t + 1) copied in
    if copied s == 0 then poke copied (s + 1) 0 else rest

-- `n` is not negative here; the code returns at once on `n <= 0`.
unfoldable pub safestrcpy : ℕ → ℕ → ℕ → Bytes → Bytes
safestrcpy s t zero mem = mem
safestrcpy s t (suc n) mem = safe_loop n s t mem

-- The value that `strncmp` and `memcmp` return for two bytes: a C `int`, by its 32-bit pattern.
abbrev pub byte_difference : ℕ → ℕ → ℕ
byte_difference a b = u32 (a + 2 ^ 32 - b)

unfoldable pub strncmp : ℕ → ℕ → ℕ → Bytes → ℕ
strncmp p q zero mem = 0
strncmp p q (suc n) mem =
    let rest = strncmp (p + 1) (q + 1) n mem in
    if not (mem p == 0) && mem p == mem q then rest else byte_difference (mem p) (mem q)

-- The second loop of `strncpy`, with `n` rounds left.
unfoldable pub pad_zeros : ℕ → ℕ → Bytes → Bytes
pad_zeros zero s mem = mem
pad_zeros (suc n) s mem = pad_zeros n (s + 1) (poke mem s 0)

-- The first loop, with `n` rounds left, and then the second; a negative `n` copies nothing.
unfoldable pub strncpy : ℕ → ℕ → ℕ → Bytes → Bytes
strncpy s t zero mem = mem
strncpy s t (suc n) mem =
    let copied = poke mem s (mem t) in
    let rest = strncpy (s + 1) (t + 1) n copied in
    let padded = pad_zeros n (s + 1) copied in if copied s == 0 then padded else rest

-- The loop of `strlen` from offset `n` on; `none` is out of fuel.
unfoldable pub strlen_loop : ℕ → ℕ → ℕ → Bytes → Option ℕ
strlen_loop zero s n mem = none
strlen_loop (suc fuel) s n mem =
    let rest = strlen_loop fuel s (n + 1) mem in if mem (s + n) == 0 then some n else rest
