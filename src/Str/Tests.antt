-- ===== src/Str/Tests.antt =====
-- Tests of the byte routines, and the properties at concrete inputs: a memory in which every address
-- holds its own number.
use os_2_course_work.Prelude.{◌≡◌, refl}
use os_2_course_work.Str.{
  Bytes, set_loop, memset, memcmp, copy_down, memmove, safe_loop, safestrcpy,
}
use os_2_course_work.Str.Move.{Moved, memmove_lem}
use os_2_course_work.Str.Safe.{Terminated, safestrcpy_lem}

abbrev numbers : Bytes
numbers a = a

memmove_lem_example : Moved 12 10 5 numbers (memmove 12 10 5 numbers)
memmove_lem_example = memmove_lem 12 10 5 numbers

safestrcpy_lem_test : Terminated 40 3 numbers (safestrcpy 40 7 4 numbers)
safestrcpy_lem_test = safestrcpy_lem 40 7 3 numbers

-- Copying upwards would give 10 here.
memmove_test : memmove 12 10 5 numbers 14 ≡ 12
unfolding memmove copy_down
memmove_test = refl

safestrcpy_test : safestrcpy 40 7 4 numbers 43 ≡ 0
unfolding safestrcpy safe_loop
safestrcpy_test = refl

memset_test : memset 3 261 2 numbers 4 ≡ 5
unfolding memset set_loop
memset_test = refl

memcmp_test : memcmp 5 6 2 numbers ≡ 0xFFFFFFFF
unfolding memcmp
memcmp_test = refl
