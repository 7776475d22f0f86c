-- ===== src/Vm/Transfer.antt =====
-- kernel/vm.c: `copyout`, `copyin` and `copyinstr`, which move bytes between the kernel and the memory
-- of a process. The buffer of the kernel is a list: what `copyout` has left to write, and what the
-- other two have written. The loops run on fuel, one unit for each byte.
use os_2_course_work.Prelude.{
  ℕ, zero, suc, ◌+◌, ◌-◌, Bool, true, false, not, Option, none, some, List, [], ◌∷◌, ◌++◌, Outcome,
  done, ◌>>=◌, ◌==◌, ltb, leb, if◌then◌else◌, length, take, drop,
}
use os_2_course_work.Raid.{Page, bsize}
use os_2_course_work.Memory.{pgsize, pgrounddown, put_page}
use os_2_course_work.PageTable.{Tables, Place, maxva, pte_at, has_flag, flag_w, walk, walkaddr}
use os_2_course_work.Evict.{Machine}
use os_2_course_work.Vm.Fault.{Served, vmfault}

-- A page as 4096 bytes, and back.
abbrev pub bytes_of : Page → List ℕ
bytes_of [] = []
bytes_of (b ∷ bs) = b ++ bytes_of bs

abbrev pub split_bytes : ℕ → List ℕ → Page
split_bytes zero bytes = []
split_bytes (suc n) bytes = take bsize bytes ∷ split_bytes n (drop bsize bytes)

abbrev pub page_of_bytes : List ℕ → Page
page_of_bytes bytes = split_bytes 4 bytes

-- `memmove` to and from offset `off` of a page.
abbrev pub overwrite : ℕ → List ℕ → List ℕ → List ℕ
overwrite off src bytes = take off bytes ++ (src ++ drop (off + length src) bytes)

abbrev pub store_bytes : ℕ → ℕ → List ℕ → Machine → Machine
store_bytes pa off src m = record m {
  mem = record m.mem {
    page = put_page m.mem.page pa (page_of_bytes (overwrite off src (bytes_of (m.mem.page pa))));
  };
}

abbrev pub load_bytes : ℕ → ℕ → ℕ → Machine → List ℕ
load_bytes pa off n m = take n (drop off (bytes_of (m.mem.page pa)))

-- The page of `va0`, which `vmfault` brings in if `walkaddr` does not find it; 0 on an error.
unfoldable pub resident : ℕ → ℕ → ℕ → ℕ → Machine → Outcome Served
resident kernel_end p pagetable va0 m = do
  pa0 ← walkaddr m.tables pagetable va0
  if pa0 == 0 then vmfault kernel_end p pagetable va0 m else done (pa0, m)

-- `*pte & PTE_W`; the entry is there when the page is.
abbrev pub writable : Tables → Option Place → Bool
writable tables none = false
writable tables (some place) = has_flag flag_w (pte_at tables place)

-- `n` of a round: the bytes up to the end of the page, or the `len` that are left.
abbrev pub chunk : ℕ → ℕ → ℕ
chunk va len = let n = pgsize - (va - pgrounddown va) in if ltb len n then len else n

-- One round of `copyout`, for the bytes `part` from `dstva` on.
abbrev pub write_part : ℕ → ℕ → List ℕ → Option Place → Machine → Bool × Machine
write_part pa0 off part pte m =
    if not (writable m.tables pte) then (false, m) else (true, store_bytes pa0 off part m)

abbrev pub out_part : ℕ → ℕ → ℕ → List ℕ → ℕ × Machine → Outcome (Bool × Machine)
out_part pagetable va0 off part (pa0, m) =
    if pa0 == 0
    then done (false, m)
    else (walk m.tables pagetable va0 >>= λ pte. done (write_part pa0 off part pte m))

unfoldable pub copyout_round : ℕ → ℕ → ℕ → ℕ → List ℕ → Machine → Outcome (Bool × Machine)
copyout_round kernel_end p pagetable dstva part m =
    let va0 = pgrounddown dstva in
    if leb maxva va0
    then done (false, m)
    else (resident kernel_end p pagetable va0 m >>= out_part pagetable va0 (dstva - va0) part)

unfoldable pub copyout_loop : ℕ → ℕ → ℕ → ℕ → ℕ → List ℕ → Machine → Outcome (Bool × Machine)
copyout_loop zero kernel_end p pagetable dstva src m = done (true, m)
copyout_loop (suc fuel) kernel_end p pagetable dstva [] m = done (true, m)
copyout_loop (suc fuel) kernel_end p pagetable dstva (c ∷ cs) m =
    let n = chunk dstva (length (c ∷ cs)) in
    (do
      (fine, m') ← copyout_round kernel_end p pagetable dstva (take n (c ∷ cs)) m
      elim fine [
        | true ↦
            copyout_loop fuel kernel_end p pagetable (pgrounddown dstva + pgsize) (drop n (c ∷ cs))
              m'
        | false ↦ done (false, m')
      ])

-- Whether it returns 0, and the machine; the length of `src` is `len`.
unfoldable pub copyout : ℕ → ℕ → ℕ → ℕ → List ℕ → Machine → Outcome (Bool × Machine)
copyout kernel_end p pagetable dstva src m =
    copyout_loop (length src) kernel_end p pagetable dstva src m

-- Whether a copy into the kernel went well, what it wrote, and the machine.
abbrev pub Received : Type 0
Received = Bool × List ℕ × Machine

-- One round of `copyin`, for `n` bytes from `srcva` on.
abbrev pub in_part : ℕ → ℕ → ℕ × Machine → Received
in_part off n (pa0, m) = if pa0 == 0 then (false, [], m) else (true, load_bytes pa0 off n m, m)

unfoldable pub copyin_round : ℕ → ℕ → ℕ → ℕ → ℕ → Machine → Outcome Received
copyin_round kernel_end p pagetable srcva n m = do
  let va0 = pgrounddown srcva
  r ← resident kernel_end p pagetable va0 m
  done (in_part (srcva - va0) n r)

unfoldable pub copyin_loop : ℕ → ℕ → ℕ → ℕ → ℕ → ℕ → List ℕ → Machine → Outcome Received
copyin_loop zero kernel_end p pagetable srcva len dst m = done (true, dst, m)
copyin_loop (suc fuel) kernel_end p pagetable srcva zero dst m = done (true, dst, m)
copyin_loop (suc fuel) kernel_end p pagetable srcva (suc l) dst m =
    let n = chunk srcva (suc l) in
    (do
      (fine, part, m') ← copyin_round kernel_end p pagetable srcva n m
      elim fine [
        | true ↦
            copyin_loop fuel kernel_end p pagetable (pgrounddown srcva + pgsize) (suc l - n)
              (dst ++ part) m'
        | false ↦ done (false, dst, m')
      ])

unfoldable pub copyin : ℕ → ℕ → ℕ → ℕ → ℕ → Machine → Outcome Received
copyin kernel_end p pagetable srcva len m = copyin_loop len kernel_end p pagetable srcva len [] m

-- The inner loop of `copyinstr`: whether it met the null byte, and what it wrote.
unfoldable pub scan_bytes : List ℕ → Bool × List ℕ
scan_bytes [] = (false, [])
scan_bytes (c ∷ cs) =
    let (got, rest) = scan_bytes cs in
    elim (c == 0) [ true ↦ (true, 0 ∷ []) | false ↦ (got, c ∷ rest) ]

-- What a round of `copyinstr` writes, and whether it goes on: `none` is an error.
abbrev pub str_part : (ℕ → Page) → ℕ → ℕ → ℕ → Option (Bool × List ℕ)
str_part page off n pa0 =
    if pa0 == 0 then none else some (scan_bytes (take n (drop off (bytes_of (page pa0)))))

-- With `max` bytes left; `copyinstr` does not call `vmfault`.
unfoldable pub copyinstr_loop :
    ℕ → Tables → (ℕ → Page) → ℕ → ℕ → ℕ → List ℕ → Outcome (Bool × List ℕ)
copyinstr_loop zero tables page pagetable srcva max dst = done (false, dst)
copyinstr_loop (suc fuel) tables page pagetable srcva zero dst = done (false, dst)
copyinstr_loop (suc fuel) tables page pagetable srcva (suc l) dst =
    let va0 = pgrounddown srcva in
    let n = chunk srcva (suc l) in
    (do
      pa0 ← walkaddr tables pagetable va0
      elim (str_part page (srcva - va0) n pa0) [
        | none ↦ done (false, dst)
        | some r ↦ elim r.0 [
          | true ↦ done (true, dst ++ r.1)
          | false ↦
              copyinstr_loop fuel tables page pagetable (va0 + pgsize) (suc l - n) (dst ++ r.1)
        ]
      ])

unfoldable pub copyinstr : ℕ → ℕ → ℕ → Machine → Outcome (Bool × List ℕ)
copyinstr pagetable srcva max m = copyinstr_loop max m.tables m.mem.page pagetable srcva max []
