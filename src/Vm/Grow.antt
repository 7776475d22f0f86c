-- ===== src/Vm/Grow.antt =====
-- kernel/proc.c and kernel/sysproc.c: `growproc` and `sys_sbrk`, which change the size of a process.
-- `pagetable` is `p->pagetable`, and the `int` n is its 32-bit pattern.
use os_2_course_work.Prelude.{
  ℕ, ◌+◌, ◌-◌, ◌^◌, Bool, true, false, ◌||◌, not, Option, none, some, Outcome, done, ◌>>=◌, ◌==◌,
  ltb, if◌then◌else◌, u64, modify,
}
use os_2_course_work.Proc.{proc_at}
use os_2_course_work.Memory.{pgsize}
use os_2_course_work.PageTable.{maxva, flag_w}
use os_2_course_work.Evict.{Machine}
use os_2_course_work.Vm.{uvmalloc, uvmdealloc}

abbrev pub trapframe_va : ℕ
trapframe_va = maxva - pgsize - pgsize

-- `sz + n` on 64 bits.
abbrev pub add_int : ℕ → ℕ → ℕ
add_int sz n = if ltb n (2 ^ 31) then u64 (sz + n) else u64 (sz + (2 ^ 64 - (2 ^ 32 - n)))

abbrev pub set_sz : ℕ → ℕ → Machine → Machine
set_sz p sz m = record m { procs = modify (λ q. record q { sz = sz }) m.procs p }

-- Whether it returns 0, and the machine.
abbrev pub Resized : Type 0
Resized = Bool × Machine

abbrev pub grown_to : ℕ → ℕ × Machine → Resized
grown_to p (sz, m) = if sz == 0 then (false, m) else (true, set_sz p sz m)

abbrev pub shrunk_to : ℕ → ℕ × Machine → Resized
shrunk_to p (sz, m) = (true, set_sz p sz m)

unfoldable pub growproc : ℕ → ℕ → ℕ → ℕ → Machine → Outcome Resized
growproc kernel_end p pagetable n m =
    let sz = (proc_at m.procs p).sz in
    let newsz = add_int sz n in
    if n == 0
    then done (true, set_sz p sz m)
    else if ltb n (2 ^ 31)
    then (if ltb trapframe_va newsz
        then done (false, m)
        else (uvmalloc kernel_end (some p) pagetable sz newsz flag_w m >>= λ r.
            done (grown_to p r)))
    else (uvmdealloc kernel_end (some p) pagetable sz newsz m >>= λ r. done (shrunk_to p r))

-- The old size, or -1.
abbrev pub sbrk_result : ℕ → Resized → Option ℕ × Machine
sbrk_result addr (false, m) = (none, m)
sbrk_result addr (true, m) = (some addr, m)

-- `t` is compared with `SBRK_EAGER`.
unfoldable pub sys_sbrk : ℕ → ℕ → ℕ → ℕ → ℕ → Machine → Outcome (Option ℕ × Machine)
sys_sbrk kernel_end p pagetable n t m =
    let addr = (proc_at m.procs p).sz in
    if t == 1 || not (ltb n (2 ^ 31))
    then (growproc kernel_end p pagetable n m >>= λ r. done (sbrk_result addr r))
    else if ltb (add_int addr n) addr
    then done (none, m)
    else if ltb trapframe_va (add_int addr n)
    then done (none, m)
    else done (some addr, set_sz p (add_int addr n) m)
