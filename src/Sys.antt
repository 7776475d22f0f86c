-- ===== src/Sys.antt =====
-- kernel/sysproc.c and `getvmstats` of kernel/proc.c: the system calls that report on processes, and
-- `sys_setdisksched`. The arguments that `argint` and `argaddr` fetch are arguments here, an `int` by
-- its 32-bit pattern; `self` is `myproc()`, and `none` is the return value -1.
pub mod Queries
pub mod Wait
mod Tests
use os_2_course_work.Prelude.{
  ℕ, zero, suc, ◌+◌, ◌*◌, ◌/◌, ◌%◌, ◌^◌, Bool, true, false, ◌&&◌, not, Option, none, some, List, [],
  ◌∷◌, ◌++◌, Outcome, done, ◌>>=◌, ◌==◌, ltb, if◌then◌else◌, u32, minus_one, get_or,
}
use os_2_course_work.Frames.{same_proc}
use os_2_course_work.Proc.{ProcState, unused, zombie, Proc, is_state, proc_at}
use os_2_course_work.DiskSched.{DiskSched, disk_sched_fcfs, disk_sched_sstf, disksched_set_policy}
use os_2_course_work.Evict.{Machine}
use os_2_course_work.Vm.Transfer.{copyout}

pub record VmStats : Type 0 where
  pub page_faults : ℕ
  pub pages_evicted : ℕ
  pub pages_swapped_in : ℕ
  pub pages_swapped_out : ℕ
  pub resident_pages : ℕ
  pub disk_reads : ℕ
  pub disk_writes : ℕ
  pub avg_disk_latency : ℕ

abbrev pub stats_of : Proc → VmStats
stats_of p = record {
  page_faults = p.page_faults;
  pages_evicted = p.pages_evicted;
  pages_swapped_in = p.pages_swapped_in;
  pages_swapped_out = p.pages_swapped_out;
  resident_pages = p.resident_pages;
  disk_reads = p.disk.disk_reads;
  disk_writes = p.disk.disk_writes;
  avg_disk_latency =
      if ltb 0 p.disk.disk_ops && ltb p.disk.disk_ops (2 ^ 31)
      then p.disk.total_disk_latency / p.disk.disk_ops
      else 0;
}

unfoldable pub getvmstats : ℕ → List Proc → Option VmStats
getvmstats pid [] = none
getvmstats pid (p ∷ ps) =
    let rest = getvmstats pid ps in
    if p.pid == pid && not (is_state p.state unused) then some (stats_of p) else rest

unfoldable pub sys_getpid : ℕ → List Proc → ℕ
sys_getpid self ps = (proc_at ps self).pid

abbrev pub pid_of : Option ℕ → List Proc → ℕ
pid_of none ps = minus_one
pid_of (some parent) ps = (proc_at ps parent).pid

-- An `int`, -1 without a parent.
unfoldable pub sys_getppid : ℕ → List Proc → ℕ
sys_getppid self ps = pid_of (proc_at ps self).parent ps

abbrev pub is_live_child : ℕ → Proc → Bool
is_live_child self p = same_proc p.parent (some self) && not (is_state p.state zombie)

unfoldable pub sys_getnumchild : ℕ → List Proc → ℕ
sys_getnumchild self [] = 0
sys_getnumchild self (p ∷ ps) =
    let rest = sys_getnumchild self ps in if is_live_child self p then suc rest else rest

unfoldable pub sys_getsyscount : ℕ → List Proc → ℕ
sys_getsyscount self ps = (proc_at ps self).syscount

unfoldable pub sys_getchildsyscount : ℕ → ℕ → List Proc → Option ℕ
sys_getchildsyscount self pid [] = none
sys_getchildsyscount self pid (p ∷ ps) =
    let rest = sys_getchildsyscount self pid ps in
    if p.pid == pid && same_proc p.parent (some self) then some p.syscount else rest

unfoldable pub sys_getlevel : ℕ → List Proc → ℕ
sys_getlevel self ps = (proc_at ps self).level

-- The four bytes of an `int`, the lowest first.
abbrev pub int_bytes : ℕ → List ℕ
int_bytes n = n % 256 ∷ n / 256 % 256 ∷ n / 65536 % 256 ∷ n / 16777216 % 256 ∷ []

-- `struct mlfqinfo` as `copyout` reads it.
abbrev pub info_bytes : Proc → List ℕ
info_bytes p =
    int_bytes p.level
    ++ (int_bytes (get_or p.total_ticks 0 0)
        ++ (int_bytes (get_or p.total_ticks 1 0)
            ++ (int_bytes (get_or p.total_ticks 2 0)
                ++ (int_bytes (get_or p.total_ticks 3 0)
                    ++ (int_bytes p.times_scheduled ++ int_bytes p.syscount)))))

-- The loop of `sys_getmlfqinfo`.
unfoldable pub find_info : ℕ → List Proc → Option (List ℕ)
find_info pid [] = none
find_info pid (p ∷ ps) =
    let rest = find_info pid ps in if p.pid == pid then some (info_bytes p) else rest

-- Whether it returns 0, and the machine; `pagetable` is the caller's.
unfoldable pub sys_getmlfqinfo : ℕ → ℕ → ℕ → ℕ → ℕ → Machine → Outcome (Bool × Machine)
sys_getmlfqinfo kernel_end self pagetable pid addr m = elim (find_info pid m.procs) [
  | none ↦ done (false, m)
  | some bytes ↦ copyout kernel_end self pagetable addr bytes m
]

unfoldable pub sys_setdisksched : ℕ → DiskSched → Outcome (Bool × DiskSched)
sys_setdisksched policy s =
    if not (policy == disk_sched_fcfs) && not (policy == disk_sched_sstf)
    then done (false, s)
    else (disksched_set_policy policy s >>= λ s'. done (true, s'))
