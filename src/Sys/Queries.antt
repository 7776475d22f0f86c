-- ===== src/Sys/Queries.antt =====
-- `getvmstats` looks at the state of a process, `sys_getmlfqinfo` does not.
use os_2_course_work.Prelude.{
  ℕ, zero, suc, ◌<◌, ◌≡◌, ◌≢◌, refl, true, false, ◌&&◌, not, Bool-cases, inl, inr, none, some, List,
  [], ◌∷◌, ◌==◌, length, arith,
}
use os_2_course_work.Proc.{unused, Proc, is_state, proc_at}
use os_2_course_work.Evict.{Machine}
use os_2_course_work.Vm.Transfer.{copyout}
use os_2_course_work.Sys.{getvmstats, info_bytes, find_info, sys_getmlfqinfo}

-- Every process with the pid is `UNUSED`.
abbrev pub AllUnused : ℕ → List Proc → Type 0
AllUnused pid [] = Unit {0}
AllUnused pid (p ∷ ps) = (p.pid ≡ pid → is_state p.state unused ≡ true) × AllUnused pid ps

getvmstats-AllUnused : (pid : ℕ) (ps : List Proc) → AllUnused pid ps → getvmstats pid ps ≡ none
unfolding getvmstats
getvmstats-AllUnused pid [] h = refl
getvmstats-AllUnused pid (p ∷ ps) h =
    let skipped : (p.pid == pid && not (is_state p.state unused)) ≡ false =
      elim (Bool-cases (p.pid == pid)) [
        | inl same ↦ let e : p.pid ≡ pid = ground arith in rw (same, h.0 e) refl
        | inr other ↦ rw other refl
      ] in
    rw (getvmstats, skipped) (getvmstats-AllUnused pid ps h.1)

find_info_lem :
    (pid k : ℕ) (ps : List Proc)
    → k < length ps
    → (proc_at ps k).pid ≡ pid
    → ((j : ℕ) → j < k → (proc_at ps j).pid ≢ pid)
    → find_info pid ps ≡ some (info_bytes (proc_at ps k))
unfolding find_info
find_info_lem pid k [] h e first = absurd (omega arith)
find_info_lem pid zero (p ∷ ps) h e first =
    let same : (p.pid == pid) ≡ true = ground arith in rw (find_info, same) refl
find_info_lem pid (suc k) (p ∷ ps) h e first =
    let ne = first 0 (omega arith) in
    let other : (p.pid == pid) ≡ false = ground arith in
    rw (find_info, other)
      (find_info_lem pid k ps (omega arith) e (λ j lt. first (suc j) (omega arith)))

-- When every entry of the table with the pid is `UNUSED`, and there is one: `getvmstats` returns -1,
-- while `sys_getmlfqinfo` copies the levels, the ticks and the counters of the first such entry to the
-- caller, and returns what that `copyout` returns.
pub getmlfqinfo-AllUnused :
    (kernel_end self pagetable pid addr k : ℕ) (m : Machine)
    → k < length m.procs
    → (proc_at m.procs k).pid ≡ pid
    → ((j : ℕ) → j < k → (proc_at m.procs j).pid ≢ pid)
    → AllUnused pid m.procs
    → (getvmstats pid m.procs ≡ none)
      × (sys_getmlfqinfo kernel_end self pagetable pid addr m
          ≡ copyout kernel_end self pagetable addr (info_bytes (proc_at m.procs k)) m)
unfolding sys_getmlfqinfo
getmlfqinfo-AllUnused kernel_end self pagetable pid addr k m h e first all = (
  getvmstats-AllUnused pid m.procs all,
  rw (sys_getmlfqinfo, find_info_lem pid k m.procs h e first) refl,
)
