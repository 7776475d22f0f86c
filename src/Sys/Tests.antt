-- ===== src/Sys/Tests.antt =====
-- The property of the reports at a concrete input, and tests of the counts.
use os_2_course_work.Prelude.{ℕ, zero, suc, ◌<◌, ◌≡◌, ◌≢◌, refl, none, some, List, [], ◌∷◌, arith}
use os_2_course_work.Proc.{Proc, running, zombie, sleeping, null_proc, proc_at}
use os_2_course_work.Evict.{Machine}
use os_2_course_work.Evict.Tests.{machine}
use os_2_course_work.Vm.Transfer.{copyout}
use os_2_course_work.Sys.{
  getvmstats, info_bytes, sys_getmlfqinfo, sys_getppid, sys_getnumchild, sys_getchildsyscount,
}
use os_2_course_work.Sys.Queries.{getmlfqinfo-AllUnused}

abbrev parent : Proc
parent = record null_proc { state = running; pid = 7 }

abbrev child : Proc
child = record null_proc { state = sleeping; pid = 8; parent = some 0; syscount = 5 }

abbrev dead_child : Proc
dead_child = record child { state = zombie; pid = 9 }

abbrev table : List Proc
table = parent ∷ child ∷ dead_child ∷ null_proc ∷ []

abbrev asked : Machine
asked = record machine { procs = table }

getmlfqinfo-AllUnused_example :
    (getvmstats 0 table ≡ none)
    × (sys_getmlfqinfo 0x80030000 0 4096 0 8192 asked
        ≡ copyout 0x80030000 0 4096 8192 (info_bytes null_proc) asked)
getmlfqinfo-AllUnused_example =
    getmlfqinfo-AllUnused 0x80030000 0 4096 0 8192 3 asked (omega arith) refl (λ j lt. others j lt)
      (
        λ e. absurd (omega arith),
        (λ e. absurd (omega arith), (λ e. absurd (omega arith), (λ e. refl, tt))),
      )
  where
    others : (j : ℕ) → j < 3 → (proc_at table j).pid ≢ 0
    others zero lt e = absurd (omega arith)
    others (suc zero) lt e = absurd (omega arith)
    others (suc (suc zero)) lt e = absurd (omega arith)
    others (suc (suc (suc j))) lt e = absurd (omega arith)

numchild_test : sys_getnumchild 0 table ≡ 1
unfolding sys_getnumchild
numchild_test = refl

childsyscount_test : sys_getchildsyscount 0 8 table ≡ some 5
unfolding sys_getchildsyscount
childsyscount_test = refl

ppid_test : sys_getppid 1 table ≡ 7
unfolding sys_getppid
ppid_test = refl
