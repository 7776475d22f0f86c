-- ===== src/Lock/Tests.antt =====
-- The properties of the locks at concrete inputs.
use os_2_course_work.Prelude.{ℕ, ◌+◌, ◌≡◌, refl, true, false, none, some, done, panic, release_bad}
use os_2_course_work.Lock.{
  Cpu, initlock, push_off, pop_off, lock_release, holding, acquire_begin, release_begin,
  test_and_set, set_cpu, acquiresleep, releasesleep, holdingsleep,
}
use os_2_course_work.Lock.Nest.{Nest, idle, nest, run_nest, Matched, run_nest-Matched}
use os_2_course_work.Lock.Steps.{
  outside, spinning, entering, critical, leaving, popping, System, begin, grab, own, disown, free,
  at_pc, update, inside, Reaches, start, later,
}
use os_2_course_work.Lock.Exclusion.{acquire-exclusive}

abbrev enabled : Cpu
enabled = record { noff = 0; intena = false; intr = true }

abbrev twice : Nest
twice = nest (nest idle idle) idle

run_nest-Matched_example : Matched enabled (run_nest twice enabled)
run_nest-Matched_example =
    run_nest-Matched twice enabled (record { off = λ nested. absurd (nested refl) })

abbrev fresh : System
fresh = record { lock = initlock; cpus = λ i. enabled; pc = λ i. outside }

abbrev off : Cpu
off = record { noff = 1; intena = true; intr = false }

begins : acquire_begin initlock 2 enabled ≡ done off
unfolding acquire_begin push_off holding
begins = refl

abbrev waiting : System
waiting = at_pc 2 spinning (record fresh { cpus = update fresh.cpus 2 off })

abbrev holder : System
holder =
    at_pc 2 critical
      (record (at_pc 2 entering (record waiting { lock = (test_and_set initlock).1 })) {
        lock = set_cpu 2 (test_and_set initlock).1;
      })

holder_reached : Reaches fresh.cpus holder
holder_reached =
    later (later (later start (begin 2 off refl begins)) (grab 2 refl refl)) (own 2 refl)

-- CPU 2 releases the lock up to its `pop_off`, while CPU 5 acquires it.
abbrev disowned : System
disowned = at_pc 2 leaving (record holder { lock = record holder.lock { cpu = none } })

abbrev freed : System
freed = at_pc 2 popping (record disowned { lock = lock_release disowned.lock })

abbrev second_waiting : System
second_waiting = at_pc 5 spinning (record freed { cpus = update freed.cpus 5 off })

abbrev second_holder : System
second_holder =
    at_pc 5 critical
      (record (at_pc 5 entering (record second_waiting { lock = (test_and_set freed.lock).1 })) {
        lock = set_cpu 5 (test_and_set freed.lock).1;
      })

releases : release_begin holder.lock 2 ≡ done disowned.lock
unfolding release_begin holding
releases = refl

begins_again : acquire_begin freed.lock 5 enabled ≡ done off
unfolding acquire_begin push_off holding
begins_again = refl

second_reached : Reaches fresh.cpus second_holder
second_reached =
    let released =
      later (later holder_reached (disown 2 disowned.lock refl releases)) (free 2 refl) in
    later (later (later released (begin 5 off refl begins_again)) (grab 5 refl refl)) (own 5 refl)

acquire-exclusive_example :
    ((i j : ℕ) → inside (second_holder.pc i) ≡ true → inside (second_holder.pc j) ≡ true → i ≡ j)
    × ((i : ℕ)
        → second_holder.pc i ≡ critical
        → release_begin second_holder.lock i ≡ done (record second_holder.lock { cpu = none }))
    × ((i : ℕ)
        → second_holder.pc i ≡ popping
        → (c : Cpu) × (pop_off (second_holder.cpus i) ≡ done c)
          × (c.noff + 1 ≡ (second_holder.cpus i).noff))
    × ((i : ℕ)
        → second_holder.pc i ≡ outside
        → acquire_begin second_holder.lock i (second_holder.cpus i)
          ≡ done (push_off (second_holder.cpus i)))
acquire-exclusive_example = acquire-exclusive fresh.cpus second_holder second_reached

release_foreign_test : release_begin holder.lock 1 ≡ panic release_bad
unfolding release_begin holding
release_foreign_test = refl

acquiresleep_test : acquiresleep 4 (record { locked = true; pid = 3 }) ≡ none
unfolding acquiresleep
acquiresleep_test = refl

releasesleep_test :
    acquiresleep 4 (releasesleep (record { locked = true; pid = 3 }))
    ≡ some (record { locked = true; pid = 4 })
unfolding acquiresleep releasesleep
releasesleep_test = refl

holdingsleep_test : holdingsleep 3 (record { locked = true; pid = 4 }) ≡ false
unfolding holdingsleep
holdingsleep_test = refl
