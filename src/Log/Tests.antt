-- ===== src/Log/Tests.antt =====
-- Tests of the log, and the properties at concrete inputs: a transaction of one block, block 50, with
-- the log at block 2.
use os_2_course_work.Prelude.{
  ℕ, suc, ◌+◌, ◌≤◌, ◌≡◌, ◌⊎◌, refl, inr, Bool, true, false, some, [], ◌∷◌, get_elem?, done, panic,
  too_big_a_transaction, arith,
}
use os_2_course_work.Log.{
  LogHeader, Log, Disk, Store, crashed, running, logblocks, put, copy_head, bwrite, write_head,
  write_log_loop, write_log, install_loop, install_trans, commit, initlog, begin_op, end_op, absorb,
  log_write,
}
use os_2_course_work.Log.View.{view, IsHome, IsHead, Safe}
use os_2_course_work.Log.Install.{StandsFor}
use os_2_course_work.Log.Recover.{Recovered, initlog_lem, initlog-running}
use os_2_course_work.Log.Write.{Old, New, committed}
use os_2_course_work.Log.Commit.{commit_lem, commit-running, initlog-commit}
use os_2_course_work.Log.Space.{Reaches, starts, steps, begins, Reaches-fits}

abbrev one_entry : LogHeader
one_entry = record { n = 1; block = λ i. 50 }

abbrev no_entry : LogHeader
no_entry = record { n = 0; block = λ i. 0 }

abbrev log_at_two : Log
log_at_two = record { start = 2; outstanding = 0; committing = true; lh = one_entry }

abbrev old_disk : Disk
old_disk = record { blocks = λ b. 1 ∷ []; head = no_entry }

-- The cache has block 50 changed.
abbrev dirty : Store
dirty = record { disk = old_disk; cache = put (λ b. 1 ∷ []) 50 (9 ∷ []) }

one_entry-IsHead : IsHead 2 one_entry
one_entry-IsHead = record { fits = omega arith; home = λ i h. inr (omega arith) }

commit_lem_test :
    Safe
      (λ d. Old log_at_two dirty d ⊎ New log_at_two dirty d)
      (Recovered 2 (committed log_at_two dirty))
      (commit log_at_two 3 dirty)
commit_lem_test = commit_lem log_at_two dirty one_entry-IsHead refl 3

commit-running_test :
    (left : ℕ) × (r : Log × Store) × (commit log_at_two (1 + suc (1 + suc 0)) dirty
      ≡ running left r)
commit-running_test = commit-running log_at_two dirty 0

-- The power fails after the header has been written.
abbrev failed_disk : Disk
failed_disk = record {
  blocks = put old_disk.blocks 3 (9 ∷ []);
  head = copy_head one_entry no_entry;
}

commit-failed_disk : commit log_at_two 2 dirty ≡ crashed failed_disk
unfolding commit write_log write_log_loop bwrite write_head install_trans install_loop
commit-failed_disk = refl

initlog-commit_example :
    (r : Log × Store) × (initlog 2 (1 + suc 4) failed_disk ≡ running 4 r)
    × (((b : ℕ) → IsHome 2 b → r.1.disk.blocks b ≡ old_disk.blocks b)
        ⊎ ((b : ℕ) → IsHome 2 b → r.1.disk.blocks b ≡ committed log_at_two dirty b))
initlog-commit_example =
    initlog-commit log_at_two dirty 2 4 failed_disk one_entry-IsHead refl commit-failed_disk

initlog_lem_test :
    Safe
      (StandsFor 2 (view 2 failed_disk))
      (Recovered 2 (view 2 failed_disk))
      (initlog 2 1 failed_disk)
initlog_lem_test =
    initlog_lem 2 failed_disk (record { fits = omega arith; home = λ i h. inr (ground arith) }) 1

initlog-running_test : (r : Log × Store) × (initlog 2 (1 + suc 4) failed_disk ≡ running 4 r)
initlog-running_test = initlog-running 2 failed_disk 4

abbrev empty_log : Log
empty_log = record { start = 2; outstanding = 0; committing = false; lh = no_entry }

abbrev one_op : Log
one_op = record empty_log { outstanding = 1 }

begin_op-one_op : begin_op empty_log ≡ some one_op
unfolding begin_op
begin_op-one_op = refl

abbrev one_op-Reaches : Reaches empty_log one_op (10 ∷ [])
one_op-Reaches = steps (starts refl refl refl) (begins begin_op-one_op)

Reaches-fits_example :
    (one_op.lh.n ≤ logblocks)
    × ((i left b : ℕ)
        → get_elem? {A = ℕ} (10 ∷ []) i ≡ some (suc left)
        → (l : Log) × (log_write b one_op ≡ done l))
    × ((i left : ℕ)
        → get_elem? {A = ℕ} (10 ∷ []) i ≡ some left
        → (r : Log × Bool) × (end_op one_op ≡ done r))
Reaches-fits_example = Reaches-fits empty_log one_op (10 ∷ []) one_op-Reaches

-- Writing a block twice in a transaction takes one entry.
log_write_test :
    log_write 50 (record log_at_two { outstanding = 1 })
    ≡ done (record log_at_two {
      outstanding = 1;
      lh = record { n = 1; block = put one_entry.block 0 50 };
    })
unfolding log_write absorb
log_write_test = refl

log_write_full_test :
    log_write 7 (record one_op { lh = record { n = 30; block = λ i. i } })
    ≡ panic too_big_a_transaction
unfolding log_write
log_write_full_test = refl
