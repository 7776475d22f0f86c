-- ===== src/DiskSched/Tests.antt =====
-- Tests of the disk queue, and the properties at concrete inputs.
use os_2_course_work.Prelude.{
  ℕ, ◌<◌, ◌≡◌, ◌⊎◌, refl, inr, true, false, none, some, List, [], ◌∷◌, done, panic, invalid_policy,
  queue_full, arith,
}
use os_2_course_work.DiskSched.{
  DiskReq, DiskSched, uint_max, int_max, disksched_init, disksched_set_policy, disksched_submit,
  fcfs_from, pick_fcfs, sstf_from, pick_sstf, alloc_from, dq_alloc_slot, disksched_flush,
}
use os_2_course_work.DiskSched.Pick.{
  NotBefore, Earliest, pick_fcfs_lem, NoneCloser, Closest, pick_sstf_lem,
}
use os_2_course_work.DiskSched.Submit.{
  Request, IsRequest, submit, rw_of, IsIdle, Served, submit_own,
}
use os_2_course_work.DiskSched.Calls.{
  Call, submit_call, policy_call, run, run-in_order, disksched_init-IsIdle, Stuck, submit-Stuck,
}
use os_2_course_work.DiskSched.Flush.{Drained, disksched_flush_lem}

abbrev req_at : ℕ → ℕ → DiskReq
req_at blockno seq = record {
  buf = seq;
  write = 1;
  blockno = blockno;
  priority = 0;
  pid = 1;
  valid = true;
  seq = seq;
}

abbrev two_requests : List DiskReq
two_requests = req_at 90 4 ∷ req_at 20 7 ∷ []

abbrev busy : DiskSched
busy = record {
  dq = two_requests;
  dq_size = 2;
  dq_seq = 8;
  current_head = 10;
  sched_policy = 1;
  total_latency = 0;
  total_ops = 0;
}

pick_fcfs_test : pick_fcfs two_requests ≡ some 0
unfolding pick_fcfs fcfs_from
pick_fcfs_test = refl

pick_sstf_test : pick_sstf two_requests 10 ≡ some 1
unfolding pick_sstf sstf_from
pick_sstf_test = refl

pick_fcfs_lem_test :
    ((pick_fcfs two_requests ≡ none) × NotBefore uint_max two_requests)
    ⊎ Earliest two_requests 0 uint_max (pick_fcfs two_requests)
pick_fcfs_lem_test = pick_fcfs_lem two_requests

pick_sstf_lem_test :
    ((pick_sstf two_requests 10 ≡ none) × NoneCloser 10 uint_max int_max two_requests)
    ⊎ Closest 10 two_requests 0 uint_max int_max (pick_sstf two_requests 10)
pick_sstf_lem_test = pick_sstf_lem two_requests 10

abbrev idle : DiskSched
idle = disksched_init (req_at 0 0 ∷ req_at 0 0 ∷ [])

idle-IsIdle : IsIdle idle
idle-IsIdle = disksched_init-IsIdle (req_at 0 0 ∷ req_at 0 0 ∷ []) (omega arith)

abbrev write_thirty : Request
write_thirty = record { buf = 3; blockno = 30; write = 1; owner = none }

idle_seq : idle.dq_seq < uint_max
unfolding disksched_init
idle_seq = omega arith

write_thirty-IsRequest : IsRequest write_thirty
write_thirty-IsRequest = record { block_small = omega arith; level_small = omega arith }

submit_own_test : Served idle write_thirty (submit write_thirty idle)
submit_own_test = submit_own idle write_thirty idle-IsIdle idle_seq write_thirty-IsRequest

abbrev three_calls : List Call
three_calls = submit_call write_thirty ∷ policy_call 1 ∷ submit_call write_thirty ∷ []

run-in_order_example :
    run three_calls idle ≡ done (some (rw_of write_thirty) ∷ some (rw_of write_thirty) ∷ [])
run-in_order_example =
    run-in_order three_calls idle idle-IsIdle (unfold disksched_init in omega arith)
      (write_thirty-IsRequest, (inr refl, (write_thirty-IsRequest, tt)))

abbrev at_end : DiskSched
at_end = record {
  dq = record (req_at 0 0) { valid = false } ∷ [];
  dq_size = 0;
  dq_seq = uint_max;
  current_head = 0;
  sched_policy = 0;
  total_latency = 0;
  total_ops = 0;
}

submit-Stuck_example : Stuck write_thirty (submit write_thirty at_end)
submit-Stuck_example =
    submit-Stuck at_end write_thirty
      (record {
        nothing_pending = (refl, tt);
        room = omega arith;
        size_zero = refl;
        head_small = omega arith;
      })
      refl refl

disksched_flush_lem_example : Drained busy (disksched_flush busy)
disksched_flush_lem_example = disksched_flush_lem busy (omega arith) (record {
  counted = refl;
  small = (
    (λ v. (omega arith, omega arith, omega arith)),
    ((λ v. (omega arith, omega arith, omega arith)), tt),
  );
  head_small = omega arith;
})

disksched_set_policy_test : disksched_set_policy 2 busy ≡ panic invalid_policy
unfolding disksched_set_policy
disksched_set_policy_test = refl

-- No slot is free in the queue of two pending requests.
disksched_submit_test : disksched_submit busy 3 30 1 none ≡ panic queue_full
unfolding disksched_submit dq_alloc_slot alloc_from
disksched_submit_test = refl
