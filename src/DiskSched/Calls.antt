-- ===== src/DiskSched/Calls.antt =====
-- Whole runs of the disk queue: the order in which requests reach the disk, and the one way in
-- which a request is left behind.
use os_2_course_work.Prelude.{
  ℕ, ◌+◌, ◌≤◌, ◌<◌, ◌≡◌, ◌⊎◌, refl, true, Option, none, some, List, [], ◌∷◌, Outcome, done, ◌>>=◌,
  length, arith, get_elem?,
}
use os_2_course_work.DiskSched.{
  DiskReq, DiskSched, DiskRw, disk_sched_fcfs, disk_sched_sstf, uint_max, choose, enqueue,
  owner_priority, owner_pid, disksched_init, disksched_set_policy, disksched_submit,
}
use os_2_course_work.DiskSched.Idle.{
  invalidate-Idle, length-invalidate, dq_alloc_slot-Idle, pick_fcfs-stuck,
}
use os_2_course_work.DiskSched.Submit.{Request, IsRequest, submit, rw_of, IsIdle, submit_own}

-- What the rest of the kernel calls: `disksched_submit`, or `disksched_set_policy`.
pub data Call : Type 0 where
  submit_call : Request → Call
  policy_call : ℕ → Call

abbrev pub IsCall : Call → Type 0
IsCall (submit_call q) = IsRequest q
IsCall (policy_call p) = (p ≡ disk_sched_fcfs) ⊎ (p ≡ disk_sched_sstf)

abbrev pub AllCalls : List Call → Type 0
AllCalls [] = Unit {0}
AllCalls (c ∷ cs) = IsCall c × AllCalls cs

-- The requests of the calls, in the order of the calls.
abbrev pub in_order : List Call → List (Option DiskRw)
in_order [] = []
in_order (submit_call q ∷ cs) = some (rw_of q) ∷ in_order cs
in_order (policy_call p ∷ cs) = in_order cs

-- What each submission hands to the disk, for the calls made one after the other.
unfoldable pub run : List Call → DiskSched → Outcome (List (Option DiskRw))
run [] s = done []
run (submit_call q ∷ cs) s = do (t, call) ← submit q s; calls ← run cs t; done (call ∷ calls)
run (policy_call p ∷ cs) s = do t ← disksched_set_policy p s; run cs t

set_policy_lem :
    (p : ℕ) (s : DiskSched)
    → (p ≡ disk_sched_fcfs) ⊎ (p ≡ disk_sched_sstf)
    → disksched_set_policy p s ≡ done (record s { sched_policy = p })
unfolding disksched_set_policy
set_policy_lem p s h = ground arith

-- From a queue with nothing pending, calls that submit requests and switch policies hand every
-- request to the disk in the order of submission, as long as the sequence numbers do not reach
-- 0xFFFFFFFF. So the policy never changes the order.
pub run-in_order :
    (cs : List Call) (s : DiskSched)
    → IsIdle s
    → s.dq_seq + length cs ≤ uint_max
    → AllCalls cs
    → run cs s ≡ done (in_order cs)
unfolding run
run-in_order [] s v h w = refl
run-in_order (submit_call q ∷ cs) s v h w =
    let one = submit_own s q v (omega arith) w.0 in
    rw (one.returns, run-in_order cs one.after one.idle (omega (arith, one.counted)) w.1)
run-in_order (policy_call p ∷ cs) s v h w = rw (set_policy_lem p s w.0) (
    run-in_order cs (record s { sched_policy = p })
      (record {
        nothing_pending = v.nothing_pending;
        room = v.room;
        size_zero = v.size_zero;
        head_small = v.head_small;
      })
      (omega arith) w.1)

-- The queue that `disksched_init` sets up has nothing pending.
pub disksched_init-IsIdle : (dq : List DiskReq) → 0 < length dq → IsIdle (disksched_init dq)
unfolding disksched_init
disksched_init-IsIdle dq h = record {
  nothing_pending = invalidate-Idle dq;
  room = omega (arith, length-invalidate dq);
  size_zero = refl;
  head_small = omega arith;
}

-- What is left of a submission that `pick_fcfs` does not see.
pub record Stuck (q : Request) (result : Outcome (DiskSched × Option DiskRw)) : Type 0 where
  pub after : DiskSched
  pub request : DiskReq
  pub returns : result ≡ done (after, none)
  pub waits : get_elem? after.dq 0 ≡ some request
  pub pending : request.valid ≡ true
  pub same_buf : request.buf ≡ q.buf
  pub sized : after.dq_size ≡ 1

-- Under FCFS, the submission that gets the sequence number 0xFFFFFFFF hands nothing to the disk: it
-- returns with its request still pending in the queue.
pub submit-Stuck :
    (s : DiskSched) (q : Request)
    → IsIdle s
    → s.sched_policy ≡ disk_sched_fcfs
    → s.dq_seq ≡ uint_max
    → Stuck q (submit q s)
submit-Stuck s q = go s.dq
  where
    go :
        (dq : List DiskReq)
        → IsIdle (record s { dq = dq })
        → s.sched_policy ≡ disk_sched_fcfs
        → s.dq_seq ≡ uint_max
        → Stuck q (submit q (record s { dq = dq }))
    go [] v p e = absurd (omega (arith, v.room))
    go (x ∷ xs) v p e = record {
      after = enqueue (record s { dq = x ∷ xs }) 0 q.buf q.blockno q.write q.owner;
      request = record {
        buf = q.buf;
        write = q.write;
        blockno = q.blockno;
        priority = owner_priority q.owner;
        pid = owner_pid q.owner;
        valid = true;
        seq = s.dq_seq;
      };
      returns =
          unfold disksched_submit choose enqueue in
          ground (
            arith,
            dq_alloc_slot-Idle x xs v.nothing_pending,
            pick_fcfs-stuck
                (record {
                  buf = q.buf;
                  write = q.write;
                  blockno = q.blockno;
                  priority = owner_priority q.owner;
                  pid = owner_pid q.owner;
                  valid = true;
                  seq = s.dq_seq;
                })
                xs (omega (arith, e)) v.nothing_pending.1,
          );
      waits = unfold enqueue in refl;
      pending = refl;
      same_buf = refl;
      sized = unfold enqueue in omega (arith, v.size_zero);
    }
