-- ===== src/DiskSched/Submit.antt =====
-- `disksched_submit` takes one request in and one out in a single critical section. So the queue is
-- empty between calls, and every call serves its own request, whatever the policy.
use os_2_course_work.Prelude.{
  ℕ, ◌+◌, ◌^◌, ◌<◌, ◌≡◌, refl, true, Option, some, List, [], ◌∷◌, Outcome, done, length, u32, u64,
  arith,
}
use os_2_course_work.DiskSched.{
  DiskReq, DiskSched, Owner, DiskRw, disk_sched_fcfs, disk_sched_sstf, rotational_const, uint_max,
  int_max, distance, invalidate, choose, take_out, enqueue, compute_and_record_latency,
  owner_priority, disksched_init, disksched_set_policy, disksched_submit, pick_fcfs, pick_sstf,
}
use os_2_course_work.DiskSched.Idle.{Idle, dq_alloc_slot-Idle, pick_fcfs-alone, pick_sstf-alone}

-- A submission as its caller makes it.
pub record Request : Type 0 where
  pub buf : ℕ
  pub blockno : ℕ
  pub write : ℕ
  pub owner : Option Owner

-- Its numbers are `uint` values and `int` levels of the code.
pub record IsRequest (q : Request) : Type 0 where
  pub block_small : q.blockno < 2 ^ 32
  pub level_small : owner_priority q.owner < int_max

abbrev pub submit : Request → DiskSched → Outcome (DiskSched × Option DiskRw)
submit q s = disksched_submit s q.buf q.blockno q.write q.owner

abbrev pub rw_of : Request → DiskRw
rw_of q = record { buf = q.buf; write = q.write }

-- The queue between two submissions.
pub record IsIdle (s : DiskSched) : Type 0 where
  pub nothing_pending : Idle s.dq
  pub room : 0 < length s.dq
  pub size_zero : s.dq_size ≡ 0
  pub head_small : s.current_head < 2 ^ 32

-- What a submission that serves its own request leaves.
pub record Served (s : DiskSched) (q : Request) (result : Outcome (DiskSched × Option DiskRw))
    : Type 0 where
  pub after : DiskSched
  pub returns : result ≡ done (after, some (rw_of q))
  pub idle : IsIdle after
  pub head_moved : after.current_head ≡ q.blockno
  pub counted : after.dq_seq ≡ u32 (s.dq_seq + 1)
  pub latency :
      after.total_latency
      ≡ u64 (s.total_latency + u32 (distance q.blockno s.current_head + rotational_const))
  pub ops : after.total_ops ≡ u64 (s.total_ops + 1)
  pub same_policy : after.sched_policy ≡ s.sched_policy

choose-alone :
    (s : DiskSched) (q : DiskReq) (qs : List DiskReq)
    → s.dq ≡ q ∷ qs
    → q.valid ≡ true
    → q.seq < uint_max
    → q.blockno < 2 ^ 32
    → s.current_head < 2 ^ 32
    → q.priority < int_max
    → Idle qs
    → choose s ≡ some 0
unfolding choose
choose-alone s q qs e v hs hb hh hp idle = ground (
  arith,
  pick_fcfs-alone q qs v hs idle,
  pick_sstf-alone q qs s.current_head v (omega arith) (omega arith) hp idle,
)

module _ (s : DiskSched) (p : DiskReq) (ps : List DiskReq) (q : Request) where
  abbrev first : DiskSched
  first = record s { dq = p ∷ ps }

  entry : DiskReq
  entry = record {
    buf = q.buf;
    write = q.write;
    blockno = q.blockno;
    priority = owner_priority q.owner;
    pid = os_2_course_work.DiskSched.owner_pid q.owner;
    valid = true;
    seq = s.dq_seq;
  }

  submit_first : IsIdle first → s.dq_seq < uint_max → IsRequest q → Served first q (submit q first)
  submit_first v h w = record {
    after = (take_out (enqueue first 0 q.buf q.blockno q.write q.owner) 0 entry).0;
    returns =
        unfold disksched_submit enqueue take_out entry in
        ground (arith, dq_alloc_slot-Idle p ps v.nothing_pending, chosen);
    idle =
        unfold take_out enqueue compute_and_record_latency entry in
        record {
          nothing_pending = (refl, v.nothing_pending.1);
          room = omega arith;
          size_zero = omega (arith, v.size_zero);
          head_small = w.block_small;
        };
    head_moved = unfold take_out enqueue compute_and_record_latency entry in refl;
    counted = unfold take_out enqueue compute_and_record_latency entry in refl;
    latency = unfold take_out enqueue compute_and_record_latency entry in refl;
    ops = unfold take_out enqueue compute_and_record_latency entry in refl;
    same_policy = unfold take_out enqueue compute_and_record_latency entry in refl;
  }
    where
      chosen : choose (enqueue first 0 q.buf q.blockno q.write q.owner) ≡ some 0
      chosen =
          unfold enqueue in
          choose-alone (enqueue first 0 q.buf q.blockno q.write q.owner) entry ps
            (unfold enqueue entry in refl) (unfold entry in refl) (unfold entry in h)
            (unfold entry in w.block_small) v.head_small (unfold entry in w.level_small)
            v.nothing_pending.1

-- With nothing pending and sequence numbers left below 0xFFFFFFFF, a submission hands its own
-- request to the disk under either policy. It leaves nothing pending, the head at its block, and the
-- request's seek distance plus 5 added to the latency.
pub submit_own :
    (s : DiskSched) (q : Request)
    → IsIdle s
    → s.dq_seq < uint_max
    → IsRequest q
    → Served s q (submit q s)
submit_own s q = go s.dq
  where
    go :
        (dq : List DiskReq)
        → IsIdle (record s { dq = dq })
        → s.dq_seq < uint_max
        → IsRequest q
        → Served (record s { dq = dq }) q (submit q (record s { dq = dq }))
    go [] v h w = absurd (omega (arith, v.room))
    go (p ∷ ps) v h w = submit_first s p ps q v h w
