-- ===== src/DiskSched.antt =====
-- kernel/disksched.c and kernel/disksched.h: the queue in front of the disk and its two policies.
-- A routine runs with `dq_lock` held up to its call of `virtio_disk_rw`, so it is one step on the
-- state; what it hands to `virtio_disk_rw` is part of its result.
pub mod Pick
mod Idle
pub mod Submit
pub mod Calls
pub mod Flush
mod Tests
use os_2_course_work.Prelude.{
  ℕ, zero, suc, ◌+◌, ◌-◌, ◌/◌, ◌%◌, ◌^◌, Bool, true, false, ◌&&◌, ◌||◌, not, Option, none, some,
  List, [], ◌∷◌, map, Outcome, done, panic, invalid_policy, queue_full, ◌==◌, ltb, if◌then◌else◌,
  u32, u64, minus_one, get_elem?, set,
}

abbrev pub rotational_const : ℕ
rotational_const = 5

abbrev pub max_disk_queue : ℕ
max_disk_queue = 64

abbrev pub disk_sched_fcfs : ℕ
disk_sched_fcfs = 0

abbrev pub disk_sched_sstf : ℕ
disk_sched_sstf = 1

abbrev pub uint_max : ℕ
uint_max = 0xFFFFFFFF

abbrev pub int_max : ℕ
int_max = 0x7FFFFFFF

-- `buf` stands for the `struct buf *`; `priority` is a level or 99, and `pid` an `int` by its
-- 32-bit pattern.
pub record DiskReq : Type 0 where
  pub buf : ℕ
  pub write : ℕ
  pub blockno : ℕ
  pub priority : ℕ
  pub pid : ℕ
  pub valid : Bool
  pub seq : ℕ

pub record DiskSched : Type 0 where
  pub dq : List DiskReq
  pub dq_size : ℕ
  pub dq_seq : ℕ
  pub current_head : ℕ
  pub sched_policy : ℕ
  pub total_latency : ℕ
  pub total_ops : ℕ

-- What `disksched_submit` reads of `myproc()`.
pub record Owner : Type 0 where
  pub level : ℕ
  pub pid : ℕ

-- The arguments of a call of `virtio_disk_rw`.
pub record DiskRw : Type 0 where
  pub buf : ℕ
  pub write : ℕ

abbrev pub invalidate : DiskReq → DiskReq
invalidate q = record q { valid = false }

-- The other fields of the queue's entries are left as they were.
unfoldable pub disksched_init : List DiskReq → DiskSched
disksched_init dq = record {
  dq = map invalidate dq;
  dq_size = 0;
  dq_seq = 0;
  current_head = 0;
  sched_policy = disk_sched_fcfs;
  total_latency = 0;
  total_ops = 0;
}

unfoldable pub disksched_set_policy : ℕ → DiskSched → Outcome DiskSched
disksched_set_policy policy s =
    if not (policy == disk_sched_fcfs) && not (policy == disk_sched_sstf)
    then panic invalid_policy
    else done (record s { sched_policy = policy })

unfoldable pub disksched_get_policy : DiskSched → ℕ
disksched_get_policy s = s.sched_policy

-- `*out_total_ops` and `*out_avg_latency`.
unfoldable pub disksched_get_stats : DiskSched → ℕ × ℕ
disksched_get_stats s =
    (s.total_ops, if ltb 0 s.total_ops then s.total_latency / s.total_ops else 0)

-- The search from index `i` on.
unfoldable pub alloc_from : List DiskReq → ℕ → Option ℕ
alloc_from [] i = none
alloc_from (q ∷ qs) i = if not q.valid then some i else alloc_from qs (i + 1)

unfoldable pub dq_alloc_slot : List DiskReq → Option ℕ
dq_alloc_slot dq = alloc_from dq 0

-- The loop of `pick_fcfs` from index `i` on; `best` is `none` for -1.
unfoldable pub fcfs_from : List DiskReq → ℕ → Option ℕ → ℕ → Option ℕ
fcfs_from [] i best best_seq = best
fcfs_from (q ∷ qs) i best best_seq =
    let better = q.valid && ltb q.seq best_seq in
    fcfs_from qs (i + 1) (if better then some i else best) (if better then q.seq else best_seq)

unfoldable pub pick_fcfs : List DiskReq → Option ℕ
pick_fcfs dq = fcfs_from dq 0 none uint_max

-- `|blockno - head|` of two `uint` values.
abbrev pub distance : ℕ → ℕ → ℕ
distance blockno head = if ltb head blockno then blockno - head else head - blockno

abbrev pub closer : ℕ → ℕ → ℕ → ℕ → Bool
closer dist prio best_dist best_prio = ltb dist best_dist || dist == best_dist && ltb prio best_prio

-- The loop of `pick_sstf` from index `i` on.
unfoldable pub sstf_from : List DiskReq → ℕ → ℕ → Option ℕ → ℕ → ℕ → Option ℕ
sstf_from [] head i best best_dist best_prio = best
sstf_from (q ∷ qs) head i best best_dist best_prio =
    let dist = distance q.blockno head in
    let better = q.valid && closer dist q.priority best_dist best_prio in
    sstf_from qs head (i + 1) (if better then some i else best) (if better then dist else best_dist)
      (if better then q.priority else best_prio)

unfoldable pub pick_sstf : List DiskReq → ℕ → Option ℕ
pick_sstf dq head = sstf_from dq head 0 none uint_max int_max

unfoldable pub compute_and_record_latency : ℕ → DiskSched → ℕ × DiskSched
compute_and_record_latency blockno s =
    let latency = u32 (distance blockno s.current_head + rotational_const) in
    (
      latency,
      record s {
        total_latency = u64 (s.total_latency + latency);
        total_ops = u64 (s.total_ops + 1);
      },
    )

-- The choice by policy that `disksched_submit` and `disksched_flush` both make.
unfoldable pub choose : DiskSched → Option ℕ
choose s =
    if s.sched_policy == disk_sched_sstf then pick_sstf s.dq s.current_head else pick_fcfs s.dq

-- The rest of both: take the chosen request out, record its latency, move the head to it.
unfoldable pub take_out : DiskSched → ℕ → DiskReq → DiskSched × DiskRw
take_out s chosen q =
    let t = record s { dq = set s.dq chosen (invalidate q); dq_size = s.dq_size - 1 } in
    let u = (compute_and_record_latency q.blockno t).1 in
    (record u { current_head = q.blockno }, record { buf = q.buf; write = q.write })

-- `chosen` is an index that a loop over `dq` returned, so it is never out of range.
abbrev pub extract : DiskSched → ℕ → DiskSched × Option DiskRw
extract s chosen = elim (get_elem? s.dq chosen) [
  | none ↦ (s, none)
  | some q ↦ let (t, rw_call) = take_out s chosen q in (t, some rw_call)
]

-- `p->level` or 99, `p->pid` or -1.
abbrev pub owner_priority : Option Owner → ℕ
owner_priority none = 99
owner_priority (some p) = p.level

abbrev pub owner_pid : Option Owner → ℕ
owner_pid none = minus_one
owner_pid (some p) = p.pid

unfoldable pub enqueue : DiskSched → ℕ → ℕ → ℕ → ℕ → Option Owner → DiskSched
enqueue s slot b blockno write p = record s {
  dq = set s.dq slot (record {
    buf = b;
    write = write;
    blockno = blockno;
    priority = owner_priority p;
    pid = owner_pid p;
    valid = true;
    seq = s.dq_seq;
  });
  dq_seq = u32 (s.dq_seq + 1);
  dq_size = s.dq_size + 1;
}

-- A request that is not taken out stays in the queue, and nothing is handed to the disk.
unfoldable pub disksched_submit :
    DiskSched → ℕ → ℕ → ℕ → Option Owner → Outcome (DiskSched × Option DiskRw)
disksched_submit s b blockno write p = elim (dq_alloc_slot s.dq) [
  | none ↦ panic queue_full
  | some slot ↦
      let t = enqueue s slot b blockno write p in
      done (elim (choose t) [ none ↦ (t, none) | some chosen ↦ extract t chosen ])
]

abbrev pub cons_call : Option DiskRw → DiskSched × List DiskRw → DiskSched × List DiskRw
cons_call none r = r
cons_call (some c) (s, cs) = (s, c ∷ cs)

-- The loop of `disksched_flush`, with no submission between its rounds; `none` is out of fuel.
unfoldable pub flush_loop : ℕ → DiskSched → Option (DiskSched × List DiskRw)
flush_loop zero s = none
flush_loop (suc fuel) s = elim (s.dq_size == 0) [
  | true ↦ some (s, [])
  | false ↦ elim (choose s) [
    | none ↦ some (s, [])
    | some chosen ↦
        let (t, call) = extract s chosen in
        elim (flush_loop fuel t) [ none ↦ none | some r ↦ some (cons_call call r) ]
  ]
]

-- One round takes one request out, so a round for each entry of the queue and one to see it empty.
unfoldable pub disksched_flush : DiskSched → Option (DiskSched × List DiskRw)
disksched_flush s = flush_loop (max_disk_queue + 1) s
