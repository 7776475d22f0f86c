-- ===== src/DiskSched/Flush.antt =====
-- `disksched_flush` ends, and drains the queue.
use os_2_course_work.Prelude.{
  ℕ, zero, suc, ◌+◌, ◌^◌, ◌≤◌, ◌<◌, ◌≡◌, ◌⊎◌, inl, inr, refl, ◌∙◌, ap, true, Bool-cases, Option,
  none, some, List, [], ◌∷◌, length, set, get_elem?, arith, ◌==◌, if◌then◌else◌, ℕ_discrete,
}
use os_2_course_work.DiskSched.{
  DiskReq, DiskSched, DiskRw, disk_sched_sstf, uint_max, int_max, invalidate, choose, take_out,
  compute_and_record_latency, flush_loop, disksched_flush, max_disk_queue,
}
use os_2_course_work.DiskSched.Pick.{NotBefore, pick_fcfs_lem, NoneCloser, pick_sstf_lem}

-- How many requests are pending.
abbrev pub pending : List DiskReq → ℕ
pending [] = 0
pending (q ∷ qs) = (if q.valid then 1 else 0) + pending qs

-- The pending requests hold `uint` values short of the largest sequence number, and levels.
abbrev pub Small : List DiskReq → Type 0
Small [] = Unit {0}
Small (q ∷ qs) =
    (q.valid ≡ true → (q.seq < uint_max) × (q.blockno < 2 ^ 32) × (q.priority < int_max)) × Small qs

pending-set :
    (qs : List DiskReq) (k : ℕ) (q : DiskReq)
    → get_elem? qs k ≡ some q
    → q.valid ≡ true
    → pending (set qs k (invalidate q)) + 1 ≡ pending qs
pending-set [] k q e v = cc
pending-set (x ∷ qs) zero q e v = ground arith
pending-set (x ∷ qs) (suc k) q e v = omega (arith, pending-set qs k q e v)

Small-set : (qs : List DiskReq) (k : ℕ) (q : DiskReq) → Small qs → Small (set qs k (invalidate q))
Small-set [] k q h = tt
Small-set (x ∷ qs) zero q h = ((λ v. cc), h.1)
Small-set (x ∷ qs) (suc k) q h = (h.0, Small-set qs k q h.1)

pending_le : (qs : List DiskReq) → pending qs ≤ length qs
pending_le [] = omega arith
pending_le (q ∷ qs) = ground (arith, pending_le qs)

-- A choice is the place of a pending request.
record Chosen (s : DiskSched) : Type 0 where
  place : ℕ
  request : DiskReq
  chosen : choose s ≡ some place
  at_place : get_elem? s.dq place ≡ some request
  valid : request.valid ≡ true

idle_of_NotBefore : (qs : List DiskReq) → NotBefore uint_max qs → Small qs → pending qs ≡ 0
idle_of_NotBefore [] h w = refl
idle_of_NotBefore (q ∷ qs) h w = elim (Bool-cases q.valid) [
  | inl v ↦ absurd (omega (arith, h.0 v, (w.0 v).0))
  | inr v ↦ rw v (omega (arith, idle_of_NotBefore qs h.1 w.1))
]

idle_of_NoneCloser :
    (head : ℕ) (qs : List DiskReq)
    → head < 2 ^ 32
    → NoneCloser head uint_max int_max qs
    → Small qs
    → pending qs ≡ 0
idle_of_NoneCloser head [] hh h w = refl
idle_of_NoneCloser head (q ∷ qs) hh h w = elim (Bool-cases q.valid) [
  | inl v ↦ absurd (ground (arith, h.0 v, w.0 v))
  | inr v ↦ rw v (omega (arith, idle_of_NoneCloser head qs hh h.1 w.1))
]

choose_lem :
    (s : DiskSched)
    → s.current_head < 2 ^ 32
    → Small s.dq
    → ((choose s ≡ none) × (pending s.dq ≡ 0)) ⊎ Chosen s
unfolding choose
choose_lem s hh w = elim (Bool-cases (s.sched_policy == disk_sched_sstf)) [
  | inl h ↦ elim (pick_sstf_lem s.dq s.current_head) [
    | inl n ↦ inl (rw h n.0, idle_of_NoneCloser s.current_head s.dq hh n.1 w)
    | inr c ↦ inr (record {
      place = c.place;
      request = c.request;
      chosen = rw h (c.picks ∙ ap some (omega arith));
      at_place = c.at_place;
      valid = c.pending;
    })
  ]
  | inr h ↦ elim (pick_fcfs_lem s.dq) [
    | inl n ↦ inl (rw h n.0, idle_of_NotBefore s.dq n.1 w)
    | inr c ↦ inr (record {
      place = c.place;
      request = c.request;
      chosen = rw h (c.picks ∙ ap some (omega arith));
      at_place = c.at_place;
      valid = c.pending;
    })
  ]
]

-- The queue's counter is the number of pending requests.
pub record IsCounted (s : DiskSched) : Type 0 where
  pub counted : s.dq_size ≡ pending s.dq
  pub small : Small s.dq
  pub head_small : s.current_head < 2 ^ 32

Small-get :
    (qs : List DiskReq) (k : ℕ) (q : DiskReq)
    → get_elem? qs k ≡ some q
    → q.valid ≡ true
    → Small qs
    → q.blockno < 2 ^ 32
Small-get [] k q e v w = cc
Small-get (x ∷ qs) zero q e v w = ground (arith, w.0)
Small-get (x ∷ qs) (suc k) q e v w = Small-get qs k q e v w.1

take_out_lem :
    (s : DiskSched) (k : ℕ) (q : DiskReq)
    → IsCounted s
    → get_elem? s.dq k ≡ some q
    → q.valid ≡ true
    → IsCounted (take_out s k q).0 × (pending (take_out s k q).0.dq + 1 ≡ pending s.dq)
unfolding take_out compute_and_record_latency
take_out_lem s k q v e p = (
  record {
    counted = omega (arith, pending-set s.dq k q e p, v.counted);
    small = Small-set s.dq k q v.small;
    head_small = Small-get s.dq k q e p v.small;
  },
  pending-set s.dq k q e p,
)

pub record Drained (s : DiskSched) (result : Option (DiskSched × List DiskRw)) : Type 0 where
  pub after : DiskSched
  pub calls : List DiskRw
  pub returns : result ≡ some (after, calls)
  pub nothing_left : pending after.dq ≡ 0
  pub all_served : length calls ≡ pending s.dq

flush_loop_lem :
    (fuel : ℕ) (s : DiskSched) → pending s.dq < fuel → IsCounted s → Drained s (flush_loop fuel s)
unfolding flush_loop
flush_loop_lem zero s h v = elim h [ ]
flush_loop_lem (suc fuel) s h v = elim (ℕ_discrete s.dq_size 0) [
  | yes e ↦ record {
    after = s;
    calls = [];
    returns = ground arith;
    nothing_left = omega (arith, v.counted);
    all_served = omega (arith, v.counted);
  }
  | no ne ↦ elim (choose_lem s v.head_small v.small) [
    | inl n ↦ absurd (ne (omega (arith, v.counted, n.1)))
    | inr c ↦
        let t = take_out_lem s c.place c.request v c.at_place c.valid in
        let rest = flush_loop_lem fuel (take_out s c.place c.request).0 (omega (arith, t.1)) t.0 in
        record {
          after = rest.after;
          calls = (take_out s c.place c.request).1 ∷ rest.calls;
          returns = ground (arith, c.chosen, c.at_place, rest.returns);
          nothing_left = rest.nothing_left;
          all_served = omega (arith, rest.all_served, t.1);
        }
  ]
]

-- On a queue of 64 entries at most whose counter is right and whose pending requests are short of
-- the sequence number 0xFFFFFFFF, `disksched_flush` ends within its rounds under either policy: it
-- hands as many requests to the disk as were pending and leaves none.
pub disksched_flush_lem :
    (s : DiskSched) → length s.dq ≤ max_disk_queue → IsCounted s → Drained s (disksched_flush s)
unfolding disksched_flush
disksched_flush_lem s h v = flush_loop_lem (max_disk_queue + 1) s (omega (arith, pending_le s.dq)) v
