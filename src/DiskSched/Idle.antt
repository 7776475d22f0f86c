-- ===== src/DiskSched/Idle.antt =====
-- Queues with nothing pending, as every submission leaves them.
use os_2_course_work.Prelude.{
  ℕ, suc, ◌+◌, ◌<◌, ◌≡◌, refl, ap, Bool, false, Option, none, some, List, [], ◌∷◌, map, length,
  arith,
}
use os_2_course_work.DiskSched.{
  DiskReq, uint_max, int_max, invalidate, alloc_from, dq_alloc_slot, fcfs_from, pick_fcfs,
  sstf_from, pick_sstf, distance,
}

abbrev pub Idle : List DiskReq → Type 0
Idle [] = Unit {0}
Idle (q ∷ qs) = (q.valid ≡ false) × Idle qs

pub invalidate-Idle : (qs : List DiskReq) → Idle (map invalidate qs)
invalidate-Idle [] = tt
invalidate-Idle (q ∷ qs) = (refl, invalidate-Idle qs)

pub length-invalidate : (qs : List DiskReq) → length (map invalidate qs) ≡ length qs
length-invalidate [] = refl
length-invalidate (q ∷ qs) = ap suc (length-invalidate qs)

fcfs_from-Idle :
    (qs : List DiskReq) (i : ℕ) (best : Option ℕ) (bound : ℕ)
    → Idle qs
    → fcfs_from qs i best bound ≡ best
unfolding fcfs_from
fcfs_from-Idle [] i best bound h = refl
fcfs_from-Idle (q ∷ qs) i best bound h = rw h.0 (fcfs_from-Idle qs (i + 1) best bound h.1)

sstf_from-Idle :
    (qs : List DiskReq) (head i : ℕ) (best : Option ℕ) (d p : ℕ)
    → Idle qs
    → sstf_from qs head i best d p ≡ best
unfolding sstf_from
sstf_from-Idle [] head i best d p h = refl
sstf_from-Idle (q ∷ qs) head i best d p h = rw h.0 (sstf_from-Idle qs head (i + 1) best d p h.1)

module _ (q : DiskReq) (qs : List DiskReq) where
  pub dq_alloc_slot-Idle : Idle (q ∷ qs) → dq_alloc_slot (q ∷ qs) ≡ some 0
  unfolding dq_alloc_slot alloc_from
  dq_alloc_slot-Idle h = ground arith

  -- A request alone in the queue is the one that is picked.
  pub pick_fcfs-alone :
      q.valid ≡ Bool.true → q.seq < uint_max → Idle qs → pick_fcfs (q ∷ qs) ≡ some 0
  unfolding pick_fcfs fcfs_from
  pick_fcfs-alone v h idle = ground (arith, fcfs_from-Idle qs 1 (some 0) q.seq idle)

  pub pick_fcfs-stuck : uint_max < q.seq + 1 → Idle qs → pick_fcfs (q ∷ qs) ≡ none
  unfolding pick_fcfs fcfs_from
  pick_fcfs-stuck h idle = ground (arith, fcfs_from-Idle qs 1 none uint_max idle)

  pub pick_sstf-alone :
      (head : ℕ)
      → q.valid ≡ Bool.true
      → q.blockno < uint_max + 1
      → head < uint_max + 1
      → q.priority < int_max
      → Idle qs
      → pick_sstf (q ∷ qs) head ≡ some 0
  unfolding pick_sstf sstf_from
  pick_sstf-alone head v hb hh hp idle =
      ground (arith, sstf_from-Idle qs head 1 (some 0) (distance q.blockno head) q.priority idle)
