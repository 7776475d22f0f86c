-- ===== src/DiskSched/Pick.antt =====
-- What `pick_fcfs` and `pick_sstf` choose: a pending request that no other one comes before.
use os_2_course_work.Prelude.{
  ℕ, suc, ◌+◌, ◌≤◌, ◌<◌, ◌≡◌, ◌⊎◌, inl, inr, refl, ◌∙◌, ap, true, false, ◌&&◌, Bool-cases, Option,
  none, some, List, [], ◌∷◌, ltb, get_elem?, arith,
}
use os_2_course_work.DiskSched.{
  DiskReq, uint_max, int_max, fcfs_from, pick_fcfs, sstf_from, pick_sstf, distance, closer,
}

-- No pending request has a sequence number under the bound.
abbrev pub NotBefore : ℕ → List DiskReq → Type 0
NotBefore bound [] = Unit {0}
NotBefore bound (q ∷ qs) = (q.valid ≡ true → bound ≤ q.seq) × NotBefore bound qs

-- `r` is `i` plus the place of a pending request under the bound, and none has a smaller number.
pub record Earliest (qs : List DiskReq) (i bound : ℕ) (r : Option ℕ) : Type 0 where
  pub place : ℕ
  pub request : DiskReq
  pub picks : r ≡ some (i + place)
  pub at_place : get_elem? qs place ≡ some request
  pub pending : request.valid ≡ true
  pub under : request.seq < bound
  pub least : NotBefore request.seq qs

abbrev Fcfs : List DiskReq → ℕ → Option ℕ → ℕ → Option ℕ → Type 0
Fcfs qs i best bound r = ((r ≡ best) × NotBefore bound qs) ⊎ Earliest qs i bound r

Fcfs-skip :
    (q : DiskReq) (qs : List DiskReq) (i : ℕ) (best : Option ℕ) (bound : ℕ) (r : Option ℕ)
    → (q.valid && ltb q.seq bound) ≡ false
    → Fcfs qs (i + 1) best bound r
    → Fcfs (q ∷ qs) i best bound r
Fcfs-skip q qs i best bound r h (inl (e, nb)) = inl (e, ((λ v. ground arith), nb))
Fcfs-skip q qs i best bound r h (inr e) = inr (record {
  place = suc e.place;
  request = e.request;
  picks = e.picks ∙ ap some (omega arith);
  at_place = e.at_place;
  pending = e.pending;
  under = e.under;
  least = ((λ v. ground (arith, e.under)), e.least);
})

Fcfs-take :
    (q : DiskReq) (qs : List DiskReq) (i : ℕ) (best : Option ℕ) (bound : ℕ) (r : Option ℕ)
    → (q.valid && ltb q.seq bound) ≡ true
    → Fcfs qs (i + 1) (some i) q.seq r
    → Fcfs (q ∷ qs) i best bound r
Fcfs-take q qs i best bound r h (inl (e, nb)) = inr (record {
  place = 0;
  request = q;
  picks = e ∙ ap some (omega arith);
  at_place = refl;
  pending = ground arith;
  under = ground arith;
  least = ((λ v. omega arith), nb);
})
Fcfs-take q qs i best bound r h (inr e) = inr (record {
  place = suc e.place;
  request = e.request;
  picks = e.picks ∙ ap some (omega arith);
  at_place = e.at_place;
  pending = e.pending;
  under = ground (arith, e.under);
  least = ((λ v. omega (arith, e.under)), e.least);
})

fcfs_from_lem :
    (qs : List DiskReq) (i : ℕ) (best : Option ℕ) (bound : ℕ)
    → Fcfs qs i best bound (fcfs_from qs i best bound)
unfolding fcfs_from
fcfs_from_lem [] i best bound = inl (refl, tt)
fcfs_from_lem (q ∷ qs) i best bound = elim (Bool-cases (q.valid && ltb q.seq bound)) [
  | inl h ↦ rw h (Fcfs-take q qs i best bound _ h (fcfs_from_lem qs (i + 1) (some i) q.seq))
  | inr h ↦ rw h (Fcfs-skip q qs i best bound _ h (fcfs_from_lem qs (i + 1) best bound))
]

-- `pick_fcfs` returns -1 only if every pending request has the sequence number 0xFFFFFFFF (or
-- none is pending); otherwise it returns the place of a pending request with the least number.
pub pick_fcfs_lem :
    (dq : List DiskReq)
    → ((pick_fcfs dq ≡ none) × NotBefore uint_max dq) ⊎ Earliest dq 0 uint_max (pick_fcfs dq)
unfolding pick_fcfs
pick_fcfs_lem dq = fcfs_from_lem dq 0 none uint_max

-- `(d, p)` comes no later than `(e, q)` by distance, then by priority.
abbrev pub NoLater : ℕ → ℕ → ℕ → ℕ → Type 0
NoLater d p e q = (d < e) ⊎ ((d ≡ e) × (p ≤ q))

-- No pending request is closer than `(d, p)`.
abbrev pub NoneCloser : ℕ → ℕ → ℕ → List DiskReq → Type 0
NoneCloser head d p [] = Unit {0}
NoneCloser head d p (q ∷ qs) =
    (q.valid ≡ true → NoLater d p (distance q.blockno head) q.priority) × NoneCloser head d p qs

pub record Closest (head : ℕ) (qs : List DiskReq) (i d p : ℕ) (r : Option ℕ) : Type 0 where
  pub place : ℕ
  pub request : DiskReq
  pub picks : r ≡ some (i + place)
  pub at_place : get_elem? qs place ≡ some request
  pub pending : request.valid ≡ true
  pub under : closer (distance request.blockno head) request.priority d p ≡ true
  pub least : NoneCloser head (distance request.blockno head) request.priority qs

NoLater-of_closer : (d p e q : ℕ) → closer d p e q ≡ true → NoLater d p e q
NoLater-of_closer d p e q h = ground arith

NoLater-of_not_closer : (d p e q : ℕ) → closer e q d p ≡ false → NoLater d p e q
NoLater-of_not_closer d p e q h = ground arith

closer_trans : (a b c d e f : ℕ) → closer a b c d ≡ true → NoLater c d e f → NoLater a b e f
closer_trans a b c d e f h k = ground arith

closer-closer :
    (a b c d e f : ℕ) → closer a b c d ≡ true → closer c d e f ≡ true → closer a b e f ≡ true
closer-closer a b c d e f h k = ground arith

module _ (head : ℕ) where
  abbrev Sstf : List DiskReq → ℕ → Option ℕ → ℕ → ℕ → Option ℕ → Type 0
  Sstf qs i best d p r = ((r ≡ best) × NoneCloser head d p qs) ⊎ Closest head qs i d p r

  Sstf-skip :
      (q : DiskReq) (qs : List DiskReq) (i : ℕ) (best : Option ℕ) (d p : ℕ) (r : Option ℕ)
      → (q.valid && closer (distance q.blockno head) q.priority d p) ≡ false
      → Sstf qs (i + 1) best d p r
      → Sstf (q ∷ qs) i best d p r
  Sstf-skip q qs i best d p r h (inl (e, nb)) =
      inl (e, ((λ v. NoLater-of_not_closer d p _ _ (rw v at h)), nb))
  Sstf-skip q qs i best d p r h (inr e) = inr (record {
    place = suc e.place;
    request = e.request;
    picks = e.picks ∙ ap some (omega arith);
    at_place = e.at_place;
    pending = e.pending;
    under = e.under;
    least = (
      (λ v. closer_trans _ _ d p _ _ e.under (NoLater-of_not_closer d p _ _ (rw v at h))),
      e.least,
    );
  })

  Sstf-take :
      (q : DiskReq) (qs : List DiskReq) (i : ℕ) (best : Option ℕ) (d p : ℕ) (r : Option ℕ)
      → q.valid ≡ true
      → closer (distance q.blockno head) q.priority d p ≡ true
      → Sstf qs (i + 1) (some i) (distance q.blockno head) q.priority r
      → Sstf (q ∷ qs) i best d p r
  Sstf-take q qs i best d p r v h (inl (e, nb)) = inr (record {
    place = 0;
    request = q;
    picks = e ∙ ap some (omega arith);
    at_place = refl;
    pending = v;
    under = h;
    least = ((λ _. inr (refl, omega arith)), nb);
  })
  Sstf-take q qs i best d p r v h (inr e) = inr (record {
    place = suc e.place;
    request = e.request;
    picks = e.picks ∙ ap some (omega arith);
    at_place = e.at_place;
    pending = e.pending;
    under = closer-closer _ _ (distance q.blockno head) q.priority d p e.under h;
    least = ((λ _. NoLater-of_closer _ _ _ _ e.under), e.least);
  })

  sstf_from_lem :
      (qs : List DiskReq) (i : ℕ) (best : Option ℕ) (d p : ℕ)
      → Sstf qs i best d p (sstf_from qs head i best d p)
  unfolding sstf_from
  sstf_from_lem [] i best d p = inl (refl, tt)
  sstf_from_lem (q ∷ qs) i best d p =
      elim (Bool-cases (q.valid && closer (distance q.blockno head) q.priority d p)) [
        | inl h ↦ rw h (
            Sstf-take q qs i best d p _ (ground arith) (ground arith)
              (sstf_from_lem qs (i + 1) (some i) (distance q.blockno head) q.priority))
        | inr h ↦ rw h (Sstf-skip q qs i best d p _ h (sstf_from_lem qs (i + 1) best d p))
      ]

-- `pick_sstf` returns -1 only if no pending request is closer than `(0xFFFFFFFF, 0x7FFFFFFF)`;
-- otherwise it returns the place of a pending request at the least distance from the head, and of
-- the least priority number among those.
pub pick_sstf_lem :
    (dq : List DiskReq) (head : ℕ)
    → ((pick_sstf dq head ≡ none) × NoneCloser head uint_max int_max dq)
      ⊎ Closest head dq 0 uint_max int_max (pick_sstf dq head)
unfolding pick_sstf
pick_sstf_lem dq head = sstf_from_lem head dq 0 none uint_max int_max
