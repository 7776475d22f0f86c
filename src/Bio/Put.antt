-- ===== src/Bio/Put.antt =====
-- `bwrite` and `binit`.
use os_2_course_work.Prelude.{
  ◌≤◌, NotIn, Distinct, ℕ, zero, suc, ◌<◌, ◌^◌, ◌≡◌, ◌≢◌, refl, sym, ◌∙◌, true, Option, some, List,
  [], ◌∷◌, done, ◌==◌, if◌then◌else◌, ℕ_discrete, arith,
}
use os_2_course_work.Raid.{Block}
use os_2_course_work.DiskSched.{DiskReq, Owner, uint_max, int_max, owner_priority}
use os_2_course_work.DiskSched.Submit.{IsIdle, Request, submit_own}
use os_2_course_work.Bio.{
  Buf, Bcache, hits, buf_at, submit_buf, holds, bwrite, init_loop, binit, nbuf,
}
use os_2_course_work.Bio.View.{view_in, view, NoTwin, Clean, indices, IsCache, hits_dev}
use os_2_course_work.Bio.Get.{Present, view_in-buf_at}

-- A view of a block depends on the disk at that block only.
view_in-disk :
    (dev k : ℕ) (bufs : List Buf) (disk disk' : ℕ → Block)
    → disk' k ≡ disk k
    → view_in dev bufs disk' k ≡ view_in dev bufs disk k
view_in-disk dev k [] disk disk' e = e
view_in-disk dev k (b ∷ bs) disk disk' e = rw (e, view_in-disk dev k bs disk disk' e) refl

-- In a cache as it is between operations, with nothing pending for the disk and sequence numbers left,
-- `bwrite` by the process that holds the lock of a filled buffer puts what the cache has of its block
-- on the disk. No other block of the disk changes, and no block changes for those who read.
pub bwrite_lem :
    (pid : ℕ) (p : Option Owner) (dev n i : ℕ) (c : Bcache)
    → IsCache dev c.bufs c.disk
    → Present i c.bufs
    → hits dev n (buf_at i c.bufs) ≡ true
    → (buf_at i c.bufs).valid ≡ true
    → (buf_at i c.bufs).lock ≡ some pid
    → IsIdle c.sched
    → c.sched.dq_seq < uint_max
    → n < 2 ^ 32
    → owner_priority p < int_max
    → (c' : Bcache) × (bwrite pid p i c ≡ done c')
      × (c'.disk n ≡ view dev c n)
      × ((k : ℕ) → k ≢ n → c'.disk k ≡ c.disk k)
      × ((k : ℕ) → view dev c' k ≡ view dev c k)
unfolding bwrite submit_buf buf_at
bwrite_lem pid p dev n i c v present hit valid held idle seq low prio =
    let b = buf_at i c.bufs in
    let at_n = (hits_dev dev n b hit).1 in
    let q : Request = record { buf = i; blockno = b.blockno; write = 1; owner = p } in
    let served =
      submit_own c.sched q idle seq (record { block_small = rw at_n low; level_small = prio }) in
    let disk' : ℕ → Block = λ k. if k == b.blockno then b.content else c.disk k in
    let owner : holds b.lock pid ≡ true = holder held in
    let seen : view dev c n ≡ b.content =
      view_in-buf_at dev n i c.bufs c.disk v.single present hit ∙ (rw valid refl) in
    let seen' : view_in dev c.bufs disk' n ≡ b.content =
      view_in-buf_at dev n i c.bufs disk' v.single present hit ∙ (rw valid refl) in
    let written : disk' n ≡ b.content = ground arith in
    (
      record { bufs = c.bufs; disk = disk'; sched = served.after },
      rw (bwrite, owner, submit_buf, served.returns) refl,
      written ∙ sym seen,
      λ k ne. other k ne at_n,
      λ k. elim (ℕ_discrete k n) [
        | yes e ↦ rw e (seen' ∙ sym seen)
        | no ne ↦ view_in-disk dev k c.bufs c.disk disk' (other k ne at_n)
      ],
    )
  where
    holder : (buf_at i c.bufs).lock ≡ some pid → holds (buf_at i c.bufs).lock pid ≡ true
    holder e = let same : (pid == pid) ≡ true = ground arith in rw e same

    other :
        (k : ℕ)
        → k ≢ n
        → (buf_at i c.bufs).blockno ≡ n
        → (if k == (buf_at i c.bufs).blockno then (buf_at i c.bufs).content else c.disk k)
          ≡ c.disk k
    other k ne at_n = ground arith

-- The buffers of `binit` are of no device.
init_loop-NoTwin :
    (dev n : ℕ) (disk : ℕ → Block)
    → dev ≢ 0
    → NoTwin dev (init_loop n) × Clean dev disk (init_loop n)
unfolding init_loop
init_loop-NoTwin dev zero disk h = (tt, tt)
init_loop-NoTwin dev (suc n) disk h =
    let t = init_loop-NoTwin dev n disk h in
    ((λ d. absurd (h (sym d)), t.0), (λ d valid z. absurd (h (sym d)), t.1))

init_loop-NotIn : (x n : ℕ) → n ≤ x → NotIn x (indices (init_loop n))
unfolding init_loop
init_loop-NotIn x zero h = tt
init_loop-NotIn x (suc n) h = (λ e. absurd (omega arith), init_loop-NotIn x n (omega arith))

init_loop-Distinct : (n : ℕ) → Distinct (indices (init_loop n))
unfolding init_loop
init_loop-Distinct zero = tt
init_loop-Distinct (suc n) = (init_loop-NotIn n n (omega arith), init_loop-Distinct n)

-- The cache that `binit` leaves has each block of a device other than 0 at most once and is clean.
pub binit-IsCache :
    (dev : ℕ) (disk : ℕ → Block) (dq : List DiskReq)
    → dev ≢ 0
    → IsCache dev (binit disk dq).bufs (binit disk dq).disk
unfolding binit
binit-IsCache dev disk dq h =
    let t = init_loop-NoTwin dev nbuf disk h in
    record { own = init_loop-Distinct nbuf; single = t.0; clean = t.1 }
