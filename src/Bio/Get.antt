-- ===== src/Bio/Get.antt =====
-- `bget` and `bread`: the buffer that they return has the block, and no block changes.
use mathlib.Core.Path.{subst}
use os_2_course_work.Prelude.{
  NotIn, ℕ, ◌<◌, ◌^◌, ◌≡◌, ◌≢◌, ◌⊎◌, inl, inr, refl, sym, ap, ◌∙◌, true, false, Bool-cases, Option,
  none, some, List, [], ◌∷◌, done, panic, no_buffers, if◌then◌else◌, true-false, ℕ_discrete, arith,
}
use os_2_course_work.Raid.{Block}
use os_2_course_work.DiskSched.{Owner, uint_max, int_max, owner_priority}
use os_2_course_work.DiskSched.Submit.{IsIdle, Request, submit_own}
use os_2_course_work.Bio.{
  Buf, Bcache, hits, bget, at_index, buf_at, lock_buf, submit_buf, fill_buf, bread,
}
use os_2_course_work.Bio.View.{
  view_in, view, Absent, NoTwin, indices, IsCache, Kept, Unwrapped, AllReferred, find_cached_lem,
  find_unused_buf_lem, hits_dev, buf_at-behind,
}
use os_2_course_work.Bio.Change.{at_index-Changed, Changed-IsCache}

-- What `bget` does: it panics if no buffer has the block and all are referred to; otherwise it returns
-- a buffer that has the block, and no block changes.
pub bget_lem :
    (dev n : ℕ) (c : Bcache)
    → IsCache dev c.bufs c.disk
    → Unwrapped c.bufs
    → ((bget dev n c ≡ panic no_buffers) × Absent dev n c.bufs × AllReferred c.bufs)
      ⊎ ((i : ℕ) × (after : List Buf) × (bget dev n c ≡ done (i, record c { bufs = after }))
          × Kept dev n c.disk c.bufs i after)
unfolding bget
bget_lem dev n c v w = elim (find_cached_lem dev n c.disk c.bufs v w) [
  | inr (i, after, found, t) ↦ inr (i, after, rw (bget, found) refl, t)
  | inl (missing, gone) ↦ elim (find_unused_buf_lem dev n c.disk c.bufs v gone) [
    | inl (nothing, all) ↦ inl (rw (bget, missing, nothing) refl, gone, all)
    | inr (i, after, found, t) ↦ inr (i, after, rw (bget, missing, found) refl, t)
  ]
]

Kept-IsCache :
    {dev n : ℕ} {disk : ℕ → Block} {bufs : List Buf} {i : ℕ} {after : List Buf}
    → IsCache dev bufs disk
    → Kept dev n disk bufs i after
    → IsCache dev after disk
Kept-IsCache v t = record { own = rw t.order v.own; single = t.single; clean = t.clean }

-- The buffer `i` is in the list.
abbrev pub Present : ℕ → List Buf → Type 0
Present i bufs = NotIn i (indices bufs) → ⊥

abbrev pub shown : (ℕ → Block) → Buf → Block
shown disk b = if b.valid then b.content else disk b.blockno

Absent-buf_at :
    (dev n i : ℕ) (bufs : List Buf)
    → Absent dev n bufs
    → Present i bufs
    → hits dev n (buf_at i bufs) ≡ false
unfolding buf_at
Absent-buf_at dev n i [] h present = absurd (present tt)
Absent-buf_at dev n i (b ∷ bs) h present = elim (ℕ_discrete b.index i) [
  | yes same ↦ let own : buf_at i (b ∷ bs) ≡ b = ground arith in rw own h.0
  | no ne ↦
      rw (buf_at-behind i b bs ne)
        (Absent-buf_at dev n i bs h.1 (λ away. present ((λ e. ne (sym e)), away)))
]

-- The buffer that has a block shows it.
pub view_in-buf_at :
    (dev n i : ℕ) (bufs : List Buf) (disk : ℕ → Block)
    → NoTwin dev bufs
    → Present i bufs
    → hits dev n (buf_at i bufs) ≡ true
    → view_in dev bufs disk n ≡ shown disk (buf_at i bufs)
unfolding buf_at
view_in-buf_at dev n i [] disk v present hit = absurd (present tt)
view_in-buf_at dev n i (b ∷ bs) disk v present hit = elim (ℕ_discrete b.index i) [
  | yes same ↦
      let own : buf_at i (b ∷ bs) ≡ b = ground arith in
      let hit_b : hits dev n b ≡ true = subst (λ x. hits dev n x ≡ true) own hit in
      let at_n = (hits_dev dev n b hit_b).1 in
      rw (own, hit_b)
        (subst (λ x. (if b.valid then b.content else disk x) ≡ shown disk b) at_n refl)
  | no ne ↦
      let e = buf_at-behind i b bs ne in
      let there : Present i bs = λ away. present ((λ x. ne (sym x)), away) in
      let hit_bs : hits dev n (buf_at i bs) ≡ true = subst (λ x. hits dev n x ≡ true) e hit in
      elim (Bool-cases (hits dev n b)) [
        | inl twin ↦
            let (d, at_n) = hits_dev dev n b twin in
            let gone = subst (λ x. Absent dev x bs) at_n (v.0 d) in
            absurd (true-false (sym hit_bs ∙ Absent-buf_at dev n i bs gone there))
        | inr miss ↦ rw (miss, e) (view_in-buf_at dev n i bs disk v.1 there hit_bs)
      ]
]

-- What `fill_buf` leaves of a cache in which the buffer `i` has the block.
record Filled (p : Option Owner) (dev n i : ℕ) (c : Bcache) : Type 0 where
  after : Bcache
  returns : fill_buf i p c ≡ done after
  content : (buf_at i after.bufs).content ≡ view dev c n
  holder : (buf_at i after.bufs).lock ≡ (buf_at i c.bufs).lock
  same : (k : ℕ) → view dev after k ≡ view dev c k
  cache : IsCache dev after.bufs after.disk
  disk : after.disk ≡ c.disk

-- The buffer was filled before.
fill_valid :
    (p : Option Owner) (dev n i : ℕ) (c : Bcache)
    → IsCache dev c.bufs c.disk
    → Present i c.bufs
    → hits dev n (buf_at i c.bufs) ≡ true
    → (buf_at i c.bufs).valid ≡ true
    → Filled p dev n i c
unfolding fill_buf
fill_valid p dev n i c v present hit valid =
    let seen = view_in-buf_at dev n i c.bufs c.disk v.single present hit in
    let all : shown c.disk (buf_at i c.bufs) ≡ (buf_at i c.bufs).content = rw valid refl in
    record {
      after = c;
      returns = rw (fill_buf, valid) refl;
      content = sym (seen ∙ all);
      holder = refl;
      same = λ k. refl;
      cache = v;
      disk = refl;
    }

-- The buffer is filled from the disk.
fill_invalid :
    (p : Option Owner) (dev n i : ℕ) (c : Bcache)
    → IsCache dev c.bufs c.disk
    → Present i c.bufs
    → hits dev n (buf_at i c.bufs) ≡ true
    → (buf_at i c.bufs).refcnt ≢ 0
    → IsIdle c.sched
    → c.sched.dq_seq < uint_max
    → n < 2 ^ 32
    → owner_priority p < int_max
    → (buf_at i c.bufs).valid ≡ false
    → Filled p dev n i c
unfolding fill_buf submit_buf buf_at
fill_invalid p dev n i c v present hit used idle seq low prio invalid =
    let b = buf_at i c.bufs in
    let at_n = (hits_dev dev n b hit).1 in
    let q : Request = record { buf = i; blockno = b.blockno; write = 0; owner = p } in
    let served =
      submit_own c.sched q idle seq (record { block_small = rw at_n low; level_small = prio }) in
    let f : Buf → Buf = λ x. record x { content = c.disk x.blockno } in
    let g : Buf → Buf = λ x. record x { valid = true } in
    let read = at_index-Changed dev i c.disk f c.bufs v (record {
      index = refl;
      dev = refl;
      blockno = refl;
      count = used;
      shown = rw invalid refl;
    }) in
    let here = read.here present in
    let first = at_index i f c.bufs in
    let there : Present i first = λ away. present (subst (λ is. NotIn i is) read.order away) in
    let filled = at_index-Changed dev i c.disk g first (Changed-IsCache v read) (
      rw here (record {
        index = refl;
        dev = refl;
        blockno = refl;
        count = used;
        shown = rw invalid refl;
      })) in
    let last = filled.here there ∙ ap g here in
    let empty : shown c.disk b ≡ c.disk b.blockno = rw invalid refl in
    record {
      after = record { bufs = at_index i g first; disk = c.disk; sched = served.after };
      returns = rw (fill_buf, invalid, submit_buf, served.returns) refl;
      content = rw last (sym (view_in-buf_at dev n i c.bufs c.disk v.single present hit ∙ empty));
      holder = rw last refl;
      same = λ k. filled.same k ∙ read.same k;
      cache = Changed-IsCache (Changed-IsCache v read) filled;
      disk = refl;
    }

-- What `bread` leaves when it returns the buffer `i`.
pub record Read (pid : ℕ) (p : Option Owner) (dev n i : ℕ) (c : Bcache) : Type 0 where
  pub after : Bcache
  pub returns : bread pid p dev n c ≡ done (i, true, after)
  pub content : (buf_at i after.bufs).content ≡ view dev c n
  pub holder : (buf_at i after.bufs).lock ≡ some pid
  pub same : (k : ℕ) → view dev after k ≡ view dev c k
  pub cache : IsCache dev after.bufs after.disk
  pub disk : after.disk ≡ c.disk

-- `bread` once `bget` has found a buffer whose lock is free.
Read-got :
    (pid : ℕ) (p : Option Owner) (dev n i : ℕ) (c : Bcache) (bufs : List Buf)
    → IsCache dev c.bufs c.disk
    → IsIdle c.sched
    → c.sched.dq_seq < uint_max
    → n < 2 ^ 32
    → owner_priority p < int_max
    → bget dev n c ≡ done (i, record c { bufs = bufs })
    → Kept dev n c.disk c.bufs i bufs
    → (buf_at i bufs).lock ≡ none
    → Read pid p dev n i c
unfolding bread lock_buf
Read-got pid p dev n i c bufs v idle seq low prio gives t free =
    let b = buf_at i bufs in
    let present : Present i bufs = λ away. t.among i (subst (λ is. NotIn i is) t.order away) refl in
    let f : Buf → Buf = λ x. record x { lock = some pid } in
    let taken =
      at_index-Changed dev i c.disk f bufs (Kept-IsCache v t)
        (record { index = refl; dev = refl; blockno = refl; count = t.referred; shown = refl }) in
    let locked : Bcache = record c { bufs = at_index i f bufs } in
    let here = taken.here present in
    let there : Present i locked.bufs =
      λ away. present (subst (λ is. NotIn i is) taken.order away) in
    let lv = Changed-IsCache (Kept-IsCache v t) taken in
    let hit : hits dev n (buf_at i locked.bufs) ≡ true = rw here t.here in
    let used : (buf_at i locked.bufs).refcnt ≢ 0 = rw here t.referred in
    let filled : Filled p dev n i locked = elim (Bool-cases (buf_at i locked.bufs).valid) [
      | inl valid ↦ fill_valid p dev n i locked lv there hit valid
      | inr invalid ↦ fill_invalid p dev n i locked lv there hit used idle seq low prio invalid
    ] in
    record {
      after = filled.after;
      returns = rw (bread, gives, lock_buf, free, filled.returns) refl;
      content = filled.content ∙ (taken.same n ∙ t.same n);
      holder = filled.holder ∙ ap (λ (x : Buf). x.lock) here;
      same = λ k. filled.same k ∙ (taken.same k ∙ t.same k);
      cache = filled.cache;
      disk = filled.disk;
    }

-- In a cache that has each block of the device once and is clean where nobody refers to it, with counts
-- that do not wrap, nothing pending for the disk and sequence numbers left: `bread` panics if no
-- buffer has the block and all are referred to. Otherwise `bget` picks a buffer, and if nobody holds
-- its lock `bread` returns it locked by the caller with what the cache and the disk hold of the
-- block; no block changes, and the cache stays as it was described.
pub bread_lem :
    (pid : ℕ) (p : Option Owner) (dev n : ℕ) (c : Bcache)
    → IsCache dev c.bufs c.disk
    → Unwrapped c.bufs
    → IsIdle c.sched
    → c.sched.dq_seq < uint_max
    → n < 2 ^ 32
    → owner_priority p < int_max
    → ((bread pid p dev n c ≡ panic no_buffers) × Absent dev n c.bufs × AllReferred c.bufs)
      ⊎ ((i : ℕ) × (bufs : List Buf) × (bget dev n c ≡ done (i, record c { bufs = bufs }))
          × ((buf_at i bufs).lock ≡ none → Read pid p dev n i c))
unfolding bread
bread_lem pid p dev n c v w idle seq low prio = elim (bget_lem dev n c v w) [
  | inl (stuck, gone, all) ↦ inl (rw (bread, stuck) refl, gone, all)
  | inr (i, bufs, gives, t) ↦
      inr (i, bufs, gives, Read-got pid p dev n i c bufs v idle seq low prio gives t)
]
