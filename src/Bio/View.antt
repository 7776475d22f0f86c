-- ===== src/Bio/View.antt =====
-- What the buffer cache and the disk hold of each block, and the invariant of the cache.
use mathlib.Core.Path.{subst}
use os_2_course_work.Prelude.{
  ◌^◌, ℕ_discrete, NotIn, Distinct, ℕ, ◌+◌, ◌<◌, ◌≡◌, ◌≢◌, ◌⊎◌, inl, inr, refl, sym, ap, ◌∙◌, true,
  false, Bool-cases, none, some, List, [], ◌∷◌, ◌==◌, if◌then◌else◌, u32, true-false, arith,
}
use os_2_course_work.Raid.{Block}
use os_2_course_work.Bio.{Buf, Bcache, hits, pin, find_cached, reuse, find_unused_buf, buf_at}

-- A block by its number: the data of the buffer that has it, or what the disk has.
abbrev pub view_in : ℕ → List Buf → (ℕ → Block) → ℕ → Block
view_in dev [] disk n = disk n
view_in dev (b ∷ bs) disk n =
    if hits dev n b then (if b.valid then b.content else disk n) else view_in dev bs disk n

abbrev pub view : ℕ → Bcache → ℕ → Block
view dev c n = view_in dev c.bufs c.disk n

-- No buffer of the list has the block.
abbrev pub Absent : ℕ → ℕ → List Buf → Type 0
Absent dev n [] = Unit {0}
Absent dev n (b ∷ bs) = (hits dev n b ≡ false) × Absent dev n bs

-- No two buffers have the same block of the device.
abbrev pub NoTwin : ℕ → List Buf → Type 0
NoTwin dev [] = Unit {0}
NoTwin dev (b ∷ bs) = (b.dev ≡ dev → Absent dev b.blockno bs) × NoTwin dev bs

-- A buffer that nobody refers to has what the disk has.
abbrev pub Clean : ℕ → (ℕ → Block) → List Buf → Type 0
Clean dev disk [] = Unit {0}
Clean dev disk (b ∷ bs) =
    (b.dev ≡ dev → b.valid ≡ true → b.refcnt ≡ 0 → b.content ≡ disk b.blockno) × Clean dev disk bs

abbrev pub indices : List Buf → List ℕ
indices [] = []
indices (b ∷ bs) = b.index ∷ indices bs

pub record IsCache (dev : ℕ) (bufs : List Buf) (disk : ℕ → Block) : Type 0 where
  pub own : Distinct (indices bufs)
  pub single : NoTwin dev bufs
  pub clean : Clean dev disk bufs

pub view_in-Absent :
    (dev : ℕ) (bufs : List Buf) (disk : ℕ → Block) (n : ℕ)
    → Absent dev n bufs
    → view_in dev bufs disk n ≡ disk n
view_in-Absent dev [] disk n h = refl
view_in-Absent dev (b ∷ bs) disk n h = rw h.0 (view_in-Absent dev bs disk n h.1)

pub hits_dev : (dev n : ℕ) (b : Buf) → hits dev n b ≡ true → (b.dev ≡ dev) × (b.blockno ≡ n)
hits_dev dev n b h = ground arith

-- What a search that found something leaves.
pub record Kept (dev n : ℕ) (disk : ℕ → Block) (bufs : List Buf) (i : ℕ) (after : List Buf)
    : Type 0 where
  pub same : (k : ℕ) → view_in dev after disk k ≡ view_in dev bufs disk k
  pub order : indices after ≡ indices bufs
  pub absent : (k : ℕ) → k ≢ n → Absent dev k bufs → Absent dev k after
  pub single : NoTwin dev after
  pub clean : Clean dev disk after
  pub here : hits dev n (buf_at i after) ≡ true
  pub referred : (buf_at i after).refcnt ≢ 0
  pub among : (x : ℕ) → NotIn x (indices bufs) → x ≢ i

-- Counts that do not wrap when one is added.
abbrev pub Unwrapped : List Buf → Type 0
Unwrapped [] = Unit {0}
Unwrapped (b ∷ bs) = (b.refcnt + 1 < 2 ^ 32) × Unwrapped bs

pub buf_at-behind :
    (i : ℕ) (b : Buf) (bs : List Buf) → b.index ≢ i → buf_at i (b ∷ bs) ≡ buf_at i bs
unfolding buf_at
buf_at-behind i b bs ne = ground arith

-- A buffer in front that does not have the block.
Kept-behind :
    (dev n i : ℕ) (disk : ℕ → Block) (b : Buf) (bs after : List Buf)
    → IsCache dev (b ∷ bs) disk
    → hits dev n b ≡ false
    → Kept dev n disk bs i after
    → Kept dev n disk (b ∷ bs) i (b ∷ after)
Kept-behind dev n i disk b bs after v miss t =
    let ne = t.among b.index v.own.0 in
    let e = buf_at-behind i b after ne in
    record {
      same = λ k.
          ap (λ x. if hits dev k b then (if b.valid then b.content else disk k) else x) (t.same k);
      order = ap (λ is. b.index ∷ is) t.order;
      absent = λ k other h. (h.0, t.absent k other h.1);
      single = (λ d. t.absent b.blockno (other_block d) (v.single.0 d), t.single);
      clean = (v.clean.0, t.clean);
      here = rw e t.here;
      referred = rw e t.referred;
      among = λ x h. t.among x h.1;
    }
  where
    other_block : b.dev ≡ dev → b.blockno ≢ n
    other_block d same = ground arith

-- The block is in the first buffer.
Kept-cached :
    (dev n : ℕ) (disk : ℕ → Block) (b : Buf) (bs : List Buf)
    → IsCache dev (b ∷ bs) disk
    → b.refcnt + 1 < 2 ^ 32
    → hits dev n b ≡ true
    → Kept dev n disk (b ∷ bs) b.index (pin b ∷ bs)
unfolding buf_at
Kept-cached dev n disk b bs v small hit =
    let e : buf_at b.index (pin b ∷ bs) ≡ pin b = ground arith in
    let positive : u32 (b.refcnt + 1) ≢ 0 = λ z. absurd (omega arith) in
    record {
      same = λ k. refl;
      order = refl;
      absent = λ k other h. h;
      single = v.single;
      clean = (λ d valid z. absurd (positive z), v.clean.1);
      here = rw e hit;
      referred = rw e positive;
      among = λ x h. h.0;
    }

-- The last buffer that nobody refers to is in front.
Kept-reused :
    (dev n : ℕ) (disk : ℕ → Block) (b : Buf) (bs : List Buf)
    → IsCache dev (b ∷ bs) disk
    → b.refcnt ≡ 0
    → Absent dev n (b ∷ bs)
    → Kept dev n disk (b ∷ bs) b.index (reuse dev n b ∷ bs)
unfolding buf_at
Kept-reused dev n disk b bs v free gone =
    let e : buf_at b.index (reuse dev n b ∷ bs) ≡ reuse dev n b = ground arith in
    record {
      same = same;
      order = refl;
      absent = λ k other h. (ground arith, h.1);
      single = (λ d. gone.1, v.single.1);
      clean = (λ d valid z. absurd (true-false (sym valid)), v.clean.1);
      here = rw e (ground arith);
      referred = rw e (λ z. absurd (omega arith));
      among = λ x h. h.0;
    }
  where
    before : (k : ℕ) → view_in dev (b ∷ bs) disk k ≡ view_in dev bs disk k
    before k = elim (Bool-cases (hits dev k b)) [
      | inl hit ↦
          let (d, at_k) = hits_dev dev k b hit in
          let tail : view_in dev bs disk k ≡ disk k =
            view_in-Absent dev bs disk k (subst (λ x. Absent dev x bs) at_k (v.single.0 d)) in
          rw (hit, tail) (content d at_k)
      | inr miss ↦ rw miss refl
    ]
      where
        content : b.dev ≡ dev → b.blockno ≡ k → (if b.valid then b.content else disk k) ≡ disk k
        content d at_k = elim (Bool-cases b.valid) [
          | inl valid ↦ rw valid (v.clean.0 d valid free ∙ ap disk at_k)
          | inr invalid ↦ rw invalid refl
        ]

    same : (k : ℕ) → view_in dev (reuse dev n b ∷ bs) disk k ≡ view_in dev (b ∷ bs) disk k
    same k = elim (ℕ_discrete k n) [
      | yes e ↦
          let hit : hits dev k (reuse dev n b) ≡ true = ground arith in
          rw hit (
            sym (
              view_in-Absent dev (b ∷ bs) disk k (subst (λ x. Absent dev x (b ∷ bs)) (sym e) gone)))
      | no ne ↦
          let miss : hits dev k (reuse dev n b) ≡ false = ground arith in rw miss (sym (before k))
    ]

pub tail :
    {dev : ℕ} {disk : ℕ → Block} {b : Buf} {bs : List Buf}
    → IsCache dev (b ∷ bs) disk
    → IsCache dev bs disk
tail v = record { own = v.own.1; single = v.single.1; clean = v.clean.1 }

-- The first loop of `bget` finds the buffer that has the block, if there is one.
pub find_cached_lem :
    (dev n : ℕ) (disk : ℕ → Block) (bufs : List Buf)
    → IsCache dev bufs disk
    → Unwrapped bufs
    → ((find_cached dev n bufs ≡ none) × Absent dev n bufs)
      ⊎ ((i : ℕ) × (after : List Buf) × (find_cached dev n bufs ≡ some (i, after))
          × Kept dev n disk bufs i after)
unfolding find_cached
find_cached_lem dev n disk [] v w = inl (refl, tt)
find_cached_lem dev n disk (b ∷ bs) v w = elim (Bool-cases (hits dev n b)) [
  | inl hit ↦
      inr (b.index, pin b ∷ bs, rw (hit, find_cached) refl, Kept-cached dev n disk b bs v w.0 hit)
  | inr miss ↦ elim (find_cached_lem dev n disk bs (tail v) w.1) [
    | inl (nothing, gone) ↦ inl (rw (miss, find_cached, nothing) refl, (miss, gone))
    | inr (i, after, found, t) ↦ inr (
      i,
      b ∷ after,
      rw (miss, find_cached, found) refl,
      Kept-behind dev n i disk b bs after v miss t,
    )
  ]
]

-- Every buffer of the list is referred to.
abbrev pub AllReferred : List Buf → Type 0
AllReferred [] = Unit {0}
AllReferred (b ∷ bs) = (b.refcnt ≢ 0) × AllReferred bs

-- The second loop finds a buffer unless all are referred to.
pub find_unused_buf_lem :
    (dev n : ℕ) (disk : ℕ → Block) (bufs : List Buf)
    → IsCache dev bufs disk
    → Absent dev n bufs
    → ((find_unused_buf dev n bufs ≡ none) × AllReferred bufs)
      ⊎ ((i : ℕ) × (after : List Buf) × (find_unused_buf dev n bufs ≡ some (i, after))
          × Kept dev n disk bufs i after)
unfolding find_unused_buf
find_unused_buf_lem dev n disk [] v gone = inl (refl, tt)
find_unused_buf_lem dev n disk (b ∷ bs) v gone =
    elim (find_unused_buf_lem dev n disk bs (tail v) gone.1) [
      | inr (i, after, found, t) ↦ inr (
        i,
        b ∷ after,
        rw (find_unused_buf, found) refl,
        Kept-behind dev n i disk b bs after v gone.0 t,
      )
      | inl (nothing, all) ↦ elim (ℕ_discrete b.refcnt 0) [
        | yes free ↦
            let e : (b.refcnt == 0) ≡ true = ground arith in
            inr (
              b.index,
              reuse dev n b ∷ bs,
              rw (find_unused_buf, nothing, e) refl,
              Kept-reused dev n disk b bs v free gone,
            )
        | no used ↦
            let e : (b.refcnt == 0) ≡ false = ground arith in
            inl (rw (find_unused_buf, nothing, e) refl, (used, all))
      ]
    ]
