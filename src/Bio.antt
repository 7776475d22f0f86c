-- ===== src/Bio.antt =====
-- kernel/bio.c and kernel/buf.h: the buffer cache. `bufs` are the buffers from `head.next` on, so from
-- the one used last to the one used first, and `index` is a buffer's place in `bcache.buf`. A critical
-- section of `bcache.lock` is one step; what `virtio_disk_rw` does to the disk is `transfer`.
pub mod View
pub mod Change
pub mod Get
pub mod Put
mod Tests
use os_2_course_work.Prelude.{
  ℕ, zero, suc, ◌+◌, ◌*◌, Bool, true, false, ◌&&◌, not, Option, none, some, List, [], ◌∷◌, Outcome,
  done, panic, no_buffers, bwrite_bad, brelse_bad, ◌>>=◌, ◌==◌, if◌then◌else◌, u32, minus_one,
}
use os_2_course_work.Raid.{Block, zero_block}
use os_2_course_work.DiskSched.{DiskReq, DiskSched, Owner, DiskRw, disksched_init, disksched_submit}

abbrev pub nbuf : ℕ
nbuf = 30

-- `lock` has the pid of the process that holds the sleep lock, if one does.
pub record Buf : Type 0 where
  pub index : ℕ
  pub valid : Bool
  pub dev : ℕ
  pub blockno : ℕ
  pub lock : Option ℕ
  pub refcnt : ℕ
  pub content : Block

-- The cache, the disk by block, and the queue in front of it.
pub record Bcache : Type 0 where
  pub bufs : List Buf
  pub disk : ℕ → Block
  pub sched : DiskSched

abbrev pub zero_buf : ℕ → Buf
zero_buf index = record {
  index = index;
  valid = false;
  dev = 0;
  blockno = 0;
  lock = none;
  refcnt = 0;
  content = zero_block;
}

-- The loop of `binit` puts each buffer in front.
unfoldable pub init_loop : ℕ → List Buf
init_loop zero = []
init_loop (suc n) = zero_buf n ∷ init_loop n

unfoldable pub binit : (ℕ → Block) → List DiskReq → Bcache
binit disk dq = record { bufs = init_loop nbuf; disk = disk; sched = disksched_init dq }

abbrev pub hits : ℕ → ℕ → Buf → Bool
hits dev blockno b = b.dev == dev && b.blockno == blockno

-- The buffer that a search found, by its index, and the buffers with it changed.
abbrev pub Search : Type 0
Search = Option (ℕ × List Buf)

abbrev pub behind : Buf → Search → Search
behind b none = none
behind b (some (i, bs)) = some (i, b ∷ bs)

abbrev pub pin : Buf → Buf
pin b = record b { refcnt = u32 (b.refcnt + 1) }

abbrev pub unpin : Buf → Buf
unpin b = record b { refcnt = u32 (b.refcnt + minus_one) }

-- The first loop of `bget`.
unfoldable pub find_cached : ℕ → ℕ → List Buf → Search
find_cached dev blockno [] = none
find_cached dev blockno (b ∷ bs) =
    let rest = find_cached dev blockno bs in
    if hits dev blockno b then some (b.index, pin b ∷ bs) else behind b rest

abbrev pub reuse : ℕ → ℕ → Buf → Buf
reuse dev blockno b = record b { dev = dev; blockno = blockno; valid = false; refcnt = 1 }

abbrev pub or_here : ℕ → ℕ → Buf → List Buf → Search → Search
or_here dev blockno b bs (some (i, bs')) = some (i, b ∷ bs')
or_here dev blockno b bs none =
    if b.refcnt == 0 then some (b.index, reuse dev blockno b ∷ bs) else none

-- The second loop, from the last buffer on.
unfoldable pub find_unused_buf : ℕ → ℕ → List Buf → Search
find_unused_buf dev blockno [] = none
find_unused_buf dev blockno (b ∷ bs) = or_here dev blockno b bs (find_unused_buf dev blockno bs)

abbrev pub got : Bcache → Search → Outcome (ℕ × Bcache)
got c none = panic no_buffers
got c (some (i, bs)) = done (i, record c { bufs = bs })

-- `bget` up to `acquiresleep`.
unfoldable pub bget : ℕ → ℕ → Bcache → Outcome (ℕ × Bcache)
bget dev blockno c = elim (find_cached dev blockno c.bufs) [
  | some r ↦ got c (some r)
  | none ↦ got c (find_unused_buf dev blockno c.bufs)
]

-- `f` applied to the buffer `i`.
unfoldable pub at_index : ℕ → (Buf → Buf) → List Buf → List Buf
at_index i f [] = []
at_index i f (b ∷ bs) = let rest = at_index i f bs in if b.index == i then f b ∷ bs else b ∷ rest

unfoldable pub buf_at : ℕ → List Buf → Buf
buf_at i [] = zero_buf i
buf_at i (b ∷ bs) = if b.index == i then b else buf_at i bs

abbrev pub with_buf : ℕ → (Buf → Buf) → Bcache → Bcache
with_buf i f c = record c { bufs = at_index i f c.bufs }

-- `acquiresleep` when the lock is free, with what else it returns to; `none` is a process that sleeps.
unfoldable pub lock_buf : ℕ → ℕ → Bcache → Option Bcache
lock_buf pid i c = elim (buf_at i c.bufs).lock [
  | some holder ↦ none
  | none ↦ some (with_buf i (λ b. record b { lock = some pid }) c)
]

-- The device, when it serves a request: `write` 0 reads into the buffer, 1 writes its data.
abbrev pub transfer : DiskRw → Bcache → Bcache
transfer rw_call c =
    let b = buf_at rw_call.buf c.bufs in
    if rw_call.write == 0
    then with_buf rw_call.buf (λ x. record x { content = c.disk x.blockno }) c
    else record c { disk = λ n. if n == b.blockno then b.content else c.disk n }

abbrev pub serve : DiskSched × Option DiskRw → Bcache → Bcache
serve (s, none) c = record c { sched = s }
serve (s, some rw_call) c = transfer rw_call (record c { sched = s })

-- `disksched_submit(b, write)`.
unfoldable pub submit_buf : ℕ → ℕ → Option Owner → Bcache → Outcome Bcache
submit_buf i write p c = do
  r ← disksched_submit c.sched i (buf_at i c.bufs).blockno write p
  done (serve r c)

-- `bread` from where it holds the lock on.
unfoldable pub fill_buf : ℕ → Option Owner → Bcache → Outcome Bcache
fill_buf i p c =
    if (buf_at i c.bufs).valid
    then done c
    else do c' ← submit_buf i 0 p c; done (with_buf i (λ b. record b { valid = true }) c')

-- The buffer, whether the process has its lock or still sleeps, and the cache.
abbrev pub ReadOf : Type 0
ReadOf = ℕ × Bool × Bcache

abbrev pub read_locked : ℕ → Option Owner → Bcache → Option Bcache → Outcome ReadOf
read_locked i p c none = done (i, false, c)
read_locked i p c (some locked) = do c' ← fill_buf i p locked; done (i, true, c')

unfoldable pub bread : ℕ → Option Owner → ℕ → ℕ → Bcache → Outcome ReadOf
bread pid p dev blockno c = do (i, c') ← bget dev blockno c; read_locked i p c' (lock_buf pid i c')

abbrev pub holds : Option ℕ → ℕ → Bool
holds none pid = false
holds (some q) pid = q == pid

unfoldable pub bwrite : ℕ → Option Owner → ℕ → Bcache → Outcome Bcache
bwrite pid p i c =
    if not (holds (buf_at i c.bufs).lock pid) then panic bwrite_bad else submit_buf i 1 p c

-- The buffers without `i`.
unfoldable pub take_buf : ℕ → List Buf → List Buf
take_buf i [] = []
take_buf i (b ∷ bs) = let rest = take_buf i bs in if b.index == i then bs else b ∷ rest

abbrev pub release_buf : Buf → Buf
release_buf b = record (unpin b) { lock = none }

-- `wakeup` of the processes that sleep on the lock is not part of this state.
unfoldable pub brelse : ℕ → ℕ → Bcache → Outcome Bcache
brelse pid i c =
    let b = buf_at i c.bufs in
    let released = release_buf b in
    if not (holds b.lock pid)
    then panic brelse_bad
    else if released.refcnt == 0
    then done (record c { bufs = released ∷ take_buf i c.bufs })
    else done (with_buf i release_buf c)

unfoldable pub bpin : ℕ → Bcache → Bcache
bpin i c = with_buf i pin c

unfoldable pub bunpin : ℕ → Bcache → Bcache
bunpin i c = with_buf i unpin c
