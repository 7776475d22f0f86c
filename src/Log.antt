-- ===== src/Log.antt =====
-- kernel/log.c: the redo log of the file system. The device is one, and a block number names a block
-- of it. `bread` yields what the buffer cache has for a block (kernel/bio.c, whose pin counts are not
-- followed here), and `bwrite` is where the disk changes, so it is also where a power failure shows:
-- a routine gets the number of disk writes that it lives to see.
pub mod View
pub mod Install
pub mod Write
pub mod Commit
pub mod Recover
pub mod Shares
pub mod Space
mod Tests
use os_2_course_work.Prelude.{
  ℕ, zero, suc, ◌+◌, ◌-◌, ◌*◌, Bool, true, false, Option, none, some, Outcome, done, panic,
  log_committing, too_big_a_transaction, log_write_outside, ◌==◌, ltb, leb, int_ltb, u32, minus_one,
  ◌^◌, if◌then◌else◌,
}
use os_2_course_work.Raid.{Block}

abbrev pub maxopblocks : ℕ
maxopblocks = 10

abbrev pub logblocks : ℕ
logblocks = 30

-- `struct logheader`, in memory and on disk; entries from `n` on mean nothing.
pub record LogHeader : Type 0 where
  pub n : ℕ
  pub block : ℕ → ℕ

-- `outstanding` is a C `int` by its 32-bit pattern.
pub record Log : Type 0 where
  pub start : ℕ
  pub outstanding : ℕ
  pub committing : Bool
  pub lh : LogHeader

-- `head` is what the block at `log.start` holds, read as a `struct logheader`.
pub record Disk : Type 0 where
  pub blocks : ℕ → Block
  pub head : LogHeader

-- `cache` is what `bread` yields.
pub record Store : Type 0 where
  pub disk : Disk
  pub cache : ℕ → Block

-- A run that the power failure cut off leaves a disk; the other ones have writes left to live.
pub data Run (A : Type 0) : Type 0 where
  crashed : Disk → Run A
  running : ℕ → A → Run A

abbrev pub then_run : {A B : Type 0} → Run A → (ℕ → A → Run B) → Run B
then_run (crashed d) f = crashed d
then_run (running k a) f = f k a

abbrev pub put : {A : Type 0} → (ℕ → A) → ℕ → A → ℕ → A
put f b x = λ c. if c == b then x else f c

-- `memmove(to->data, from->data, BSIZE)` of two buffers.
abbrev pub copy_buf : ℕ → ℕ → Store → Store
copy_buf to from s = record s { cache = put s.cache to (s.cache from) }

unfoldable pub bwrite : ℕ → ℕ → Store → Run Store
bwrite b zero s = crashed s.disk
bwrite b (suc k) s =
    running k (record s { disk = record s.disk { blocks = put s.disk.blocks b (s.cache b) } })

-- The loop of `install_trans` from `tail` on, with `n` blocks left.
unfoldable pub install_loop : Log → ℕ → ℕ → ℕ → Store → Run Store
install_loop log zero tail k s = running k s
install_loop log (suc n) tail k s =
    then_run (bwrite (log.lh.block tail) k (copy_buf (log.lh.block tail) (log.start + tail + 1) s))
      (λ k t. install_loop log n (tail + 1) k t)

unfoldable pub install_trans : Log → ℕ → Store → Run Store
install_trans log k s = install_loop log log.lh.n 0 k s

-- What a loop over the first `n` entries makes of the entries of another header.
abbrev pub copy_head : LogHeader → LogHeader → LogHeader
copy_head from to = record {
  n = from.n;
  block = λ i. if ltb i from.n then from.block i else to.block i;
}

unfoldable pub read_head : Log → Store → Log
read_head log s = record log { lh = copy_head s.disk.head log.lh }

unfoldable pub write_head : Log → ℕ → Store → Run Store
write_head log zero s = crashed s.disk
write_head log (suc k) s =
    running k (record s { disk = record s.disk { head = copy_head log.lh s.disk.head } })

abbrev pub clear_log : Log → Log
clear_log log = record log { lh = record log.lh { n = 0 } }

unfoldable pub recover_from_log : Log → ℕ → Store → Run (Log × Store)
recover_from_log log k s =
    let read = read_head log s in
    then_run (install_trans read k s)
      (λ k t. then_run (write_head (clear_log read) k t) (λ k u. running k (clear_log read, u)))

-- At boot the globals are zero and nothing is cached. A `struct logheader` of 124 bytes is smaller
-- than a block, so that check passes.
unfoldable pub initlog : ℕ → ℕ → Disk → Run (Log × Store)
initlog logstart k d =
    recover_from_log
      (record {
        start = logstart;
        outstanding = 0;
        committing = false;
        lh = record { n = 0; block = λ i. 0 };
      })
      k (record { disk = d; cache = d.blocks })

-- One round of the loop of `begin_op`; `none` sleeps on the log.
unfoldable pub begin_op : Log → Option Log
begin_op log =
    if log.committing
    then none
    else if int_ltb logblocks (u32 (log.lh.n + (log.outstanding + 1) * maxopblocks))
    then none
    else some (record log { outstanding = u32 (log.outstanding + 1) })

-- `end_op` up to the first `release`; the flag is `do_commit`.
unfoldable pub end_op : Log → Outcome (Log × Bool)
end_op log =
    let left = u32 (log.outstanding + minus_one) in
    if log.committing
    then panic log_committing
    else if left == 0
    then done (record log { outstanding = left; committing = true }, true)
    else done (record log { outstanding = left }, false)

-- The loop of `write_log` from `tail` on, with `n` blocks left.
unfoldable pub write_log_loop : Log → ℕ → ℕ → ℕ → Store → Run Store
write_log_loop log zero tail k s = running k s
write_log_loop log (suc n) tail k s =
    then_run
      (bwrite (log.start + tail + 1) k (copy_buf (log.start + tail + 1) (log.lh.block tail) s))
      (λ k t. write_log_loop log n (tail + 1) k t)

unfoldable pub write_log : Log → ℕ → Store → Run Store
write_log log k s = write_log_loop log log.lh.n 0 k s

unfoldable pub commit : Log → ℕ → Store → Run (Log × Store)
commit log k s = elim (ltb 0 log.lh.n) [
  | false ↦ running k (log, s)
  | true ↦ then_run (write_log log k s) (λ k t. then_run (write_head log k t) (λ k u.
      then_run (install_trans log k u)
        (λ k v. then_run (write_head (clear_log log) k v) (λ k w. running k (clear_log log, w)))))
]

-- The end of `end_op` after a commit.
unfoldable pub end_commit : Log → Log
end_commit log = record log { committing = false }

-- The search of `log_write` from index `i` on, with `n` entries left: the index of the block, or
-- the number of entries.
unfoldable pub absorb : (ℕ → ℕ) → ℕ → ℕ → ℕ → ℕ
absorb block blockno zero i = i
absorb block blockno (suc n) i = if block i == blockno then i else absorb block blockno n (i + 1)

unfoldable pub log_write : ℕ → Log → Outcome Log
log_write blockno log =
    if leb logblocks log.lh.n
    then panic too_big_a_transaction
    else if int_ltb log.outstanding 1
    then panic log_write_outside
    else let i = absorb log.lh.block blockno log.lh.n 0 in
      done (record log {
        lh = record {
          n = if i == log.lh.n then log.lh.n + 1 else log.lh.n;
          block = put log.lh.block i blockno;
        };
      })
