-- ===== src/Raid/Layout.antt =====
-- What a RAID level promises of one logical block: the contract that the page routines rely on.
use os_2_course_work.Prelude.{ℕ, ◌<◌, ◌≡◌, ◌≢◌, Bool, false, Outcome, done, length}
use os_2_course_work.Raid.{Block, bsize, Raid}

-- An array with no failed disk that holds whole blocks.
pub record IsReady (r : Raid) : Type 0 where
  pub healthy : (d : ℕ) → r.disk_failed d ≡ false
  pub sized : (d b : ℕ) → length (r.sim_disk d b) ≡ bsize

-- What a write of `src` to logical block `lb` leaves, where `Durable disk lb b` says that the disks
-- hold `b` at `lb`, redundancy included, and `capacity` is the number of logical blocks.
pub record Wrote (capacity : ℕ) (Durable : (ℕ → ℕ → Block) → ℕ → Block → Type 0) (lb : ℕ)
    (src : Block) (r : Raid) (result : Outcome Raid) : Type 0 where
  pub after : Raid
  pub returns : result ≡ done after
  pub ready : IsReady after
  pub same_mode : after.raid_mode ≡ r.raid_mode
  pub here : Durable after.sim_disk lb src
  pub others :
      (k : ℕ) (b : Block)
      → k ≢ lb
      → k < capacity
      → Durable r.sim_disk k b
      → Durable after.sim_disk k b

pub record Layout : Type 1 where
  pub mode : ℕ
  pub capacity : ℕ
  pub write : ℕ → Block → Raid → Outcome Raid
  pub read : ℕ → Raid → Outcome Block
  pub Durable : (ℕ → ℕ → Block) → ℕ → Block → Type 0
  -- The sets of failed disks that a read survives.
  pub Tolerates : (ℕ → Bool) → Type 0
  pub write_law :
      (lb : ℕ) (src : Block) (r : Raid)
      → lb < capacity
      → length src ≡ bsize
      → IsReady r
      → Wrote capacity Durable lb src r (write lb src r)
  pub read_law :
      (lb : ℕ) (b : Block) (r : Raid)
      → lb < capacity
      → Durable r.sim_disk lb b
      → Tolerates r.disk_failed
      → read lb r ≡ done b
