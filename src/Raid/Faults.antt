-- ===== src/Raid/Faults.antt =====
-- What the array does not survive: writes while a disk is missing.
use os_2_course_work.Prelude.{
  ℕ, zero, suc, if◌then◌else◌, ◌==◌, ◌/◌, ◌%◌, ◌<◌, ◌≡◌, ◌∙◌, true, done, ◌>>=◌, length, arith,
}
use os_2_course_work.Raid.{
  Block, bsize, zero_block, Raid, store, phys_write_block, phys_read_block, xor_block,
  raid5_data_disk, parity_loop, rebuild_loop, raid5_write, raid5_read, raid1_write, raid1_read,
  raid_fail_disk, raid_restore_disk,
}
use os_2_course_work.Raid.Layout.{IsReady}
use os_2_course_work.Raid.Xor.{xor_block_self, length-xor_block, length-zero_block}

-- The array after the loss of disk `d`.
abbrev pub without : ℕ → Raid → Raid
without d r = record r { disk_failed = λ e. if e == d then true else r.disk_failed e }

-- With data disk `m` of stripe `s` missing, the parity loop and the reconstruction add up the same
-- blocks, since both leave that disk out.
record Same (s m : ℕ) (r : Raid) : Type 0 where
  rest : Block
  size : length rest ≡ bsize
  parity : parity_loop 3 0 s (without (raid5_data_disk s m) r) zero_block ≡ done rest
  rebuilt :
      (p : Block)
      → rebuild_loop 3 0 s
          (raid5_data_disk s m)
          (record (without (raid5_data_disk s m) r) { sim_disk = store r.sim_disk (s % 4) s p })
          zero_block
        ≡ done rest

module _ (s : ℕ) (r : Raid) (h : s < 512) (v : IsReady r) where
  pair : ℕ → ℕ → Block
  pair d e =
      xor_block (xor_block zero_block (r.sim_disk (raid5_data_disk s d) s))
        (r.sim_disk (raid5_data_disk s e) s)

  length-pair : (d e : ℕ) → length (pair d e) ≡ bsize
  unfolding pair
  length-pair d e =
      length-xor_block _ _
      ∙ (length-xor_block zero_block (r.sim_disk (raid5_data_disk s d) s) ∙ length-zero_block)

  same : (m : ℕ) → m < 3 → Same s m r
  unfolding pair parity_loop rebuild_loop phys_read_block
  same zero hm = record {
    rest = pair 1 2;
    size = length-pair 1 2;
    parity = ground (arith, v.healthy (raid5_data_disk s 1), v.healthy (raid5_data_disk s 2));
    rebuilt = λ p. ground (arith, v.healthy (raid5_data_disk s 1), v.healthy (raid5_data_disk s 2));
  }
  same (suc zero) hm = record {
    rest = pair 0 2;
    size = length-pair 0 2;
    parity = ground (arith, v.healthy (raid5_data_disk s 0), v.healthy (raid5_data_disk s 2));
    rebuilt = λ p. ground (arith, v.healthy (raid5_data_disk s 0), v.healthy (raid5_data_disk s 2));
  }
  same (suc (suc zero)) hm = record {
    rest = pair 0 1;
    size = length-pair 0 1;
    parity = ground (arith, v.healthy (raid5_data_disk s 0), v.healthy (raid5_data_disk s 1));
    rebuilt = λ p. ground (arith, v.healthy (raid5_data_disk s 0), v.healthy (raid5_data_disk s 1));
  }
  same (suc (suc (suc m))) hm = absurd (omega arith)

-- In mode 5, on an array that is healthy but for one disk, a block within the capacity that is
-- written while that disk, the one that it belongs on, has failed is lost: the write returns, and
-- the read that follows returns a block of zeros, whatever was written.
pub raid5_read-write_degraded :
    (lb : ℕ) (src : Block) (r : Raid)
    → lb < 1536
    → IsReady r
    → (r' : Raid) × (raid5_write lb src (without (raid5_data_disk (lb / 3) (lb % 3)) r) ≡ done r')
      × (raid5_read lb r' ≡ done zero_block)
raid5_read-write_degraded lb src r h v =
    let s = lb / 3 in
    let this = raid5_data_disk s (lb % 3) in
    let t = same s r (omega arith) v (lb % 3) (omega arith) in
    (
      record (without this r) { sim_disk = store r.sim_disk (s % 4) s t.rest },
      unfold raid5_write phys_write_block in ground (arith, t.parity, v.healthy (s % 4)),
      unfold raid5_read phys_read_block in
          ground (arith, t.rebuilt t.rest, v.healthy (s % 4), xor_block_self t.rest t.size),
    )

-- In mode 1, on a healthy array, restoring a mirror does not rebuild it: after a write within the
-- capacity that disk 0 missed and its restoration, reading the block gives what disk 0 held before
-- that write.
pub raid1_read_stale :
    (lb : ℕ) (src : Block) (r : Raid)
    → lb < 512
    → IsReady r
    → (do
      down ← raid_fail_disk 0 r
      written ← raid1_write lb src down
      up ← raid_restore_disk 0 written
      raid1_read lb up)
      ≡ done (r.sim_disk 0 lb)
unfolding raid_fail_disk raid_restore_disk raid1_write raid1_read phys_write_block phys_read_block
raid1_read_stale lb src r h v = ground (arith, v.healthy 1)
