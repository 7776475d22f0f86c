-- ===== src/Raid/Rebuild.antt =====
-- RAID-5 reads: the block itself, or what the other disks of its stripe add up to.
use os_2_course_work.Prelude.{
  ℕ, zero, suc, ◌/◌, ◌%◌, ◌<◌, ◌≡◌, ◌≢◌, inl, inr, sym, ◌∙◌, true, false, Bool-cases, done, length,
  arith, ℕ_discrete,
}
use os_2_course_work.Raid.{
  Block, bsize, zero_block, Raid, phys_read_block, xor_block, raid5_data_disk, rebuild_loop,
  raid5_write, raid5_read,
}
use os_2_course_work.Raid.Layout.{Layout}
use os_2_course_work.Raid.Xor.{rebuild_first, rebuild_second, rebuild_third}
use os_2_course_work.Raid.Parity.{ParityAt, Guarded, OneLost, parity_write}

-- What the reconstruction adds up when data disk 0, 1 or 2 of the stripe is the lost one.
module _ (s : ℕ) (r : Raid) (h : s < 512) where
  rebuild_without_0 :
      r.disk_failed (raid5_data_disk s 1) ≡ false
      → r.disk_failed (raid5_data_disk s 2) ≡ false
      → rebuild_loop 3 0 s (raid5_data_disk s 0) r zero_block
        ≡ done (
            xor_block
              (xor_block zero_block (r.sim_disk (raid5_data_disk s 1) s))
              (r.sim_disk (raid5_data_disk s 2) s))
  unfolding rebuild_loop phys_read_block
  rebuild_without_0 p q = ground arith

  rebuild_without_1 :
      r.disk_failed (raid5_data_disk s 0) ≡ false
      → r.disk_failed (raid5_data_disk s 2) ≡ false
      → rebuild_loop 3 0 s (raid5_data_disk s 1) r zero_block
        ≡ done (
            xor_block
              (xor_block zero_block (r.sim_disk (raid5_data_disk s 0) s))
              (r.sim_disk (raid5_data_disk s 2) s))
  unfolding rebuild_loop phys_read_block
  rebuild_without_1 p q = ground arith

  rebuild_without_2 :
      r.disk_failed (raid5_data_disk s 0) ≡ false
      → r.disk_failed (raid5_data_disk s 1) ≡ false
      → rebuild_loop 3 0 s (raid5_data_disk s 2) r zero_block
        ≡ done (
            xor_block
              (xor_block zero_block (r.sim_disk (raid5_data_disk s 0) s))
              (r.sim_disk (raid5_data_disk s 1) s))
  unfolding rebuild_loop phys_read_block
  rebuild_without_2 p q = ground arith

  -- With the parity in place, what is rebuilt and the parity add up to the lost block.
  pub rebuild_lem :
      (m : ℕ)
      → m < 3
      → ParityAt r.sim_disk s
      → ((d : ℕ) → length (r.sim_disk d s) ≡ bsize)
      → ((d : ℕ) → d < 4 → d ≢ raid5_data_disk s m → r.disk_failed d ≡ false)
      → (rec : Block) × (rebuild_loop 3 0 s (raid5_data_disk s m) r zero_block ≡ done rec)
        × (xor_block rec (r.sim_disk (s % 4) s) ≡ r.sim_disk (raid5_data_disk s m) s)
  rebuild_lem zero hm p w alive = (
    _,
    rebuild_without_0 (alive _ (omega arith) (omega arith)) (alive _ (omega arith) (omega arith)),
    rw p (rebuild_first _ _ _ (w _) (w _) (w _)),
  )
  rebuild_lem (suc zero) hm p w alive = (
    _,
    rebuild_without_1 (alive _ (omega arith) (omega arith)) (alive _ (omega arith) (omega arith)),
    rw p (rebuild_second _ _ _ (w _) (w _) (w _)),
  )
  rebuild_lem (suc (suc zero)) hm p w alive = (
    _,
    rebuild_without_2 (alive _ (omega arith) (omega arith)) (alive _ (omega arith) (omega arith)),
    rw p (rebuild_third _ _ _ (w _) (w _) (w _)),
  )
  rebuild_lem (suc (suc (suc m))) hm p w alive = absurd (omega arith)

read_lost :
    (lb : ℕ) (b : Block) (r : Raid)
    → lb < 1536
    → Guarded r.sim_disk lb b
    → r.disk_failed (raid5_data_disk (lb / 3) (lb % 3)) ≡ true
    → ((d : ℕ) → d < 4 → d ≢ raid5_data_disk (lb / 3) (lb % 3) → r.disk_failed d ≡ false)
    → raid5_read lb r ≡ done b
unfolding raid5_read phys_read_block
read_lost lb b r h g lost alive =
    let (rec, e, x) =
      rebuild_lem (lb / 3) r (omega arith) (lb % 3) (omega arith) g.parity g.whole alive in
    ground (arith, e, x, g.stored, alive (lb / 3 % 4) (omega arith) (omega arith))

pub parity_read :
    (lb : ℕ) (b : Block) (r : Raid)
    → lb < 1536
    → Guarded r.sim_disk lb b
    → OneLost r.disk_failed
    → raid5_read lb r ≡ done b
parity_read lb b r h g (k, others) = elim (Bool-cases (r.disk_failed this)) [
  | inl lost ↦ read_lost lb b r h g lost λ d hd ne. others d hd (apart lost d ne)
  | inr fine ↦ unfold raid5_read phys_read_block in ground (arith, g.stored)
]
  where
    this : ℕ
    this = raid5_data_disk (lb / 3) (lb % 3)

    apart : r.disk_failed this ≡ true → (d : ℕ) → d ≢ this → d ≢ k
    apart lost d ne e = elim (ℕ_discrete this k) [
      | yes t ↦ ne (e ∙ sym t)
      | no t ↦ cc (others this (omega arith) t)
    ]

abbrev pub parity : Layout
parity = record {
  mode = 5;
  capacity = 1536;
  write = raid5_write;
  read = raid5_read;
  Durable = Guarded;
  Tolerates = OneLost;
  write_law = parity_write;
  read_law = parity_read;
}
