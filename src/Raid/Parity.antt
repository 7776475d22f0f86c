-- ===== src/Raid/Parity.antt =====
-- RAID-5 keeps the parity of every stripe: it reads back what was written with any one disk lost.
use os_2_course_work.Prelude.{
  ℕ, ◌/◌, ◌%◌, ◌<◌, ◌≡◌, ◌≢◌, refl, ◌∙◌, Bool, false, done, length, arith, ℕ_discrete,
}
use os_2_course_work.Raid.{
  Block, bsize, zero_block, Raid, store, phys_read_block, raid5_data_disk, parity_loop, raid5_write,
}
use os_2_course_work.Raid.Layout.{IsReady, Wrote}
use os_2_course_work.Raid.Striping.{phys_write_block-ok, store-sized}
use os_2_course_work.Raid.Xor.{parity_of, length-parity_of}

-- The four disks of a stripe are different.
pub data_disk-ne_parity : (s d : ℕ) → d < 3 → raid5_data_disk s d ≢ s % 4
data_disk-ne_parity s d h = omega arith

pub data_disk-injective :
    (s d e : ℕ) → d < 3 → e < 3 → d ≢ e → raid5_data_disk s d ≢ raid5_data_disk s e
data_disk-injective s d e h k ne = omega arith

-- The parity disk of stripe `s` holds the parity of its data disks.
abbrev pub ParityAt : (ℕ → ℕ → Block) → ℕ → Type 0
ParityAt f s =
    f (s % 4) s
    ≡ parity_of (f (raid5_data_disk s 0) s) (f (raid5_data_disk s 1) s) (f (raid5_data_disk s 2) s)

pub record Guarded (f : ℕ → ℕ → Block) (lb : ℕ) (b : Block) : Type 0 where
  pub stored : f (raid5_data_disk (lb / 3) (lb % 3)) (lb / 3) ≡ b
  pub parity : ParityAt f (lb / 3)
  pub whole : (d : ℕ) → length (f d (lb / 3)) ≡ bsize

abbrev pub OneLost : (ℕ → Bool) → Type 0
OneLost failed = (k : ℕ) × ((d : ℕ) → d < 4 → d ≢ k → failed d ≡ false)

parity_loop_lem :
    (s : ℕ) (r : Raid)
    → s < 512
    → ((d : ℕ) → r.disk_failed d ≡ false)
    → parity_loop 3 0 s r zero_block
      ≡ done (
          parity_of
            (r.sim_disk (raid5_data_disk s 0) s)
            (r.sim_disk (raid5_data_disk s 1) s)
            (r.sim_disk (raid5_data_disk s 2) s))
unfolding parity_loop phys_read_block parity_of
parity_loop_lem s r h v =
    ground (arith, v (raid5_data_disk s 0), v (raid5_data_disk s 1), v (raid5_data_disk s 2))

-- The disks after `raid5_write`: the block, then the parity that takes it in.
written : (ℕ → ℕ → Block) → ℕ → Block → ℕ → ℕ → Block
written f lb src =
    let s = lb / 3 in
    let g = store f (raid5_data_disk s (lb % 3)) s src in
    store g (s % 4) s (
      parity_of (g (raid5_data_disk s 0) s) (g (raid5_data_disk s 1) s) (g (raid5_data_disk s 2) s))

module _ (f : ℕ → ℕ → Block) (lb : ℕ) (src : Block) where
  written-data : written f lb src (raid5_data_disk (lb / 3) (lb % 3)) (lb / 3) ≡ src
  unfolding written
  written-data = ground (arith, data_disk-ne_parity (lb / 3) (lb % 3) (omega arith))

  written-data_ne :
      (d : ℕ)
      → d < 3
      → d ≢ lb % 3
      → written f lb src (raid5_data_disk (lb / 3) d) (lb / 3)
        ≡ f (raid5_data_disk (lb / 3) d) (lb / 3)
  unfolding written
  written-data_ne d h ne = ground (
    arith,
    data_disk-ne_parity (lb / 3) d h,
    data_disk-injective (lb / 3) d (lb % 3) h (omega arith) ne,
  )

  written-row : (d t : ℕ) → t ≢ lb / 3 → written f lb src d t ≡ f d t
  unfolding written
  written-row d t ne = ground arith

  -- Seen below the parity, the write is a plain store.
  written-below :
      (d : ℕ)
      → d < 3
      → written f lb src (raid5_data_disk (lb / 3) d) (lb / 3)
        ≡ store f
            (raid5_data_disk (lb / 3) (lb % 3))
            (lb / 3)
            src
            (raid5_data_disk (lb / 3) d)
            (lb / 3)
  unfolding written
  written-below d h = ground (arith, data_disk-ne_parity (lb / 3) d h)

  written-ParityAt : ParityAt (written f lb src) (lb / 3)
  written-ParityAt =
      rw
        (
          written-below 0 (omega arith),
          written-below 1 (omega arith),
          written-below 2 (omega arith),
        )
        top
    where
      top :
          written f lb src (lb / 3 % 4) (lb / 3)
          ≡ parity_of
              (store f
                (raid5_data_disk (lb / 3) (lb % 3))
                (lb / 3)
                src
                (raid5_data_disk (lb / 3) 0)
                (lb / 3))
              (store f
                (raid5_data_disk (lb / 3) (lb % 3))
                (lb / 3)
                src
                (raid5_data_disk (lb / 3) 1)
                (lb / 3))
              (store f
                (raid5_data_disk (lb / 3) (lb % 3))
                (lb / 3)
                src
                (raid5_data_disk (lb / 3) 2)
                (lb / 3))
      top = unfold written in ground arith

  written-sized :
      length src ≡ bsize
      → ((d b : ℕ) → length (f d b) ≡ bsize)
      → (d b : ℕ) → length (written f lb src d b) ≡ bsize
  unfolding written
  written-sized l v d b = store-sized g (lb / 3 % 4) (lb / 3) _ parity_size d b (sized d b)
    where
      g : ℕ → ℕ → Block
      g = store f (raid5_data_disk (lb / 3) (lb % 3)) (lb / 3) src

      sized : (e c : ℕ) → length (g e c) ≡ bsize
      sized e c = store-sized f (raid5_data_disk (lb / 3) (lb % 3)) (lb / 3) src l e c (v e c)

      parity_size :
          length (
            parity_of
              (g (raid5_data_disk (lb / 3) 0) (lb / 3))
              (g (raid5_data_disk (lb / 3) 1) (lb / 3))
              (g (raid5_data_disk (lb / 3) 2) (lb / 3)))
          ≡ bsize
      parity_size = length-parity_of _ _ _ (sized _ _) (sized _ _) (sized _ _)

raid5_write_lem :
    (lb : ℕ) (src : Block) (r : Raid)
    → lb < 1536
    → IsReady r
    → raid5_write lb src r ≡ done (record r { sim_disk = written r.sim_disk lb src })
unfolding raid5_write written
raid5_write_lem lb src r h v =
    rw
      (
        phys_write_block-ok (raid5_data_disk s (lb % 3)) s src r (omega arith) (omega arith)
            (v.healthy _),
        parity_loop_lem s (record r { sim_disk = g }) (omega arith) v.healthy,
      )
      (phys_write_block-ok (s % 4) s _ (record r { sim_disk = g }) (omega arith) (omega arith)
        (v.healthy _))
  where
    s : ℕ
    s = lb / 3

    g : ℕ → ℕ → Block
    g = store r.sim_disk (raid5_data_disk s (lb % 3)) s src

-- A write leaves every other block guarded, in its own stripe and in the others.
written-others :
    (f : ℕ → ℕ → Block) (lb : ℕ) (src : Block) (k : ℕ) (b : Block)
    → k ≢ lb
    → ((d : ℕ) → length (written f lb src d (k / 3)) ≡ bsize)
    → Guarded f k b
    → Guarded (written f lb src) k b
written-others f lb src k b ne whole g = elim (ℕ_discrete (k / 3) (lb / 3)) [
  | yes e ↦ record {
    stored =
        rw e (written-data_ne f lb src (k % 3) (omega arith) (omega arith)) ∙ (rw e at g.stored);
    parity = rw e (written-ParityAt f lb src);
    whole = whole;
  }
  | no o ↦ record {
    stored = written-row f lb src _ (k / 3) o ∙ g.stored;
    parity =
        rw
          (
            written-row f lb src (k / 3 % 4) (k / 3) o,
            written-row f lb src (raid5_data_disk (k / 3) 0) (k / 3) o,
            written-row f lb src (raid5_data_disk (k / 3) 1) (k / 3) o,
            written-row f lb src (raid5_data_disk (k / 3) 2) (k / 3) o,
          )
          g.parity;
    whole = whole;
  }
]

pub parity_write :
    (lb : ℕ) (src : Block) (r : Raid)
    → lb < 1536
    → length src ≡ bsize
    → IsReady r
    → Wrote 1536 Guarded lb src r (raid5_write lb src r)
parity_write lb src r h l v = record {
  after = record r { sim_disk = written r.sim_disk lb src };
  returns = raid5_write_lem lb src r h v;
  ready = record { healthy = v.healthy; sized = sized };
  same_mode = refl;
  here = record {
    stored = written-data r.sim_disk lb src;
    parity = written-ParityAt r.sim_disk lb src;
    whole = λ d. sized d (lb / 3);
  };
  others = λ k b ne hk g. written-others r.sim_disk lb src k b ne (λ d. sized d (k / 3)) g;
}
  where
    sized : (d b : ℕ) → length (written r.sim_disk lb src d b) ≡ bsize
    sized = written-sized r.sim_disk lb src l v.sized
