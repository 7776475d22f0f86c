-- ===== src/Raid/Mirroring.antt =====
-- RAID-1 keeps every block twice: it reads back what was written if one mirror is left.
use os_2_course_work.Prelude.{ℕ, ◌<◌, ◌≡◌, ◌⊎◌, refl, Bool, false, done, length, arith}
use os_2_course_work.Raid.{
  Block, bsize, Raid, store, phys_write_block, phys_read_block, raid1_write, raid1_read,
}
use os_2_course_work.Raid.Layout.{IsReady, Wrote, Layout}
use os_2_course_work.Raid.Striping.{store-sized}

abbrev pub Mirrored : (ℕ → ℕ → Block) → ℕ → Block → Type 0
Mirrored disk lb b = (disk 0 lb ≡ b) × (disk 1 lb ≡ b)

abbrev pub OneLeft : (ℕ → Bool) → Type 0
OneLeft failed = (failed 0 ≡ false) ⊎ (failed 1 ≡ false)

pub mirroring_write :
    (lb : ℕ) (src : Block) (r : Raid)
    → lb < 512
    → length src ≡ bsize
    → IsReady r
    → Wrote 512 Mirrored lb src r (raid1_write lb src r)
unfolding raid1_write phys_write_block
mirroring_write lb src r h l v = record {
  after = record r { sim_disk = store (store r.sim_disk 0 lb src) 1 lb src };
  returns = ground (arith, v.healthy 0, v.healthy 1);
  ready = record {
    healthy = v.healthy;
    sized = λ d b.
        store-sized (store r.sim_disk 0 lb src) 1 lb src l d b
          (store-sized r.sim_disk 0 lb src l d b (v.sized d b));
  };
  same_mode = refl;
  here = (ground arith, ground arith);
  others = λ k b ne hk e. (ground arith, ground arith);
}

pub mirroring_read :
    (lb : ℕ) (b : Block) (r : Raid)
    → lb < 512
    → Mirrored r.sim_disk lb b
    → OneLeft r.disk_failed
    → raid1_read lb r ≡ done b
unfolding raid1_read phys_read_block
mirroring_read lb b r h e t = ground arith

abbrev pub mirroring : Layout
mirroring = record {
  mode = 1;
  capacity = 512;
  write = raid1_write;
  read = raid1_read;
  Durable = Mirrored;
  Tolerates = OneLeft;
  write_law = mirroring_write;
  read_law = mirroring_read;
}
