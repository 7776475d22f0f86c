-- ===== src/Raid/Striping.antt =====
-- RAID-0 keeps every block in one place: it reads back what was written if no disk has failed.
use os_2_course_work.Prelude.{ℕ, ◌/◌, ◌%◌, ◌<◌, ◌≡◌, refl, false, done, length, arith}
use os_2_course_work.Raid.{
  Block, bsize, num_disks, Raid, store, phys_write_block, phys_read_block, raid0_write, raid0_read,
}
use os_2_course_work.Raid.Layout.{IsReady, Wrote, Layout}

pub phys_write_block-ok :
    (d b : ℕ) (src : Block) (r : Raid)
    → d < num_disks
    → b < 512
    → r.disk_failed d ≡ false
    → phys_write_block d b src r ≡ done (record r { sim_disk = store r.sim_disk d b src })
unfolding phys_write_block
phys_write_block-ok d b src r hd hb h = ground arith

pub store-sized :
    (f : ℕ → ℕ → Block) (d b : ℕ) (src : Block)
    → length src ≡ bsize
    → (e c : ℕ) → length (f e c) ≡ bsize
    → length (store f d b src e c) ≡ bsize
store-sized f d b src h e c k = ground arith

abbrev pub Striped : (ℕ → ℕ → Block) → ℕ → Block → Type 0
Striped disk lb b = disk (lb % 4) (lb / 4) ≡ b

pub striping_write :
    (lb : ℕ) (src : Block) (r : Raid)
    → lb < 2048
    → length src ≡ bsize
    → IsReady r
    → Wrote 2048 Striped lb src r (raid0_write lb src r)
unfolding raid0_write
striping_write lb src r h l v = record {
  after = record r { sim_disk = store r.sim_disk (lb % 4) (lb / 4) src };
  returns =
      phys_write_block-ok (lb % 4) (lb / 4) src r (omega arith) (omega arith) (v.healthy (lb % 4));
  ready = record {
    healthy = v.healthy;
    sized = λ d b. store-sized r.sim_disk (lb % 4) (lb / 4) src l d b (v.sized d b);
  };
  same_mode = refl;
  here = ground arith;
  others = λ k b ne hk e. ground arith;
}

pub striping_read :
    (lb : ℕ) (b : Block) (r : Raid)
    → lb < 2048
    → Striped r.sim_disk lb b
    → ((d : ℕ) → d < 4 → r.disk_failed d ≡ false)
    → raid0_read lb r ≡ done b
unfolding raid0_read phys_read_block
striping_read lb b r h e t = ground (arith, t (lb % 4) (omega arith))

abbrev pub striping : Layout
striping = record {
  mode = 0;
  capacity = 2048;
  write = raid0_write;
  read = raid0_read;
  Durable = Striped;
  Tolerates = λ failed. (d : ℕ) → d < 4 → failed d ≡ false;
  write_law = striping_write;
  read_law = striping_read;
}
