-- ===== src/Raid/Array.antt =====
-- Pages on the array. A page that `raid_write` stores is what `raid_read` gives back, in every mode
-- and through every loss of disks that the mode's layout tolerates.
use os_2_course_work.Prelude.{
  ℕ, ◌+◌, ◌≤◌, ◌<◌, ◌≡◌, refl, ◌∙◌, [], ◌∷◌, Outcome, done, length, arith, u32,
}
use os_2_course_work.Raid.{
  Block, Page, bsize, blocks_per_page, Raid, write_block, read_block, write_loop, read_loop,
}
use os_2_course_work.Raid.Layout.{IsReady, Wrote, Layout}
use os_2_course_work.Raid.Striping.{striping}
use os_2_course_work.Raid.Mirroring.{mirroring}
use os_2_course_work.Raid.Rebuild.{parity}

-- `L` is the layout that the `switch` on `raid_mode` selects.
pub data Selects : Layout → Type 1 where
  striped : Selects striping
  mirrored : Selects mirroring
  guarded : Selects parity

abbrev pub Whole : Page → Type 0
Whole [] = Unit {0}
Whole (b ∷ bs) = (length b ≡ bsize) × Whole bs

pub record IsPage (p : Page) : Type 0 where
  pub four : length p ≡ blocks_per_page
  pub whole : Whole p

-- Logical blocks `lb`, `lb + 1`, … of the disks hold the blocks of the page.
abbrev pub Holds : Layout → (ℕ → ℕ → Block) → ℕ → Page → Type 0
Holds L disk lb [] = Unit {0}
Holds L disk lb (b ∷ bs) = L.Durable disk lb b × Holds L disk (lb + 1) bs

write_block_lem :
    {L : Layout}
    → Selects L
    → (lb : ℕ) (s : Block) (r : Raid) → r.raid_mode ≡ L.mode
    → write_block lb s r ≡ L.write lb s r
unfolding write_block
write_block_lem striped lb s r e = ground arith
write_block_lem mirrored lb s r e = ground arith
write_block_lem guarded lb s r e = ground arith

read_block_lem :
    {L : Layout}
    → Selects L
    → (lb : ℕ) (r : Raid) → r.raid_mode ≡ L.mode
    → read_block lb r ≡ L.read lb r
unfolding read_block
read_block_lem striped lb r e = ground arith
read_block_lem mirrored lb r e = ground arith
read_block_lem guarded lb r e = ground arith

-- Every layout is smaller than what a `uint32` counts, so `lblock + i` does not wrap.
capacity_small : {L : Layout} → Selects L → (k : ℕ) → k < L.capacity → u32 k ≡ k
capacity_small striped k h = omega arith
capacity_small mirrored k h = omega arith
capacity_small guarded k h = omega arith

-- What the write loop leaves that starts at logical block `at`.
pub record Stored (L : Layout) (at : ℕ) (src : Page) (r : Raid) (result : Outcome Raid)
    : Type 0 where
  pub after : Raid
  pub returns : result ≡ done after
  pub ready : IsReady after
  pub same_mode : after.raid_mode ≡ r.raid_mode
  pub holds : Holds L after.sim_disk at src
  pub below :
      (k : ℕ) (b : Block)
      → k < L.capacity
      → k < at
      → L.Durable r.sim_disk k b
      → L.Durable after.sim_disk k b
  pub above :
      (k : ℕ) (b : Block)
      → k < L.capacity
      → at + length src ≤ k
      → L.Durable r.sim_disk k b
      → L.Durable after.sim_disk k b

module _ {L : Layout} (sel : Selects L) where
  write_step :
      (lblock i : ℕ) (s : Block) (src : Page) (r : Raid)
      → lblock + i + length (s ∷ src) ≤ L.capacity
      → r.raid_mode ≡ L.mode
      → (w : Wrote L.capacity L.Durable (lblock + i) s r (L.write (lblock + i) s r))
      → Stored L (lblock + (i + 1)) src w.after (write_loop lblock (i + 1) src w.after)
      → Stored L (lblock + i) (s ∷ src) r (write_loop lblock i (s ∷ src) r)
  unfolding write_loop
  write_step lblock i s src r fit m w t = record {
    after = t.after;
    returns =
        rw
          (
            capacity_small sel (lblock + i) (omega arith),
            write_block_lem sel (lblock + i) s r m,
            w.returns,
          )
          t.returns;
    ready = t.ready;
    same_mode = t.same_mode ∙ w.same_mode;
    holds = (
      t.below (lblock + i) s (omega arith) (omega arith) w.here,
      let e : lblock + (i + 1) ≡ lblock + i + 1 = omega arith in rw e at t.holds,
    );
    below = λ k b hk lo d. t.below k b hk (omega arith) (w.others k b (omega arith) hk d);
    above = λ k b hk hi d. t.above k b hk (omega arith) (w.others k b (omega arith) hk d);
  }

  pub write_loop_lem :
      (lblock i : ℕ) (src : Page) (r : Raid)
      → lblock + i + length src ≤ L.capacity
      → Whole src
      → IsReady r
      → r.raid_mode ≡ L.mode
      → Stored L (lblock + i) src r (write_loop lblock i src r)
  write_loop_lem lblock i [] r fit w v m = record {
    after = r;
    returns = unfold write_loop in refl;
    ready = v;
    same_mode = refl;
    holds = tt;
    below = λ k b hk lo d. d;
    above = λ k b hk hi d. d;
  }
  write_loop_lem lblock i (s ∷ src) r fit w v m =
      let one = L.write_law (lblock + i) s r (omega arith) w.0 v in
      write_step lblock i s src r fit m one (
        write_loop_lem lblock (i + 1) src one.after (omega arith) w.1 one.ready (one.same_mode ∙ m))

  pub read_loop_lem :
      (lblock i : ℕ) (p : Page) (r : Raid)
      → lblock + i + length p ≤ L.capacity
      → r.raid_mode ≡ L.mode
      → L.Tolerates r.disk_failed
      → Holds L r.sim_disk (lblock + i) p
      → read_loop (length p) lblock i r ≡ done p
  unfolding read_loop
  read_loop_lem lblock i [] r fit m t h = refl
  read_loop_lem lblock i (b ∷ p) r fit m t h = rw (
    capacity_small sel (lblock + i) (omega arith),
    read_block_lem sel (lblock + i) r m,
    L.read_law (lblock + i) b r (omega arith) h.0 t,
    read_loop_lem lblock (i + 1) p r (omega arith) m t rest,
  )
    where
      rest : Holds L r.sim_disk (lblock + (i + 1)) p
      rest = let e : lblock + i + 1 ≡ lblock + (i + 1) = omega arith in rw e at h.1
