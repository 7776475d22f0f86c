-- ===== src/Raid/Pages.antt =====
-- Pages on the array: what `raid_write` and `raid_copy` store is what `raid_read` gives back, in
-- every mode and through every loss of disks that the mode tolerates.
use os_2_course_work.Prelude.{
  ℕ, ◌+◌, ◌≤◌, ◌<◌, ◌≡◌, ◌⊎◌, inl, inr, ◌∙◌, Bool, false, [], ◌∷◌, done, length, arith,
}
use os_2_course_work.Raid.{Block, Page, Raid, raid_write, raid_read, raid_copy}
use os_2_course_work.Raid.Layout.{IsReady, Layout}
use os_2_course_work.Raid.Array.{
  Selects, striped, mirrored, guarded, IsPage, Holds, Stored, write_loop_lem, read_loop_lem,
}

abbrev pub lose : Raid → (ℕ → Bool) → Raid
lose r failed = record r { disk_failed = failed }

pub healthy-Tolerates :
    {L : Layout}
    → Selects L
    → (failed : ℕ → Bool) → ((d : ℕ) → failed d ≡ false)
    → L.Tolerates failed
healthy-Tolerates striped failed h = λ d _. h d
healthy-Tolerates mirrored failed h = inl (h 0)
healthy-Tolerates guarded failed h = (0, λ d _ _. h d)

module _ {L : Layout} (sel : Selects L) where
  pub write_page :
      (lblock : ℕ) (p : Page) (r : Raid)
      → lblock + 4 ≤ L.capacity
      → IsPage p
      → IsReady r
      → r.raid_mode ≡ L.mode
      → Stored L lblock p r (raid_write lblock p r)
  unfolding raid_write
  write_page lblock p r fit pg v m =
      let e : lblock + 0 ≡ lblock = omega arith in
      rw e at (write_loop_lem sel lblock 0 p r (omega (arith, pg.four)) pg.whole v m)

  pub read_page :
      (lblock : ℕ) (p : Page) (r : Raid)
      → lblock + 4 ≤ L.capacity
      → length p ≡ 4
      → r.raid_mode ≡ L.mode
      → L.Tolerates r.disk_failed
      → Holds L r.sim_disk lblock p
      → raid_read lblock r ≡ done p
  unfolding raid_read
  read_page lblock p r fit four m t h =
      let e : lblock ≡ lblock + 0 = omega arith in
      rw (← four) (read_loop_lem sel lblock 0 p r (omega arith) m t (rw e at h))

  pub Holds-below :
      (f g : Raid) (at : ℕ) (lblock : ℕ) (q : Page)
      → ((k : ℕ) (b : Block)
          → k < L.capacity
          → k < at
          → L.Durable f.sim_disk k b
          → L.Durable g.sim_disk k b)
      → lblock + length q ≤ at
      → at ≤ L.capacity
      → Holds L f.sim_disk lblock q
      → Holds L g.sim_disk lblock q
  Holds-below f g at lblock [] keep lo hi h = tt
  Holds-below f g at lblock (b ∷ q) keep lo hi h = (
    keep lblock b (omega arith) (omega arith) h.0,
    Holds-below f g at (lblock + 1) q keep (omega arith) hi h.1,
  )

  pub Holds-above :
      (f g : Raid) (at : ℕ) (lblock : ℕ) (q : Page)
      → ((k : ℕ) (b : Block)
          → k < L.capacity
          → at ≤ k
          → L.Durable f.sim_disk k b
          → L.Durable g.sim_disk k b)
      → at ≤ lblock
      → lblock + length q ≤ L.capacity
      → Holds L f.sim_disk lblock q
      → Holds L g.sim_disk lblock q
  Holds-above f g at lblock [] keep lo hi h = tt
  Holds-above f g at lblock (b ∷ q) keep lo hi h = (
    keep lblock b (omega arith) lo h.0,
    Holds-above f g at (lblock + 1) q keep (omega arith) (omega arith) h.1,
  )

  -- A write leaves the pages elsewhere as they are.
  pub write_page-Holds :
      (lblock other : ℕ) (p q : Page) (r : Raid)
      → (lblock + 4 ≤ other) ⊎ (other + 4 ≤ lblock)
      → lblock + 4 ≤ L.capacity
      → other + 4 ≤ L.capacity
      → IsPage p
      → length q ≡ 4
      → (w : Stored L lblock p r (raid_write lblock p r)) → Holds L r.sim_disk other q
      → Holds L w.after.sim_disk other q
  write_page-Holds lblock other p q r (inl hi) fit fit' pg four w h =
      Holds-above r w.after (lblock + length p) other q (λ k b hk lo d. w.above k b hk lo d)
        (omega (arith, pg.four)) (omega arith) h
  write_page-Holds lblock other p q r (inr lo) fit fit' pg four w h =
      Holds-below r w.after lblock other q (λ k b hk lt d. w.below k b hk lt d) (omega arith)
        (omega arith) h

-- On a healthy array of whole blocks, a page of four whole blocks that `raid_write` stores within
-- the capacity of the mode is read back by `raid_read`, whatever disks fail in between, as long as
-- the layout of the mode tolerates their loss; the array stays ready.
pub raid_read-write :
    {L : Layout} (sel : Selects L) (lblock : ℕ) (p : Page) (r : Raid) (failed : ℕ → Bool)
    → lblock + 4 ≤ L.capacity
    → IsPage p
    → IsReady r
    → r.raid_mode ≡ L.mode
    → L.Tolerates failed
    → (r' : Raid) × (raid_write lblock p r ≡ done r')
      × IsReady r'
      × (raid_read lblock (lose r' failed) ≡ done p)
raid_read-write sel lblock p r failed fit pg v m t =
    let w = write_page sel lblock p r fit pg v m in
    (
      w.after,
      w.returns,
      w.ready,
      read_page sel lblock p (lose w.after failed) fit pg.four (w.same_mode ∙ m) t w.holds,
    )

-- On a healthy array of whole blocks, of two pages of four whole blocks written within the capacity
-- of the mode to places that do not overlap, the second write does not disturb the first: the first
-- page is still read back, whatever tolerated disks fail in between.
pub raid_read-write_other :
    {L : Layout} (sel : Selects L) (lblock other : ℕ) (p q : Page) (r : Raid) (failed : ℕ → Bool)
    → lblock + 4 ≤ L.capacity
    → other + 4 ≤ L.capacity
    → (lblock + 4 ≤ other) ⊎ (other + 4 ≤ lblock)
    → IsPage p
    → IsPage q
    → IsReady r
    → r.raid_mode ≡ L.mode
    → L.Tolerates failed
    → (r' : Raid) × (r'' : Raid) × (raid_write other q r ≡ done r')
      × (raid_write lblock p r' ≡ done r'')
      × (raid_read other (lose r'' failed) ≡ done q)
raid_read-write_other sel lblock other p q r failed fit fit' apart pg qg v m t =
    let w = write_page sel other q r fit' qg v m in
    let z = write_page sel lblock p w.after fit pg w.ready (w.same_mode ∙ m) in
    (
      w.after,
      z.after,
      w.returns,
      z.returns,
      read_page sel other q (lose z.after failed) fit' qg.four (z.same_mode ∙ (w.same_mode ∙ m)) t
          (write_page-Holds sel lblock other p q w.after apart fit fit' pg qg.four z w.holds),
    )

-- On a healthy array of whole blocks, `raid_copy` from a page of four whole blocks that was written
-- makes the destination read as that page, if both lie within the capacity of the mode and whatever
-- tolerated disks fail afterwards.
pub raid_read-copy :
    {L : Layout} (sel : Selects L) (src dst : ℕ) (p : Page) (r : Raid) (failed : ℕ → Bool)
    → src + 4 ≤ L.capacity
    → dst + 4 ≤ L.capacity
    → IsPage p
    → IsReady r
    → r.raid_mode ≡ L.mode
    → L.Tolerates failed
    → (r' : Raid) × (r'' : Raid) × (raid_write src p r ≡ done r')
      × (raid_copy src dst r' ≡ done r'')
      × (raid_read dst (lose r'' failed) ≡ done p)
raid_read-copy sel src dst p r failed fit fit' pg v m t =
    let w = write_page sel src p r fit pg v m in
    let z = write_page sel dst p w.after fit' pg w.ready (w.same_mode ∙ m) in
    let back =
      read_page sel src p w.after fit pg.four (w.same_mode ∙ m)
        (healthy-Tolerates sel w.after.disk_failed w.ready.healthy) w.holds in
    (
      w.after,
      z.after,
      w.returns,
      unfold raid_copy raid_read raid_write in ground (arith, back, z.returns),
      read_page sel dst p (lose z.after failed) fit' pg.four (z.same_mode ∙ (w.same_mode ∙ m)) t
          z.holds,
    )
