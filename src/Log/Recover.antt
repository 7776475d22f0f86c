-- ===== src/Log/Recover.antt =====
-- Recovery at boot: `initlog` leaves the blocks that the disk stood for, however often the power
-- fails before it ends.
use os_2_course_work.Prelude.{ℕ, zero, suc, ◌+◌, ◌≡◌, refl, ◌∙◌, false, arith}
use os_2_course_work.Raid.{Block}
use os_2_course_work.Log.{
  Log, Disk, Store, running, then_run, copy_head, clear_log, read_head, write_head, install_trans,
  recover_from_log, initlog,
}
use os_2_course_work.Log.View.{
  installed, view, IsHome, IsHead, Safe, Safe-then_run, Safe-map, installed_cong,
}
use os_2_course_work.Log.Install.{
  Installing, StandsFor, Installing-StandsFor, install_trans_lem, install_trans-running,
  StandsFor-cong,
}

-- What recovery leaves: an empty log in memory and on disk, and the given home blocks.
pub record Recovered (start : ℕ) (blocks : ℕ → Block) (r : Log × Store) : Type 0 where
  pub empty : r.0.lh.n ≡ 0
  pub cleared : r.1.disk.head.n ≡ 0
  pub home : (b : ℕ) → IsHome start b → r.1.disk.blocks b ≡ blocks b

abbrev zero_log : ℕ → Log
zero_log start = record {
  start = start;
  outstanding = 0;
  committing = false;
  lh = record { n = 0; block = λ i. 0 };
}

abbrev booted : Disk → Store
booted d = record { disk = d; cache = d.blocks }

abbrev reading : ℕ → Disk → Log
reading start d = record (zero_log start) {
  lh = copy_head d.head (record { n = 0; block = λ i. 0 });
}

abbrev kept : ℕ → Disk → ℕ → Block
kept start d =
    installed (λ i. d.blocks (start + i + 1)) (reading start d).lh.block d.blocks d.head.n

kept_lem : (start : ℕ) (d : Disk) (b : ℕ) → kept start d b ≡ view start d b
unfolding view
kept_lem start d b =
    installed_cong (λ i. d.blocks (start + i + 1)) (λ i. d.blocks (start + i + 1))
      (reading start d).lh.block d.head.block d.blocks d.blocks d.head.n b (λ i h. refl)
      (λ i h. ground arith) refl

reading-IsHead : (start : ℕ) (d : Disk) → IsHead start d.head → IsHead start (reading start d).lh
reading-IsHead start d v = record {
  fits = v.fits;
  home = λ i h.
      let e : (reading start d).lh.block i ≡ d.head.block i = ground arith in rw e (v.home i h);
}

reading-Installing :
    (start : ℕ) (d : Disk)
    → Installing (reading start d) (λ i. d.blocks (start + i + 1)) d.blocks 0 (booted d)
unfolding installed
reading-Installing start d = record {
  count = refl;
  entries = λ i h. ground arith;
  copies = λ i h. refl;
  cached = λ i h. refl;
  home = λ b h. refl;
}

module _ (start : ℕ) (d : Disk) (v : IsHead start d.head) where
  finish :
      (k : ℕ) (t : Store)
      → Installing (reading start d) (λ i. d.blocks (start + i + 1)) d.blocks d.head.n t
      → Safe (StandsFor start (kept start d)) (Recovered start (view start d)) (
          then_run
            (write_head (clear_log (reading start d)) k t)
            (λ k u. running k (clear_log (reading start d), u)))
  unfolding write_head
  finish zero t i =
      Installing-StandsFor (reading start d) (λ i. d.blocks (start + i + 1)) d.blocks
        (reading-IsHead start d v) d.head.n t (omega arith) i
  finish (suc k) t i = record {
    empty = refl;
    cleared = refl;
    home = λ b h. i.home b h ∙ kept_lem start d b;
  }

  -- From a disk whose log header is sound, `initlog` leaves an empty log and the home blocks that the
  -- disk stands for. If the power fails before it ends, the disk has a sound header and stands for the
  -- same blocks, so the next boot gets the same.
  pub initlog_lem :
      (k : ℕ)
      → Safe (StandsFor start (view start d)) (Recovered start (view start d)) (initlog start k d)
  unfolding initlog recover_from_log read_head
  initlog_lem k =
      Safe-map (StandsFor start (kept start d)) (StandsFor start (view start d))
        (Recovered start (view start d))
        (then_run (install_trans (reading start d) k (booted d)) (λ k t.
          then_run (write_head (clear_log (reading start d)) k t)
            (λ k u. running k (clear_log (reading start d), u))))
        (λ c. StandsFor-cong start (kept start d) (view start d) c (kept_lem start d))
        (Safe-then_run (StandsFor start (kept start d))
          (Installing (reading start d) (λ i. d.blocks (start + i + 1)) d.blocks d.head.n)
          (Recovered start (view start d)) (install_trans (reading start d) k (booted d))
          (λ k t.
            then_run (write_head (clear_log (reading start d)) k t)
              (λ k u. running k (clear_log (reading start d), u)))
          (install_trans_lem (reading start d) (λ i. d.blocks (start + i + 1)) d.blocks
            (reading-IsHead start d v) k (booted d) (reading-Installing start d))
          finish)

-- `initlog` ends if it lives to see one write for each entry of the header and one more.
pub initlog-running :
    (start : ℕ) (d : Disk) (j : ℕ)
    → (r : Log × Store) × (initlog start (d.head.n + suc j) d ≡ running j r)
unfolding initlog recover_from_log read_head write_head
initlog-running start d j =
    let (s, e) = install_trans-running (reading start d) (suc j) (booted d) in
    let cleared = clear_log (reading start d) in
    (
      (cleared, record s { disk = record s.disk { head = copy_head cleared.lh s.disk.head } }),
      rw e refl,
    )
