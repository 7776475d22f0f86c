-- ===== src/Log/Commit.antt =====
-- `commit` is atomic: after a power failure at any of its writes, recovery finds all of the
-- transaction's blocks or none of them.
use os_2_course_work.Prelude.{
  ℕ, zero, suc, ◌+◌, ◌≡◌, ◌⊎◌, inl, inr, refl, sym, ◌∙◌, Bool-cases, ltb, arith,
}
use os_2_course_work.Raid.{Block}
use os_2_course_work.Log.{
  Log, Disk, Store, Run, crashed, running, then_run, copy_head, clear_log, write_head,
  write_log_loop, write_log, install_trans, commit, initlog,
}
use os_2_course_work.Log.View.{
  installed, view, IsHome, IsHead, Safe, Safe-then_run, Safe-map, Safe-result,
}
use os_2_course_work.Log.Install.{
  Installing, StandsFor, Installing-StandsFor, install_trans_lem, install_trans-running,
  StandsFor-cong,
}
use os_2_course_work.Log.Recover.{Recovered, initlog_lem, initlog-running}
use os_2_course_work.Log.Write.{
  is_logged, committed, Old, New, installed-cache, Logging, Logging-Old, write_log_lem,
  write_log_loop-running,
}

-- `commit` of a transaction of at least one block.
abbrev commit_steps : Log → ℕ → Store → Run (Log × Store)
commit_steps log k s = then_run (write_log log k s) (λ k t. then_run (write_head log k t) (λ k u.
    then_run (install_trans log k u)
      (λ k v. then_run (write_head (clear_log log) k v) (λ k w. running k (clear_log log, w)))))

module _ (log : Log) (s : Store) (ok : IsHead log.start log.lh) (clear : s.disk.head.n ≡ 0) where
  abbrev copy : ℕ → Block
  copy i = s.cache (log.lh.block i)

  abbrev after : ℕ → Block
  after = installed copy log.lh.block s.disk.blocks log.lh.n

  -- The disk after its header has been written: all of the transaction.
  header_written :
      (u : Store)
      → Logging log s log.lh.n u
      → Installing log copy s.disk.blocks 0
          (record u { disk = record u.disk { head = copy_head log.lh u.disk.head } })
  unfolding installed
  header_written u v = record {
    count = refl;
    entries = λ i h. ground arith;
    copies = v.copies;
    cached = v.cached;
    home = v.home;
  }

  abbrev Both : Disk → Type 0
  Both d = Old log s d ⊎ StandsFor log.start after d

  abbrev Committed : Log × Store → Type 0
  Committed = Recovered log.start after

  erase_lem :
      (k : ℕ) (u : Store)
      → Installing log copy s.disk.blocks log.lh.n u
      → Safe Both Committed
          (then_run (write_head (clear_log log) k u) (λ k w. running k (clear_log log, w)))
  unfolding write_head
  erase_lem zero u v =
      inr (Installing-StandsFor log copy s.disk.blocks ok log.lh.n u (omega arith) v)
  erase_lem (suc k) u v = record { empty = refl; cleared = refl; home = v.home }

  install_lem :
      (k : ℕ) (u : Store)
      → Logging log s log.lh.n u
      → Safe Both Committed (
          then_run (write_head log k u) (λ k u. then_run (install_trans log k u) (λ k v.
            then_run (write_head (clear_log log) k v) (λ k w. running k (clear_log log, w)))))
  unfolding write_head
  install_lem zero u v = inl (Logging-Old log s ok clear log.lh.n u v)
  install_lem (suc k) u v =
      let w = record u { disk = record u.disk { head = copy_head log.lh u.disk.head } } in
      Safe-then_run Both (Installing log copy s.disk.blocks log.lh.n) Committed
        (install_trans log k w) _
        (Safe-map (StandsFor log.start after) Both (Installing log copy s.disk.blocks log.lh.n)
          (install_trans log k w) (λ d. inr)
          (install_trans_lem log copy s.disk.blocks ok k w (header_written u v)))
        erase_lem

  after_committed : (b : ℕ) → after b ≡ committed log s b
  unfolding committed
  after_committed b = installed-cache log.lh.block s.cache s.disk.blocks log.lh.n b

  Both-committed : (d : Disk) → Both d → Old log s d ⊎ New log s d
  Both-committed d (inl o) = inl o
  Both-committed d (inr n) =
      inr (StandsFor-cong log.start after (committed log s) d after_committed n)

  -- A transaction of at least one block: write it to the log, write the header, install, erase.
  commit_some : (k : ℕ) → Safe Both Committed (commit_steps log k s)
  unfolding write_log
  commit_some k =
      Safe-then_run Both (Logging log s log.lh.n) Committed (write_log_loop log log.lh.n 0 k s) _
        (Safe-map (Old log s) Both (Logging log s log.lh.n) (write_log_loop log log.lh.n 0 k s)
          (λ d. inl)
          (write_log_lem log s ok clear log.lh.n log.lh.n 0 k s (omega arith) (omega arith)
            (record {
              head = refl;
              copies = λ i h. absurd (omega arith);
              cached = λ i h. absurd (omega arith);
              home = λ b h. refl;
              home_cache = λ b h. refl;
            })))
        install_lem

  unlogged : log.lh.n ≡ 0 → (b : ℕ) → committed log s b ≡ s.disk.blocks b
  unfolding committed is_logged
  unlogged e b = rw e refl

  commit-Both : (k : ℕ) → Safe Both Committed (commit log k s)
  unfolding commit
  commit-Both k = elim (Bool-cases (ltb 0 log.lh.n)) [
    | inl e ↦
        let c : commit log k s ≡ commit_steps log k s = rw (e, commit) refl in rw c (commit_some k)
    | inr e ↦
        let c : commit log k s ≡ running k (log, s) = rw (e, commit) refl in
        let none_logged : log.lh.n ≡ 0 = ground arith in
        rw c (record {
          empty = none_logged;
          cleared = clear;
          home = λ b h. sym (after_committed b ∙ unlogged none_logged b);
        })
  ]

  -- For a log whose entries fit and are home blocks, and with an empty log on disk, `commit` leaves
  -- an empty log and, in their homes, the blocks that the cache has of the transaction; the other
  -- home blocks stay as they were. If the power fails before it ends, the disk has a sound header
  -- and stands either for the home blocks as they were or for all of those after the transaction.
  pub commit_lem :
      (k : ℕ)
      → Safe
          (λ d. Old log s d ⊎ New log s d)
          (Recovered log.start (committed log s))
          (commit log k s)
  commit_lem k =
      Safe-result (λ d. Old log s d ⊎ New log s d) Committed (Recovered log.start (committed log s))
        (commit log k s)
        (λ r v. record {
          empty = v.empty;
          cleared = v.cleared;
          home = λ b h. v.home b h ∙ after_committed b;
        })
        (Safe-map Both (λ d. Old log s d ⊎ New log s d) Committed (commit log k s) Both-committed
          (commit-Both k))

-- `commit` ends if it lives to see two writes for each block of the transaction and two more.
pub commit-running :
    (log : Log) (s : Store) (j : ℕ)
    → (left : ℕ) × (r : Log × Store) × (commit log (log.lh.n + suc (log.lh.n + suc j)) s
        ≡ running left r)
unfolding commit write_log write_head
commit-running log s j = elim (Bool-cases (ltb 0 log.lh.n)) [
  | inl e ↦
      let (t, logged) = write_log_loop-running log log.lh.n 0 (suc (log.lh.n + suc j)) s in
      let u = record t { disk = record t.disk { head = copy_head log.lh t.disk.head } } in
      let (v, done_installing) = install_trans-running log (suc j) u in
      (
        j,
        (
          clear_log log,
          record v { disk = record v.disk { head = copy_head (clear_log log).lh v.disk.head } },
        ),
        rw (e, commit, logged, done_installing) refl,
      )
  | inr e ↦ (log.lh.n + suc (log.lh.n + suc j), (log, s), rw (e, commit) refl)
]

-- The next boot on a disk that stands for given blocks.
reboot :
    (start : ℕ) (blocks : ℕ → Block) (d : Disk) (j : ℕ)
    → StandsFor start blocks d
    → (r : Log × Store) × (initlog start (d.head.n + suc j) d ≡ running j r)
      × ((b : ℕ) → IsHome start b → r.1.disk.blocks b ≡ blocks b)
reboot start blocks d j v =
    let (r, e) = initlog-running start d j in
    let after : Recovered start (view start d) r =
      rw e at (initlog_lem start d v.header (d.head.n + suc j)) in
    (r, e, λ b h. after.home b h ∙ v.same b h)

-- For a log whose entries fit and are home blocks, and with an empty log on disk: if the power
-- fails in the middle of `commit`, the next boot ends, given the writes that it takes, and finds
-- the home blocks as they were before the transaction or all as they are after it.
pub initlog-commit :
    (log : Log) (s : Store) (k j : ℕ) (d : Disk)
    → IsHead log.start log.lh
    → s.disk.head.n ≡ 0
    → commit log k s ≡ crashed d
    → (r : Log × Store) × (initlog log.start (d.head.n + suc j) d ≡ running j r)
      × (((b : ℕ) → IsHome log.start b → r.1.disk.blocks b ≡ s.disk.blocks b)
          ⊎ ((b : ℕ) → IsHome log.start b → r.1.disk.blocks b ≡ committed log s b))
initlog-commit log s k j d ok clear e =
    let left : Old log s d ⊎ New log s d = rw e at (commit_lem log s ok clear k) in
    elim left [
      | inl o ↦ let v = reboot log.start s.disk.blocks d j o in (v.0, v.1, inl v.2)
      | inr n ↦ let v = reboot log.start (committed log s) d j n in (v.0, v.1, inr v.2)
    ]
