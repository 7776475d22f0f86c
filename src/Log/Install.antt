-- ===== src/Log/Install.antt =====
-- `install_trans`: at every moment the disk stands for the same blocks, and at its end it has them.
use os_2_course_work.Prelude.{
  ℕ, zero, suc, ◌+◌, ◌≤◌, ◌<◌, ◌≡◌, inl, inr, refl, ◌∙◌, ◌==◌, true, false, Bool-cases, arith,
}
use os_2_course_work.Raid.{Block}
use os_2_course_work.Log.{
  Log, Disk, Store, running, put, copy_buf, bwrite, install_loop, install_trans,
}
use os_2_course_work.Log.View.{
  installed, view, IsHome, IsHead, Safe, installed_again, installed_cong,
}

-- The first `t` of the log's blocks have been installed over `base`; `copy i` is its copy for entry
-- `i`, on disk and in the cache.
pub record Installing (log : Log) (copy : ℕ → Block) (base : ℕ → Block) (t : ℕ) (s : Store)
    : Type 0 where
  pub count : s.disk.head.n ≡ log.lh.n
  pub entries : (i : ℕ) → i < log.lh.n → s.disk.head.block i ≡ log.lh.block i
  pub copies : (i : ℕ) → i < log.lh.n → s.disk.blocks (log.start + i + 1) ≡ copy i
  pub cached : (i : ℕ) → i < log.lh.n → s.cache (log.start + i + 1) ≡ copy i
  pub home : (b : ℕ) → IsHome log.start b → s.disk.blocks b ≡ installed copy log.lh.block base t b

-- A disk with a sound header that stands for given home blocks.
pub record StandsFor (start : ℕ) (blocks : ℕ → Block) (d : Disk) : Type 0 where
  pub header : IsHead start d.head
  pub same : (b : ℕ) → IsHome start b → view start d b ≡ blocks b

abbrev install_one : Log → ℕ → Store → Store
install_one log t s =
    let u = copy_buf (log.lh.block t) (log.start + t + 1) s in
    record u {
      disk = record u.disk {
        blocks = put u.disk.blocks (log.lh.block t) (u.cache (log.lh.block t));
      };
    }

module _ (log : Log) (copy base : ℕ → Block) (ok : IsHead log.start log.lh) where
  pub Installing-StandsFor :
      (t : ℕ) (s : Store)
      → t ≤ log.lh.n
      → Installing log copy base t s
      → StandsFor log.start (installed copy log.lh.block base log.lh.n) s.disk
  unfolding view
  Installing-StandsFor t s le v = record {
    header = record {
      fits = rw v.count ok.fits;
      home = λ i h.
          let lt : i < log.lh.n = omega (arith, v.count) in rw (v.entries i lt) (ok.home i lt);
    };
    same = λ b hb. rw v.count (
        installed_cong (λ i. s.disk.blocks (log.start + i + 1)) copy s.disk.head.block log.lh.block
          s.disk.blocks s.disk.blocks log.lh.n b v.copies v.entries refl
        ∙ installed_again copy log.lh.block b base s.disk.blocks t log.lh.n le (v.home b hb));
  }

  -- A copy in the log is not a home block.
  apart : (i t : ℕ) → i < log.lh.n → t < log.lh.n → (log.start + i + 1 == log.lh.block t) ≡ false
  apart i t hi ht = ground (arith, ok.fits, ok.home t ht)

  install_step :
      (t : ℕ) (s : Store)
      → t < log.lh.n
      → Installing log copy base t s
      → Installing log copy base (t + 1) (install_one log t s)
  unfolding installed
  install_step t s lt v = record {
    count = v.count;
    entries = v.entries;
    copies = λ i h. rw (apart i t h lt) (v.copies i h);
    cached = λ i h. rw (apart i t h lt) (v.cached i h);
    home = λ b hb.
        let next : t + 1 ≡ suc t = omega arith in
        let self : (log.lh.block t == log.lh.block t) ≡ true = ground arith in
        elim (Bool-cases (b == log.lh.block t)) [
          | inl e ↦ rw (next, e, self) (v.cached t lt)
          | inr e ↦ rw (next, e) (v.home b hb)
        ];
  }

  install_loop_lem :
      (m n t k : ℕ) (s : Store)
      → t + n ≡ m
      → m ≤ log.lh.n
      → Installing log copy base t s
      → Safe
          (StandsFor log.start (installed copy log.lh.block base log.lh.n))
          (Installing log copy base m)
          (install_loop log n t k s)
  unfolding install_loop bwrite
  install_loop_lem m zero t k s e le v = let same : m ≡ t = omega arith in rw same v
  install_loop_lem m (suc n) t zero s e le v = Installing-StandsFor t s (omega arith) v
  install_loop_lem m (suc n) t (suc k) s e le v =
      install_loop_lem m n (t + 1) k (install_one log t s) (omega arith) le
        (install_step t s (omega arith) v)

  -- `install_trans` from a log whose copies are on disk installs them all over `base`, and a failure
  -- in between leaves a disk that stands for the same blocks.
  pub install_trans_lem :
      (k : ℕ) (s : Store)
      → Installing log copy base 0 s
      → Safe
          (StandsFor log.start (installed copy log.lh.block base log.lh.n))
          (Installing log copy base log.lh.n)
          (install_trans log k s)
  unfolding install_trans
  install_trans_lem k s v = install_loop_lem log.lh.n log.lh.n 0 k s (omega arith) (omega arith) v

-- It writes one block for each entry.
install_loop-running :
    (log : Log) (n t k : ℕ) (s : Store)
    → (s' : Store) × (install_loop log n t (n + k) s ≡ running k s')
unfolding install_loop bwrite
install_loop-running log zero t k s = let z : 0 + k ≡ k = omega arith in rw z (s, refl)
install_loop-running log (suc n) t k s =
    let z : suc n + k ≡ suc (n + k) = omega arith in
    rw z (install_loop-running log n (t + 1) k (install_one log t s))

pub install_trans-running :
    (log : Log) (k : ℕ) (s : Store)
    → (s' : Store) × (install_trans log (log.lh.n + k) s ≡ running k s')
unfolding install_trans
install_trans-running log k s = install_loop-running log log.lh.n 0 k s

pub StandsFor-cong :
    (start : ℕ) (f g : ℕ → Block) (d : Disk)
    → ((b : ℕ) → f b ≡ g b)
    → StandsFor start f d
    → StandsFor start g d
StandsFor-cong start f g d e v = record { header = v.header; same = λ b h. v.same b h ∙ e b }
