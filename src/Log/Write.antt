-- ===== src/Log/Write.antt =====
-- `write_log`, the first part of a commit: home blocks stay as they are while the transaction's blocks
-- go into the log.
use os_2_course_work.Prelude.{
  ℕ, zero, suc, ◌+◌, ◌≤◌, ◌<◌, ◌≡◌, inl, inr, refl, ◌==◌, ◌||◌, if◌then◌else◌, ==_iff, Bool, true,
  false, Bool-cases, arith,
}
use os_2_course_work.Raid.{Block}
use os_2_course_work.Log.{Log, Disk, Store, running, put, copy_buf, bwrite, write_log_loop}
use os_2_course_work.Log.View.{installed, view, IsHome, IsHead, Safe}
use os_2_course_work.Log.Install.{StandsFor}

-- Whether one of the first `n` entries is for block `b`.
unfoldable pub is_logged : (ℕ → ℕ) → ℕ → ℕ → Bool
is_logged block zero b = false
is_logged block (suc n) b = b == block n || is_logged block n b

-- The home blocks after the transaction: of the blocks in the log, what the cache has.
unfoldable pub committed : Log → Store → ℕ → Block
committed log s b = if is_logged log.lh.block log.lh.n b then s.cache b else s.disk.blocks b

abbrev pub Old : Log → Store → Disk → Type 0
Old log s d = StandsFor log.start s.disk.blocks d

abbrev pub New : Log → Store → Disk → Type 0
New log s d = StandsFor log.start (committed log s) d

pub installed-cache :
    (block : ℕ → ℕ) (cache base : ℕ → Block) (n b : ℕ)
    → installed (λ i. cache (block i)) block base n b
      ≡ (if is_logged block n b then cache b else base b)
unfolding installed is_logged
installed-cache block cache base zero b = refl
installed-cache block cache base (suc n) b = elim (Bool-cases (b == block n)) [
  | inl e ↦ let same : b ≡ block n = (==_iff b (block n)).0 e in rw (e, same) refl
  | inr e ↦ rw e (installed-cache block cache base n b)
]

-- The first `t` blocks of the transaction have been copied into the log.
pub record Logging (log : Log) (s : Store) (t : ℕ) (u : Store) : Type 0 where
  pub head : u.disk.head ≡ s.disk.head
  pub copies : (i : ℕ) → i < t → u.disk.blocks (log.start + i + 1) ≡ s.cache (log.lh.block i)
  pub cached : (i : ℕ) → i < t → u.cache (log.start + i + 1) ≡ s.cache (log.lh.block i)
  pub home : (b : ℕ) → IsHome log.start b → u.disk.blocks b ≡ s.disk.blocks b
  pub home_cache : (b : ℕ) → IsHome log.start b → u.cache b ≡ s.cache b

abbrev log_one : Log → ℕ → Store → Store
log_one log t s =
    let u = copy_buf (log.start + t + 1) (log.lh.block t) s in
    record u {
      disk = record u.disk {
        blocks = put u.disk.blocks (log.start + t + 1) (u.cache (log.start + t + 1));
      };
    }

module _ (log : Log) (s : Store) (ok : IsHead log.start log.lh) (clear : s.disk.head.n ≡ 0) where
  pub Logging-Old : (t : ℕ) (u : Store) → Logging log s t u → Old log s u.disk
  unfolding view installed
  Logging-Old t u v = record {
    header = record {
      fits = rw (v.head, clear) (omega arith);
      home = λ i h. absurd (let e : u.disk.head.n ≡ 0 = rw v.head clear in omega (arith, e, h));
    };
    same = λ b h. rw (v.head, clear) (v.home b h);
  }

  log_step :
      (t : ℕ) (u : Store)
      → t < log.lh.n
      → Logging log s t u
      → Logging log s (suc t) (log_one log t u)
  log_step t u lt v = record {
    head = v.head;
    copies = λ i h. elim (Bool-cases (log.start + i + 1 == log.start + t + 1)) [
      | inl e ↦
          let same : i ≡ t = ground arith in
          let self : (log.start + t + 1 == log.start + t + 1) ≡ true = ground arith in
          rw (e, self, same) (v.home_cache (log.lh.block t) (ok.home t lt))
      | inr e ↦ rw e (v.copies i (ground arith))
    ];
    cached = λ i h. elim (Bool-cases (log.start + i + 1 == log.start + t + 1)) [
      | inl e ↦
          let same : i ≡ t = ground arith in
          let self : (log.start + t + 1 == log.start + t + 1) ≡ true = ground arith in
          rw (e, same) (v.home_cache (log.lh.block t) (ok.home t lt))
      | inr e ↦ rw e (v.cached i (ground arith))
    ];
    home = λ b hb.
        let e : (b == log.start + t + 1) ≡ false = ground (arith, ok.fits) in rw e (v.home b hb);
    home_cache = λ b hb.
        let e : (b == log.start + t + 1) ≡ false = ground (arith, ok.fits) in
        rw e (v.home_cache b hb);
  }

  pub write_log_lem :
      (m n t k : ℕ) (u : Store)
      → t + n ≡ m
      → m ≤ log.lh.n
      → Logging log s t u
      → Safe (Old log s) (Logging log s m) (write_log_loop log n t k u)
  unfolding write_log_loop bwrite
  write_log_lem m zero t k u e le v = let same : m ≡ t = omega arith in rw same v
  write_log_lem m (suc n) t zero u e le v = Logging-Old t u v
  write_log_lem m (suc n) t (suc k) u e le v =
      let next : t + 1 ≡ suc t = omega arith in
      write_log_lem m n (t + 1) k (log_one log t u) (omega arith) le
        (rw next (log_step t u (omega arith) v))

pub write_log_loop-running :
    (log : Log) (n t k : ℕ) (s : Store)
    → (s' : Store) × (write_log_loop log n t (n + k) s ≡ running k s')
unfolding write_log_loop bwrite
write_log_loop-running log zero t k s = let z : 0 + k ≡ k = omega arith in rw z (s, refl)
write_log_loop-running log (suc n) t k s =
    let z : suc n + k ≡ suc (n + k) = omega arith in
    rw z (write_log_loop-running log n (t + 1) k (log_one log t s))
