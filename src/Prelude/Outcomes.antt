-- ===== src/Prelude/Outcomes.antt =====
-- What a kernel routine does: it returns a value, or it calls `panic`, which does not return.
use mathlib.Core.Path.{◌≡◌, refl}
use mathlib.Core.Logic.{◌≢◌}

-- One constructor for each message that the modelled code hands to `panic`.
pub data Panic : Type 0 where
  phys_write_bad_disk phys_write_out_of_range phys_read_bad_disk phys_read_out_of_range : Panic
  raid0_failed raid1_failed raid5_two_failed raid5_parity_failed raid_bad_mode : Panic
  raid_invalid_mode raid_fail_disk raid_restore_disk : Panic
  invalid_policy queue_full no_evictable_frame kfree_bad init_exiting : Panic
  walk_bad mappages_va mappages_size mappages_zero mappages_remap uvmclear_bad kvmmap_bad : Panic
  uvmunmap_bad no_buffers bwrite_bad brelse_bad : Panic
  acquire_bad release_bad pop_off_interruptible pop_off_bad : Panic
  freeing_free_block bmap_out_of_range iget_no_inodes ilock_bad ilock_no_type iunlock_bad : Panic
  dirlookup_not_dir dirlookup_read dirlink_read invalid_file_system : Panic
  log_committing too_big_a_transaction log_write_outside : Panic

pub data Outcome {ℓ} (A : Type ℓ) : Type ℓ where
  done : A → Outcome A
  panic : Panic → Outcome A

infixl 5 ◌>>=◌
abbrev pub ◌>>=◌ {ℓ κ} : {A : Type ℓ} {B : Type κ} → Outcome A → (A → Outcome B) → Outcome B
done a >>= f = f a
panic e >>= f = panic e

pub done_done {ℓ} : {A : Type ℓ} {a b : A} → done a ≡ done b → a ≡ b
done_done h = cc

pub panic_done {ℓ} : {A : Type ℓ} {e : Panic} {a : A} → panic e ≢ done a
panic_done h = cc

-- A chain of two routines returns only if both do.
pub bind_done {ℓ κ} :
    {A : Type ℓ} {B : Type κ} (r : Outcome A) (k : A → Outcome B) (b : B)
    → (r >>= k) ≡ done b
    → (a : A) × (r ≡ done a) × (k a ≡ done b)
bind_done (panic e) k b h = absurd (panic_done h)
bind_done (done a) k b h = (a, refl, h)
