-- ===== src/Raid/Tests.antt =====
-- Tests of the array, and the properties at concrete inputs: an array in mode 5 that is full of
-- zeros, and pages of zeros and sevens.
use os_2_course_work.Prelude.{
  ℕ, ◌==◌, ◌≡◌, refl, Bool, false, inl, [], ◌∷◌, done, panic, phys_write_bad_disk,
  raid_invalid_mode, ◌>>=◌, length, replicate, length-replicate, arith,
}
use os_2_course_work.Raid.{
  Block, Page, bsize, zero_block, Raid, raid5_data_disk, raid5_parity_disk, phys_write_block,
  raid_setmode, raid5_write, raid5_read, raid1_write, raid1_read, raid_fail_disk, raid_restore_disk,
  raid_write, raid_read, raid_copy,
}
use os_2_course_work.Raid.Layout.{IsReady}
use os_2_course_work.Raid.Rebuild.{parity}
use os_2_course_work.Raid.Array.{guarded, IsPage}
use os_2_course_work.Raid.Pages.{lose, raid_read-write, raid_read-write_other, raid_read-copy}
use os_2_course_work.Raid.Faults.{without, raid5_read-write_degraded, raid1_read_stale}
use os_2_course_work.Raid.Xor.{length-zero_block}

unfoldable sevens : Block
sevens = replicate bsize 7

length-sevens : length sevens ≡ bsize
unfolding sevens
length-sevens = length-replicate {A = ℕ} bsize 7

abbrev sevens_page : Page
sevens_page = sevens ∷ sevens ∷ zero_block ∷ sevens ∷ []

abbrev zeros_page : Page
zeros_page = zero_block ∷ zero_block ∷ zero_block ∷ zero_block ∷ []

sevens_page-IsPage : IsPage sevens_page
sevens_page-IsPage = record {
  four = refl;
  whole = (length-sevens, (length-sevens, (length-zero_block, (length-sevens, tt))));
}

zeros_page-IsPage : IsPage zeros_page
zeros_page-IsPage = record {
  four = refl;
  whole = (length-zero_block, (length-zero_block, (length-zero_block, (length-zero_block, tt))));
}

abbrev zeros_array : Raid
zeros_array = record { sim_disk = λ d b. zero_block; disk_failed = λ d. false; raid_mode = 5 }

zeros_array-IsReady : IsReady zeros_array
zeros_array-IsReady = record { healthy = λ d. refl; sized = λ d b. length-zero_block }

-- Disk 2 has failed.
abbrev lost_two : ℕ → Bool
lost_two d = d == 2

lost_two-Tolerates : parity.Tolerates lost_two
lost_two-Tolerates = (2, λ d h ne. ground arith)

raid_read-write_example :
    (r' : Raid) × (raid_write 8 sevens_page zeros_array ≡ done r')
    × IsReady r'
    × (raid_read 8 (lose r' lost_two) ≡ done sevens_page)
raid_read-write_example =
    raid_read-write guarded 8 sevens_page zeros_array lost_two (omega arith) sevens_page-IsPage
      zeros_array-IsReady refl lost_two-Tolerates

raid_read-write_other_test :
    (r' : Raid) × (r'' : Raid) × (raid_write 12 zeros_page zeros_array ≡ done r')
    × (raid_write 8 sevens_page r' ≡ done r'')
    × (raid_read 12 (lose r'' lost_two) ≡ done zeros_page)
raid_read-write_other_test =
    raid_read-write_other guarded 8 12 sevens_page zeros_page zeros_array lost_two (omega arith)
      (omega arith) (inl (omega arith)) sevens_page-IsPage zeros_page-IsPage zeros_array-IsReady
      refl lost_two-Tolerates

raid_read-copy_test :
    (r' : Raid) × (r'' : Raid) × (raid_write 8 sevens_page zeros_array ≡ done r')
    × (raid_copy 8 10 r' ≡ done r'')
    × (raid_read 10 (lose r'' lost_two) ≡ done sevens_page)
raid_read-copy_test =
    raid_read-copy guarded 8 10 sevens_page zeros_array lost_two (omega arith) (omega arith)
      sevens_page-IsPage zeros_array-IsReady refl lost_two-Tolerates

raid5_read-write_degraded_example :
    (r' : Raid) × (raid5_write 7 sevens (without (raid5_data_disk 2 1) zeros_array) ≡ done r')
    × (raid5_read 7 r' ≡ done zero_block)
raid5_read-write_degraded_example =
    raid5_read-write_degraded 7 sevens zeros_array (omega arith) zeros_array-IsReady

raid1_read_stale_test :
    (do
      down ← raid_fail_disk 0 zeros_array
      written ← raid1_write 7 sevens down
      up ← raid_restore_disk 0 written
      raid1_read 7 up)
    ≡ done zero_block
raid1_read_stale_test = raid1_read_stale 7 sevens zeros_array (omega arith) zeros_array-IsReady

-- The parity disk turns with the stripe, and the data disks go round it.
raid5_disks_test : (raid5_parity_disk 5 ≡ 1) × (raid5_data_disk 5 0 ≡ 2) × (raid5_data_disk 5 2 ≡ 0)
raid5_disks_test = (refl, refl, refl)

phys_write_block_test : phys_write_block 4 0 sevens zeros_array ≡ panic phys_write_bad_disk
unfolding phys_write_block
phys_write_block_test = refl

raid_setmode_test : raid_setmode 3 zeros_array ≡ panic raid_invalid_mode
unfolding raid_setmode
raid_setmode_test = refl
