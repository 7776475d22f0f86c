-- ===== src/Bio/Tests.antt =====
-- The properties of the buffer cache at concrete inputs, and tests of the order of use.
use os_2_course_work.Prelude.{
  ℕ, ◌<◌, ◌≡◌, ◌≢◌, ◌⊎◌, refl, sym, true, false, none, some, List, [], ◌∷◌, done, panic, no_buffers,
  brelse_bad, replicate, true-false, arith,
}
use os_2_course_work.Raid.{Block, zero_block, bsize}
use os_2_course_work.DiskSched.{DiskReq, disksched_init, uint_max}
use os_2_course_work.DiskSched.Submit.{IsIdle}
use os_2_course_work.DiskSched.Calls.{disksched_init-IsIdle}
use os_2_course_work.Bio.{
  Buf, Bcache, zero_buf, bget, find_cached, find_unused_buf, buf_at, bread, bwrite, brelse,
  at_index, take_buf,
}
use os_2_course_work.Bio.View.{view, Absent, IsCache, AllReferred}
use os_2_course_work.Bio.Get.{Read, bread_lem}
use os_2_course_work.Bio.Put.{bwrite_lem}

abbrev one_req : List DiskReq
one_req =
    record { buf = 0; write = 0; blockno = 0; priority = 0; pid = 1; valid = false; seq = 0 } ∷ []

abbrev ones : Block
ones = replicate bsize 1

-- Block 7 of device 1, changed since it was read, and held by process 5.
abbrev held_buf : Buf
held_buf = record {
  index = 1;
  valid = true;
  dev = 1;
  blockno = 7;
  lock = some 5;
  refcnt = 1;
  content = ones;
}

abbrev two_bufs : Bcache
two_bufs = record {
  bufs = held_buf ∷ zero_buf 0 ∷ [];
  disk = λ n. zero_block;
  sched = disksched_init one_req;
}

two_bufs-IsCache : IsCache 1 two_bufs.bufs two_bufs.disk
two_bufs-IsCache = record {
  own = ((λ e. absurd (omega arith), tt), (tt, tt));
  single = (λ d. (refl, tt), ((λ d. tt), tt));
  clean = (λ d valid z. absurd (omega arith), ((λ d valid z. absurd (true-false (sym valid))), tt));
}

queue-IsIdle : IsIdle two_bufs.sched
queue-IsIdle = disksched_init-IsIdle one_req (omega arith)

queue_seq : two_bufs.sched.dq_seq < uint_max
unfolding disksched_init
queue_seq = omega arith

bread_lem_example :
    ((bread 6 none 1 9 two_bufs ≡ panic no_buffers)
      × Absent 1 9 two_bufs.bufs
      × AllReferred two_bufs.bufs)
    ⊎ ((i : ℕ) × (bufs : List Buf) × (bget 1 9 two_bufs ≡ done (i, record two_bufs { bufs = bufs }))
        × ((buf_at i bufs).lock ≡ none → Read 6 none 1 9 i two_bufs))
bread_lem_example =
    bread_lem 6 none 1 9 two_bufs two_bufs-IsCache (omega arith, (omega arith, tt)) queue-IsIdle
      queue_seq (omega arith) (omega arith)

held_present : buf_at 1 two_bufs.bufs ≡ held_buf
unfolding buf_at
held_present = refl

bwrite_lem_example :
    (c' : Bcache) × (bwrite 5 none 1 two_bufs ≡ done c')
    × (c'.disk 7 ≡ view 1 two_bufs 7)
    × ((k : ℕ) → k ≢ 7 → c'.disk k ≡ two_bufs.disk k)
    × ((k : ℕ) → view 1 c' k ≡ view 1 two_bufs k)
unfolding buf_at
bwrite_lem_example =
    bwrite_lem 5 none 1 7 1 two_bufs two_bufs-IsCache (λ away. away.0 refl) refl refl refl
      queue-IsIdle queue_seq (omega arith) (omega arith)

-- The block is not cached, and the buffer that nobody refers to is the last one.
bget_reuse_test :
    bget 1 9 two_bufs
    ≡ done (
      0,
      record two_bufs {
        bufs = held_buf ∷ record (zero_buf 0) { dev = 1; blockno = 9; refcnt = 1 } ∷ [];
      },
    )
unfolding bget find_cached find_unused_buf
bget_reuse_test = refl

brelse_test :
    brelse 5 1 (record two_bufs { bufs = zero_buf 0 ∷ held_buf ∷ [] })
    ≡ done
        (record two_bufs { bufs = record held_buf { lock = none; refcnt = 0 } ∷ zero_buf 0 ∷ [] })
unfolding brelse buf_at at_index take_buf
brelse_test = refl

brelse_foreign_test : brelse 4 1 two_bufs ≡ panic brelse_bad
unfolding brelse buf_at
brelse_foreign_test = refl
