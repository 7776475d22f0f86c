-- ===== src/Fs/Table.antt =====
-- kernel/fs.c: the table of inodes. A pointer to an inode is its index, `none` is NULL. An inode's lock
-- is free when a routine takes it, since a process that waits for it goes on only then.
use os_2_course_work.Prelude.{
  ℕ, zero, suc, ◌+◌, ◌-◌, ◌^◌, Bool, true, false, ◌&&◌, not, List, [], ◌∷◌, Option, none, some,
  Outcome, ◌⊎◌, inl, inr, done, panic, iget_no_inodes, ilock_bad, ilock_no_type, iunlock_bad,
  invalid_file_system, ◌>>=◌, ◌==◌, int_ltb, if◌then◌else◌, u32, replicate, get_or, set, modify,
}
use os_2_course_work.Lock.{initsleeplock, releasesleep, holdingsleep}
use os_2_course_work.Fs.{Volume, Dinode, fsmagic, readsb}
use os_2_course_work.Fs.Inode.{Inode, iupdate, itrunc, write_dinode}

abbrev pub ninode : ℕ
ninode = 50

abbrev pub zero_inode : Inode
zero_inode = record {
  dev = 0;
  inum = 0;
  ref = 0;
  lock = initsleeplock;
  valid = false;
  type = 0;
  major = 0;
  minor = 0;
  nlink = 0;
  size = 0;
  addrs = λ i. 0;
}

-- `iinit` on the zeroed global.
abbrev pub iinit : List Inode
iinit = replicate ninode zero_inode

-- `pid` is the one of the process that runs, `myproc()->pid`.
pub record Fs : Type 0 where
  pub disk : Volume
  pub itable : List Inode
  pub pid : ℕ

abbrev pub inode_at : Fs → ℕ → Inode
inode_at fs i = get_or fs.itable i zero_inode

abbrev pub referred : Inode → Bool
referred ip = int_ltb 0 ip.ref

abbrev pub is_inode : ℕ → ℕ → Inode → Bool
is_inode dev inum ip = referred ip && (ip.dev == dev && ip.inum == inum)

abbrev pub first_empty : Option ℕ → ℕ → Inode → Option ℕ
first_empty none i ip = if ip.ref == 0 then some i else none
first_empty (some e) i ip = some e

-- The loop of `iget` over the entries from index `i` on: the inode, or the first empty slot.
unfoldable pub iget_loop : ℕ → ℕ → List Inode → ℕ → Option ℕ → Option ℕ ⊎ ℕ
iget_loop dev inum [] i empty = inl empty
iget_loop dev inum (ip ∷ ips) i empty = elim (is_inode dev inum ip) [
  | true ↦ inr i
  | false ↦ iget_loop dev inum ips (i + 1) (first_empty empty i ip)
]

abbrev pub raise_ref : Inode → Inode
raise_ref ip = record ip { ref = u32 (ip.ref + 1) }

abbrev pub recycle : ℕ → ℕ → Inode → Inode
recycle dev inum ip = record ip { dev = dev; inum = inum; ref = 1; valid = false }

abbrev pub iget_found : ℕ → ℕ → List Inode → Option ℕ ⊎ ℕ → Outcome (ℕ × List Inode)
iget_found dev inum table (inr i) = done (i, modify raise_ref table i)
iget_found dev inum table (inl none) = panic iget_no_inodes
iget_found dev inum table (inl (some e)) = done (e, modify (recycle dev inum) table e)

unfoldable pub iget : ℕ → ℕ → List Inode → Outcome (ℕ × List Inode)
iget dev inum table = iget_found dev inum table (iget_loop dev inum table 0 none)

unfoldable pub idup : ℕ → List Inode → List Inode
idup i table = modify raise_ref table i

-- The loop of `ialloc` from `inum` on, with `n` inodes left.
unfoldable pub ialloc_loop : ℕ → ℕ → ℕ → ℕ → Fs → Outcome (Option ℕ × Fs)
ialloc_loop zero inum dev type fs = done (none, fs)
ialloc_loop (suc n) inum dev type fs = elim ((fs.disk.dinodes inum).type == 0) [
  | false ↦ ialloc_loop n (inum + 1) dev type fs
  | true ↦
      let d : Dinode = record {
        type = type;
        major = 0;
        minor = 0;
        nlink = 0;
        size = 0;
        addrs = λ i. 0;
      } in
      iget dev inum fs.itable >>= (λ (i, table).
        done (some i, record fs { disk = write_dinode inum d fs.disk; itable = table }))
]

unfoldable pub ialloc : ℕ → ℕ → Fs → Outcome (Option ℕ × Fs)
ialloc dev type fs = ialloc_loop (fs.disk.sb.ninodes - 1) 1 dev type fs

abbrev pub from_dinode : Dinode → Inode → Inode
from_dinode d ip = record ip {
  valid = true;
  type = d.type;
  major = d.major;
  minor = d.minor;
  nlink = d.nlink;
  size = d.size;
  addrs = d.addrs;
}

abbrev pub set_inode : ℕ → Inode → Fs → Fs
set_inode i ip fs = record fs { itable = set fs.itable i ip }

unfoldable pub ilock : ℕ → Fs → Outcome Fs
ilock i fs =
    let ip : Inode = record (inode_at fs i) { lock = record { locked = true; pid = fs.pid } } in
    let read = from_dinode (fs.disk.dinodes ip.inum) ip in
    if not (referred ip)
    then panic ilock_bad
    else if ip.valid
    then done (set_inode i ip fs)
    else if read.type == 0
    then panic ilock_no_type
    else done (set_inode i read fs)

unfoldable pub iunlock : ℕ → Fs → Outcome Fs
iunlock i fs =
    let ip = inode_at fs i in
    if holdingsleep fs.pid ip.lock && referred ip
    then done (set_inode i (record ip { lock = releasesleep ip.lock }) fs)
    else panic iunlock_bad

abbrev pub lower_ref : Inode → Inode
lower_ref ip = record ip { ref = u32 (ip.ref + 2 ^ 32 - 1) }

-- What `iput` does to an inode that nothing refers to any more.
unfoldable pub free_inode : ℕ → Inode → Fs → Outcome Fs
free_inode i ip fs = do
  (ip1, disk1) ← itrunc ip fs.disk
  let ip2 : Inode = record ip1 { type = 0 }
  let ip3 : Inode = record ip2 { valid = false; lock = releasesleep ip2.lock }
  done (record fs { disk = iupdate ip2 disk1; itable = set fs.itable i ip3 })

unfoldable pub iput : ℕ → Fs → Outcome Fs
iput i fs =
    let ip = inode_at fs i in
    let last = ip.ref == 1 && (ip.valid && ip.nlink == 0) in
    (if last then free_inode i ip fs else done fs)
    >>= (λ fs1. done (record fs1 { itable = modify lower_ref fs1.itable i }))

unfoldable pub iunlockput : ℕ → Fs → Outcome Fs
iunlockput i fs = iunlock i fs >>= iput i

abbrev pub reclaim : ℕ → ℕ → Fs → Outcome Fs
reclaim dev inum fs =
    iget dev inum fs.itable
    >>= (λ (i, table). ilock i (record fs { itable = table }) >>= iunlock i >>= iput i)

-- The loop of `ireclaim` from `inum` on, with `n` inodes left.
unfoldable pub ireclaim_loop : ℕ → ℕ → ℕ → Fs → Outcome Fs
ireclaim_loop zero inum dev fs = done fs
ireclaim_loop (suc n) inum dev fs =
    let d = fs.disk.dinodes inum in
    (if not (d.type == 0) && d.nlink == 0 then reclaim dev inum fs else done fs)
    >>= ireclaim_loop n (inum + 1) dev

unfoldable pub ireclaim : ℕ → Fs → Outcome Fs
ireclaim dev fs = ireclaim_loop (fs.disk.sb.ninodes - 1) 1 dev fs

-- `initlog`, between the check and `ireclaim`, is modelled with the log.
unfoldable pub fsinit : ℕ → Fs → Outcome Fs
fsinit dev fs =
    let disk = readsb fs.disk in
    if disk.sb.magic == fsmagic
    then ireclaim dev (record fs { disk = disk })
    else panic invalid_file_system
