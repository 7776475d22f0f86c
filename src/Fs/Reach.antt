-- ===== src/Fs/Reach.antt =====
-- The table of inodes under every routine that changes it.
use os_2_course_work.Prelude.{
  ℕ, zero, suc, ◌+◌, ◌-◌, ◌≡◌, inl, inr, refl, sym, ap, ◌∙◌, true, false, ◌&&◌, List, Option, some,
  Outcome, done, done_done, panic_done, bind_done, true-false, Bool-cases, ◌==◌, if◌then◌else◌, set,
  modify, replicate,
}
use mathlib.Core.Path.{subst}
use os_2_course_work.Lock.{releasesleep, holdingsleep}
use os_2_course_work.Fs.{Volume, Dinode}
use os_2_course_work.Fs.Inode.{Inode, iupdate, itrunc, write_dinode}
use os_2_course_work.Fs.Table.{
  zero_inode, iinit, Fs, inode_at, referred, iget, idup, raise_ref, ialloc_loop, ialloc, ilock,
  iunlock, lower_ref, free_inode, iput,
}
use os_2_course_work.Fs.Iget.{entry}
use os_2_course_work.Fs.Unique.{Unique, Kept-Unique, Touched, Touched-Kept, iget-Unique}
use os_2_course_work.Fs.Touch.{SameInode, set-Touched, set-Unique, count-Touched, itrunc-SameInode}

-- A routine that takes or changes inodes, whose caller holds a reference where it hands one over.
-- `switch` is another process, and `change` is what the holder of a lock does by `bmap`, `readi` or `writei`: the disk may change too.
pub data Step (fs : Fs) : Fs → Type 0 where
  get :
      (dev inum i : ℕ) (table : List Inode)
      → iget dev inum fs.itable ≡ done (i, table)
      → Step fs (record fs { itable = table })
  dup :
      (i : ℕ) → referred (inode_at fs i) ≡ true → Step fs (record fs { itable = idup i fs.itable })
  alloc :
      (dev type : ℕ) (r : Option ℕ) (fs' : Fs) → ialloc dev type fs ≡ done (r, fs') → Step fs fs'
  lock : (i : ℕ) (fs' : Fs) → ilock i fs ≡ done fs' → Step fs fs'
  unlock : (i : ℕ) (fs' : Fs) → iunlock i fs ≡ done fs' → Step fs fs'
  change :
      (i : ℕ) (ip : Inode) (disk : Volume)
      → referred (inode_at fs i) ≡ true
      → SameInode ip (inode_at fs i)
      → Step fs (record fs { disk = disk; itable = set fs.itable i ip })
  release :
      (i : ℕ) (fs' : Fs) → referred (inode_at fs i) ≡ true → iput i fs ≡ done fs' → Step fs fs'
  switch : (pid : ℕ) → Step fs (record fs { pid = pid })

-- The states that a run of such steps from `iinit` on reaches.
pub data Reaches (disk : Volume) : Fs → Type 0 where
  start : (pid : ℕ) → Reaches disk (record { disk = disk; itable = iinit; pid = pid })
  then_step : (fs fs' : Fs) → Reaches disk fs → Step fs fs' → Reaches disk fs'

count-Unique :
    (f : Inode → Inode) (table : List Inode) (i : ℕ)
    → referred (entry table i) ≡ true
    → ((ip : Inode) → SameInode (f ip) ip)
    → Unique table
    → Unique (modify f table i)
count-Unique f table i live same =
    Kept-Unique table (modify f table i)
      (Touched-Kept table (modify f table i) i live (count-Touched f table i same))

ialloc_loop-Unique :
    (n inum dev type : ℕ) (fs : Fs) (r : Option ℕ) (fs' : Fs)
    → Unique fs.itable
    → ialloc_loop n inum dev type fs ≡ done (r, fs')
    → Unique fs'.itable
unfolding ialloc_loop
ialloc_loop-Unique zero inum dev type fs r fs' u h =
    subst (λ x. Unique x.itable) (ap (λ r. r.1) (done_done h)) u
ialloc_loop-Unique (suc n) inum dev type fs r fs' u h =
    elim (Bool-cases ((fs.disk.dinodes inum).type == 0)) [
      | inr used ↦ ialloc_loop-Unique n (inum + 1) dev type fs r fs' u (rw (used, ialloc_loop) at h)
      | inl free ↦
          let d : Dinode = record {
            type = type;
            major = 0;
            minor = 0;
            nlink = 0;
            size = 0;
            addrs = λ i. 0;
          } in
          let got : ℕ × List Inode → Outcome (Option ℕ × Fs) = λ (i, table).
            done (some i, record fs { disk = write_dinode inum d fs.disk; itable = table }) in
          let ((i, table), e, h1) =
            bind_done (iget dev inum fs.itable) got (r, fs') (rw (free, ialloc_loop) at h) in
          let same : got (i, table) ≡ done (r, fs') = h1 in
          subst (λ x. Unique x.itable) (ap (λ r. r.1) (done_done same))
            (iget-Unique dev inum fs.itable i table u e)
    ]

ilock-Unique : (i : ℕ) (fs fs' : Fs) → Unique fs.itable → ilock i fs ≡ done fs' → Unique fs'.itable
unfolding ilock
ilock-Unique i fs fs' u h = elim (Bool-cases (referred (inode_at fs i))) [
  | inr dead ↦ absurd (panic_done (rw dead at h))
  | inl live ↦
      let h1 = rw live at h in
      elim (Bool-cases (inode_at fs i).valid) [
        | inl valid ↦
            subst (λ x. Unique x.itable) (done_done (rw valid at h1))
              (set-Unique fs.itable i _ live (refl, refl) u)
        | inr read ↦
            let h2 = rw read at h1 in
            elim (Bool-cases ((fs.disk.dinodes (inode_at fs i).inum).type == 0)) [
              | inl none_there ↦ absurd (panic_done (rw none_there at h2))
              | inr typed ↦
                  subst (λ x. Unique x.itable) (done_done (rw typed at h2))
                    (set-Unique fs.itable i _ live (refl, refl) u)
            ]
      ]
]

iunlock-Unique :
    (i : ℕ) (fs fs' : Fs) → Unique fs.itable → iunlock i fs ≡ done fs' → Unique fs'.itable
unfolding iunlock
iunlock-Unique i fs fs' u h = elim (Bool-cases (holdingsleep fs.pid (inode_at fs i).lock)) [
  | inr open_ ↦ absurd (panic_done (rw open_ at h))
  | inl held ↦
      let h1 = rw held at h in
      elim (Bool-cases (referred (inode_at fs i))) [
        | inr dead ↦ absurd (panic_done (rw dead at h1))
        | inl live ↦
            subst (λ x. Unique x.itable) (done_done (rw live at h1))
              (set-Unique fs.itable i _ live (refl, refl) u)
      ]
]

Touched-trans :
    (a b c : List Inode) (i : ℕ)
    → ((j : ℕ) → Touched a b i j)
    → ((j : ℕ) → Touched b c i j)
    → (j : ℕ) → Touched a c i j
Touched-trans a b c i p q j = elim (q j) [
  | inl e ↦ elim (p j) [
    | inl d ↦ inl (e ∙ d)
    | inr (at, x, y) ↦ inr (at, ap (λ z. z.dev) e ∙ x, ap (λ z. z.inum) e ∙ y)
  ]
  | inr (at, x, y) ↦ elim (p i) [
    | inl d ↦ inr (at, x ∙ ap (λ z. z.dev) d, y ∙ ap (λ z. z.inum) d)
    | inr (_, v, w) ↦ inr (at, x ∙ v, y ∙ w)
  ]
]

free_inode-Touched :
    (i : ℕ) (fs fs' : Fs)
    → free_inode i (inode_at fs i) fs ≡ done fs'
    → (j : ℕ) → Touched fs.itable fs'.itable i j
unfolding free_inode
free_inode-Touched i fs fs' h j =
    let ip = inode_at fs i in
    let cleared : Inode × Volume → Outcome Fs = λ (ip1, disk1).
      let ip2 : Inode = record ip1 { type = 0 } in
      let ip3 : Inode = record ip2 { valid = false; lock = releasesleep ip2.lock } in
      done (record fs { disk = iupdate ip2 disk1; itable = set fs.itable i ip3 }) in
    let ((ip1, disk1), e, h1) = bind_done (itrunc ip fs.disk) cleared fs' h in
    let same : cleared (ip1, disk1) ≡ done fs' = h1 in
    subst (λ x. Touched fs.itable x.itable i j) (done_done same)
      (set-Touched fs.itable i _ (itrunc-SameInode ip fs.disk ip1 disk1 e) j)

iput-Unique :
    (i : ℕ) (fs fs' : Fs)
    → referred (inode_at fs i) ≡ true
    → Unique fs.itable
    → iput i fs ≡ done fs'
    → Unique fs'.itable
unfolding iput
iput-Unique i fs fs' live u h =
    let ip = inode_at fs i in
    let last = ip.ref == 1 && (ip.valid && ip.nlink == 0) in
    let lower : Fs → Outcome Fs =
      λ fs1. done (record fs1 { itable = modify lower_ref fs1.itable i }) in
    let (fs1, e, h1) = bind_done (if last then free_inode i ip fs else done fs) lower fs' h in
    let same : lower fs1 ≡ done fs' = h1 in
    let first : (j : ℕ) → Touched fs.itable fs1.itable i j = λ j. elim (Bool-cases last) [
      | inl end ↦
          free_inode-Touched i fs fs1
            (ap (λ b. if b then free_inode i ip fs else done fs) (sym end) ∙ e) j
      | inr more ↦ inl (
          ap (λ x. entry x.itable j)
            (sym (done_done (ap (λ b. if b then free_inode i ip fs else done fs) (sym more) ∙ e))))
    ] in
    let second = count-Touched lower_ref fs1.itable i (λ ip. (refl, refl)) in
    subst (λ x. Unique x.itable) (done_done same)
      (Kept-Unique fs.itable (modify lower_ref fs1.itable i)
        (Touched-Kept fs.itable (modify lower_ref fs1.itable i) i live
          (Touched-trans fs.itable fs1.itable (modify lower_ref fs1.itable i) i first second))
        u)

Step-Unique : (fs fs' : Fs) → Step fs fs' → Unique fs.itable → Unique fs'.itable
unfolding ialloc idup
Step-Unique fs _ (get dev inum i table h) u = iget-Unique dev inum fs.itable i table u h
Step-Unique fs _ (dup i live) u = count-Unique raise_ref fs.itable i live (λ ip. (refl, refl)) u
Step-Unique fs fs' (alloc dev type r _ h) u =
    ialloc_loop-Unique (fs.disk.sb.ninodes - 1) 1 dev type fs r fs' u h
Step-Unique fs fs' (lock i _ h) u = ilock-Unique i fs fs' u h
Step-Unique fs fs' (unlock i _ h) u = iunlock-Unique i fs fs' u h
Step-Unique fs _ (change i ip disk live same) u = set-Unique fs.itable i ip live same u
Step-Unique fs fs' (release i _ live h) u = iput-Unique i fs fs' live u h
Step-Unique fs _ (switch pid) u = u

entry-replicate : (n i : ℕ) → entry (replicate n zero_inode) i ≡ zero_inode
entry-replicate zero i = refl
entry-replicate (suc n) zero = refl
entry-replicate (suc n) (suc i) = entry-replicate n i

iinit-Unique : Unique iinit
iinit-Unique i j d n p q = absurd (true-false (sym p.live ∙ ap referred (entry-replicate 50 i)))

-- However, in whichever process, `iget`, `idup`, `ialloc`, `ilock`, `iunlock`, `iput` and the changes of locked inodes follow one
-- another after `iinit`, no inode stands twice in the table: two entries that are referred to and have the
-- same device and inode number are the same entry. `idup`, `iput` and the changes are of entries that are
-- referred to.
pub Reaches-Unique : (disk : Volume) (fs : Fs) → Reaches disk fs → Unique fs.itable
Reaches-Unique disk _ (start pid) = iinit-Unique
Reaches-Unique disk fs (then_step before _ r s) =
    Step-Unique before fs s (Reaches-Unique disk before r)
