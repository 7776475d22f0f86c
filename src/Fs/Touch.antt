-- ===== src/Fs/Touch.antt =====
-- Routines that change an in-memory inode leave it the same inode.
use os_2_course_work.Prelude.{
  ℕ, zero, suc, ◌+◌, ◌≡◌, inl, inr, sym, ap, ◌∙◌, true, List, Outcome, done, done_done, bind_done,
  Bool-cases, ◌>>=◌, ◌==◌, set, modify, get_or-modify, get_or-set,
}
use os_2_course_work.Fs.{Volume, ndirect, nindirect, bfree}
use os_2_course_work.Fs.Inode.{
  Inode, iupdate, set_addr, free_addrs, free_words, free_indirect, itrunc,
}
use os_2_course_work.Fs.Table.{zero_inode, referred}
use os_2_course_work.Fs.Iget.{entry}
use os_2_course_work.Fs.Unique.{Unique, Kept-Unique, Touched, Touched-Kept}

-- Two in-memory inodes are of the same inode on disk.
abbrev pub SameInode : Inode → Inode → Type 0
SameInode a b = (a.dev ≡ b.dev) × (a.inum ≡ b.inum)

pub set-Touched :
    (table : List Inode) (i : ℕ) (ip : Inode)
    → SameInode ip (entry table i)
    → (j : ℕ) → Touched table (set table i ip) i j
set-Touched table i ip same j = elim (get_or-set table i j ip zero_inode) [
  | inl e ↦ inl e
  | inr (e, v) ↦ inr (e, ap (λ x. x.dev) v ∙ same.0, ap (λ x. x.inum) v ∙ same.1)
]

pub set-Unique :
    (table : List Inode) (i : ℕ) (ip : Inode)
    → referred (entry table i) ≡ true
    → SameInode ip (entry table i)
    → Unique table
    → Unique (set table i ip)
set-Unique table i ip live same =
    Kept-Unique table (set table i ip)
      (Touched-Kept table (set table i ip) i live (set-Touched table i ip same))

-- A new count.
pub count-Touched :
    (f : Inode → Inode) (table : List Inode) (i : ℕ)
    → ((ip : Inode) → SameInode (f ip) ip)
    → (j : ℕ) → Touched table (modify f table i) i j
count-Touched f table i same j = elim (get_or-modify f table i j zero_inode) [
  | inl e ↦ inl e
  | inr (e, v) ↦ inr (
    e,
    ap (λ x. x.dev) v ∙ (same (entry table j)).0 ∙ ap (λ k. (entry table k).dev) e,
    ap (λ x. x.inum) v ∙ (same (entry table j)).1 ∙ ap (λ k. (entry table k).inum) e,
  )
]

free_addrs-SameInode :
    (n i : ℕ) (ip : Inode) (disk : Volume) (ip' : Inode) (disk' : Volume)
    → free_addrs n i ip disk ≡ done (ip', disk')
    → SameInode ip' ip
unfolding free_addrs
free_addrs-SameInode zero i ip disk ip' disk' h =
    let e : ip ≡ ip' = ap (λ r. r.0) (done_done h) in
    (ap (λ x. x.dev) (sym e), ap (λ x. x.inum) (sym e))
free_addrs-SameInode (suc n) i ip disk ip' disk' h = elim (Bool-cases (ip.addrs i == 0)) [
  | inl hole ↦ free_addrs-SameInode n (i + 1) ip disk ip' disk' (rw (hole, free_addrs) at h)
  | inr used ↦
      let (d, _, rest) =
        bind_done (bfree (ip.addrs i) disk) (λ d. free_addrs n (i + 1) (set_addr i 0 ip) d)
          (ip', disk') (rw (used, free_addrs) at h) in
      free_addrs-SameInode n (i + 1) (set_addr i 0 ip) d ip' disk' rest
]

free_indirect-SameInode :
    (ip : Inode) (disk : Volume) (ip' : Inode) (disk' : Volume)
    → free_indirect ip disk ≡ done (ip', disk')
    → SameInode ip' ip
unfolding free_indirect
free_indirect-SameInode ip disk ip' disk' h = elim (Bool-cases (ip.addrs ndirect == 0)) [
  | inl hole ↦
      let e : ip ≡ ip' = ap (λ r. r.0) (done_done (rw hole at h)) in
      (ap (λ x. x.dev) (sym e), ap (λ x. x.inum) (sym e))
  | inr used ↦
      let (d, _, h1) =
        bind_done (free_words nindirect 0 (ip.addrs ndirect) disk)
          (λ d. bfree (ip.addrs ndirect) d >>= (λ e. done (set_addr ndirect 0 ip, e))) (ip', disk')
          (rw used at h) in
      let (e, _, h2) =
        bind_done (bfree (ip.addrs ndirect) d) (λ e. done (set_addr ndirect 0 ip, e)) (ip', disk')
          h1 in
      let same : set_addr ndirect 0 ip ≡ ip' = ap (λ r. r.0) (done_done h2) in
      (ap (λ x. x.dev) (sym same), ap (λ x. x.inum) (sym same))
]

abbrev emptied : Inode × Volume → Outcome (Inode × Volume)
emptied (ip, d) = let ip3 : Inode = record ip { size = 0 } in done (ip3, iupdate ip3 d)

pub itrunc-SameInode :
    (ip : Inode) (disk : Volume) (ip' : Inode) (disk' : Volume)
    → itrunc ip disk ≡ done (ip', disk')
    → SameInode ip' ip
unfolding itrunc
itrunc-SameInode ip disk ip' disk' h =
    let ((ip1, d1), e1, h1) =
      bind_done (free_addrs ndirect 0 ip disk)
        (λ (r : Inode × Volume). free_indirect r.0 r.1 >>= emptied) (ip', disk') h in
    let ((ip2, d2), e2, h2) = bind_done (free_indirect ip1 d1) emptied (ip', disk') h1 in
    let same : emptied (ip2, d2) ≡ done (ip', disk') = h2 in
    let a = free_addrs-SameInode ndirect 0 ip disk ip1 d1 e1 in
    let b = free_indirect-SameInode ip1 d1 ip2 d2 e2 in
    let e = ap (λ r. r.0) (done_done same) in
    (ap (λ x. x.dev) (sym e) ∙ b.0 ∙ a.0, ap (λ x. x.inum) (sym e) ∙ b.1 ∙ a.1)
