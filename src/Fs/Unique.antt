-- ===== src/Fs/Unique.antt =====
-- No inode stands twice in the table, also after `iget`.
use os_2_course_work.Prelude.{
  ℕ, ◌≡◌, ◌≢◌, ◌⊎◌, inl, inr, sym, ap, ◌∙◌, true, List, done, done_done, panic_done, true-false,
  Bool-cases, ==_iff, ◌==◌, arith,
}
use mathlib.Core.Path.{subst}
use os_2_course_work.Fs.Inode.{Inode}
use os_2_course_work.Fs.Table.{referred, is_inode, iget}
use os_2_course_work.Fs.Iget.{entry, Got, Filled, iget_lem}

-- The entry is referred to and of inode `n` of device `d`.
pub record Named (d n : ℕ) (ip : Inode) : Type 0 where
  pub live : referred ip ≡ true
  pub dev : ip.dev ≡ d
  pub inum : ip.inum ≡ n

-- No inode stands twice in the table.
abbrev pub Unique : List Inode → Type 0
Unique table = (i j d n : ℕ) → Named d n (entry table i) → Named d n (entry table j) → i ≡ j

-- Entries only stop being referred to.
abbrev pub Kept : List Inode → List Inode → Type 0
Kept table table' = (i d n : ℕ) → Named d n (entry table' i) → Named d n (entry table i)

pub Kept-Unique : (table table' : List Inode) → Kept table table' → Unique table → Unique table'
Kept-Unique table table' k u i j d n p q = u i j d n (k i d n p) (k j d n q)

Named-is_inode : (d n : ℕ) (ip : Inode) → Named d n ip → is_inode d n ip ≡ true
Named-is_inode d n ip p = rw p.live (ground arith)

is_inode-Named : (d n : ℕ) (ip : Inode) → is_inode d n ip ≡ true → Named d n ip
is_inode-Named d n ip h = elim (Bool-cases (referred ip)) [
  | inl live ↦
      let same = rw live at h in record { live = live; dev = ground arith; inum = ground arith }
  | inr dead ↦ absurd (true-false (sym (rw dead at h)))
]

-- Entry `j` is as it was, or it is entry `i` with the inode as it was.
abbrev pub Touched : List Inode → List Inode → ℕ → ℕ → Type 0
Touched table table' i j =
    (entry table' j ≡ entry table j)
    ⊎ ((j ≡ i)
        × ((entry table' j).dev ≡ (entry table i).dev)
        × ((entry table' j).inum ≡ (entry table i).inum))

-- A change of an entry that is referred to, which leaves its inode.
pub Touched-Kept :
    (table table' : List Inode) (i : ℕ)
    → referred (entry table i) ≡ true
    → ((j : ℕ) → Touched table table' i j)
    → Kept table table'
Touched-Kept table table' i live h j d n p = elim (h j) [
  | inl e ↦ subst (Named d n) e p
  | inr (e, same_dev, same_inum) ↦
      subst (λ k. Named d n (entry table k)) (sym e)
        (record { live = live; dev = sym same_dev ∙ p.dev; inum = sym same_inum ∙ p.inum })
]

-- The entry that `iget` found.
Got-Unique :
    (dev inum : ℕ) (table : List Inode) (i : ℕ) (table' : List Inode)
    → Got dev inum table i table'
    → Unique table
    → Unique table'
Got-Unique dev inum table i table' g = Kept-Unique table table' (
    Touched-Kept table table' i (is_inode-Named dev inum (entry table i) g.found).live (λ j.
      elim (Bool-cases (i == j)) [
        | inr other ↦ inl (g.kept j (ground arith))
        | inl same ↦
            let e : i ≡ j = ground arith in
            inr (
              sym e,
              ap (λ k. (entry table' k).dev) (sym e) ∙ ap (λ x. x.dev) g.raised,
              ap (λ k. (entry table' k).inum) (sym e) ∙ ap (λ x. x.inum) g.raised,
            )
      ]))

-- A free entry that `iget` filled: no other is of its inode.
Filled-Unique :
    (dev inum : ℕ) (table : List Inode) (i : ℕ) (table' : List Inode)
    → Filled dev inum table i table'
    → Unique table
    → Unique table'
Filled-Unique dev inum table i table' f u j k d n p q = elim (Bool-cases (i == j)) [
  | inl a ↦ elim (Bool-cases (i == k)) [
    | inl b ↦ sym ((==_iff i j).0 a) ∙ (==_iff i k).0 b
    | inr b ↦ absurd (
        clash k (ground arith) q
          (subst (λ m. Named d n (entry table' m)) (sym ((==_iff i j).0 a)) p))
  ]
  | inr a ↦ elim (Bool-cases (i == k)) [
    | inl b ↦ absurd (
        clash j (ground arith) p
          (subst (λ m. Named d n (entry table' m)) (sym ((==_iff i k).0 b)) q))
    | inr b ↦
        u j k d n (subst (Named d n) (f.kept j (ground arith)) p)
          (subst (Named d n) (f.kept k (ground arith)) q)
  ]
]
  where
    clash : (m : ℕ) → i ≢ m → Named d n (entry table' m) → Named d n (entry table' i) → ⊥
    clash m ne at_m at_i =
        let filled = subst (Named d n) f.filled at_i in
        let other = subst (Named d n) (f.kept m ne) at_m in
        true-false (
          sym (
            Named-is_inode dev inum (entry table m) (record {
              live = other.live;
              dev = other.dev ∙ sym filled.dev;
              inum = other.inum ∙ sym filled.inum;
            }))
          ∙ f.absent m)

pub iget-Unique :
    (dev inum : ℕ) (table : List Inode) (i : ℕ) (table' : List Inode)
    → Unique table
    → iget dev inum table ≡ done (i, table')
    → Unique table'
iget-Unique dev inum table i table' u h = elim (iget_lem dev inum table) [
  | inl (e, _) ↦ absurd (panic_done (sym e ∙ h))
  | inr (k, made, e, how) ↦
      let same : made ≡ table' = ap (λ r. r.1) (done_done (sym e ∙ h)) in
      subst Unique same (elim how [
        | inl got ↦ Got-Unique dev inum table k made got u
        | inr filled ↦ Filled-Unique dev inum table k made filled u
      ])
]
