-- ===== src/Fs/Iget.antt =====
-- What `iget` finds or fills.
use os_2_course_work.Prelude.{
  ℕ, zero, suc, ◌+◌, ◌<◌, ◌≡◌, ◌≢◌, ◌⊎◌, inl, inr, refl, sym, ap, ◌∙◌, true, false, List, [], ◌∷◌,
  Option, none, some, done, panic, iget_no_inodes, some-some, some-none, Bool-cases, ==_iff, ◌==◌,
  length, get_or, modify, get_or-modify_self, get_or-modify_ne, arith,
}
use os_2_course_work.Fs.Inode.{Inode}
use os_2_course_work.Fs.Table.{
  zero_inode, is_inode, first_empty, iget_loop, raise_ref, recycle, iget_found, iget,
}

abbrev pub entry : List Inode → ℕ → Inode
entry table i = get_or table i zero_inode

-- What the loop of `iget` ends with: an entry of the inode, or none has it and a slot that is free.
abbrev Sought : ℕ → ℕ → List Inode → ℕ → Option ℕ → Option ℕ ⊎ ℕ → Type 0
Sought dev inum table i empty (inr k) =
    (n : ℕ) × (k ≡ i + n) × (n < length table) × (is_inode dev inum (entry table n) ≡ true)
Sought dev inum table i empty (inl o) =
    ((n : ℕ) → is_inode dev inum (entry table n) ≡ false)
    × ((e : ℕ)
        → o ≡ some e
        → (empty ≡ some e)
          ⊎ ((n : ℕ) × (e ≡ i + n) × (n < length table) × ((entry table n).ref ≡ 0)))

first_empty_lem :
    (empty : Option ℕ) (i : ℕ) (ip : Inode) (e : ℕ)
    → first_empty empty i ip ≡ some e
    → (empty ≡ some e) ⊎ ((e ≡ i) × (ip.ref ≡ 0))
first_empty_lem (some f) i ip e h = inl h
first_empty_lem none i ip e h = elim (Bool-cases (ip.ref == 0)) [
  | inl free ↦ inr (sym (some-some (rw free at h)), (==_iff _ _).0 free)
  | inr used ↦ absurd (some-none (sym (rw used at h)))
]

-- An entry of another inode in front.
Sought-cons :
    (dev inum : ℕ) (ip : Inode) (ips : List Inode) (i : ℕ) (empty : Option ℕ) (r : Option ℕ ⊎ ℕ)
    → is_inode dev inum ip ≡ false
    → Sought dev inum ips (i + 1) (first_empty empty i ip) r
    → Sought dev inum (ip ∷ ips) i empty r
Sought-cons dev inum ip ips i empty (inr k) other (n, e, h, found) =
    (suc n, omega arith, omega arith, found)
Sought-cons dev inum ip ips i empty (inl o) other (none_left, slot) = (
  λ n. is_inode-cons n,
  λ e h. elim (slot e h) [
    | inl at ↦ elim (first_empty_lem empty i ip e at) [
      | inl before ↦ inl before
      | inr (here, free) ↦ inr (0, omega arith, omega arith, free)
    ]
    | inr (n, at, lt, free) ↦ inr (suc n, omega arith, omega arith, free)
  ],
)
  where
    is_inode-cons : (n : ℕ) → is_inode dev inum (entry (ip ∷ ips) n) ≡ false
    is_inode-cons zero = other
    is_inode-cons (suc n) = none_left n

iget_loop_lem :
    (dev inum : ℕ) (table : List Inode) (i : ℕ) (empty : Option ℕ)
    → Sought dev inum table i empty (iget_loop dev inum table i empty)
unfolding iget_loop
iget_loop_lem dev inum [] i empty = (λ n. refl, λ e h. inl h)
iget_loop_lem dev inum (ip ∷ ips) i empty = elim (Bool-cases (is_inode dev inum ip)) [
  | inl same ↦ rw (same, iget_loop) (0, omega arith, omega arith, same)
  | inr other ↦
      let ih = iget_loop_lem dev inum ips (i + 1) (first_empty empty i ip) in
      rw (other, iget_loop) (Sought-cons dev inum ip ips i empty _ other ih)
]

-- What `iget` makes of the table: entry `i` is of the inode, the others are kept.
pub record Got (dev inum : ℕ) (table : List Inode) (i : ℕ) (table' : List Inode) : Type 0 where
  pub found : is_inode dev inum (entry table i) ≡ true
  pub raised : entry table' i ≡ raise_ref (entry table i)
  pub kept : (j : ℕ) → i ≢ j → entry table' j ≡ entry table j

pub record Filled (dev inum : ℕ) (table : List Inode) (i : ℕ) (table' : List Inode) : Type 0 where
  pub absent : (j : ℕ) → is_inode dev inum (entry table j) ≡ false
  pub free : (entry table i).ref ≡ 0
  pub filled : entry table' i ≡ recycle dev inum (entry table i)
  pub kept : (j : ℕ) → i ≢ j → entry table' j ≡ entry table j

-- `iget` panics only if no entry is of the inode; otherwise it takes the entry of the inode and raises
-- its count, or, if there is none, fills a free entry with a count of one; no other entry changes.
pub iget_lem :
    (dev inum : ℕ) (table : List Inode)
    → ((iget dev inum table ≡ panic iget_no_inodes)
        × ((j : ℕ) → is_inode dev inum (entry table j) ≡ false))
      ⊎ ((i : ℕ) × (table' : List Inode) × (iget dev inum table ≡ done (i, table'))
          × (Got dev inum table i table' ⊎ Filled dev inum table i table'))
unfolding iget
iget_lem dev inum table = go (iget_loop dev inum table 0 none) (iget_loop_lem dev inum table 0 none)
  where
    go :
        (r : Option ℕ ⊎ ℕ)
        → Sought dev inum table 0 none r
        → ((iget_found dev inum table r ≡ panic iget_no_inodes)
            × ((j : ℕ) → is_inode dev inum (entry table j) ≡ false))
          ⊎ ((i : ℕ) × (table' : List Inode) × (iget_found dev inum table r ≡ done (i, table'))
              × (Got dev inum table i table' ⊎ Filled dev inum table i table'))
    go (inr k) (n, at, lt, found) =
        let e : n ≡ k = omega arith in
        inr (
          k,
          modify raise_ref table k,
          refl,
          inl (record {
            found = ap (λ m. is_inode dev inum (entry table m)) (sym e) ∙ found;
            raised = get_or-modify_self raise_ref table k zero_inode (omega arith);
            kept = λ j. get_or-modify_ne raise_ref table k j zero_inode;
          }),
        )
    go (inl none) (absent, slot) = inl (refl, absent)
    go (inl (some e)) (absent, slot) = elim (slot e refl) [
      | inl n ↦ absurd (some-none (sym n))
      | inr (n, at, lt, free) ↦ inr (
        e,
        modify (recycle dev inum) table e,
        refl,
        inr (record {
          absent = absent;
          free = ap (λ m. (entry table m).ref) (omega arith) ∙ free;
          filled = get_or-modify_self (recycle dev inum) table e zero_inode (omega arith);
          kept = λ j. get_or-modify_ne (recycle dev inum) table e j zero_inode;
        }),
      )
    ]
