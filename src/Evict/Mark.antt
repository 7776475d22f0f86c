-- ===== src/Evict/Mark.antt =====
-- The page-table entry and the counters of a process whose page goes to the swap area.
use os_2_course_work.Prelude.{
  ◌⊎◌, ℕ, ◌<◌, ◌≡◌, ◌≢◌, refl, true, false, Option, none, some, Outcome, done, inl, inr, Bool-cases,
  some-some, modify,
}
use os_2_course_work.Proc.{proc_at}
use os_2_course_work.PageTable.{Tables, Place, maxva, pte_at, set_pte, pte_v, walk_down}
use os_2_course_work.PageTable.Walk.{
  walk_lem, pte_at-set_pte_self, pte_at-set_pte_ne, pte_at-set_pte_invalid,
}
use os_2_course_work.Evict.{Machine, swapped_pte, mark_entry, mark_table, swapped_out, count_out}

abbrev pub entry_in : Option ℕ → ℕ → Tables → Option Place
entry_in none va tables = none
entry_in (some table) va tables = walk_down 2 tables table va

-- Where the page table of a process has its entry for an address.
abbrev pub entry_of : Option ℕ → ℕ → Machine → Option Place
entry_of none va m = none
entry_of (some o) va m = entry_in (proc_at m.procs o).pagetable va m.tables

-- What marking a page as swapped out leaves: valid entries and counters are all that changes.
pub record Marked (place : Option Place) (slot : ℕ) (m : Machine) (r : Outcome Machine)
    : Type 0 where
  pub after : Machine
  pub returns : r ≡ done after
  pub mem : after.mem ≡ m.mem
  pub clock : after.clock ≡ m.clock
  pub swap : after.swap ≡ m.swap
  pub raid : after.raid ≡ m.raid
  pub kept :
      (q : Place) → pte_v (pte_at m.tables q) ≡ false → pte_at after.tables q ≡ pte_at m.tables q
  pub apart :
      (here q : Place)
      → place ≡ some here
      → (q.0 ≢ here.0) ⊎ (q.1 ≢ here.1)
      → pte_at after.tables q ≡ pte_at m.tables q
  pub marked :
      (q : Place)
      → place ≡ some q
      → pte_v (pte_at m.tables q) ≡ true
      → pte_at after.tables q ≡ swapped_pte slot (pte_at m.tables q)

-- Nothing to mark.
unmarked : (slot : ℕ) (m : Machine) → Marked none slot m (done m)
unmarked slot m = record {
  after = m;
  returns = refl;
  mem = refl;
  clock = refl;
  swap = refl;
  raid = refl;
  kept = λ q h. refl;
  apart = λ here q e ne. refl;
  marked = λ q e. cc;
}

mark_entry-Marked :
    (slot : ℕ) (place : Option Place) (m : Machine)
    → Marked place slot m (done (mark_entry slot place m))
mark_entry-Marked slot none m = unmarked slot m
mark_entry-Marked slot (some place) m = elim (Bool-cases (pte_v (pte_at m.tables place))) [
  | inl valid ↦
      let e = swapped_pte slot (pte_at m.tables place) in
      record {
        after = record m { tables = set_pte m.tables place e };
        returns = rw valid refl;
        mem = refl;
        clock = refl;
        swap = refl;
        raid = refl;
        kept = λ q h. pte_at-set_pte_invalid m.tables place q e valid h;
        apart = λ here q same ne.
            let at_here : place ≡ here = some-some same in
            pte_at-set_pte_ne m.tables place q e (rw at_here ne);
        marked = λ q same h.
            let at_q : place ≡ q = some-some same in
            rw (← at_q) (pte_at-set_pte_self m.tables place e);
      }
  | inr invalid ↦ record {
    after = m;
    returns = rw invalid refl;
    mem = refl;
    clock = refl;
    swap = refl;
    raid = refl;
    kept = λ q h. refl;
    apart = λ here q same ne. refl;
    marked = λ q same h.
        let at_q : place ≡ q = some-some same in
        let clash : pte_v (pte_at m.tables place) ≡ true = rw at_q h in cc;
  }
]

mark_table-Marked :
    (slot : ℕ) (table : Option ℕ) (va : ℕ) (m : Machine)
    → va < maxva
    → Marked (entry_in table va m.tables) slot m (mark_table table va slot m)
mark_table-Marked slot none va m h = unmarked slot m
mark_table-Marked slot (some table) va m h =
    let e = walk_lem m.tables table va h in
    rw e (mark_entry-Marked slot (walk_down 2 m.tables table va) m)

pub swapped_out-Marked :
    (owner : Option ℕ) (va slot : ℕ) (m : Machine)
    → va < maxva
    → Marked (entry_of owner va m) slot m (swapped_out owner va slot m)
swapped_out-Marked none va slot m h = unmarked slot m
swapped_out-Marked (some v) va slot m h =
    let u = mark_table-Marked slot (proc_at m.procs v).pagetable va m h in
    record {
      after = record u.after { procs = modify count_out u.after.procs v };
      returns = rw u.returns refl;
      mem = u.mem;
      clock = u.clock;
      swap = u.swap;
      raid = u.raid;
      kept = u.kept;
      apart = u.apart;
      marked = u.marked;
    }
