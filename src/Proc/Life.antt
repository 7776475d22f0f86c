-- ===== src/Proc/Life.antt =====
-- Creation and removal of processes: `allocproc`, `freeproc`, and the flag that a reused entry keeps.
use os_2_course_work.Prelude.{
  ℕ, suc, ◌+◌, ◌≡◌, ◌≢◌, ◌↔◌, ◌⊎◌, inl, inr, refl, ◌∙◌, false, Option, some, List, [], ◌∷◌, map,
  get_elem?, arith, ◌==◌, get_elem?-modify_self, get_elem?-modify_ne, ==_iff, Bool-cases, u32,
}
use os_2_course_work.Frames.{FrameEntry, same_proc}
use os_2_course_work.Swap.{SwapSlot}
use os_2_course_work.Proc.{
  unused, Proc, Kernel, FreeMemory, find_unused, fresh_proc, cleared_proc, drop_frame, drop_slot,
  freeproc, allocpid, allocproc, allocproc_found, set_trapframe, set_pagetable, killed_proc, kkill,
}

-- `i` is the first process from which the search counts that is unused.
pub record FirstUnused (ps : List Proc) (i : ℕ) : Type 0 where
  pub entry : Proc
  pub at_place : get_elem? ps i ≡ some entry
  pub free : entry.state ≡ unused

abbrev pub NoneUnused : List Proc → Type 0
NoneUnused [] = Unit {0}
NoneUnused (p ∷ ps) = (p.state ≢ unused) × NoneUnused ps

-- The entry of a process right after `allocproc`, given the two pages and the pid.
abbrev pub born : ℕ → ℕ → ℕ → Proc → Proc
born pid t table p = set_pagetable (some table) (set_trapframe (some t) (fresh_proc pid p))

-- What a successful `allocproc` leaves at index `i`.
pub record Born (i t table : ℕ) (k : Kernel) (result : Kernel × Option ℕ) : Type 0 where
  pub old : Proc
  pub was : get_elem? k.procs i ≡ some old
  pub was_unused : old.state ≡ unused
  pub returned : result.1 ≡ some i
  pub now : get_elem? result.0.procs i ≡ some (born k.nextpid t table old)
  pub others : (j : ℕ) → i ≢ j → get_elem? result.0.procs j ≡ get_elem? k.procs j
  pub next : result.0.nextpid ≡ u32 (k.nextpid + 1)

born_lem :
    (free_memory : FreeMemory) (i t table : ℕ) (k : Kernel)
    → FirstUnused k.procs i
    → Born i t table k (allocproc_found free_memory i (some t) (some table) k)
unfolding allocproc_found allocpid
born_lem free_memory i t table k f = record {
  old = f.entry;
  was = f.at_place;
  was_unused = f.free;
  returned = refl;
  now = get_elem?-modify_self (set_pagetable (some table)) _ i _ (
      get_elem?-modify_self (set_trapframe (some t)) _ i _
        (get_elem?-modify_self (fresh_proc k.nextpid) k.procs i f.entry f.at_place));
  others = λ j ne.
      get_elem?-modify_ne (set_pagetable (some table)) _ i j ne
      ∙ (get_elem?-modify_ne (set_trapframe (some t)) _ i j ne
          ∙ get_elem?-modify_ne (fresh_proc k.nextpid) k.procs i j ne);
  next = refl;
}

-- No frame in use belongs to the process.
abbrev pub NoFrame : ℕ → List FrameEntry → Type 0
NoFrame i [] = Unit {0}
NoFrame i (f ∷ fs) = (same_proc f.proc (some i) ≡ false) × NoFrame i fs

abbrev pub NoSlot : ℕ → List SwapSlot → Type 0
NoSlot i [] = Unit {0}
NoSlot i (s ∷ ss) = (same_proc s.proc (some i) ≡ false) × NoSlot i ss

drop_frame-NoFrame : (i : ℕ) (fs : List FrameEntry) → NoFrame i (map (drop_frame i) fs)
drop_frame-NoFrame i [] = tt
drop_frame-NoFrame i (f ∷ fs) = (ground arith, drop_frame-NoFrame i fs)

drop_slot-NoSlot : (i : ℕ) (ss : List SwapSlot) → NoSlot i (map (drop_slot i) ss)
drop_slot-NoSlot i [] = tt
drop_slot-NoSlot i (s ∷ ss) = (ground arith, drop_slot-NoSlot i ss)

-- `freeproc` leaves the entry unused, with pid 0, no parent and no kill mark, and leaves neither a
-- frame nor a swap slot to the process; the other processes stay as they were.
pub freeproc_lem :
    (free_memory : FreeMemory) (i : ℕ) (k : Kernel) (p : Proc)
    → get_elem? k.procs i ≡ some p
    → (get_elem? (freeproc free_memory i k).procs i ≡ some (cleared_proc p))
      × NoFrame i (freeproc free_memory i k).frame_table
      × NoSlot i (freeproc free_memory i k).swap_space
      × ((j : ℕ) → i ≢ j → get_elem? (freeproc free_memory i k).procs j ≡ get_elem? k.procs j)
unfolding freeproc
freeproc_lem free_memory i k p e = (
  get_elem?-modify_self cleared_proc k.procs i p e,
  drop_frame-NoFrame i _,
  drop_slot-NoSlot i _,
  λ j ne. get_elem?-modify_ne cleared_proc k.procs i j ne,
)

-- A table in which exactly the unused processes have pid 0.
abbrev pub PidsMatch : List Proc → Type 0
PidsMatch [] = Unit {0}
PidsMatch (p ∷ ps) = ((p.state ≡ unused) ↔ (p.pid ≡ 0)) × PidsMatch ps

-- What `kkill 0` leaves for the next search for an unused process.
pub record Marked (ps : List Proc) (i : ℕ) : Type 0 where
  pub after : List Proc
  pub place : ℕ
  pub entry : Proc
  pub returns : kkill 0 ps ≡ some after
  pub found : find_unused after i ≡ some (i + place)
  pub at_place : get_elem? after place ≡ some entry
  pub free : entry.state ≡ unused
  pub marked : entry.killed ≡ 1

Marked-cons :
    (p : Proc) (ps : List Proc) (i : ℕ)
    → p.pid ≢ 0
    → p.state ≢ unused
    → Marked ps (i + 1)
    → Marked (p ∷ ps) i
Marked-cons p ps i np ns m = record {
  after = p ∷ m.after;
  place = suc m.place;
  entry = m.entry;
  returns = unfold kkill in ground (arith, m.returns);
  found = unfold find_unused in ground (arith, m.found);
  at_place = m.at_place;
  free = m.free;
  marked = m.marked;
}

Marked-head : (p : Proc) (ps : List Proc) (i : ℕ) → p.pid ≡ 0 → p.state ≡ unused → Marked (p ∷ ps) i
Marked-head p ps i np ns = record {
  after = killed_proc p ∷ ps;
  place = 0;
  entry = killed_proc p;
  returns = unfold kkill in ground arith;
  found = unfold find_unused in ground arith;
  at_place = refl;
  free = ground arith;
  marked = refl;
}

kkill_zero : (ps : List Proc) (i : ℕ) → PidsMatch ps → NoneUnused ps ⊎ Marked ps i
kkill_zero [] i h = inl tt
kkill_zero (p ∷ ps) i h = elim (Bool-cases (p.pid == 0)) [
  | inl z ↦ inr (Marked-head p ps i ((==_iff p.pid 0).0 z) (h.0.1 ((==_iff p.pid 0).0 z)))
  | inr z ↦
      let np : p.pid ≢ 0 = ground arith in
      elim (kkill_zero ps (i + 1) h.1) [
        | inl n ↦ inl ((λ e. np (h.0.0 e)), n)
        | inr m ↦ inr (Marked-cons p ps i np (λ e. np (h.0.0 e)) m)
      ]
]

-- In a table where exactly the unused processes have the pid 0: if some process is unused, `kkill
-- 0` succeeds and marks an unused entry as killed, and the next process that `allocproc` creates,
-- given both pages, is that entry, born with the mark.
pub kkill_zero-allocproc :
    (free_memory : FreeMemory) (t table : ℕ) (k : Kernel)
    → PidsMatch k.procs
    → NoneUnused k.procs
      ⊎ ((ps : List Proc) × (i : ℕ) × (p : Proc) × (kkill 0 k.procs ≡ some ps)
          × ((allocproc free_memory (some t) (some table) (record k { procs = ps })).1 ≡ some i)
          × (get_elem?
                (allocproc free_memory (some t) (some table) (record k { procs = ps })).0.procs
                i
              ≡ some p)
          × (p.killed ≡ 1))
unfolding allocproc born_lem
kkill_zero-allocproc free_memory t table k h = elim (kkill_zero k.procs 0 h) [
  | inl n ↦ inl n
  | inr m ↦
      let e : 0 + m.place ≡ m.place = omega arith in
      let b =
        born_lem free_memory m.place t table (record k { procs = m.after })
          (record { entry = m.entry; at_place = m.at_place; free = m.free }) in
      inr (
        m.after,
        m.place,
        born k.nextpid t table m.entry,
        m.returns,
        rw (m.found, e, allocproc) b.returned,
        rw (m.found, e, allocproc) b.now,
        m.marked,
      )
]
