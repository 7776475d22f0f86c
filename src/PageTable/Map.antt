-- ===== src/PageTable/Map.antt =====
-- `mappages` of one page, as the memory of a process calls it.
use os_2_course_work.Prelude.{
  done_done, true-false, some-none, some-some, ℕ, zero, suc, ◌%◌, ◌<◌, ◌≤◌, ◌≡◌, ◌≢◌, inl, inr,
  refl, sym, ap, ◌∙◌, Bool-cases, false, true, some, none, Option, done, ◌==◌, leb, length, arith,
}
use os_2_course_work.Memory.{Memory, pgsize}
use os_2_course_work.PageTable.{
  Tables, Place, maxva, pte_at, set_pte, pte2pa, pte_v, has_flag, flag_u, px, walk_down, walk_alloc,
  walkaddr, pa_of_place, leaf, map_loop, mappages,
}
use os_2_course_work.PageTable.Walk.{
  walk_lem, pte_at-set_pte_self, pte_at-set_pte_ne, Place-cases, walk_down-valid, walk_down-invalid,
}
use os_2_course_work.PageTable.Sound.{Live, IsSound, Keeps}
use os_2_course_work.PageTable.Grow.{alloc_down-Found}

-- What `mappages` leaves of one page.
pub record Entered (pagetable va pa perm : ℕ) (mem : Memory) (tables : Tables) : Type 0 where
  pub place : Place
  pub after : Memory
  pub grown : Tables
  pub returns : mappages pagetable va pgsize pa perm mem tables ≡ done (true, after, grown)
  pub sound : IsSound after grown
  pub live : (t : ℕ) → Live mem t → Live after t
  pub keeps : Keeps mem tables grown
  pub found : walk_down 2 grown pagetable va ≡ some place
  pub entry : pte_at grown place ≡ leaf pa perm

-- No page is mapped at the address.
abbrev pub Unmapped : Tables → ℕ → ℕ → Type 0
Unmapped tables pagetable va =
    (q : Place) → walk_down 2 tables pagetable va ≡ some q → pte_v (pte_at tables q) ≡ false

pub leaf_pa : (pa perm : ℕ) → pa % pgsize ≡ 0 → perm < 1024 → pte2pa (leaf pa perm) ≡ pa
leaf_pa pa perm a h = ground arith

pub leaf_valid : (pa perm : ℕ) → pte_v (leaf pa perm) ≡ true
leaf_valid pa perm = ground arith

-- Entering a live page over an entry that is not valid.
set_pte-IsSound :
    (mem : Memory) (tables : Tables) (place : Place) (e : ℕ)
    → IsSound mem tables
    → Live mem (pte2pa e)
    → IsSound mem (set_pte tables place e)
set_pte-IsSound mem tables place e s live = record {
  free = s.free;
  closed = λ q l valid. elim (Place-cases q place) [
    | inl (a, b) ↦
        let here : pte_at (set_pte tables place e) q ≡ e =
          rw (a, b) (pte_at-set_pte_self tables place e) in
        rw here live
    | inr ne ↦
        let same = pte_at-set_pte_ne tables place q e ne in
        rw same (s.closed q l (ap pte_v (sym same) ∙ valid))
  ];
}

set_pte-Keeps :
    (mem : Memory) (tables : Tables) (place : Place) (e : ℕ)
    → pte_v (pte_at tables place) ≡ false
    → Keeps mem tables (set_pte tables place e)
set_pte-Keeps mem tables place e invalid q l valid = elim (Place-cases q place) [
  | inl (a, b) ↦
      let same : pte_at tables q ≡ pte_at tables place = rw (a, b) refl in
      absurd (true-false (sym valid ∙ ap pte_v same ∙ invalid))
  | inr ne ↦ pte_at-set_pte_ne tables place q e ne
]

-- A walk along valid entries that are kept ends at the same place.
pub walk_down-Keeps :
    (level : ℕ) (mem : Memory) (tables tables' : Tables) (t va : ℕ) (q : Place)
    → IsSound mem tables
    → Keeps mem tables tables'
    → Live mem t
    → walk_down level tables t va ≡ some q
    → (walk_down level tables' t va ≡ some q) × Live mem q.0
unfolding walk_down
walk_down-Keeps zero mem tables tables' t va q s k l h =
    let e : (t, px 0 va) ≡ q = some-some h in (h, rw (← e) l)
walk_down-Keeps (suc level) mem tables tables' t va q s k l h =
    let at : Place = (t, px (suc level) va) in
    elim (Bool-cases (pte_v (pte_at tables at))) [
      | inl valid ↦
          let same = k at l valid in
          let below =
            walk_down-Keeps level mem tables tables' (pte2pa (pte_at tables at)) va q s k
              (s.closed at l valid) (sym (walk_down-valid level tables t va valid) ∙ h) in
          (walk_down-valid level tables' t va (ap pte_v same ∙ valid) ∙ (rw same below.0), below.1)
      | inr invalid ↦ absurd (some-none (sym h ∙ walk_down-invalid level tables t va invalid))
    ]

-- One page.
pub mappages-Entered :
    (pagetable va pa perm : ℕ) (mem : Memory) (tables : Tables)
    → va % pgsize ≡ 0
    → va < maxva
    → pa % pgsize ≡ 0
    → perm < 1024
    → IsSound mem tables
    → Live mem pagetable
    → Live mem pa
    → 2 ≤ length mem.freelist
    → Unmapped tables pagetable va
    → Entered pagetable va pa perm mem tables
unfolding mappages map_loop walk_alloc
mappages-Entered pagetable va pa perm mem tables a h pa_a small s l pa_l two unmapped =
    let f = alloc_down-Found 2 pagetable va mem tables s l two in
    let e = leaf pa perm in
    let invalid : pte_v (pte_at f.grown f.place) ≡ false = elim f.entry [
      | inl (there, same) ↦ ap pte_v same ∙ unmapped f.place there
      | inr z ↦ ap pte_v z
    ] in
    let first = set_pte-Keeps f.after f.grown f.place e invalid in
    let keeps : Keeps mem tables (set_pte f.grown f.place e) = λ q live valid.
      let old = f.keeps q live valid in first q (f.live q.0 live) (ap pte_v old ∙ valid) ∙ old in
    let kept : IsSound f.after (set_pte f.grown f.place e) =
      set_pte-IsSound f.after f.grown f.place e f.sound
        (rw (leaf_pa pa perm pa_a small) (f.live pa pa_l)) in
    record {
      place = f.place;
      after = f.after;
      grown = set_pte f.grown f.place e;
      returns =
          let aligned : (va % pgsize == 0) ≡ true = ground arith in
          let low : leb maxva va ≡ false = ground arith in
          rw (aligned, low, f.returns, invalid) refl;
      sound = kept;
      live = f.live;
      keeps = keeps;
      found =
          (walk_down-Keeps 2 f.after f.grown (set_pte f.grown f.place e) pagetable va f.place
            f.sound first (f.live pagetable l) f.found).0;
      entry = pte_at-set_pte_self f.grown f.place e;
    }

pub walkaddr_lem :
    (tables : Tables) (pagetable va : ℕ)
    → va < maxva
    → walkaddr tables pagetable va ≡ done (pa_of_place tables (walk_down 2 tables pagetable va))
unfolding walkaddr
walkaddr_lem tables pagetable va h =
    let low : leb maxva va ≡ false = ground arith in rw (low, walk_lem tables pagetable va h) refl

pub leaf_user :
    (pa perm : ℕ)
    → perm < 1024
    → has_flag flag_u perm ≡ true
    → has_flag flag_u (leaf pa perm) ≡ true
leaf_user pa perm small user = ground arith

-- A translation to a page other than 0 comes from a valid entry.
translated :
    (tables : Tables) (o : Option Place) (pa : ℕ)
    → pa_of_place tables o ≡ pa
    → pa ≢ 0
    → (q : Place) × (o ≡ some q) × (pte_v (pte_at tables q) ≡ true)
translated tables none pa e ne = absurd (ne (sym e))
translated tables (some q) pa e ne = elim (Bool-cases (pte_v (pte_at tables q))) [
  | inl valid ↦ (q, refl, valid)
  | inr invalid ↦
      let zero_pa : pa_of_place tables (some q) ≡ 0 = rw invalid refl in
      absurd (ne (sym e ∙ zero_pa))
]

-- In tables that share no page with the free list, for an aligned address below `MAXVA` at which no
-- page is mapped, a live aligned page and flags below 1024 with `PTE_U`, if the free list has two
-- pages left, `mappages` of one page returns 0; from then on `walkaddr` translates the address to that
-- page, and every address that it translated before to the same page as before. No table shares a
-- page with the free list.
pub walkaddr-mappages :
    (pagetable va pa perm : ℕ) (mem : Memory) (tables : Tables)
    → va % pgsize ≡ 0
    → va < maxva
    → pa % pgsize ≡ 0
    → perm < 1024
    → has_flag flag_u perm ≡ true
    → IsSound mem tables
    → Live mem pagetable
    → Live mem pa
    → 2 ≤ length mem.freelist
    → Unmapped tables pagetable va
    → (mem' : Memory) × (tables' : Tables) × (mappages pagetable va pgsize pa perm mem tables
        ≡ done (true, mem', tables'))
      × IsSound mem' tables'
      × (walkaddr tables' pagetable va ≡ done pa)
      × ((other pa' : ℕ)
          → other < maxva
          → pa' ≢ 0
          → walkaddr tables pagetable other ≡ done pa'
          → walkaddr tables' pagetable other ≡ done pa')
walkaddr-mappages pagetable va pa perm mem tables a h pa_a small user s l pa_l two unmapped =
    let t = mappages-Entered pagetable va pa perm mem tables a h pa_a small s l pa_l two unmapped in
    (
      t.after,
      t.grown,
      t.returns,
      t.sound,
      walkaddr_lem t.grown pagetable va h
          ∙ (rw
              (
                t.found,
                t.entry,
                leaf_valid pa perm,
                leaf_user pa perm small user,
                leaf_pa pa perm pa_a small,
              )
              refl),
      λ other pa' low ne old.
          let was : pa_of_place tables (walk_down 2 tables pagetable other) ≡ pa' =
            done_done (sym (walkaddr_lem tables pagetable other low) ∙ old) in
          let (q, there, valid) =
            translated tables (walk_down 2 tables pagetable other) pa' was ne in
          let still = walk_down-Keeps 2 mem tables t.grown pagetable other q s t.keeps l there in
          let same : pa_of_place t.grown (some q) ≡ pa_of_place tables (some q) =
            rw (t.keeps q still.1 valid) refl in
          walkaddr_lem t.grown pagetable other low
          ∙ ap done (
              ap (pa_of_place t.grown) still.0
              ∙ (same ∙ (ap (pa_of_place tables) (sym there) ∙ was))),
    )
