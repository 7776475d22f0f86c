-- ===== src/Evict/Out.antt =====
-- `kalloc_user` with all frames in use: where the victim's page goes, and what is lost when the swap
-- area is full.
use os_2_course_work.Prelude.{
  ◌⊎◌, ℕ, zero, suc, ◌%◌, ◌≤◌, ◌<◌, ◌≡◌, ◌≢◌, refl, ◌∙◌, ap, true, false, Option, none, some, List,
  [], ◌∷◌, done, length, set, modify, get_or-set_self, get_or-set_ne, length-set, arith,
}
use os_2_course_work.Raid.{Page}
use os_2_course_work.Raid.Layout.{Layout}
use os_2_course_work.Raid.Array.{Selects, IsPage}
use os_2_course_work.Swap.{Swap, DiskStats, max_swap, swap_alloc}
use os_2_course_work.Swap.Store.{IsSwap, InSlot, swap_write_lem}
use os_2_course_work.Frames.{FrameEntry, Clock, empty_frame, frame_at, clock_pick_victim}
use os_2_course_work.Proc.{Proc, proc_at}
use os_2_course_work.Memory.{Memory, pgsize, phystop, filled_page, fill, kfree_lem, kalloc}
use os_2_course_work.PageTable.{Place, maxva, pte_at, pte_v}
use os_2_course_work.Evict.{
  Machine, with_frame, claim_victim, unclaim, set_pa, free_frame, finish_frame, swapped_pte,
  credit_to, kalloc_user,
}
use os_2_course_work.Evict.Mark.{entry_of, swapped_out-Marked}

-- What an eviction leaves: the new page is the victim's, whose content is in the slot.
pub record Evicted {L : Layout} (sel : Selects L) (kernel_end p va slot i pa : ℕ) (content : Page)
    (w : Swap) (clock : Clock) (m : Machine) : Type 0 where
  pub after : Machine
  pub returns : kalloc_user kernel_end (some p) va m ≡ done (some pa, after)
  pub in_slot : InSlot sel slot content after.swap after.raid
  pub sound : IsSwap sel after.swap after.raid
  pub junk : after.mem.page pa ≡ filled_page 5
  pub others :
      (j : ℕ) (q : Page)
      → j < max_swap
      → j ≢ slot
      → IsPage q
      → InSlot sel j q w m.raid
      → InSlot sel j q after.swap after.raid
  pub frame :
      frame_at after.clock.frame_table i
      ≡ record { used = true; proc = some p; va = va; pa = pa; ref_bit = true; grace = 0 }
  pub frames : (j : ℕ) → i ≢ j → frame_at after.clock.frame_table j ≡ frame_at clock.frame_table j
  pub entry :
      (q : Place)
      → entry_of (frame_at clock.frame_table i).proc (frame_at clock.frame_table i).va m ≡ some q
      → pte_v (pte_at m.tables q) ≡ true
      → pte_at after.tables q ≡ swapped_pte slot (pte_at m.tables q)
  pub apart :
      (here q : Place)
      → entry_of (frame_at clock.frame_table i).proc (frame_at clock.frame_table i).va m ≡ some here
      → (q.0 ≢ here.0) ⊎ (q.1 ≢ here.1)
      → pte_at after.tables q ≡ pte_at m.tables q
  pub invalid :
      (q : Place) → pte_v (pte_at m.tables q) ≡ false → pte_at after.tables q ≡ pte_at m.tables q

fill_self : (page : ℕ → Page) (pa c : ℕ) → fill page pa c pa ≡ filled_page c
fill_self page pa c = ground arith

-- A frame that is claimed and then gets its page.
module _ (table : List FrameEntry) (i : ℕ) where
  abbrev given : ℕ → FrameEntry → List FrameEntry
  given pa f = set (set table i f) i (set_pa pa (frame_at (set table i f) i))

  pub give_self :
      (pa : ℕ) (f : FrameEntry) → i < length table → frame_at (given pa f) i ≡ set_pa pa f
  give_self pa f h =
      get_or-set_self (set table i f) i (set_pa pa (frame_at (set table i f) i)) empty_frame
        (omega (arith, length-set table i f))
      ∙ ap (set_pa pa) (get_or-set_self table i f empty_frame h)

  give_ne : (j pa : ℕ) (f : FrameEntry) → i ≢ j → frame_at (given pa f) j ≡ frame_at table j
  give_ne j pa f ne =
      get_or-set_ne (set table i f) i j (set_pa pa (frame_at (set table i f) i)) empty_frame ne
      ∙ get_or-set_ne table i j f empty_frame ne

-- Crediting a process changes no page table.
pagetable-credit :
    (stats : DiskStats) (ps : List Proc) (p v : ℕ)
    → (proc_at (modify (λ q. record q { disk = stats }) ps p) v).pagetable
      ≡ (proc_at ps v).pagetable
pagetable-credit stats [] p v = refl
pagetable-credit stats (q ∷ ps) zero zero = refl
pagetable-credit stats (q ∷ ps) zero (suc v) = refl
pagetable-credit stats (q ∷ ps) (suc p) zero = refl
pagetable-credit stats (q ∷ ps) (suc p) (suc v) = pagetable-credit stats ps p v

pagetable-credit_to :
    (stats : Option DiskStats) (ps : List Proc) (p v : ℕ)
    → (proc_at (credit_to (some p) stats ps) v).pagetable ≡ (proc_at ps v).pagetable
pagetable-credit_to none ps p v = refl
pagetable-credit_to (some s) ps p v = pagetable-credit s ps p v

entry_of-credit_to :
    (stats : Option DiskStats) (owner : Option ℕ) (p va : ℕ) (m n : Machine)
    → n.procs ≡ credit_to (some p) stats m.procs
    → n.tables ≡ m.tables
    → entry_of owner va n ≡ entry_of owner va m
entry_of-credit_to stats none p va m n e t = refl
entry_of-credit_to stats (some o) p va m n e t =
    rw (e, t, pagetable-credit_to stats m.procs p o) refl

-- When every frame is in use, the swap area is sound and a slot is free: if the victim that the
-- clock algorithm picks lies in the table and has a page of four whole blocks that `kfree` accepts,
-- `kalloc_user` returns that page. Its content is in the slot, the pages in the other slots are
-- kept, the victim's frame, and no other, is the new page's, and a valid page-table entry of the
-- victim is now the one that names the slot.
pub kalloc_user-Evicted :
    {L : Layout} (sel : Selects L) (kernel_end p va slot i : ℕ) (clock : Clock) (w : Swap)
    (m : Machine)
    → free_frame m.clock.frame_table 0 ≡ none
    → clock_pick_victim (some p) m.clock ≡ done (i, clock)
    → swap_alloc m.swap ≡ (w, some slot)
    → i < length clock.frame_table
    → slot < max_swap
    → IsSwap sel w m.raid
    → IsPage (m.mem.page (frame_at clock.frame_table i).pa)
    → (frame_at clock.frame_table i).pa % pgsize ≡ 0
    → kernel_end ≤ (frame_at clock.frame_table i).pa
    → (frame_at clock.frame_table i).pa < phystop
    → (frame_at clock.frame_table i).va < maxva
    → Evicted sel kernel_end p va slot i
        (frame_at clock.frame_table i).pa
        (m.mem.page (frame_at clock.frame_table i).pa)
        w
        clock
        m
unfolding kalloc_user finish_frame kalloc
kalloc_user-Evicted sel kernel_end p va slot i clock w m full pick alloc hi hs v pg aligned lo high
      small =
    let f = frame_at clock.frame_table i in
    let claimed = with_frame (claim_victim (some p) va) i (record m { clock = clock }) in
    let t =
      swap_write_lem sel slot (m.mem.page f.pa) f.proc f.va (some (proc_at m.procs p).disk) w m.raid
        hs pg v in
    let written = record claimed {
      swap = t.after;
      raid = t.array;
      procs = credit_to (some p) t.stats m.procs;
    } in
    let u = swapped_out-Marked f.proc f.va slot written small in
    let out = u.after in
    let freed : Memory = record {
      freelist = f.pa ∷ out.mem.freelist;
      page = fill out.mem.page f.pa 1;
    } in
    let last = finish_frame i (record out { mem = freed }) in
    record {
      after = last.1;
      returns =
          rw
            (
              full,
              kalloc_user,
              pick,
              alloc,
              t.returns,
              u.returns,
              kfree_lem kernel_end f.pa out.mem aligned lo high,
            )
            refl;
      in_slot = rw (u.swap, u.raid) t.here;
      junk = fill_self (fill out.mem.page f.pa 1) f.pa 5;
      sound = rw (u.swap, u.raid) t.valid;
      others = λ j q hj ne qg old. rw (u.swap, u.raid) (t.others j q hj ne qg old);
      frame = rw u.clock (give_self clock.frame_table i f.pa (claim_victim (some p) va f) hi);
      frames =
          λ j ne. rw u.clock (give_ne clock.frame_table i j f.pa (claim_victim (some p) va f) ne);
      entry = λ q here valid.
          u.marked q (entry_of-credit_to t.stats f.proc p f.va m written refl refl ∙ here) valid;
      apart = λ here q e ne.
          u.apart here q (entry_of-credit_to t.stats f.proc p f.va m written refl refl ∙ e) ne;
      invalid = u.kept;
    }

-- When every frame is in use and no slot is free, `kalloc_user` returns 0 and gives the victim's frame
-- up, although the victim keeps its page and its page-table entry.
pub kalloc_user-full :
    (kernel_end p va i : ℕ) (clock : Clock) (w : Swap) (m : Machine)
    → free_frame m.clock.frame_table 0 ≡ none
    → clock_pick_victim (some p) m.clock ≡ done (i, clock)
    → swap_alloc m.swap ≡ (w, none)
    → i < length clock.frame_table
    → (m' : Machine) × (kalloc_user kernel_end (some p) va m ≡ done (none, m'))
      × ((frame_at m'.clock.frame_table i).used ≡ false)
      × (m'.mem ≡ m.mem)
      × (m'.tables ≡ m.tables)
unfolding kalloc_user
kalloc_user-full kernel_end p va i clock w m full pick alloc hi =
    let f = frame_at clock.frame_table i in
    let claimed = with_frame (claim_victim (some p) va) i (record m { clock = clock }) in
    let table = set clock.frame_table i (claim_victim (some p) va f) in
    (
      with_frame unclaim i (record claimed { swap = w }),
      rw (full, kalloc_user, pick, alloc) refl,
      ap (λ (g : FrameEntry). g.used)
          (get_or-set_self table i (unclaim (frame_at table i)) empty_frame
            (omega (arith, length-set clock.frame_table i (claim_victim (some p) va f)))),
      refl,
      refl,
    )
