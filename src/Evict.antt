-- ===== src/Evict.antt =====
-- kernel/kalloc.c: the two routines that move a page of a process out of memory (`kalloc_user`,
-- `evict_page`), each as one run that no other one interrupts.
pub mod Mark
pub mod Out
pub mod Tests
use os_2_course_work.Prelude.{
  ℕ, zero, suc, ◌+◌, ◌-◌, ◌*◌, ◌/◌, ◌%◌, Bool, true, false, ◌&&◌, ◌||◌, not, Option, none, some,
  List, [], ◌∷◌, Outcome, done, panic, kfree_bad, ◌>>=◌, ◌==◌, ltb, leb, if◌then◌else◌, u32,
  minus_one, set, modify, replicate,
}
use os_2_course_work.Raid.{Block, Page, bsize, blocks_per_page, Raid}
use os_2_course_work.Swap.{Swap, DiskStats, After, swap_alloc, swap_write}
use os_2_course_work.Frames.{FrameEntry, Clock, frame_at, clock_pick_victim}
use os_2_course_work.Memory.{Memory, pgsize, kfree, kalloc}
use os_2_course_work.PageTable.{
  Tables, Place, pte_at, set_pte, pte2pa, pte_flags, has_flag, with_flag, without_flag, flag_v,
  pte_v, walk,
}
use os_2_course_work.Proc.{ProcState, unused, Proc, proc_at, is_state}

pub record Machine : Type 0 where
  pub mem : Memory
  pub clock : Clock
  pub swap : Swap
  pub raid : Raid
  pub procs : List Proc
  pub tables : Tables

abbrev pub with_frame : (FrameEntry → FrameEntry) → ℕ → Machine → Machine
with_frame f i m = record m {
  clock = record m.clock {
    frame_table = set m.clock.frame_table i (f (frame_at m.clock.frame_table i));
  };
}

abbrev pub claim : Option ℕ → ℕ → FrameEntry → FrameEntry
claim p va f = record f { used = true; proc = p; va = va; ref_bit = true; grace = 0 }

abbrev pub claim_victim : Option ℕ → ℕ → FrameEntry → FrameEntry
claim_victim p va f = record { used = true; proc = p; va = va; pa = 0; ref_bit = true; grace = 0 }

abbrev pub unclaim : FrameEntry → FrameEntry
unclaim f = record f { used = false; proc = none }

abbrev pub set_pa : ℕ → FrameEntry → FrameEntry
set_pa pa f = record f { pa = pa }

-- The search for a frame that is not used, from index `i` on.
unfoldable pub free_frame : List FrameEntry → ℕ → Option ℕ
free_frame [] i = none
free_frame (f ∷ fs) i = if not f.used then some i else free_frame fs (i + 1)

abbrev pub give_page : ℕ → Machine → Option ℕ × Memory → Option ℕ × Machine
give_page i m (none, mem) = (none, with_frame unclaim i (record m { mem = mem }))
give_page i m (some pa, mem) = (some pa, with_frame (set_pa pa) i (record m { mem = mem }))

-- Both ways through `kalloc_user` end with a `kalloc` for the frame that was claimed.
unfoldable pub finish_frame : ℕ → Machine → Option ℕ × Machine
finish_frame i m = give_page i m (kalloc m.mem)

abbrev pub pte_swapped : ℕ
pte_swapped = 256

-- The entry that `kalloc_user` writes for a page that it moved to a slot.
abbrev pub swapped_pte : ℕ → ℕ → ℕ
swapped_pte slot pte = without_flag flag_v (slot * 1024 + with_flag pte_swapped (pte_flags pte))

abbrev pub mark_entry : ℕ → Option Place → Machine → Machine
mark_entry slot none m = m
mark_entry slot (some place) m =
    if pte_v (pte_at m.tables place)
    then record m { tables = set_pte m.tables place (swapped_pte slot (pte_at m.tables place)) }
    else m

abbrev pub mark_table : Option ℕ → ℕ → ℕ → Machine → Outcome Machine
mark_table none va slot m = done m
mark_table (some table) va slot m = do
  place ← walk m.tables table va
  done (mark_entry slot place m)

abbrev pub count_out : Proc → Proc
count_out p = record p {
  pages_evicted = u32 (p.pages_evicted + 1);
  pages_swapped_out = u32 (p.pages_swapped_out + 1);
  resident_pages = u32 (p.resident_pages + minus_one);
}

-- What `kalloc_user` does to the victim's owner after the page has been written.
abbrev pub swapped_out : Option ℕ → ℕ → ℕ → Machine → Outcome Machine
swapped_out none va slot m = done m
swapped_out (some v) va slot m = do
  n ← mark_table (proc_at m.procs v).pagetable va slot m
  done (record n { procs = modify count_out n.procs v })

abbrev pub creditor : Option ℕ → Machine → Option DiskStats
creditor none m = none
creditor (some p) m = some (proc_at m.procs p).disk

abbrev pub credit_to : Option ℕ → Option DiskStats → List Proc → List Proc
credit_to (some p) (some stats) ps = modify (λ q. record q { disk = stats }) ps p
credit_to _ _ ps = ps

-- The victim `f` of frame `i`, by what `swap_alloc` returns.
abbrev pub evict_to :
    ℕ → Option ℕ → ℕ → FrameEntry → Machine → Swap × Option ℕ → Outcome (Option ℕ × Machine)
evict_to kernel_end p i f m (w, none) = done (none, with_frame unclaim i (record m { swap = w }))
evict_to kernel_end p i f m (w, some slot) = do
  (w', r, stats) ← swap_write slot (m.mem.page f.pa) f.proc f.va (creditor p m) w m.raid
  let written = record m { swap = w'; raid = r; procs = credit_to p stats m.procs }
  out ← swapped_out f.proc f.va slot written
  mem ← kfree kernel_end f.pa out.mem
  done (finish_frame i (record out { mem = mem }))

unfoldable pub kalloc_user : ℕ → Option ℕ → ℕ → Machine → Outcome (Option ℕ × Machine)
kalloc_user kernel_end p va m = elim (free_frame m.clock.frame_table 0) [
  | some i ↦ done (finish_frame i (with_frame (claim p va) i m))
  | none ↦ do
    (i, clock) ← clock_pick_victim p m.clock
    let picked = record m { clock = clock }
    evict_to kernel_end p i (frame_at clock.frame_table i) (with_frame (claim_victim p va) i picked)
        (swap_alloc m.swap)
]

-- The rest of `evict_page` for the process `p`, from the entry that `walk` finds on.
abbrev pub page_out : ℕ → ℕ → ℕ → Place → ℕ → Machine → Swap × Option ℕ → Outcome Machine
page_out kernel_end p va place pa m (w, none) = done (record m { swap = w })
page_out kernel_end p va place pa m (w, some slot) = do
  (w', r, stats) ← swap_write slot (m.mem.page pa) (some p) va (creditor (some p) m) w m.raid
  let procs = modify count_out (credit_to (some p) stats m.procs) p
  mem ← kfree kernel_end pa m.mem
  done (record m {
    swap = w';
    raid = r;
    tables = set_pte m.tables place (slot * 1024 + pte_swapped);
    mem = mem;
    procs = procs;
  })

abbrev pub page_of : ℕ → ℕ → ℕ → Option Place → Machine → Outcome Machine
page_of kernel_end p va none m = done m
page_of kernel_end p va (some place) m =
    if pte_v (pte_at m.tables place)
    then page_out kernel_end p va place (pte2pa (pte_at m.tables place)) m (swap_alloc m.swap)
    else done m

-- A process that is not `UNUSED` and owns a frame has a page table.
abbrev pub page_in_table : ℕ → ℕ → ℕ → Option ℕ → Machine → Outcome Machine
page_in_table kernel_end p va none m = done m
page_in_table kernel_end p va (some table) m = do
  place ← walk m.tables table va
  page_of kernel_end p va place m

abbrev pub evict_of : ℕ → Option ℕ → ℕ → Machine → Outcome Machine
evict_of kernel_end none va m = done m
evict_of kernel_end (some p) va m =
    if is_state (proc_at m.procs p).state unused
    then done m
    else page_in_table kernel_end p va (proc_at m.procs p).pagetable m

unfoldable pub evict_page : ℕ → ℕ → Machine → Outcome Machine
evict_page kernel_end idx m =
    let f = frame_at m.clock.frame_table idx in
    evict_of kernel_end f.proc f.va (with_frame unclaim idx m)
