-- ===== src/Swap/Store.antt =====
-- Pages in the swap area: `swap_read` gives back what `swap_write` stored in the slot.
use os_2_course_work.Prelude.{
  ℕ, suc, ◌+◌, ◌≤◌, ◌<◌, ◌≡◌, ◌≢◌, ◌⊎◌, inl, inr, refl, sym, ◌∙◌, Bool, Option, some, Outcome, done,
  length, get_elem?, arith, List, [], ◌∷◌, zero, dec_lt, modify, length-modify,
  get_elem?-modify_self, get_elem?-modify_ne,
}
use os_2_course_work.Raid.{Page, Raid}
use os_2_course_work.Raid.Layout.{IsReady, Layout}
use os_2_course_work.Raid.Array.{Selects, striped, mirrored, guarded, IsPage, Holds}
use os_2_course_work.Raid.Pages.{lose, write_page, read_page, write_page-Holds}
use os_2_course_work.Swap.{
  SwapSlot, Swap, DiskStats, After, max_swap, block_of, block_at, fill_slot, latency_to, credit,
  credit_write, credit_read, swap_write, swap_read,
}

-- Every slot lies on the array, whatever the mode.
block_of_fits :
    {L : Layout} → Selects L → (slot : ℕ) → slot < max_swap → block_of slot + 4 ≤ L.capacity
block_of_fits striped slot h = omega arith
block_of_fits mirrored slot h = omega arith
block_of_fits guarded slot h = omega arith

-- The pages of two slots do not overlap.
block_of_apart :
    (i j : ℕ)
    → i < max_swap
    → j < max_swap
    → i ≢ j
    → (block_of i + 4 ≤ block_of j) ⊎ (block_of j + 4 ≤ block_of i)
block_of_apart i j hi hj ne = elim (dec_lt i j) [
  | yes lt ↦ inl (omega arith)
  | no ge ↦ inr (omega arith)
]

pub has_slot :
    (ss : List SwapSlot) (k : ℕ) → k < length ss → (s : SwapSlot) × (get_elem? ss k ≡ some s)
has_slot [] k h = elim h [ ]
has_slot (s ∷ ss) zero h = (s, refl)
has_slot (s ∷ ss) (suc k) h = has_slot ss k (omega arith)

-- The state of the swap area between operations.
pub record IsSwap {L : Layout} (sel : Selects L) (w : Swap) (r : Raid) : Type 0 where
  pub slots : length w.swap_space ≡ max_swap
  pub ready : IsReady r
  pub mode : r.raid_mode ≡ L.mode

-- Slot `k` holds the page: its entry names its block, and the array has the page there.
pub record InSlot {L : Layout} (sel : Selects L) (k : ℕ) (p : Page) (w : Swap) (r : Raid)
    : Type 0 where
  pub block : block_at (get_elem? w.swap_space k) ≡ block_of k
  pub page : Holds L r.sim_disk (block_of k) p

-- What `swap_write` leaves.
pub record Swapped {L : Layout} (sel : Selects L) (k : ℕ) (p : Page) (w : Swap) (r : Raid)
    (result : Outcome After) : Type 0 where
  pub after : Swap
  pub array : Raid
  pub stats : Option DiskStats
  pub returns : result ≡ done (after, array, stats)
  pub valid : IsSwap sel after array
  pub here : InSlot sel k p after array
  pub others :
      (j : ℕ) (q : Page)
      → j < max_swap
      → j ≢ k
      → IsPage q
      → InSlot sel j q w r
      → InSlot sel j q after array

module _ {L : Layout} (sel : Selects L) where
  -- `swap_write` puts the page in its slot and leaves the pages of the other slots where they are.
  pub swap_write_lem :
      (k : ℕ) (p : Page) (victim : Option ℕ) (va : ℕ) (c : Option DiskStats) (w : Swap) (r : Raid)
      → k < max_swap
      → IsPage p
      → IsSwap sel w r
      → Swapped sel k p w r (swap_write k p victim va c w r)
  swap_write_lem k p victim va c w r h pg v =
      let t = write_page sel (block_of k) p r (block_of_fits sel k h) pg v.ready v.mode in
      let (s, e) = has_slot w.swap_space k (omega (arith, v.slots)) in
      record {
        after = record {
          swap_space = modify (fill_slot (block_of k) victim va) w.swap_space k;
          swap_head = block_of k;
        };
        array = t.after;
        stats = credit (credit_write (latency_to (block_of k) w.swap_head)) c;
        returns = unfold swap_write in rw t.returns;
        valid = record {
          slots = length-modify (fill_slot (block_of k) victim va) w.swap_space k ∙ v.slots;
          ready = t.ready;
          mode = t.same_mode ∙ v.mode;
        };
        here = record {
          block = rw (get_elem?-modify_self (fill_slot (block_of k) victim va) w.swap_space k s e);
          page = t.holds;
        };
        others = λ j q hj ne qg old. record {
          block =
              rw
                (get_elem?-modify_ne (fill_slot (block_of k) victim va) w.swap_space k j
                  (λ x. ne (sym x)))
                old.block;
          page =
              write_page-Holds sel (block_of k) (block_of j) p q r
                (block_of_apart k j h hj (λ x. ne (sym x))) (block_of_fits sel k h)
                (block_of_fits sel j hj) pg qg.four t old.page;
        };
      }

  -- `swap_read` of a slot that holds a page returns it, also after a tolerated loss of disks.
  pub swap_read_lem :
      (k : ℕ) (p : Page) (c : Option DiskStats) (w : Swap) (r : Raid) (failed : ℕ → Bool)
      → k < max_swap
      → IsPage p
      → r.raid_mode ≡ L.mode
      → L.Tolerates failed
      → InSlot sel k p w r
      → swap_read k c w (lose r failed)
        ≡ done (
          p,
          record w { swap_head = block_of k },
          credit (credit_read (latency_to (block_of k) w.swap_head)) c,
        )
  swap_read_lem k p c w r failed h pg m t s =
      unfold swap_read in
      rw (
        s.block,
        read_page sel (block_of k) p (lose r failed) (block_of_fits sel k h) pg.four m t s.page,
      )

-- In a swap area of 128 slots on a ready array, a page of four whole blocks that is swapped out is
-- what is swapped in again, also when another such page goes to another slot and disks fail in
-- between, as long as the array's layout tolerates their loss.
pub swap_read-write :
    {L : Layout} (sel : Selects L) (i j : ℕ) (p q : Page) (pv qv : Option ℕ) (pa qa : ℕ)
    (pc qc rc : Option DiskStats) (w : Swap) (r : Raid) (failed : ℕ → Bool)
    → i < max_swap
    → j < max_swap
    → i ≢ j
    → IsPage p
    → IsPage q
    → IsSwap sel w r
    → L.Tolerates failed
    → (w' w'' : Swap) × (r' : Raid) × (r'' : Raid) × (s' : Option DiskStats) × (s'' : Option
        DiskStats)
      × (swap_write i p pv pa pc w r ≡ done (w', r', s'))
      × (swap_write j q qv qa qc w' r' ≡ done (w'', r'', s''))
      × (swap_read i rc w'' (lose r'' failed)
          ≡ done (
            p,
            record w'' { swap_head = block_of i },
            credit (credit_read (latency_to (block_of i) w''.swap_head)) rc,
          ))
swap_read-write sel i j p q pv qv pa qa pc qc rc w r failed hi hj ne pg qg v t =
    let a = swap_write_lem sel i p pv pa pc w r hi pg v in
    let b = swap_write_lem sel j q qv qa qc a.after a.array hj qg a.valid in
    (
      a.after,
      b.after,
      a.array,
      b.array,
      a.stats,
      b.stats,
      a.returns,
      b.returns,
      swap_read_lem sel i p rc b.after b.array failed hi pg b.valid.mode t
          (b.others i p hi ne pg a.here),
    )
