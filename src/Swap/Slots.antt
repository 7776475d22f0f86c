-- ===== src/Swap/Slots.antt =====
-- Slots of the swap area: which one `swap_alloc` takes.
use os_2_course_work.Prelude.{
  ℕ, zero, suc, ◌+◌, ◌<◌, ◌≡◌, ◌≢◌, ◌⊎◌, inl, inr, refl, ◌∙◌, ap, true, false, Bool-cases, none,
  some, List, [], ◌∷◌, get_elem?, arith, modify, get_elem?-modify_self, get_elem?-modify_ne,
}
use os_2_course_work.Swap.{
  SwapSlot, Swap, free_from, take_slot, release_slot, swap_alloc, swap_free,
}

-- Every slot of the list is in use.
abbrev pub AllUsed : List SwapSlot → Type 0
AllUsed [] = Unit {0}
AllUsed (s ∷ ss) = (s.used ≡ true) × AllUsed ss

-- `k` is the first slot that is not in use.
pub record FirstFree (ss : List SwapSlot) (k : ℕ) : Type 0 where
  pub slot : SwapSlot
  pub at_k : get_elem? ss k ≡ some slot
  pub free : slot.used ≡ false
  pub used_before : (j : ℕ) (s : SwapSlot) → j < k → get_elem? ss j ≡ some s → s.used ≡ true

FirstFree-suc :
    (s : SwapSlot) (ss : List SwapSlot) (k : ℕ)
    → s.used ≡ true
    → FirstFree ss k
    → FirstFree (s ∷ ss) (suc k)
FirstFree-suc s ss k u f = record {
  slot = f.slot;
  at_k = f.at_k;
  free = f.free;
  used_before = before;
}
  where
    before : (j : ℕ) (t : SwapSlot) → j < suc k → get_elem? (s ∷ ss) j ≡ some t → t.used ≡ true
    before zero t h e = ground arith
    before (suc j) t h e = f.used_before j t (omega arith) e

free_from_lem :
    (ss : List SwapSlot) (i : ℕ)
    → ((free_from ss i ≡ none) × AllUsed ss)
      ⊎ ((k : ℕ) × (free_from ss i ≡ some (i + k)) × FirstFree ss k)
unfolding free_from
free_from_lem [] i = inl (refl, tt)
free_from_lem (s ∷ ss) i = elim (Bool-cases s.used) [
  | inl u ↦ elim (free_from_lem ss (i + 1)) [
    | inl n ↦ inl (rw u n.0, (u, n.1))
    | inr n ↦ inr (suc n.0, rw u (n.1 ∙ ap some (omega arith)), FirstFree-suc s ss n.0 u n.2)
  ]
  | inr u ↦ inr (
    0,
    rw u (ap some (omega arith)),
    record { slot = s; at_k = refl; free = u; used_before = λ j t h e. absurd (omega arith) },
  )
]

-- What `swap_alloc` does: it returns -1 and changes nothing if every slot is in use; otherwise it
-- returns the first free slot, marks it used, and leaves the others as they were.
pub record Allocated (w : Swap) (k : ℕ) : Type 0 where
  pub first : FirstFree w.swap_space k
  pub after : Swap
  pub returns : swap_alloc w ≡ (after, some k)
  pub now_used : get_elem? after.swap_space k ≡ some (take_slot first.slot)
  pub others : (j : ℕ) → k ≢ j → get_elem? after.swap_space j ≡ get_elem? w.swap_space j

-- `swap_alloc` returns -1 and changes nothing exactly if every slot is used; otherwise it returns the
-- first free slot, marks it used, and leaves the other slots as they were.
pub swap_alloc_lem :
    (w : Swap) → ((swap_alloc w ≡ (w, none)) × AllUsed w.swap_space) ⊎ ((k : ℕ) × Allocated w k)
unfolding swap_alloc
swap_alloc_lem w = elim (free_from_lem w.swap_space 0) [
  | inl n ↦ inl (rw (n.0, swap_alloc), n.1)
  | inr n ↦ inr (
    n.0,
    record {
      first = n.2;
      after = record w { swap_space = modify take_slot w.swap_space n.0 };
      returns = let e : 0 + n.0 ≡ n.0 = omega arith in rw (n.1, e, swap_alloc);
      now_used = get_elem?-modify_self take_slot w.swap_space n.0 n.2.slot n.2.at_k;
      others = λ j h. get_elem?-modify_ne take_slot w.swap_space n.0 j h;
    },
  )
]

-- A slot that `swap_free` releases is free, and no other slot changes.
pub swap_free_lem :
    (w : Swap) (k : ℕ) (s : SwapSlot)
    → get_elem? w.swap_space k ≡ some s
    → (get_elem? (swap_free k w).swap_space k ≡ some (release_slot s))
      × ((j : ℕ) → k ≢ j → get_elem? (swap_free k w).swap_space j ≡ get_elem? w.swap_space j)
unfolding swap_free
swap_free_lem w k s e = (
  get_elem?-modify_self release_slot w.swap_space k s e,
  λ j h. get_elem?-modify_ne release_slot w.swap_space k j h,
)
