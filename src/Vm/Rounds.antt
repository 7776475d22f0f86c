-- ===== src/Vm/Rounds.antt =====
-- The loops of `copyout` and `copyin` end: each round takes at least one byte.
use os_2_course_work.Prelude.{
  ℕ, zero, suc, ◌+◌, ◌-◌, ◌≤◌, ◌≡◌, refl, Bool, true, false, List, [], ◌∷◌, ◌++◌, Outcome, done,
  panic, ◌>>=◌, length, take, drop, length-drop, arith,
}
use os_2_course_work.Memory.{pgsize, pgrounddown}
use os_2_course_work.Evict.{Machine}
use os_2_course_work.Vm.Transfer.{
  chunk, copyout_round, copyout_loop, copyout, copyin_round, copyin_loop, copyin, Received,
}

chunk_pos : (va l : ℕ) → 1 ≤ chunk va (suc l)
chunk_pos va l = ground arith

abbrev then_out : (Machine → Outcome (Bool × Machine)) → Bool × Machine → Outcome (Bool × Machine)
then_out f x = elim x.0 [ true ↦ f x.1 | false ↦ done (false, x.1) ]

abbrev then_in : List ℕ → (List ℕ → Machine → Outcome Received) → Received → Outcome Received
then_in dst f x = elim x.0 [ true ↦ f x.1 x.2 | false ↦ done (false, dst, x.2) ]

-- Two continuations that agree after a round that went well.
same_after :
    (r : Outcome (Bool × Machine)) (f g : Machine → Outcome (Bool × Machine))
    → ((m : Machine) → f m ≡ g m)
    → (r >>= then_out f) ≡ (r >>= then_out g)
same_after (panic e) f g h = refl
same_after (done (true, m)) f g h = h m
same_after (done (false, m)) f g h = refl

same_received :
    (r : Outcome Received) (dst : List ℕ) (f g : List ℕ → Machine → Outcome Received)
    → ((part : List ℕ) (m : Machine) → f part m ≡ g part m)
    → (r >>= then_in dst f) ≡ (r >>= then_in dst g)
same_received (panic e) dst f g h = refl
same_received (done (true, part, m)) dst f g h = h part m
same_received (done (false, part, m)) dst f g h = refl

copyout_loop-fuel :
    (f g kernel_end p pagetable va : ℕ) (src : List ℕ) (m : Machine)
    → length src ≤ f
    → length src ≤ g
    → copyout_loop f kernel_end p pagetable va src m
      ≡ copyout_loop g kernel_end p pagetable va src m
unfolding copyout_loop
copyout_loop-fuel zero zero kernel_end p pagetable va src m hf hg = refl
copyout_loop-fuel zero (suc g) kernel_end p pagetable va [] m hf hg = refl
copyout_loop-fuel zero (suc g) kernel_end p pagetable va (c ∷ cs) m hf hg = absurd (omega arith)
copyout_loop-fuel (suc f) zero kernel_end p pagetable va [] m hf hg = refl
copyout_loop-fuel (suc f) zero kernel_end p pagetable va (c ∷ cs) m hf hg = absurd (omega arith)
copyout_loop-fuel (suc f) (suc g) kernel_end p pagetable va [] m hf hg = refl
copyout_loop-fuel (suc f) (suc g) kernel_end p pagetable va (c ∷ cs) m hf hg =
    let n = chunk va (length (c ∷ cs)) in
    let pos = chunk_pos va (length cs) in
    let less = length-drop n (c ∷ cs) in
    same_after (copyout_round kernel_end p pagetable va (take n (c ∷ cs)) m) _ _ (λ m'.
      copyout_loop-fuel f g kernel_end p pagetable (pgrounddown va + pgsize) (drop n (c ∷ cs)) m'
        (omega (arith, less, pos, hf)) (omega (arith, less, pos, hg)))

copyin_loop-fuel :
    (f g kernel_end p pagetable va len : ℕ) (dst : List ℕ) (m : Machine)
    → len ≤ f
    → len ≤ g
    → copyin_loop f kernel_end p pagetable va len dst m
      ≡ copyin_loop g kernel_end p pagetable va len dst m
unfolding copyin_loop
copyin_loop-fuel zero zero kernel_end p pagetable va len dst m hf hg = refl
copyin_loop-fuel zero (suc g) kernel_end p pagetable va zero dst m hf hg = refl
copyin_loop-fuel zero (suc g) kernel_end p pagetable va (suc l) dst m hf hg = absurd (omega arith)
copyin_loop-fuel (suc f) zero kernel_end p pagetable va zero dst m hf hg = refl
copyin_loop-fuel (suc f) zero kernel_end p pagetable va (suc l) dst m hf hg = absurd (omega arith)
copyin_loop-fuel (suc f) (suc g) kernel_end p pagetable va zero dst m hf hg = refl
copyin_loop-fuel (suc f) (suc g) kernel_end p pagetable va (suc l) dst m hf hg =
    let n = chunk va (suc l) in
    let pos = chunk_pos va l in
    same_received (copyin_round kernel_end p pagetable va n m) dst _ _ (λ part m'.
      copyin_loop-fuel f g kernel_end p pagetable (pgrounddown va + pgsize) (suc l - n)
        (dst ++ part) m' (omega arith) (omega arith))

-- One round for each byte is enough for `copyout` and `copyin`: with more they do the same.
pub copy-rounds :
    (extra kernel_end p pagetable va len : ℕ) (src : List ℕ) (m : Machine)
    → (copyout_loop (length src + extra) kernel_end p pagetable va src m
        ≡ copyout kernel_end p pagetable va src m)
      × (copyin_loop (len + extra) kernel_end p pagetable va len [] m
          ≡ copyin kernel_end p pagetable va len m)
unfolding copyout copyin
copy-rounds extra kernel_end p pagetable va len src m = (
  copyout_loop-fuel (length src + extra) (length src) kernel_end p pagetable va src m (omega arith)
      (omega arith),
  copyin_loop-fuel (len + extra) len kernel_end p pagetable va len [] m (omega arith) (omega arith),
)
