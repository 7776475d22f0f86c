-- ===== src/Log/View.antt =====
-- What a disk stands for: the blocks that a recovery from its log would leave.
use os_2_course_work.Prelude.{
  ℕ, zero, suc, ◌+◌, ◌≤◌, ◌<◌, ◌≡◌, ◌≢◌, ◌⊎◌, inl, inr, refl, sym, ◌∙◌, ◌==◌, if◌then◌else◌, ==_iff,
  Bool-cases, arith,
}
use os_2_course_work.Raid.{Block}
use os_2_course_work.Log.{LogHeader, Disk, Run, crashed, running, then_run, logblocks}

-- The blocks after the first `n` entries of a log have been installed over `base`, where `log_block
-- i` is the log's copy for entry `i`: the last entry for a block counts.
unfoldable pub installed : (ℕ → Block) → (ℕ → ℕ) → (ℕ → Block) → ℕ → ℕ → Block
installed log_block block base zero b = base b
installed log_block block base (suc n) b =
    if b == block n then log_block n else installed log_block block base n b

unfoldable pub view : ℕ → Disk → ℕ → Block
view start d b = installed (λ i. d.blocks (start + i + 1)) d.head.block d.blocks d.head.n b

-- A block outside the log: its header at `start` and its copies behind.
abbrev pub IsHome : ℕ → ℕ → Type 0
IsHome start b = (b < start) ⊎ (start + logblocks < b)

-- A header whose entries fit into the log and are home blocks.
pub record IsHead (start : ℕ) (h : LogHeader) : Type 0 where
  pub fits : h.n ≤ logblocks
  pub home : (i : ℕ) → i < h.n → IsHome start (h.block i)

-- What a run guarantees: `P` of the disk if the power fails, `Q` of the result otherwise.
abbrev pub Safe : {A : Type 0} → (Disk → Type 0) → (A → Type 0) → Run A → Type 0
Safe P Q (crashed d) = P d
Safe P Q (running k a) = Q a

pub Safe-then_run :
    {A B : Type 0} (P : Disk → Type 0) (Q : A → Type 0) (R : B → Type 0) (r : Run A)
    (f : ℕ → A → Run B)
    → Safe P Q r
    → ((k : ℕ) (a : A) → Q a → Safe P R (f k a))
    → Safe P R (then_run r f)
Safe-then_run P Q R (crashed d) f h g = h
Safe-then_run P Q R (running k a) f h g = g k a h

pub Safe-map :
    {A : Type 0} (P P' : Disk → Type 0) (Q : A → Type 0) (r : Run A)
    → ((d : Disk) → P d → P' d)
    → Safe P Q r
    → Safe P' Q r
Safe-map P P' Q (crashed d) f h = f d h
Safe-map P P' Q (running k a) f h = h

pub Safe-result :
    {A : Type 0} (P : Disk → Type 0) (Q Q' : A → Type 0) (r : Run A)
    → ((a : A) → Q a → Q' a)
    → Safe P Q r
    → Safe P Q' r
Safe-result P Q Q' (crashed d) f h = h
Safe-result P Q Q' (running k a) f h = f a h

module _ (log_block : ℕ → Block) (block : ℕ → ℕ) (b : ℕ) where
  -- Either no entry is for `b`, or what lies below does not show.
  entry_cases :
      (n : ℕ)
      → ((i : ℕ) → i < n → b ≢ block i)
        ⊎ ((f g : ℕ → Block) → installed log_block block f n b ≡ installed log_block block g n b)
  unfolding installed
  entry_cases zero = inl (λ i h. absurd (omega arith))
  entry_cases (suc n) = elim (Bool-cases (b == block n)) [
    | inl e ↦ inr (λ f g. rw e refl)
    | inr e ↦ elim (entry_cases n) [
      | inl none_before ↦ inl (λ i h. elim (Bool-cases (i == n)) [
        | inl same ↦ let s : i ≡ n = (==_iff i n).0 same in rw s (ground arith)
        | inr other ↦ none_before i (ground arith)
      ])
      | inr shadowed ↦ inr (λ f g. rw e (shadowed f g))
    ]
  ]

  installed_below :
      (f : ℕ → Block) (n : ℕ)
      → ((i : ℕ) → i < n → b ≢ block i)
      → installed log_block block f n b ≡ f b
  unfolding installed
  installed_below f zero h = refl
  installed_below f (suc n) h =
      ground (arith, h n (omega arith), installed_below f n (λ i lt. h i (omega arith)))

  -- Installing the log over a part of it that is already installed changes nothing more.
  pub installed_again :
      (f g : ℕ → Block) (t n : ℕ)
      → t ≤ n
      → g b ≡ installed log_block block f t b
      → installed log_block block g n b ≡ installed log_block block f n b
  installed_again f g t n le e = elim (entry_cases n) [
    | inl absent ↦
        installed_below g n absent
        ∙ e
        ∙ installed_below f t (λ i lt. absent i (omega arith))
        ∙ sym (installed_below f n absent)
    | inr shadowed ↦ shadowed g f
  ]

-- Only the first `n` entries count.
pub installed_cong :
    (l l' : ℕ → Block) (block block' : ℕ → ℕ) (f g : ℕ → Block) (n b : ℕ)
    → ((i : ℕ) → i < n → l i ≡ l' i)
    → ((i : ℕ) → i < n → block i ≡ block' i)
    → f b ≡ g b
    → installed l block f n b ≡ installed l' block' g n b
unfolding installed
installed_cong l l' block block' f g zero b hl hb e = e
installed_cong l l' block block' f g (suc n) b hl hb e = rw (
  hl n (omega arith),
  hb n (omega arith),
  installed_cong l l' block block' f g n b (λ i h. hl i (omega arith)) (λ i h. hb i (omega arith))
      e,
)
