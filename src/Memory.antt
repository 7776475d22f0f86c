-- ===== src/Memory.antt =====
-- kernel/kalloc.c: the allocator of physical pages, `kalloc` and `kfree`, which run with `kmem.lock`
-- held. `kernel_end` is the symbol `end` of the linker. The link that `kfree` puts into a page is the
-- list.
mod Tests
use os_2_course_work.Prelude.{
  ℕ, zero, suc, ◌+◌, ◌-◌, ◌*◌, ◌/◌, ◌%◌, ◌≤◌, ◌<◌, ◌≡◌, Bool, ◌||◌, not, Option, none, some, List,
  [], ◌∷◌, Outcome, done, panic, kfree_bad, ◌>>=◌, ◌==◌, ltb, leb, if◌then◌else◌, replicate, arith,
}
use os_2_course_work.Raid.{Page, bsize, blocks_per_page}

abbrev pub pgsize : ℕ
pgsize = 4096

abbrev pub phystop : ℕ
phystop = 0x88000000

-- `kmem.freelist`, and what the pages hold, by address.
pub record Memory : Type 0 where
  pub freelist : List ℕ
  pub page : ℕ → Page

-- A page full of one byte, as `memset` leaves it.
unfoldable pub filled_page : ℕ → Page
filled_page c = replicate blocks_per_page (replicate bsize c)

abbrev pub put_page : (ℕ → Page) → ℕ → Page → ℕ → Page
put_page page pa content = λ q. if q == pa then content else page q

abbrev pub fill : (ℕ → Page) → ℕ → ℕ → ℕ → Page
fill page pa c = put_page page pa (filled_page c)

unfoldable pub kfree : ℕ → ℕ → Memory → Outcome Memory
kfree kernel_end pa mem =
    if not (pa % pgsize == 0) || ltb pa kernel_end || leb phystop pa
    then panic kfree_bad
    else done (record { freelist = pa ∷ mem.freelist; page = fill mem.page pa 1 })

abbrev pub take_page : List ℕ → Memory → Option ℕ × Memory
take_page [] mem = (none, mem)
take_page (r ∷ rest) mem = (some r, record { freelist = rest; page = fill mem.page r 5 })

unfoldable pub kalloc : Memory → Option ℕ × Memory
kalloc mem = take_page mem.freelist mem

-- The loop of `freerange` with `n` pages left that end by `pa_end`, from `p` on.
unfoldable pub freerange_loop : ℕ → ℕ → ℕ → Memory → Outcome Memory
freerange_loop kernel_end zero p mem = done mem
freerange_loop kernel_end (suc n) p mem = do
  mem' ← kfree kernel_end p mem
  freerange_loop kernel_end n (p + pgsize) mem'

abbrev pub pgroundup : ℕ → ℕ
pgroundup sz = (sz + pgsize - 1) / pgsize * pgsize

abbrev pub pgrounddown : ℕ → ℕ
pgrounddown a = a / pgsize * pgsize

unfoldable pub freerange : ℕ → ℕ → ℕ → Memory → Outcome Memory
freerange kernel_end pa_start pa_end mem =
    let p = pgroundup pa_start in freerange_loop kernel_end ((pa_end - p) / pgsize) p mem

-- The pages as `kinit` leaves them.
unfoldable pub kinit : ℕ → (ℕ → Page) → Outcome Memory
kinit kernel_end page =
    freerange kernel_end kernel_end phystop (record { freelist = []; page = page })

pub kfree_lem :
    (kernel_end pa : ℕ) (mem : Memory)
    → pa % pgsize ≡ 0
    → kernel_end ≤ pa
    → pa < phystop
    → kfree kernel_end pa mem
      ≡ done (record { freelist = pa ∷ mem.freelist; page = fill mem.page pa 1 })
unfolding kfree
kfree_lem kernel_end pa mem a lo hi = ground arith
