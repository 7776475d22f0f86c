-- ===== src/Vm/Access.antt =====
-- Bytes that go to a page of a process and come back.
use os_2_course_work.Prelude.{
  ℕ, zero, suc, ◌+◌, ◌-◌, ◌*◌, ◌≤◌, ◌<◌, ◌≡◌, refl, ap, ◌∙◌, true, false, some, List, [], ◌∷◌, ◌++◌,
  done, ◌==◌, leb, length, take, drop, arith, length-append, append-take-drop, length-take,
  length-drop, take-append, drop-append, take-length, drop-length,
}
use os_2_course_work.Raid.{Page, bsize}
use os_2_course_work.Raid.Array.{IsPage, Whole}
use os_2_course_work.Memory.{pgsize, pgrounddown}
use os_2_course_work.PageTable.{
  Tables, Place, maxva, pte_at, pte2pa, pte_v, has_flag, flag_w, flag_u, walk_down,
}
use os_2_course_work.PageTable.Walk.{walk_lem}
use os_2_course_work.PageTable.Map.{walkaddr_lem}
use os_2_course_work.Evict.{Machine}
use os_2_course_work.Vm.In.{put_page_self}
use os_2_course_work.Vm.Transfer.{
  bytes_of, split_bytes, page_of_bytes, overwrite, store_bytes, load_bytes, resident, chunk,
  copyout_round, copyout_loop, copyout, copyin_round, copyin_loop, copyin,
}

bytes_of-split_bytes :
    (n : ℕ) (bytes : List ℕ) → length bytes ≡ n * bsize → bytes_of (split_bytes n bytes) ≡ bytes
bytes_of-split_bytes zero [] h = refl
bytes_of-split_bytes zero (c ∷ cs) h = absurd (omega arith)
bytes_of-split_bytes (suc n) bytes h =
    ap (λ ys. take bsize bytes ++ ys)
      (bytes_of-split_bytes n (drop bsize bytes) (omega (arith, length-drop bsize bytes)))
    ∙ append-take-drop bsize bytes

length-bytes_of : (p : Page) → Whole p → length (bytes_of p) ≡ length p * bsize
length-bytes_of [] w = refl
length-bytes_of (b ∷ bs) w =
    omega (arith, length-append b (bytes_of bs), length-bytes_of bs w.1, w.0)

page_bytes : (p : Page) → IsPage p → length (bytes_of p) ≡ pgsize
page_bytes p v = omega (arith, length-bytes_of p v.whole, v.four)

length-overwrite :
    (off : ℕ) (src bytes : List ℕ)
    → off + length src ≤ length bytes
    → length (overwrite off src bytes) ≡ length bytes
length-overwrite off src bytes h =
    let rest = drop (off + length src) bytes in
    let a : length (overwrite off src bytes) ≡ length (take off bytes) + length (src ++ rest) =
      length-append (take off bytes) (src ++ rest) in
    omega (
      arith,
      a,
      length-append src rest,
      length-take off bytes (omega arith),
      length-drop (off + length src) bytes,
    )

-- What is stored in a page is what is loaded from it.
load-store :
    (pa off : ℕ) (src : List ℕ) (m : Machine)
    → IsPage (m.mem.page pa)
    → off + length src ≤ pgsize
    → load_bytes pa off (length src) (store_bytes pa off src m) ≡ src
load-store pa off src m v h =
    let bytes = bytes_of (m.mem.page pa) in
    let size = page_bytes (m.mem.page pa) v in
    let len = length-overwrite off src bytes (omega (arith, size, h)) in
    let whole = bytes_of-split_bytes 4 (overwrite off src bytes) (omega (arith, len, size)) in
    let before = length-take off bytes (omega (arith, size, h)) in
    let rest = drop (off + length src) bytes in
    rw (put_page_self m.mem.page pa (page_of_bytes (overwrite off src bytes))) (
      ap (λ ys. take (length src) (drop off ys)) whole
      ∙ (ap (take (length src)) (drop-append off (take off bytes) (src ++ rest) before)
          ∙ take-append (length src) src rest refl))

-- An address whose page is there: below the size, valid, for the user, and not at physical address 0.
pub record Present (tables : Tables) (pagetable va0 : ℕ) (place : Place) : Type 0 where
  pub low : va0 < maxva
  pub there : walk_down 2 tables pagetable va0 ≡ some place
  pub valid : pte_v (pte_at tables place) ≡ true
  pub user : has_flag flag_u (pte_at tables place) ≡ true
  pub somewhere : (pte2pa (pte_at tables place) == 0) ≡ false

resident_lem :
    (kernel_end p pagetable va0 : ℕ) (place : Place) (m : Machine)
    → Present m.tables pagetable va0 place
    → resident kernel_end p pagetable va0 m ≡ done (pte2pa (pte_at m.tables place), m)
unfolding resident
resident_lem kernel_end p pagetable va0 place m h =
    rw (walkaddr_lem m.tables pagetable va0 h.low, h.there, h.valid, h.user, h.somewhere) refl

chunk-fits : (va len : ℕ) → va - pgrounddown va + len ≤ pgsize → chunk va len ≡ len
chunk-fits va len h = ground arith

copyout_loop-end :
    (fuel kernel_end p pagetable va : ℕ) (m : Machine)
    → copyout_loop fuel kernel_end p pagetable va [] m ≡ done (true, m)
unfolding copyout_loop
copyout_loop-end zero kernel_end p pagetable va m = refl
copyout_loop-end (suc fuel) kernel_end p pagetable va m = refl

copyin_loop-end :
    (fuel kernel_end p pagetable va : ℕ) (dst : List ℕ) (m : Machine)
    → copyin_loop fuel kernel_end p pagetable va 0 dst m ≡ done (true, dst, m)
unfolding copyin_loop
copyin_loop-end zero kernel_end p pagetable va dst m = refl
copyin_loop-end (suc fuel) kernel_end p pagetable va dst m = refl

-- A round of `copyout` to a page at the address `pa`.
copyout_round_lem :
    (kernel_end p pagetable va pa : ℕ) (place : Place) (part : List ℕ) (m m' : Machine)
    → pgrounddown va < maxva
    → resident kernel_end p pagetable (pgrounddown va) m ≡ done (pa, m')
    → (pa == 0) ≡ false
    → walk_down 2 m'.tables pagetable (pgrounddown va) ≡ some place
    → has_flag flag_w (pte_at m'.tables place) ≡ true
    → copyout_round kernel_end p pagetable va part m
      ≡ done (true, store_bytes pa (va - pgrounddown va) part m')
unfolding copyout_round
copyout_round_lem kernel_end p pagetable va pa place part m m' low at_pa ne there w =
    let small : leb maxva (pgrounddown va) ≡ false = ground arith in
    rw (small, at_pa, ne, walk_lem m'.tables pagetable (pgrounddown va) low, there, w) refl

-- `copyout` within one page at the address `pa`.
pub copyout-page :
    (kernel_end p pagetable va pa : ℕ) (place : Place) (src : List ℕ) (m m' : Machine)
    → va - pgrounddown va + length src ≤ pgsize
    → 0 < length src
    → pgrounddown va < maxva
    → resident kernel_end p pagetable (pgrounddown va) m ≡ done (pa, m')
    → (pa == 0) ≡ false
    → walk_down 2 m'.tables pagetable (pgrounddown va) ≡ some place
    → has_flag flag_w (pte_at m'.tables place) ≡ true
    → copyout kernel_end p pagetable va src m
      ≡ done (true, store_bytes pa (va - pgrounddown va) src m')
unfolding copyout copyout_loop
copyout-page kernel_end p pagetable va pa place [] m m' fits some_bytes low at_pa ne there w =
    absurd (omega arith)
copyout-page kernel_end p pagetable va pa place (c ∷ cs) m m' fits some_bytes low at_pa ne there w =
    let round =
      copyout_round_lem kernel_end p pagetable va pa place (c ∷ cs) m m' low at_pa ne there w in
    let n = chunk-fits va (length (c ∷ cs)) fits in
    rw (copyout, copyout_loop, n, take-length (c ∷ cs), round, n, drop-length (c ∷ cs))
      (copyout_loop-end (length cs) kernel_end p pagetable (pgrounddown va + pgsize)
        (store_bytes pa (va - pgrounddown va) (c ∷ cs) m'))

copyin_round_lem :
    (kernel_end p pagetable va n pa : ℕ) (m m' : Machine)
    → resident kernel_end p pagetable (pgrounddown va) m ≡ done (pa, m')
    → (pa == 0) ≡ false
    → copyin_round kernel_end p pagetable va n m
      ≡ done (true, load_bytes pa (va - pgrounddown va) n m', m')
unfolding copyin_round
copyin_round_lem kernel_end p pagetable va n pa m m' at_pa ne = rw (at_pa, ne) refl

-- `copyin` within one page at the address `pa`.
pub copyin-page :
    (kernel_end p pagetable va len pa : ℕ) (m m' : Machine)
    → va - pgrounddown va + len ≤ pgsize
    → 0 < len
    → resident kernel_end p pagetable (pgrounddown va) m ≡ done (pa, m')
    → (pa == 0) ≡ false
    → copyin kernel_end p pagetable va len m
      ≡ done (true, load_bytes pa (va - pgrounddown va) len m', m')
unfolding copyin copyin_loop
copyin-page kernel_end p pagetable va zero pa m m' fits some_bytes at_pa ne = absurd (omega arith)
copyin-page kernel_end p pagetable va (suc l) pa m m' fits some_bytes at_pa ne =
    let round = copyin_round_lem kernel_end p pagetable va (suc l) pa m m' at_pa ne in
    let none_left : suc l - suc l ≡ 0 = omega arith in
    let n = chunk-fits va (suc l) fits in
    rw (copyin, copyin_loop, n, round, n, none_left)
      (copyin_loop-end l kernel_end p pagetable (pgrounddown va + pgsize)
        (load_bytes pa (va - pgrounddown va) (suc l) m') m')

-- Bytes within one page that is there, is for the user and writable and has four whole blocks: after
-- `copyout` has written them, `copyin` of as many bytes from the same address gives them back.
pub copyin-copyout :
    (kernel_end p pagetable va : ℕ) (place : Place) (src : List ℕ) (m : Machine)
    → va - pgrounddown va + length src ≤ pgsize
    → 0 < length src
    → Present m.tables pagetable (pgrounddown va) place
    → has_flag flag_w (pte_at m.tables place) ≡ true
    → IsPage (m.mem.page (pte2pa (pte_at m.tables place)))
    → (m' : Machine) × (copyout kernel_end p pagetable va src m ≡ done (true, m'))
      × (copyin kernel_end p pagetable va (length src) m' ≡ done (true, src, m'))
copyin-copyout kernel_end p pagetable va place src m fits some_bytes h w v =
    let pa = pte2pa (pte_at m.tables place) in
    let off = va - pgrounddown va in
    let m' = store_bytes pa off src m in
    (
      m',
      copyout-page kernel_end p pagetable va pa place src m m fits some_bytes h.low
          (resident_lem kernel_end p pagetable (pgrounddown va) place m h) h.somewhere h.there w,
      copyin-page kernel_end p pagetable va (length src) pa m' m' fits some_bytes
            (resident_lem kernel_end p pagetable (pgrounddown va) place m' h) h.somewhere
          ∙ ap (λ bytes. done (true, bytes, m')) (load-store pa off src m v fits),
    )
