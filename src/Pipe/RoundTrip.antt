-- ===== src/Pipe/RoundTrip.antt =====
-- What one process writes into an empty pipe is what the other one reads.
use mathlib.Core.List.{append-nil}
use os_2_course_work.Prelude.{
  ℕ, zero, suc, ◌+◌, ◌≤◌, ◌<◌, ◌≡◌, inl, inr, refl, sym, ◌∙◌, ap, Bool, true, false, Option, some,
  List, [], ◌∷◌, ◌++◌, arith, length, length-append, take, map,
}
use os_2_course_work.Pipe.{Pipe, Ended, returned, is_empty, pipewrite, piperead}
use os_2_course_work.Pipe.Queue.{IsPipe, contents, contents-empty, length-contents, held-full}
use os_2_course_work.Pipe.Fifo.{yielded, WriteEnd, Written, pipewrite_lem}
use os_2_course_work.Pipe.Read.{ReadEnd, Taken, piperead_lem}

yielded-map : (bs : List ℕ) → yielded (map some bs) ≡ bs
yielded-map [] = refl
yielded-map (b ∷ bs) = ap (λ (xs : List ℕ). b ∷ xs) (yielded-map bs)

length-map-some : (bs : List ℕ) → length (map {B = Option ℕ} some bs) ≡ length bs
length-map-some [] = refl
length-map-some (b ∷ bs) = ap suc (length-map-some bs)

take_all : (bs : List ℕ) → take (length bs) bs ≡ bs
take_all [] = refl
take_all (b ∷ bs) = ap (λ (xs : List ℕ). b ∷ xs) (take_all bs)

length-take_le : (n : ℕ) (bs : List ℕ) → n ≤ length bs → length (take n bs) ≡ n
length-take_le zero bs h = refl
length-take_le (suc n) [] h = elim h [ ]
length-take_le (suc n) (b ∷ bs) h = ap suc (length-take_le n bs (omega arith))

append-full : (xs ys zs : List ℕ) → xs ≡ ys ++ zs → length ys ≡ length xs → ys ≡ xs
append-full xs ys [] e h = sym (e ∙ append-nil ys)
append-full xs ys (z ∷ zs) e h =
    absurd (omega (arith, ap (λ (l : List ℕ). length l) e, length-append ys (z ∷ zs)))

module _ (killed_at : ℕ → Bool) (bs : List ℕ) (pi : Pipe) (v : IsPipe pi)
    (empty : is_empty pi ≡ true) (open_end : pi.readopen ≡ true)
    (alive : (i : ℕ) → killed_at i ≡ false) (fits : length bs ≤ 512) (r : Ended × Pipe)
    (w : Written killed_at (map some bs) 0 pi r) where
  holds : contents r.1 ≡ take w.put bs
  holds =
      w.appended
      ∙ (ap (λ c. c ++ take w.put (yielded (map some bs))) (contents-empty pi v empty)
          ∙ ap (take w.put) (yielded-map bs))

  put_le : w.put ≤ length bs
  put_le = omega (arith, w.within, ap (λ (l : List ℕ). length l) (yielded-map bs))

  all_put :
      WriteEnd killed_at (map some bs) 0 w.put r.1 r.0
      → (r.0 ≡ returned (length bs)) × (w.put ≡ length bs)
  all_put (inl a) =
      let e : w.put ≡ length bs = a.1 ∙ ap (λ (l : List ℕ). length l) (yielded-map bs) in
      (a.0 ∙ ap returned (omega (arith, e)), e)
  all_put (inr (inl b)) = absurd (
      omega (
        arith,
        held-full r.1 w.valid b.1,
        length-contents r.1,
        ap (λ (l : List ℕ). length l) holds,
        length-take_le w.put bs put_le,
        b.2,
        length-map-some bs,
      ))
  all_put (inr (inr c)) =
      let still = w.same_open ∙ open_end in ground (arith, c.1, alive (0 + w.put), still)

  written_all : (r.0 ≡ returned (length bs)) × (contents r.1 ≡ bs)
  written_all = let p = all_put w.ends in (p.0, holds ∙ (ap (λ n. take n bs) p.1 ∙ take_all bs))

-- A read loop that meets no fault takes all there is, if it is to take that many.
read_all :
    (copied : ℕ → Bool) (n : ℕ) (pi : Pipe) (r : Ended × Pipe × List ℕ)
    → ((i : ℕ) → copied i ≡ true)
    → length (contents pi) ≡ n
    → Taken copied n 0 pi r
    → (r.0 ≡ returned n) × (r.2 ≡ contents pi)
read_all copied n pi (e, qi, out) fine len t = by_end t.ends
  where
    whole : length out ≡ n → out ≡ contents pi
    whole h = append-full (contents pi) out (contents qi) t.split (h ∙ sym len)

    by_end : ReadEnd copied n 0 (length out) qi e → (e ≡ returned n) × (out ≡ contents pi)
    by_end (inl (a, inl b)) = (a ∙ ap returned (omega (arith, b)), whole b)
    by_end (inl (a, inr (inl b))) =
        let gone = contents-empty qi t.valid b in
        let same : contents pi ≡ out = t.split ∙ (ap (λ c. out ++ c) gone ∙ append-nil out) in
        let size : length out ≡ n = omega (arith, ap (λ (l : List ℕ). length l) same, len) in
        (a ∙ ap returned (omega (arith, size)), sym same)
    by_end (inl (a, inr (inr b))) = let f = fine (0 + length out) in cc
    by_end (inr b) = let f = fine 0 in let g = b.2 in cc

-- On a pipe with a ring of 512 bytes, at least one and at most 512 bytes written into the empty
-- pipe by a process that is not killed, with the reading end open, go in at once. A read of that
-- many bytes that meets no fault then returns just these bytes, wherever the byte counters stand.
pub piperead-pipewrite :
    (killed_at copied : ℕ → Bool) (bs : List ℕ) (pi : Pipe)
    → IsPipe pi
    → is_empty pi ≡ true
    → pi.readopen ≡ true
    → 0 < length bs
    → length bs ≤ 512
    → ((i : ℕ) → killed_at i ≡ false)
    → ((i : ℕ) → copied i ≡ true)
    → let (e, qi) = pipewrite killed_at (map some bs) pi in
      let (f, ri, out) = piperead false copied (length bs) qi in
      (e ≡ returned (length bs)) × (f ≡ returned (length bs)) × (out ≡ bs)
piperead-pipewrite killed_at copied bs pi v empty open_end pos fits alive fine =
    (w_all.0, r_all.0, r_all.1 ∙ w_all.1)
  where
    qi : Pipe
    qi = (pipewrite killed_at (map some bs) pi).1

    w : Written killed_at (map some bs) 0 pi (pipewrite killed_at (map some bs) pi)
    w = pipewrite_lem killed_at (map some bs) pi v

    w_all : ((pipewrite killed_at (map some bs) pi).0 ≡ returned (length bs)) × (contents qi ≡ bs)
    w_all = written_all killed_at bs pi v empty open_end alive fits _ w

    size : length (contents qi) ≡ length bs
    size = ap (λ (l : List ℕ). length l) w_all.1

    taken : Taken copied (length bs) 0 qi (piperead false copied (length bs) qi)
    taken = elim (piperead_lem false copied (length bs) qi w.valid) [
      | inl h ↦
          absurd
            (omega (arith, ap (λ (l : List ℕ). length l) (contents-empty qi w.valid h.0), size))
      | inr t ↦ t
    ]

    r_all :
        ((piperead false copied (length bs) qi).0 ≡ returned (length bs))
        × ((piperead false copied (length bs) qi).2 ≡ contents qi)
    r_all = read_all copied (length bs) qi _ fine size taken
