-- ===== src/Fs/Elements.antt =====
-- `namex` against the list of the elements of a path.
use os_2_course_work.Prelude.{
  ℕ, zero, suc, ◌<◌, ◌≤◌, ◌≡◌, ◌⊎◌, inl, inr, refl, sym, ap, ap₂, ◌∙◌, Bool, true, false, List, [],
  ◌∷◌, ◌++◌, Option, none, some, Outcome, Bool-cases, ◌>>=◌, ◌==◌, if◌then◌else◌, length, arith,
}
use mathlib.Core.Path.{fun_ext}
use mathlib.Core.List.{append-nil, append_assoc}
use os_2_course_work.Fs.Table.{Fs}
use os_2_course_work.Fs.Names.{
  slash, skip_slashes, element, name_of, skipelem, is_empty_path, namex_end, enter_dir, namex_loop,
  namex_start, namex,
}

-- A finished element, unless it is empty.
abbrev pub flush : List ℕ → List (List ℕ)
flush [] = []
flush (c ∷ s) = (c ∷ s) ∷ []

-- The path cut at its slashes, after the bytes `s` of an element.
abbrev pub split : List ℕ → List ℕ → List (List ℕ)
split [] s = flush s
split (c ∷ path) s = if c == slash then flush s ++ split path [] else split path (s ++ c ∷ [])

abbrev pub elements : List ℕ → List (List ℕ)
elements path = split path []

abbrev pub is_last : List (List ℕ) → Bool
is_last [] = true
is_last (n ∷ ns) = false

-- The walk of `namex` along a list of names.
abbrev pub walk_names : Bool → ℕ → List (List ℕ) → List ℕ → Fs → Outcome (Option ℕ × List ℕ × Fs)
walk_names parent ip [] name fs = namex_end parent ip name fs
walk_names parent ip (e ∷ es) name fs =
    enter_dir parent ip (name_of e) (is_last es)
      (λ next fs3. walk_names parent next es (name_of e) fs3) fs

skip_slashes_lem :
    (p : List ℕ)
    → (split (skip_slashes p) [] ≡ split p [])
      × ((skip_slashes p ≡ [])
          ⊎ ((c : ℕ) × (q : List ℕ) × (skip_slashes p ≡ c ∷ q)
              × ((c == slash) ≡ false)
              × (length q < length p)))
      × (length (skip_slashes p) ≤ length p)
unfolding skip_slashes
skip_slashes_lem [] = (refl, inl refl, omega arith)
skip_slashes_lem (c ∷ p) = elim (Bool-cases (c == slash)) [
  | inr other ↦ rw other (rw other refl, inr (c, p, refl, other, omega arith), omega arith)
  | inl same ↦
      let ih = skip_slashes_lem p in
      rw same (
        ih.0,
        elim ih.1 [ inl e ↦ inl e | inr (d, q, e, n, l) ↦ inr (d, q, e, n, omega arith) ],
        omega (arith, ih.2),
      )
]

element_lem :
    (p s : List ℕ)
    → (split p s ≡ flush (s ++ (element p).0) ++ split (element p).1 [])
      × (length (element p).1 ≤ length p)
unfolding element
element_lem [] s = (simp (append-nil), omega arith)
element_lem (c ∷ p) s = elim (Bool-cases (c == slash)) [
  | inl same ↦
      let cut : split (c ∷ p) [] ≡ split p [] = rw same refl in
      rw same (
        ap (λ t. flush t ++ split p []) (sym (append-nil s))
            ∙ ap (λ t. flush (s ++ []) ++ t) (sym cut),
        omega arith,
      )
  | inr other ↦
      let ih = element_lem p (s ++ c ∷ []) in
      rw other (ih.0 ∙ (simp (append_assoc)), omega (arith, ih.1))
]

split-begun : (r : List ℕ) (x : ℕ) (s : List ℕ) → is_last (split r (x ∷ s)) ≡ false
split-begun [] x s = refl
split-begun (c ∷ r) x s = elim (Bool-cases (c == slash)) [
  | inl same ↦ rw same refl
  | inr other ↦ rw other (split-begun r x (s ++ c ∷ []))
]

skip_slashes-empty :
    (p : List ℕ) → is_empty_path (skip_slashes p) ≡ is_last (elements (skip_slashes p))
skip_slashes-empty p = elim (skip_slashes_lem p).1 [
  | inl e ↦ rw e refl
  | inr (d, r, e, other, _) ↦ rw e (rw other (sym (split-begun r d [])))
]

-- `skipelem` takes the first element of a path and leaves the others.
skipelem_lem :
    (path : List ℕ)
    → ((skipelem path ≡ none) × (elements path ≡ []))
      ⊎ ((e : List ℕ) × (rest : List ℕ) × (skipelem path ≡ some (name_of e, rest))
          × (elements path ≡ e ∷ elements rest)
          × (is_empty_path rest ≡ is_last (elements rest))
          × (length rest < length path))
unfolding skipelem
skipelem_lem path =
    let skip = skip_slashes_lem path in
    elim skip.1 [
      | inl e ↦ inl (rw (e, skipelem) refl, sym skip.0 ∙ ap (λ p. split p []) e)
      | inr (c, q, e, other, less) ↦
          let left = (element (c ∷ q)).1 in
          let cut = element_lem (c ∷ q) [] in
          let first : element (c ∷ q) ≡ (c ∷ (element q).0, (element q).1) =
            unfold element in (rw other refl) in
          let after = skip_slashes_lem left in
          inr (
            (element (c ∷ q)).0,
            skip_slashes left,
            rw (e, skipelem) refl,
            sym skip.0
                ∙ ap (λ p. split p []) e
                ∙ cut.0
                ∙ ap (λ t. flush t.0 ++ split left []) first
                ∙ ap₂ (λ x y. x ∷ y) (sym (ap (λ t. t.0) first)) (sym after.0),
            skip_slashes-empty left,
            omega (arith, after.2, (element_lem q []).1, ap (λ t. length t.1) first),
          )
    ]

-- A round for each byte is enough for all elements.
namex_loop-elements :
    (k : ℕ) (parent : Bool) (ip : ℕ) (path name : List ℕ) (fs : Fs)
    → length path ≤ k
    → namex_loop k parent ip path name fs ≡ walk_names parent ip (elements path) name fs
unfolding namex_loop
namex_loop-elements zero parent ip [] name fs h = refl
namex_loop-elements zero parent ip (c ∷ path) name fs h = absurd (omega arith)
namex_loop-elements (suc k) parent ip path name fs h = elim (skipelem_lem path) [
  | inl (e, none_left) ↦ rw (e, namex_loop, none_left) refl
  | inr (first, rest, e, cut, last, less) ↦
      let on = λ (next : ℕ) (fs3 : Fs).
        namex_loop-elements k parent next rest (name_of first) fs3 (omega arith) in
      rw (e, namex_loop, cut, last)
        (ap (λ go. enter_dir parent ip (name_of first) (is_last (elements rest)) go fs)
          (fun_ext (λ next. fun_ext (on next))))
]

-- `namex` follows the elements of the path: whatever slashes the path starts or ends with and however
-- many stand between its elements, it does what the walk along the list of the elements does, each cut
-- to 14 bytes, from the root if the path starts with a slash and else from the current directory.
pub namex-elements :
    (path : List ℕ) (parent : Bool) (cwd : ℕ) (name : List ℕ) (fs : Fs)
    → namex path parent cwd name fs
      ≡ (namex_start path cwd fs >>= (λ (ip, fs1). walk_names parent ip (elements path) name fs1))
unfolding namex
namex-elements path parent cwd name fs =
    ap (λ go. namex_start path cwd fs >>= go)
      (fun_ext
        (λ (r : ℕ × Fs). namex_loop-elements (length path) parent r.0 path name r.1 (omega arith)))
