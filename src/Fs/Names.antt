-- ===== src/Fs/Names.antt =====
-- kernel/fs.c: path names. A string is the list of its bytes before the NUL.
use os_2_course_work.Prelude.{
  ℕ, zero, suc, Bool, true, false, ◌&&◌, List, [], ◌∷◌, Option, none, some, Outcome, done, ◌>>=◌,
  ◌==◌, leb, if◌then◌else◌, length, take, get_or,
}
use os_2_course_work.Str.{Bytes}
use os_2_course_work.Fs.Table.{Fs, inode_at, iget, idup, ilock, iunlock, iput, iunlockput}
use os_2_course_work.Fs.Directory.{dirsiz, t_dir, dirlookup}

abbrev pub slash : ℕ
slash = 0x2F

-- `while(*path == '/') path++`.
unfoldable pub skip_slashes : List ℕ → List ℕ
skip_slashes [] = []
skip_slashes (c ∷ path) = if c == slash then skip_slashes path else c ∷ path

-- The bytes that `while(*path != '/' && *path != 0) path++` passes, and what it leaves.
unfoldable pub element : List ℕ → List ℕ × List ℕ
element [] = ([], [])
element (c ∷ path) =
    let rest = element path in if c == slash then ([], c ∷ path) else (c ∷ rest.0, rest.1)

-- What is in `name` up to the NUL or the end of the array.
abbrev pub name_of : List ℕ → List ℕ
name_of s = if leb dirsiz (length s) then take dirsiz s else s

unfoldable pub skipelem : List ℕ → Option (List ℕ × List ℕ)
skipelem path = elim (skip_slashes path) [
  | [] ↦ none
  | c ∷ p ↦ let e = element (c ∷ p) in some (name_of e.0, skip_slashes e.1)
]

abbrev pub name_bytes : List ℕ → Bytes
name_bytes s = λ i. get_or s i 0

abbrev pub is_empty_path : List ℕ → Bool
is_empty_path [] = true
is_empty_path (c ∷ path) = false

-- The end of `namex`.
unfoldable pub namex_end : Bool → ℕ → List ℕ → Fs → Outcome (Option ℕ × List ℕ × Fs)
namex_end parent ip name fs =
    if parent then iput ip fs >>= (λ fs1. done (none, name, fs1)) else done (some ip, name, fs)

abbrev pub give_up : ℕ → List ℕ → Fs → Outcome (Option ℕ × List ℕ × Fs)
give_up ip name fs = iunlockput ip fs >>= (λ fs1. done (none, name, fs1))

-- The body of the loop of `namex` for the element `name`; `last` says whether the path ends with it, and
-- `go_on` is the rest of the loop.
unfoldable pub enter_dir :
    Bool
    → ℕ
    → List ℕ
    → Bool
    → (ℕ → Fs → Outcome (Option ℕ × List ℕ × Fs))
    → Fs
    → Outcome (Option ℕ × List ℕ × Fs)
enter_dir parent ip name last go_on fs = ilock ip fs >>= (λ fs1.
    elim ((inode_at fs1 ip).type == t_dir) [
      | false ↦ give_up ip name fs1
      | true ↦ elim (parent && last) [
        | true ↦ iunlock ip fs1 >>= (λ fs2. done (some ip, name, fs2))
        | false ↦ dirlookup ip (name_bytes name) fs1 >>= (λ (found, fs2). elim found [
          | none ↦ give_up ip name fs2
          | some (next, off) ↦ iunlockput ip fs2 >>= go_on next
        ])
      ]
    ])

-- The loop of `namex`: every element takes a byte at least, so a round for each byte suffices.
unfoldable pub namex_loop : ℕ → Bool → ℕ → List ℕ → List ℕ → Fs → Outcome (Option ℕ × List ℕ × Fs)
namex_loop zero parent ip path name fs = namex_end parent ip name fs
namex_loop (suc k) parent ip path name fs = elim (skipelem path) [
  | none ↦ namex_end parent ip name fs
  | some (name1, rest) ↦
      enter_dir parent ip name1 (is_empty_path rest)
        (λ next fs3. namex_loop k parent next rest name1 fs3) fs
]

abbrev pub starts_slash : List ℕ → Bool
starts_slash [] = false
starts_slash (c ∷ path) = c == slash

-- `iget(ROOTDEV, ROOTINO)` or the process's directory, `cwd`.
unfoldable pub namex_start : List ℕ → ℕ → Fs → Outcome (ℕ × Fs)
namex_start path cwd fs =
    if starts_slash path
    then iget 1 1 fs.itable >>= (λ (i, table). done (i, record fs { itable = table }))
    else done (cwd, record fs { itable = idup cwd fs.itable })

unfoldable pub namex : List ℕ → Bool → ℕ → List ℕ → Fs → Outcome (Option ℕ × List ℕ × Fs)
namex path parent cwd name fs =
    namex_start path cwd fs >>= (λ (ip, fs1). namex_loop (length path) parent ip path name fs1)

unfoldable pub namei : List ℕ → ℕ → Fs → Outcome (Option ℕ × List ℕ × Fs)
namei path cwd fs = namex path false cwd [] fs

unfoldable pub nameiparent : List ℕ → ℕ → List ℕ → Fs → Outcome (Option ℕ × List ℕ × Fs)
nameiparent path cwd name fs = namex path true cwd name fs
