-- ===== src/Manifest/Walk/Finds.antt =====
-- The walk of tests/vector_manifest.rs ends and finds every source.
use bind.Common.{
  ℕ, zero, suc, ◌+◌, ◌≤◌, ◌≡◌, refl, arith, Bool, true, false, ◌&&◌, Option, none, some, List, [],
  ◌∷◌, ◌++◌, if◌then◌else◌,
}
use bind.Common.Bytes.{bytes_eq}
use bind.Manifest.Walk.{
  Entries, done, file, folder, locked, is_rs, Stack, list_entries, walk, exercising_sources,
}

-- The directories below one.
abbrev pub folders : Entries → ℕ
folders done = 0
folders (file path extension rest) = folders rest
folders (folder entries rest) = 1 + folders entries + folders rest
folders (locked rest) = 1 + folders rest

abbrev as_number : Bool → ℕ
as_number true = 1
as_number false = 0

abbrev pub count : List ℕ → List (List ℕ) → ℕ
count p [] = 0
count p (q ∷ out) = as_number (bytes_eq p q) + count p out

-- How often a path is that of a source below a directory.
abbrev pub times : List ℕ → Entries → ℕ
times p done = 0
times p (file path extension rest) = as_number (is_rs extension && bytes_eq p path) + times p rest
times p (folder entries rest) = times p entries + times p rest
times p (locked rest) = times p rest

abbrev pub directories : Option Entries → ℕ
directories none = 1
directories (some entries) = 1 + folders entries

abbrev pub sources_of : List ℕ → Option Entries → ℕ
sources_of p none = 0
sources_of p (some entries) = times p entries

abbrev waiting : Stack → ℕ
waiting [] = 0
waiting (dir ∷ stack) = directories dir + waiting stack

abbrev to_find : List ℕ → Stack → ℕ
to_find p [] = 0
to_find p (dir ∷ stack) = sources_of p dir + to_find p stack

count-snoc :
    (p q : List ℕ) (out : List (List ℕ))
    → count p (out ++ (q ∷ [])) ≡ count p out + as_number (bytes_eq p q)
count-snoc p q [] = omega arith
count-snoc p q (r ∷ out) = omega (arith, count-snoc p q out)

count_file :
    (p path : List ℕ) (source : Bool) (out : List (List ℕ))
    → count p (if source then out ++ (path ∷ []) else out)
      ≡ count p out + as_number (source && bytes_eq p path)
count_file p path true out = count-snoc p path out
count_file p path false out = omega arith

-- The entries of a directory are put on the stack or out, each once.
list_entries_lem :
    (entries : Entries) (stack : Stack) (out : List (List ℕ)) (p : List ℕ)
    → let (stack', out') = list_entries entries stack out in
      (waiting stack' ≡ waiting stack + folders entries)
      × (count p out' + to_find p stack' ≡ count p out + to_find p stack + times p entries)
list_entries_lem done stack out p = (omega arith, omega arith)
list_entries_lem (file path extension rest) stack out p =
    let out' = if is_rs extension then out ++ (path ∷ []) else out in
    let (waits, found) = list_entries_lem rest stack out' p in
    (waits, omega (arith, found, count_file p path (is_rs extension) out))
list_entries_lem (folder entries rest) stack out p =
    let (waits, found) = list_entries_lem rest (some entries ∷ stack) out p in
    (omega (arith, waits), omega (arith, found))
list_entries_lem (locked rest) stack out p =
    let (waits, found) = list_entries_lem rest (none ∷ stack) out p in
    (omega (arith, waits), omega (arith, found))

walk_lem :
    (n : ℕ) (stack : Stack) (out : List (List ℕ))
    → waiting stack ≤ n
    → (found : List (List ℕ)) × (walk n stack out ≡ some found)
      × ((p : List ℕ) → count p found ≡ count p out + to_find p stack)
unfolding walk
walk_lem zero [] out h = (out, refl, λ p. omega arith)
walk_lem (suc n) [] out h = (out, refl, λ p. omega arith)
walk_lem zero (none ∷ stack) out h = absurd (omega (arith, h))
walk_lem zero (some entries ∷ stack) out h = absurd (omega (arith, h))
walk_lem (suc n) (none ∷ stack) out h =
    let (found, ends, counts) = walk_lem n stack out (omega (arith, h)) in
    (found, ends, λ p. omega (arith, counts p))
walk_lem (suc n) (some entries ∷ stack) out h =
    let (stack', out') = list_entries entries stack out in
    let (found, ends, counts) =
      walk_lem n stack' out' (omega (arith, h, (list_entries_lem entries stack out []).0)) in
    (found, ends, λ p. omega (arith, counts p, (list_entries_lem entries stack out p).1))

-- The walk ends within as many rounds as there are directories below the first one, that one included,
-- and finds every file with the extension `rs` in a directory that can be read as often as it is there,
-- and no other path.
pub exercising_sources_lem :
    (root : Option Entries) (n : ℕ)
    → directories root ≤ n
    → (found : List (List ℕ)) × (exercising_sources n root ≡ some found)
      × ((p : List ℕ) → count p found ≡ sources_of p root)
exercising_sources_lem root n h =
    let (found, ends, counts) = walk_lem n (root ∷ []) [] (omega (arith, h)) in
    (found, ends, λ p. omega (arith, counts p))
