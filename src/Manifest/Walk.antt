-- ===== src/Manifest/Walk.antt =====
-- `exercising_sources` of tests/vector_manifest.rs: the walk over a directory with a stack. No link leads
-- back to a directory, so a directory is a tree.
pub mod Finds
use bind.Common.{ℕ, zero, suc, Bool, false, Option, none, some, List, [], ◌∷◌, ◌++◌, if◌then◌else◌}
use bind.Common.Bytes.{bytes_eq}
use bind.Config.{codes}

-- The entries of a directory: files with their path and extension, directories that can be read, and
-- others.
pub data Entries : Type 0 where
  done : Entries
  file : (path : List ℕ) (extension : Option (List ℕ)) → Entries → Entries
  folder : Entries → Entries → Entries
  locked : Entries → Entries

abbrev pub is_rs : Option (List ℕ) → Bool
is_rs none = false
is_rs (some extension) = bytes_eq extension (codes "rs")

-- The directories that wait, the one that is popped next first.
abbrev pub Stack : Type 0
Stack = List (Option Entries)

-- The loop over the entries of a directory.
abbrev pub list_entries : Entries → Stack → List (List ℕ) → Stack × List (List ℕ)
list_entries done stack out = (stack, out)
list_entries (file path extension rest) stack out =
    list_entries rest stack (if is_rs extension then out ++ (path ∷ []) else out)
list_entries (folder entries rest) stack out = list_entries rest (some entries ∷ stack) out
list_entries (locked rest) stack out = list_entries rest (none ∷ stack) out

-- The loop over the stack, of at most `n` rounds.
unfoldable pub walk : ℕ → Stack → List (List ℕ) → Option (List (List ℕ))
walk n [] out = some out
walk zero (dir ∷ stack) out = none
walk (suc n) (none ∷ stack) out = walk n stack out
walk (suc n) (some entries ∷ stack) out =
    let (stack', out') = list_entries entries stack out in walk n stack' out'

-- `exercising_sources`, before the paths are sorted.
abbrev pub exercising_sources : ℕ → Option Entries → Option (List (List ℕ))
exercising_sources n root = walk n (root ∷ []) []
