-- ===== src/Manifest/Text.antt =====
-- What tests/vector_manifest.rs calls of the standard library's texts.
use bind.Common.{
  ℕ, ◌+◌, ◌-◌, ◌*◌, ◌≡◌, refl, ap, ◌∙◌, arith, Bool, true, false, not, ◌&&◌, ◌||◌, Option, none,
  some, List, [], ◌∷◌, ◌++◌, All, leb, ◌==◌, if◌then◌else◌, Bool-cases, inl, inr,
}

abbrev pub is_empty : List ℕ → Bool
is_empty [] = true
is_empty (c ∷ s) = false

-- `char::is_whitespace`
abbrev pub is_whitespace : ℕ → Bool
is_whitespace c =
    leb 9 c && leb c 13
    || (c == 32
        || (c == 0x85
            || (c == 0xA0
                || (c == 0x1680
                    || (leb 0x2000 c && leb c 0x200A
                        || (c == 0x2028
                            || (c == 0x2029 || (c == 0x202F || (c == 0x205F || c == 0x3000)))))))))

module _ (p : ℕ → Bool) where
  abbrev pub trim_start_where : List ℕ → List ℕ
  trim_start_where [] = []
  trim_start_where (c ∷ s) = let rest = trim_start_where s in if p c then rest else c ∷ s

  abbrev pub trim_end_where : List ℕ → List ℕ
  trim_end_where [] = []
  trim_end_where (c ∷ s) =
      let rest = trim_end_where s in if is_empty rest && p c then [] else c ∷ rest

  -- The end of a text that does not have the property.
  pub trim_end_where-snoc :
      (s : List ℕ) (c : ℕ) → p c ≡ false → trim_end_where (s ++ (c ∷ [])) ≡ s ++ (c ∷ [])
  trim_end_where-snoc [] c h = rw h refl
  trim_end_where-snoc (d ∷ s) c h = rw (trim_end_where-snoc s c h) (not_empty s)
    where
      not_empty :
          (t : List ℕ)
          → (if is_empty (t ++ (c ∷ [])) && p d then [] else d ∷ (t ++ (c ∷ [])))
            ≡ d ∷ (t ++ (c ∷ []))
      not_empty [] = refl
      not_empty (e ∷ t) = refl

-- `str::trim`
abbrev pub trim : List ℕ → List ℕ
trim s = trim_end_where is_whitespace (trim_start_where is_whitespace s)

-- `str::trim_matches` of a character
abbrev pub trim_matches : ℕ → List ℕ → List ℕ
trim_matches q s = trim_end_where (λ c. c == q) (trim_start_where (λ c. c == q) s)

abbrev pub starts_with : List ℕ → List ℕ → Bool
starts_with [] s = true
starts_with (p ∷ ps) [] = false
starts_with (p ∷ ps) (c ∷ s) = p == c && starts_with ps s

-- `str::strip_prefix`
abbrev pub strip_prefix : List ℕ → List ℕ → Option (List ℕ)
strip_prefix [] s = some s
strip_prefix (p ∷ ps) [] = none
strip_prefix (p ∷ ps) (c ∷ s) = if p == c then strip_prefix ps s else none

-- `str::contains` of a text
abbrev pub contains : List ℕ → List ℕ → Bool
contains needle [] = starts_with needle []
contains needle (c ∷ s) = let later = contains needle s in starts_with needle (c ∷ s) || later

abbrev pub before : ℕ → Option (List ℕ × List ℕ) → Option (List ℕ × List ℕ)
before c none = none
before c (some (a, b)) = some (c ∷ a, b)

-- `str::split_once` of a character
abbrev pub split_once : ℕ → List ℕ → Option (List ℕ × List ℕ)
split_once d [] = none
split_once d (c ∷ s) = let later = split_once d s in if c == d then some ([], s) else before c later

-- Whether the character is in the text.
abbrev pub has : ℕ → List ℕ → Bool
has d [] = false
has d (c ∷ s) = let later = has d s in c == d || later

pub has-append : (d : ℕ) (s t : List ℕ) → has d (s ++ t) ≡ has d s || has d t
has-append d [] t = refl
has-append d (c ∷ s) t = ground (arith, has-append d s t)

-- `str::rsplit_once` of a character
abbrev pub or_here : ℕ → ℕ → List ℕ → Option (List ℕ × List ℕ) → Option (List ℕ × List ℕ)
or_here d c s none = if c == d then some ([], s) else none
or_here d c s (some (a, b)) = some (c ∷ a, b)

abbrev pub rsplit_once : ℕ → List ℕ → Option (List ℕ × List ℕ)
rsplit_once d [] = none
rsplit_once d (c ∷ s) = let later = rsplit_once d s in or_here d c s later

-- A character before the first piece.
abbrev pub onto_first : ℕ → List (List ℕ) → List (List ℕ)
onto_first c [] = (c ∷ []) ∷ []
onto_first c (l ∷ ls) = (c ∷ l) ∷ ls

rsplit_once-none : (d : ℕ) (t : List ℕ) → has d t ≡ false → rsplit_once d t ≡ none
rsplit_once-none d [] h = refl
rsplit_once-none d (c ∷ t) h = ground (arith, rsplit_once-none d t)

pub rsplit_once-append :
    (d : ℕ) (s t : List ℕ) → has d t ≡ false → rsplit_once d (s ++ (d ∷ t)) ≡ some (s, t)
rsplit_once-append d [] t h = rw (rsplit_once-none d t h) (ground arith)
rsplit_once-append d (c ∷ s) t h = rw (rsplit_once-append d s t h) refl

-- `str::split` at the characters with a property: one piece more than there are such characters.
abbrev pub split_where : (ℕ → Bool) → List ℕ → List (List ℕ)
split_where p [] = [] ∷ []
split_where p (c ∷ s) = let rest = split_where p s in if p c then [] ∷ rest else onto_first c rest

split_where-cons :
    (p : ℕ → Bool) (s : List ℕ) → (l : List ℕ) × (ls : List (List ℕ)) × (split_where p s ≡ l ∷ ls)
split_where-cons p [] = ([], [], refl)
split_where-cons p (c ∷ s) =
    let (l, ls, pieces) = split_where-cons p s in
    elim (Bool-cases (p c)) [
      | inl here ↦ ([], split_where p s, rw here refl)
      | inr not_here ↦ (c ∷ l, ls, rw (not_here, pieces) refl)
    ]

-- The pieces on the two sides of a separator.
pub split_where-append :
    (p : ℕ → Bool) (s : List ℕ) (d : ℕ) (t : List ℕ)
    → p d ≡ true
    → split_where p (s ++ (d ∷ t)) ≡ split_where p s ++ split_where p t
split_where-append p [] d t h = rw h refl
split_where-append p (c ∷ s) d t h =
    let (l, ls, pieces) = split_where-cons p s in
    rw (split_where-append p s d t h, pieces)
      (elim (Bool-cases (p c)) [ inl here ↦ rw here refl | inr not_here ↦ rw not_here refl ])

-- A text without a separator is one piece.
pub split_where-one :
    (p : ℕ → Bool) (s : List ℕ) → All (λ c. p c ≡ false) s → split_where p s ≡ s ∷ []
split_where-one p [] h = refl
split_where-one p (c ∷ s) (other, h) = rw (split_where-one p s h, other) refl

-- `str::lines`, but that a carriage return before the line's end is left: every use trims the line.
abbrev pub lines : List ℕ → List (List ℕ)
lines [] = []
lines (c ∷ s) = let rest = lines s in if c == b'\n' then [] ∷ rest else onto_first c rest

-- Lines, each with its end.
abbrev pub unlines : List (List ℕ) → List ℕ
unlines [] = []
unlines (l ∷ ls) = l ++ (b'\n' ∷ unlines ls)

lines-append :
    (l rest : List ℕ) → has b'\n' l ≡ false → lines (l ++ (b'\n' ∷ rest)) ≡ l ∷ lines rest
lines-append [] rest h = refl
lines-append (c ∷ l) rest h = ground (arith, lines-append l rest)

pub lines-unlines :
    (ls : List (List ℕ)) → All (λ l. has b'\n' l ≡ false) ls → lines (unlines ls) ≡ ls
lines-unlines [] h = refl
lines-unlines (l ∷ ls) (one_line, h) =
    lines-append l (unlines ls) one_line ∙ ap (λ rest. l ∷ rest) (lines-unlines ls h)

trim_end-quote :
    (q : ℕ) (s : List ℕ) → has q s ≡ false → trim_end_where (λ c. c == q) (s ++ (q ∷ [])) ≡ s
trim_end-quote q [] h = ground arith
trim_end-quote q (c ∷ s) h = ground (arith, trim_end-quote q s)

-- A text in quotes, without them.
pub trim_matches-quoted :
    (q : ℕ) (s : List ℕ) → has q s ≡ false → trim_matches q (q ∷ (s ++ (q ∷ []))) ≡ s
trim_matches-quoted q [] h = ground arith
trim_matches-quoted q (c ∷ s) h = ground (arith, trim_end-quote q (c ∷ s) h)

-- The digits of a number, after the digits that are read.
abbrev pub digits : ℕ → List ℕ → Option ℕ
digits n [] = some n
digits n (c ∷ s) =
    let rest = digits (n * 10 + (c - b'0')) s in if leb b'0' c && leb c b'9' then rest else none

abbrev pub at_most : ℕ → Option ℕ → Option ℕ
at_most max none = none
at_most max (some n) = if leb n max then some n else none

-- `str::parse` of an integer type up to `max`, for a text without a minus sign.
abbrev pub parse_number : ℕ → List ℕ → Option ℕ
parse_number max [] = none
parse_number max (c ∷ s) =
    if c == b'+' && not (is_empty s)
    then at_most max (digits 0 s)
    else at_most max (digits 0 (c ∷ s))
