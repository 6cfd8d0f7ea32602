-- ===== src/Manifest/Ids/Sources.antt =====
-- What `referenced_ids` and `declared_categories` of tests/vector_manifest.rs find is there in the sources.
use bind.Common.{
  ℕ, ◌≡◌, ◌≢◌, ◌⊎◌, refl, ap, arith, Bool, true, false, not, ◌&&◌, ◌||◌, Option, none, some, List,
  [], ◌∷◌, ◌++◌, All, ltb, ◌==◌, Bool-cases, inl, inr,
}
use bind.Config.{codes}
use bind.Manifest.Text.{is_empty, trim, split_where, lines}
use bind.Manifest.Ids.{is_token, is_lower_token}

-- A character of an id: a small letter, a digit, a dash or an underscore.
abbrev pub id_char : ℕ → Bool
id_char c = (ltb 96 c && ltb c 123) || ((ltb 47 c && ltb c 58) || (c == 45 || c == 95))

-- A character of a word: one of an id, or a capital letter.
abbrev pub word_char : ℕ → Bool
word_char c = id_char c || (ltb 64 c && ltb c 91)

-- A word between two characters that are not of words.
pub record IsWordIn (t s : List ℕ) : Type 0 where
  pub before : List ℕ
  pub left : ℕ
  pub right : ℕ
  pub after : List ℕ
  pub parts : s ≡ before ++ (left ∷ (t ++ (right ∷ after)))
  pub left_ends : word_char left ≡ false
  pub right_ends : word_char right ≡ false

-- A text with a space before and after it.
abbrev pub spaced : List ℕ → List ℕ
spaced s = 32 ∷ (s ++ (32 ∷ []))

-- The form of an id: a dash that neither begins nor ends it, and the characters of an id.
pub record IsIdText (id : List ℕ) : Type 0 where
  pub head : List ℕ
  pub tail : List ℕ
  pub parts : id ≡ head ++ (b'-' ∷ tail)
  pub head_there : is_empty head ≡ false
  pub tail_there : is_empty tail ≡ false
  pub no_last_dash : (s : List ℕ) → id ≢ s ++ (b'-' ∷ [])
  pub chars : All (λ c. id_char c ≡ true) id

-- A source that can be read has the property.
abbrev pub SomeSource : (List ℕ → Type 0) → List (Option (List ℕ)) → Type 0
SomeSource P [] = ⊥
SomeSource P (none ∷ ss) = SomeSource P ss
SomeSource P (some text ∷ ss) = P text ⊎ SomeSource P ss

abbrev pub SomeLine : (List ℕ → Type 0) → List (List ℕ) → Type 0
SomeLine P [] = ⊥
SomeLine P (l ∷ ls) = P l ⊎ SomeLine P ls

-- A line that names a category.
pub record Categorizes (category line : List ℕ) : Type 0 where
  pub rest : List ℕ
  pub parts : trim line ≡ codes "//! vector-category:" ++ rest
  pub name : trim rest ≡ category
  pub there : is_empty category ≡ false

-- A loader of a category: it has the path of the vectors in it, and a line that names the category.
pub record IsLoader (category text : List ℕ) : Type 0 where
  pub before : List ℕ
  pub after : List ℕ
  pub has_path :
      text ≡ before ++ (codes "tests/test_vectors/ci-144-v2.0-test-vectors.json" ++ after)
  pub line : SomeLine (Categorizes category) (lines text)

separates-word_char : (c : ℕ) → not (is_token c) ≡ true → word_char c ≡ false
separates-word_char c h = ground arith

pub lower-id_char : (c : ℕ) → is_lower_token c ≡ true → id_char c ≡ true
lower-id_char c h = ground arith

abbrev pub separates : ℕ → Bool
separates c = not (is_token c)

further : (c : ℕ) (t s : List ℕ) → IsWordIn t s → IsWordIn t (c ∷ s)
further c t s w = record {
  before = c ∷ w.before;
  left = w.left;
  right = w.right;
  after = w.after;
  parts = ap (λ u. c ∷ u) w.parts;
  left_ends = w.left_ends;
  right_ends = w.right_ends;
}

further-All :
    (c : ℕ) (s : List ℕ) (ts : List (List ℕ))
    → All (λ t. IsWordIn t s) ts
    → All (λ t. IsWordIn t (c ∷ s)) ts
further-All c s [] h = tt
further-All c s (t ∷ ts) (w, h) = (further c t s w, further-All c s ts h)

-- The first piece of a text, up to a character that ends a word, and the other pieces.
record Pieces (s : List ℕ) : Type 0 where
  first : List ℕ
  others : List (List ℕ)
  are : split_where separates s ≡ first ∷ others
  right : ℕ
  after : List ℕ
  parts : s ++ (32 ∷ []) ≡ first ++ (right ∷ after)
  right_ends : word_char right ≡ false
  words : All (λ t. IsWordIn t (s ++ (32 ∷ []))) others

opened :
    (c : ℕ) (s : List ℕ)
    → word_char c ≡ false
    → (p : Pieces s) → IsWordIn p.first (c ∷ (s ++ (32 ∷ [])))
opened c s ends p = record {
  before = [];
  left = c;
  right = p.right;
  after = p.after;
  parts = ap (λ u. c ∷ u) p.parts;
  left_ends = ends;
  right_ends = p.right_ends;
}

pieces : (s : List ℕ) → Pieces s
pieces [] = record {
  first = [];
  others = [];
  are = refl;
  right = 32;
  after = [];
  parts = refl;
  right_ends = refl;
  words = tt;
}
pieces (c ∷ s) = elim (Bool-cases (separates c)) [
  | inl here ↦
      let p = pieces s in
      let ends = separates-word_char c here in
      record {
        first = [];
        others = split_where separates s;
        are = rw here refl;
        right = c;
        after = s ++ (32 ∷ []);
        parts = refl;
        right_ends = ends;
        words = rw p.are (opened c s ends p, further-All c (s ++ (32 ∷ [])) p.others p.words);
      }
  | inr not_here ↦
      let p = pieces s in
      record {
        first = c ∷ p.first;
        others = p.others;
        are = rw (not_here, p.are) refl;
        right = p.right;
        after = p.after;
        parts = ap (λ u. c ∷ u) p.parts;
        right_ends = p.right_ends;
        words = further-All c (s ++ (32 ∷ [])) p.others p.words;
      }
]

-- The pieces of a text are words of it.
pub words_lem : (s : List ℕ) → All (λ t. IsWordIn t (spaced s)) (split_where separates s)
words_lem s =
    let p = pieces s in
    rw p.are (opened 32 s refl p, further-All 32 (s ++ (32 ∷ [])) p.others p.words)
