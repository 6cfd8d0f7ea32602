-- ===== src/Manifest/Waivers/File.antt =====
-- The waiver file in the form of ci/baseline.toml, and what tests/vector_manifest.rs reads in it.
use bind.Common.{
  ℕ, ◌≡◌, refl, arith, Bool, false, not, ◌&&◌, Option, none, some, List, [], ◌∷◌, ◌++◌, All,
  if◌then◌else◌,
}
use bind.Common.Bytes.{bytes_eq}
use bind.Config.{codes}
use bind.Manifest.Text.{is_empty, has, has-append, unlines}
use bind.Manifest.Waivers.{Ymd, parse_ymd, is_from, Expired, past_due, unparseable}

pub record Waiver : Type 0 where
  pub check : List ℕ
  pub target : List ℕ
  pub reason : List ℕ
  pub owner : List ℕ
  pub due : List ℕ

-- A value without quotes, on one line.
abbrev pub IsPlain : List ℕ → Type 0
IsPlain s = (has b'"' s ≡ false) × (has b'\n' s ≡ false)

pub record IsPlainWaiver (w : Waiver) : Type 0 where
  pub check : IsPlain w.check
  pub target : IsPlain w.target
  pub reason : IsPlain w.reason
  pub owner : IsPlain w.owner
  pub due : IsPlain w.due

abbrev pub quoted : List ℕ → List ℕ → List ℕ
quoted key v = key ++ (codes " = " ++ (b'"' ∷ (v ++ (b'"' ∷ []))))

abbrev pub block : Waiver → List (List ℕ) → List (List ℕ)
block w rest =
    codes "[[waiver]]"
    ∷ quoted (codes "check  ") w.check
    ∷ quoted (codes "target ") w.target
    ∷ quoted (codes "reason ") w.reason
    ∷ quoted (codes "owner  ") w.owner
    ∷ quoted (codes "due    ") w.due
    ∷ []
    ∷ rest

-- The lines of waivers, before other lines.
abbrev pub file_lines : List Waiver → List (List ℕ) → List (List ℕ)
file_lines [] rest = rest
file_lines (w ∷ ws) rest = block w (file_lines ws rest)

-- The file.
abbrev pub render : List Waiver → List ℕ
render ws = unlines (file_lines ws [])

pub quoted-one_line :
    (key v : List ℕ) → has b'\n' key ≡ false → IsPlain v → has b'\n' (quoted key v) ≡ false
quoted-one_line key v h (q, n) = ground (
  arith,
  has-append b'\n' key (codes " = " ++ (b'"' ∷ (v ++ (b'"' ∷ [])))),
  has-append b'\n' v (b'"' ∷ []),
)

abbrev pub IsOneLine : List ℕ → Type 0
IsOneLine l = has b'\n' l ≡ false

pub file_lines-All :
    (ws : List Waiver) (rest : List (List ℕ))
    → All IsPlainWaiver ws
    → All IsOneLine rest
    → All IsOneLine (file_lines ws rest)
file_lines-All [] rest h k = k
file_lines-All (w ∷ ws) rest (plain, h) k =
    let line = quoted-one_line in
    (
      refl,
      (
        line (codes "check  ") w.check refl plain.check,
        (
          line (codes "target ") w.target refl plain.target,
          (
            line (codes "reason ") w.reason refl plain.reason,
            (
              line (codes "owner  ") w.owner refl plain.owner,
              (line (codes "due    ") w.due refl plain.due, (refl, file_lines-All ws rest h k)),
            ),
          ),
        ),
      ),
    )

-- The waivers that this check reads: those of CI-4 with a target.
abbrev pub counts : Waiver → Bool
counts w = bytes_eq w.check (codes "CI-4") && not (is_empty w.target)

-- The date is a date, and not before today.
abbrev pub holds : Ymd → Option Ymd → Bool
holds now none = false
holds now (some d) = is_from d now

abbrev pub waived_of : Ymd → List Waiver → List (List ℕ)
waived_of now [] = []
waived_of now (w ∷ ws) =
    let rest = waived_of now ws in
    if counts w && holds now (parse_ymd w.due) then w.target ∷ rest else rest

abbrev expiry : Waiver → Option Ymd → Expired
expiry w none = unparseable w.target w.due
expiry w (some d) = past_due w.target

abbrev pub expired_of : Ymd → List Waiver → List Expired
expired_of now [] = []
expired_of now (w ∷ ws) =
    let rest = expired_of now ws in
    if counts w && not (holds now (parse_ymd w.due))
    then expiry w (parse_ymd w.due) ∷ rest
    else rest
