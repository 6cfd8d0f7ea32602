-- ===== src/Manifest/Waivers.antt =====
-- The waiver file of tests/vector_manifest.rs, ci/baseline.toml: a date after which a vector that no
-- test exercises is an error again.
pub mod File
pub mod Block
pub mod Reads
pub mod Dated
use bind.Common.{
  ℕ, Bool, true, false, not, ◌&&◌, ◌||◌, Option, none, some, List, [], ◌∷◌, ◌++◌, ltb, leb, ◌==◌,
  if◌then◌else◌,
}
use bind.Common.Bytes.{bytes_eq}
use bind.Config.{codes}
use bind.Manifest.Text.{
  is_empty, trim, trim_matches, starts_with, split_once, split_where, lines, parse_number,
}

pub record Ymd : Type 0 where
  pub y : ℕ
  pub m : ℕ
  pub d : ℕ

abbrev both : Option ℕ → Option ℕ → Option ℕ → Option Ymd
both (some y) (some m) (some d) = some (record { y = y; m = m; d = d })
both _ _ _ = none

abbrev ymd_of : List (List ℕ) → Option Ymd
ymd_of (y ∷ (m ∷ (d ∷ rest))) =
    both (parse_number 2147483647 y) (parse_number 4294967295 m) (parse_number 4294967295 d)
ymd_of _ = none

-- `parse_ymd`: what follows a third part is not looked at.
unfoldable pub parse_ymd : List ℕ → Option Ymd
parse_ymd s = ymd_of (split_where (λ c. c == b'-') s)

-- `a >= b` of two dates
abbrev pub is_from : Ymd → Ymd → Bool
is_from a b = ltb b.y a.y || (a.y == b.y && (ltb b.m a.m || (a.m == b.m && leb b.d a.d)))

-- `today`, of the variable CI_TODAY.
abbrev default_day : Ymd
default_day = record { y = 2026; m = 9; d = 18 }

abbrev or_default : Option Ymd → Ymd
or_default none = default_day
or_default (some d) = d

unfoldable pub today : Option (List ℕ) → Ymd
today none = default_day
today (some v) = or_default (parse_ymd v)

-- An entry of `expired`: past its date, or with a date that cannot be read.
pub data Expired : Type 0 where
  past_due : (target : List ℕ) → Expired
  unparseable : (target due : List ℕ) → Expired

pub record Verdicts : Type 0 where
  pub waived : List (List ℕ)
  pub expired : List Expired

abbrev judge : Ymd → List ℕ → List ℕ → Option Ymd → Verdicts → Verdicts
judge now target due none v = record v { expired = v.expired ++ (unparseable target due ∷ []) }
judge now target due (some d) v =
    if is_from d now
    then record v { waived = v.waived ++ (target ∷ []) }
    else record v { expired = v.expired ++ (past_due target ∷ []) }

-- `flush`
unfoldable pub flush : Ymd → List ℕ → List ℕ → List ℕ → Verdicts → Verdicts
flush now check target due v =
    if not (bytes_eq check (codes "CI-4")) || is_empty target
    then v
    else judge now target due (parse_ymd due) v

-- The variables of the loop.
pub record Reader : Type 0 where
  pub check : List ℕ
  pub target : List ℕ
  pub due : List ℕ
  pub verdicts : Verdicts

-- The `match` on the key.
abbrev pub assign : List ℕ → List ℕ → Reader → Reader
assign k v r =
    if bytes_eq k (codes "check")
    then record r { check = v }
    else if bytes_eq k (codes "target")
    then record r { target = v }
    else if bytes_eq k (codes "due")
    then record r { due = v }
    else r

abbrev assign_pair : Option (List ℕ × List ℕ) → Reader → Reader
assign_pair none r = r
assign_pair (some (k, v)) r = assign (trim k) (trim_matches b'"' (trim v)) r

module _ (now : Ymd) where
  abbrev pub flushed : Reader → Verdicts
  flushed r = flush now r.check r.target r.due r.verdicts

  -- A line, trimmed.
  unfoldable pub read_line : List ℕ → Reader → Reader
  read_line line r =
      if starts_with (b'[' ∷ []) line
      then (if bytes_eq line (codes "[[waiver]]")
          then record { check = []; target = []; due = []; verdicts = flushed r }
          else r)
      else assign_pair (split_once b'=' line) r

  unfoldable pub read_lines : List (List ℕ) → Reader → Reader
  read_lines [] r = r
  read_lines (l ∷ ls) r = read_lines ls (read_line (trim l) r)

  abbrev pub new_reader : Reader
  new_reader = record {
    check = [];
    target = [];
    due = [];
    verdicts = record { waived = []; expired = [] };
  }

  -- `waived_and_expired`
  unfoldable pub waived_and_expired : Option (List ℕ) → Verdicts
  waived_and_expired none = record { waived = []; expired = [] }
  waived_and_expired (some text) = flushed (read_lines (lines text) new_reader)
