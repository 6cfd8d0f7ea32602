-- ===== src/Manifest/Waivers/Dated.antt =====
-- The waivers of ci/baseline.toml as they are meant, with a date or none, and what
-- tests/vector_manifest.rs makes of them.
use bind.Common.{
  ℕ, ◌+◌, ◌*◌, ◌/◌, ◌%◌, ◌<◌, ◌≡◌, refl, ap, ◌∙◌, arith, Bool, false, not, ◌&&◌, ◌||◌, none, some,
  List, [], ◌∷◌, ◌++◌, map, All, ltb, ◌==◌, if◌then◌else◌,
}
use bind.Manifest.Text.{has, split_where-one, parse_number, digits, at_most}
use bind.Manifest.Waivers.{
  Ymd, parse_ymd, is_from, Expired, past_due, unparseable, waived_and_expired,
}
use bind.Manifest.Waivers.File.{Waiver, IsPlainWaiver, counts, render, waived_of, expired_of}
use bind.Manifest.Waivers.Reads.{read_waivers}

-- The date of a waiver, or a text that is none.
pub data Due : Type 0 where
  on : Ymd → Due
  undated : List ℕ → Due

pub record DatedWaiver : Type 0 where
  pub check : List ℕ
  pub target : List ℕ
  pub reason : List ℕ
  pub owner : List ℕ
  pub due : Due

abbrev digit : ℕ → ℕ
digit n = b'0' + n % 10

abbrev two_digits : ℕ → List ℕ
two_digits n = digit (n / 10) ∷ digit n ∷ []

abbrev four_digits : ℕ → List ℕ
four_digits n = digit (n / 1000) ∷ digit (n / 100) ∷ digit (n / 10) ∷ digit n ∷ []

-- A date as YYYY-MM-DD.
abbrev pub date_text : Ymd → List ℕ
date_text d = four_digits d.y ++ (b'-' ∷ (two_digits d.m ++ (b'-' ∷ two_digits d.d)))

abbrev pub due_text : Due → List ℕ
due_text (on d) = date_text d
due_text (undated s) = s

abbrev pub written : DatedWaiver → Waiver
written w = record {
  check = w.check;
  target = w.target;
  reason = w.reason;
  owner = w.owner;
  due = due_text w.due;
}

-- The numbers of a date have as many digits as they are written with, and a text that is no date has
-- no dash.
abbrev pub IsDue : Due → Type 0
IsDue (on d) = (d.y < 10000) × (d.m < 100) × (d.d < 100)
IsDue (undated s) = has b'-' s ≡ false

pub record IsDatedWaiver (w : DatedWaiver) : Type 0 where
  pub plain : IsPlainWaiver (written w)
  pub due : IsDue w.due

-- The first day is before the second one.
abbrev pub is_earlier : Ymd → Ymd → Bool
is_earlier a b = ltb a.y b.y || (a.y == b.y && (ltb a.m b.m || (a.m == b.m && ltb a.d b.d)))

-- A waiver holds up to its date, that day included.
abbrev pub is_running : Ymd → Due → Bool
is_running now (on d) = not (is_earlier d now)
is_running now (undated s) = false

abbrev pub running : Ymd → List DatedWaiver → List (List ℕ)
running now [] = []
running now (w ∷ ws) =
    let rest = running now ws in
    if counts (written w) && is_running now w.due then w.target ∷ rest else rest

abbrev ending : List ℕ → Due → Expired
ending target (on d) = past_due target
ending target (undated s) = unparseable target s

abbrev pub ended : Ymd → List DatedWaiver → List Expired
ended now [] = []
ended now (w ∷ ws) =
    let rest = ended now ws in
    if counts (written w) && not (is_running now w.due) then ending w.target w.due ∷ rest else rest

abbrev is_dash : ℕ → Bool
is_dash c = c == b'-'

no_plus : (n : ℕ) → (digit n == b'+') ≡ false
no_plus n = ground arith

digits-digit : (k n : ℕ) (s : List ℕ) → digits k (digit n ∷ s) ≡ digits (k * 10 + n % 10) s
digits-digit k n s = ground arith

parse_digits :
    (max n : ℕ) (s : List ℕ) → parse_number max (digit n ∷ s) ≡ at_most max (digits 0 (digit n ∷ s))
parse_digits max n s = rw (no_plus n) refl

at_most_lem : (max v n : ℕ) → v ≡ n → n < max → at_most max (some v) ≡ some n
at_most_lem max v n e h = ground arith

number_two : (max n : ℕ) → n < 100 → 100 < max → parse_number max (two_digits n) ≡ some n
number_two max n h m =
    parse_digits max (n / 10) (digit n ∷ [])
    ∙ ap (at_most max)
        (digits-digit 0 (n / 10) (digit n ∷ []) ∙ digits-digit (0 * 10 + n / 10 % 10) n [])
    ∙ at_most_lem max ((0 * 10 + n / 10 % 10) * 10 + n % 10) n (omega arith) (omega arith)

number_four : (max n : ℕ) → n < 10000 → 10000 < max → parse_number max (four_digits n) ≡ some n
number_four max n h m =
    let a = 0 * 10 + n / 1000 % 10 in
    let b = a * 10 + n / 100 % 10 in
    let c = b * 10 + n / 10 % 10 in
    parse_digits max (n / 1000) (digit (n / 100) ∷ digit (n / 10) ∷ digit n ∷ [])
    ∙ ap (at_most max) (
        digits-digit 0 (n / 1000) (digit (n / 100) ∷ digit (n / 10) ∷ digit n ∷ [])
        ∙ digits-digit a (n / 100) (digit (n / 10) ∷ digit n ∷ [])
        ∙ digits-digit b (n / 10) (digit n ∷ [])
        ∙ digits-digit c n [])
    ∙ at_most_lem max (c * 10 + n % 10) n (omega arith) (omega arith)

no_dash : (n : ℕ) → is_dash (digit n) ≡ false
no_dash n = ground arith

parse_ymd-date_text :
    (d : Ymd) → d.y < 10000 → d.m < 100 → d.d < 100 → parse_ymd (date_text d) ≡ some d
unfolding parse_ymd
parse_ymd-date_text d y m day =
    rw
      (
        no_dash (d.y / 1000),
        no_dash (d.y / 100),
        no_dash (d.y / 10),
        no_dash d.y,
        no_dash (d.m / 10),
        no_dash d.m,
        no_dash (d.d / 10),
        no_dash d.d,
      )
      (rw
        (
          number_four 2147483647 d.y y (omega arith),
          number_two 4294967295 d.m m (omega arith),
          number_two 4294967295 d.d day (omega arith),
        )
        refl)

no_dashes : (s : List ℕ) → has b'-' s ≡ false → All (λ c. is_dash c ≡ false) s
no_dashes [] h = tt
no_dashes (c ∷ s) h = (ground arith, no_dashes s (ground arith))

parse_ymd-undated : (s : List ℕ) → has b'-' s ≡ false → parse_ymd s ≡ none
unfolding parse_ymd
parse_ymd-undated s h = rw (split_where-one is_dash s (no_dashes s h)) refl

is_from_lem : (d now : Ymd) → is_from d now ≡ not (is_earlier d now)
is_from_lem d now = ground arith

-- What the program reads in the dates of waivers that are written.
running_lem :
    (now : Ymd) (ws : List DatedWaiver)
    → All IsDatedWaiver ws
    → (waived_of now (map written ws) ≡ running now ws)
      × (expired_of now (map written ws) ≡ ended now ws)
running_lem now [] h = (refl, refl)
running_lem now (w ∷ ws) (dated, h) =
    let (waived, expired) = running_lem now ws h in go w.due dated.due waived expired
  where
    go :
        (due : Due)
        → IsDue due
        → waived_of now (map written ws) ≡ running now ws
        → expired_of now (map written ws) ≡ ended now ws
        → (waived_of now (written (record w { due = due }) ∷ map written ws)
            ≡ running now (record w { due = due } ∷ ws))
          × (expired_of now (written (record w { due = due }) ∷ map written ws)
              ≡ ended now (record w { due = due } ∷ ws))
    go (on d) (y, m, day) waived expired =
        rw (parse_ymd-date_text d y m day, is_from_lem d now, waived, expired) (refl, refl)
    go (undated s) no_date waived expired =
        rw (parse_ymd-undated s no_date, waived, expired) (refl, refl)

plain_waivers : (ws : List DatedWaiver) → All IsDatedWaiver ws → All IsPlainWaiver (map written ws)
plain_waivers [] h = tt
plain_waivers (w ∷ ws) (dated, h) = (dated.plain, plain_waivers ws h)

-- Of a file in the form of ci/baseline.toml with waivers whose values are on one line and have no
-- quotes, each with a date YYYY-MM-DD or with a text without a dash in its place, the reader finds, in
-- order, the waivers of CI-4 with a target: as waived those whose date is not before today, and as
-- expired the others; a waiver without a date is expired. Reason and owner make no difference, nor do
-- the waivers of other checks.
pub waived_and_expired_lem :
    (now : Ymd) (ws : List DatedWaiver)
    → All IsDatedWaiver ws
    → waived_and_expired now (some (render (map written ws)))
      ≡ record { waived = running now ws; expired = ended now ws }
waived_and_expired_lem now ws h =
    let (waived, expired) = running_lem now ws h in
    read_waivers now (map written ws) (plain_waivers ws h) ∙ λ i. record {
      waived = waived i;
      expired = expired i;
    }
