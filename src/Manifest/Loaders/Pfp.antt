-- ===== src/Manifest/Loaders/Pfp.antt =====
-- tests/vector_pfp_codec.rs: the loader of the PFP vectors.
use bind.Common.{
  ℕ, ◌+◌, Option, Bool, true, false, ◌&&◌, List, [], ◌∷◌, map, length, ◌==◌, leb, get_or,
  if◌then◌else◌, ok, panic, ◌>>=◌, ◌>>◌, assert,
}
use bind.Common.Bytes.{bytes_eq}
use bind.Config.{codes}
use bind.Pfp
use bind.Pfp.Enums.{
  Modality, RiskLevel, BodyStance, ProximityEdge, OutputDest, OverrideFlag, cognitive, render,
  sensor_feed, executive, low, medium, critical, catastrophic, unknown, standing, moving, seated,
  safe, warning, danger, critical_edge, internal, external, normal, hard_override, modality_to_bits,
  risk_level_to_bits, body_stance_to_bits, proximity_edge_to_bits, output_dest_to_bit,
  override_flag_to_bit,
}
use bind.Vectors.Hex.{hex}
use bind.Manifest.Loaders.{collect, load}
use bind.Manifest.Passes.{Run, each}

pub record Input : Type 0 where
  pub modality : List ℕ
  pub risk_level : List ℕ
  pub body_stance : List ℕ
  pub proximity_edge : List ℕ
  pub output_dest : List ℕ
  pub override_flag : List ℕ
  pub replay_enable : Bool

pub record Expected : Type 0 where
  pub encoded_hex : List ℕ
  pub encoded_bytes : List ℕ
  pub size : ℕ
  pub family_magic : List ℕ

pub record Vector : Type 0 where
  pub id : List ℕ
  pub input : Input
  pub expected : Expected

unfoldable pub modality : List ℕ → Run Modality
modality s =
    if bytes_eq s (codes "Cognitive")
    then ok cognitive
    else if bytes_eq s (codes "Render")
    then ok render
    else if bytes_eq s (codes "Executive")
    then ok executive
    else if bytes_eq s (codes "SensorFeed")
    then ok sensor_feed
    else panic

unfoldable pub risk : List ℕ → Run RiskLevel
risk s =
    if bytes_eq s (codes "Low")
    then ok low
    else if bytes_eq s (codes "Medium")
    then ok medium
    else if bytes_eq s (codes "Critical")
    then ok critical
    else if bytes_eq s (codes "Catastrophic")
    then ok catastrophic
    else panic

unfoldable pub stance : List ℕ → Run BodyStance
stance s =
    if bytes_eq s (codes "Seated")
    then ok seated
    else if bytes_eq s (codes "Standing")
    then ok standing
    else if bytes_eq s (codes "Moving")
    then ok moving
    else if bytes_eq s (codes "Unknown")
    then ok unknown
    else panic

unfoldable pub edge : List ℕ → Run ProximityEdge
edge s =
    if bytes_eq s (codes "Safe")
    then ok safe
    else if bytes_eq s (codes "Warning")
    then ok warning
    else if bytes_eq s (codes "Danger")
    then ok danger
    else if bytes_eq s (codes "CriticalEdge")
    then ok critical_edge
    else panic

unfoldable pub dest : List ℕ → Run OutputDest
dest s =
    if bytes_eq s (codes "Internal")
    then ok internal
    else if bytes_eq s (codes "External")
    then ok external
    else panic

unfoldable pub override_flag : List ℕ → Run OverrideFlag
override_flag s =
    if bytes_eq s (codes "Normal")
    then ok normal
    else if bytes_eq s (codes "HardOverride")
    then ok hard_override
    else panic

abbrev pub header_of : Input → Run Pfp.PfpHeader
header_of i = do
  m ← modality i.modality
  r ← risk i.risk_level
  b ← stance i.body_stance
  p ← edge i.proximity_edge
  d ← dest i.output_dest
  o ← override_flag i.override_flag
  ok (Pfp.new m r b p d o i.replay_enable)

-- `encode_vector`
unfoldable pub encode_vector : Vector → Run (List ℕ)
encode_vector v = do header ← header_of v.input; ok (Pfp.encode header)

-- `trim_start_matches` of a text of two characters
abbrev pub trim_start_pair : ℕ → ℕ → List ℕ → List ℕ
trim_start_pair a b [] = []
trim_start_pair a b (c ∷ []) = c ∷ []
trim_start_pair a b (c ∷ (d ∷ s)) =
    let rest = trim_start_pair a b s in if c == a && d == b then rest else c ∷ d ∷ s

-- `to_lowercase`, but that a character beyond ASCII is left: none of them has a hexadecimal digit as its
-- lower case.
abbrev pub to_lowercase : List ℕ → List ℕ
to_lowercase [] = []
to_lowercase (c ∷ s) = (if leb b'A' c && leb c b'Z' then c + 32 else c) ∷ to_lowercase s

-- The body of the loop of `pfp_codec_vectors_encode_as_declared`.
unfoldable pub check_encoding : Vector → Run (Unit {0})
check_encoding v = do
  got ← encode_vector v
  assert (length got == v.expected.size)
  assert (bytes_eq got v.expected.encoded_bytes)
  assert (bytes_eq (hex got) v.expected.encoded_hex)
  let magic = hex (get_or got 0 0 ∷ get_or got 1 0 ∷ [])
  let declared = trim_start_pair b'0' b'X' (trim_start_pair b'0' b'x' v.expected.family_magic)
  assert (bytes_eq magic (to_lowercase declared))

-- `pfp_codec_vectors_encode_as_declared`: five vectors are loaded, and each is checked.
abbrev pub encode_as_declared : Option (List (Option Vector)) → Run (Unit {0})
encode_as_declared json = load json >>= each check_encoding

-- `==` of two flags
abbrev pub same_flag : Bool → Bool → Bool
same_flag true b = b
same_flag false true = false
same_flag false false = true

-- The body of the loop of `pfp_codec_vectors_round_trip_through_decode`. Two values of a field are equal if their
-- bits are.
unfoldable pub check_round_trip : Vector → Run (Unit {0})
check_round_trip v = do
  encoded ← encode_vector v
  let decoded = Pfp.decode encoded
  assert (bytes_eq (Pfp.encode decoded) encoded)
  m ← modality v.input.modality
  assert (modality_to_bits decoded.modality == modality_to_bits m)
  r ← risk v.input.risk_level
  assert (risk_level_to_bits decoded.risk_level == risk_level_to_bits r)
  b ← stance v.input.body_stance
  assert (body_stance_to_bits decoded.body_stance == body_stance_to_bits b)
  p ← edge v.input.proximity_edge
  assert (proximity_edge_to_bits decoded.proximity_edge == proximity_edge_to_bits p)
  d ← dest v.input.output_dest
  assert (same_flag (output_dest_to_bit decoded.output_dest) (output_dest_to_bit d))
  o ← override_flag v.input.override_flag
  assert (same_flag (override_flag_to_bit decoded.override_flag) (override_flag_to_bit o))
  assert (same_flag decoded.replay_enable v.input.replay_enable)

-- `pfp_codec_vectors_round_trip_through_decode`
abbrev pub round_trip : Option (List (Option Vector)) → Run (Unit {0})
round_trip json = load json >>= each check_round_trip

-- The text of an encoding in the other tests.
unfoldable pub encoded_hex : Vector → Run (List ℕ)
encoded_hex v = do got ← encode_vector v; ok (hex got)

abbrev pub encodings : List Vector → Run (List (List ℕ))
encodings [] = ok []
encodings (v ∷ vs) = do got ← encode_vector v; rest ← encodings vs; ok (got ∷ rest)

-- `the_category_has_five_distinct_vectors`, after the vectors are loaded: the keys of a map are a set.
unfoldable pub five_distinct : List Vector → Run (Unit {0})
five_distinct vs = do
  assert (length (collect (map (λ (v : Vector). v.id) vs) []) == length vs)
  by_bytes ← encodings vs
  assert (length (collect by_bytes []) == length vs)
