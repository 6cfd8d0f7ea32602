-- ===== src/Manifest/Loaders/Sap.antt =====
-- tests/vector_sap_codec.rs: the loader of the SAP vectors.
use bind.Common.{
  ℕ, ◌+◌, ◌*◌, Option, none, some, List, [], ◌∷◌, length, ◌==◌, if◌then◌else◌, ok, panic, ◌>>=◌,
  ◌>>◌, assert, or_panic,
}
use bind.Common.Bytes.{bytes_eq}
use bind.Sap
use bind.Vectors.Hex.{hex, digit_value}
use bind.Manifest.Passes.{Run, each}
use bind.Manifest.Loaders.{load}

pub record Input : Type 0 where
  pub seq_counter : ℕ
  pub pah_hash_hex : List ℕ
  pub pah_signature_hex : List ℕ

pub record Expected : Type 0 where
  pub encoded_hex : List ℕ
  pub encoded_bytes : List ℕ
  pub size : ℕ

pub record Vector : Type 0 where
  pub id : List ℕ
  pub input : Input
  pub expected : Expected

abbrev pub two_digits : Option ℕ → Option ℕ → Option ℕ
two_digits (some high) (some low) = some (high * 16 + low)
two_digits _ _ = none

-- `u8::from_str_radix` of two characters, base 16: a plus sign may stand before one digit.
abbrev pub from_str_radix : ℕ → ℕ → Option ℕ
from_str_radix a b = if a == b'+' then digit_value b else two_digits (digit_value a) (digit_value b)

abbrev pub pairs : List ℕ → Run (List ℕ)
pairs [] = ok []
pairs (a ∷ []) = panic
pairs (a ∷ (b ∷ s)) = do byte ← or_panic (from_str_radix a b); rest ← pairs s; ok (byte ∷ rest)

-- `unhex`. A text with a character beyond ASCII has another length in bytes, and fails either way.
unfoldable pub unhex : ℕ → List ℕ → Run (List ℕ)
unhex n s = do assert (length s == n * 2); pairs s

-- `encode`
unfoldable pub encode : Vector → Run (List ℕ)
encode v = do
  hash ← unhex Sap.pah_size v.input.pah_hash_hex
  signature ← unhex Sap.sig_size v.input.pah_signature_hex
  ok (Sap.encode (Sap.new v.input.seq_counter hash signature))

-- The body of the loop of `sap_codec_vectors_encode_as_declared`.
unfoldable pub check_encoding : Vector → Run (Unit {0})
check_encoding v = do
  got ← encode v
  assert (length got == v.expected.size)
  assert (bytes_eq got v.expected.encoded_bytes)
  assert (bytes_eq (hex got) v.expected.encoded_hex)

-- `sap_codec_vectors_encode_as_declared`: five vectors are loaded, and each is checked.
abbrev pub encode_as_declared : Option (List (Option Vector)) → Run (Unit {0})
encode_as_declared json = load json >>= each check_encoding

-- The body of the loop of `sap_codec_vectors_round_trip`.
unfoldable pub check_round_trip : Vector → Run (Unit {0})
check_round_trip v = do
  buf ← encode v
  assert (length buf == 28)
  let decoded = Sap.decode buf
  assert (bytes_eq (Sap.encode decoded) buf)
  assert (decoded.seq_counter == v.input.seq_counter)

-- `sap_codec_vectors_round_trip`
abbrev pub round_trip : Option (List (Option Vector)) → Run (Unit {0})
round_trip json = load json >>= each check_round_trip

-- The text of an encoding in `sap_codec_matches_the_reference_golden`.
unfoldable pub encoded_hex : Vector → Run (List ℕ)
encoded_hex v = do got ← encode v; ok (hex got)
