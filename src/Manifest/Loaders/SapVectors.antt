-- ===== src/Manifest/Loaders/SapVectors.antt =====
-- What the tests of tests/vector_sap_codec.rs show when they pass.
use bind.Common.{
  ℕ, ◌*◌, ◌<◌, ◌≡◌, refl, sym, ap, ◌∙◌, arith, Option, none, some, List, [], ◌∷◌, map, length, ◌==◌,
  All, ==_iff, ok, or_panic, assert, Bool-cases, inl, inr,
}
use bind.Common.Bytes.{IsU8, IsU16, bytes_eq, bytes_eq→eq, bytes_eq_self}
use bind.Sap
use bind.Sap.Codec as SapCodec
use bind.Vectors.Hex.{hex, digit_value, unhex-hex}
use bind.Vectors.Hex as Hex
use bind.Manifest.Passes.{
  same, assert_passes, assert_last, bind_passes, ok_injective, or_panic_passes,
}
use bind.Manifest.Loaders.Loads.{pass_loaded, loaded_pass}
use bind.Manifest.Loaders.Sap.{
  Vector, two_digits, from_str_radix, pairs, unhex, encode, check_encoding, encode_as_declared,
  check_round_trip, round_trip,
}

digit_small : (c n : ℕ) → digit_value c ≡ some n → n < 16
digit_small c n h = ground arith

two_small :
    (a b : Option ℕ) (n : ℕ)
    → two_digits a b ≡ some n
    → ((m : ℕ) → a ≡ some m → m < 16)
    → ((m : ℕ) → b ≡ some m → m < 16)
    → n < 256
two_small none b n h p q = cc
two_small (some x) none n h p q = cc
two_small (some x) (some y) n h p q = ground (arith, p x refl, q y refl)

byte_small : (a b n : ℕ) → from_str_radix a b ≡ some n → n < 256
byte_small a b n h = elim (Bool-cases (a == b'+')) [
  | inl plus ↦ omega (arith, digit_small b n (rw plus at h))
  | inr digit ↦
      two_small (digit_value a) (digit_value b) n (rw digit at h) (digit_small a) (digit_small b)
]

-- A text that is read stands for bytes, one for two characters.
pairs_lem : (s bytes : List ℕ) → pairs s ≡ ok bytes → All IsU8 bytes × (length s ≡ length bytes * 2)
pairs_lem [] bytes h = rw (← ok_injective [] bytes h) (tt, refl)
pairs_lem (a ∷ []) bytes h = cc
pairs_lem (a ∷ (b ∷ s)) bytes h =
    let (byte, is_byte, e1) = bind_passes (or_panic (from_str_radix a b)) _ bytes h in
    let (rest, is_rest, e2) = bind_passes (pairs s) _ bytes e1 in
    let (small, len) = pairs_lem s rest is_rest in
    rw (← ok_injective (byte ∷ rest) bytes e2) (
      (byte_small a b byte (or_panic_passes (from_str_radix a b) byte is_byte), small),
      omega (arith, len),
    )

unhex_lem : (n : ℕ) (s bytes : List ℕ) → unhex n s ≡ ok bytes → All IsU8 bytes × (length bytes ≡ n)
unfolding unhex
unhex_lem n s bytes h =
    let (u, size, e) = bind_passes (assert (length s == n * 2)) _ bytes h in
    let (small, len) = pairs_lem s bytes e in
    (
      small,
      omega (arith, len, (==_iff (length s) (n * 2)).0 (assert_last (length s == n * 2) size)),
    )

-- What a vector says is what the codec does.
pub record IsTrue (v : Vector) : Type 0 where
  pub hash : List ℕ
  pub signature : List ℕ
  pub is_hash : unhex Sap.pah_size v.input.pah_hash_hex ≡ ok hash
  pub is_signature : unhex Sap.sig_size v.input.pah_signature_hex ≡ ok signature
  pub valid : Sap.IsValid (Sap.new v.input.seq_counter hash signature)
  pub size : v.expected.size ≡ 28
  pub bytes : v.expected.encoded_bytes ≡ Sap.encode (Sap.new v.input.seq_counter hash signature)
  pub text : Hex.unhex v.expected.encoded_hex ≡ some v.expected.encoded_bytes
  pub decoded : Sap.decode v.expected.encoded_bytes ≡ Sap.new v.input.seq_counter hash signature

checked : (v : Vector) → IsU16 v.input.seq_counter → check_encoding v ≡ ok tt → IsTrue v
unfolding check_encoding encode
checked v word e =
    let (got, encoded, e0) = bind_passes (encode v) _ tt e in
    let (hash, is_hash, h1) = bind_passes (unhex Sap.pah_size v.input.pah_hash_hex) _ got encoded in
    let (sig, is_sig, h2) = bind_passes (unhex Sap.sig_size v.input.pah_signature_hex) _ got h1 in
    let (hash_bytes, hash_length) = unhex_lem Sap.pah_size v.input.pah_hash_hex hash is_hash in
    let (sig_bytes, sig_length) = unhex_lem Sap.sig_size v.input.pah_signature_hex sig is_sig in
    let s = Sap.new v.input.seq_counter hash sig in
    let is_got = ok_injective (Sap.encode s) got h2 in
    let (size, e1) = assert_passes (length got == v.expected.size) _ e0 in
    let (equal, e2) = assert_passes (bytes_eq got v.expected.encoded_bytes) _ e1 in
    let equal_text = assert_last (bytes_eq (hex got) v.expected.encoded_hex) e2 in
    let is_bytes = sym (is_got ∙ bytes_eq→eq got v.expected.encoded_bytes equal) in
    let is_text = sym (ap hex is_got ∙ bytes_eq→eq (hex got) v.expected.encoded_hex equal_text) in
    let valid : Sap.IsValid s = record {
      version_byte = omega arith;
      seq_word = word;
      hash_length = hash_length;
      signature_length = sig_length;
    } in
    record {
      hash = hash;
      signature = sig;
      is_hash = is_hash;
      is_signature = is_sig;
      valid = valid;
      size =
          sym ((==_iff (length got) v.expected.size).0 size)
          ∙ ap length (sym is_got)
          ∙ SapCodec.length-encode s valid;
      bytes = is_bytes;
      text =
          ap Hex.unhex is_text
          ∙ (unhex-hex (Sap.encode s) (SapCodec.sap_encode-IsU8 s hash_bytes sig_bytes)).0
          ∙ ap some (sym is_bytes);
      decoded = ap Sap.decode is_bytes ∙ SapCodec.sap_decode-encode s valid;
    }

comes_back : (v : Vector) → IsTrue v → check_round_trip v ≡ ok tt
unfolding check_round_trip encode
comes_back v t =
    let s = Sap.new v.input.seq_counter t.hash t.signature in
    rw
      (
        t.is_hash,
        t.is_signature,
        SapCodec.length-encode s t.valid,
        SapCodec.sap_decode-encode s t.valid,
        bytes_eq_self (Sap.encode s),
        same v.input.seq_counter,
      )
      refl

pub checked-All :
    (vs : List Vector)
    → All (λ v. IsU16 v.input.seq_counter) vs
    → All (λ v. check_encoding v ≡ ok tt) vs
    → All IsTrue vs
checked-All [] w h = tt
checked-All (v ∷ vs) (word, w) (e, h) = (checked v word e, checked-All vs w h)

pub come_back : (vs : List Vector) → All IsTrue vs → All (λ v. check_round_trip v ≡ ok tt) vs
come_back [] h = tt
come_back (v ∷ vs) (t, h) = (comes_back v t, come_back vs h)

-- If the test of the encodings passes, for counters that fit their type, then five vectors are loaded,
-- and for every vector the texts of its hash and its signature are read as bytes, as many as their
-- fields have, its size is 28, its bytes are the encoding of its input, its text stands for its bytes,
-- and these are decoded to its input; and the test of the round trips passes too.
pub sap_loader_lem :
    (json : Option (List (Option Vector)))
    → ((vs : List Vector) → json ≡ some (map some vs) → All (λ v. IsU16 v.input.seq_counter) vs)
    → encode_as_declared json ≡ ok tt
    → (vs : List Vector) × (json ≡ some (map some vs))
      × (length vs ≡ 5)
      × All IsTrue vs
      × (round_trip json ≡ ok tt)
sap_loader_lem json words e =
    let (vs, json_is, five, passes) = pass_loaded check_encoding json e in
    let true_vectors = checked-All vs (words vs json_is) passes in
    (
      vs,
      json_is,
      five,
      true_vectors,
      rw json_is (loaded_pass check_round_trip vs five (come_back vs true_vectors)),
    )
