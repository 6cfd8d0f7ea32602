-- ===== src/Vectors/Hex.antt =====
-- `hex` of examples/generate_test_vectors.rs, and a reader of it.
use bind.Common.{
  ℕ, ◌+◌, ◌-◌, ◌*◌, ◌/◌, ◌%◌, ◌<◌, ◌≡◌, refl, ap, arith, ◌&&◌, Option, none, some, List, [], ◌∷◌,
  All, length, ltb, leb, if◌then◌else◌,
}
use bind.Common.Bytes.{IsU8}

-- A digit of `{:02x}`
abbrev pub hex_digit : ℕ → ℕ
hex_digit n = if ltb n 10 then b'0' + n else b'a' + (n - 10)

-- `hex`
abbrev pub hex : List ℕ → List ℕ
hex [] = []
hex (b ∷ bytes) = hex_digit (b / 16) ∷ hex_digit (b % 16) ∷ hex bytes

-- The value of a digit, of either case.
abbrev pub digit_value : ℕ → Option ℕ
digit_value c =
    if leb b'0' c && leb c b'9'
    then some (c - b'0')
    else if leb b'a' c && leb c b'f'
    then some (c - b'a' + 10)
    else if leb b'A' c && leb c b'F'
    then some (c - b'A' + 10)
    else none

abbrev pub byte_value : Option ℕ → Option ℕ → Option (List ℕ) → Option (List ℕ)
byte_value (some high) (some low) (some bytes) = some ((high * 16 + low) ∷ bytes)
byte_value _ _ _ = none

-- The bytes that a text of digits stands for; two digits are a byte.
abbrev pub unhex : List ℕ → Option (List ℕ)
unhex [] = some []
unhex (a ∷ []) = none
unhex (a ∷ (b ∷ text)) = let rest = unhex text in byte_value (digit_value a) (digit_value b) rest

pub digit_value-hex_digit : (n : ℕ) → n < 16 → digit_value (hex_digit n) ≡ some n
digit_value-hex_digit n h = ground arith

-- The text of bytes is read back as these bytes, and has two digits for each.
pub unhex-hex :
    (bytes : List ℕ)
    → All IsU8 bytes
    → (unhex (hex bytes) ≡ some bytes) × (length (hex bytes) ≡ 2 * length bytes)
unhex-hex [] h = (refl, omega arith)
unhex-hex (b ∷ bytes) (small, h) =
    let (rest, len) = unhex-hex bytes h in
    (
      rw
          (
            digit_value-hex_digit (b / 16) (omega arith),
            digit_value-hex_digit (b % 16) (omega arith),
            rest,
          )
          (ap (λ (x : ℕ). some (x ∷ bytes)) (omega arith)),
      omega (arith, len),
    )
