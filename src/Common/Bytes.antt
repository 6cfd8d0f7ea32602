-- ===== src/Common/Bytes.antt =====
-- Machine integers as numbers with a bound, and `to_be_bytes` / `from_be_bytes`.
use bind.Common.Tests.{◌==◌}
use mathlib.Core.Bool.{Bool, true, false, ◌&&◌}
use Prim.Native.Nat.{zero, suc, ℕ, ◌+◌, ◌*◌, ◌/◌, ◌%◌, ◌<◌}
use mathlib.Core.Path.{◌≡◌, refl}
use mathlib.Core.List.{List, [], ◌∷◌}
use native.Mathlib.Omega.{arith}

abbrev pub IsU8 : ℕ → Type 0
IsU8 n = n < 256

abbrev pub IsU16 : ℕ → Type 0
IsU16 n = n < 65536

abbrev pub IsU32 : ℕ → Type 0
IsU32 n = n < 4294967296

-- `as u8`, `as u16`, `as u32`
abbrev pub u32 : ℕ → ℕ
u32 word = word % 4294967296

abbrev pub u16 : ℕ → ℕ
u16 word = word % 65536

abbrev pub u8 : ℕ → ℕ
u8 word = word % 256

-- `u16::from_be_bytes`
abbrev pub u16_from_be_bytes : ℕ → ℕ → ℕ
u16_from_be_bytes a b = a * 256 + b

-- `u32::to_be_bytes`
abbrev pub u32_to_be_bytes : ℕ → List ℕ
u32_to_be_bytes n = u8 (n / 16777216) ∷ u8 (n / 65536) ∷ u8 (n / 256) ∷ u8 n ∷ []

-- `u32::from_be_bytes`
abbrev pub u32_from_be_bytes : ℕ → ℕ → ℕ → ℕ → ℕ
u32_from_be_bytes a b c d = a * 16777216 + b * 65536 + c * 256 + d

pub u32_be_bytes_lem :
    (n : ℕ)
    → IsU32 n
    → u32_from_be_bytes (u8 (n / 16777216)) (u8 (n / 65536)) (u8 (n / 256)) (u8 n) ≡ n
u32_be_bytes_lem n h = omega arith

-- `u64::to_le_bytes`, `u32::to_le_bytes`, `u16::to_le_bytes`: `k` bytes, the lowest first.
abbrev pub to_le_bytes : ℕ → ℕ → List ℕ
to_le_bytes zero n = []
to_le_bytes (suc k) n = u8 n ∷ to_le_bytes k (n / 256)

-- Equality of byte strings.
abbrev pub bytes_eq : List ℕ → List ℕ → Bool
bytes_eq [] [] = true
bytes_eq [] (b ∷ bs) = false
bytes_eq (a ∷ s) [] = false
bytes_eq (a ∷ s) (b ∷ bs) = a == b && bytes_eq s bs

pub bytes_eq_self : (s : List ℕ) → bytes_eq s s ≡ true
bytes_eq_self [] = refl
bytes_eq_self (a ∷ s) = ground (arith, bytes_eq_self s)

pub bytes_eq→eq : (s t : List ℕ) → bytes_eq s t ≡ true → s ≡ t
bytes_eq→eq [] [] h = refl
bytes_eq→eq [] (b ∷ t) h = cc
bytes_eq→eq (a ∷ s) [] h = cc
bytes_eq→eq (a ∷ s) (b ∷ t) h = ground (arith, bytes_eq→eq s t)
