-- ===== src/Sap/Examples.antt =====
-- Runs of src/sap.rs: the tests of the source, and the theorems at concrete inputs.
use bind.Common.{◌≡◌, refl, arith, true, replicate, get_or}
use bind.Sap.{SapHeader, IsValid, new, encode, needs_key_rotation, increment_seq}

abbrev sample : SapHeader
sample = new 0x1234 (replicate 14 0xAB) (replicate 8 0xCD)

sample-IsValid : IsValid sample
sample-IsValid = omega arith

-- `test_fixed_offsets`
fixed_offsets : (get_or (encode sample) 4 0 ≡ 0x12) × (get_or (encode sample) 5 0 ≡ 0x34)
unfolding encode
fixed_offsets = (refl, refl)

-- `test_seq_counter_wrapping`
seq_counter_wrapping : (increment_seq (record sample { seq_counter = 65535 })).1 ≡ 0
unfolding increment_seq
seq_counter_wrapping = refl

threshold : needs_key_rotation (record sample { seq_counter = 65534 }) ≡ true
unfolding needs_key_rotation
threshold = refl
