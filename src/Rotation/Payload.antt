-- ===== src/Rotation/Payload.antt =====
-- The codec of `KeyRotationPayload` of src/rotation.rs.
use bind.Common.{
  ℕ, ◌⊎◌, slice_rest, ◌≤◌, ◌<◌, ◌≡◌, arith, List, length, take, drop, slice_in_range, ok, err, ltb,
  ltb→lt, length-take, Bool-cases, inl, inr, take-append-drop,
}
use bind.Rotation.{KeyRotationPayload, payload_too_short, encode, decode}

-- `decode` refuses exactly the inputs below 12 bytes, with `payload_too_short`; any other input is
-- decoded to a payload with a nonce of 12 bytes whose encoding is that input.
pub payload_decode_cases :
    (buf : List ℕ)
    → ((length buf < 12) × (decode buf ≡ err payload_too_short))
      ⊎ ((12 ≤ length buf)
          × ((p : KeyRotationPayload) × (decode buf ≡ ok p)
              × (length p.nonce ≡ 12)
              × (encode p ≡ buf)))
unfolding decode encode
payload_decode_cases buf = elim (Bool-cases (ltb (length buf) 12)) [
  | inl short ↦ inl (ltb→lt _ _ short, rw short)
  | inr long ↦
      let far : 12 ≤ length buf = ground arith in
      inr (
        far,
        (
          record { nonce = take 12 buf; new_key_encrypted = drop 12 buf },
          rw (long, slice_in_range buf 0 12 (omega arith) far, slice_rest 12 buf far),
          length_of far,
          take-append-drop 12 buf,
        ),
      )
]
  where
    length_of : 12 ≤ length buf → length (take 12 buf) ≡ 12
    length_of far = omega (arith, length-take 12 buf)
