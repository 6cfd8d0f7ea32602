-- ===== src/Frame/Steps.antt =====
-- `BindFrame::decode` of src/frame.rs step by step: its optional headers.
use bind.Common.{
  ℕ, ◌+◌, ◌-◌, ◌≤◌, ◌≡◌, ◌⊎◌, refl, ap, arith, true, Option, none, some, List, is_some, ok, err,
  Bool-cases, inl, inr, slice, slice_in_range, length, length-take, length-drop, drop, get_or, All,
  if◌then◌else◌,
}
use bind.Common.{All-get_or, All-take, All-drop}
use bind.Common.Bits.{low_nibble}
use bind.Common.Bytes.{IsU8}
use bind.Pfp
use bind.Pfp.{PfpHeader}
use bind.Sap
use bind.Sap.{SapHeader}
use bind.Frame.{
  FrameError, invalid_pfp_magic, invalid_sap_magic, invalid_sap_protocol_id, decode_pfp, decode_sap,
}
use bind.Frame.Header.{BindHeader, has_pfp, has_sap}
use bind.Frame.WellFormed.{IsValidSap}

-- What a step of `decode` returns when its bytes are there: an error, or the optional header that
-- the flag announces, and the offset after it.
pfp_there :
    (h : BindHeader) (buf bytes : List ℕ) (offset : ℕ)
    → has_pfp h ≡ true
    → slice buf offset (offset + 4) ≡ some bytes
    → ((e : FrameError) × (decode_pfp h buf offset ≡ err e))
      ⊎ ((p : Option PfpHeader) × (decode_pfp h buf offset ≡ ok (p, offset + 4))
          × (true ≡ is_some p))
unfolding decode_pfp
pfp_there h buf bytes offset present cut = elim (Bool-cases (Pfp.verify_magic bytes)) [
  | inl good ↦ inr (some (Pfp.decode bytes), rw (present, cut, good), refl)
  | inr bad ↦ inl (invalid_pfp_magic, rw (present, cut, bad))
]

pub decode_pfp_cases :
    (h : BindHeader) (buf : List ℕ) (offset : ℕ)
    → offset + (if has_pfp h then 4 else 0) ≤ length buf
    → ((e : FrameError) × (decode_pfp h buf offset ≡ err e))
      ⊎ ((p : Option PfpHeader) × (decode_pfp h buf offset
            ≡ ok (p, offset + (if has_pfp h then 4 else 0)))
          × (has_pfp h ≡ is_some p))
decode_pfp_cases h buf offset fits = elim (Bool-cases (has_pfp h)) [
  | inl present ↦ rw present (
      pfp_there h buf _ offset present
        (slice_in_range buf offset (offset + 4) (omega arith) (rw present at fits)))
  | inr absent ↦ inr (
    none,
    rw absent (unfold decode_pfp in rw absent (ap (λ (n : ℕ). ok (none, n)) (omega arith))),
    absent,
  )
]

-- Bytes of the right number decode to a SAP of its Rust type.
Sap-decode-IsValid :
    (bytes : List ℕ) → All IsU8 bytes → length bytes ≡ 28 → Sap.IsValid (Sap.decode bytes)
unfolding Sap.decode
Sap-decode-IsValid bytes small long = record {
  version_byte = omega (arith, low_nibble (get_or bytes 3 0));
  seq_word = omega (
    arith,
    All-get_or IsU8 bytes 4 0 (omega arith) small,
    All-get_or IsU8 bytes 5 0 (omega arith) small,
  );
  hash_length = omega (arith, length-take 14 (drop 6 bytes), length-drop 6 bytes);
  signature_length = omega (arith, length-take 8 (drop 20 bytes), length-drop 20 bytes);
}

sap_there :
    (h : BindHeader) (buf bytes : List ℕ) (offset : ℕ)
    → has_sap h ≡ true
    → slice buf offset (offset + 28) ≡ some bytes
    → Sap.IsValid (Sap.decode bytes)
    → ((e : FrameError) × (decode_sap h buf offset ≡ err e))
      ⊎ ((s : Option SapHeader) × (decode_sap h buf offset ≡ ok (s, offset + 28))
          × (true ≡ is_some s)
          × IsValidSap s)
unfolding decode_sap
sap_there h buf bytes offset present cut valid = elim (Bool-cases (Sap.verify_magic bytes)) [
  | inl good ↦ elim (Bool-cases (Sap.verify_protocol_id bytes)) [
    | inl same ↦ inr (some (Sap.decode bytes), rw (present, cut, good, same), refl, valid)
    | inr other ↦ inl (invalid_sap_protocol_id, rw (present, cut, good, other))
  ]
  | inr bad ↦ inl (invalid_sap_magic, rw (present, cut, bad))
]

pub decode_sap_cases :
    (h : BindHeader) (buf : List ℕ) (offset : ℕ)
    → All IsU8 buf
    → offset + (if has_sap h then 28 else 0) ≤ length buf
    → ((e : FrameError) × (decode_sap h buf offset ≡ err e))
      ⊎ ((s : Option SapHeader) × (decode_sap h buf offset
            ≡ ok (s, offset + (if has_sap h then 28 else 0)))
          × (has_sap h ≡ is_some s)
          × IsValidSap s)
decode_sap_cases h buf offset small fits = elim (Bool-cases (has_sap h)) [
  | inl present ↦
      let room : offset + 28 ≤ length buf = rw present at fits in
      rw present (
        sap_there h buf _ offset present
          (slice_in_range buf offset (offset + 28) (omega arith) room)
          (Sap-decode-IsValid _ (All-take IsU8 _ _ (All-drop IsU8 offset buf small)) (
            omega (
              arith,
              length-take (offset + 28 - offset) (drop offset buf),
              length-drop offset buf,
            ))))
  | inr absent ↦ inr (
    none,
    rw absent (unfold decode_sap in rw absent (ap (λ (n : ℕ). ok (none, n)) (omega arith))),
    absent,
    tt,
  )
]
