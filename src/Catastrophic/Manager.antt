-- ===== src/Catastrophic/Manager.antt =====
-- The manager of src/catastrophic.rs: rule 1 on bytes and on headers, and rule 2.
use bind.Common.{
  some, take, drop, take-append, drop-append, ℕ, ◌/◌, ◌^◌, ◌<◌, ◌≡◌, refl, sym, ap, ◌∙◌, arith,
  Bool, true, false, not, ◌&&◌, Option, List, [], ◌∷◌, ◌++◌, All, length, if◌then◌else◌, bit_and,
  ◌==◌, Bool-cases, inl, inr,
}
use bind.Common.Bits.{all_below, holds_at}
use bind.Common.Bytes.{IsU8}
use bind.Pfp
use bind.Frame
use bind.Frame.{BindFrame}
use bind.Frame.Header.{encode_header}
use bind.Frame.RoundTrip.{length-encode_header}
use bind.Pfp.{PfpHeader, has_bit}
use bind.Pfp.Codec.{pfp_decode-encode, encode-IsU8}
use bind.Pfp.Enums.{risk_level_from_bits, override_flag_from_bit, is_catastrophic, is_hard_override}
use bind.Catastrophic.Channel.{send}
use bind.Catastrophic.{
  CatastrophicManager, new_event, is_catastrophic_override, handle_frame, append,
}

abbrev agree : Bool → Bool → Bool
agree true b = b
agree false b = not b

agree→eq : (a b : Bool) → agree a b ≡ true → a ≡ b
agree→eq true b h = sym h
agree→eq false b h = ground arith

risk_table :
    (c : ℕ)
    → c < 256
    → (bit_and (c / 2 ^ 2) 3 == 3) ≡ is_catastrophic (risk_level_from_bits (bit_and (c / 2 ^ 2) 3))
unfolding all_below is_catastrophic risk_level_from_bits
risk_table c h = agree→eq _ _ (
    holds_at 256 c
      (λ x.
        agree (bit_and (x / 2 ^ 2) 3 == 3)
          (is_catastrophic (risk_level_from_bits (bit_and (x / 2 ^ 2) 3))))
      h refl)

override_table :
    (d : ℕ)
    → d < 256
    → (bit_and (d / 2 ^ 1) 1 == 1) ≡ is_hard_override (override_flag_from_bit (has_bit d 2))
unfolding all_below is_hard_override override_flag_from_bit
override_table d h = agree→eq _ _ (
    holds_at 256 d
      (λ x.
        agree (bit_and (x / 2 ^ 1) 1 == 1)
          (is_hard_override (override_flag_from_bit (has_bit x 2))))
      h refl)

-- Rule 1: for every four bytes, the manager's test on the raw bytes agrees with the header's test on
-- the decoded bytes.
pub override-decode :
    (a b c d : ℕ)
    → All IsU8 (a ∷ b ∷ c ∷ d ∷ [])
    → is_catastrophic_override (a ∷ b ∷ c ∷ d ∷ [])
      ≡ Pfp.is_catastrophic_override (Pfp.decode (a ∷ b ∷ c ∷ d ∷ []))
unfolding is_catastrophic_override Pfp.is_catastrophic_override Pfp.decode
override-decode a b c d (ha, (hb, (hc, (hd, _)))) = rw (risk_table c hc, override_table d hd)

four :
    (bs : List ℕ)
    → All IsU8 bs
    → length bs ≡ 4
    → is_catastrophic_override bs ≡ Pfp.is_catastrophic_override (Pfp.decode bs)
four (a ∷ b ∷ c ∷ d ∷ []) all e = override-decode a b c d all
four (a ∷ b ∷ c ∷ d ∷ (x ∷ bs)) all e = absurd (omega arith)
four [] all e = absurd (omega arith)
four (a ∷ []) all e = absurd (omega arith)
four (a ∷ b ∷ []) all e = absurd (omega arith)
four (a ∷ b ∷ c ∷ []) all e = absurd (omega arith)

-- The manager's test on the bytes that a header is sent as is the header's own test.
pub override-encode :
    (h : PfpHeader) → is_catastrophic_override (Pfp.encode h) ≡ Pfp.is_catastrophic_override h
unfolding Pfp.is_catastrophic_override
override-encode h =
    four (Pfp.encode h) (encode-IsU8 h).0 (unfold Pfp.encode in refl)
    ∙ ap Pfp.is_catastrophic_override (pfp_decode-encode h)

-- On the wire: the manager's test on the bytes 8 to 11 of an encoded frame with a PFP, well formed or
-- not, agrees with the frame's own test.
pub override_on_wire :
    (f : BindFrame) (p : PfpHeader)
    → f.pfp ≡ some p
    → is_catastrophic_override (take 4 (drop 8 (Frame.encode f))) ≡ Frame.is_catastrophic_override f
unfolding Frame.encode Frame.is_catastrophic_override
override_on_wire f p there =
    rw (drop-append (encode_header f.header) _ 8 (sym (length-encode_header f.header)), there)
      (ap is_catastrophic_override (take-append (Pfp.encode p) _ 4 (unfold Pfp.encode in refl))
        ∙ override-encode p)

module _ (sha256 : List ℕ → List ℕ) where
  -- `handle_frame` answers whether the bytes carry the override. If they do, the event is appended to
  -- the audit log, and it is put on the bus behind the events that wait there if there is a receiver;
  -- the log is written without a receiver too. If they do not, nothing changes.
  pub handle_frame_lem :
      (pfp : List ℕ) (seq : Option ℕ) (context : Option (List ℕ)) (source : List ℕ) (now : ℕ × ℕ)
      (m : CatastrophicManager)
      → let event = new_event pfp seq context source now in
        let (m', triggered) = handle_frame sha256 pfp seq context source now m in
        (triggered ≡ is_catastrophic_override pfp)
        × (m'.audit_log ≡ (if triggered then append sha256 event m.audit_log else m.audit_log))
        × (m'.event_bus.queue ≡ (
            if triggered && m.event_bus.receiver_alive
            then m.event_bus.queue ++ (event ∷ [])
            else m.event_bus.queue))
  unfolding handle_frame send
  handle_frame_lem pfp seq context source now m = elim (Bool-cases (is_catastrophic_override pfp)) [
    | inr quiet ↦ rw quiet (refl, refl, refl)
    | inl fires ↦ rw fires (refl, refl, ground arith)
  ]
