-- ===== src/Catastrophic/Tamper.antt =====
-- What the hash chain of src/catastrophic.rs protects.
use bind.Common.{
  ℕ, ◌≡◌, ◌≢◌, ◌⊎◌, refl, sym, ap, ◌∙◌, arith, true, false, List, [], ◌∷◌, ◌++◌, length, take, drop,
  take-append, drop-append, Bool-cases, inl, inr,
}
use bind.Common.Bytes.{bytes_eq, bytes_eq_self, bytes_eq→eq, to_le_bytes}
use bind.Catastrophic.{
  AuditEntry, CatastrophicAuditLog, event_bytes, event_hash, zero_hash, verify_hash, verify_from,
  verify_chain,
}
use bind.Catastrophic.Chain.{end_of}

append_split :
    (xs ys us vs : List ℕ) → length xs ≡ length us → xs ++ ys ≡ us ++ vs → (xs ≡ us) × (ys ≡ vs)
append_split xs ys us vs h e = (
  sym (take-append xs ys (length xs) refl)
      ∙ ap (take (length xs)) e
      ∙ take-append us vs (length xs) h,
  sym (drop-append xs ys (length xs) refl)
      ∙ ap (drop (length xs)) e
      ∙ drop-append us vs (length xs) h,
)

bytes_eq-≢ : (s t : List ℕ) → bytes_eq s t ≡ false → s ≢ t
bytes_eq-≢ s t differ e = absurd (ground (arith, bytes_eq_self s))

module _ (sha256 : List ℕ → List ℕ) where
  -- Two different byte strings with one hash.
  abbrev pub Collision : Type 0
  Collision = (x : List ℕ) × (y : List ℕ) × (x ≢ y) × (sha256 x ≡ sha256 y)

  -- Two entry lists tell the same: number and event of each entry, as the bytes that are hashed.
  abbrev pub Agree : List AuditEntry → List AuditEntry → Type 0
  Agree [] [] = Unit
  Agree [] (f ∷ fs) = ⊥
  Agree (e ∷ es) [] = ⊥
  Agree (e ∷ es) (f ∷ fs) =
      (to_le_bytes 8 e.sequence ≡ to_le_bytes 8 f.sequence)
      × (event_bytes e.event ≡ event_bytes f.event)
      × (e.prev_hash ≡ f.prev_hash)
      × (e.hash ≡ f.hash)
      × Agree es fs

  same_or_collision : (x y : List ℕ) → sha256 x ≡ sha256 y → (x ≡ y) ⊎ Collision
  same_or_collision x y e = elim (Bool-cases (bytes_eq x y)) [
    | inl same ↦ inl (bytes_eq→eq x y same)
    | inr differ ↦ inr (x, y, bytes_eq-≢ x y differ, e)
  ]

  hashed :
      (e : AuditEntry)
      → verify_hash sha256 e ≡ true
      → sha256 (to_le_bytes 8 e.sequence ++ (event_hash sha256 e.event ++ e.prev_hash)) ≡ e.hash
  unfolding verify_hash
  hashed e h = bytes_eq→eq _ _ h

  entry_told :
      (e f : AuditEntry)
      → ((x : List ℕ) → length (sha256 x) ≡ 32)
      → verify_hash sha256 e ≡ true
      → verify_hash sha256 f ≡ true
      → e.hash ≡ f.hash
      → ((to_le_bytes 8 e.sequence ≡ to_le_bytes 8 f.sequence)
          × (event_bytes e.event ≡ event_bytes f.event)
          × (e.prev_hash ≡ f.prev_hash))
        ⊎ Collision
  unfolding event_hash
  entry_told e f size he hf same =
      elim (same_or_collision _ _ (hashed e he ∙ same ∙ sym (hashed f hf))) [
        | inr found ↦ inr found
        | inl input ↦
            let (number, rest) =
              append_split (to_le_bytes 8 e.sequence) (event_hash sha256 e.event ++ e.prev_hash)
                (to_le_bytes 8 f.sequence) (event_hash sha256 f.event ++ f.prev_hash) refl input in
            let (event, prev) =
              append_split (event_hash sha256 e.event) e.prev_hash (event_hash sha256 f.event)
                f.prev_hash (size (event_bytes e.event) ∙ sym (size (event_bytes f.event))) rest in
            elim (same_or_collision (event_bytes e.event) (event_bytes f.event) event) [
              | inr found ↦ inr found
              | inl told ↦ inl (number, told, prev)
            ]
      ]

  chains-Agree :
      (p q : List ℕ) (es fs : List AuditEntry)
      → ((x : List ℕ) → length (sha256 x) ≡ 32)
      → verify_from sha256 p es ≡ true
      → verify_from sha256 q fs ≡ true
      → length es ≡ length fs
      → end_of p es ≡ end_of q fs
      → Agree es fs × (p ≡ q) ⊎ Collision
  unfolding verify_from
  chains-Agree p q [] [] size a b h ends = inl (tt, ends)
  chains-Agree p q [] (f ∷ fs) size a b h ends = absurd (omega arith)
  chains-Agree p q (e ∷ es) [] size a b h ends = absurd (omega arith)
  chains-Agree p q (e ∷ es) (f ∷ fs) size a b h ends =
      elim (chains-Agree e.hash f.hash es fs size (ground arith) (ground arith) (omega arith)
        ends) [
          | inr found ↦ inr found
          | inl (rest, same) ↦ elim (entry_told e f size (ground arith) (ground arith) same) [
            | inr found ↦ inr found
            | inl (number, told, prev) ↦ inl (
              (number, told, prev, same, rest),
              sym (bytes_eq→eq _ _ (ground arith)) ∙ prev ∙ bytes_eq→eq _ _ (ground arith),
            )
          ]
        ]

  -- If every hash has 32 bytes, two logs that verify, hold as many entries and end with the same hash
  -- agree in the number, the event, the previous hash and the hash of every entry, as far as the bytes
  -- that are hashed tell, or else two different byte strings with one hash have been found.
  pub tamper_evident :
      (l m : CatastrophicAuditLog)
      → ((x : List ℕ) → length (sha256 x) ≡ 32)
      → verify_chain sha256 l ≡ true
      → verify_chain sha256 m ≡ true
      → length l.entries ≡ length m.entries
      → end_of zero_hash l.entries ≡ end_of zero_hash m.entries
      → Agree l.entries m.entries ⊎ Collision
  unfolding verify_chain
  tamper_evident l m size a b h ends =
      elim (chains-Agree zero_hash zero_hash l.entries m.entries size a b h ends) [
        | inl (agree, _) ↦ inl agree
        | inr found ↦ inr found
      ]
