-- ===== src/Catastrophic/Rotate.antt =====
-- What `verify_chain` of src/catastrophic.rs answers before and after old entries are dropped.
use bind.Common.{
  ◌⊎◌, ℕ, ◌≤◌, ◌<◌, ◌≡◌, sym, ◌∙◌, arith, true, false, List, [], ◌∷◌, length, Bool-cases, inl, inr,
}
use mathlib.Core.Path.{subst}
use bind.Catastrophic.{
  CatastrophicEvent, AuditEntry, audit_log_max_entries, zero_hash, new_log, verify_from,
  verify_chain,
}
use bind.Catastrophic.Chain.{appends, new_appends-Linked, verify_from-tail}

module _ (sha256 : List ℕ → List ℕ) where
  -- A log to which at most 10000 events were appended since it was new verifies, whatever the hash
  -- function.
  pub log_verifies :
      (es : List CatastrophicEvent)
      → length es ≤ audit_log_max_entries
      → verify_chain sha256 (appends sha256 new_log es) ≡ true
  unfolding verify_chain
  log_verifies es h =
      let l = new_appends-Linked sha256 es in
      subst (λ o. verify_from sha256 o (appends sha256 new_log es).entries ≡ true) (l.early h)
        l.chained

  origin_zero :
      (origin : List ℕ) (es : List AuditEntry)
      → 0 < length es
      → verify_from sha256 origin es ≡ true
      → verify_from sha256 zero_hash es ≡ true
      → origin ≡ zero_hash
  origin_zero origin [] h a b = absurd (omega arith)
  origin_zero origin (e ∷ es) h a b =
      sym (verify_from-tail sha256 origin e es a).2 ∙ (verify_from-tail sha256 zero_hash e es b).2

  -- Once more than 10000 events were appended to a new log, it does not verify any more, though
  -- nobody has changed it, or else a message with the all-zero hash has been found.
  pub rotated_log_fails :
      (es : List CatastrophicEvent)
      → audit_log_max_entries < length es
      → (verify_chain sha256 (appends sha256 new_log es) ≡ false)
        ⊎ ((x : List ℕ) × (sha256 x ≡ zero_hash))
  unfolding verify_chain
  rotated_log_fails es h =
      let log = appends sha256 new_log es in
      let l = new_appends-Linked sha256 es in
      let (x, hashed) = l.late h in
      elim (Bool-cases (verify_from sha256 zero_hash log.entries)) [
        | inr fails ↦ inl fails
        | inl verifies ↦ inr (
          x,
          sym hashed ∙ origin_zero l.origin log.entries (omega (arith, l.size)) l.chained verifies,
        )
      ]
