-- ===== src/Catastrophic/Chain.antt =====
-- The hash chain of the audit log of src/catastrophic.rs, for any hash function.
use bind.Common.{
  ℕ, ◌+◌, ◌≤◌, ◌<◌, ◌≡◌, refl, sym, ◌∙◌, arith, true, false, List, [], ◌∷◌, ◌++◌, length,
  length-append, drop, ltb, lt→ltb, le→ltb, length-drop,
}
use Prim.Native.Nat.{min}
use native.Mathlib.Decide.{dec_lt}
use mathlib.Core.Path.{subst}
use bind.Common.Bytes.{bytes_eq_self, bytes_eq→eq, to_le_bytes}
use bind.Catastrophic.{
  CatastrophicEvent, AuditEntry, CatastrophicAuditLog, audit_log_max_entries, zero_hash, new_log,
  event_hash, new_audit_entry, verify_hash, append, verify_from,
}

-- The hash that the next entry has to name, after the entries that follow `prev`.
abbrev pub end_of : List ℕ → List AuditEntry → List ℕ
end_of prev [] = prev
end_of prev (e ∷ es) = end_of e.hash es

module _ (sha256 : List ℕ → List ℕ) where
  verify_hash-new_audit_entry :
      (n : ℕ) (event : CatastrophicEvent) (prev : List ℕ)
      → verify_hash sha256 (new_audit_entry sha256 n event prev) ≡ true
  unfolding verify_hash new_audit_entry
  verify_hash-new_audit_entry n event prev =
      bytes_eq_self (sha256 (to_le_bytes 8 n ++ (event_hash sha256 event ++ prev)))

  prev_hash-new_audit_entry :
      (n : ℕ) (event : CatastrophicEvent) (prev : List ℕ)
      → (new_audit_entry sha256 n event prev).prev_hash ≡ prev
  unfolding new_audit_entry
  prev_hash-new_audit_entry n event prev = refl

  -- An entry of the right hash that names the end of a chain makes it longer.
  verify_from-snoc :
      (prev : List ℕ) (es : List AuditEntry) (e : AuditEntry)
      → verify_from sha256 prev es ≡ true
      → verify_hash sha256 e ≡ true
      → e.prev_hash ≡ end_of prev es
      → (verify_from sha256 prev (es ++ (e ∷ [])) ≡ true) × (end_of prev (es ++ (e ∷ [])) ≡ e.hash)
  unfolding verify_from
  verify_from-snoc prev [] e chained good names = (rw (good, names, bytes_eq_self prev), refl)
  verify_from-snoc prev (f ∷ es) e chained good names =
      let (longer, ends) = verify_from-snoc f.hash es e (ground arith) good names in
      (ground arith, ends)

  -- A chain without its first entry is a chain from the hash of that entry, which is a hash.
  pub verify_from-tail :
      (prev : List ℕ) (e : AuditEntry) (es : List AuditEntry)
      → verify_from sha256 prev (e ∷ es) ≡ true
      → (verify_from sha256 e.hash es ≡ true)
        × ((x : List ℕ) × (e.hash ≡ sha256 x))
        × (e.prev_hash ≡ prev)
  unfolding verify_from verify_hash
  verify_from-tail prev e es h = (
    ground arith,
    (
      to_le_bytes 8 e.sequence ++ (event_hash sha256 e.event ++ e.prev_hash),
      sym (bytes_eq→eq _ _ (ground arith)),
    ),
    bytes_eq→eq _ _ (ground arith),
  )

  -- A log after `n` appends: its entries are a chain from `origin`, which is the initial hash as long
  -- as nothing was dropped, and the hash of a dropped entry from then on.
  pub record Linked (log : CatastrophicAuditLog) (n : ℕ) : Type 0 where
    pub origin : List ℕ
    pub chained : verify_from sha256 origin log.entries ≡ true
    pub ends : end_of origin log.entries ≡ log.last_hash
    pub size : length log.entries ≡ min n audit_log_max_entries
    pub count : log.next_sequence ≡ n
    pub early : n ≤ audit_log_max_entries → origin ≡ zero_hash
    pub late : audit_log_max_entries < n → (x : List ℕ) × (origin ≡ sha256 x)

  new_log-Linked : Linked new_log 0
  unfolding verify_from
  new_log-Linked = record {
    origin = zero_hash;
    chained = refl;
    ends = refl;
    size = refl;
    count = refl;
    early = λ h. refl;
    late = λ h. absurd (omega arith);
  }

  -- The first entry of a chain may go: the rest is a chain from that entry's hash, to the same end.
  chain_drop :
      (prev : List ℕ) (es : List AuditEntry)
      → 0 < length es
      → verify_from sha256 prev es ≡ true
      → (origin : List ℕ) × (verify_from sha256 origin (drop 1 es) ≡ true)
        × (end_of origin (drop 1 es) ≡ end_of prev es)
        × ((x : List ℕ) × (origin ≡ sha256 x))
  chain_drop prev [] h chained = absurd (omega arith)
  chain_drop prev (e ∷ es) h chained =
      let (rest, hashed, named) = verify_from-tail prev e es chained in (e.hash, rest, refl, hashed)

  module _ (log : CatastrophicAuditLog) (n : ℕ) (event : CatastrophicEvent) (l : Linked log n) where
    abbrev entry : AuditEntry
    entry = new_audit_entry sha256 log.next_sequence event log.last_hash

    abbrev pushed : List AuditEntry
    pushed = log.entries ++ (entry ∷ [])

    pushed_lem : (verify_from sha256 l.origin pushed ≡ true) × (end_of l.origin pushed ≡ entry.hash)
    pushed_lem =
        verify_from-snoc l.origin log.entries entry l.chained
          (verify_hash-new_audit_entry log.next_sequence event log.last_hash)
          (prev_hash-new_audit_entry log.next_sequence event log.last_hash ∙ sym l.ends)

    length-pushed : length pushed ≡ min n 10000 + 1
    length-pushed = omega (arith, length-append log.entries (entry ∷ []), l.size)

    append_keeps : length pushed ≤ 10000 → Linked (append sha256 event log) (n + 1)
    unfolding append
    append_keeps h = record {
      origin = l.origin;
      chained = rw test pushed_lem.0;
      ends = rw test pushed_lem.1;
      size = rw test (omega (arith, length-pushed));
      count = omega (arith, l.count);
      early = λ k. l.early (omega arith);
      late = λ k. absurd (omega (arith, length-pushed));
    }
      where
        test : ltb 10000 (length pushed) ≡ false
        test = le→ltb 10000 (length pushed) h

    append_rotates : 10000 < length pushed → Linked (append sha256 event log) (n + 1)
    unfolding append
    append_rotates h = record {
      origin = dropped.0;
      chained = rw test dropped.1;
      ends = rw test (dropped.2 ∙ pushed_lem.1);
      size = rw test (omega (arith, length-pushed, length-drop 1 pushed));
      count = omega (arith, l.count);
      early = λ k. absurd (omega (arith, length-pushed));
      late = λ k. dropped.3;
    }
      where
        test : ltb 10000 (length pushed) ≡ true
        test = lt→ltb 10000 (length pushed) h

        dropped :
            (origin : List ℕ) × (verify_from sha256 origin (drop 1 pushed) ≡ true)
            × (end_of origin (drop 1 pushed) ≡ end_of l.origin pushed)
            × ((x : List ℕ) × (origin ≡ sha256 x))
        dropped = chain_drop l.origin pushed (omega arith) pushed_lem.0

    append-Linked : Linked (append sha256 event log) (n + 1)
    append-Linked = elim (dec_lt 10000 (length pushed)) [
      | yes over ↦ append_rotates over
      | no within ↦ append_keeps (omega arith)
    ]

  -- The log after some events.
  unfoldable pub appends : CatastrophicAuditLog → List CatastrophicEvent → CatastrophicAuditLog
  appends log [] = log
  appends log (e ∷ es) = appends (append sha256 e log) es

  pub appends-append :
      (log : CatastrophicAuditLog) (es fs : List CatastrophicEvent)
      → appends (appends log es) fs ≡ appends log (es ++ fs)
  unfolding appends
  appends-append log [] fs = refl
  appends-append log (e ∷ es) fs = appends-append (append sha256 e log) es fs

  pub appends-Linked :
      (log : CatastrophicAuditLog) (n m : ℕ) (es : List CatastrophicEvent)
      → n + length es ≡ m
      → Linked log n
      → Linked (appends log es) m
  unfolding appends
  appends-Linked log n m [] e l = subst (λ k. Linked log k) (omega arith) l
  appends-Linked log n m (x ∷ es) e l =
      appends-Linked (append sha256 x log) (n + 1) m es (omega arith) (append-Linked log n x l)

  pub new_appends-Linked : (es : List CatastrophicEvent) → Linked (appends new_log es) (length es)
  new_appends-Linked es = appends-Linked new_log 0 (length es) es (omega arith) new_log-Linked
