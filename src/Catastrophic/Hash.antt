-- ===== src/Catastrophic/Hash.antt =====
-- What the event hash of src/catastrophic.rs does not tell apart, whatever the hash function.
use bind.Common.{ℕ, ◌≡◌, refl, none, some, List, ◌++◌}
use bind.Catastrophic.{CatastrophicEvent, event_hash, new_audit_entry, verify_hash}
use mathlib.Core.List.{append_assoc}

module _ (sha256 : List ℕ → List ℕ) where
  -- Two events that differ only in whether the sequence counter is absent or 0 have the same hash,
  -- and so have two events that split the same bytes differently between sensor context and source.
  -- The entry made for an event without a counter gives the same answer to `verify_hash` after the
  -- counter 0 is put in.
  pub event_hash_ambiguous :
      (e : CatastrophicEvent) (a b c : List ℕ) (n : ℕ) (prev : List ℕ)
      → (event_hash sha256 (record e { seq_counter = none })
          ≡ event_hash sha256 (record e { seq_counter = some 0 }))
        × (event_hash sha256 (record e { sensor_context = some (a ++ b); source = c })
            ≡ event_hash sha256 (record e { sensor_context = some a; source = b ++ c }))
        × (verify_hash sha256
              (record (new_audit_entry sha256 n (record e { seq_counter = none }) prev) {
                event = record e { seq_counter = some 0 };
              })
            ≡ verify_hash sha256 (new_audit_entry sha256 n (record e { seq_counter = none }) prev))
  unfolding event_hash verify_hash new_audit_entry
  event_hash_ambiguous e a b c n prev = (refl, rw (append_assoc a b c), refl)
