-- ===== src/Manifest/Waivers/Reads.antt =====
-- What tests/vector_manifest.rs reads in a waiver file in the form of ci/baseline.toml.
use bind.Common.{
  ℕ, ◌≡◌, refl, sym, ap, ◌∙◌, false, some, List, [], ◌∷◌, ◌++◌, All, Bool-cases, inl, inr,
  Option-cases,
}
use mathlib.Core.List.{append-nil, append_assoc}
use bind.Common.Bytes.{bytes_eq}
use bind.Config.{codes}
use bind.Manifest.Text.{is_empty, unlines, lines-unlines}
use bind.Manifest.Waivers.{
  Ymd, parse_ymd, is_from, past_due, unparseable, Verdicts, flush, Reader, flushed, read_line,
  read_lines, new_reader, waived_and_expired,
}
use bind.Manifest.Waivers.File.{
  Waiver, IsPlain, IsPlainWaiver, quoted, block, file_lines, render, quoted-one_line,
  file_lines-All, waived_of, expired_of,
}
use bind.Manifest.Waivers.Block.{read_quoted, read_block}

abbrev also : Ymd → Verdicts → List Waiver → Verdicts
also now v ws = record {
  waived = v.waived ++ waived_of now ws;
  expired = v.expired ++ expired_of now ws;
}

also_none : (now : Ymd) (v : Verdicts) → also now v [] ≡ v
also_none now v i = record { waived = append-nil v.waived i; expired = append-nil v.expired i }

also_one :
    (now : Ymd) (v : Verdicts) (w : Waiver) (ws : List Waiver)
    → also now (flush now w.check w.target w.due v) ws ≡ also now v (w ∷ ws)
unfolding flush
also_one now v w ws = elim (Bool-cases (bytes_eq w.check (codes "CI-4"))) [
  | inr other ↦ rw other refl
  | inl mine ↦ elim (Bool-cases (is_empty w.target)) [
    | inl absent ↦ rw (mine, absent) refl
    | inr there ↦ elim (Option-cases (parse_ymd w.due)) [
      | inl unread ↦
          rw (mine, there, unread)
            (λ i. record {
              waived = v.waived ++ waived_of now ws;
              expired =
                  append_assoc v.expired (unparseable w.target w.due ∷ []) (expired_of now ws) i;
            })
      | inr (d, read) ↦ elim (Bool-cases (is_from d now)) [
        | inl in_time ↦
            rw (mine, there, read, in_time)
              (λ i. record {
                waived = append_assoc v.waived (w.target ∷ []) (waived_of now ws) i;
                expired = v.expired ++ expired_of now ws;
              })
        | inr late ↦
            rw (mine, there, read, late)
              (λ i. record {
                waived = v.waived ++ waived_of now ws;
                expired = append_assoc v.expired (past_due w.target ∷ []) (expired_of now ws) i;
              })
      ]
    ]
  ]
]

-- Another table after the waivers, with a key `check` of its own, such as another tool's section.
abbrev pub table : List ℕ → List (List ℕ)
table check = codes "[tool]" ∷ quoted (codes "check  ") check ∷ []

module _ (now : Ymd) where
  -- The reader after the lines of waivers.
  abbrev pub after : List Waiver → Reader → Reader
  after [] r = r
  after (w ∷ ws) r =
      after ws
        (record { check = w.check; target = w.target; due = w.due; verdicts = flushed now r })

  pub read_file :
      (ws : List Waiver) (rest : List (List ℕ)) (r : Reader)
      → All IsPlainWaiver ws
      → read_lines now (file_lines ws rest) r ≡ read_lines now rest (after ws r)
  read_file [] rest r h = refl
  read_file (w ∷ ws) rest r (plain, h) =
      read_block now w (file_lines ws rest) r plain
      ∙ read_file ws rest
          (record { check = w.check; target = w.target; due = w.due; verdicts = flushed now r }) h

  flushed-after :
      (ws : List Waiver) (r : Reader) → flushed now (after ws r) ≡ also now (flushed now r) ws
  flushed-after [] r = sym (also_none now (flushed now r))
  flushed-after (w ∷ ws) r =
      flushed-after ws
        (record { check = w.check; target = w.target; due = w.due; verdicts = flushed now r })
      ∙ also_one now (flushed now r) w ws

  pub flushed_new :
      (ws : List Waiver)
      → flushed now (after ws (new_reader now))
        ≡ record { waived = waived_of now ws; expired = expired_of now ws }
  unfolding flush
  flushed_new ws = flushed-after ws (new_reader now)

  -- Of a file in the form of ci/baseline.toml with waivers whose values are on one line and have no
  -- quotes, the reader finds, in order, the waivers of CI-4 with a target: as waived those with a date
  -- from today on, today included, and as expired the others; a waiver without a readable date is
  -- expired. Reason and owner make no difference, nor do the waivers of other checks.
  pub read_waivers :
      (ws : List Waiver)
      → All IsPlainWaiver ws
      → waived_and_expired now (some (render ws))
        ≡ record { waived = waived_of now ws; expired = expired_of now ws }
  unfolding waived_and_expired read_lines
  read_waivers ws h =
      ap (λ ls. flushed now (read_lines now ls (new_reader now)))
        (lines-unlines (file_lines ws []) (file_lines-All ws [] h tt))
      ∙ ap (flushed now) (read_file ws [] (new_reader now) h)
      ∙ flushed_new ws

  -- A table of another name does not end a waiver: with its key `check` for another check, the waiver
  -- before it is lost, neither waived nor expired, and only the earlier ones are read.
  pub table_swallows :
      (ws : List Waiver) (w : Waiver) (check : List ℕ)
      → All IsPlainWaiver ws
      → IsPlainWaiver w
      → IsPlain check
      → bytes_eq check (codes "CI-4") ≡ false
      → waived_and_expired now (some (unlines (file_lines ws (block w (table check)))))
        ≡ record { waived = waived_of now ws; expired = expired_of now ws }
  unfolding waived_and_expired read_lines read_line flush
  table_swallows ws w check h plain plain_check other =
      ap (λ ls. flushed now (read_lines now ls (new_reader now)))
        (lines-unlines (file_lines ws (block w (table check))) (
          file_lines-All ws (block w (table check)) h (
            file_lines-All (w ∷ []) (table check) (plain, tt)
              (refl, (quoted-one_line (codes "check  ") check refl plain_check, tt)))))
      ∙ ap (flushed now) (read_file ws (block w (table check)) (new_reader now) h)
      ∙ ap (flushed now) (read_block now w (table check) (after ws (new_reader now)) plain)
      ∙ ap (flushed now) (
          read_quoted now (codes "check   = \"") check
            (record {
              check = w.check;
              target = w.target;
              due = w.due;
              verdicts = flushed now (after ws (new_reader now));
            })
            (λ v. record {
              check = v;
              target = w.target;
              due = w.due;
              verdicts = flushed now (after ws (new_reader now));
            })
            plain_check refl)
      ∙ rw other refl
      ∙ flushed_new ws
