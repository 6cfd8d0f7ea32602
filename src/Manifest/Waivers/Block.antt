-- ===== src/Manifest/Waivers/Block.antt =====
-- The reader of tests/vector_manifest.rs over the lines of one waiver.
use bind.Common.{drop, ℕ, ◌≡◌, refl, sym, ap, ◌∙◌, List, [], ◌∷◌, ◌++◌}
use mathlib.Core.List.{append_assoc}
use bind.Config.{codes}
use bind.Manifest.Text.{
  is_whitespace, trim, trim_matches, trim_end_where, trim_end_where-snoc, trim_matches-quoted,
}
use bind.Manifest.Waivers.{Ymd, Reader, flushed, read_line, read_lines}
use bind.Manifest.Waivers.File.{Waiver, IsPlain, IsPlainWaiver, block}

-- The end of a quoted value is no whitespace.
trim_end-quoted :
    (s v : List ℕ)
    → trim_end_where is_whitespace (s ++ (v ++ (b'"' ∷ []))) ≡ s ++ (v ++ (b'"' ∷ []))
trim_end-quoted s v =
    ap (trim_end_where is_whitespace) (sym (append_assoc s v (b'"' ∷ [])))
    ∙ trim_end_where-snoc is_whitespace (s ++ v) b'"' refl
    ∙ append_assoc s v (b'"' ∷ [])

trim-value :
    (v : List ℕ) → IsPlain v → trim_matches b'"' (trim (b' ' ∷ (b'"' ∷ (v ++ (b'"' ∷ []))))) ≡ v
trim-value v (q, n) =
    ap (trim_matches b'"') (trim_end-quoted (b'"' ∷ []) v) ∙ trim_matches-quoted b'"' v q

module _ (now : Ymd) where
  -- A line in the form of the file, if its key does `f` with the value.
  pub read_quoted :
      (s v : List ℕ) (r : Reader) (f : List ℕ → Reader)
      → IsPlain v
      → read_line now (s ++ (v ++ (b'"' ∷ []))) r
        ≡ f (trim_matches b'"' (trim (b' ' ∷ (b'"' ∷ (v ++ (b'"' ∷ []))))))
      → read_line now (trim_end_where is_whitespace (s ++ (v ++ (b'"' ∷ [])))) r ≡ f v
  read_quoted s v r f plain computes =
      ap (λ l. read_line now l r) (trim_end-quoted s v) ∙ computes ∙ ap f (trim-value v plain)

  pub read_block :
      (w : Waiver) (rest : List (List ℕ)) (r : Reader)
      → IsPlainWaiver w
      → read_lines now (block w rest) r
        ≡ read_lines now rest
            (record { check = w.check; target = w.target; due = w.due; verdicts = flushed now r })
  unfolding read_lines read_line
  read_block w rest r plain =
      let after : List ℕ → List ℕ → List ℕ → Reader =
        λ c t d. record { check = c; target = t; due = d; verdicts = flushed now r } in
      ap (λ x. read_lines now (drop 2 (block w rest)) x)
        (read_quoted (codes "check   = \"") w.check (after [] [] []) (λ v. after v [] [])
          plain.check refl)
      ∙ ap (λ x. read_lines now (drop 3 (block w rest)) x)
          (read_quoted (codes "target  = \"") w.target (after w.check [] [])
            (λ v. after w.check v []) plain.target refl)
      ∙ ap (λ x. read_lines now (drop 4 (block w rest)) x)
          (read_quoted (codes "reason  = \"") w.reason (after w.check w.target [])
            (λ v. after w.check w.target []) plain.reason refl)
      ∙ ap (λ x. read_lines now (drop 5 (block w rest)) x)
          (read_quoted (codes "owner   = \"") w.owner (after w.check w.target [])
            (λ v. after w.check w.target []) plain.owner refl)
      ∙ ap (λ x. read_lines now (drop 6 (block w rest)) x)
          (read_quoted (codes "due     = \"") w.due (after w.check w.target [])
            (λ v. after w.check w.target v) plain.due refl)
