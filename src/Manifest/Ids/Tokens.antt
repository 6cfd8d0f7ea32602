-- ===== src/Manifest/Ids/Tokens.antt =====
-- The ids that tests/vector_manifest.rs finds in the sources of the tests.
use bind.Common.{
  ℕ, ◌≡◌, refl, ap, ◌∙◌, arith, Bool, true, false, not, ◌||◌, Option, none, some, List, [], ◌∷◌,
  ◌++◌, All, if◌then◌else◌, Bool-cases, inl, inr,
}
use bind.Common.Bytes.{bytes_eq_self}
use bind.Manifest.Text.{split_where, split_where-append, split_where-one}
use bind.Manifest.Ids.{member, insert, is_token, all_lower, is_id, add_tokens, referenced_ids}

pub member-append :
    (s : List ℕ) (ts us : List (List ℕ)) → member s (ts ++ us) ≡ member s ts || member s us
member-append s [] us = refl
member-append s (t ∷ ts) us = ground (arith, member-append s ts us)

-- A set keeps what it has, and has what is put into it.
pub member-insert :
    (s t : List ℕ) (out : List (List ℕ)) → member s out ≡ true → member s (insert t out) ≡ true
member-insert s t out h = ground (arith, member-append s out (t ∷ []))

pub member_self-insert : (s : List ℕ) (out : List (List ℕ)) → member s (insert s out) ≡ true
member_self-insert s out = ground (arith, member-append s out (s ∷ []), bytes_eq_self s)

member-add_tokens :
    (s : List ℕ) (ts out : List (List ℕ))
    → member s out ≡ true
    → member s (add_tokens ts out) ≡ true
member-add_tokens s [] out h = h
member-add_tokens s (t ∷ ts) out h = elim (Bool-cases (is_id t)) [
  | inl put ↦ rw put (member-add_tokens s ts (insert t out) (member-insert s t out h))
  | inr left ↦ rw left (member-add_tokens s ts out h)
]

found :
    (id : List ℕ) (ts out : List (List ℕ))
    → is_id id ≡ true
    → member id (add_tokens (id ∷ ts) out) ≡ true
found id ts out h =
    member-add_tokens id ts (if is_id id then insert id out else out)
      (rw h (member_self-insert id out))

add_tokens-append :
    (ts us out : List (List ℕ)) → add_tokens (ts ++ us) out ≡ add_tokens us (add_tokens ts out)
add_tokens-append [] us out = refl
add_tokens-append (t ∷ ts) us out = add_tokens-append ts us (if is_id t then insert t out else out)

member-referenced_ids :
    (s : List ℕ) (sources : List (Option (List ℕ))) (out : List (List ℕ))
    → member s out ≡ true
    → member s (referenced_ids sources out) ≡ true
unfolding referenced_ids
member-referenced_ids s [] out h = h
member-referenced_ids s (none ∷ sources) out h = member-referenced_ids s sources out h
member-referenced_ids s (some text ∷ sources) out h =
    member-referenced_ids s sources _
      (member-add_tokens s (split_where (λ c. not (is_token c)) text) out h)

abbrev separates : ℕ → Bool
separates c = not (is_token c)

all_lower-tokens : (s : List ℕ) → all_lower s ≡ true → All (λ c. separates c ≡ false) s
all_lower-tokens [] h = tt
all_lower-tokens (c ∷ s) h = (ground arith, all_lower-tokens s (ground arith))

id_piece :
    (before id after : List ℕ) (q r : ℕ)
    → is_id id ≡ true
    → separates q ≡ true
    → separates r ≡ true
    → split_where separates (before ++ (q ∷ (id ++ (r ∷ after))))
      ≡ split_where separates before ++ (id ∷ split_where separates after)
id_piece before id after q r h hq hr =
    split_where-append separates before q (id ++ (r ∷ after)) hq
    ∙ ap (λ x. split_where separates before ++ x)
        (split_where-append separates id r after hr
          ∙ ap (λ x. x ++ split_where separates after)
              (split_where-one separates id (all_lower-tokens id (ground arith))))

-- An id between two characters that are no letter, digit, dash or underscore, such as quotes, in a
-- source that can be read, is found, whatever else is in it and in the other sources; an id is a text of
-- lower-case letters, digits, dashes and underscores with a dash that neither begins nor ends it.
pub referenced_ids_lem :
    (before id after : List ℕ) (q r : ℕ) (sources : List (Option (List ℕ))) (out : List (List ℕ))
    → is_id id ≡ true
    → is_token q ≡ false
    → is_token r ≡ false
    → member id (referenced_ids (some (before ++ (q ∷ (id ++ (r ∷ after)))) ∷ sources) out) ≡ true
unfolding referenced_ids
referenced_ids_lem before id after q r sources out h hq hr = member-referenced_ids id sources _ (
    ap (λ ts. member id (add_tokens ts out))
      (id_piece before id after q r h (ground arith) (ground arith))
    ∙ ap (member id)
        (add_tokens-append (split_where separates before) (id ∷ split_where separates after) out)
    ∙ found id (split_where separates after) (add_tokens (split_where separates before) out) h)
