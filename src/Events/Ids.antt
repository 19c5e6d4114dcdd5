-- ===== src/Events/Ids.antt =====
-- src/events/ids.rs: the parsers of branded identifiers and the derived identifiers. BLAKE3 is not
-- part of the repository: `hash` stands for `blake3_hash_hex`, a parameter of what uses it.
use texo.Base.{
  ℕ, ◌≡◌, ap, sym, ◌∙◌, append_assoc, Bool, ◌∷◌, ◌++◌, arith, Result, ok, err, if◌then◌else◌, ◌==◌,
  any, length, take, ltb, ◌||◌,
}
use texo.Base.Text.{Text, bytes, is_empty, starts_with, text_ord, decimal}
use texo.Base.Order.{le}

pub data IdParseError : Type 0 where
  empty : IdParseError
  bad_prefix : Text → IdParseError
  invalid_workspace : IdParseError
  hash_too_short : ℕ → IdParseError

unfoldable pub expect_prefix : Text → Text → Result IdParseError Text
expect_prefix value prefix =
    if is_empty value
    then err IdParseError.empty
    else if starts_with value prefix
    then ok value
    else err (IdParseError.bad_prefix prefix)

-- `str::contains` of a one-byte character.
abbrev contains_byte : ℕ → Text → Bool
contains_byte c = any (λ b. b == c)

unfoldable pub validate_workspace : Text → Result IdParseError (Unit {0})
validate_workspace value =
    if is_empty value
      || contains_byte b'/' value
      || contains_byte b'\\' value
      || contains_byte 0 value
    then err IdParseError.invalid_workspace
    else ok tt

-- `ClaimId::try_from`, `ConflictId::try_from`.
unfoldable pub claim_id_try_from : Text → Result IdParseError Text
unfolding expect_prefix
claim_id_try_from value = expect_prefix value (bytes "claim_")

unfoldable pub conflict_id_try_from : Text → Result IdParseError Text
unfolding expect_prefix
conflict_id_try_from value = expect_prefix value (bytes "conflict_")

abbrev source_id_hash_len : ℕ
source_id_hash_len = 12

-- `body_hash_hex.get(..12)`, over the ASCII hex text that the callers derive.
unfoldable pub source_id_from_hash : Text → Result IdParseError Text
source_id_from_hash body_hash_hex =
    if ltb (length body_hash_hex) source_id_hash_len
    then err (IdParseError.hash_too_short source_id_hash_len)
    else ok (bytes "src_" ++ take source_id_hash_len body_hash_hex)

module _ (hash : Text → Text) where
  unfoldable pub claim_id_from_parts : Text → ℕ → Text → Text
  claim_id_from_parts source_id line_start normalized_text =
      bytes "claim_" ++ take 12 (hash (source_id ++ (decimal line_start ++ normalized_text)))

  unfoldable pub conflict_id_from_pair : Text → Text → Text
  conflict_id_from_pair a b =
      let ordered = le a b in
      bytes "conflict_" ++ take 12 (hash (if ordered then a ++ b else b ++ a))

  unfoldable pub relation_pair_id : Text → Text → Text → Text
  relation_pair_id workspace_id older newer =
      bytes "pair_" ++ take 12 (hash (workspace_id ++ (0x1f ∷ (older ++ (0x1f ∷ newer)))))

  -- The identifier of a conflict does not depend on which claim comes first.
  pub conflict_id_from_pair_comm :
      (a b : Text) → conflict_id_from_pair a b ≡ conflict_id_from_pair b a
  unfolding conflict_id_from_pair
  conflict_id_from_pair_comm a b = ground (arith, text_ord.cmp_flip a b, text_ord.cmp_eq_iff a b)

  -- The line number and the text of a claim are hashed without a mark between them: a text that begins
  -- with digits has the identifier of the text without them on the line that the digits continue.
  pub claim_id_shared :
      (source_id text : Text) (line digits joined : ℕ)
      → decimal line ++ decimal digits ≡ decimal joined
      → claim_id_from_parts source_id line (decimal digits ++ text)
        ≡ claim_id_from_parts source_id joined text
  unfolding claim_id_from_parts
  claim_id_shared source_id text line digits joined h =
      ap (λ t. bytes "claim_" ++ take 12 (hash (source_id ++ t)))
        (sym (append_assoc (decimal line) (decimal digits) text) ∙ ap (λ d. d ++ text) h)
