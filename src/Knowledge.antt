-- ===== src/Knowledge.antt =====
-- src/knowledge.rs, src/knowledge/contracts.rs: the identifiers, digests and ranges that agents
-- exchange, and their validation.
pub mod Tokens
pub mod Code
use texo.Base.{
  ℕ, ◌≡◌, refl, Bool, true, false, List, [], ◌∷◌, ◌++◌, Result, ok, err, ◌>>=◌, ◌>>◌, fail_if,
  if◌then◌else◌, ltb, leb, ◌==◌, not, ◌&&◌, ◌||◌, length, all, take, map,
}
use texo.Base.Text.{Text, bytes, starts_with, is_ascii_digit, is_ascii_alphanumeric}
use texo.Events.Payloads.{GitObjectFormat, GitObjectId, ByteRange, LineRange, EvidenceOccurrence}

pub data KnowledgeContractError : Type 0 where
  invalid_identifier : (kind : Text) → KnowledgeContractError
  invalid_digest : (field : Text) → (length : ℕ) → KnowledgeContractError
  reversed_range invalid_line_range : (start stop : ℕ) → KnowledgeContractError
  excerpt_too_large : (actual maximum : ℕ) → KnowledgeContractError

abbrev pub max_evidence_excerpt_bytes : ℕ
max_evidence_excerpt_bytes = 4096

-- A lowercase hexadecimal digit.
abbrev pub is_lower_hex : ℕ → Bool
is_lower_hex byte = is_ascii_digit byte || (leb b'a' byte && leb byte b'f')

unfoldable pub validate_lower_hex : Text → Text → ℕ → Result KnowledgeContractError (Unit {0})
validate_lower_hex field value expected =
    fail_if (not (length value == expected) || not (all is_lower_hex value))
      (KnowledgeContractError.invalid_digest field expected)

abbrev pub is_id_byte : ℕ → Bool
is_id_byte byte = is_ascii_alphanumeric byte || (byte == b'_' || byte == b'-')

-- The types that `knowledge_id!` makes, by their name and prefix.
module _ (kind prefix : Text) where
  unfoldable pub parse_id : Text → Result KnowledgeContractError Text
  parse_id value =
      fail_if
        (not (starts_with value prefix)
          || (leb (length value) (length prefix) || not (all is_id_byte value)))
        (KnowledgeContractError.invalid_identifier kind)
      >> ok value

  unfoldable pub derive_id : (Text → Text) → Text → Text
  derive_id hash material = prefix ++ take 24 (hash material)

abbrev pub hex_len : GitObjectFormat → ℕ
hex_len GitObjectFormat.sha1 = 40
hex_len GitObjectFormat.sha256 = 64

-- `GitObjectId::new`, `LineRange::new`, `ByteRange::new` and `EvidenceOccurrence::validate`.
unfoldable pub git_object_id : GitObjectFormat → Text → Result KnowledgeContractError GitObjectId
unfolding validate_lower_hex
git_object_id format hex =
    validate_lower_hex (bytes "git object id") hex (hex_len format)
    >> ok (record { format = format; hex = hex })

unfoldable pub line_range : ℕ → ℕ → Result KnowledgeContractError LineRange
line_range start stop =
    if (start == 0) || ((stop == 0) || ltb stop start)
    then err (KnowledgeContractError.invalid_line_range start stop)
    else ok (record { start = start; end = stop })

unfoldable pub byte_range : ℕ → ℕ → Result KnowledgeContractError ByteRange
byte_range start stop =
    if ltb stop start
    then err (KnowledgeContractError.reversed_range start stop)
    else ok (record { start = start; end = stop })

unfoldable pub validate_occurrence : EvidenceOccurrence → Result KnowledgeContractError (Unit {0})
unfolding validate_lower_hex
validate_occurrence o =
    validate_lower_hex (bytes "source digest") (EvidenceOccurrence.source_digest_hex o) 64
    >> fail_if (ltb max_evidence_excerpt_bytes (length (EvidenceOccurrence.excerpt o))) (
        KnowledgeContractError.excerpt_too_large (length (EvidenceOccurrence.excerpt o))
          max_evidence_excerpt_bytes)
