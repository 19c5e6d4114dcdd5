-- ===== src/Examples/Tokens.antt =====
-- A token of a small journal, and the texts that stand for it.
use texo.Base.{
  ℕ, zero, suc, ◌+◌, ◌%◌, ◌≡◌, ◌↔◌, refl, arith, true, some, [], ◌∷◌, ok, err, inr, length, all,
}
use texo.Base.Text.{
  Text, bytes, decimal, decimal_from, compare_text, starts_with, is_ascii_digit,
  is_ascii_alphanumeric, is_ascii_lowercase,
}
use texo.Base.Decimal.{parse_u64, parse_digits, split}
use texo.Knowledge.{
  KnowledgeContractError, is_lower_hex, validate_lower_hex, parse_id, line_range, byte_range,
}
use texo.Knowledge.Tokens.{
  SnapshotDescriptor, snapshot_token_digest, token_spelled, for_descriptor, resolve_for_journal,
  invalid_token,
}
use texo.Knowledge.Tokens.Fields.{IsDigest}
use texo.Knowledge.Tokens.Exact.{
  IsDescriptor, IsToken, resolve_for_journal-iff-IsToken, resolve-for_descriptor,
}

abbrev copies : ℕ → ℕ → Text
copies zero byte = []
copies (suc n) byte = byte ∷ copies n byte

-- 64 digits that tell the lengths of texts apart.
abbrev digest : Text → Text
digest text = copies 64 (48 + length text % 10)

all-copies : (n byte : ℕ) → is_lower_hex byte ≡ true → all is_lower_hex (copies n byte) ≡ true
all-copies zero byte h = refl
all-copies (suc n) byte h = ground (arith, all-copies n byte h)

digit_lem : (n : ℕ) → is_lower_hex (48 + n % 10) ≡ true
unfolding is_ascii_digit
digit_lem n = ground arith

digest-IsDigest : IsDigest digest
digest-IsDigest text = (refl, all-copies 64 (48 + length text % 10) (digit_lem (length text)))

abbrev descriptor : SnapshotDescriptor
descriptor = record {
  workspace_id = bytes "demo";
  journal_id = bytes "main";
  frontier = 42;
  anchor_event_id_hex = copies 32 b'a';
  source_snapshot_id = some (bytes "snapshot_1");
}

descriptor_valid : IsDescriptor digest (bytes "demo") (bytes "main") descriptor
unfolding validate_lower_hex parse_id starts_with is_ascii_digit is_ascii_alphanumeric
    is_ascii_lowercase
descriptor_valid = (refl, refl, inr refl, refl)

resolve-for_descriptor_example :
    resolve_for_journal digest (bytes "demo") (bytes "main") (for_descriptor digest descriptor)
    ≡ ok descriptor
resolve-for_descriptor_example =
    resolve-for_descriptor digest (bytes "demo") (bytes "main") digest-IsDigest descriptor
      descriptor_valid (omega arith)

resolve_for_journal-iff-IsToken_example :
    (resolve_for_journal digest
        (bytes "demo")
        (bytes "main")
        (token_spelled digest (bytes "+042") descriptor)
      ≡ ok descriptor)
    ↔ (IsDescriptor digest (bytes "demo") (bytes "main") descriptor
        × IsToken digest
            (bytes "demo")
            (bytes "main")
            (token_spelled digest (bytes "+042") descriptor)
            descriptor)
resolve_for_journal-iff-IsToken_example =
    resolve_for_journal-iff-IsToken digest (bytes "demo") (bytes "main") digest-IsDigest
      (token_spelled digest (bytes "+042") descriptor) descriptor

-- The same number with a sign and a zero in front is accepted too.
respelled :
    resolve_for_journal digest
      (bytes "demo")
      (bytes "main")
      (token_spelled digest (bytes "+042") descriptor)
    ≡ ok descriptor
unfolding parse_u64 parse_digits is_ascii_digit
respelled = resolve_for_journal-iff-IsToken_example.1 (descriptor_valid, (bytes "+042", refl, refl))

-- A journal of another name refuses the token.
elsewhere :
    resolve_for_journal digest (bytes "demo") (bytes "other") (for_descriptor digest descriptor)
    ≡ err invalid_token
unfolding resolve_for_journal for_descriptor snapshot_token_digest split decimal decimal_from
    parse_u64 parse_digits compare_text validate_lower_hex is_ascii_digit
elsewhere = refl

reversed : byte_range 5 3 ≡ err (KnowledgeContractError.reversed_range 5 3)
unfolding byte_range
reversed = refl

no_line : line_range 0 3 ≡ err (KnowledgeContractError.invalid_line_range 0 3)
unfolding line_range
no_line = refl
