-- ===== src/Knowledge/Tokens.antt =====
-- src/knowledge.rs: the tokens that bind the reads of an agent to one view of one journal.
pub mod Fields
pub mod Exact
use texo.Base.{
  ℕ, Bool, true, false, Option, none, some, List, [], ◌∷◌, ◌++◌, Result, ok, err, ◌>>=◌, ◌>>◌,
  fail_if, ok_or, if◌then◌else◌, not, take, unwrap_or,
}
use texo.Base.Text.{Text, bytes, text_eq, is_empty, decimal}
use texo.Base.Decimal.{parse_u64, split}
use texo.Knowledge.{KnowledgeContractError, validate_lower_hex, parse_id}

pub record SnapshotDescriptor : Type 0 where
  pub workspace_id : Text
  pub journal_id : Text
  pub frontier : ℕ
  pub anchor_event_id_hex : Text
  pub source_snapshot_id : Option Text

abbrev pub source_snapshot_id_parse : Text → Result KnowledgeContractError Text
source_snapshot_id_parse value = parse_id (bytes "SourceSnapshotId") (bytes "snapshot_") value

-- The separator U+001F and a field.
abbrev pub unit : Text → Text → Text
unit field rest = 31 ∷ (field ++ rest)

abbrev pub token_tag : Text
token_tag = bytes "texo_snap_v2"

-- A field of a token and what follows it.
abbrev pub dotted : Text → Text → Text
dotted field rest = field ++ (46 ∷ rest)

abbrev pub source_field : Option Text → Text
source_field source = unwrap_or source (bytes "none")

abbrev pub anchor_field : Text → Text
anchor_field anchor = if is_empty anchor then bytes "-" else anchor

abbrev pub invalid_token : KnowledgeContractError
invalid_token = KnowledgeContractError.invalid_identifier (bytes "SnapshotToken")

-- `fields.next()`.
abbrev pub next_field : List Text → Result KnowledgeContractError (Text × List Text)
next_field [] = err invalid_token
next_field (field ∷ fields) = ok (field, fields)

abbrev pub no_more : List Text → Result KnowledgeContractError (Unit {0})
no_more [] = ok tt
no_more (field ∷ fields) = err invalid_token

abbrev pub check_anchor_field : Text → Result KnowledgeContractError (Unit {0})
check_anchor_field anchor =
    if text_eq anchor (bytes "-")
    then ok tt
    else validate_lower_hex (bytes "snapshot anchor") anchor 32

abbrev pub source_of_field : Text → Result KnowledgeContractError (Option Text)
source_of_field source =
    if text_eq source (bytes "none")
    then ok none
    else source_snapshot_id_parse source >>= λ id. ok (some id)

-- BLAKE3 as hexadecimal digits is the parameter `hash`.
module _ (hash : Text → Text) where
  unfoldable pub snapshot_token_digest : Text → Text → ℕ → Text → Text → Text
  snapshot_token_digest workspace_id journal_id frontier anchor source = hash (
      bytes "texo.snapshot-token.v2"
      ++ unit workspace_id
          (unit journal_id (unit (decimal frontier) (unit anchor (unit source [])))))

  -- `&digest[..32]`.
  abbrev pub checksum_of : SnapshotDescriptor → Text
  checksum_of d = take 32 (
      snapshot_token_digest (SnapshotDescriptor.workspace_id d) (SnapshotDescriptor.journal_id d)
        (SnapshotDescriptor.frontier d) (anchor_field (SnapshotDescriptor.anchor_event_id_hex d))
        (source_field (SnapshotDescriptor.source_snapshot_id d)))

  -- The token of a descriptor, with the frontier spelled as is said.
  abbrev pub token_spelled : Text → SnapshotDescriptor → Text
  token_spelled frontier d = dotted token_tag (
      dotted frontier (
        dotted (anchor_field (SnapshotDescriptor.anchor_event_id_hex d))
          (dotted (source_field (SnapshotDescriptor.source_snapshot_id d)) (checksum_of d))))

  unfoldable pub for_descriptor : SnapshotDescriptor → Text
  unfolding snapshot_token_digest
  for_descriptor d = token_spelled (decimal (SnapshotDescriptor.frontier d)) d

  module _ (workspace_id journal_id : Text) where
    -- What the fields say, once all of them are there.
    abbrev pub resolve_fields :
        ℕ → Text → Text → Text → Result KnowledgeContractError SnapshotDescriptor
    resolve_fields frontier anchor source checksum =
        validate_lower_hex (bytes "snapshot token checksum") checksum 32
        >> fail_if
            (not (
              text_eq checksum
                (take 32 (snapshot_token_digest workspace_id journal_id frontier anchor source))))
            invalid_token
        >> (source_of_field source >>= λ source_snapshot_id. ok (record {
          workspace_id = workspace_id;
          journal_id = journal_id;
          frontier = frontier;
          anchor_event_id_hex = if text_eq anchor (bytes "-") then [] else anchor;
          source_snapshot_id = source_snapshot_id;
        }))

    abbrev pub after_anchor :
        ℕ → Text → List Text → Result KnowledgeContractError SnapshotDescriptor
    after_anchor frontier anchor fields = next_field fields >>= λ source.
        next_field source.1 >>= λ checksum.
        no_more checksum.1 >> resolve_fields frontier anchor source.0 checksum.0

    abbrev pub after_frontier : ℕ → List Text → Result KnowledgeContractError SnapshotDescriptor
    after_frontier frontier fields = next_field fields >>= λ anchor.
        check_anchor_field anchor.0 >> after_anchor frontier anchor.0 anchor.1

    abbrev pub after_tag : List Text → Result KnowledgeContractError SnapshotDescriptor
    after_tag fields = next_field fields >>= λ spelling.
        ok_or (parse_u64 spelling.0) invalid_token >>= λ frontier.
        after_frontier frontier spelling.1

    unfoldable pub resolve_for_journal : Text → Result KnowledgeContractError SnapshotDescriptor
    unfolding snapshot_token_digest
    resolve_for_journal value = next_field (split 46 value) >>= λ tag.
        fail_if (not (text_eq tag.0 token_tag)) invalid_token >> after_tag tag.1

-- `SnapshotRead::new`.
pub record SnapshotRead : Type 0 where
  pub token : Text
  pub descriptor : SnapshotDescriptor

unfoldable pub snapshot_read : (Text → Text) → SnapshotDescriptor → SnapshotRead
unfolding for_descriptor
snapshot_read hash descriptor = record {
  token = for_descriptor hash descriptor;
  descriptor = descriptor;
}
