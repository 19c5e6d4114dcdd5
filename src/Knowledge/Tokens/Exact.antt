-- ===== src/Knowledge/Tokens/Exact.antt =====
-- Which texts a journal accepts as tokens, and what they stand for.
use texo.Base.{
  ℕ, ◌≡◌, ◌↔◌, ◌≤◌, refl, sym, ap, ◌∙◌, subst, Bool, true, false, Option, none, some, List, [], ◌∷◌,
  Result, ok, ◌>>=◌, ◌>>◌, >>=-eq-ok, >>-eq-ok, fail_if-eq-ok, fail_if, ok_or, if◌then◌else◌, not,
  take, length-take, arith,
}
use texo.Base.Order.{same_iff, same_refl}
use texo.Base.Text.{
  Text, bytes, text_eq, text_ord, decimal, is_ascii_digit, is_ascii_alphanumeric,
  is_ascii_uppercase, is_ascii_lowercase, compare_text,
}
use texo.Base.Decimal.{
  parse_u64, parse-decimal, parse_u64-IsField, largest_u64, split, join_fields, join-split,
  split-append, split-field,
}
use texo.Knowledge.{KnowledgeContractError, validate_lower_hex}
use texo.Knowledge.Tokens.Fields.{
  IsDigest, IsAnchor, IsSource, all_hex-IsField, validate_all, all-take_hex, all_id-IsField,
  source-IsField, anchor-IsField, IsAnchor-back, IsSource-back, anchor_check, source_check,
}
use texo.Knowledge.Tokens.{
  SnapshotDescriptor, token_tag, dotted, source_field, anchor_field, invalid_token, next_field,
  check_anchor_field, source_of_field, snapshot_token_digest, checksum_of, token_spelled,
  for_descriptor, resolve_fields, after_anchor, after_frontier, after_tag, resolve_for_journal,
}

not-false : (b : Bool) → not b ≡ false → b ≡ true
not-false true e = refl
not-false false e = cc

descriptor_injective :
    {c d : SnapshotDescriptor}
    → ◌≡◌ {A = Result KnowledgeContractError SnapshotDescriptor} (ok c) (ok d)
    → c ≡ d
descriptor_injective e = cc

module _ (hash : Text → Text) (workspace_id journal_id : Text) where
  abbrev pub IsDescriptor : SnapshotDescriptor → Type 0
  IsDescriptor d =
      (SnapshotDescriptor.workspace_id d ≡ workspace_id)
      × (SnapshotDescriptor.journal_id d ≡ journal_id)
      × IsAnchor (SnapshotDescriptor.anchor_event_id_hex d)
      × IsSource (SnapshotDescriptor.source_snapshot_id d)

  -- A token of the descriptor, whose frontier may be spelled with a sign or with zeros in front.
  abbrev pub IsToken : Text → SnapshotDescriptor → Type 0
  IsToken value d =
      (spelling : Text) × (parse_u64 spelling ≡ some (SnapshotDescriptor.frontier d))
      × (value ≡ token_spelled hash spelling d)

  -- What the fields of an accepted text are.
  abbrev Fields : ℕ → Text → Text → Text → SnapshotDescriptor → Type 0
  Fields frontier anchor source checksum d =
      IsDescriptor d
      × (SnapshotDescriptor.frontier d ≡ frontier)
      × (anchor_field (SnapshotDescriptor.anchor_event_id_hex d) ≡ anchor)
      × (source_field (SnapshotDescriptor.source_snapshot_id d) ≡ source)
      × (checksum ≡ checksum_of hash d)

  abbrev described : ℕ → Text → Option Text → SnapshotDescriptor
  described frontier anchor source = record {
    workspace_id = workspace_id;
    journal_id = journal_id;
    frontier = frontier;
    anchor_event_id_hex = anchor;
    source_snapshot_id = source;
  }

  described_lem :
      (d : SnapshotDescriptor)
      → SnapshotDescriptor.workspace_id d ≡ workspace_id
      → SnapshotDescriptor.journal_id d ≡ journal_id
      → described
          (SnapshotDescriptor.frontier d)
          (SnapshotDescriptor.anchor_event_id_hex d)
          (SnapshotDescriptor.source_snapshot_id d)
        ≡ d
  described_lem d e k = sym (λ i. record d { workspace_id = e i; journal_id = k i })

  resolve_fields-Fields :
      (frontier : ℕ) (anchor source checksum : Text) (d : SnapshotDescriptor)
      → check_anchor_field anchor ≡ ok tt
      → resolve_fields hash workspace_id journal_id frontier anchor source checksum ≡ ok d
      → Fields frontier anchor source checksum d
  resolve_fields-Fields frontier anchor source checksum d a h =
      let digest : Text =
        take 32 (snapshot_token_digest hash workspace_id journal_id frontier anchor source) in
      let checked : Result KnowledgeContractError (Unit {0}) =
        validate_lower_hex (bytes "snapshot token checksum") checksum 32 in
      let matched : Result KnowledgeContractError (Unit {0}) =
        fail_if (not (text_eq checksum digest)) invalid_token in
      let answer : Option Text → Result KnowledgeContractError SnapshotDescriptor =
        λ id. ok (described frontier (if text_eq anchor (bytes "-") then [] else anchor) id) in
      let outer = >>-eq-ok (checked >> matched) (source_of_field source >>= answer) h in
      let inner = >>-eq-ok checked matched outer.0 in
      let found = >>=-eq-ok (source_of_field source) answer outer.1 in
      let back = IsSource-back source found.0 found.1 in
      let kept = IsAnchor-back anchor a in
      let equal : described frontier (if text_eq anchor (bytes "-") then [] else anchor) found.0
          ≡ d =
        descriptor_injective found.2 in
      let level : text_eq checksum digest ≡ true =
        not-false (text_eq checksum digest)
          (fail_if-eq-ok (not (text_eq checksum digest)) invalid_token inner.1) in
      subst (Fields frontier anchor source checksum) equal (
        (refl, refl, kept.0, back.0),
        refl,
        kept.1,
        back.1,
        rw (kept.1, back.1) ((same_iff checksum digest).0 level),
      )

  fields_resolve :
      (frontier : ℕ) (anchor : Text) (source : Option Text)
      → let d = described frontier anchor source in
        IsAnchor anchor
        → IsSource source
        → validate_lower_hex (bytes "snapshot token checksum") (checksum_of hash d) 32 ≡ ok tt
        → resolve_fields hash workspace_id journal_id frontier
            (anchor_field anchor)
            (source_field source)
            (checksum_of hash d)
          ≡ ok d
  fields_resolve frontier anchor source va vs c =
      rw
        (
          c,
          same_refl (checksum_of hash (described frontier anchor source)),
          source_check source vs,
          (anchor_check anchor va).1,
        )
        refl

  ok_or-some : (o : Option ℕ) (n : ℕ) → ok_or o invalid_token ≡ ok n → o ≡ some n
  ok_or-some none n h = cc
  ok_or-some (some m) n h = cc

  -- The four fields behind the tag, and the number that the first of them spells.
  abbrev Parsed : List Text → SnapshotDescriptor → Type 0
  Parsed fields d =
      (spelling : Text) × (anchor : Text) × (source : Text) × (checksum : Text) × (frontier : ℕ)
      × (fields ≡ spelling ∷ anchor ∷ source ∷ checksum ∷ [])
      × (parse_u64 spelling ≡ some frontier)
      × Fields frontier anchor source checksum d

  after_anchor-Parsed :
      (spelling : Text) (frontier : ℕ) (anchor : Text) (fields : List Text) (d : SnapshotDescriptor)
      → parse_u64 spelling ≡ some frontier
      → check_anchor_field anchor ≡ ok tt
      → after_anchor hash workspace_id journal_id frontier anchor fields ≡ ok d
      → Parsed (spelling ∷ anchor ∷ fields) d
  after_anchor-Parsed spelling frontier anchor [] d p a h = cc
  after_anchor-Parsed spelling frontier anchor (source ∷ []) d p a h = cc
  after_anchor-Parsed spelling frontier anchor (source ∷ checksum ∷ []) d p a h = (
    spelling,
    anchor,
    source,
    checksum,
    frontier,
    refl,
    p,
    resolve_fields-Fields frontier anchor source checksum d a h,
  )
  after_anchor-Parsed spelling frontier anchor (source ∷ checksum ∷ next ∷ fields) d p a h = cc

  after_frontier-Parsed :
      (spelling : Text) (frontier : ℕ) (fields : List Text) (d : SnapshotDescriptor)
      → parse_u64 spelling ≡ some frontier
      → after_frontier hash workspace_id journal_id frontier fields ≡ ok d
      → Parsed (spelling ∷ fields) d
  after_frontier-Parsed spelling frontier [] d p h = cc
  after_frontier-Parsed spelling frontier (anchor ∷ fields) d p h =
      let checked =
        >>-eq-ok (check_anchor_field anchor)
          (after_anchor hash workspace_id journal_id frontier anchor fields) h in
      after_anchor-Parsed spelling frontier anchor fields d p checked.0 checked.1

  after_tag-Parsed :
      (fields : List Text) (d : SnapshotDescriptor)
      → after_tag hash workspace_id journal_id fields ≡ ok d
      → Parsed fields d
  after_tag-Parsed [] d h = cc
  after_tag-Parsed (spelling ∷ fields) d h =
      let read =
        >>=-eq-ok (ok_or (parse_u64 spelling) invalid_token)
          (λ n. after_frontier hash workspace_id journal_id n fields) h in
      after_frontier-Parsed spelling read.0 fields d (ok_or-some (parse_u64 spelling) read.0 read.1)
        read.2

  join-Parsed :
      (value : Text) (fields : List Text) (d : SnapshotDescriptor)
      → split 46 value ≡ token_tag ∷ fields
      → Parsed fields d
      → IsDescriptor d × IsToken value d
  join-Parsed value fields d s p =
      let f : Fields p.4 p.1 p.2 p.3 d = p.7 in
      let parts : value ≡ dotted token_tag (dotted p.0 (dotted p.1 (dotted p.2 p.3))) =
        sym (join-split 46 value)
        ∙ ap (join_fields 46) (s ∙ ap (λ (rest : List Text). token_tag ∷ rest) p.5) in
      (f.0, (p.0, p.6 ∙ ap some (sym f.1), parts ∙ spelled p.0 f))
    where
      spelled :
          (spelling : Text) {frontier : ℕ} {anchor source checksum : Text}
          → Fields frontier anchor source checksum d
          → dotted token_tag (dotted spelling (dotted anchor (dotted source checksum)))
            ≡ token_spelled hash spelling d
      spelled spelling f i =
          dotted token_tag (dotted spelling (dotted (sym f.2 i) (dotted (sym f.3 i) (f.4 i))))

  accepted :
      (value : Text) (parts : List Text) (d : SnapshotDescriptor)
      → split 46 value ≡ parts
      → (next_field parts >>= λ tag.
          fail_if (not (text_eq tag.0 token_tag)) invalid_token
          >> after_tag hash workspace_id journal_id tag.1)
        ≡ ok d
      → IsDescriptor d × IsToken value d
  accepted value [] d s h = cc
  accepted value (tag ∷ fields) d s h =
      let outer =
        >>-eq-ok (fail_if (not (text_eq tag token_tag)) invalid_token)
          (after_tag hash workspace_id journal_id fields) h in
      let level : text_eq tag token_tag ≡ true =
        not-false (text_eq tag token_tag)
          (fail_if-eq-ok (not (text_eq tag token_tag)) invalid_token outer.0) in
      join-Parsed value fields d
        (s ∙ ap (λ (t : Text). t ∷ fields) ((same_iff tag token_tag).0 level))
        (after_tag-Parsed fields d outer.1)

  module _ (digest : IsDigest hash) where
    checksum_valid :
        (text : Text)
        → validate_lower_hex (bytes "snapshot token checksum") (take 32 (hash text)) 32 ≡ ok tt
    unfolding validate_lower_hex
    checksum_valid text =
        ground (arith, digest text, length-take 32 (hash text), all-take_hex 32 (hash text))

    token_fields :
        (spelling : Text) (frontier : ℕ) (anchor : Text) (source : Option Text)
        → IsAnchor anchor
        → IsSource source
        → parse_u64 spelling ≡ some frontier
        → split 46 (token_spelled hash spelling (described frontier anchor source))
          ≡ token_tag
            ∷ spelling
            ∷ anchor_field anchor
            ∷ source_field source
            ∷ checksum_of hash (described frontier anchor source)
            ∷ []
    unfolding is_ascii_alphanumeric is_ascii_digit is_ascii_uppercase is_ascii_lowercase
        snapshot_token_digest
    token_fields spelling frontier anchor source va vs p =
        let d : SnapshotDescriptor = described frontier anchor source in
        let a = anchor_field anchor in
        let b = source_field source in
        let c = checksum_of hash d in
        split-append 46 token_tag (dotted spelling (dotted a (dotted b c)))
          (all_id-IsField token_tag refl)
        ∙ ap (λ (rest : List Text). token_tag ∷ rest)
            (split-append 46 spelling (dotted a (dotted b c))
                (parse_u64-IsField spelling frontier p).0
              ∙ ap (λ (rest : List Text). spelling ∷ rest)
                  (split-append 46 a (dotted b c) (anchor-IsField anchor va)
                    ∙ ap (λ (rest : List Text). a ∷ rest)
                        (split-append 46 b c (source-IsField source vs)
                          ∙ ap (λ (rest : List Text). b ∷ rest)
                              (split-field 46 c (
                                all_hex-IsField c
                                  (validate_all (bytes "snapshot token checksum") c 32
                                    (checksum_valid _)).1)))))

    tokens_resolve :
        (spelling : Text) (frontier : ℕ) (anchor : Text) (source : Option Text)
        → IsAnchor anchor
        → IsSource source
        → parse_u64 spelling ≡ some frontier
        → resolve_for_journal hash workspace_id journal_id
            (token_spelled hash spelling (described frontier anchor source))
          ≡ ok (described frontier anchor source)
    unfolding resolve_for_journal snapshot_token_digest compare_text
    tokens_resolve spelling frontier anchor source va vs p =
        let d : SnapshotDescriptor = described frontier anchor source in
        rw (token_fields spelling frontier anchor source va vs p, p, (anchor_check anchor va).0)
          (fields_resolve frontier anchor source va vs (checksum_valid _))

    -- A journal accepts exactly the tokens of its own descriptors, whose anchor and source are
    -- valid, and reads each as the descriptor that it was made of; only the frontier may be spelled
    -- otherwise, with a sign or with zeros in front.
    pub resolve_for_journal-iff-IsToken :
        (value : Text) (d : SnapshotDescriptor)
        → (resolve_for_journal hash workspace_id journal_id value ≡ ok d)
          ↔ (IsDescriptor d × IsToken value d)
    unfolding resolve_for_journal
    resolve_for_journal-iff-IsToken value d =
        (λ h. accepted value (split 46 value) d refl h, made value d)
      where
        made :
            (value : Text) (d : SnapshotDescriptor)
            → IsDescriptor d × IsToken value d
            → resolve_for_journal hash workspace_id journal_id value ≡ ok d
        made value d (v, token) =
            let same_as = described_lem d v.0 v.1 in
            rw (token.2) (
              subst
                (λ (e : SnapshotDescriptor).
                  resolve_for_journal hash workspace_id journal_id (token_spelled hash token.0 e)
                  ≡ ok e)
                same_as
                (tokens_resolve token.0 (SnapshotDescriptor.frontier d)
                  (SnapshotDescriptor.anchor_event_id_hex d)
                  (SnapshotDescriptor.source_snapshot_id d) v.2 v.3 token.1))

    -- A token resolves on its journal to the descriptor that it was made of, whose frontier is a
    -- number of 64 bits and whose anchor and source are valid.
    pub resolve-for_descriptor :
        (d : SnapshotDescriptor)
        → IsDescriptor d
        → SnapshotDescriptor.frontier d ≤ largest_u64
        → resolve_for_journal hash workspace_id journal_id (for_descriptor hash d) ≡ ok d
    unfolding for_descriptor
    resolve-for_descriptor d v h = (resolve_for_journal-iff-IsToken (for_descriptor hash d) d).1 (
      v,
      (
        decimal (SnapshotDescriptor.frontier d),
        parse-decimal (SnapshotDescriptor.frontier d) h,
        refl,
      ),
    )
