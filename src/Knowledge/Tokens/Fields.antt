-- ===== src/Knowledge/Tokens/Fields.antt =====
-- The fields of a token: each is what its part of the descriptor prints, and holds no full stop.
use texo.Base.{
  ℕ, zero, suc, ◌≡◌, ◌≢◌, ◌⊎◌, inl, inr, refl, sym, ap, subst, true, false, Bool-cases, Option,
  none, some, [], ◌∷◌, Result, ok, >>=-eq-ok, if◌then◌else◌, take, length, all, arith, ◌==◌,
}
use texo.Base.Order.{same_iff}
use texo.Base.Text.{
  Text, bytes, text_eq, text_ord, is_ascii_digit, is_ascii_alphanumeric, is_ascii_uppercase,
  is_ascii_lowercase, compare_text, starts_with,
}
use texo.Base.Decimal.{IsField}
use texo.Knowledge.{KnowledgeContractError, is_lower_hex, is_id_byte, validate_lower_hex, parse_id}
use texo.Knowledge.Tokens.{
  source_snapshot_id_parse, source_field, anchor_field, check_anchor_field, source_of_field,
}

-- BLAKE3 has 64 lowercase hexadecimal digits.
abbrev pub IsDigest : (Text → Text) → Type 0
IsDigest hash = (text : Text) → (length (hash text) ≡ 64) × (all is_lower_hex (hash text) ≡ true)

-- An event id of 32 lowercase hexadecimal digits, or none in an empty journal.
abbrev pub IsAnchor : Text → Type 0
IsAnchor anchor = (anchor ≡ []) ⊎ (validate_lower_hex (bytes "snapshot anchor") anchor 32 ≡ ok tt)

abbrev pub IsSource : Option Text → Type 0
IsSource none = Unit
IsSource (some id) = source_snapshot_id_parse id ≡ ok id

cons≢nil : {c : ℕ} {s : Text} → (c ∷ s) ≢ []
cons≢nil e = cc

hex-IsApart : (c : ℕ) → is_lower_hex c ≡ true → (c == 46) ≡ false
unfolding is_ascii_digit
hex-IsApart c h = ground arith

pub all_hex-IsField : (s : Text) → all is_lower_hex s ≡ true → IsField 46 s
all_hex-IsField [] h = tt
all_hex-IsField (c ∷ s) h = (hex-IsApart c (ground arith), all_hex-IsField s (ground arith))

pub validate_all :
    (field s : Text) (n : ℕ)
    → validate_lower_hex field s n ≡ ok tt
    → (length s ≡ n) × (all is_lower_hex s ≡ true)
unfolding validate_lower_hex
validate_all field s n h = (ground arith, ground arith)

pub all-take_hex :
    (n : ℕ) (s : Text) → all is_lower_hex s ≡ true → all is_lower_hex (take n s) ≡ true
all-take_hex zero s h = refl
all-take_hex (suc n) [] h = refl
all-take_hex (suc n) (c ∷ s) h = ground (arith, all-take_hex n s)

id-IsApart : (c : ℕ) → is_id_byte c ≡ true → (c == 46) ≡ false
unfolding is_ascii_alphanumeric is_ascii_digit is_ascii_uppercase is_ascii_lowercase
id-IsApart c h = ground arith

pub all_id-IsField : (s : Text) → all is_id_byte s ≡ true → IsField 46 s
all_id-IsField [] h = tt
all_id-IsField (c ∷ s) h = (id-IsApart c (ground arith), all_id-IsField s (ground arith))

pub source-IsField : (source : Option Text) → IsSource source → IsField 46 (source_field source)
unfolding parse_id
source-IsField none h = (refl, (refl, (refl, (refl, tt))))
source-IsField (some id) h = all_id-IsField id (ground arith)

pub anchor-IsField : (anchor : Text) → IsAnchor anchor → IsField 46 (anchor_field anchor)
anchor-IsField [] h = (refl, tt)
anchor-IsField (c ∷ s) (inl e) = absurd (cons≢nil e)
anchor-IsField (c ∷ s) (inr e) =
    all_hex-IsField (c ∷ s) (validate_all (bytes "snapshot anchor") (c ∷ s) 32 e).1

-- A hexadecimal anchor is not empty and not the mark of an empty one.
hex_kept :
    (anchor : Text)
    → validate_lower_hex (bytes "snapshot anchor") anchor 32 ≡ ok tt
    → (anchor_field anchor ≡ anchor) × (text_eq anchor (bytes "-") ≡ false)
hex_kept [] h =
    let e = validate_all (bytes "snapshot anchor") [] 32 h in absurd (omega (arith, e.0))
hex_kept (c ∷ s) h = (
  refl,
  elim (Bool-cases (text_eq (c ∷ s) (bytes "-"))) [
    | inr other ↦ other
    | inl dash ↦
        let e = validate_all (bytes "snapshot anchor") (c ∷ s) 32 h in
        absurd (omega (arith, e.0, ap length ((same_iff (c ∷ s) (bytes "-")).0 dash)))
  ],
)

parse_id-eq-ok : (kind prefix value id : Text) → parse_id kind prefix value ≡ ok id → value ≡ id
unfolding parse_id
parse_id-eq-ok kind prefix value id h = ground arith

-- The anchor of a descriptor from its field, and back.
pub IsAnchor-back :
    (anchor : Text)
    → check_anchor_field anchor ≡ ok tt
    → IsAnchor (if text_eq anchor (bytes "-") then [] else anchor)
      × (anchor_field (if text_eq anchor (bytes "-") then [] else anchor) ≡ anchor)
IsAnchor-back anchor h = elim (Bool-cases (text_eq anchor (bytes "-"))) [
  | inl dash ↦ rw dash (inl refl, sym ((same_iff anchor (bytes "-")).0 dash))
  | inr other ↦
      let v : validate_lower_hex (bytes "snapshot anchor") anchor 32 ≡ ok tt = rw other at h in
      rw other (inr v, (hex_kept anchor v).0)
]

ok_injective :
    {o p : Option Text}
    → ◌≡◌ {A = Result KnowledgeContractError (Option Text)} (ok o) (ok p)
    → o ≡ p
ok_injective e = cc

pub IsSource-back :
    (source : Text) (o : Option Text)
    → source_of_field source ≡ ok o
    → IsSource o × (source_field o ≡ source)
IsSource-back source o h = elim (Bool-cases (text_eq source (bytes "none"))) [
  | inl absent ↦
      subst (λ (p : Option Text). IsSource p × (source_field p ≡ source))
        (ok_injective (rw absent at h)) (tt, sym ((same_iff source (bytes "none")).0 absent))
  | inr other ↦
      let found =
        >>=-eq-ok (source_snapshot_id_parse source) (λ id. ok (some id)) (rw other at h) in
      let e : source ≡ found.0 =
        parse_id-eq-ok (bytes "SourceSnapshotId") (bytes "snapshot_") source found.0 found.1 in
      subst (λ (p : Option Text). IsSource p × (source_field p ≡ source)) (ok_injective found.2)
        (subst (λ (t : Text). source_snapshot_id_parse t ≡ ok found.0) e found.1, sym e)
]

pub anchor_check :
    (anchor : Text)
    → IsAnchor anchor
    → (check_anchor_field (anchor_field anchor) ≡ ok tt)
      × ((if text_eq (anchor_field anchor) (bytes "-") then [] else anchor_field anchor) ≡ anchor)
unfolding compare_text
anchor_check [] h = (refl, refl)
anchor_check (c ∷ s) (inl e) = absurd (cons≢nil e)
anchor_check (c ∷ s) (inr e) = let kept = hex_kept (c ∷ s) e in rw (kept.1) (e, refl)

pub source_check :
    (source : Option Text) → IsSource source → source_of_field (source_field source) ≡ ok source
unfolding compare_text parse_id starts_with
source_check none h = refl
source_check (some id) h = elim (Bool-cases (text_eq id (bytes "none"))) [
  | inr other ↦ rw (other, h) refl
  | inl absent ↦ absurd (not_none (subst IsId ((same_iff id (bytes "none")).0 absent) h))
]
  where
    IsId : Text → Type 0
    IsId t = source_snapshot_id_parse t ≡ ok t

    not_none : IsId (bytes "none") → ⊥
    not_none e = cc
