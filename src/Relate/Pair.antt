-- ===== src/Relate/Pair.antt =====
-- What `detect_conflicts` makes of one pair of claims.
use texo.Base.{
  ◌≡◌, refl, sym, ◌∙◌, true, false, List, [], ◌∷◌, ◌++◌, Result, ok, err, arith, Bool-cases, inl,
  inr, ◌⊎◌,
}
use texo.Base.Text.{Text}
use texo.Events.Ids.{IdParseError, claim_id_try_from, expect_prefix}
use texo.Claims.Card.{ClaimCard}
use texo.Relate.Detect.{ConflictEntry, is_contradictory, conflict_entry, detect_pair}

pub ok_lem :
    {xs ys : List ConflictEntry}
    → ◌≡◌ {A = Result IdParseError (List ConflictEntry)} (ok xs) (ok ys)
    → xs ≡ ys
ok_lem h = ground arith

module _ (hash : Text → Text) where
  claim_id_cases :
      (value : Text)
      → (claim_id_try_from value ≡ ok value)
        ⊎ (e : IdParseError) × (claim_id_try_from value ≡ err e)
  unfolding claim_id_try_from expect_prefix
  claim_id_cases value = ground arith

  -- A pair adds one entry, or none.
  abbrev pub Adds : Text → ClaimCard → ClaimCard → List ConflictEntry → List ConflictEntry → Type 0
  Adds subject a b conflicts out =
      (is_contradictory subject a b ≡ false) × (out ≡ conflicts)
      ⊎ (is_contradictory subject a b ≡ true)
        × (out ≡ conflicts ++ (conflict_entry hash subject a b a.claim_id b.claim_id ∷ []))

  pub detect_pair_cases :
      (subject : Text) (a b : ClaimCard) (conflicts out : List ConflictEntry)
      → detect_pair hash subject a b conflicts ≡ ok out
      → Adds subject a b conflicts out
  unfolding detect_pair
  detect_pair_cases subject a b conflicts out h = elim (Bool-cases (is_contradictory subject a b)) [
    | inr off ↦ inl (off, sym (ok_lem (sym (rw (off, detect_pair) refl) ∙ h)))
    | inl on ↦ elim (claim_id_cases a.claim_id) [
      | inr (e, bad) ↦ ground arith
      | inl good_a ↦ elim (claim_id_cases b.claim_id) [
        | inr (e, bad) ↦ ground arith
        | inl good_b ↦ inr (on, ground arith)
      ]
    ]
  ]
