-- ===== src/Relate/Report.antt =====
-- What `detect_conflicts` reports.
use mathlib.Core.List.{Memᴰ}
use texo.Base.{
  ◌≡◌, refl, sym, subst, true, List, [], ◌∷◌, ◌++◌, unwrap_or, ok, fold, All, All-append, arith,
  Bool-cases, inl, inr, >>=-eq-ok, ◌==◌, ==_iff,
}
use texo.Base.Order.{same_iff, Ordering-cases}
use texo.Base.Text.{Text, text_ord, text_eq}
use texo.Base.Map.{BTreeMap, get, insert}
use texo.Base.Sort.{sort_by, by_key, by_key-IsTotal, IsSorted, sort_by-IsSorted, All-sort_by}
use texo.Events.Ids.{conflict_id_from_pair}
use texo.Claims.Card.{ClaimCard}
use texo.Workspace.Types.{ClaimView, WorkspaceView}
use texo.Relate.Pair.{ok_lem, detect_pair_cases}
use texo.Relate.Detect.{
  ConflictEntry, ConflictReport, group_claim, by_subject, is_contradictory, detect_pair,
  detect_with, detect_group, detect_groups, detect_conflicts,
}

-- A current claim of the view, on a subject.
abbrev pub IsCurrent : List ClaimView → Text → ClaimCard → Type 0
IsCurrent claims subject card =
    (v : ClaimView) × Memᴰ v claims
    × (v.card ≡ card)
    × (card.phase ≡ 1)
    × (unwrap_or card.subject_hint [] ≡ subject)

abbrev Grouped : List ClaimView → List (Text × List ClaimCard) → Type 0
Grouped claims groups = All (λ (g : Text × List ClaimCard). All (IsCurrent claims g.0) g.1) groups

get-Grouped :
    (claims : List ClaimView) (groups : BTreeMap Text (List ClaimCard)) (subject : Text)
    → Grouped claims groups
    → All (IsCurrent claims subject) (unwrap_or (get groups subject) [])
unfolding get
get-Grouped claims [] subject h = tt
get-Grouped claims ((s, g) ∷ groups) subject h = elim (Bool-cases (text_eq s subject)) [
  | inl level ↦
      rw (level, get) (subst (λ t. All (IsCurrent claims t) g) ((same_iff s subject).0 level) h.0)
  | inr other ↦ rw (other, get) (get-Grouped claims groups subject h.1)
]

insert-Grouped :
    (claims : List ClaimView) (groups : BTreeMap Text (List ClaimCard)) (subject : Text)
    (group : List ClaimCard)
    → Grouped claims groups
    → All (IsCurrent claims subject) group
    → Grouped claims (insert groups subject group)
unfolding insert
insert-Grouped claims [] subject group h k = (k, tt)
insert-Grouped claims ((s, g) ∷ groups) subject group h k =
    elim (Ordering-cases (text_ord.cmp subject s)) [
      | inl e ↦ rw (e, insert) (k, h)
      | inr (inl e) ↦ rw (e, insert) (k, h.1)
      | inr (inr e) ↦ rw (e, insert) (h.0, insert-Grouped claims groups subject group h.1 k)
    ]

group_claim-Grouped :
    (claims : List ClaimView) (groups : BTreeMap Text (List ClaimCard)) (v : ClaimView)
    → Memᴰ v claims
    → Grouped claims groups
    → Grouped claims (group_claim groups v)
unfolding group_claim
group_claim-Grouped claims groups v m h = elim (Bool-cases (v.card.phase == 1)) [
  | inl on ↦
      (let subject = unwrap_or v.card.subject_hint [] in
        rw (on, group_claim)
          (insert-Grouped claims groups subject (unwrap_or (get groups subject) [] ++ (v.card ∷ []))
            h
            (All-append (IsCurrent claims subject) (unwrap_or (get groups subject) []) (v.card ∷ [])
              (get-Grouped claims groups subject h)
              ((v, m, refl, (==_iff v.card.phase 1).0 on, refl), tt))))
  | inr off ↦ rw (off, group_claim) h
]

fold-Grouped :
    (claims rest : List ClaimView) (groups : BTreeMap Text (List ClaimCard))
    → All (λ v. Memᴰ v claims) rest
    → Grouped claims groups
    → Grouped claims (fold group_claim groups rest)
fold-Grouped claims [] groups m h = h
fold-Grouped claims (v ∷ rest) groups m h =
    fold-Grouped claims rest (group_claim groups v) m.1 (group_claim-Grouped claims groups v m.0 h)

module _ (hash : Text → Text) (claims : List ClaimView) where
  -- An entry that two contradictory current claims on a subject account for.
  abbrev pub IsAccounted : ConflictEntry → Type 0
  IsAccounted e =
      (a : ClaimCard) × (b : ClaimCard) × IsCurrent claims e.subject_hint a
      × IsCurrent claims e.subject_hint b
      × (e.claim_a ≡ a.claim_id)
      × (e.claim_b ≡ b.claim_id)
      × (is_contradictory e.subject_hint a b ≡ true)
      × (e.conflict_id ≡ conflict_id_from_pair hash a.claim_id b.claim_id)

  detect_pair_lem :
      (subject : Text) (a b : ClaimCard) (conflicts out : List ConflictEntry)
      → IsCurrent claims subject a
      → IsCurrent claims subject b
      → detect_pair hash subject a b conflicts ≡ ok out
      → All IsAccounted conflicts
      → All IsAccounted out
  detect_pair_lem subject a b conflicts out ca cb h k =
      elim (detect_pair_cases hash subject a b conflicts out h) [
        | inl (_, none_new) ↦ subst (All IsAccounted) (sym none_new) k
        | inr (on, new) ↦
            subst (All IsAccounted) (sym new)
              (All-append IsAccounted conflicts _ k ((a, b, ca, cb, refl, refl, on, refl), tt))
      ]

  detect_with_lem :
      (subject : Text) (a : ClaimCard) (group : List ClaimCard) (conflicts out : List ConflictEntry)
      → IsCurrent claims subject a
      → All (IsCurrent claims subject) group
      → detect_with hash subject a group conflicts ≡ ok out
      → All IsAccounted conflicts
      → All IsAccounted out
  unfolding detect_with
  detect_with_lem subject a [] conflicts out ca cg h k = subst (All IsAccounted) (ok_lem h) k
  detect_with_lem subject a (b ∷ group) conflicts out ca cg h k =
      let (mid, first, rest) = >>=-eq-ok (detect_pair hash subject a b conflicts) _ h in
      detect_with_lem subject a group mid out ca cg.1 rest
        (detect_pair_lem subject a b conflicts mid ca cg.0 first k)

  detect_group_lem :
      (subject : Text) (group : List ClaimCard) (conflicts out : List ConflictEntry)
      → All (IsCurrent claims subject) group
      → detect_group hash subject group conflicts ≡ ok out
      → All IsAccounted conflicts
      → All IsAccounted out
  unfolding detect_group
  detect_group_lem subject [] conflicts out cg h k = subst (All IsAccounted) (ok_lem h) k
  detect_group_lem subject (a ∷ group) conflicts out cg h k =
      let (mid, first, rest) = >>=-eq-ok (detect_with hash subject a group conflicts) _ h in
      detect_group_lem subject group mid out cg.1 rest
        (detect_with_lem subject a group conflicts mid cg.0 cg.1 first k)

  detect_groups_lem :
      (groups : List (Text × List ClaimCard)) (conflicts out : List ConflictEntry)
      → Grouped claims groups
      → detect_groups hash groups conflicts ≡ ok out
      → All IsAccounted conflicts
      → All IsAccounted out
  unfolding detect_groups
  detect_groups_lem [] conflicts out cg h k = subst (All IsAccounted) (ok_lem h) k
  detect_groups_lem ((subject, group) ∷ groups) conflicts out cg h k =
      let (mid, first, rest) = >>=-eq-ok (detect_group hash subject group conflicts) _ h in
      detect_groups_lem groups mid out cg.1 rest
        (detect_group_lem subject group conflicts mid cg.0 first k)

members_tail :
    (claims rest : List ClaimView) (v : ClaimView)
    → All (λ u. Memᴰ u claims) rest
    → All (λ u. Memᴰ u (v ∷ claims)) rest
members_tail claims [] v h = tt
members_tail claims (u ∷ rest) v h = (Memᴰ.tail h.0, members_tail claims rest v h.1)

members : (claims : List ClaimView) → All (λ v. Memᴰ v claims) claims
members [] = tt
members (v ∷ claims) = (Memᴰ.head refl, members_tail claims claims v (members claims))

-- A report is sorted by the conflicts' identifiers, and each entry of it is accounted for: two
-- current claims of the view, both on the entry's subject, whose texts differ and which signal a
-- contradiction, in the order in which the entry names them.
pub report_sound :
    (hash : Text → Text) (view : WorkspaceView) (report : ConflictReport)
    → detect_conflicts hash view ≡ ok report
    → IsSorted (by_key (λ (e : ConflictEntry). e.conflict_id)) report.conflicts
      × All (IsAccounted hash view.claims) report.conflicts
unfolding detect_conflicts by_subject
report_sound hash view report h =
    let (found, ran, made) = >>=-eq-ok (detect_groups hash (by_subject view.claims) []) _ h in
    let entries =
      detect_groups_lem hash view.claims (by_subject view.claims) [] found
        (fold-Grouped view.claims view.claims [] (members view.claims) tt) ran tt in
    let sorted : sort_by (by_key (λ (e : ConflictEntry). e.conflict_id)) found ≡ report.conflicts =
      ground arith in
    (
      subst (IsSorted (by_key (λ (e : ConflictEntry). e.conflict_id))) sorted
          (sort_by-IsSorted (by_key-IsTotal (λ (e : ConflictEntry). e.conflict_id)) found),
      subst (All (IsAccounted hash view.claims)) sorted (
          All-sort_by (by_key (λ (e : ConflictEntry). e.conflict_id)) (IsAccounted hash view.claims)
            found entries),
    )
