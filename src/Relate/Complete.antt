-- ===== src/Relate/Complete.antt =====
-- That `detect_conflicts` leaves nothing out.
use mathlib.Core.List.{Memᴰ}
use texo.Base.{
  ◌≡◌, refl, sym, ap, ap₂, ◌∙◌, subst, true, false, some, List, [], ◌∷◌, ◌++◌, append_assoc,
  append-nil, ◌&&◌, unwrap_or, ok, fold, arith, Bool-cases, Option-cases, inl, inr, ◌⊎◌, >>=-eq-ok,
  if◌then◌else◌, ◌==◌,
}
use mathlib.Core.Option.{some-injective}
use texo.Base.Order.{same_iff}
use texo.Base.Text.{Text, text_ord, text_eq}
use texo.Base.Map.{BTreeMap, get, get-insert}
use texo.Base.Sort.{sort_by, by_key, Mem-sort_by}
use texo.Claims.Card.{ClaimCard}
use texo.Workspace.Types.{ClaimView, WorkspaceView}
use texo.Relate.Signals.{has_contradiction_signal}
use texo.Relate.Detect.{
  ConflictEntry, ConflictReport, group_claim, by_subject, is_contradictory, conflict_entry,
  detect_pair, detect_with, detect_group, detect_groups, detect_conflicts,
}
use texo.Relate.Pair.{ok_lem, detect_pair_cases}

abbrev subject_of : ClaimCard → Text
subject_of card = unwrap_or card.subject_hint []

-- The current claims on a subject, in the order of the view.
abbrev pub current_on : Text → List ClaimView → List ClaimCard
current_on subject [] = []
current_on subject (v ∷ claims) =
    let rest = current_on subject claims in
    if v.card.phase == 1 && text_eq (subject_of v.card) subject then v.card ∷ rest else rest

-- `a` stands before `b`.
pub data Before (a b : ClaimCard) : List ClaimCard → Type 0 where
  first : {c : ClaimCard} {group : List ClaimCard} → a ≡ c → Memᴰ b group → Before a b (c ∷ group)
  later : {c : ClaimCard} {group : List ClaimCard} → Before a b group → Before a b (c ∷ group)

get-group_claim :
    (groups : BTreeMap Text (List ClaimCard)) (v : ClaimView) (claims : List ClaimView)
    (subject : Text)
    → unwrap_or (get (group_claim groups v) subject) [] ++ current_on subject claims
      ≡ unwrap_or (get groups subject) [] ++ current_on subject (v ∷ claims)
unfolding group_claim
get-group_claim groups v claims subject =
    let s = subject_of v.card in
    let old = unwrap_or (get groups s) [] in
    ground (
      arith,
      get-insert groups s subject (old ++ (v.card ∷ [])),
      same_iff s subject,
      append_assoc old (v.card ∷ []) (current_on subject claims),
    )

get-by_subject :
    (claims : List ClaimView) (groups : BTreeMap Text (List ClaimCard)) (subject : Text)
    → unwrap_or (get (fold group_claim groups claims) subject) []
      ≡ unwrap_or (get groups subject) [] ++ current_on subject claims
get-by_subject [] groups subject = sym (append-nil (unwrap_or (get groups subject) []))
get-by_subject (v ∷ claims) groups subject =
    get-by_subject claims (group_claim groups v) subject ∙ get-group_claim groups v claims subject

Mem-get :
    (groups : BTreeMap Text (List ClaimCard)) (subject : Text) (group : List ClaimCard)
    → get groups subject ≡ some group
    → Memᴰ (subject, group) groups
unfolding get
Mem-get [] subject group h = cc h
Mem-get ((s, g) ∷ groups) subject group h = elim (Bool-cases (text_eq s subject)) [
  | inl level ↦ Memᴰ.head (
      let key = (same_iff s subject).0 level in
      let held : g ≡ group = some-injective g group (ground arith) in
      ap₂ (λ k v. (k, v)) (sym key) (sym held))
  | inr other ↦ Memᴰ.tail (Mem-get groups subject group (ground arith))
]

not-Before : (a b : ClaimCard) (group : List ClaimCard) → [] ≡ group → ¬ Before a b group
not-Before a b group e h = elim (subst (Before a b) (sym e) h) [ ]

-- Two claims that stand on a subject stand in its group.
grouped :
    (claims : List ClaimView) (subject : Text) (a b : ClaimCard)
    → Before a b (current_on subject claims)
    → (group : List ClaimCard) × Memᴰ (subject, group) (by_subject claims) × Before a b group
unfolding by_subject get
grouped claims subject a b h =
    let same_group = get-by_subject claims [] subject in
    elim (Option-cases (get (fold group_claim [] claims) subject)) [
      | inl absent ↦ absurd (
          not-Before a b (current_on subject claims)
            (sym (ap (λ o. unwrap_or o []) absent) ∙ same_group) h)
      | inr (group, there) ↦ (
        group,
        Mem-get (fold group_claim [] claims) subject group there,
        subst (Before a b) (sym same_group ∙ ap (λ o. unwrap_or o []) there) h,
      )
    ]

Mem-append : {A : Type 0} (x : A) (xs ys : List A) → Memᴰ x xs ⊎ Memᴰ x ys → Memᴰ x (xs ++ ys)
Mem-append x [] ys (inl h) = elim h [ ]
Mem-append x [] ys (inr h) = h
Mem-append x (y ∷ xs) ys (inl (Memᴰ.head e)) = Memᴰ.head e
Mem-append x (y ∷ xs) ys (inl (Memᴰ.tail h)) = Memᴰ.tail (Mem-append x xs ys (inl h))
Mem-append x (y ∷ xs) ys (inr h) = Memᴰ.tail (Mem-append x xs ys (inr h))

abbrev Extends : List ConflictEntry → List ConflictEntry → Type 0
Extends xs ys = (e : ConflictEntry) → Memᴰ e xs → Memᴰ e ys

module _ (hash : Text → Text) where
  abbrev entry_of : Text → ClaimCard → ClaimCard → ConflictEntry
  entry_of subject a b = conflict_entry hash subject a b a.claim_id b.claim_id

  detect_pair-Extends :
      (subject : Text) (a b : ClaimCard) (conflicts out : List ConflictEntry)
      → detect_pair hash subject a b conflicts ≡ ok out
      → Extends conflicts out
        × (is_contradictory subject a b ≡ true → Memᴰ (entry_of subject a b) out)
  detect_pair-Extends subject a b conflicts out h =
      elim (detect_pair_cases hash subject a b conflicts out h) [
        | inl (off, none_new) ↦ (λ e m. subst (Memᴰ e) (sym none_new) m, λ on. cc (off, on))
        | inr (on, new) ↦ (
          λ e m.
              subst (Memᴰ e) (sym new) (Mem-append e conflicts (entry_of subject a b ∷ []) (inl m)),
          λ _. subst (Memᴰ (entry_of subject a b)) (sym new) (
              Mem-append (entry_of subject a b) conflicts (entry_of subject a b ∷ [])
                (inr (Memᴰ.head refl))),
        )
      ]

  detect_with-Extends :
      (subject : Text) (a : ClaimCard) (group : List ClaimCard) (conflicts out : List ConflictEntry)
      → detect_with hash subject a group conflicts ≡ ok out
      → Extends conflicts out
        × ((b : ClaimCard)
            → Memᴰ b group
            → is_contradictory subject a b ≡ true
            → Memᴰ (entry_of subject a b) out)
  unfolding detect_with
  detect_with-Extends subject a [] conflicts out h =
      (λ e m. subst (Memᴰ e) (ok_lem h) m, λ b m on. elim m [ ])
  detect_with-Extends subject a (c ∷ group) conflicts out h =
      let (mid, ran, rest) = >>=-eq-ok (detect_pair hash subject a c conflicts) _ h in
      let (keeps, has) = detect_pair-Extends subject a c conflicts mid ran in
      let (keeps', has') = detect_with-Extends subject a group mid out rest in
      (
        λ e m. keeps' e (keeps e m),
        λ b m on. elim m [
          | Memᴰ.head e ↦
              subst (λ x. Memᴰ (entry_of subject a x) out) (sym e)
                (keeps' (entry_of subject a c)
                  (has (subst (λ x. is_contradictory subject a x ≡ true) e on)))
          | Memᴰ.tail m' ↦ has' b m' on
        ],
      )

  detect_group-Extends :
      (subject : Text) (group : List ClaimCard) (conflicts out : List ConflictEntry)
      → detect_group hash subject group conflicts ≡ ok out
      → Extends conflicts out
        × ((a b : ClaimCard)
            → Before a b group
            → is_contradictory subject a b ≡ true
            → Memᴰ (entry_of subject a b) out)
  unfolding detect_group
  detect_group-Extends subject [] conflicts out h =
      (λ e m. subst (Memᴰ e) (ok_lem h) m, λ a b m on. elim m [ ])
  detect_group-Extends subject (c ∷ group) conflicts out h =
      let (mid, ran, rest) = >>=-eq-ok (detect_with hash subject c group conflicts) _ h in
      let (keeps, has) = detect_with-Extends subject c group conflicts mid ran in
      let (keeps', has') = detect_group-Extends subject group mid out rest in
      (
        λ e m. keeps' e (keeps e m),
        λ a b m on. elim m [
          | Before.first e m' ↦
              subst (λ x. Memᴰ (entry_of subject x b) out) (sym e)
                (keeps' (entry_of subject c b)
                  (has b m' (subst (λ x. is_contradictory subject x b ≡ true) e on)))
          | Before.later m' ↦ has' a b m' on
        ],
      )

  detect_groups-Extends :
      (groups : List (Text × List ClaimCard)) (conflicts out : List ConflictEntry)
      → detect_groups hash groups conflicts ≡ ok out
      → Extends conflicts out
        × ((subject : Text) (group : List ClaimCard) (a b : ClaimCard)
            → Memᴰ (subject, group) groups
            → Before a b group
            → is_contradictory subject a b ≡ true
            → Memᴰ (entry_of subject a b) out)
  unfolding detect_groups
  detect_groups-Extends [] conflicts out h =
      (λ e m. subst (Memᴰ e) (ok_lem h) m, λ s g a b m r on. elim m [ ])
  detect_groups-Extends ((s, g) ∷ groups) conflicts out h =
      let (mid, ran, rest) = >>=-eq-ok (detect_group hash s g conflicts) _ h in
      let (keeps, has) = detect_group-Extends s g conflicts mid ran in
      let (keeps', has') = detect_groups-Extends groups mid out rest in
      (
        λ e m. keeps' e (keeps e m),
        λ subject group a b m r on. elim m [
          | Memᴰ.head e ↦
              subst (λ (k : Text × List ClaimCard). Memᴰ (entry_of k.0 a b) out) (sym e)
                (keeps' (entry_of s a b) (
                  has a b (subst (λ (k : Text × List ClaimCard). Before a b k.1) e r)
                    (subst (λ (k : Text × List ClaimCard). is_contradictory k.0 a b ≡ true) e on)))
          | Memᴰ.tail m' ↦ has' subject group a b m' r on
        ],
      )

-- When detection succeeds, of any two current claims of the view on one subject whose normalized texts
-- differ and that signal a contradiction, the report has the entry, with the earlier one of the view
-- first.
pub report_complete :
    (hash : Text → Text) (view : WorkspaceView) (report : ConflictReport)
    → detect_conflicts hash view ≡ ok report
    → (subject : Text) (a b : ClaimCard) → Before a b (current_on subject view.claims)
    → text_eq a.normalized_text b.normalized_text ≡ false
    → has_contradiction_signal a b subject ≡ true
    → Memᴰ (conflict_entry hash subject a b a.claim_id b.claim_id) report.conflicts
unfolding detect_conflicts
report_complete hash view report h subject a b before apart signal =
    let on : is_contradictory subject a b ≡ true = rw (apart, signal) refl in
    let (found, ran, made) = >>=-eq-ok (detect_groups hash (by_subject view.claims) []) _ h in
    let (_, has) = detect_groups-Extends hash (by_subject view.claims) [] found ran in
    let sorted : sort_by (by_key (λ (e : ConflictEntry). e.conflict_id)) found ≡ report.conflicts =
      ground arith in
    let (group, there, standing) = grouped view.claims subject a b before in
    subst (Memᴰ (conflict_entry hash subject a b a.claim_id b.claim_id)) sorted (
      Mem-sort_by (by_key (λ (e : ConflictEntry). e.conflict_id))
        (conflict_entry hash subject a b a.claim_id b.claim_id) found
        (has subject group a b there standing on))
