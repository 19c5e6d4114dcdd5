-- ===== src/Claims/Settlement.antt =====
-- src/claims/settlement.rs: the settlement history of one logical relation pair.
use texo.Base.{
  ℕ, ◌≡◌, refl, ◌∙◌, sym, Option, none, some, List, [], ◌∷◌, ◌++◌, fold, head?, arith, append_assoc,
  append-nil, is_some, if◌then◌else◌,
}
use texo.Base.Text.{Text}
use texo.Events.Settlement.{SettledRelation, RelationFailureClass}
use texo.Events.Payloads.{RelationJudgedV1, RelationDeferredV1}

pub record JudgmentRecord : Type 0 where
  pub relation : SettledRelation
  pub score_ppm : ℕ
  pub judge_fingerprint : Text
  pub cache_key_hex : Text
  pub observed_at_ms : ℕ

pub record DeferralRecord : Type 0 where
  pub failure_class : RelationFailureClass
  pub attempts : ℕ
  pub observed_at_ms : ℕ

pub record SettlementCard : Type 0 where
  pub workspace_id : Text
  pub older_claim : Text
  pub newer_claim : Text
  pub authoritative : Option JudgmentRecord
  pub later_judgments : List JudgmentRecord
  pub deferrals : List DeferralRecord

-- `SettlementCard::default()`.
abbrev pub default : SettlementCard
default = record {
  workspace_id = [];
  older_claim = [];
  newer_claim = [];
  authoritative = none;
  later_judgments = [];
  deferrals = [];
}

abbrev pub judgment : RelationJudgedV1 → JudgmentRecord
judgment event = record {
  relation = event.relation;
  score_ppm = event.score_ppm;
  judge_fingerprint = event.judge_fingerprint;
  cache_key_hex = event.cache_key_hex;
  observed_at_ms = event.observed_at_ms;
}

abbrev pub deferral : RelationDeferredV1 → DeferralRecord
deferral event = record {
  failure_class = event.failure_class;
  attempts = event.attempts;
  observed_at_ms = event.observed_at_ms;
}

on_judged : SettlementCard → RelationJudgedV1 → SettlementCard
on_judged self event =
    let self = record self {
      workspace_id = event.workspace_id;
      older_claim = event.older_claim;
      newer_claim = event.newer_claim;
    } in
    if is_some self.authoritative
    then record self { later_judgments = self.later_judgments ++ judgment event ∷ [] }
    else record self { authoritative = some (judgment event) }

on_deferred : SettlementCard → RelationDeferredV1 → SettlementCard
on_deferred self event = record self {
  workspace_id = event.workspace_id;
  older_claim = event.older_claim;
  newer_claim = event.newer_claim;
  deferrals = self.deferrals ++ deferral event ∷ [];
}

-- The two event kinds of the projection.
pub data SettlementEvent : Type 0 where
  judged : RelationJudgedV1 → SettlementEvent
  deferred : RelationDeferredV1 → SettlementEvent

unfoldable pub apply_event : SettlementCard → SettlementEvent → SettlementCard
unfolding on_judged on_deferred
apply_event self (judged event) = on_judged self event
apply_event self (deferred event) = on_deferred self event

abbrev pub judgments : List SettlementEvent → List JudgmentRecord
judgments [] = []
judgments (judged e ∷ es) = judgment e ∷ judgments es
judgments (deferred e ∷ es) = judgments es

abbrev pub deferrals : List SettlementEvent → List DeferralRecord
deferrals [] = []
deferrals (judged e ∷ es) = deferrals es
deferrals (deferred e ∷ es) = deferral e ∷ deferrals es

abbrev tail : List JudgmentRecord → List JudgmentRecord
tail [] = []
tail (j ∷ js) = js

settled_with :
    (es : List SettlementEvent) (card : SettlementCard) (j : JudgmentRecord)
    → card.authoritative ≡ some j
    → ((fold apply_event card es).authoritative ≡ some j)
      × ((fold apply_event card es).later_judgments ≡ card.later_judgments ++ judgments es)
unfolding apply_event
settled_with [] card j h = (h, sym (append-nil card.later_judgments))
settled_with (judged e ∷ es) card j h =
    let (first, rest) = settled_with es (on_judged card e) j (ground arith) in
    (
      first,
      rest ∙ ground (arith, append_assoc card.later_judgments (judgment e ∷ []) (judgments es)),
    )
settled_with (deferred e ∷ es) card j h = settled_with es (on_deferred card e) j h

deferred_with :
    (es : List SettlementEvent) (card : SettlementCard)
    → (fold apply_event card es).deferrals ≡ card.deferrals ++ deferrals es
unfolding apply_event
deferred_with [] card = sym (append-nil card.deferrals)
deferred_with (judged e ∷ es) card = deferred_with es (on_judged card e) ∙ ground arith
deferred_with (deferred e ∷ es) card =
    deferred_with es (on_deferred card e)
    ∙ append_assoc card.deferrals (deferral e ∷ []) (deferrals es)

settled_from :
    (es : List SettlementEvent) (card : SettlementCard)
    → card.authoritative ≡ none
    → card.later_judgments ≡ []
    → ((fold apply_event card es).authoritative ≡ head? (judgments es))
      × ((fold apply_event card es).later_judgments ≡ tail (judgments es))
unfolding apply_event
settled_from [] card h k = (h, k)
settled_from (judged e ∷ es) card h k =
    let (first, rest) = settled_with es (on_judged card e) (judgment e) (ground arith) in
    (first, rest ∙ ground arith)
settled_from (deferred e ∷ es) card h k = settled_from es (on_deferred card e) h k

-- After any sequence of judgments and deferrals the first judgment of the journal is the
-- authority, the others follow it in their order, and every deferral is kept in order.
pub first_judgment_rules :
    (es : List SettlementEvent)
    → ((fold apply_event default es).authoritative ≡ head? (judgments es))
      × ((fold apply_event default es).later_judgments ≡ tail (judgments es))
      × ((fold apply_event default es).deferrals ≡ deferrals es)
first_judgment_rules es =
    let (first, rest) = settled_from es default refl refl in (first, rest, deferred_with es default)
