-- ===== src/Semantics.antt =====
-- src/semantics/traits.rs, src/semantics/pipeline.rs, src/relate/settlement.rs: the types of the
-- semantic pipeline, which asks a model how claims relate and derives replacements and conflicts.
-- The model and the embedder are reached over the network, and are parameters of what calls them.
pub mod Cosine
pub mod Policy
pub mod Pairs
pub mod Acquire
pub mod Workers
pub mod Slots
pub mod Reduction
pub mod Outcome
pub mod Parallel
use texo.Base.{ℕ, Bool, List, [], ◌∷◌, Option, none, Result, if◌then◌else◌, unwrap_or, get_elem?}
use texo.Base.Text.{Text, is_empty}
use texo.Events.Settlement.{ClaimRelation, RelationFailureClass}
use texo.Scores.{F32}

pub record RelationVerdict : Type 0 where
  pub relation : ClaimRelation
  pub score : F32

pub data ClaimStatus : Type 0 where
  current superseded conflicting unknown : ClaimStatus

pub data ConflictStatus : Type 0 where
  open_conflict resolved : ConflictStatus

-- The local commit sequence of an append.
pub record ReceiptView : Type 0 where
  pub sequence : ℕ

pub record ClaimView : Type 0 where
  pub claim_id : Text
  pub workspace_id : Text
  pub source_id : Text
  pub source_path : Text
  pub line_start : ℕ
  pub line_end : ℕ
  pub text : Text
  pub normalized_text : Text
  pub subject_hint : Text
  pub predicate_hint : Text
  pub object_hint : Text
  pub confidence_ppm : ℕ
  pub extractor_kind : Text
  pub status : ClaimStatus
  pub receipt : ReceiptView
  pub supersedes : List Text
  pub superseded_by : Option Text

-- The claims of a pass, each under its identifier.
abbrev pub Claims : Type 0
Claims = List (Text × ClaimView)

abbrev pub embedding_text : ClaimView → Text
embedding_text view = if is_empty view.normalized_text then view.text else view.normalized_text

abbrev pub sequence_rank : ClaimView → ℕ
sequence_rank view = ReceiptView.sequence view.receipt

-- What an index past the claims would read, where Rust panics; every index of a pass is in range.
abbrev absent : Text × ClaimView
absent = (
  [],
  record {
    claim_id = [];
    workspace_id = [];
    source_id = [];
    source_path = [];
    line_start = 0;
    line_end = 0;
    text = [];
    normalized_text = [];
    subject_hint = [];
    predicate_hint = [];
    object_hint = [];
    confidence_ppm = 0;
    extractor_kind = [];
    status = ClaimStatus.unknown;
    receipt = record { sequence = 0 };
    supersedes = [];
    superseded_by = none;
  },
)

-- `claims[index]`.
unfoldable pub claim_at : Claims → ℕ → Text × ClaimView
claim_at claims index = unwrap_or (get_elem? claims index) absent

abbrev pub id_at : Claims → ℕ → Text
id_at claims index = (claim_at claims index).0

abbrev pub view_at : Claims → ℕ → ClaimView
view_at claims index = (claim_at claims index).1

-- Why a pair has no verdict, cleared of what the provider answered.
pub record PairFailureView : Type 0 where
  pub class : RelationFailureClass
  pub endpoint : Option Text
  pub status : Option ℕ
  pub attempts : ℕ

pub record UnresolvedPair : Type 0 where
  pub old_claim : Text
  pub new_claim : Text
  pub old_ref : Text
  pub new_ref : Text
  pub failure : PairFailureView

-- A decision that is withheld, since evidence on one of its claims is missing.
pub data HeldDecision : Type 0 where
  supersession : (old_claim new_claim reason : Text) → HeldDecision
  conflict : (conflict_id claim_a claim_b reason : Text) → HeldDecision

pub record ConflictEntry : Type 0 where
  pub conflict_id : Text
  pub claim_a : Text
  pub claim_b : Text
  pub subject_hint : Text
  pub reason : Text
  pub status : ConflictStatus

pub record PairJudgment : Type 0 where
  pub older_claim : Text
  pub newer_claim : Text
  pub verdict : RelationVerdict
  pub reused_authority : Bool

-- The replaced claim, its replacement and the reason.
abbrev pub SupersessionEdge : Type 0
SupersessionEdge = Text × Text × Text

-- A pair that passed the gates of its page, ordered from the older to the newer claim.
pub record PendingPair : Type 0 where
  pub old_idx : ℕ
  pub new_idx : ℕ
  pub older : Text
  pub newer : Text
  pub temporal_failure : Option RelationFailureClass
  pub cursor : ℕ

-- A verdict, and whether it was loaded from the journal; or why there is none.
pub data PairOutcome : Type 0 where
  judged : RelationVerdict → Bool → PairOutcome
  failed : PairFailureView → PairOutcome

-- The provider's failures, in `openrouter.rs`, and those of `SemanticsError`.
pub data ApiFailureKind : Type 0 where
  http_status transport deadline_exceeded bad_response_json : ApiFailureKind

pub record ApiFailure : Type 0 where
  pub endpoint : Text
  pub kind : ApiFailureKind
  pub status : Option ℕ
  pub attempts : ℕ
  pub provider_message : Option Text

pub data BackendError : Type 0 where
  http : (provider : Text) → ApiFailure → BackendError
  parse : (endpoint what : Text) → BackendError
  unexpected_response : (endpoint detail : Text) → BackendError
  truncated : (endpoint finish_reason : Text) → (max_tokens : ℕ) → BackendError

pub data SemanticsError : Type 0 where
  dimension_mismatch : (expected actual : ℕ) → SemanticsError
  result_count_mismatch : (expected actual : ℕ) → SemanticsError
  -- A failure of the provider, or one that is of another type.
  backend : Option BackendError → SemanticsError

abbrev pub Relater : Type 0
Relater = Text → Text → Result SemanticsError RelationVerdict

abbrev pub Embedder : Type 0
Embedder = List Text → Result SemanticsError (List (List F32))
