-- ===== src/Examples/Conflicts.antt =====
-- Two claims that contradict one another.
use texo.Base.{◌≡◌, refl, true, false, some, [], ◌∷◌, All, ok}
use texo.Base.Text.{
  Text, bytes, text_eq, starts_with, text_ord, is_ascii_alphanumeric, to_ascii_lowercase,
  compare_text,
}
use texo.Base.Space.{is_blank, split_whitespace, trim}
use texo.Base.Sort.{sort_by, by_key, IsSorted}
use texo.Events.Ids.{claim_id_try_from, conflict_id_from_pair}
use texo.Base.Pairs.{pair_ord}
use texo.Base.Map.{get, insert}
use texo.Claims.Card
use texo.Claims.Card.{ClaimCard}
use texo.Claims.Conflict
use texo.Claims.Conflict.{ConflictCard}
use texo.Claims.Status.{ClaimStatus}
use texo.Workspace.Types.{WorkspaceView, ClaimView, CachedCard, ProjectionFreshness}
use texo.Workspace.View.{view_of}
use texo.Workspace.View.Statuses.{status_among, view_statuses}
use texo.Words.{words, contains_replacement_signal}
use texo.Words.Case.{replacement_signal_ignores_case}
use texo.Relate.Signals.{has_contradiction_signal}
use texo.Relate.Detect.{conflict_entry, ConflictReport, ConflictEntry, detect_conflicts}
use mathlib.Core.List.{Memᴰ}
use texo.Relate.Complete.{Before, current_on, report_complete}
use texo.Relate.Report.{report_sound, IsAccounted}
use texo.Examples.Data.{demo}

replacement_signal_ignores_case_example :
    contains_replacement_signal (bytes "deploys moved to monday")
    ≡ contains_replacement_signal (bytes "Deploys MOVED to Monday")
unfolding to_ascii_lowercase
replacement_signal_ignores_case_example =
    replacement_signal_ignores_case (bytes "Deploys MOVED to Monday")

abbrev friday : ClaimCard
friday = record Card.default {
  phase = 1;
  claim_id = bytes "claim_a";
  text = bytes "deploys on friday";
  subject_hint = some (bytes "deploy-process");
  confidence_ppm = 900000;
}

abbrev monday : ClaimCard
monday = record Card.default {
  phase = 1;
  claim_id = bytes "claim_b";
  text = bytes "deploys now on monday";
  normalized_text = bytes "now monday";
  subject_hint = some (bytes "deploy-process");
}

abbrev open_conflict : ConflictCard
open_conflict = record Conflict.default {
  phase = 1;
  claim_a = bytes "claim_a";
  claim_b = bytes "claim_b";
}

view_statuses_example :
    let view = view_of demo 3 (
      CachedCard.claim friday ∷ CachedCard.claim monday ∷ CachedCard.conflict open_conflict ∷ []) in
    All (λ (v : ClaimView). v.status ≡ status_among view.conflicts v.card) view.claims
view_statuses_example =
    view_statuses demo 3
      (CachedCard.claim friday ∷ CachedCard.claim monday ∷ CachedCard.conflict open_conflict ∷ [])

abbrev both : WorkspaceView
both = record {
  workspace_id = demo;
  frontier = 3;
  freshness = ProjectionFreshness.fresh;
  claims =
      record { card = friday; status = ClaimStatus.current; supersedes = [] }
      ∷ record { card = monday; status = ClaimStatus.current; supersedes = [] }
      ∷ [];
  conflicts = [];
  sources = [];
}

abbrev same_hash : Text → Text
same_hash t = t

abbrev found : ConflictReport
found = record {
  workspace_id = demo;
  conflicts =
      record {
        conflict_id = bytes "conflict_claim_aclaim";
        claim_a = bytes "claim_a";
        claim_b = bytes "claim_b";
        subject_hint = bytes "deploy-process";
        reason =
            bytes
              "contradictory current claims on deploy-process: \"deploys on friday\" vs \"deploys now on monday\"";
        status = bytes "open";
      }
      ∷ [];
}

found_runs : detect_conflicts same_hash both ≡ ok found
unfolding detect_conflicts get insert compare_text is_ascii_alphanumeric is_blank
    has_contradiction_signal contains_replacement_signal split_whitespace trim words
    to_ascii_lowercase claim_id_try_from starts_with conflict_id_from_pair sort_by
found_runs = refl

report_sound_example :
    IsSorted (by_key (λ (e : ConflictEntry). e.conflict_id)) found.conflicts
    × All (IsAccounted same_hash both.claims) found.conflicts
report_sound_example = report_sound same_hash both found found_runs

friday_first : Before friday monday (current_on (bytes "deploy-process") both.claims)
unfolding compare_text
friday_first = Before.first refl (Memᴰ.head refl)

texts_differ : text_eq (ClaimCard.normalized_text friday) (ClaimCard.normalized_text monday) ≡ false
unfolding compare_text
texts_differ = refl

days_signal : has_contradiction_signal friday monday (bytes "deploy-process") ≡ true
unfolding has_contradiction_signal contains_replacement_signal split_whitespace trim words
    to_ascii_lowercase is_ascii_alphanumeric compare_text is_blank
days_signal = refl

report_complete_example :
    Memᴰ
      (conflict_entry same_hash
        (bytes "deploy-process")
        friday
        monday
        (bytes "claim_a")
        (bytes "claim_b"))
      found.conflicts
report_complete_example =
    report_complete same_hash both found found_runs (bytes "deploy-process") friday monday
      friday_first texts_differ days_signal
