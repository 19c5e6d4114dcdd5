-- ===== src/Workspace/Types.antt =====
-- src/claims/workspace.rs: the cache, its counters and the assembled view. `Arc` is left out: the
-- cards are values, which copy-on-write keeps them.
use texo.Base.{
  ℕ, zero, suc, ◌+◌, ◌-◌, ◌/◌, ◌%◌, ◌^◌, Bool, false, Option, none, some, List, [], ◌∷◌, ltb,
  if◌then◌else◌, saturating_add,
}
use texo.Base.Text.{Text, bytes, starts_with}
use texo.Base.Map.{BTreeMap}
use texo.Claims.Card.{ClaimCard}
use texo.Claims.Conflict.{ConflictCard}
use texo.Claims.Source.{SourceCard}
use texo.Claims.Status.{ClaimStatus}

pub data ProjectionFreshness : Type 0 where
  fresh stale rebuilding invalid : ProjectionFreshness

abbrev pub u64_max : ℕ
u64_max = 2 ^ 64 - 1

-- `saturating_add` of `u64` counters.
pub bump : ℕ → ℕ → ℕ
bump counter by = saturating_add u64_max counter by

pub record WorkspaceCacheCounters : Type 0 where
  pub assemble_calls : ℕ
  pub discovery_entries_paged : ℕ
  pub folded_events : ℕ
  pub project_calls : ℕ
  pub view_rebuilds : ℕ
  pub warm_view_hits : ℕ

pub data CachedCard : Type 0 where
  claim : ClaimCard → CachedCard
  conflict : ConflictCard → CachedCard
  source : SourceCard → CachedCard

pub record ClaimView : Type 0 where
  pub card : ClaimCard
  pub status : ClaimStatus
  pub supersedes : List Text

pub record WorkspaceView : Type 0 where
  pub workspace_id : Text
  pub frontier : ℕ
  pub freshness : ProjectionFreshness
  pub claims : List ClaimView
  pub conflicts : List ConflictCard
  pub sources : List SourceCard

-- A card stands with the generation of its entity.
pub record WorkspaceCache : Type 0 where
  pub cards : BTreeMap Text (ℕ × CachedCard)
  pub frontier : ℕ
  pub anchor_event_id_hex : Text
  pub view : Option WorkspaceView
  pub freshness : ProjectionFreshness
  pub project_misses : ℕ
  pub counters : WorkspaceCacheCounters
  pub dirty : Bool

-- `WorkspaceCache::default()`.
abbrev pub default : WorkspaceCache
default = record {
  cards = [];
  frontier = 0;
  anchor_event_id_hex = [];
  view = none;
  freshness = ProjectionFreshness.invalid;
  project_misses = 0;
  counters = record {
    assemble_calls = 0;
    discovery_entries_paged = 0;
    folded_events = 0;
    project_calls = 0;
    view_rebuilds = 0;
    warm_view_hits = 0;
  };
  dirty = false;
}

pub data CardFamily : Type 0 where
  claim conflict source : CardFamily

-- `CardFamily::of`.
unfoldable pub family_of : Text → Option CardFamily
family_of entity =
    if starts_with entity (bytes "claim:")
    then some CardFamily.claim
    else if starts_with entity (bytes "conflict:")
    then some CardFamily.conflict
    else if starts_with entity (bytes "source:")
    then some CardFamily.source
    else none

-- `format!("{:032x}", id)` of a 128-bit event id.
hex_digit : ℕ → ℕ
hex_digit d = if ltb d 10 then 48 + d else 87 + d

hex_from : ℕ → ℕ → Text → Text
unfolding hex_digit
hex_from zero n acc = acc
hex_from (suc k) n acc = hex_from k (n / 16) (hex_digit (n % 16) ∷ acc)

unfoldable pub hex32 : ℕ → Text
unfolding hex_from
hex32 n = hex_from 32 n []
