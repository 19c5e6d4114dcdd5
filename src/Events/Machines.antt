-- ===== src/Events/Machines.antt =====
-- src/events/machines.rs: the claim and conflict machines, and deterministic transition ids. The
-- typestate markers (`record_claim`, `supersede_claim`, …) only wrap a payload in BatPak's
-- `Transition`; the edges that they name are the pairs of `claim_edges` and `conflict_edges`.
use texo.Base.{ℕ, ◌≡◌, ◌∙◌, refl, List, [], ◌∷◌, ◌++◌, map, ◌/◌, ◌%◌, ◌^◌}
use texo.Base.Text.{Text, bytes, compare_text, text_ord}
use texo.Base.Sort.{sort_by, IsSorted, sort_by_of_sorted}
use texo.Base.Sort.Unique.{sort_by-eq_of_perm}
use texo.Events.Payloads.{TransitionCauseV1, TransitionRecordV1}
use mathlib.Core.List.{Perm}

abbrev pub claim_machine : Text
claim_machine = bytes "texo.claim.v2"

abbrev pub conflict_machine : Text
conflict_machine = bytes "texo.conflict.v2"

abbrev pub claim_edges : List (ℕ × ℕ)
claim_edges = (0, 1) ∷ (1, 2) ∷ []

abbrev pub conflict_edges : List (ℕ × ℕ)
conflict_edges = (0, 1) ∷ (1, 2) ∷ (1, 3) ∷ []

-- `u64::to_be_bytes`.
unfoldable pub to_be_bytes : ℕ → List ℕ
to_be_bytes n =
    (n / 2 ^ 56 % 256)
    ∷ (n / 2 ^ 48 % 256)
    ∷ (n / 2 ^ 40 % 256)
    ∷ (n / 2 ^ 32 % 256)
    ∷ (n / 2 ^ 24 % 256)
    ∷ (n / 2 ^ 16 % 256)
    ∷ (n / 2 ^ 8 % 256)
    ∷ (n % 256)
    ∷ []

-- The bytes that one hasher is fed in turn.
unfoldable pub concat : List Text → Text
concat [] = []
concat (k ∷ ks) = k ++ concat ks

abbrev cause_key : TransitionCauseV1 → Text
cause_key c = c.key

-- `hash` stands for BLAKE3's digest in hex, which is not part of the repository.
module _ (hash : Text → Text) where
  pub transition_id : Text → Text → ℕ → ℕ → List TransitionCauseV1 → ℕ → Text
  unfolding to_be_bytes concat
  transition_id machine entity previous_state next_state causes observed_at_ms =
      let cause_keys = sort_by compare_text (map cause_key causes) in
      hash (
        machine
        ++ (entity
            ++ (to_be_bytes previous_state
                ++ (to_be_bytes next_state ++ (concat cause_keys ++ to_be_bytes observed_at_ms)))))

  unfoldable pub transition_record :
      Text → Text → ℕ → ℕ → List TransitionCauseV1 → ℕ → TransitionRecordV1
  transition_record machine entity previous_state next_state causes observed_at_ms = record {
    schema_version = 1;
    machine = machine;
    previous_state = previous_state;
    next_state = next_state;
    transition_id_hex =
        transition_id machine entity previous_state next_state causes observed_at_ms;
    causes = causes;
  }

  -- Where `keys` are the keys of the causes in ascending order, as often each, the transition id is
  -- the hash of the machine, the entity, the two states as eight bytes each, these keys behind one
  -- another and the time as eight bytes: the order in which the causes are given does not matter.
  pub transition_id_lem :
      (machine entity : Text) (previous next : ℕ) (causes : List TransitionCauseV1)
      (keys : List Text) (observed_at_ms : ℕ)
      → IsSorted compare_text keys
      → Perm (map cause_key causes) keys
      → transition_id machine entity previous next causes observed_at_ms
        ≡ hash (
            machine
            ++ (entity
                ++ (to_be_bytes previous
                    ++ (to_be_bytes next ++ (concat keys ++ to_be_bytes observed_at_ms)))))
  unfolding transition_id
  transition_id_lem machine entity previous next causes keys observed_at_ms sorted p =
      rw (sort_by-eq_of_perm (hlevel) p ∙ sort_by_of_sorted compare_text keys sorted) refl
