-- ===== src/Semantics/Pairs/Paging.antt =====
-- Pages of candidates from successive cursors, against one look at every pair of claims.
use texo.Base.{
  ℕ, zero, suc, ◌+◌, ◌-◌, ◌*◌, ◌≤◌, ◌<◌, ◌≡◌, refl, sym, ap, ap₂, ◌∙◌, false, Option, none, some,
  List, [], ◌∷◌, ◌++◌, append_assoc, Result, ok, err, ltb, Bool-cases, length, map, take, drop,
  take-append-drop, length-take, length-drop, drop-drop, take_all, arith, inl, inr, min,
  if◌then◌else◌,
}
use mathlib.Core.Option
use texo.Base.Text.{Text}
use texo.Scores.{F32}
use texo.Workspace.Types.{u64_max}
use texo.Semantics.{Claims, ClaimView, PendingPair, SemanticsError, Embedder, embedding_text}
use texo.Semantics.Cosine.{Floats}
use texo.Semantics.Policy.{RelateTemporalPolicy}
use texo.Semantics.Pairs.{
  Position, Settled, PreparedPairs, examine, page_pairs, page_of, prepare_pairs, next_pair,
  seek_pair, pair_count, indices_from,
}
use texo.Semantics.Pairs.Space.{
  all_pairs, cluster_of, remaining, InRange, next-remaining, seek-remaining, pair_count_lem,
  pair_count-le, member-indices, length-indices,
}

module _ (f : Floats) (claims : Claims) (settled : Settled) (temporal : RelateTemporalPolicy)
    (embeddings : List (List F32)) (floor : F32) where
  -- Every pair of a list is examined in order, under its number.
  abbrev pub candidates : ℕ → List (ℕ × ℕ) → List PendingPair
  candidates ordinal [] = []
  candidates ordinal ((i, j) ∷ ps) =
      examine f claims settled temporal embeddings floor ordinal i j ++ candidates (ordinal + 1) ps

  candidates-append :
      (ordinal : ℕ) (ps qs : List (ℕ × ℕ))
      → candidates ordinal (ps ++ qs) ≡ candidates ordinal ps ++ candidates (ordinal + length ps) qs
  candidates-append ordinal [] qs = ap (λ (o : ℕ). candidates o qs) (omega arith)
  candidates-append ordinal ((i, j) ∷ ps) qs =
      let here = examine f claims settled temporal embeddings floor ordinal i j in
      ap (λ (rest : List PendingPair). here ++ rest)
        (candidates-append (ordinal + 1) ps qs
          ∙ ap (λ (o : ℕ). candidates (ordinal + 1) ps ++ candidates o qs) (omega arith))
      ∙ sym (
          append_assoc here (candidates (ordinal + 1) ps)
            (candidates (ordinal + suc (length ps)) qs))

  page_pairs_lem :
      (n rounds ordinal : ℕ) (position : Option Position)
      → InRange n position
      → page_pairs f claims settled temporal embeddings floor (cluster_of n) rounds ordinal position
        ≡ candidates ordinal (take rounds (remaining n position))
  unfolding page_pairs
  page_pairs_lem n zero ordinal position r = refl
  page_pairs_lem n (suc rounds) ordinal none r = refl
  page_pairs_lem n (suc rounds) ordinal (some (c, left, right)) r =
      let step = next-remaining n left right r.1 r.2 in
      rw (r.0, step.0, member-indices n left (omega arith), member-indices n right r.2)
        (ap
          (λ (ps : List PendingPair).
            examine f claims settled temporal embeddings floor ordinal left right ++ ps)
          (page_pairs_lem n rounds (ordinal + 1) (next_pair (cluster_of n) 0 left right) step.1))

  module _ (many : 2 ≤ length claims) (fits : length claims * (length claims - 1) ≤ u64_max) where
    abbrev total : ℕ
    total = length (all_pairs (length claims))

    abbrev page : ℕ → ℕ → PreparedPairs
    page budget cursor = page_of f claims settled temporal embeddings floor budget cursor

    -- Where a page ends.
    abbrev end_of : ℕ → ℕ → ℕ
    end_of budget cursor = min (cursor + budget) total

    page_lem :
        (budget cursor : ℕ)
        → cursor ≤ total
        → (PreparedPairs.pending (page budget cursor)
            ≡ candidates cursor
                (take (end_of budget cursor - cursor) (drop cursor (all_pairs (length claims)))))
          × (PreparedPairs.next_cursor (page budget cursor)
              ≡ (if ltb (end_of budget cursor) total then some (end_of budget cursor) else none))
    unfolding page_of
    page_lem budget cursor h =
        rw
          (
            counted,
            clamped cursor h,
            ends budget cursor h,
            page_pairs_lem (length claims) (end_of budget cursor - cursor) cursor
                (seek_pair (cluster_of (length claims)) cursor)
                (seek-remaining (length claims) cursor many fits).1,
            (seek-remaining (length claims) cursor many fits).0,
          )
          (refl, refl)
      where
        counted : pair_count (length (indices_from (length claims) 0)) + 0 ≡ total
        counted =
            rw (length-indices (length claims) 0, pair_count_lem (length claims) fits) (omega arith)

        clamped : (cursor : ℕ) → cursor ≤ total → min cursor total ≡ cursor
        clamped cursor h = omega arith

        ends :
            (budget cursor : ℕ)
            → cursor ≤ total
            → min (min u64_max (cursor + budget)) total ≡ end_of budget cursor
        ends budget cursor h =
            omega (arith, pair_count_lem (length claims) fits, pair_count-le (length claims))

    -- A page and what its end leaves are what its start had left.
    pub parts :
        (cursor end : ℕ)
        → cursor ≤ end
        → end ≤ total
        → candidates cursor (take (end - cursor) (drop cursor (all_pairs (length claims))))
            ++ candidates end (drop end (all_pairs (length claims)))
          ≡ candidates cursor (drop cursor (all_pairs (length claims)))
    parts cursor end h k =
        let rest = drop cursor (all_pairs (length claims)) in
        ap₂
          (λ (o : ℕ) (qs : List (ℕ × ℕ)).
            candidates cursor (take (end - cursor) rest) ++ candidates o qs)
          (omega (
            arith,
            length-take (end - cursor) rest,
            length-drop cursor (all_pairs (length claims)),
          ))
          (ap (λ (d : ℕ). drop d (all_pairs (length claims))) (omega arith)
            ∙ sym (drop-drop (end - cursor) cursor (all_pairs (length claims))))
        ∙ sym (candidates-append cursor (take (end - cursor) rest) (drop (end - cursor) rest))
        ∙ ap (λ (ps : List (ℕ × ℕ)). candidates cursor ps) (take-append-drop (end - cursor) rest)

abbrev after_cursor :
    List PendingPair → Option ℕ → (ℕ → Option (List PendingPair)) → Option (List PendingPair)
after_cursor pending none go = some pending
after_cursor pending (some next) go = Option.map (λ rest. pending ++ rest) (go next)

abbrev after_page :
    Result SemanticsError (Option PreparedPairs)
    → (ℕ → Option (List PendingPair))
    → Option (List PendingPair)
after_page (err what) go = none
after_page (ok none) go = some []
after_page (ok (some page)) go =
    after_cursor (PreparedPairs.pending page) (PreparedPairs.next_cursor page) go

-- The loop of a caller: page after page, each from the cursor that the page before returned, with
-- the candidates of all of them; `none` when the fuel runs out or the embedder fails.
abbrev pub all_pages :
    Floats
    → Claims
    → Settled
    → RelateTemporalPolicy
    → Embedder
    → F32
    → ℕ
    → ℕ
    → ℕ
    → Option (List PendingPair)
all_pages f claims settled temporal embed_batch floor budget zero cursor = none
all_pages f claims settled temporal embed_batch floor budget (suc fuel) cursor =
    after_page (prepare_pairs f claims settled temporal embed_batch floor budget cursor)
      (λ next. all_pages f claims settled temporal embed_batch floor budget fuel next)

module _ (f : Floats) (claims : Claims) (settled : Settled) (temporal : RelateTemporalPolicy)
    (embed_batch : Embedder) (embeddings : List (List F32)) (floor : F32) where
  prepare_pairs_lem :
      (budget cursor : ℕ)
      → 2 ≤ length claims
      → embed_batch (map (λ (c : Text × ClaimView). embedding_text c.1) claims) ≡ ok embeddings
      → prepare_pairs f claims settled temporal embed_batch floor budget cursor
        ≡ ok (some (page_of f claims settled temporal embeddings floor budget cursor))
  unfolding prepare_pairs
  prepare_pairs_lem budget cursor many e =
      let enough : ltb (length claims) 2 ≡ false = ground arith in rw (enough, e)

  pages_from :
      (budget fuel cursor : ℕ)
      → 2 ≤ length claims
      → length claims * (length claims - 1) ≤ u64_max
      → embed_batch (map (λ (c : Text × ClaimView). embedding_text c.1) claims) ≡ ok embeddings
      → 0 < budget
      → cursor ≤ length (all_pairs (length claims))
      → length (all_pairs (length claims)) - cursor < fuel
      → all_pages f claims settled temporal embed_batch floor budget fuel cursor
        ≡ some (
            candidates f claims settled temporal embeddings floor cursor
              (drop cursor (all_pairs (length claims))))
  pages_from budget zero cursor many fits e pos c h = absurd (omega arith)
  pages_from budget (suc fuel) cursor many fits e pos c h =
      let all : ℕ = length (all_pairs (length claims)) in
      let end : ℕ = min (cursor + budget) all in
      let first = page_lem f claims settled temporal embeddings floor many fits budget cursor c in
      elim (Bool-cases (ltb end all)) [
        | inl more ↦
            rw
              (
                prepare_pairs_lem budget cursor many e,
                first.1,
                more,
                first.0,
                pages_from budget fuel end many fits e pos (omega arith) (ground arith),
              )
              (ap some (
                parts f claims settled temporal embeddings floor many fits cursor end (omega arith)
                  (omega arith)))
        | inr last ↦
            rw (prepare_pairs_lem budget cursor many e, first.1, last, first.0)
              (ap
                (λ (ps : List (ℕ × ℕ)).
                  some (candidates f claims settled temporal embeddings floor cursor ps))
                (take_all (end - cursor) (drop cursor (all_pairs (length claims)))
                  (ground (arith, length-drop cursor (all_pairs (length claims))))))
      ]

  -- For at least two claims whose pairs can be counted in 64 bits, an embedder that answers, and a
  -- budget of at least one pair to a page: following the cursors from the first page ends after at
  -- most as many pages as there are pairs and one, and the candidates of the pages are, in order,
  -- those of one look at every pair of claims once; no pair is lost or looked at twice.
  pub pages_cover :
      (budget fuel : ℕ)
      → 2 ≤ length claims
      → length claims * (length claims - 1) ≤ u64_max
      → embed_batch (map (λ (c : Text × ClaimView). embedding_text c.1) claims) ≡ ok embeddings
      → 0 < budget
      → length (all_pairs (length claims)) < fuel
      → all_pages f claims settled temporal embed_batch floor budget fuel 0
        ≡ some (candidates f claims settled temporal embeddings floor 0 (all_pairs (length claims)))
  pages_cover budget fuel many fits e pos h =
      pages_from budget fuel 0 many fits e pos (omega arith) (omega arith)
