-- ===== src/Journal/Through/Loop.antt =====
-- What the loop up to a frontier does: it visits the entries at or below it, once and in order.
use mathlib.Core.Option
use texo.Base.{
  ℕ, zero, suc, ◌≡◌, ◌<◌, refl, sym, ap, ◌∙◌, subst, Option, none, List, [], ◌∷◌, ◌++◌, append-nil,
  take, drop, take-append-drop, last?, All, fold, fold-append, length, length-drop, arith, inl, inr,
  ◌⊎◌, All-take, All-drop, filter-append, leb,
}
use texo.Journal.{IndexEntry, IsSequenced, last_seq, behind}
use texo.Journal.Paging.{
  Flow, next, stop, page_limit, page_loop, next_page, IsSequenced-prefix, IsSequenced-suffix,
}
use texo.Journal.Through.{through, upto, upto_high, through_lem}

module _ {ℓ κ} {S : Type ℓ} {T : Type κ} (query : Option ℕ → List IndexEntry) (frontier : ℕ)
    (visit : S → IndexEntry → Flow S) (seen : S → T) (step : T → IndexEntry → T)
    (Good : IndexEntry → Type 0)
    (visits : (s : S) (e : IndexEntry)
      → Good e
      → (s' : S) × (visit s e ≡ next s') × (seen s' ≡ step (seen s) e))
    (log : List IndexEntry) (sequenced : IsSequenced 0 log)
    (pages : (after : Option ℕ) → query after ≡ take page_limit (behind after log)) where
  abbrev loop : ℕ → Option ℕ → S → Flow S
  loop fuel after s = page_loop query (through frontier visit) fuel after s

  -- It ends with or without meeting an entry past the frontier.
  abbrev pub Ends : Flow S → S → List IndexEntry → Type (ℓ ⊔ κ)
  Ends flow s suf =
      (s' : S) × ((flow ≡ next s') ⊎ (flow ≡ stop s'))
      × (seen s' ≡ fold step (seen s) (upto frontier suf))

  -- Behind a page that ended the loop nothing is left at or below the frontier.
  upto_stopped :
      (page rest : List IndexEntry) (n : ℕ)
      → IsSequenced n (page ++ rest)
      → frontier < last_seq n page
      → upto frontier (page ++ rest) ≡ upto frontier page
  upto_stopped page rest n h far =
      filter-append (λ e. leb e.global_sequence frontier) page rest
      ∙ ap (λ l. upto frontier page ++ l)
          (upto_high rest frontier (last_seq n page) (IsSequenced-suffix page rest n h)
            (omega arith))
      ∙ append-nil (upto frontier page)

  through_loop_lem :
      (fuel : ℕ) (pre suf : List IndexEntry) (after : Option ℕ) (s : S)
      → log ≡ pre ++ suf
      → query after ≡ take page_limit suf
      → length suf < fuel
      → All Good suf
      → Ends (loop fuel after s) s suf
  unfolding page_loop
  through_loop_lem zero pre suf after s split q h good = absurd (omega arith)
  through_loop_lem (suc fuel) pre [] after s split q h good =
      (s, inl (rw (q, page_loop) refl), refl)
  through_loop_lem (suc fuel) pre (e ∷ es) after s split q h good =
      let page = e ∷ take 255 es in
      let rest = drop 255 es in
      let n = last_seq 0 pre in
      let whole : page ++ rest ≡ e ∷ es = ap (λ l. e ∷ l) (take-append-drop 255 es) in
      let ordered : IsSequenced n (page ++ rest) =
        subst (IsSequenced n) (sym whole)
          (IsSequenced-suffix pre (e ∷ es) 0 (subst (IsSequenced 0) split sequenced)) in
      let (s', ends, seen') =
        through_lem frontier visit seen step Good visits page s n
          (IsSequenced-prefix page rest n ordered) (good.0, All-take Good 255 es good.1) in
      let (split', q') = next_page query log sequenced pages pre e es 255 split in
      let after' = Option.map (λ (l : IndexEntry). l.global_sequence) (last? page) in
      let later =
        through_loop_lem fuel (pre ++ page) rest after' s' split' q'
          (omega (arith, length-drop 255 es)) (All-drop Good 255 es good.1) in
      elim ends [
        | inl on ↦
            (let same : loop (suc fuel) after s ≡ loop fuel after' s' =
                rw (q, page_loop) (rw (on, page_loop) refl) in
              let (s'', fin, seen'') = later in
              (
                s'',
                elim fin [ inl a ↦ inl (same ∙ a) | inr b ↦ inr (same ∙ b) ],
                seen''
                    ∙ ap (λ t. fold step t (upto frontier rest)) seen'
                    ∙ sym (fold-append step (seen s) (upto frontier page) (upto frontier rest))
                    ∙ ap (fold step (seen s)) (
                        sym (filter-append (λ e. leb e.global_sequence frontier) page rest)
                        ∙ ap (upto frontier) whole),
              ))
        | inr (halt, far) ↦ (
          s',
          inr (rw (q, page_loop) (rw (halt, page_loop) refl)),
          seen'
              ∙ ap (fold step (seen s))
                  (sym (upto_stopped page rest n ordered far) ∙ ap (upto frontier) whole),
        )
      ]

  pub through_loop_visits :
      (fuel : ℕ) (s : S) → length log < fuel → All Good log → Ends (loop fuel none s) s log
  through_loop_visits fuel s h good = through_loop_lem fuel [] log none s refl (pages none) h good
