-- ===== src/Journal/Paging.antt =====
-- The page loop that the replays share, and that it visits every entry once and in order.
use texo.Base.{
  ℕ, zero, suc, ◌≡◌, ◌≤◌, ◌<◌, refl, sym, ap, ◌∙◌, subst, Option, none, some, List, [], ◌∷◌, ◌++◌,
  append_assoc, take, drop, take-append-drop, last?, All, fold, fold-append, length, length-drop,
  arith, All-take, All-drop, All-suffix, length-append,
}
use mathlib.Core.Option
use texo.Base.Text.{Text}
use texo.Journal.{IndexEntry, IsSequenced, last_seq, behind}

-- `const PAGE_LIMIT: usize = 256`.
abbrev pub page_limit : ℕ
page_limit = 256

-- How the body of a page loop ends: on to the next page, out of the loop, or an error out of the
-- function. The state is mutable, and stays behind an error.
pub data Flow {ℓ} (S : Type ℓ) : Type ℓ where
  next stop : S → Flow S
  fail : Text → S → Flow S

-- `loop { let page = query(after, PAGE_LIMIT); if page.is_empty() { break; } body;
-- after = page.last().map(global_sequence); }`
module _ {ℓ} {S : Type ℓ} (query : Option ℕ → List IndexEntry)
    (body : S → List IndexEntry → Flow S) where
  unfoldable pub page_loop : ℕ → Option ℕ → S → Flow S
  page_loop zero after s = fail [] s
  page_loop (suc fuel) after s = elim (query after) [
    | [] ↦ next s
    | e ∷ es ↦ elim (body s (e ∷ es)) [
      | next s' ↦ page_loop fuel (Option.map (λ l. l.global_sequence) (last? (e ∷ es))) s'
      | stop s' ↦ stop s'
      | fail what s' ↦ fail what s'
    ]
  ]

behind_low : (xs : List IndexEntry) (a n : ℕ) → IsSequenced n xs → a ≤ n → behind (some a) xs ≡ xs
behind_low [] a n h k = refl
behind_low (e ∷ es) a n h k =
    let rest = behind_low es a e.global_sequence h.1 (omega arith) in ground (arith, rest)

pub last_seq-le : (xs : List IndexEntry) (n : ℕ) → IsSequenced n xs → n ≤ last_seq n xs
last_seq-le [] n h = omega arith
last_seq-le (e ∷ es) n h = omega (arith, last_seq-le es e.global_sequence h.1)

pub last_seq-append :
    (xs ys : List IndexEntry) (n : ℕ) → last_seq n (xs ++ ys) ≡ last_seq (last_seq n xs) ys
last_seq-append [] ys n = refl
last_seq-append (x ∷ xs) ys n = last_seq-append xs ys x.global_sequence

pub IsSequenced-prefix :
    (xs ys : List IndexEntry) (n : ℕ) → IsSequenced n (xs ++ ys) → IsSequenced n xs
IsSequenced-prefix [] ys n h = tt
IsSequenced-prefix (x ∷ xs) ys n h = (h.0, IsSequenced-prefix xs ys x.global_sequence h.1)

pub IsSequenced-suffix :
    (xs ys : List IndexEntry) (n : ℕ) → IsSequenced n (xs ++ ys) → IsSequenced (last_seq n xs) ys
IsSequenced-suffix [] ys n h = h
IsSequenced-suffix (x ∷ xs) ys n h = IsSequenced-suffix xs ys x.global_sequence h.1

-- Behind the last entry of a prefix stands the rest.
pub behind-split :
    (pre suf : List IndexEntry) (n : ℕ)
    → IsSequenced n (pre ++ suf)
    → behind (some (last_seq n pre)) (pre ++ suf) ≡ suf
behind-split [] suf n h = behind_low suf n n h (omega arith)
behind-split (e ∷ es) suf n h =
    let rest = behind-split es suf e.global_sequence h.1 in
    let low = last_seq-le es e.global_sequence (IsSequenced-prefix es suf e.global_sequence h.1) in
    ground (arith, rest)

last?-last_seq :
    (e : IndexEntry) (es : List IndexEntry) (n : ℕ)
    → Option.map (λ (l : IndexEntry). l.global_sequence) (last? (e ∷ es))
      ≡ some (last_seq n (e ∷ es))
last?-last_seq e [] n = refl
last?-last_seq e (e' ∷ es) n = last?-last_seq e' es e.global_sequence

-- One page on: what is left of the log, and that the next query starts there.
module _ (query : Option ℕ → List IndexEntry) (log : List IndexEntry)
    (sequenced : IsSequenced 0 log)
    (pages : (after : Option ℕ) → query after ≡ take page_limit (behind after log)) where
  pub next_page :
      (pre : List IndexEntry) (e : IndexEntry) (es : List IndexEntry) (n : ℕ)
      → log ≡ pre ++ (e ∷ es)
      → let page = e ∷ take n es in
        log ≡ (pre ++ page) ++ drop n es
        × (query (Option.map (λ l. l.global_sequence) (last? page)) ≡ take page_limit (drop n es))
  next_page pre e es n split =
      let page = e ∷ take n es in
      let split' : log ≡ (pre ++ page) ++ drop n es =
        split
        ∙ ap (λ t. pre ++ (e ∷ t)) (sym (take-append-drop n es))
        ∙ sym (append_assoc pre page (drop n es)) in
      let after = Option.map (λ (l : IndexEntry). l.global_sequence) (last? page) in
      let at : after ≡ some (last_seq 0 (pre ++ page)) =
        last?-last_seq e (take n es) (last_seq 0 pre)
        ∙ ap some (sym (last_seq-append pre page 0)) in
      let rest : behind after log ≡ drop n es =
        ap (λ a. behind a log) at
        ∙ ap (behind (some (last_seq 0 (pre ++ page)))) split'
        ∙ behind-split (pre ++ page) (drop n es) 0 (subst (IsSequenced 0) split' sequenced) in
      (split', pages after ∙ ap (take page_limit) rest)

-- What a loop over the pages does, read through an abstraction of its state: if the body goes
-- through a page of good entries by `step`, the loop goes through the whole rest of the log by it.
module _ {ℓ κ} {S : Type ℓ} {T : Type κ} (query : Option ℕ → List IndexEntry)
    (body : S → List IndexEntry → Flow S) (seen : S → T) (step : T → IndexEntry → T)
    (Good : IndexEntry → Type 0)
    (body_steps : (s : S) (page : List IndexEntry)
      → All Good page
      → (s' : S) × (body s page ≡ next s') × (seen s' ≡ fold step (seen s) page))
    (log : List IndexEntry) (sequenced : IsSequenced 0 log)
    (pages : (after : Option ℕ) → query after ≡ take page_limit (behind after log)) where
  abbrev Runs : ℕ → Option ℕ → S → List IndexEntry → Type (ℓ ⊔ κ)
  Runs fuel after s suf =
      (s' : S) × (page_loop query body fuel after s ≡ next s') × (seen s' ≡ fold step (seen s) suf)

  page_loop_lem :
      (fuel : ℕ) (pre suf : List IndexEntry) (after : Option ℕ) (s : S)
      → log ≡ pre ++ suf
      → query after ≡ take page_limit suf
      → length suf < fuel
      → All Good suf
      → Runs fuel after s suf
  unfolding page_loop
  page_loop_lem zero pre suf after s split q h good = absurd (omega arith)
  page_loop_lem (suc fuel) pre [] after s split q h good = (s, rw (q, page_loop) refl, refl)
  page_loop_lem (suc fuel) pre (e ∷ es) after s split q h good =
      let page = e ∷ take 255 es in
      let (s', runs, seen') = body_steps s page (good.0, All-take Good 255 es good.1) in
      let (split', q') = next_page query log sequenced pages pre e es 255 split in
      let after' = Option.map (λ (l : IndexEntry). l.global_sequence) (last? page) in
      let (s'', ran, seen'') =
        page_loop_lem fuel (pre ++ page) (drop 255 es) after' s' split' q'
          (omega (arith, length-drop 255 es)) (All-drop Good 255 es good.1) in
      (
        s'',
        rw (q, page_loop) (rw (runs, page_loop) ran),
        seen''
            ∙ ap (λ t. fold step t (drop 255 es)) seen'
            ∙ sym (fold-append step (seen s) page (drop 255 es))
            ∙ ap (λ l. fold step (seen s) (e ∷ l)) (take-append-drop 255 es),
      )

  -- From the start of the log, with more fuel than it has entries.
  pub page_loop_visits :
      (fuel : ℕ) (s : S) → length log < fuel → All Good log → Runs fuel none s log
  page_loop_visits fuel s h good = page_loop_lem fuel [] log none s refl (pages none) h good

  -- From the last entry of a prefix of the log.
  pub page_loop_rest :
      (fuel : ℕ) (pre suf : List IndexEntry) (s : S)
      → log ≡ pre ++ suf
      → length log < fuel
      → All Good log
      → Runs fuel (some (last_seq 0 pre)) s suf
  page_loop_rest fuel pre suf s split h good =
      page_loop_lem fuel pre suf (some (last_seq 0 pre)) s split
        (pages (some (last_seq 0 pre))
          ∙ ap (take page_limit) (
              ap (behind (some (last_seq 0 pre))) split
              ∙ behind-split pre suf 0 (subst (IsSequenced 0) split sequenced)))
        (omega (arith, ap length split, length-append pre suf))
        (All-suffix Good pre suf (subst (All Good) split good))
