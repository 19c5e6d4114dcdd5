-- ===== src/Topology/Resolve.antt =====
-- src/topology.rs: `validate_all` and `resolve_journal`.
use texo.Base.{
  ℕ, suc, ◌≡◌, Bool, true, false, Option, none, some, List, [], ◌∷◌, Result, ok, err, not,
  unwrap_or, fail_if, ok_or, ◌>>=◌, ◌>>◌, length, All, ◌↔◌, refl, arith, ap, ◌∙◌, Bool-cases,
  Option-cases, >>=-eq-ok, subst, inl, inr,
}
use mathlib.Core.Option.{some-injective}
use texo.Base.Order.{same_iff}
use texo.Base.Text.{Text, text_eq, text_ord}
use texo.Base.Map.{BTreeMap, get, keys, contains_key}
use texo.Topology.{
  TopologyError, journal_id, JournalRole, JournalEntry, ResolvedJournal, is_canonical,
}
use texo.Topology.Chain.{follow, source_of, Chain, follow_fuel, follow-Chain, Chain-follow_fuel}
use texo.Topology.Entries.{validate_entries, validate_entries_lem, IsChecked}

-- `for id in journals.keys()`: `follow` from each. Its fuel is enough (Topology/Chain), so that a
-- start that is refused did meet a journal twice.
unfoldable pub validate_chains :
    BTreeMap Text JournalEntry → List Text → Result TopologyError (Unit {0})
validate_chains journals [] = ok tt
validate_chains journals (id ∷ ids) = elim (follow (suc (length journals)) journals [] id) [
  | some true ↦ validate_chains journals ids
  | some false ↦ err (TopologyError.replica_cycle id)
  | none ↦ err (TopologyError.replica_cycle id)
]

unfoldable pub validate_all :
    (Text → Bool) → BTreeMap Text JournalEntry → Result TopologyError (Unit {0})
unfolding validate_chains
validate_all private_addr [] = err TopologyError.empty
validate_all private_addr (j ∷ journals) = do
  validate_entries private_addr (j ∷ journals) [] (j ∷ journals)
  validate_chains (j ∷ journals) (keys (j ∷ journals))

-- The loop passes exactly if every journal has a chain of sources that ends.
pub validate_chains_iff :
    (journals : BTreeMap Text JournalEntry) (ids : List Text)
    → (validate_chains journals ids ≡ ok tt) ↔ All (λ id. (n : ℕ) × Chain journals id n) ids
unfolding validate_chains
validate_chains_iff journals [] = (λ h. tt, λ h. refl)
validate_chains_iff journals (id ∷ ids) =
    let (onto, back) = validate_chains_iff journals ids in
    (
      λ h.
          let (b, ran) = follow_fuel journals id in
          elim (Bool-cases b) [
            | inl passes ↦
                (let (n, c) =
                    follow-Chain (suc (length journals)) journals [] id (ran ∙ ap some passes) in
                  ((n, c), ground arith))
            | inr refused ↦ ground arith
          ],
      λ h. let passes = Chain-follow_fuel journals id h.0.0 h.0.1 in ground arith,
    )

-- `source_journal.as_deref().map(JournalId::new).transpose()`.
abbrev source_id : Option Text → Result TopologyError (Option Text)
source_id none = ok none
source_id (some declared) = do source ← journal_id declared; ok (some source)

unfoldable pub resolve_journal :
    (Text → Bool)
    → Text
    → BTreeMap Text JournalEntry
    → Option Text
    → Result TopologyError ResolvedJournal
unfolding validate_all
resolve_journal private_addr primary_journal journals selected = do
  primary ← journal_id primary_journal
  primary_entry ← ok_or (get journals primary) (TopologyError.missing_journal primary)
  fail_if (not (is_canonical primary_entry.role)) (TopologyError.primary_not_canonical primary)
  validate_all private_addr journals
  id ← journal_id (unwrap_or selected primary)
  entry ← ok_or (get journals id) (TopologyError.missing_journal id)
  source ← source_id entry.source_journal
  ok (record {
    id = id;
    role = entry.role;
    store_path = entry.store_path;
    source_journal = source;
    replica_mode = entry.replica_mode;
    source_endpoint = entry.source_endpoint;
    source_token_env = entry.source_token_env;
  })

-- Following sources from a journal comes to a declared canonical one.
pub data ReachesCanonical (journals : BTreeMap Text JournalEntry) : Text → Type 0 where
  here :
      {id : Text} {entry : JournalEntry}
      → get journals id ≡ some entry
      → entry.role ≡ JournalRole.canonical
      → ReachesCanonical journals id
  through :
      {id source : Text} {entry : JournalEntry}
      → get journals id ≡ some entry
      → entry.source_journal ≡ some source
      → ReachesCanonical journals source
      → ReachesCanonical journals id

get_checked :
    (P : JournalEntry → Type 0) (journals : BTreeMap Text JournalEntry) (id : Text)
    (entry : JournalEntry)
    → All (λ (j : Text × JournalEntry). P j.1) journals
    → get journals id ≡ some entry
    → P entry
unfolding get
get_checked P [] id entry h at = cc at
get_checked P ((i, e) ∷ journals) id entry h at = elim (Bool-cases (text_eq i id)) [
  | inl level ↦ subst P (some-injective e entry (ground arith)) h.0
  | inr other ↦ get_checked P journals id entry h.1 (ground arith)
]

key_of :
    (P : Text → Type 0) (journals : BTreeMap Text JournalEntry) (id : Text) (entry : JournalEntry)
    → All P (keys journals)
    → get journals id ≡ some entry
    → P id
unfolding get
key_of P [] id entry h at = cc at
key_of P ((i, e) ∷ journals) id entry h at = elim (Bool-cases (text_eq i id)) [
  | inl level ↦ subst P ((same_iff i id).0 level) h.0
  | inr other ↦ key_of P journals id entry h.1 (ground arith)
]

chain_reaches :
    (journals : BTreeMap Text JournalEntry) (id : Text) (n : ℕ) (entry : JournalEntry)
    → All (λ (j : Text × JournalEntry). IsChecked journals j.1) journals
    → Chain journals id n
    → get journals id ≡ some entry
    → ReachesCanonical journals id
unfolding source_of contains_key
chain_reaches journals id n entry h (Chain.ends e) at =
    elim (get_checked (IsChecked journals) journals id entry h at) [
      | inl (role, _) ↦ ReachesCanonical.here at role
      | inr (source, has, _) ↦ ground arith
    ]
chain_reaches journals id n entry h (Chain.via {source = s} {n = i} e c) at =
    elim (get_checked (IsChecked journals) journals id entry h at) [
      | inl (role, _) ↦ ReachesCanonical.here at role
      | inr (source, has, known) ↦ elim (Option-cases (get journals s)) [
        | inl absent ↦ ground arith
        | inr (next, at') ↦
            ReachesCanonical.through at (ground arith) (chain_reaches journals s i next h c at')
      ]
    ]

-- What `validate_all` lets pass.
validate_all_lem :
    (private_addr : Text → Bool) (journals : BTreeMap Text JournalEntry)
    → validate_all private_addr journals ≡ ok tt
    → All (λ (j : Text × JournalEntry). IsChecked journals j.1) journals
      × All (λ id. (n : ℕ) × Chain journals id n) (keys journals)
unfolding validate_all
validate_all_lem private_addr [] h = (tt, tt)
validate_all_lem private_addr (j ∷ journals) h =
    let (_, entries, chains) =
      >>=-eq-ok (validate_entries private_addr (j ∷ journals) [] (j ∷ journals)) _ h in
    (
      validate_entries_lem private_addr (j ∷ journals) [] (j ∷ journals) entries,
      (validate_chains_iff (j ∷ journals) (keys (j ∷ journals))).0 chains,
    )

-- The journal that is returned is the declared one.
abbrev IsDeclared : BTreeMap Text JournalEntry → ResolvedJournal → Type 0
IsDeclared journals r =
    (entry : JournalEntry) × (get journals r.id ≡ some entry)
    × (r.role ≡ entry.role)
    × (r.store_path ≡ entry.store_path)
    × (r.source_journal ≡ entry.source_journal)

source_id_lem : (declared s : Option Text) → source_id declared ≡ ok s → s ≡ declared
unfolding journal_id
source_id_lem none s h = ground arith
source_id_lem (some d) s h = ground arith

abbrev resolved : Text → JournalEntry → Option Text → ResolvedJournal
resolved id entry source = record {
  id = id;
  role = entry.role;
  store_path = entry.store_path;
  source_journal = source;
  replica_mode = entry.replica_mode;
  source_endpoint = entry.source_endpoint;
  source_token_env = entry.source_token_env;
}

ok_or_lem :
    (o : Option JournalEntry) (e : TopologyError) (a : JournalEntry) → ok_or o e ≡ ok a → o ≡ some a
ok_or_lem o e a h = ground arith

IsDeclared_lem :
    (journals : BTreeMap Text JournalEntry) (id : Text) (entry : JournalEntry)
    (source : Option Text) (r : ResolvedJournal)
    → get journals id ≡ some entry
    → source ≡ entry.source_journal
    → resolved id entry source ≡ r
    → IsDeclared journals r
IsDeclared_lem journals id entry source r at same_source e =
    subst (IsDeclared journals) e (entry, at, refl, refl, same_source)

-- When a journal is resolved, it is declared with the role, the store path and the source with which
-- it is returned, and from it as from every declared
-- journal the sources lead, in finitely many steps, to a declared canonical journal.
pub resolve_reaches_canonical :
    (private_addr : Text → Bool) (primary : Text) (journals : BTreeMap Text JournalEntry)
    (selected : Option Text) (r : ResolvedJournal)
    → resolve_journal private_addr primary journals selected ≡ ok r
    → IsDeclared journals r
      × ((id : Text) (entry : JournalEntry)
          → get journals id ≡ some entry
          → ReachesCanonical journals id)
unfolding resolve_journal journal_id
resolve_reaches_canonical private_addr primary journals selected r h =
    let (p, _, h1) = >>=-eq-ok (journal_id primary) _ h in
    let (pe, _, h2) = >>=-eq-ok (ok_or (get journals p) (TopologyError.missing_journal p)) _ h1 in
    let (_, _, h3) =
      >>=-eq-ok (fail_if (not (is_canonical pe.role)) (TopologyError.primary_not_canonical p)) _
        h2 in
    let (_, valid, h4) = >>=-eq-ok (validate_all private_addr journals) _ h3 in
    let (checked, chained) = validate_all_lem private_addr journals valid in
    let (i, _, h5) = >>=-eq-ok (journal_id (unwrap_or selected p)) _ h4 in
    let (e, found, h6) =
      >>=-eq-ok (ok_or (get journals i) (TopologyError.missing_journal i)) _ h5 in
    let (s, source, made) = >>=-eq-ok (source_id e.source_journal) _ h6 in
    (
      IsDeclared_lem journals i e s r (ok_or_lem _ _ e found) (source_id_lem _ s source)
          (ground arith),
      λ id entry at.
          let (n, c) = key_of (λ id. (n : ℕ) × Chain journals id n) journals id entry chained at in
          chain_reaches journals id n entry checked c at,
    )
