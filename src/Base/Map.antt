-- ===== src/Base/Map.antt =====
-- Rust's `BTreeMap`: an association list kept in the order of its keys.
use Prim.Native.Nat.{Ordering}
use mathlib.Core.Path.{◌≡◌, refl, sym, ap, ◌∙◌, subst}
use mathlib.Core.Logic.{inl, inr}
use mathlib.Core.Bool.{Bool, true, false}
use mathlib.Core.Option
use mathlib.Core.Option.{Option, none, some}
use mathlib.Core.List.{List, [], ◌∷◌}
use native.Mathlib.Omega.{arith}
use texo.Base.Order.{Ord, reverse, same, same_refl, Ordering-cases}
use texo.Base.Tests.{if◌then◌else◌, is_some}

abbrev pub BTreeMap {ℓ κ} : Type ℓ → Type κ → Type (ℓ ⊔ κ)
BTreeMap K V = List (K × V)

-- Rust's `BTreeSet`; a `HashSet` too, where only membership is asked.
abbrev pub BTreeSet {ℓ} : Type ℓ → Type ℓ
BTreeSet K = BTreeMap K (Unit {0})

module _ {ℓ κ} {K : Type ℓ} {V : Type κ} ⦃o : Ord K⦄ where
  unfoldable pub get : BTreeMap K V → K → Option V
  get [] k = none
  get ((j, v) ∷ m) k = if same j k then some v else get m k

  unfoldable pub insert : BTreeMap K V → K → V → BTreeMap K V
  insert [] k v = (k, v) ∷ []
  insert ((j, w) ∷ m) k v = elim (o.cmp k j) [
    | Ordering.lt ↦ (k, v) ∷ (j, w) ∷ m
    | Ordering.eq ↦ (k, v) ∷ m
    | Ordering.gt ↦ (j, w) ∷ insert m k v
  ]

  unfoldable pub contains_key : BTreeMap K V → K → Bool
  unfolding get
  contains_key m k = is_some (get m k)

  -- `entry(k).or_insert(v)`: the first value stays.
  unfoldable pub or_insert : BTreeMap K V → K → V → BTreeMap K V
  unfolding contains_key insert
  or_insert m k v = if contains_key m k then m else insert m k v

  pub get-insert :
      (m : BTreeMap K V) (k j : K) (v : V)
      → get (insert m k v) j ≡ (if same k j then some v else get m j)
  unfolding get insert
  get-insert [] k j v = refl
  get-insert ((i, w) ∷ m) k j v =
      ground (arith, get-insert m k j v, o.cmp_eq_iff k i, o.cmp_eq_iff i j, o.cmp_eq_iff k j)

  pub get-or_insert :
      (m : BTreeMap K V) (k j : K) (v : V)
      → get (or_insert m k v) j
        ≡ (if same k j then (if contains_key m k then get m k else some v) else get m j)
  unfolding or_insert insert
  get-or_insert m k j v = ground (arith, get-insert m k j v, o.cmp_eq_iff k j)

  pub contains_key-insert :
      (m : BTreeMap K V) (k j : K) (v : V)
      → contains_key (insert m k v) j ≡ (if same k j then true else contains_key m j)
  unfolding contains_key
  contains_key-insert m k j v = ground (arith, get-insert m k j v)

  pub contains_key-insert_self :
      (m : BTreeMap K V) (k : K) (v : V) → contains_key (insert m k v) k ≡ true
  contains_key-insert_self m k v = rw (contains_key-insert m k k v, same_refl k)

  -- Insertion drops no key.
  pub contains_key-insert_of :
      (m : BTreeMap K V) (k j : K) (v : V)
      → contains_key m j ≡ true
      → contains_key (insert m k v) j ≡ true
  contains_key-insert_of m k j v h = ground (arith, contains_key-insert m k j v)

  abbrev pub values : BTreeMap K V → List V
  values [] = []
  values ((k, v) ∷ m) = v ∷ values m

  abbrev pub keys : BTreeMap K V → List K
  keys [] = []
  keys ((k, v) ∷ m) = k ∷ keys m

  -- Every key of the map is above `k`.
  abbrev pub Above : K → BTreeMap K V → Type ℓ
  Above k [] = Unit
  Above k ((j, v) ∷ m) = (o.cmp k j ≡ Ordering.lt) × Above k m

  -- The keys go up.
  abbrev pub IsOrdered : BTreeMap K V → Type ℓ
  IsOrdered [] = Unit
  IsOrdered ((k, v) ∷ m) = Above k m × IsOrdered m

  Above-insert :
      (m : BTreeMap K V) (i k : K) (v : V)
      → o.cmp i k ≡ Ordering.lt
      → Above i m
      → Above i (insert m k v)
  unfolding insert
  Above-insert [] i k v h a = (h, tt)
  Above-insert ((j, w) ∷ m) i k v h a = ground (arith, Above-insert m i k v)

  Above-trans : (m : BTreeMap K V) (i k : K) → o.cmp i k ≡ Ordering.lt → Above k m → Above i m
  Above-trans [] i k h a = tt
  Above-trans ((j, w) ∷ m) i k h a = (o.cmp_trans i k j h a.0, Above-trans m i k h a.1)

  pub insert-IsOrdered : (m : BTreeMap K V) (k : K) (v : V) → IsOrdered m → IsOrdered (insert m k v)
  unfolding insert
  insert-IsOrdered [] k v h = (tt, tt)
  insert-IsOrdered ((j, w) ∷ m) k v h = elim (Ordering-cases (o.cmp k j)) [
    | inl below ↦ rw (below, insert) ((below, Above-trans m k j below h.0), h)
    | inr (inl level) ↦
        rw (level, insert) (subst (λ i. Above i m) (sym ((o.cmp_eq_iff k j).0 level)) h.0, h.1)
    | inr (inr above) ↦
        rw (above, insert)
          (Above-insert m j k v (o.cmp_flip k j ∙ ap reverse above) h.0, insert-IsOrdered m k v h.1)
  ]

-- `get_mut(k)` and an assignment through it, `remove(k)`, and the values under a function.
module _ {ℓ κ} {K : Type ℓ} {V : Type κ} ⦃o : Ord K⦄ where
  unfoldable pub modify : BTreeMap K V → K → (V → V) → BTreeMap K V
  modify [] k f = []
  modify ((j, v) ∷ m) k f = if same j k then (j, f v) ∷ m else (j, v) ∷ modify m k f

  unfoldable pub remove : BTreeMap K V → K → BTreeMap K V
  remove [] k = []
  remove ((j, v) ∷ m) k = if same j k then m else (j, v) ∷ remove m k

module _ {ℓ κ μ} {K : Type ℓ} {V : Type κ} {W : Type μ} ⦃o : Ord K⦄ (f : V → W) where
  abbrev pub map_values : BTreeMap K V → BTreeMap K W
  map_values [] = []
  map_values ((k, v) ∷ m) = (k, f v) ∷ map_values m

  pub get-map_values : (m : BTreeMap K V) (k : K) → get (map_values m) k ≡ Option.map f (get m k)
  unfolding get
  get-map_values [] k = refl
  get-map_values ((j, v) ∷ m) k = ground (arith, get-map_values m k)

  pub insert-map_values :
      (m : BTreeMap K V) (k : K) (v : V) → map_values (insert m k v) ≡ insert (map_values m) k (f v)
  unfolding insert
  insert-map_values [] k v = refl
  insert-map_values ((j, w) ∷ m) k v = ground (arith, insert-map_values m k v)

  pub modify-map_values :
      (m : BTreeMap K V) (k : K) (g : V → V) (h : W → W)
      → ((v : V) → f (g v) ≡ h (f v))
      → map_values (modify m k g) ≡ modify (map_values m) k h
  unfolding modify
  modify-map_values [] k g h e = refl
  modify-map_values ((j, v) ∷ m) k g h e = ground (arith, modify-map_values m k g h e, e v)

  -- A change that the function does not see.
  pub modify_unseen :
      (m : BTreeMap K V) (k : K) (g : V → V)
      → ((v : V) → f (g v) ≡ f v)
      → map_values (modify m k g) ≡ map_values m
  unfolding modify
  modify_unseen [] k g e = refl
  modify_unseen ((j, v) ∷ m) k g e = ground (arith, modify_unseen m k g e, e v)

  pub contains_key-map_values :
      (m : BTreeMap K V) (k : K) → contains_key (map_values m) k ≡ contains_key m k
  unfolding contains_key
  contains_key-map_values m k = ground (arith, get-map_values m k)

-- Removing another key.
pub get-remove_other {ℓ κ} :
    {K : Type ℓ} {V : Type κ} ⦃o : Ord K⦄ (m : BTreeMap K V) (k j : K)
    → same k j ≡ false
    → get (remove m k) j ≡ get m j
unfolding get remove
get-remove_other [] k j h = refl
get-remove_other ⦃o⦄ ((i, v) ∷ m) k j h =
    ground (arith, get-remove_other m k j, o.cmp_eq_iff i k, o.cmp_eq_iff i j, o.cmp_eq_iff k j)
