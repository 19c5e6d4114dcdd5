-- ===== src/Base/Sort.antt =====
-- Rust's `sort_by`: a stable sort by a comparison. A stable sort's result is determined, so
-- insertion sort gives it.
pub mod Unique
use Prim.Native.Nat.{Ordering}
use mathlib.Core.Path.{◌≡◌, refl, sym, ap, ◌∙◌, subst}
use mathlib.Core.Logic.{◌⊎◌, inl, inr}
use mathlib.Core.List.{List, [], ◌∷◌, Perm, Memᴰ}
use mathlib.Core.List.Perm
use texo.Base.Order.{Ord, reverse, Ordering-cases}
use texo.Base.Lists.{All}

module _ {ℓ} {A : Type ℓ} (c : A → A → Ordering) where
  insert_by : A → List A → List A
  insert_by x [] = x ∷ []
  insert_by x (y ∷ ys) = elim (c x y) [
    | Ordering.lt ↦ x ∷ y ∷ ys
    | Ordering.eq ↦ x ∷ y ∷ ys
    | Ordering.gt ↦ y ∷ insert_by x ys
  ]

  unfoldable pub sort_by : List A → List A
  unfolding insert_by
  sort_by [] = []
  sort_by (x ∷ xs) = insert_by x (sort_by xs)

  insert_by-perm : (x : A) (ys : List A) → Perm (insert_by x ys) (x ∷ ys)
  unfolding insert_by
  insert_by-perm x [] = Perm.refl (x ∷ [])
  insert_by-perm x (y ∷ ys) = elim (Ordering-cases (c x y)) [
    | inl e ↦ rw (e, insert_by) (Perm.refl (x ∷ y ∷ ys))
    | inr (inl e) ↦ rw (e, insert_by) (Perm.refl (x ∷ y ∷ ys))
    | inr (inr e) ↦
        rw (e, insert_by) (Perm.trans (Perm.cons y (insert_by-perm x ys)) (Perm.swap x y ys))
  ]

  -- Nothing is lost, added or doubled.
  pub sort_by-perm : (xs : List A) → Perm (sort_by xs) xs
  unfolding sort_by
  sort_by-perm [] = Perm.refl []
  sort_by-perm (x ∷ xs) = Perm.trans (insert_by-perm x (sort_by xs)) (Perm.cons x (sort_by-perm xs))

  -- `b` does not come before `a`.
  abbrev pub AtMost : A → A → Type 0
  AtMost a b = (c a b ≡ Ordering.lt) ⊎ (c a b ≡ Ordering.eq)

  abbrev pub IsSorted : List A → Type 0
  IsSorted [] = Unit
  IsSorted (x ∷ xs) = All (AtMost x) xs × IsSorted xs

  -- What a comparison must satisfy: `Ord`'s contract in the standard library.
  pub record IsTotal : Type ℓ where
    pub flips : (a b : A) → c b a ≡ reverse (c a b)
    pub chains : (a b d : A) → AtMost a b → AtMost b d → AtMost a d

  -- A sorted list is left as it is.
  pub sort_by_of_sorted : (xs : List A) → IsSorted xs → sort_by xs ≡ xs
  unfolding sort_by
  sort_by_of_sorted [] h = refl
  sort_by_of_sorted (x ∷ []) h = refl
  sort_by_of_sorted (x ∷ y ∷ ys) h =
      ap (insert_by x) (sort_by_of_sorted (y ∷ ys) h.1) ∙ first (h.0).0
    where
      first : AtMost x y → insert_by x (y ∷ ys) ≡ x ∷ y ∷ ys
      first (inl e) = rw (e, insert_by)
      first (inr e) = rw (e, insert_by)

module _ {ℓ} {A : Type ℓ} {c : A → A → Ordering} (total : IsTotal c) where
  AtMost-of_gt : (a b : A) → c a b ≡ Ordering.gt → AtMost c b a
  AtMost-of_gt a b h = inl (total.flips a b ∙ ap reverse h)

  All-trans : (x y : A) (ys : List A) → AtMost c x y → All (AtMost c y) ys → All (AtMost c x) ys
  All-trans x y [] h a = tt
  All-trans x y (z ∷ ys) h a = (total.chains x y z h a.0, All-trans x y ys h a.1)

  All-insert_by :
      (z x : A) (ys : List A)
      → AtMost c z x
      → All (AtMost c z) ys
      → All (AtMost c z) (insert_by c x ys)
  unfolding insert_by
  All-insert_by z x [] h a = (h, tt)
  All-insert_by z x (y ∷ ys) h a = elim (Ordering-cases (c x y)) [
    | inl e ↦ rw (e, insert_by) (h, a)
    | inr (inl e) ↦ rw (e, insert_by) (h, a)
    | inr (inr e) ↦ rw (e, insert_by) (a.0, All-insert_by z x ys h a.1)
  ]

  insert_by-IsSorted : (x : A) (ys : List A) → IsSorted c ys → IsSorted c (insert_by c x ys)
  unfolding insert_by
  insert_by-IsSorted x [] h = (tt, tt)
  insert_by-IsSorted x (y ∷ ys) h = elim (Ordering-cases (c x y)) [
    | inl e ↦ rw (e, insert_by) ((inl e, All-trans x y ys (inl e) h.0), h)
    | inr (inl e) ↦ rw (e, insert_by) ((inr e, All-trans x y ys (inr e) h.0), h)
    | inr (inr e) ↦
        rw (e, insert_by)
          (All-insert_by y x ys (AtMost-of_gt x y e) h.0, insert_by-IsSorted x ys h.1)
  ]

  pub sort_by-IsSorted : (xs : List A) → IsSorted c (sort_by c xs)
  unfolding sort_by
  sort_by-IsSorted [] = tt
  sort_by-IsSorted (x ∷ xs) = insert_by-IsSorted x (sort_by c xs) (sort_by-IsSorted xs)

-- Sorting by a key of an ordered type.
module _ {ℓ κ} {A : Type ℓ} {K : Type κ} ⦃o : Ord K⦄ (key : A → K) where
  abbrev pub by_key : A → A → Ordering
  by_key a b = o.cmp (key a) (key b)

  chains_by_key : (a b d : A) → AtMost by_key a b → AtMost by_key b d → AtMost by_key a d
  chains_by_key a b d (inl h) (inl k) = inl (o.cmp_trans (key a) (key b) (key d) h k)
  chains_by_key a b d (inl h) (inr k) =
      inl (subst (λ t. o.cmp (key a) t ≡ Ordering.lt) ((o.cmp_eq_iff (key b) (key d)).0 k) h)
  chains_by_key a b d (inr h) k =
      subst (λ t. (o.cmp t (key d) ≡ Ordering.lt) ⊎ (o.cmp t (key d) ≡ Ordering.eq))
        (sym ((o.cmp_eq_iff (key a) (key b)).0 h)) k

  pub by_key-IsTotal : IsTotal by_key
  by_key-IsTotal = record { flips = λ a b. o.cmp_flip (key a) (key b); chains = chains_by_key }

module _ {ℓ κ} {A : Type ℓ} (c : A → A → Ordering) (P : A → Type κ) where
  All-into : (x : A) (ys : List A) → P x → All P ys → All P (insert_by c x ys)
  unfolding insert_by
  All-into x [] h a = (h, tt)
  All-into x (y ∷ ys) h a = elim (Ordering-cases (c x y)) [
    | inl e ↦ rw (e, insert_by) (h, a)
    | inr (inl e) ↦ rw (e, insert_by) (h, a)
    | inr (inr e) ↦ rw (e, insert_by) (a.0, All-into x ys h a.1)
  ]

  pub All-sort_by : (xs : List A) → All P xs → All P (sort_by c xs)
  unfolding sort_by
  All-sort_by [] a = tt
  All-sort_by (x ∷ xs) a = All-into x (sort_by c xs) a.0 (All-sort_by xs a.1)

module _ {ℓ} {A : Type ℓ} (c : A → A → Ordering) (a : A) where
  Mem-into : (x : A) (ys : List A) → (a ≡ x) ⊎ Memᴰ a ys → Memᴰ a (insert_by c x ys)
  unfolding insert_by
  Mem-into x [] (inl e) = Memᴰ.head e
  Mem-into x [] (inr m) = Memᴰ.tail m
  Mem-into x (y ∷ ys) h = elim (Ordering-cases (c x y)) [
    | inl e ↦ rw (e, insert_by) (front h)
    | inr (inl e) ↦ rw (e, insert_by) (front h)
    | inr (inr e) ↦
        rw (e, insert_by)
          (elim h [
            | inl here ↦ Memᴰ.tail (Mem-into x ys (inl here))
            | inr m ↦ elim m [
              | Memᴰ.head here ↦ Memᴰ.head here
              | Memᴰ.tail m' ↦ Memᴰ.tail (Mem-into x ys (inr m'))
            ]
          ])
  ]
    where
      front : (a ≡ x) ⊎ Memᴰ a (y ∷ ys) → Memᴰ a (x ∷ y ∷ ys)
      front (inl e) = Memᴰ.head e
      front (inr m) = Memᴰ.tail m

  -- Sorting loses nothing.
  pub Mem-sort_by : (xs : List A) → Memᴰ a xs → Memᴰ a (sort_by c xs)
  unfolding sort_by
  Mem-sort_by [] m = m
  Mem-sort_by (x ∷ xs) (Memᴰ.head e) = Mem-into x (sort_by c xs) (inl e)
  Mem-sort_by (x ∷ xs) (Memᴰ.tail m) = Mem-into x (sort_by c xs) (inr (Mem-sort_by xs m))
