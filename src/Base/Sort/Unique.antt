-- ===== src/Base/Sort/Unique.antt =====
-- Sorting the values of an ordered type by their own order forgets the order that they came in.
use mathlib.Core.Path.{◌≡◌, refl, ap₂, ◌∙◌}
use mathlib.Core.Logic.{∥∥₁_elim}
use mathlib.Core.List.{List, [], ◌∷◌, Perm, Permᴰ}
use native.Mathlib.Omega.{arith}
use texo.Base.Order.{Ord}
use texo.Base.Sort.{insert_by, sort_by}

-- A list of a set's elements is one of a set.
List-set {ℓ} : {A : Type ℓ} → IsSet A → IsSet (List A)
List-set s = hlevel s

module _ {ℓ} {A : Type ℓ} ⦃o : Ord A⦄ where
  insert_comm :
      (x y : A) (l : List A)
      → insert_by o.cmp x (insert_by o.cmp y l) ≡ insert_by o.cmp y (insert_by o.cmp x l)
  unfolding insert_by
  insert_comm x y [] = ground (arith, o.cmp_flip x y, o.cmp_eq_iff x y)
  insert_comm x y (z ∷ l) = ground (
    arith,
    insert_comm x y l,
    o.cmp_flip x y,
    o.cmp_flip x z,
    o.cmp_flip y z,
    o.cmp_eq_iff x y,
    o.cmp_eq_iff x z,
    o.cmp_eq_iff y z,
    o.cmp_trans x y z,
    o.cmp_trans y x z,
    o.cmp_trans x z y,
    o.cmp_trans y z x,
    o.cmp_trans z x y,
    o.cmp_trans z y x,
  )

  sort_by-Permᴰ : {xs ys : List A} → Permᴰ xs ys → sort_by o.cmp xs ≡ sort_by o.cmp ys
  unfolding sort_by
  sort_by-Permᴰ Permᴰ.nil = refl
  sort_by-Permᴰ (Permᴰ.cons {b = b} e p) = ap₂ (insert_by o.cmp) e (sort_by-Permᴰ p)
  sort_by-Permᴰ (Permᴰ.swap {a' = a'} {b' = b'} {l = l} e f) =
      rw (e, f) (insert_comm b' a' (sort_by o.cmp l))
  sort_by-Permᴰ (Permᴰ.trans p q) = sort_by-Permᴰ p ∙ sort_by-Permᴰ q

  -- Two lists with the same elements, as often each, sort to one list.
  pub sort_by-eq_of_perm :
      IsSet A → {xs ys : List A} → Perm xs ys → sort_by o.cmp xs ≡ sort_by o.cmp ys
  sort_by-eq_of_perm set {xs} {ys} p =
      ∥∥₁_elim p (List-set set (sort_by o.cmp xs) (sort_by o.cmp ys)) sort_by-Permᴰ
