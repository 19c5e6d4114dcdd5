-- ===== src/Base/Pairs.antt =====
-- The order of Rust's pairs: by the first components, then by the second.
use Prim.Native.Nat.{Ordering}
use mathlib.Core.Path.{◌≡◌}
use mathlib.Core.Logic.{◌↔◌}
use native.Mathlib.Omega.{arith}
use texo.Base.Order.{Ord, reverse, then_with}

module _ {ℓ κ} {A : Type ℓ} {B : Type κ} ⦃o : Ord A⦄ ⦃p : Ord B⦄ where
  unfoldable pub compare_pair : A × B → A × B → Ordering
  compare_pair (a, b) (c, d) = then_with (o.cmp a c) (p.cmp b d)

  pub compare_pair_iff : (x y : A × B) → (compare_pair x y ≡ Ordering.eq) ↔ (x ≡ y)
  unfolding compare_pair
  compare_pair_iff (a, b) (c, d) = ground (arith, o.cmp_eq_iff a c, p.cmp_eq_iff b d)

  pub compare_pair-flip : (x y : A × B) → compare_pair y x ≡ reverse (compare_pair x y)
  unfolding compare_pair
  compare_pair-flip (a, b) (c, d) = ground (arith, o.cmp_flip a c, p.cmp_flip b d)

  pub compare_pair_trans :
      (x y z : A × B)
      → compare_pair x y ≡ Ordering.lt
      → compare_pair y z ≡ Ordering.lt
      → compare_pair x z ≡ Ordering.lt
  unfolding compare_pair
  compare_pair_trans (a, b) (c, d) (e, f) h k = ground (
    arith,
    o.cmp_eq_iff a c,
    o.cmp_eq_iff c e,
    o.cmp_eq_iff a e,
    o.cmp_trans a c e,
    p.cmp_trans b d f,
  )

  instance abbrev pub pair_ord : Ord (A × B)
  pair_ord = record {
    cmp = compare_pair;
    cmp_eq_iff = compare_pair_iff;
    cmp_flip = compare_pair-flip;
    cmp_trans = compare_pair_trans;
  }
