-- ===== src/Base/Number.antt =====
-- The order of Rust's unsigned numbers.
use Prim.Native.Nat.{ℕ, Ordering, compare}
use mathlib.Core.Path.{◌≡◌}
use mathlib.Core.Logic.{◌↔◌}
use native.Mathlib.Omega.{arith}
use texo.Base.Order.{Ord, reverse}

pub compare_iff : (a b : ℕ) → (compare a b ≡ Ordering.eq) ↔ (a ≡ b)
compare_iff a b = ground arith

pub compare_flip : (a b : ℕ) → compare b a ≡ reverse (compare a b)
compare_flip a b = ground arith

pub compare_trans :
    (a b c : ℕ) → compare a b ≡ Ordering.lt → compare b c ≡ Ordering.lt → compare a c ≡ Ordering.lt
compare_trans a b c h k = ground arith

instance abbrev pub number_ord : Ord ℕ
number_ord = record {
  cmp = compare;
  cmp_eq_iff = compare_iff;
  cmp_flip = compare_flip;
  cmp_trans = compare_trans;
}
