-- ===== src/Base/Fallible.antt =====
-- Rust's `Result`, with `?` as the bind of a `do` block.
use mathlib.Core.Path.{◌≡◌, refl}
use mathlib.Core.Logic.{◌⊎◌, inl, inr}
use mathlib.Core.Bool.{Bool, true, false}
use mathlib.Core.Option.{Option, none, some}

pub data Result {ℓ κ} (E : Type ℓ) (T : Type κ) : Type (ℓ ⊔ κ) where
  ok : T → Result E T
  err : E → Result E T

module _ {ℓ κ} {E : Type ℓ} {T : Type κ} where
  -- A result is a value or an error.
  pub Result-cases :
      (result : Result E T)
      → ((value : T) × (result ≡ ok value)) ⊎ ((what : E) × (result ≡ err what))
  Result-cases (err what) = inr (what, refl)
  Result-cases (ok value) = inl (value, refl)

  -- Rust's `ok_or_else`.
  abbrev pub ok_or : Option T → E → Result E T
  ok_or (some value) what = ok value
  ok_or none what = err what

module _ {ℓ κ μ} {E : Type ℓ} {T : Type κ} {U : Type μ} where
  infixl 5 ◌>>=◌
  abbrev pub ◌>>=◌ : Result E T → (T → Result E U) → Result E U
  err what >>= next = err what
  ok value >>= next = next value

  -- What a `?` lets pass was a value.
  pub >>=-eq-ok :
      (first : Result E T) (next : T → Result E U) {result : U}
      → (first >>= next) ≡ ok result
      → (value : T) × (first ≡ ok value) × (next value ≡ ok result)
  >>=-eq-ok (err what) next passed = cc
  >>=-eq-ok (ok value) next passed = (value, refl, passed)

module _ {ℓ μ} {E : Type ℓ} {U : Type μ} where
  infixl 5 ◌>>◌
  abbrev pub ◌>>◌ : Result E (Unit {0}) → Result E U → Result E U
  first >> second = first >>= λ done. second

  pub >>-eq-ok :
      (first : Result E (Unit {0})) (second : Result E U) {result : U}
      → (first >> second) ≡ ok result
      → (first ≡ ok tt) × (second ≡ ok result)
  >>-eq-ok (err what) second passed = cc
  >>-eq-ok (ok done) second passed = (refl, passed)

module _ {ℓ} {E : Type ℓ} where
  -- `if test { return Err(what); }`
  abbrev pub fail_if : Bool → E → Result E (Unit {0})
  fail_if false what = ok tt
  fail_if true what = err what

  -- What a check lets pass: the test did not hold.
  pub fail_if-eq-ok : (test : Bool) (what : E) → fail_if test what ≡ ok tt → test ≡ false
  fail_if-eq-ok false what h = refl
  fail_if-eq-ok true what h = cc
