-- ===== src/Prelude/Result.antt =====
-- Fallible code that says why it fails: Rust's `Result` as a monad.
use mathlib.Core.Path.{◌≡◌, refl}
use mathlib.Core.Option.{Option, none, some}

pub data Result {ℓ κ} (E : Type ℓ) (A : Type κ) : Type (ℓ ⊔ κ) where
  err : E → Result E A
  ok : A → Result E A

module _ {ℓ κ} {E : Type ℓ} {A : Type κ} where
  abbrev pub ok_or : Option A → E → Result E A
  ok_or (some value) reason = ok value
  ok_or none reason = err reason

  pub ok_or-eq-ok : (o : Option A) (reason : E) {a : A} → ok_or o reason ≡ ok a → o ≡ some a
  ok_or-eq-ok (some value) reason h = cc
  ok_or-eq-ok none reason h = cc

  pub ok-eq-ok : {a b : A} → ◌≡◌ {A = Result E A} (ok a) (ok b) → a ≡ b
  ok-eq-ok h = cc

-- `?`, as the bind of the monad.
module _ {ℓ κ μ} {E : Type ℓ} {A : Type κ} {B : Type μ} where
  infixl 5 ◌>>=◌
  abbrev pub ◌>>=◌ : Result E A → (A → Result E B) → Result E B
  (err reason) >>= next = err reason
  (ok value) >>= next = next value

  -- Inversion of a successful bind.
  pub >>=-eq-ok :
      (first : Result E A) (next : A → Result E B) {b : B}
      → (first >>= next) ≡ ok b
      → (a : A) × (first ≡ ok a) × (next a ≡ ok b)
  >>=-eq-ok (err reason) next h = cc
  >>=-eq-ok (ok value) next h = (value, refl, h)

module _ {ℓ μ} {E : Type ℓ} {B : Type μ} where
  infixl 5 ◌>>◌
  abbrev pub ◌>>◌ : Result E (Unit {0}) → Result E B → Result E B
  first >> second = first >>= λ done. second
