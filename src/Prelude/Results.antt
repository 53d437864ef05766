-- ===== src/Prelude/Results.antt =====
-- A Go `error` beside a value: the value, or the error.
use mathlib.Core.Path.{◌≡◌, refl}
use mathlib.Core.Bool.{Bool, true, false}

pub data Result {ℓ κ} (E : Type ℓ) (A : Type κ) : Type (ℓ ⊔ κ) where
  ok : A → Result E A
  err : E → Result E A

module _ {ℓ} {E : Type ℓ} where
  infixl 5 ◌>>=◌ ◌>>◌
  abbrev pub ◌>>=◌ {κ ι} : {A : Type κ} {B : Type ι} → Result E A → (A → Result E B) → Result E B
  ok a >>= f = f a
  err e >>= f = err e

  abbrev pub ◌>>◌ {κ} : {B : Type κ} → Result E (Unit {0}) → Result E B → Result E B
  ok u >> k = k
  err e >> k = err e

  -- if bad { return e }
  abbrev pub reject_if : Bool → E → Result E (Unit {0})
  reject_if true e = err e
  reject_if false e = ok tt

  pub >>-ok {κ} :
      {B : Type κ} (m : Result E Unit) (k : Result E B) {b : B}
      → (m >> k) ≡ ok b
      → (m ≡ ok tt) × (k ≡ ok b)
  >>-ok (ok u) k h = (refl, h)
  >>-ok (err e) k h = cc

  pub >>-ok_of {κ} :
      {B : Type κ} (m : Result E Unit) (k : Result E B) {b : B}
      → m ≡ ok tt
      → k ≡ ok b
      → (m >> k) ≡ ok b
  >>-ok_of m k h g = rw h g

  pub reject_if-ok : (b : Bool) (e : E) → reject_if b e ≡ ok tt → b ≡ false
  reject_if-ok true e h = cc
  reject_if-ok false e h = refl

  -- Wrapping an error, as fmt.Errorf with %w does.
  abbrev pub map_err {κ ι} : {F : Type κ} {A : Type ι} → (F → E) → Result F A → Result E A
  map_err f (ok a) = ok a
  map_err f (err e) = err (f e)

  -- What a successful bind went through.
  pub bind-ok {κ ι} :
      {A : Type κ} {B : Type ι} (m : Result E A) (f : A → Result E B) {b : B}
      → (m >>= f) ≡ ok b
      → (a : A) × (m ≡ ok a) × (f a ≡ ok b)
  bind-ok (ok a) f h = (a, refl, h)
  bind-ok (err e) f h = cc
