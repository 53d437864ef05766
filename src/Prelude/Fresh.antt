-- ===== src/Prelude/Fresh.antt =====
-- Lists of keys without repetition, and the loop that finds one by a set of the keys seen.
use mathlib.Core.Path.{◌≡◌, refl}
use mathlib.Core.Logic.{◌≢◌}
use mathlib.Core.Bool.{false}
use mathlib.Core.List.{List, [], ◌∷◌}
use native.Mathlib.Omega.{arith}
use xboard_node_plus.Prelude.Tests.{Eq}
use xboard_node_plus.Prelude.Lists.{All}
use xboard_node_plus.Prelude.Maps.{Map, has, lookup, insert, lookup-insert}

module _ {ℓ} {K : Type ℓ} where
  abbrev pub NoRepeat : List K → Type ℓ
  NoRepeat [] = Unit
  NoRepeat (k ∷ l) = All (λ j. j ≢ k) l × NoRepeat l

module _ {ℓ κ} {K : Type ℓ} {V : Type κ} ⦃e : Eq K⦄ where
  abbrev pub Avoids : Map K V → List K → Type 0
  Avoids s [] = Unit
  Avoids s (k ∷ l) = (has k s ≡ false) × Avoids s l

  pub Avoids-insert :
      (k : K) (v : V) (s : Map K V) (l : List K)
      → Avoids s l
      → All (λ j. j ≢ k) l
      → Avoids (insert k v s) l
  Avoids-insert k v s [] a d = tt
  Avoids-insert k v s (j ∷ l) a d = (
    ground (arith, a.0, d.0, lookup-insert k j v s, e.beq_iff k j),
    Avoids-insert k v s l a.1 d.1,
  )

  pub Avoids-insert_inv :
      (k : K) (v : V) (s : Map K V) (l : List K)
      → Avoids (insert k v s) l
      → Avoids s l × All (λ j. j ≢ k) l
  Avoids-insert_inv k v s [] a = (tt, tt)
  Avoids-insert_inv k v s (j ∷ l) a =
      let (here, away) = Avoids-insert_inv k v s l a.1 in
      (
        (ground (arith, a.0, lookup-insert k j v s), here),
        (λ p. ground (arith, a.0, p, lookup-insert k j v s, e.beq_iff k j), away),
      )

pub Avoids-nil {ℓ κ} : {K : Type ℓ} ⦃e : Eq K⦄ (V : Type κ) (l : List K) → Avoids {V = V} [] l
unfolding lookup
Avoids-nil V [] = tt
Avoids-nil V (k ∷ l) = (refl, Avoids-nil V l)
