-- ===== src/Prelude/Numbers.antt =====
-- strings.Split at one byte and strconv.Atoi, on byte strings.
use Prim.Native.Nat.{ℕ, zero, suc, ◌+◌, ◌*◌, ◌-◌, ◌^◌}
use mathlib.Core.Bool.{◌&&◌}
use mathlib.Core.Option.{Option, none, some}
use mathlib.Core.List.{List, [], ◌∷◌}
use xboard_node_plus.Prelude.Tests.{Str, ltb, leb, nat_beq, if◌then◌else◌}

-- strings.Split(s, sep) for a separator of one byte: the part that is being read is kept apart.
abbrev pub join_head : ℕ → List Str → List Str
join_head c [] = (c ∷ []) ∷ []
join_head c (p ∷ ps) = (c ∷ p) ∷ ps

unfoldable pub split : ℕ → Str → List Str
split sep [] = [] ∷ []
split sep (c ∷ s) = let rest = split sep s in if nat_beq c sep then [] ∷ rest else join_head c rest

pub data ℤ : Type 0 where
  pos : ℕ → ℤ
  negsuc : ℕ → ℤ

abbrev digits : ℕ → Str → Option ℕ
digits acc [] = some acc
digits acc (c ∷ s) =
    let rest = digits (acc * 10 + (c - b'0')) s in if leb b'0' c && leb c b'9' then rest else none

-- At least one digit.
abbrev number : Str → Option ℕ
number [] = none
number (c ∷ s) = digits 0 (c ∷ s)

abbrev negate : ℕ → ℤ
negate zero = pos 0
negate (suc n) = negsuc n

-- The int64 range: from -2^63 to 2^63 - 1.
abbrev in_range : Option ℕ → Option ℤ
in_range none = none
in_range (some n) = if ltb n (2 ^ 63) then some (pos n) else none

abbrev in_range_neg : Option ℕ → Option ℤ
in_range_neg none = none
in_range_neg (some n) = if leb n (2 ^ 63) then some (negate n) else none

-- strconv.Atoi: `none` is an error.
unfoldable pub atoi : Str → Option ℤ
atoi [] = none
atoi (c ∷ s) =
    if nat_beq c b'-'
    then in_range_neg (number s)
    else if nat_beq c b'+'
    then in_range (number s)
    else in_range (number (c ∷ s))
