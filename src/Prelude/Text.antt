-- ===== src/Prelude/Text.antt =====
-- The functions of package strings that the program uses, on byte strings. `trim_space` knows the
-- UTF-8 form of every Unicode space.
pub mod Trimming
use Prim.Native.Char.{code}
use Prim.Native.Nat.{ℕ}
use Prim.Native.String.{String}
use mathlib.Core.Path.{◌≡◌, refl}
use mathlib.Core.Bool.{Bool, true, false, ◌&&◌, ◌||◌}
use mathlib.Core.List.{[], ◌∷◌, reverse}
use xboard_node_plus.Prelude.Tests.{Str, leb, nat_beq, if◌then◌else◌}
use xboard_node_plus.Prelude.Lists.{any}

-- The bytes of an ASCII literal. `String` has its own `[]` and `∷`.
abbrev pub codes : String → Str
codes String.[] = []
codes (String.◌∷◌ c s) = code c ∷ codes s

ascii_space : ℕ → Bool
ascii_space c = (leb 9 c && leb c 13) || nat_beq c 32

-- The second and third bytes of the spaces that begin with E2.
space_e2 : ℕ → ℕ → Bool
space_e2 b c =
    (nat_beq b 0x80
      && ((leb 0x80 c && leb c 0x8a) || nat_beq c 0xa8 || nat_beq c 0xa9 || nat_beq c 0xaf))
    || (nat_beq b 0x81 && nat_beq c 0x9f)

space2 : ℕ → ℕ → Bool
space2 a b = nat_beq a 0xc2 && (nat_beq b 0x85 || nat_beq b 0xa0)

space3 : ℕ → ℕ → ℕ → Bool
unfolding space_e2
space3 a b c =
    (nat_beq a 0xe1 && nat_beq b 0x9a && nat_beq c 0x80)
    || (nat_beq a 0xe2 && space_e2 b c)
    || (nat_beq a 0xe3 && nat_beq b 0x80 && nat_beq c 0x80)

trim_left : Str → Str
unfolding ascii_space space2 space3
trim_left [] = []
trim_left (a ∷ []) = if ascii_space a then [] else a ∷ []
trim_left (a ∷ b ∷ []) =
    let rest = trim_left (b ∷ []) in
    if ascii_space a then rest else if space2 a b then [] else a ∷ b ∷ []
trim_left (a ∷ b ∷ c ∷ s) =
    let rest1 = trim_left (b ∷ c ∷ s) in
    let rest2 = trim_left (c ∷ s) in
    let rest3 = trim_left s in
    if ascii_space a
    then rest1
    else if space2 a b
    then rest2
    else if space3 a b c
    then rest3
    else a ∷ b ∷ c ∷ s

-- The same from the end: the bytes come in reverse.
trim_right : Str → Str
unfolding ascii_space space2 space3
trim_right [] = []
trim_right (a ∷ []) = if ascii_space a then [] else a ∷ []
trim_right (b ∷ a ∷ []) =
    let rest = trim_right (a ∷ []) in
    if ascii_space b then rest else if space2 a b then [] else b ∷ a ∷ []
trim_right (c ∷ b ∷ a ∷ s) =
    let rest1 = trim_right (b ∷ a ∷ s) in
    let rest2 = trim_right (a ∷ s) in
    let rest3 = trim_right s in
    if ascii_space c
    then rest1
    else if space2 b c
    then rest2
    else if space3 a b c
    then rest3
    else c ∷ b ∷ a ∷ s

-- strings.TrimSpace
unfoldable pub trim_space : Str → Str
unfolding trim_left trim_right
trim_space s = reverse (trim_right (reverse (trim_left s)))

-- strings.Contains(s, sep), for one byte
abbrev pub contains_byte : ℕ → Str → Bool
contains_byte c = any (nat_beq c)

-- strings.HasPrefix
unfoldable pub has_prefix : Str → Str → Bool
has_prefix s [] = true
has_prefix [] (b ∷ t) = false
has_prefix (a ∷ s) (b ∷ t) = if nat_beq a b then has_prefix s t else false

trim_space_test : trim_space (codes "  a b\n ") ≡ codes "a b"
unfolding trim_space
trim_space_test = refl
