-- ===== src/Build/Atoi.antt =====
-- strconv.Atoi where the code ignores its error: the value that comes with the error counts, 0 for
-- bad syntax and the nearest int for a number out of range. A Go int is its 64-bit pattern.
use xboard_node_plus.Prelude.{
  zero, suc, refl, ◌≡◌, suc, ℕ, ◌+◌, ◌*◌, ◌-◌, Str, [], ◌∷◌, if◌then◌else◌, ltb, leb, nat_beq, ◌&&◌,
  word, half_word, ℤ, pos, negsuc, codes,
}

-- What strconv.ParseUint(s, 10, 64) gives.
pub data Parsed : Type 0 where
  syntax : Parsed
  overflow : Parsed
  value : ℕ → Parsed

abbrev digits : ℕ → Str → Parsed
digits acc [] = value acc
digits acc (c ∷ s) =
    let next = acc * 10 + (c - b'0') in
    let rest = digits next s in
    if leb b'0' c && leb c b'9' then if ltb next word then rest else overflow else syntax

abbrev parse_uint : Str → Parsed
parse_uint [] = syntax
parse_uint (c ∷ s) = digits 0 (c ∷ s)

abbrev signed : Parsed → ℕ
signed syntax = 0
signed overflow = half_word - 1
signed (value n) = if ltb n half_word then n else half_word - 1

abbrev negated : Parsed → ℕ
negated syntax = 0
negated overflow = half_word
negated (value zero) = 0
negated (value (suc n)) = if ltb n half_word then word - suc n else half_word

-- i, _ := strconv.Atoi(s)
unfoldable pub atoi_value : Str → ℕ
atoi_value [] = 0
atoi_value (c ∷ s) =
    if nat_beq c b'-'
    then negated (parse_uint s)
    else if nat_beq c b'+'
    then signed (parse_uint s)
    else signed (parse_uint (c ∷ s))

-- The pattern of a parsed int.
abbrev pub pattern_of : ℤ → ℕ
pattern_of (pos n) = n
pattern_of (negsuc n) = word - 1 - n

atoi_value_tests :
    (atoi_value (codes "-12") ≡ word - 12)
    × (atoi_value (codes "9x") ≡ 0)
    × (atoi_value (codes "99999999999999999999x") ≡ half_word - 1)
unfolding atoi_value
atoi_value_tests = (refl, refl, refl)
