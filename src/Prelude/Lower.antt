-- ===== src/Prelude/Lower.antt =====
-- strings.ToLower on byte strings: the runes of UTF-8 one by one, each byte that is not UTF-8 replaced
-- by U+FFFD, and the simple mappings to lower case of Unicode 15.
mod CaseRanges
use Prim.Native.Nat.{ℕ, zero, suc, ◌+◌, ◌-◌, ◌*◌, ◌/◌, ◌%◌}
use xboard_node_plus.Prelude.Lower.CaseRanges.{case_ranges}
use mathlib.Core.Path.{◌≡◌, refl}
use mathlib.Core.Logic.{◌≢◌, inl, inr}
use mathlib.Core.Bool.{Bool, ◌&&◌}
use mathlib.Core.List.{List, [], ◌∷◌, ◌++◌}
use xboard_node_plus.Prelude.Tests.{Str, ltb, leb, nat_beq, if◌then◌else◌, Bool-cases}

in_ranges : ℕ → List (ℕ × ℕ × ℕ × ℕ) → ℕ
in_ranges r [] = r
in_ranges r ((lo, hi, step, lower) ∷ l) =
    let rest = in_ranges r l in
    if leb lo r && leb r hi && nat_beq ((r - lo) % step) 0 then lower + (r - lo) else rest

-- unicode.ToLower
lower_rune : ℕ → ℕ
unfolding case_ranges in_ranges
lower_rune r =
    if ltb r 128 then if leb b'A' r && leb r b'Z' then r + 32 else r else in_ranges r case_ranges

-- utf8.AppendRune
encode_rune : ℕ → Str
encode_rune r =
    if ltb r 0x80
    then r ∷ []
    else if ltb r 0x800
    then (0xc0 + r / 0x40) ∷ (0x80 + r % 0x40) ∷ []
    else if ltb r 0x10000
    then (0xe0 + r / 0x1000) ∷ (0x80 + (r / 0x40) % 0x40) ∷ (0x80 + r % 0x40) ∷ []
    else (0xf0 + r / 0x40000)
      ∷ (0x80 + (r / 0x1000) % 0x40)
      ∷ (0x80 + (r / 0x40) % 0x40)
      ∷ (0x80 + r % 0x40)
      ∷ []

is_trail : ℕ → Bool
is_trail b = leb 0x80 b && leb b 0xbf

-- The second bytes that may follow this first byte.
is_second : ℕ → ℕ → Bool
unfolding is_trail
is_second a b =
    if nat_beq a 0xe0
    then leb 0xa0 b && leb b 0xbf
    else if nat_beq a 0xed
    then leb 0x80 b && leb b 0x9f
    else if nat_beq a 0xf0
    then leb 0x90 b && leb b 0xbf
    else if nat_beq a 0xf4
    then leb 0x80 b && leb b 0x8f
    else is_trail b

-- A byte that is not UTF-8.
abbrev rune_error : ℕ × ℕ
rune_error = (0xfffd, 0)

decode2 : ℕ → Str → ℕ × ℕ
unfolding is_trail
decode2 a [] = rune_error
decode2 a (b ∷ s) = if is_trail b then ((a - 0xc0) * 0x40 + (b - 0x80), 1) else rune_error

decode3 : ℕ → Str → ℕ × ℕ
unfolding is_trail is_second
decode3 a [] = rune_error
decode3 a (b ∷ []) = rune_error
decode3 a (b ∷ c ∷ s) =
    if is_second a b && is_trail c
    then ((a - 0xe0) * 0x1000 + (b - 0x80) * 0x40 + (c - 0x80), 2)
    else rune_error

decode4 : ℕ → Str → ℕ × ℕ
unfolding is_trail is_second
decode4 a [] = rune_error
decode4 a (b ∷ []) = rune_error
decode4 a (b ∷ c ∷ []) = rune_error
decode4 a (b ∷ c ∷ d ∷ s) =
    if is_second a b && is_trail c && is_trail d
    then ((a - 0xf0) * 0x40000 + (b - 0x80) * 0x1000 + (c - 0x80) * 0x40 + (d - 0x80), 3)
    else rune_error

-- utf8.DecodeRune of a string that is not empty: the rune, and how many bytes follow the first.
decode_rune : ℕ → Str → ℕ × ℕ
unfolding decode2 decode3 decode4
decode_rune a s =
    if ltb a 0x80
    then (a, 0)
    else if ltb a 0xc2
    then rune_error
    else if ltb a 0xe0
    then decode2 a s
    else if ltb a 0xf0
    then decode3 a s
    else if ltb a 0xf5
    then decode4 a s
    else rune_error

-- The rest of a string after so many bytes that are passed over.
lower_after : ℕ → Str → Str
unfolding decode_rune encode_rune lower_rune
lower_after skip [] = []
lower_after (suc skip) (a ∷ s) = lower_after skip s
lower_after zero (a ∷ s) =
    let (r, more) = decode_rune a s in encode_rune (lower_rune r) ++ lower_after more s

-- strings.ToLower
unfoldable pub to_lower : Str → Str
unfolding lower_after
to_lower = lower_after 0

encode_rune-filled : (r : ℕ) (l : Str) → encode_rune r ++ l ≢ []
unfolding encode_rune
encode_rune-filled r l e = elim (Bool-cases (ltb r 0x80)) [
  | inl a ↦ cc (rw a at e)
  | inr b ↦ elim (Bool-cases (ltb r 0x800)) [
    | inl c ↦ cc (rw (b, c) at e)
    | inr d ↦ elim (Bool-cases (ltb r 0x10000)) [
      | inl f ↦ cc (rw (b, d, f) at e)
      | inr g ↦ cc (rw (b, d, g) at e)
    ]
  ]
]

pub to_lower-filled : (s : Str) → s ≢ [] → to_lower s ≢ []
unfolding to_lower
to_lower-filled [] filled e = filled refl
to_lower-filled (a ∷ s) filled e =
    encode_rune-filled (lower_rune (decode_rune a s).0) (lower_after (decode_rune a s).1 s) e

to_lower_ascii_test : to_lower (b'A' ∷ b'z' ∷ b'-' ∷ []) ≡ b'a' ∷ b'z' ∷ b'-' ∷ []
unfolding to_lower
to_lower_ascii_test = refl

-- É, Я, the sign for Kelvin, U+10400, and a byte that is not UTF-8.
to_lower_unicode_test :
    to_lower
      (0xc3 ∷ 0x89 ∷ 0xd0 ∷ 0xaf ∷ 0xe2 ∷ 0x84 ∷ 0xaa ∷ 0xf0 ∷ 0x90 ∷ 0x90 ∷ 0x80 ∷ 0xff ∷ [])
    ≡ 0xc3 ∷ 0xa9 ∷ 0xd1 ∷ 0x8f ∷ b'k' ∷ 0xf0 ∷ 0x90 ∷ 0x90 ∷ 0xa8 ∷ 0xef ∷ 0xbf ∷ 0xbd ∷ []
unfolding to_lower
to_lower_unicode_test = refl
