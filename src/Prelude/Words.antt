-- ===== src/Prelude/Words.antt =====
-- Go's `int` and `int64` as 64-bit patterns, in two's complement: the pattern of -n is 2^64 - n.
-- `int` has 64 bits on the platforms that the program is built for.
use Prim.Native.Nat.{◌/◌, ℕ, ◌+◌, ◌-◌, ◌%◌, ◌^◌}
use mathlib.Core.Bool.{Bool, ◌&&◌}
use xboard_node_plus.Prelude.Tests.{ltb, leb, if◌then◌else◌}

abbrev pub word : ℕ
word = 2 ^ 64

abbrev pub half_word : ℕ
half_word = 2 ^ 63

abbrev pub add64 : ℕ → ℕ → ℕ
add64 a b = (a + b) % word

abbrev pub sub64 : ℕ → ℕ → ℕ
sub64 a b = (a + word - b) % word

-- a < 0 and a > 0, for a pattern
abbrev pub is_neg : ℕ → Bool
is_neg a = leb half_word a

abbrev pub is_pos : ℕ → Bool
is_pos a = ltb 0 a && ltb a half_word

-- a / d for a positive constant d: Go truncates towards 0.
abbrev pub sdiv64 : ℕ → ℕ → ℕ
sdiv64 a d = if is_neg a then (word - (word - a) / d) % word else a / d
