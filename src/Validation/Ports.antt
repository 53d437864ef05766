-- ===== src/Validation/Ports.antt =====
-- internal/model/custom_route_validate.go: the ports and networks of a route rule.
pub mod Accepted
use xboard_node_plus.Prelude.{
  ℕ, Str, Bool, true, false, List, [], ◌∷◌, Option, none, some, ltb, leb, if◌then◌else◌, ok, err,
  ◌>>◌, trim_space, to_lower, codes, contains_byte, split, atoi, pos, negsuc, ℤ, ◌&&◌, ◌||◌,
  str_beq, reject_if, not,
}
use xboard_node_plus.Validation.{invalid_ports, unsupported_network, Invalid, Check}

-- 1 to 65535
abbrev pub port_of : Option ℤ → Option ℕ
port_of none = none
port_of (some (negsuc n)) = none
port_of (some (pos n)) = if ltb n 1 || ltb 65535 n then none else some n

abbrev range_ends : Option ℕ → Option ℕ → Bool
range_ends (some low) (some high) = not (ltb high low)
range_ends (some low) none = false
range_ends none high = false

abbrev range_parts : List Str → Bool
range_parts [] = false
range_parts (a ∷ []) = false
range_parts (a ∷ b ∷ []) =
    range_ends (port_of (atoi (trim_space a))) (port_of (atoi (trim_space b)))
range_parts (a ∷ b ∷ c ∷ l) = false

abbrev is_port : Option ℕ → Bool
is_port none = false
is_port (some n) = true

-- One value that is trimmed and not blank.
unfoldable pub accepts_port : Str → Bool
accepts_port value =
    if contains_byte b'-' value || contains_byte b':' value
    then range_parts (split (if contains_byte b':' value then b':' else b'-') value)
    else is_port (port_of (atoi value))

abbrev blank : Str → Bool
blank [] = true
blank (c ∷ s) = false

unfoldable pub validate_port_specs : ℕ → Str → List Str → Check
validate_port_specs i name [] = ok tt
validate_port_specs i name (v ∷ values) =
    let rest = validate_port_specs i name values in
    let value = trim_space v in
    if blank value
    then rest
    else if accepts_port value
    then rest
    else err (invalid_ports i name value)

unfoldable pub validate_networks : ℕ → List Str → Check
validate_networks i [] = ok tt
validate_networks i (v ∷ values) =
    let rest = validate_networks i values in
    let value = to_lower (trim_space v) in
    if blank value
    then rest
    else if not (str_beq value (codes "tcp")) && not (str_beq value (codes "udp"))
    then err (unsupported_network i value)
    else rest
