-- ===== src/Validation/Ports/Accepted.antt =====
-- validatePortSpecs of internal/model/custom_route_validate.go: which texts name ports.
use xboard_node_plus.Prelude.{
  contains-at, negsuc, ℕ, Str, true, false, List, [], ◌∷◌, ◌++◌, Option, none, some, ◌≤◌, ◌≡◌, ◌⊎◌,
  ◌↔◌, inl, inr, refl, arith, trim_space, contains_byte, split, split-two, split-at, atoi, pos, ok,
  All, Bool-cases, ℤ,
}
use mathlib.Core.Path.{subst}
use xboard_node_plus.Validation.Ports.{
  is_port, range_ends, accepts_port, validate_port_specs, port_of, range_parts,
}

-- One number.
abbrev pub Single : Str → ℕ → ℕ → Type 0
Single v low high =
    (contains_byte b'-' v ≡ false)
    × (contains_byte b':' v ≡ false)
    × (atoi v ≡ some (pos low))
    × (high ≡ low)

-- Two numbers around the one separator.
pub record Around (sep : ℕ) (v : Str) (low high : ℕ) : Type 0 where
  before : Str
  after : Str
  parts : v ≡ before ++ (sep ∷ after)
  one_left : contains_byte sep before ≡ false
  one_right : contains_byte sep after ≡ false
  first : atoi (trim_space before) ≡ some (pos low)
  last : atoi (trim_space after) ≡ some (pos high)

-- The text v stands for the ports from low to high.
abbrev pub Denotes : Str → ℕ → ℕ → Type 0
Denotes v low high =
    Single v low high
    ⊎ (Around b':' v low high
        ⊎ ((contains_byte b':' v ≡ false) × (contains_byte b'-' v ≡ true) × Around b'-' v low high))

abbrev pub Bounded : ℕ → ℕ → Type 0
Bounded low high = (1 ≤ low) × (low ≤ high) × (high ≤ 65535)

abbrev pub IsPortSpec : Str → Type 0
IsPortSpec v = (low : ℕ) × (high : ℕ) × Denotes v low high × Bounded low high

range_ends-ports :
    (o p : Option ℤ)
    → range_ends (port_of o) (port_of p) ≡ true
    → (low : ℕ) × (high : ℕ) × (o ≡ some (pos low)) × (p ≡ some (pos high)) × Bounded low high
range_ends-ports none p h = cc
range_ends-ports (some (negsuc m)) p h = cc
range_ends-ports (some (pos m)) none h = ground arith
range_ends-ports (some (pos m)) (some (negsuc n)) h = ground arith
range_ends-ports (some (pos m)) (some (pos n)) h = (m, n, refl, refl, ground arith)

range_ends-of :
    (low high : ℕ)
    → Bounded low high
    → range_ends (port_of (some (pos low))) (port_of (some (pos high))) ≡ true
range_ends-of low high h = ground arith

range_parts-two : (l : List Str) → range_parts l ≡ true → (a : Str) × (b : Str) × (l ≡ a ∷ b ∷ [])
range_parts-two [] h = cc
range_parts-two (a ∷ []) h = cc
range_parts-two (a ∷ b ∷ []) h = (a, b, refl)
range_parts-two (a ∷ b ∷ c ∷ l) h = cc

is_port-single :
    (o : Option ℤ)
    → is_port (port_of o) ≡ true
    → (n : ℕ) × (o ≡ some (pos n)) × (1 ≤ n) × (n ≤ 65535)
is_port-single none h = cc
is_port-single (some (negsuc m)) h = cc
is_port-single (some (pos m)) h =
    let bounds : (1 ≤ m) × (m ≤ 65535) = ground arith in (m, refl, bounds.0, bounds.1)

-- What the split at one separator accepts.
module _ (sep : ℕ) (v : Str) where
  split-Around :
      range_parts (split sep v) ≡ true
      → (low : ℕ) × (high : ℕ) × Around sep v low high × Bounded low high
  split-Around h =
      let (a, b, e) = range_parts-two (split sep v) h in
      let (p, l, r) = split-two sep v a b e in
      let (low, high, f, g, bounds) =
        range_ends-ports (atoi (trim_space a)) (atoi (trim_space b))
          (subst (λ l. range_parts l ≡ true) e h) in
      (
        low,
        high,
        record {
          before = a;
          after = b;
          parts = p;
          one_left = l;
          one_right = r;
          first = f;
          last = g;
        },
        bounds,
      )

  Around-split :
      {low high : ℕ} → Around sep v low high → Bounded low high → range_parts (split sep v) ≡ true
  Around-split {low = low} {high = high} a bounds =
      rw (a.parts, split-at sep a.before a.after a.one_left a.one_right, a.first, a.last)
        (range_ends-of low high bounds)

accepts_port_sound : (v : Str) → accepts_port v ≡ true → IsPortSpec v
unfolding accepts_port
accepts_port_sound v h = elim (Bool-cases (contains_byte b':' v)) [
  | inl colon ↦
      let (low, high, a, b) = split-Around b':' v (ground (arith, h, colon)) in
      (low, high, inr (inl a), b)
  | inr no_colon ↦ elim (Bool-cases (contains_byte b'-' v)) [
    | inl dash ↦
        let (low, high, a, b) = split-Around b'-' v (ground (arith, h, no_colon, dash)) in
        (low, high, inr (inr (no_colon, dash, a)), b)
    | inr no_dash ↦
        let (n, e, l, u) = is_port-single (atoi v) (ground (arith, h, no_colon, no_dash)) in
        (n, n, inl (no_dash, no_colon, e, refl), omega (arith, l, u))
  ]
]

accepts_port_complete : (v : Str) → IsPortSpec v → accepts_port v ≡ true
unfolding accepts_port
accepts_port_complete v (low, high, inl (no_dash, no_colon, e, same), b) =
    ground (arith, no_dash, no_colon, e, same, b)
accepts_port_complete v (low, high, inr (inl a), b) =
    let colon : contains_byte b':' v ≡ true = rw (a.parts) (contains-at b':' a.before a.after) in
    ground (arith, Around-split b':' v a b, colon)
accepts_port_complete v (low, high, inr (inr (no_colon, dash, a)), b) =
    ground (arith, Around-split b'-' v a b, no_colon, dash)

-- The reference: every value that is not blank is a port or a range of ports.
abbrev pub NamesPorts : Str → Type 0
NamesPorts v = (trim_space v ≡ []) ⊎ IsPortSpec (trim_space v)

value-cases :
    (i : ℕ) (name v : Str) (values : List Str)
    → validate_port_specs i name (v ∷ values) ≡ ok tt
    → ((trim_space v ≡ []) ⊎ (accepts_port (trim_space v) ≡ true))
      × (validate_port_specs i name values ≡ ok tt)
unfolding validate_port_specs
value-cases i name v values h = ground arith

value-accepted :
    (i : ℕ) (name v : Str) (values : List Str)
    → (trim_space v ≡ []) ⊎ (accepts_port (trim_space v) ≡ true)
    → validate_port_specs i name values ≡ ok tt
    → validate_port_specs i name (v ∷ values) ≡ ok tt
unfolding validate_port_specs
value-accepted i name v values one rest = ground arith

none-accepted : (i : ℕ) (name : Str) → validate_port_specs i name [] ≡ ok tt
unfolding validate_port_specs
none-accepted i name = refl

-- validatePortSpecs returns no error exactly when every value, without the spaces around it, is
-- empty, a decimal number from 1 to 65535, or two such numbers in order around one separator, which
-- is a colon, or a hyphen where there is no colon.
pub validate_port_specs_iff :
    (i : ℕ) (name : Str) (values : List Str)
    → (validate_port_specs i name values ≡ ok tt) ↔ All NamesPorts values
validate_port_specs_iff i name values = (sound values, complete values)
  where
    sound : (values : List Str) → validate_port_specs i name values ≡ ok tt → All NamesPorts values
    sound [] h = tt
    sound (v ∷ l) h =
        let (one, rest) = value-cases i name v l h in
        (elim one [ inl e ↦ inl e | inr e ↦ inr (accepts_port_sound _ e) ], sound l rest)

    complete :
        (values : List Str) → All NamesPorts values → validate_port_specs i name values ≡ ok tt
    complete [] h = none-accepted i name
    complete (v ∷ l) (inl e, rest) = value-accepted i name v l (inl e) (complete l rest)
    complete (v ∷ l) (inr e, rest) =
        value-accepted i name v l (inr (accepts_port_complete _ e)) (complete l rest)
