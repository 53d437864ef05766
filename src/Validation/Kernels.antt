-- ===== src/Validation/Kernels.antt =====
-- internal/model/validate.go: which kernel serves a node, and which transports it supports.
pub mod Choice
pub mod Chosen
use xboard_node_plus.Prelude.{
  Str, Option, none, some, Bool, true, false, Map, lookup, or_else, if◌then◌else◌, ok, err,
  trim_space, to_lower, codes, ◌>>=◌, [], ◌∷◌, ◌&&◌, ◌||◌, str_beq, str_eq, Result,
}
use xboard_node_plus.Validation.{
  unsupported_kernel, unsupported_transport, Invalid, Check, kernel_auto, kernel_sing_box,
  kernel_xray,
}
use xboard_node_plus.Model.{NodeSpec}

abbrev pub singbox_unsupported_transports : Map Str Bool
singbox_unsupported_transports = (codes "xhttp", true) ∷ (codes "splithttp", true) ∷ []

-- singboxUnsupportedTransports[strings.ToLower(strings.TrimSpace(network))]
abbrev pub needs_xray : Str → Bool
needs_xray network =
    or_else (lookup (to_lower (trim_space network)) singbox_unsupported_transports) false

unfoldable pub validate_transport_kernel : Str → Str → Check
validate_transport_kernel network kernel_type =
    if str_beq kernel_type kernel_sing_box && needs_xray network
    then err (unsupported_transport (to_lower (trim_space network)))
    else ok tt

unfoldable pub normalize_kernel_type : Str → Result Invalid Str
normalize_kernel_type value =
    let name = to_lower (trim_space value) in
    if str_beq name kernel_auto
    then ok kernel_auto
    else if str_beq name kernel_sing_box || str_beq name (codes "sing-box")
    then ok kernel_sing_box
    else if str_beq name kernel_xray
    then ok kernel_xray
    else err (unsupported_kernel value)

-- value, or d when value is empty
abbrev non_empty_or : Str → Str → Str
non_empty_or [] d = d
non_empty_or (c ∷ s) d = c ∷ s

-- The kernel of a node that is given: "" when there is none.
abbrev kernel_of : Option NodeSpec → Str
kernel_of none = []
kernel_of (some n) = trim_space n.kernel_type

abbrev node_needs_xray : Option NodeSpec → Bool
node_needs_xray none = false
node_needs_xray (some n) = needs_xray n.network

unfoldable pub resolve_effective_kernel_type : Option NodeSpec → Str → Result Invalid Str
resolve_effective_kernel_type n configured = do
  let value = non_empty_or (non_empty_or (trim_space configured) (kernel_of n)) kernel_auto
  kernel_type ← normalize_kernel_type value
  if str_beq kernel_type kernel_auto
      then if node_needs_xray n then ok kernel_xray else ok kernel_sing_box
      else ok kernel_type

abbrev for_transport : Bool → Str → Result Invalid Str → Str
for_transport unsupported configured (err e) = configured
for_transport unsupported configured (ok kernel_type) =
    if str_beq kernel_type kernel_auto
    then if unsupported then kernel_xray else kernel_sing_box
    else if str_beq kernel_type kernel_sing_box && unsupported
    then kernel_xray
    else kernel_type

unfoldable pub resolve_kernel_for_transport : Str → Str → Str
resolve_kernel_for_transport network configured =
    for_transport (needs_xray network) configured (normalize_kernel_type configured)
