-- ===== src/Validation.antt =====
-- internal/model: what is refused in the specification of a node before it is used. This file holds
-- the errors, without their wording, and the names of kernels; the children hold the checks.
pub mod Kernels
pub mod Ports
pub mod Rules
pub mod Outbounds
pub mod Tags
pub mod Spec
use xboard_node_plus.Prelude.{ℕ, Str, codes, Result}

pub data Invalid : Type 0 where
  unsupported_kernel : Str → Invalid
  unsupported_transport : Str → Invalid
  match_required : ℕ → Invalid
  unsupported_matcher : ℕ → Str → Str → Invalid
  invalid_ports : ℕ → Str → Str → Invalid
  unsupported_network : ℕ → Str → Invalid
  action_type_required : ℕ → Invalid
  unsupported_action_type : ℕ → Str → Invalid
  target_required : ℕ → Invalid
  unknown_target : ℕ → Str → Invalid
  target_not_allowed : ℕ → Invalid
  tag_required : ℕ → Invalid
  protocol_required : ℕ → Invalid
  unsupported_protocol : ℕ → Str → Str → Invalid
  settings_required : ℕ → Invalid
  reserved_setting : ℕ → Str → Invalid
  blank_setting : ℕ → Str → Invalid
  invalid_server_port : ℕ → Str → Invalid
  duplicate_tag : ℕ → Str → Invalid
  blank_proxy_tag : ℕ → Invalid
  self_proxy_tag : ℕ → Invalid
  unknown_proxy_tag : ℕ → Str → Invalid
  duplicate_source_tag : Str → Invalid
  colliding_tag : ℕ → Str → Invalid
  unreadable_custom_config : Invalid

-- A check that gives nothing but an error.
abbrev pub Check : Type 0
Check = Result Invalid (Unit {0})

abbrev pub kernel_auto : Str
kernel_auto = codes "auto"

abbrev pub kernel_sing_box : Str
kernel_sing_box = codes "singbox"

abbrev pub kernel_xray : Str
kernel_xray = codes "xray"
