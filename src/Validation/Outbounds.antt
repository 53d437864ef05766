-- ===== src/Validation/Outbounds.antt =====
-- internal/model/custom_outbound_validate.go and custom_outbound_support.go: the outbounds.
pub mod Settings
pub mod Accepted
pub mod Proxies
use xboard_node_plus.Prelude.{
  ℕ, ◌+◌, ◌-◌, ◌*◌, ◌/◌, ◌%◌, ◌^◌, Str, Bool, true, false, List, [], ◌∷◌, Option, none, some,
  if◌then◌else◌, ok, err, ◌>>◌, ◌>>=◌, Map, KeySet, trim_space, to_lower, codes, str_beq, reject_if,
  not, has, insert, lookup, map, ◌&&◌, ◌||◌, Result, str_eq, ltb, leb, nat_beq, atoi, is_some,
}
use xboard_node_plus.Validation.{
  unsupported_protocol, unknown_proxy_tag, protocol_required, self_proxy_tag, invalid_server_port,
  unsupported_kernel, tag_required, blank_proxy_tag, settings_required, reserved_setting,
  duplicate_tag, blank_setting, Invalid, Check,
}
use xboard_node_plus.Validation.Ports.{port_of}
use xboard_node_plus.Model.Values.{null, obj, arr, text, float, int, bool, Any, AnyMap, items}
use xboard_node_plus.Model.{OutboundConfig}

pub record KernelOutboundSupport : Type 0 where
  pub protocols : List Str
  pub features : List Str

abbrev xray_protocols : List Str
xray_protocols =
    codes "vmess"
    ∷ codes "vless"
    ∷ codes "trojan"
    ∷ codes "shadowsocks"
    ∷ codes "socks"
    ∷ codes "http"
    ∷ codes "wireguard"
    ∷ []

abbrev singbox_protocols : List Str
singbox_protocols =
    codes "vmess"
    ∷ codes "vless"
    ∷ codes "trojan"
    ∷ codes "shadowsocks"
    ∷ codes "socks"
    ∷ codes "http"
    ∷ codes "wireguard"
    ∷ codes "tuic"
    ∷ codes "hysteria2"
    ∷ codes "anytls"
    ∷ codes "naive"
    ∷ codes "mieru"
    ∷ []

abbrev every_feature : List Str
every_feature = codes "tag" ∷ codes "protocol" ∷ codes "settings" ∷ codes "proxy_tag" ∷ []

abbrev pub outbound_support_matrix : Map Str KernelOutboundSupport
outbound_support_matrix =
    (codes "xray", record { protocols = xray_protocols; features = every_feature })
    ∷ (codes "singbox", record { protocols = singbox_protocols; features = every_feature })
    ∷ []

-- The float64 with these bits, when it is a port. From 1 to 65535 the biased exponent is 1023 to
-- 1038; other numbers, infinities and NaN are refused in one way or another.
unfoldable pub float_port : ℕ → Option ℕ
float_port b =
    let e = (b / 2 ^ 52) % 2 ^ 11 in
    let m = 2 ^ 52 + b % 2 ^ 52 in
    let unit = 2 ^ (1075 - e) in
    if not (nat_beq (b / 2 ^ 63) 0) || ltb e 1023 || ltb 1038 e
    then none
    else if nat_beq (m % unit) 0
    then some (m / unit)
    else none

-- asPort: `none` is an error. An int is a 64-bit pattern, so a negative one is above 65535.
abbrev pub as_port : Any → Option ℕ
as_port null = none
as_port (bool b) = none
as_port (int v) = if ltb v 1 || ltb 65535 v then none else some v
as_port (float b) = float_port b
as_port (text s) = port_of (atoi (trim_space s))
as_port (arr l) = none
as_port (obj m) = none

-- strings.TrimSpace(fmt.Sprintf("%v", value)) == "": only a string prints as blank.
abbrev prints_blank : Any → Bool
prints_blank null = false
prints_blank (bool b) = false
prints_blank (int v) = false
prints_blank (float b) = false
prints_blank (text s) = str_beq (trim_space s) []
prints_blank (arr l) = false
prints_blank (obj m) = false

abbrev pub reserved_keys : List Str
reserved_keys = codes "tag" ∷ codes "protocol" ∷ codes "proxy_tag" ∷ codes "proxyTag" ∷ []

abbrev pub filled_keys : List Str
filled_keys =
    codes "server"
    ∷ codes "uuid"
    ∷ codes "password"
    ∷ codes "method"
    ∷ codes "cipher"
    ∷ codes "private_key"
    ∷ codes "secret_key"
    ∷ codes "privateKey"
    ∷ codes "secretKey"
    ∷ []

unfoldable pub check_reserved : ℕ → Map Str Any → List Str → Check
check_reserved i settings [] = ok tt
check_reserved i settings (key ∷ l) =
    (reject_if (has key settings) (reserved_setting i key) >> check_reserved i settings l)

abbrev pub blank_value : Option Any → Bool
blank_value none = false
blank_value (some v) = prints_blank v

unfoldable pub check_filled : ℕ → Map Str Any → List Str → Check
check_filled i settings [] = ok tt
check_filled i settings (key ∷ l) =
    (reject_if (blank_value (lookup key settings)) (blank_setting i key)
      >> check_filled i settings l)

abbrev pub bad_port : Option Any → Bool
bad_port none = false
bad_port (some v) = not (is_some (as_port v))

abbrev pub check_settings : ℕ → Map Str Any → Check
check_settings i settings = do
  check_reserved i settings reserved_keys
  check_filled i settings filled_keys
  reject_if (bad_port (lookup (codes "server_port") settings))
      (invalid_server_port i (codes "server_port"))
  reject_if (bad_port (lookup (codes "serverPort") settings))
      (invalid_server_port i (codes "serverPort"))

unfoldable pub validate_outbound_settings : ℕ → AnyMap → Check
validate_outbound_settings i none = err (settings_required i)
validate_outbound_settings i (some []) = err (settings_required i)
validate_outbound_settings i (some (s ∷ l)) = check_settings i (s ∷ l)

-- The key of a tag: strings.ToLower(strings.TrimSpace(tag))
abbrev pub tag_key : Str → Str
tag_key tag = to_lower (trim_space tag)

-- The protocols of a kernel: `none` allows all.
abbrev pub is_allowed : Option (KeySet Str) → Str → Bool
is_allowed none protocol = true
is_allowed (some allowed) protocol = has protocol allowed

-- The checks of one outbound in the first loop, but for that of a repeated tag.
unfoldable pub check_outbound : ℕ → Str → Option (KeySet Str) → OutboundConfig → Check
check_outbound i kernel allowed o = do
  let protocol = to_lower (trim_space o.protocol)
  reject_if (str_beq (trim_space o.tag) []) (tag_required i)
  reject_if (str_beq protocol []) (protocol_required i)
  reject_if (not (is_allowed allowed protocol)) (unsupported_protocol i o.protocol kernel)
  validate_outbound_settings i o.settings

-- The first loop: it leaves the set of the tags that are available.
unfoldable pub check_outbounds :
    ℕ
    → Str
    → Option (KeySet Str)
    → KeySet Str
    → KeySet Str
    → List OutboundConfig
    → Result Invalid (KeySet Str)
check_outbounds i kernel allowed seen available [] = ok available
check_outbounds i kernel allowed seen available (o ∷ l) = do
  let key = to_lower (trim_space o.tag)
  check_outbound i kernel allowed o
  reject_if (has key seen) (duplicate_tag i (trim_space o.tag))
  check_outbounds (i + 1) kernel allowed (insert key tt seen) (insert key tt available) l

-- One round of the second loop.
unfoldable pub check_proxy : ℕ → KeySet Str → OutboundConfig → Check
check_proxy i available o =
    let proxy_tag = to_lower (trim_space o.proxy_tag) in
    if str_beq o.proxy_tag []
    then ok tt
    else (reject_if (str_beq proxy_tag []) (blank_proxy_tag i)
        >> reject_if (str_beq proxy_tag (to_lower (trim_space o.tag))) (self_proxy_tag i)
        >> reject_if (not (has proxy_tag available)) (unknown_proxy_tag i o.proxy_tag))

unfoldable pub check_proxies : ℕ → KeySet Str → List OutboundConfig → Check
check_proxies i available [] = ok tt
check_proxies i available (o ∷ l) = (check_proxy i available o >> check_proxies (i + 1) available l)

-- The keys of the tags that are not blank, added to a set.
unfoldable pub add_tags : List Str → KeySet Str → KeySet Str
add_tags [] m = m
add_tags (tag ∷ l) m =
    let key = to_lower (trim_space tag) in
    add_tags l (if str_beq key [] then m else insert key tt m)

abbrev pub built_in_tags : KeySet Str
built_in_tags = (codes "direct", tt) ∷ (codes "block", tt) ∷ []

abbrev lower_set : List Str → KeySet Str → KeySet Str
lower_set [] m = m
lower_set (v ∷ l) m = lower_set l (insert (to_lower v) tt m)

abbrev protocols_of : Str → Result Invalid (Option (KeySet Str))
protocols_of [] = ok none
protocols_of (c ∷ name) = elim (lookup (c ∷ name) outbound_support_matrix) [
  | none ↦ err (unsupported_kernel (c ∷ name))
  | some s ↦ ok (some (lower_set s.protocols []))
]

unfoldable pub validate_custom_outbounds_for_kernel : List OutboundConfig → Str → List Str → Check
validate_custom_outbounds_for_kernel [] kernel additional = ok tt
validate_custom_outbounds_for_kernel (o ∷ l) kernel additional = do
  let name = to_lower (trim_space kernel)
  allowed ← protocols_of name
  available ← check_outbounds 0 name allowed [] (add_tags additional built_in_tags) (o ∷ l)
  check_proxies 0 available (o ∷ l)

unfoldable pub validate_custom_outbounds : List OutboundConfig → Check
validate_custom_outbounds l = validate_custom_outbounds_for_kernel l [] []
