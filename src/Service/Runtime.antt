-- ===== src/Service/Runtime.antt =====
-- internal/service/service.go: whether a configuration can run on a kernel. The protocols of the
-- kernel and the table of DNS providers are parameters.
use xboard_node_plus.Prelude.{
  Str, Bool, true, false, List, [], Option, none, some, Result, ok, err, ◌>>◌, reject_if, str_beq,
  str_eq, nat_beq, not, ◌&&◌, ◌||◌, codes, to_lower, trim_space, any, if◌then◌else◌, lookup, Map,
}
use xboard_node_plus.Model.Values.{Any, null, bool, int, float, text, arr, obj}
use xboard_node_plus.Model.{NodeSpec, CertConfig}

pub data Unfit : Type 0 where
  no_spec : Unfit
  no_kernel : Unfit
  unsupported_protocol : Str → Unfit
  certificate_required : Str → Unfit
  no_dns_provider : Unfit
  unsupported_dns_provider : Str → Unfit
  no_tls_settings : Unfit
  no_private_key : Unfit
  no_server_name : Unfit

abbrev pub Check : Type 0
Check = Result Unfit (Unit {0})

abbrev pub contains_string : List Str → Str → Bool
contains_string l s = any (λ t. str_beq t s) l

abbrev string_value : Option Any → Str
string_value none = []
string_value (some null) = []
string_value (some (bool b)) = []
string_value (some (int n)) = []
string_value (some (float b)) = []
string_value (some (text s)) = s
string_value (some (arr l)) = []
string_value (some (obj m)) = []

abbrev pub blank : Str → Bool
blank s = str_beq (trim_space s) []

abbrev pub setting : Str → Map Str Any → Str
setting key m = string_value (lookup key m)

abbrev reality_settings : Map Str Any → Check
reality_settings m = do
  reject_if (blank (setting (codes "private_key") m)) no_private_key
  reject_if (blank (setting (codes "server_name") m) && blank (setting (codes "dest") m))
      no_server_name

unfoldable pub validate_reality_requirements : NodeSpec → Check
validate_reality_requirements n = elim n.tls_settings [
  | none ↦ err no_tls_settings
  | some m ↦ reality_settings m
]

-- By the certificate mode, in lower case and without spaces around it.
abbrev usable_mode : Str → CertConfig → Bool
usable_mode mode c =
    if str_beq mode (codes "self")
    then true
    else if str_beq mode (codes "content")
    then not (blank c.cert_content) && not (blank c.key_content)
    else if str_beq mode (codes "file")
    then not (blank c.cert_file) && not (blank c.key_file)
    else if str_beq mode (codes "http")
    then not (blank c.domain)
    else if str_beq mode (codes "dns")
    then not (blank c.domain) && not (blank c.dns_provider)
    else false

abbrev pub mode_of : CertConfig → Str
mode_of c = to_lower (trim_space c.cert_mode)

unfoldable pub has_usable_tls_config : NodeSpec → Bool → Bool
has_usable_tls_config n has_cert =
    if has_cert
    then true
    else elim n.cert_config [ none ↦ false | some c ↦ usable_mode (mode_of c) c ]

unfoldable pub needs_cert : NodeSpec → Bool
needs_cert n =
    if str_beq n.protocol (codes "hysteria")
      || str_beq n.protocol (codes "hysteria2")
      || str_beq n.protocol (codes "tuic")
      || str_beq n.protocol (codes "anytls")
    then true
    else str_beq n.protocol (codes "trojan") && not (nat_beq n.tls 2)

unfoldable pub validate_tls_requirements : NodeSpec → Bool → Check
unfolding has_usable_tls_config needs_cert validate_reality_requirements
validate_tls_requirements n has_cert = do
  reject_if (needs_cert n && not (has_usable_tls_config n has_cert))
      (certificate_required n.protocol)
  if nat_beq n.tls 2 then validate_reality_requirements n else ok tt

module _ (knows_dns_provider : Str → Bool) where
  abbrev dns_config : CertConfig → Check
  dns_config c =
      if not (str_beq (mode_of c) (codes "dns"))
      then ok tt
      else (reject_if (blank c.dns_provider) no_dns_provider
          >> reject_if (not (knows_dns_provider (trim_space c.dns_provider)))
              (unsupported_dns_provider (trim_space c.dns_provider)))

  unfoldable pub validate_runtime_cert_config : NodeSpec → Check
  validate_runtime_cert_config n = elim n.cert_config [ none ↦ ok tt | some c ↦ dns_config c ]

  unfoldable pub validate_node_runtime : List Str → Option NodeSpec → Bool → Check
  unfolding validate_tls_requirements validate_runtime_cert_config
  validate_node_runtime supported none has_cert = err no_spec
  validate_node_runtime supported (some n) has_cert = do
    reject_if (not (contains_string supported n.protocol)) (unsupported_protocol n.protocol)
    validate_tls_requirements n has_cert
    validate_runtime_cert_config n
