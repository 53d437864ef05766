-- ===== src/Validation/Outbounds/Settings.antt =====
-- The checks of one outbound in internal/model/custom_outbound_validate.go: which pass.
use xboard_node_plus.Prelude.{
  ℕ, Str, false, if◌then◌else◌, ◌++◌, List, [], ◌∷◌, none, some, ok, Map, KeySet, ◌≡◌, ◌≢◌, ◌↔◌,
  refl, arith, to_lower, codes, str_beq, >>-ok, has, lookup, map, str_eq, All, is_in, insert,
  lookup-insert, ◌||◌,
}
use xboard_node_plus.Validation.Outbounds.{
  check_reserved, check_filled, blank_value, bad_port, check_settings, validate_outbound_settings,
  reserved_keys, filled_keys, lower_set,
}
use xboard_node_plus.Model.Values.{Any, AnyMap}

-- Settings that are not empty, with no reserved key, no blank text where one is wanted, and a port
-- where one stands.
pub record IsSettings (settings : Map Str Any) : Type 0 where
  pub some_left : settings ≢ []
  pub unreserved :
      All
        (λ key. lookup key settings ≡ none)
        (codes "tag" ∷ codes "protocol" ∷ codes "proxy_tag" ∷ codes "proxyTag" ∷ [])
  pub filled :
      All
        (λ key. blank_value (lookup key settings) ≡ false)
        (codes "server"
          ∷ codes "uuid"
          ∷ codes "password"
          ∷ codes "method"
          ∷ codes "cipher"
          ∷ codes "private_key"
          ∷ codes "secret_key"
          ∷ codes "privateKey"
          ∷ codes "secretKey"
          ∷ [])
  pub port : bad_port (lookup (codes "server_port") settings) ≡ false
  pub port_alias : bad_port (lookup (codes "serverPort") settings) ≡ false

abbrev pub AreSettings : AnyMap → Type 0
AreSettings none = ⊥
AreSettings (some m) = IsSettings m

module _ (i : ℕ) (settings : Map Str Any) where
  check_reserved_iff :
      (keys : List Str)
      → (check_reserved i settings keys ≡ ok tt) ↔ All (λ key. lookup key settings ≡ none) keys
  unfolding check_reserved
  check_reserved_iff [] = ground arith
  check_reserved_iff (key ∷ l) = ground (arith, check_reserved_iff l)

  check_filled_iff :
      (keys : List Str)
      → (check_filled i settings keys ≡ ok tt)
        ↔ All (λ key. blank_value (lookup key settings) ≡ false) keys
  unfolding check_filled
  check_filled_iff [] = ground arith
  check_filled_iff (key ∷ l) = ground (arith, check_filled_iff l)

  settings_sound : settings ≢ [] → check_settings i settings ≡ ok tt → IsSettings settings
  settings_sound filled h =
      let (a, h1) = >>-ok (check_reserved i settings reserved_keys) _ h in
      let (b, h2) = >>-ok (check_filled i settings filled_keys) _ h1 in
      record {
        some_left = filled;
        unreserved = (check_reserved_iff reserved_keys).0 a;
        filled = (check_filled_iff filled_keys).0 b;
        port = ground (arith, h2);
        port_alias = ground (arith, h2);
      }

  settings_complete : IsSettings settings → check_settings i settings ≡ ok tt
  settings_complete s = rw (
    (check_reserved_iff reserved_keys).1 s.unreserved,
    (check_filled_iff filled_keys).1 s.filled,
    s.port,
    s.port_alias,
  )

pub validate_outbound_settings_iff :
    (i : ℕ) (settings : AnyMap)
    → (validate_outbound_settings i settings ≡ ok tt) ↔ AreSettings settings
unfolding validate_outbound_settings
validate_outbound_settings_iff i none = (λ h. ground arith, λ h. absurd h)
validate_outbound_settings_iff i (some []) = (λ h. ground arith, λ h. absurd (h.some_left refl))
validate_outbound_settings_iff i (some (s ∷ l)) =
    (settings_sound i (s ∷ l) (λ e. cc), settings_complete i (s ∷ l))

pub has-insert : (k x : Str) (m : KeySet Str) → has x (insert k tt m) ≡ (str_beq k x || has x m)
has-insert k x m = ground (arith, lookup-insert k x tt m)

pub has-lower_set :
    (x : Str) (l : List Str) (m : KeySet Str)
    → has x (lower_set l m) ≡ (is_in x (map to_lower l) || has x m)
has-lower_set x [] m = refl
has-lower_set x (v ∷ l) m =
    ground (arith, has-lower_set x l (insert (to_lower v) tt m), has-insert (to_lower v) x m)

-- The protocols of outbounds that both kernels have, and those of sing-box alone.
abbrev common_protocols : List Str
common_protocols =
    codes "vmess"
    ∷ codes "vless"
    ∷ codes "trojan"
    ∷ codes "shadowsocks"
    ∷ codes "socks"
    ∷ codes "http"
    ∷ codes "wireguard"
    ∷ []

abbrev sing_box_protocols : List Str
sing_box_protocols =
    codes "tuic" ∷ codes "hysteria2" ∷ codes "anytls" ∷ codes "naive" ∷ codes "mieru" ∷ []

abbrev pub protocols : Str → List Str
protocols kernel =
    if str_beq kernel (codes "xray")
    then common_protocols
    else if str_beq kernel (codes "singbox")
    then common_protocols ++ sing_box_protocols
    else []
