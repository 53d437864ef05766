-- ===== src/Build/Xray/Inbound.antt =====
-- buildInbound and the builders of the protocols. The builder of trojan changes the node that it is
-- given, so every builder gives the node with the inbound.
pub mod Users
pub mod Node
pub mod Security
use xboard_node_plus.Prelude.{
  ℕ, Str, Bool, true, false, List, [], ◌∷◌, ◌++◌, Option, none, some, if◌then◌else◌, map, str_beq,
  str_eq, lookup, codes, ◌||◌, not, is_some, nat_beq, is_pos,
}
use xboard_node_plus.Model.{NodeSpec, UserSpec}
use xboard_node_plus.Model.Values.{text}
use xboard_node_plus.Service.Core.{TlsCert}
use xboard_node_plus.Service.Core.Config.{has_cert}
use xboard_node_plus.Build.{
  M, empty, Value, raw, str, num, flag, put, at, doc, table, tables, ms, texts, when, table_of,
}
use xboard_node_plus.Build.Library.{Library}
use xboard_node_plus.Build.Settings.{get_proxy_protocol}
use xboard_node_plus.Build.Ss2022.{ss2022_methods, user_password}
use xboard_node_plus.Build.Xray.Stream.{apply_stream_settings, certificate, settings_after}
use Prim.Native.String.{String}

unfoldable pub user_email : Library → ℕ → Str
user_email lib id = codes "user@" ++ lib.itoa id

module _ (lib : Library) (nc : NodeSpec) (users : List UserSpec) (tc : TlsCert) where
  abbrev email : UserSpec → Value
  email u = str (user_email lib u.id)

  abbrev vmess_client : UserSpec → M
  vmess_client u = doc (("id", str u.uuid) ∷ ("alterId", num 0) ∷ ("email", email u) ∷ [])

  abbrev flow_client : UserSpec → M
  flow_client u =
      when (not (str_beq nc.flow [])) (put "flow" (str nc.flow))
        (doc (("id", str u.uuid) ∷ ("email", email u) ∷ []))

  abbrev password_client : UserSpec → M
  password_client u = doc (("password", str u.uuid) ∷ ("email", email u) ∷ [])

  abbrev auth_client : UserSpec → M
  auth_client u = doc (("auth", str u.uuid) ∷ ("email", email u) ∷ [])

  abbrev entries : (UserSpec → M) → Value
  entries f = tables (ms (map f users))

  abbrev put_settings : List (String × Value) → M → M
  put_settings l = put "settings" (table (doc l))

  unfoldable pub build_vmess : M → M
  build_vmess base =
      apply_stream_settings lib nc tc (put_settings (("clients", entries vmess_client) ∷ []) base)

  unfoldable pub build_vless : M → M
  build_vless base = apply_stream_settings lib nc tc (
      put_settings
        (("clients", entries flow_client)
          ∷ ("decryption", str (if str_beq nc.decryption [] then codes "none" else nc.decryption))
          ∷ [])
        base)

  -- ss["security"] is "tls" or "reality".
  abbrev is_secure : Option Value → Bool
  is_secure (some (raw (text s))) = str_beq s (codes "tls") || str_beq s (codes "reality")
  is_secure other = false

  abbrev security_of : Option M → Bool
  security_of none = false
  security_of (some ss) = is_secure (at "security" ss)

  -- nc.TLS = 1, after the first call of applyStreamSettings.
  abbrev forced : NodeSpec
  forced = record nc { tls = 1; network_settings = settings_after nc }

  -- The stream settings are made again for TLS, unless they have a security.
  abbrev secured : Bool → M → M × NodeSpec
  secured true first = (first, nc)
  secured false first = (apply_stream_settings lib forced tc first, forced)

  abbrev trojan_settings : M
  trojan_settings = doc (("clients", entries password_client) ∷ [])

  -- As the first call of applyStreamSettings leaves it.
  abbrev trojan_first : M → M
  trojan_first base = apply_stream_settings lib nc tc (put "settings" (table trojan_settings) base)

  unfoldable pub build_trojan : M → M × NodeSpec
  build_trojan base =
      secured (security_of (table_of (at "streamSettings" (trojan_first base)))) (trojan_first base)

  abbrev client_of : Option ℕ → UserSpec → M
  client_of none u =
      doc (("method", str nc.cipher) ∷ ("password", str u.uuid) ∷ ("email", email u) ∷ [])
  client_of (some size) u =
      doc (("password", str (user_password lib (some size) u.uuid)) ∷ ("email", email u) ∷ [])

  unfoldable pub build_shadowsocks : M → M
  build_shadowsocks base =
      let size = lookup nc.cipher ss2022_methods in
      put "settings"
        (table (
          when (is_some size) (put "password" (str nc.server_key)) (
            doc (
              ("method", str nc.cipher)
              ∷ ("clients", entries (client_of size))
              ∷ ("network", str (codes "tcp,udp"))
              ∷ []))))
        base

  abbrev account : UserSpec → M
  account u = doc (("user", str u.uuid) ∷ ("pass", str u.uuid) ∷ ("email", email u) ∷ [])

  unfoldable pub build_socks : M → M
  build_socks base =
      put_settings
        (("auth", str (codes "password")) ∷ ("accounts", entries account) ∷ ("udp", flag true) ∷ [])
        (put "protocol" (str (codes "socks")) base)

  unfoldable pub build_http : M → M
  build_http base =
      when (nat_beq nc.tls 1) (apply_stream_settings lib nc tc) (
        put_settings (("accounts", entries account) ∷ [])
          (put "protocol" (str (codes "http")) base))

  abbrev mbps : ℕ → Value
  mbps n = str (lib.itoa n ++ codes " mbps")

  abbrev quic_params : M
  quic_params =
      when (is_pos nc.down_mbps) (put "brutalDown" (mbps nc.down_mbps))
        (when (is_pos nc.up_mbps) (put "brutalUp" (mbps nc.up_mbps)) empty)

  abbrev hysteria_tls : M → M
  hysteria_tls ss =
      put "tlsSettings"
        (table (
          doc (
            ("certificates", tables (ms (certificate tc ∷ [])))
            ∷ ("alpn", texts ("h3" ∷ []))
            ∷ [])))
        (put "security" (str (codes "tls")) ss)

  abbrev hysteria_stream : M
  hysteria_stream =
      when (get_proxy_protocol nc)
        (put "sockopt" (table (doc (("acceptProxyProtocol", flag true) ∷ []))))
        (when (has_cert tc) hysteria_tls (
          when (is_pos nc.up_mbps || is_pos nc.down_mbps)
            (put "finalMask" (table (doc (("quicParams", table quic_params) ∷ []))))
            (doc (
              ("network", str (codes "hysteria"))
              ∷ (
                "hysteriaSettings",
                table (doc (("version", num nc.version) ∷ ("udpIdleTimeout", num 60) ∷ [])),
              )
              ∷ []))))

  -- Only version 2.
  unfoldable pub build_hysteria : M → Option M
  build_hysteria base =
      if nat_beq nc.version 2
      then some (
          put "streamSettings" (table hysteria_stream)
            (put_settings (("clients", entries auth_client) ∷ []) base))
      else none

  abbrev base_inbound : M
  base_inbound = doc (
      ("tag", str (nc.protocol ++ codes "-in"))
      ∷ ("listen", str (if str_beq nc.listen_ip [] then codes "::" else nc.listen_ip))
      ∷ ("port", num nc.server_port)
      ∷ ("protocol", str nc.protocol)
      ∷ (
        "streamSettings",
        table (doc (("sockopt", table (doc (("reusePort", flag true) ∷ []))) ∷ [])),
      )
      ∷ [])

  abbrev kept : M → Option M × NodeSpec
  kept m = (some m, nc)

  abbrev changed : M × NodeSpec → Option M × NodeSpec
  changed (m, n) = (some m, n)

  -- The switch over the protocol.
  abbrev builders : List (Str × (M → Option M × NodeSpec))
  builders =
      (codes "vmess", λ (b : M). kept (build_vmess b))
      ∷ (codes "vless", λ (b : M). kept (build_vless b))
      ∷ (codes "trojan", λ (b : M). changed (build_trojan b))
      ∷ (codes "shadowsocks", λ (b : M). kept (build_shadowsocks b))
      ∷ (codes "socks", λ (b : M). kept (build_socks b))
      ∷ (codes "http", λ (b : M). kept (build_http b))
      ∷ (codes "hysteria", λ (b : M). (build_hysteria b, nc))
      ∷ []

  abbrev built : Option (M → Option M × NodeSpec) → Option M × NodeSpec
  built none = (none, nc)
  built (some build) = build base_inbound

  unfoldable pub build_inbound : Option M × NodeSpec
  build_inbound = built (lookup nc.protocol builders)
