-- ===== src/Build/SingBox/Inbound.antt =====
-- buildInbound and the builders of the protocols. A change of `base` in place is a function of it.
pub mod Users
use xboard_node_plus.Prelude.{
  ℕ, Str, Bool, true, false, List, [], ◌∷◌, ◌++◌, Option, none, some, if◌then◌else◌, map, str_beq,
  str_eq, lookup, codes, ◌||◌, not, is_some, nat_beq, trim_space,
}
use xboard_node_plus.Model.{NodeSpec, UserSpec}
use xboard_node_plus.Service.Core.{TlsCert}
use xboard_node_plus.Build.{
  String, M, Value, str, num, put, at, doc, table, tables, ms, texts, when,
}
use xboard_node_plus.Build.Library.{Library}
use xboard_node_plus.Build.Ss2022.{ss2022_methods, user_password}
use xboard_node_plus.Build.SingBox.Tls.{
  apply_transport, apply_multiplex, apply_proxy_protocol, build_tls_config, build_reality_config,
}
use xboard_node_plus.Build.SingBox.Fallback.{Target, build_trojan_fallback, fallback_m}

module _ (f : UserSpec → M) (users : List UserSpec) where
  abbrev put_users : M → M
  put_users = put "users" (tables (ms (map f users)))

-- if tls := ...; tls != nil { base["tls"] = tls }
abbrev pub put_tls : Option M → M → M
put_tls none base = base
put_tls (some tls) base = put "tls" (table tls) base

abbrev kind : String → M → M
kind name = put "type" (str (codes name))

-- A list of users whose entries have a name and a password.
abbrev name_password : UserSpec → M
name_password u = doc (("name", str u.uuid) ∷ ("password", str u.uuid) ∷ [])

abbrev username_password : UserSpec → M
username_password u = doc (("username", str u.uuid) ∷ ("password", str u.uuid) ∷ [])

abbrev vmess_user : UserSpec → M
vmess_user u = doc (("name", str u.uuid) ∷ ("uuid", str u.uuid) ∷ ("alterId", num 0) ∷ [])

abbrev auth_str_user : UserSpec → M
auth_str_user u = doc (("name", str u.uuid) ∷ ("auth_str", str u.uuid) ∷ [])

abbrev tuic_user : UserSpec → M
tuic_user u = doc (("name", str u.uuid) ∷ ("uuid", str u.uuid) ∷ ("password", str u.uuid) ∷ [])

abbrev naive_user : Library → UserSpec → M
naive_user lib u = doc (("username", str (lib.itoa u.id)) ∷ ("password", str u.uuid) ∷ [])

abbrev key_user : Library → Option ℕ → UserSpec → M
key_user lib size u =
    doc (("name", str u.uuid) ∷ ("password", str (user_password lib size u.uuid)) ∷ [])

abbrev flow_user : NodeSpec → UserSpec → M
flow_user nc u =
    when (not (str_beq nc.flow [])) (put "flow" (str nc.flow))
      (doc (("name", str u.uuid) ∷ ("uuid", str u.uuid) ∷ []))

module _ (lib : Library) (nc : NodeSpec) (users : List UserSpec) (tc : TlsCert) where
  -- if nc.TLS == 1 { tls := buildTLSConfig(nc, tc) ... }
  abbrev certificate_tls : M → M
  certificate_tls base = if nat_beq nc.tls 1 then put_tls (build_tls_config nc tc) base else base

  abbrev reality_tls : M → M
  reality_tls base =
      if nat_beq nc.tls 1
      then put_tls (build_tls_config nc tc) base
      else if nat_beq nc.tls 2
      then put "tls" (table (build_reality_config lib nc)) base
      else base

  abbrev apply_common : M → M
  apply_common base = apply_multiplex nc (apply_proxy_protocol nc (apply_transport nc base))

  unfoldable pub build_mieru : M → M
  build_mieru base = put_users name_password users (
      when (not (str_beq nc.traffic_pattern [])) (put "traffic_pattern" (str nc.traffic_pattern)) (
        when (not (str_beq nc.transport [])) (put "transport" (str nc.transport))
          (kind "mieru" base)))

  unfoldable pub build_shadowsocks : M → M
  build_shadowsocks base =
      let size = lookup nc.cipher ss2022_methods in
      put_users (key_user lib size) users (
        when (is_some size) (put "password" (str nc.server_key))
          (put "method" (str nc.cipher) (kind "shadowsocks" base)))

  unfoldable pub build_vmess : M → M
  build_vmess base = certificate_tls (apply_common (put_users vmess_user users (kind "vmess" base)))

  unfoldable pub build_vless : M → M
  build_vless base = reality_tls (apply_common (put_users (flow_user nc) users (kind "vless" base)))

  abbrev put_fallback : Option Target → M → M
  put_fallback none base = base
  put_fallback (some t) base = put "fallback" (table (fallback_m t)) base

  -- Without TLS so far, the certificate is used whatever nc.TLS says.
  abbrev default_tls : M → M
  default_tls base = if is_some (at "tls" base) then base else put_tls (build_tls_config nc tc) base

  unfoldable pub build_trojan : M → M
  build_trojan base = default_tls (
      reality_tls (
        put_fallback (build_trojan_fallback lib nc)
          (apply_common (put_users name_password users (kind "trojan" base)))))

  abbrev hysteria2 : M → M
  hysteria2 base =
      when (not (str_beq nc.obfs []))
        (put "obfs" (table (doc (("type", str nc.obfs) ∷ ("password", str nc.obfs_password) ∷ []))))
        (put_users name_password users (kind "hysteria2" base))

  abbrev hysteria1 : M → M
  hysteria1 base = when (not (str_beq nc.obfs [])) (put "obfs" (str nc.obfs)) (
      put "down_mbps" (num nc.down_mbps)
        (put "up_mbps" (num nc.up_mbps) (put_users auth_str_user users (kind "hysteria" base))))

  -- The protocol "h3" is offered unless the settings name another.
  abbrev quic_tls : Option M → M → M
  quic_tls none base = base
  quic_tls (some tls) base =
      put "tls"
        (table (if is_some (at "alpn" tls) then tls else put "alpn" (texts ("h3" ∷ [])) tls)) base

  unfoldable pub build_hysteria : M → M
  build_hysteria base =
      quic_tls (build_tls_config nc tc)
        (if nat_beq nc.version 2 then hysteria2 base else hysteria1 base)

  unfoldable pub build_tuic : M → M
  build_tuic base = quic_tls (build_tls_config nc tc) (
      when (not (str_beq nc.congestion_control []))
        (put "congestion_control" (str nc.congestion_control))
        (put_users tuic_user users (kind "tuic" base)))

  unfoldable pub build_anytls : M → M
  build_anytls base = put_tls (build_tls_config nc tc) (
      when (not (str_beq nc.padding_scheme [])) (put "padding_scheme" (str nc.padding_scheme))
        (put_users name_password users (kind "anytls" base)))

  unfoldable pub build_naive : M → M
  build_naive base = certificate_tls (put_users (naive_user lib) users (kind "naive" base))

  unfoldable pub build_socks : M → M
  build_socks base = put_users username_password users (kind "socks" base)

  unfoldable pub build_http : M → M
  build_http base =
      certificate_tls
        (apply_proxy_protocol nc (put_users username_password users (kind "http" base)))

  abbrev base_inbound : M
  base_inbound = doc (
      ("tag", str (nc.protocol ++ codes "-in"))
      ∷ ("listen", str (if str_beq (trim_space nc.listen_ip) [] then codes "::" else nc.listen_ip))
      ∷ ("listen_port", num nc.server_port)
      ∷ [])

  -- The switch over the protocol.
  abbrev builders : List (Str × (M → M))
  builders =
      (codes "shadowsocks", build_shadowsocks)
      ∷ (codes "vmess", build_vmess)
      ∷ (codes "vless", build_vless)
      ∷ (codes "trojan", build_trojan)
      ∷ (codes "hysteria", build_hysteria)
      ∷ (codes "tuic", build_tuic)
      ∷ (codes "anytls", build_anytls)
      ∷ (codes "naive", build_naive)
      ∷ (codes "socks", build_socks)
      ∷ (codes "http", build_http)
      ∷ (codes "mieru", build_mieru)
      ∷ []

  -- No inbound for another protocol.
  abbrev built : Option (M → M) → Option M
  built none = none
  built (some build) = some (build base_inbound)

  unfoldable pub build_inbound : Option M
  build_inbound = built (lookup nc.protocol builders)
