-- ===== src/Build/SingBox/Inbound/Users.antt =====
-- The users of a sing-box inbound.
use xboard_node_plus.Prelude.{
  ◌≡◌, refl, ◌∙◌, true, false, Str, List, [], ◌∷◌, Option, none, some, map, if◌then◌else◌, str_beq,
  str_eq, lookup, codes, All, Bool-cases, inl, inr, not, ◌&&◌, is_some, nat_beq,
}
use xboard_node_plus.Model.{NodeSpec, UserSpec}
use xboard_node_plus.Service.Core.{TlsCert}
use xboard_node_plus.Build.{get, M, str, at, tables, ms, table}
use xboard_node_plus.Build.Fields.{at-when, at-put, at-put_same, lookup-All}
use xboard_node_plus.Build.Library.{Library}
use xboard_node_plus.Build.Ss2022.{ss2022_methods}
use xboard_node_plus.Build.SingBox.Tls.{apply_transport, apply_proxy_protocol, build_tls_config}
use xboard_node_plus.Build.SingBox.Fallback.{Target, build_trojan_fallback}
use xboard_node_plus.Build.SingBox.Tls.Kept.{at-apply_transport, at-apply_multiplex}
use xboard_node_plus.Build.SingBox.Inbound.{
  base_inbound, built, auth_str_user, username_password, vmess_user, tuic_user, key_user,
  name_password, naive_user, flow_user, certificate_tls, reality_tls, apply_common, put_fallback,
  default_tls, quic_tls, build_inbound, build_mieru, build_shadowsocks, build_vmess, build_vless,
  build_trojan, build_hysteria, build_tuic, build_anytls, build_naive, build_socks, build_http,
  builders, put_tls,
}
use mathlib.Core.Path.{subst}
use mathlib.Core.Option.{some-injective}
use xboard_node_plus.Build.Credentials.{is_one_of, secret, map-map}
use Prim.Native.String.{String}

-- The field of an entry that names the user, and what it holds.
abbrev pub name_key : Str → String
name_key protocol =
    if is_one_of protocol ("naive" ∷ "socks" ∷ "http" ∷ []) then "username" else "name"

abbrev pub name_of : Library → Str → UserSpec → Str
name_of lib protocol u = if is_one_of protocol ("naive" ∷ []) then lib.itoa u.id else u.uuid

-- The field that holds the user's secret.
abbrev pub secret_key : NodeSpec → Str → String
secret_key nc protocol =
    if is_one_of protocol ("vmess" ∷ "vless" ∷ [])
    then "uuid"
    else if is_one_of protocol ("hysteria" ∷ []) && not (nat_beq nc.version 2)
    then "auth_str"
    else "password"

module _ (lib : Library) (nc : NodeSpec) where
  -- A function that makes the entry of a user from the protocol.
  abbrev NamesUser : Str → (UserSpec → M) → Type 0
  NamesUser protocol f =
      ((u : UserSpec) → at (name_key protocol) (f u) ≡ some (str (name_of lib protocol u)))
      × ((u : UserSpec) → at (secret_key nc protocol) (f u) ≡ some (str (secret lib nc protocol u)))

  names_users :
      NamesUser (codes "mieru") name_password
      × NamesUser (codes "shadowsocks") (key_user lib (lookup nc.cipher ss2022_methods))
      × NamesUser (codes "vmess") vmess_user
      × NamesUser (codes "trojan") name_password
      × NamesUser (codes "tuic") tuic_user
      × NamesUser (codes "anytls") name_password
      × NamesUser (codes "naive") (naive_user lib)
      × NamesUser (codes "socks") username_password
      × NamesUser (codes "http") username_password
  unfolding get str_beq
  names_users = (
    (λ u. refl, λ u. refl),
    (λ u. refl, λ u. refl),
    (λ u. refl, λ u. refl),
    (λ u. refl, λ u. refl),
    (λ u. refl, λ u. refl),
    (λ u. refl, λ u. refl),
    (λ u. refl, λ u. refl),
    (λ u. refl, λ u. refl),
    (λ u. refl, λ u. refl),
  )

  vless-NamesUser : NamesUser (codes "vless") (flow_user nc)
  unfolding get str_beq
  vless-NamesUser = (
    λ u. at-when "flow" "name" (not (str_beq nc.flow [])) _ _ refl,
    λ u. at-when "flow" "uuid" (not (str_beq nc.flow [])) _ _ refl,
  )

  hysteria2-NamesUser : nat_beq nc.version 2 ≡ true → NamesUser (codes "hysteria") name_password
  unfolding get str_beq
  hysteria2-NamesUser e = (λ u. refl, λ u. rw e refl)

  hysteria1-NamesUser : nat_beq nc.version 2 ≡ false → NamesUser (codes "hysteria") auth_str_user
  unfolding get str_beq
  hysteria1-NamesUser e = (λ u. refl, λ u. rw e refl)

module _ (lib : Library) (nc : NodeSpec) (users : List UserSpec) where
  -- An inbound with one entry for each user, in order.
  pub record ServesUsers (protocol : Str) (inbound : M) : Type 0 where
    pub entries : List M
    pub listed : at "users" inbound ≡ some (tables (ms entries))
    pub names :
        map (at (name_key protocol)) entries ≡ map (λ u. some (str (name_of lib protocol u))) users
    pub secrets :
        map (at (secret_key nc protocol)) entries
        ≡ map (λ u. some (str (secret lib nc protocol u))) users

  -- A list that a function of the user makes.
  serves :
      (protocol : Str) (f : UserSpec → M) (m : M)
      → NamesUser lib nc protocol f
      → at "users" m ≡ some (tables (ms (map f users)))
      → ServesUsers protocol m
  serves protocol f m (names, secrets) listed = record {
    entries = map f users;
    listed = listed;
    names = map-map f _ _ names users;
    secrets = map-map f _ _ secrets users;
  }

module _ (lib : Library) (nc : NodeSpec) (users : List UserSpec) (tc : TlsCert) where
  users-put_tls : (o : Option M) (m : M) → at "users" (put_tls o m) ≡ at "users" m
  unfolding str_beq
  users-put_tls none m = refl
  users-put_tls (some t) m = at-put "tls" "users" (table t) m refl

  users-certificate : (m : M) → at "users" (certificate_tls lib nc users tc m) ≡ at "users" m
  users-certificate m = elim (Bool-cases (nat_beq nc.tls 1)) [
    | inl yes_tls ↦ rw yes_tls (users-put_tls (build_tls_config nc tc) m)
    | inr no_tls ↦ rw no_tls refl
  ]

  users-reality : (m : M) → at "users" (reality_tls lib nc users tc m) ≡ at "users" m
  unfolding str_beq
  users-reality m = elim (Bool-cases (nat_beq nc.tls 1)) [
    | inl yes_tls ↦ rw yes_tls (users-put_tls (build_tls_config nc tc) m)
    | inr no_tls ↦ rw no_tls (elim (Bool-cases (nat_beq nc.tls 2)) [
      | inl reality ↦ rw reality (at-put "tls" "users" _ m refl)
      | inr plain ↦ rw plain refl
    ])
  ]

  users-common : (m : M) → at "users" (apply_common lib nc users tc m) ≡ at "users" m
  unfolding apply_proxy_protocol str_beq
  users-common m =
      at-apply_multiplex "users" (apply_transport nc m) refl nc
      ∙ at-apply_transport "users" nc m refl

  users-put_fallback :
      (o : Option Target) (m : M) → at "users" (put_fallback lib nc users tc o m) ≡ at "users" m
  unfolding str_beq
  users-put_fallback none m = refl
  users-put_fallback (some t) m = at-put "fallback" "users" _ m refl

  users-default : (m : M) → at "users" (default_tls lib nc users tc m) ≡ at "users" m
  users-default m = elim (Bool-cases (is_some (at "tls" m))) [
    | inl have ↦ rw have refl
    | inr lack ↦ rw lack (users-put_tls (build_tls_config nc tc) m)
  ]

  users-quic : (o : Option M) (m : M) → at "users" (quic_tls lib nc users tc o m) ≡ at "users" m
  unfolding str_beq
  users-quic none m = refl
  users-quic (some t) m = at-put "tls" "users" _ m refl

  abbrev Serves : Str → (M → M) → Type 0
  Serves protocol build = (base : M) → ServesUsers lib nc users protocol (build base)

  mieru-Serves : Serves (codes "mieru") (build_mieru lib nc users tc)
  unfolding build_mieru str_beq
  mieru-Serves base =
      serves lib nc users (codes "mieru") _ _ (names_users lib nc).0 (at-put_same "users" _ _)

  shadowsocks-Serves : Serves (codes "shadowsocks") (build_shadowsocks lib nc users tc)
  unfolding build_shadowsocks str_beq
  shadowsocks-Serves base =
      serves lib nc users (codes "shadowsocks") _ _ (names_users lib nc).1 (at-put_same "users" _ _)

  vmess-Serves : Serves (codes "vmess") (build_vmess lib nc users tc)
  unfolding build_vmess str_beq
  vmess-Serves base =
      serves lib nc users (codes "vmess") _ _ (names_users lib nc).2
        (users-certificate _ ∙ users-common _ ∙ at-put_same "users" _ _)

  vless-Serves : Serves (codes "vless") (build_vless lib nc users tc)
  unfolding build_vless str_beq
  vless-Serves base =
      serves lib nc users (codes "vless") _ _ (vless-NamesUser lib nc)
        (users-reality _ ∙ users-common _ ∙ at-put_same "users" _ _)

  trojan-Serves : Serves (codes "trojan") (build_trojan lib nc users tc)
  unfolding build_trojan str_beq
  trojan-Serves base = serves lib nc users (codes "trojan") _ _ (names_users lib nc).3 (
      users-default _
      ∙ users-reality _
      ∙ users-put_fallback (build_trojan_fallback lib nc) _
      ∙ users-common _
      ∙ at-put_same "users" _ _)

  tuic-Serves : Serves (codes "tuic") (build_tuic lib nc users tc)
  unfolding build_tuic str_beq
  tuic-Serves base = serves lib nc users (codes "tuic") _ _ (names_users lib nc).4 (
      users-quic (build_tls_config nc tc) _
      ∙ at-when "congestion_control" "users" _ _ _ refl
      ∙ at-put_same "users" _ _)

  anytls-Serves : Serves (codes "anytls") (build_anytls lib nc users tc)
  unfolding build_anytls str_beq
  anytls-Serves base = serves lib nc users (codes "anytls") _ _ (names_users lib nc).5 (
      users-put_tls (build_tls_config nc tc) _
      ∙ at-when "padding_scheme" "users" _ _ _ refl
      ∙ at-put_same "users" _ _)

  naive-Serves : Serves (codes "naive") (build_naive lib nc users tc)
  unfolding build_naive str_beq
  naive-Serves base =
      serves lib nc users (codes "naive") _ _ (names_users lib nc).6
        (users-certificate _ ∙ at-put_same "users" _ _)

  socks-Serves : Serves (codes "socks") (build_socks lib nc users tc)
  unfolding build_socks str_beq
  socks-Serves base =
      serves lib nc users (codes "socks") _ _ (names_users lib nc).7 (at-put_same "users" _ _)

  http-Serves : Serves (codes "http") (build_http lib nc users tc)
  unfolding build_http str_beq apply_proxy_protocol
  http-Serves base =
      serves lib nc users (codes "http") _ _ (names_users lib nc).8
        (users-certificate _ ∙ at-put_same "users" _ _)

  hysteria-Serves : Serves (codes "hysteria") (build_hysteria lib nc users tc)
  unfolding build_hysteria str_beq
  hysteria-Serves base = elim (Bool-cases (nat_beq nc.version 2)) [
    | inl two ↦
        serves lib nc users (codes "hysteria") name_password _ (hysteria2-NamesUser lib nc two) (
          users-quic (build_tls_config nc tc) _
          ∙ rw two (
              at-when "obfs" "users" (not (str_beq nc.obfs [])) _ _ refl ∙ at-put_same "users" _ _))
    | inr one ↦
        serves lib nc users (codes "hysteria") auth_str_user _ (hysteria1-NamesUser lib nc one) (
          users-quic (build_tls_config nc tc) _
          ∙ rw one (
              at-when "obfs" "users" (not (str_beq nc.obfs [])) _ _ refl
              ∙ at-put "down_mbps" "users" _ _ refl
              ∙ at-put "up_mbps" "users" _ _ refl
              ∙ at-put_same "users" _ _))
  ]

  builders-Serve : All (λ e. Serves e.0 e.1) (builders lib nc users tc)
  builders-Serve = (
    shadowsocks-Serves,
    (
      vmess-Serves,
      (
        vless-Serves,
        (
          trojan-Serves,
          (
            hysteria-Serves,
            (
              tuic-Serves,
              (anytls-Serves, (naive-Serves, (socks-Serves, (http-Serves, (mieru-Serves, tt))))),
            ),
          ),
        ),
      ),
    ),
  )

  built-ServesUsers :
      (o : Option (M → M)) (inbound : M)
      → lookup nc.protocol (builders lib nc users tc) ≡ o
      → built lib nc users tc o ≡ some inbound
      → ServesUsers lib nc users nc.protocol inbound
  built-ServesUsers none inbound found e = absurd (cc)
  built-ServesUsers (some build) inbound found e =
      subst (λ m. ServesUsers lib nc users nc.protocol m) (some-injective _ _ e)
        (lookup-All Serves nc.protocol (builders lib nc users tc) builders-Serve found
          (base_inbound lib nc users tc))

  -- A sing-box inbound, whatever its protocol, transport and TLS, has exactly one entry for
  -- each user, in the order of the users: under its name field the UUID, or for naive the ID,
  -- and under the field of its secret the UUID, or for shadowsocks the password that the
  -- cipher's key size makes of it.
  pub build_inbound-ServesUsers :
      (inbound : M)
      → build_inbound lib nc users tc ≡ some inbound
      → ServesUsers lib nc users nc.protocol inbound
  unfolding build_inbound
  build_inbound-ServesUsers inbound e =
      built-ServesUsers (lookup nc.protocol (builders lib nc users tc)) inbound refl e
