-- ===== src/Build/Xray/Inbound/Users.antt =====
-- The users of an xray inbound.
use xboard_node_plus.Prelude.{
  ◌≡◌, refl, ◌∙◌, ℕ, Bool, true, false, Str, List, [], ◌∷◌, Option, none, some, map, ◌++◌,
  if◌then◌else◌, str_beq, str_eq, lookup, codes, All, Bool-cases, inl, inr, not, is_some, nat_beq,
}
use xboard_node_plus.Model.{NodeSpec, UserSpec}
use xboard_node_plus.Service.Core.{TlsCert}
use xboard_node_plus.Build.{M, str, at, get, tables, ms, table}
use xboard_node_plus.Build.Credentials.{is_one_of, secret, map-map}
use xboard_node_plus.Build.Fields.{at-put, at-put_same, at-when, lookup-All}
use xboard_node_plus.Build.Library.{Library}
use xboard_node_plus.Build.Ss2022.{ss2022_methods, user_password}
use xboard_node_plus.Build.Xray.Stream.{apply_stream_settings}
use xboard_node_plus.Build.Xray.Inbound.{
  build_inbound, build_vmess, build_vless, build_trojan, build_shadowsocks, build_socks, build_http,
  build_hysteria, builders, built, base_inbound, vmess_client, flow_client, password_client,
  auth_client, client_of, account, forced, secured, trojan_first, trojan_settings, user_email,
}
use mathlib.Core.Path.{subst}
use mathlib.Core.Option.{some-injective}
use Prim.Native.String.{String}

-- The list of the users, and the field of an entry that holds the secret.
abbrev pub list_key : Str → String
list_key protocol = if is_one_of protocol ("socks" ∷ "http" ∷ []) then "accounts" else "clients"

abbrev pub secret_key : Str → String
secret_key protocol =
    if is_one_of protocol ("vmess" ∷ "vless" ∷ [])
    then "id"
    else if is_one_of protocol ("hysteria" ∷ [])
    then "auth"
    else if is_one_of protocol ("socks" ∷ "http" ∷ [])
    then "pass"
    else "password"

module _ (lib : Library) (nc : NodeSpec) (users : List UserSpec) where
  -- An inbound with one entry for each user, in order.
  pub record ServesClients (protocol : Str) (inbound : M) : Type 0 where
    pub settings : M
    pub entries : List M
    pub has_settings : at "settings" inbound ≡ some (table settings)
    pub listed : at (list_key protocol) settings ≡ some (tables (ms entries))
    pub emails :
        map (at "email") entries ≡ map (λ u. some (str (codes "user@" ++ lib.itoa u.id))) users
    pub secrets :
        map (at (secret_key protocol)) entries
        ≡ map (λ u. some (str (secret lib nc protocol u))) users

module _ (lib : Library) (nc : NodeSpec) (users : List UserSpec) (tc : TlsCert) where
  -- A function that makes the entry of a user from the protocol.
  abbrev NamesUser : Str → (UserSpec → M) → Type 0
  NamesUser protocol f =
      ((u : UserSpec) → at "email" (f u) ≡ some (str (codes "user@" ++ lib.itoa u.id)))
      × ((u : UserSpec) → at (secret_key protocol) (f u) ≡ some (str (secret lib nc protocol u)))

  names_users :
      NamesUser (codes "vmess") (vmess_client lib nc users tc)
      × NamesUser (codes "trojan") (password_client lib nc users tc)
      × NamesUser (codes "hysteria") (auth_client lib nc users tc)
      × NamesUser (codes "socks") (account lib nc users tc)
      × NamesUser (codes "http") (account lib nc users tc)
  unfolding get str_beq user_email
  names_users = (
    (λ u. refl, λ u. refl),
    (λ u. refl, λ u. refl),
    (λ u. refl, λ u. refl),
    (λ u. refl, λ u. refl),
    (λ u. refl, λ u. refl),
  )

  vless-NamesUser : NamesUser (codes "vless") (flow_client lib nc users tc)
  unfolding get str_beq user_email
  vless-NamesUser = (
    λ u. at-when "flow" "email" (not (str_beq nc.flow [])) _ _ refl,
    λ u. at-when "flow" "id" (not (str_beq nc.flow [])) _ _ refl,
  )

  client_of-NamesUser :
      (size : Option ℕ)
      → lookup nc.cipher ss2022_methods ≡ size
      → NamesUser (codes "shadowsocks") (client_of lib nc users tc size)
  unfolding get str_beq user_email user_password
  client_of-NamesUser none e = (λ u. refl, λ u. rw e refl)
  client_of-NamesUser (some size) e = (λ u. refl, λ u. rw e refl)

  serves :
      (protocol : Str) (f : UserSpec → M) (settings m : M)
      → NamesUser protocol f
      → at (list_key protocol) settings ≡ some (tables (ms (map f users)))
      → at "settings" m ≡ some (table settings)
      → ServesClients lib nc users protocol m
  serves protocol f settings m (names, secrets) listed has_settings = record {
    settings = settings;
    entries = map f users;
    has_settings = has_settings;
    listed = listed;
    emails = map-map f _ _ names users;
    secrets = map-map f _ _ secrets users;
  }

  settings-apply_stream_settings :
      (n : NodeSpec) (m : M) → at "settings" (apply_stream_settings lib n tc m) ≡ at "settings" m
  unfolding apply_stream_settings str_beq
  settings-apply_stream_settings n m = at-put "streamSettings" "settings" _ m refl

  abbrev Serves : Str → (M → Option M × NodeSpec) → Type 0
  Serves protocol build =
      (base inbound : M)
      → (build base).0 ≡ some inbound
      → ServesClients lib nc users protocol inbound

  -- An inbound that is built for certain.
  abbrev ServesAlways : Str → (M → M) → Type 0
  ServesAlways protocol build = (base : M) → ServesClients lib nc users protocol (build base)

  always-Serves :
      (protocol : Str) (build : M → M)
      → ServesAlways protocol build
      → Serves protocol (λ b. (some (build b), nc))
  always-Serves protocol build h base inbound e =
      subst (λ m. ServesClients lib nc users protocol m) (some-injective _ _ e) (h base)

  vmess-Serves : ServesAlways (codes "vmess") (build_vmess lib nc users tc)
  unfolding build_vmess str_beq get
  vmess-Serves base =
      serves (codes "vmess") _ _ _ names_users.0 refl
        (settings-apply_stream_settings nc _ ∙ at-put_same "settings" _ _)

  vless-Serves : ServesAlways (codes "vless") (build_vless lib nc users tc)
  unfolding build_vless str_beq get
  vless-Serves base =
      serves (codes "vless") _ _ _ vless-NamesUser refl
        (settings-apply_stream_settings nc _ ∙ at-put_same "settings" _ _)

  socks-Serves : ServesAlways (codes "socks") (build_socks lib nc users tc)
  unfolding build_socks str_beq get
  socks-Serves base = serves (codes "socks") _ _ _ names_users.3 refl (at-put_same "settings" _ _)

  http-Serves : ServesAlways (codes "http") (build_http lib nc users tc)
  unfolding build_http str_beq get
  http-Serves base = elim (Bool-cases (nat_beq nc.tls 1)) [
    | inl secured ↦ rw secured (
        serves (codes "http") _ _ _ names_users.4 refl
          (settings-apply_stream_settings nc _ ∙ at-put_same "settings" _ _))
    | inr plain ↦
        rw plain (serves (codes "http") _ _ _ names_users.4 refl (at-put_same "settings" _ _))
  ]

  shadowsocks-Serves : ServesAlways (codes "shadowsocks") (build_shadowsocks lib nc users tc)
  unfolding build_shadowsocks str_beq get
  shadowsocks-Serves base =
      serves (codes "shadowsocks") _ _ _ (client_of-NamesUser _ refl)
        (at-when "password" "clients" (is_some (lookup nc.cipher ss2022_methods)) _ _ refl)
        (at-put_same "settings" _ _)

  settings-secured :
      (b : Bool) (m : M) → at "settings" (secured lib nc users tc b m).0 ≡ at "settings" m
  settings-secured true m = refl
  settings-secured false m = settings-apply_stream_settings (forced lib nc users tc) m

  settings-trojan :
      (base : M)
      → at "settings" (build_trojan lib nc users tc base).0
        ≡ some (table (trojan_settings lib nc users tc))
  unfolding build_trojan str_beq
  settings-trojan base =
      settings-secured _ (trojan_first lib nc users tc base)
      ∙ settings-apply_stream_settings nc _
      ∙ at-put_same "settings" _ base

  trojan-Serves : ServesAlways (codes "trojan") (λ b. (build_trojan lib nc users tc b).0)
  unfolding str_beq get
  trojan-Serves base =
      serves (codes "trojan") (password_client lib nc users tc) (trojan_settings lib nc users tc)
        (build_trojan lib nc users tc base).0 names_users.1 refl (settings-trojan base)

  hysteria-Serves : Serves (codes "hysteria") (λ b. (build_hysteria lib nc users tc b, nc))
  unfolding build_hysteria str_beq get
  hysteria-Serves base inbound e = elim (Bool-cases (nat_beq nc.version 2)) [
    | inl two ↦
        subst (λ m. ServesClients lib nc users (codes "hysteria") m)
          (some-injective _ _ (rw two at e))
          (serves (codes "hysteria") _ _ _ names_users.2 refl
            (at-put "streamSettings" "settings" _ _ refl ∙ at-put_same "settings" _ _))
    | inr one ↦ absurd (cc (rw one at e))
  ]

  builders-Serve : All (λ e. Serves e.0 e.1) (builders lib nc users tc)
  builders-Serve = (
    always-Serves (codes "vmess") _ vmess-Serves,
    (
      always-Serves (codes "vless") _ vless-Serves,
      (
        λ base inbound e.
            subst (λ m. ServesClients lib nc users (codes "trojan") m) (some-injective _ _ e)
              (trojan-Serves base),
        (
          always-Serves (codes "shadowsocks") _ shadowsocks-Serves,
          (
            always-Serves (codes "socks") _ socks-Serves,
            (always-Serves (codes "http") _ http-Serves, (hysteria-Serves, tt)),
          ),
        ),
      ),
    ),
  )

  built-ServesClients :
      (o : Option (M → Option M × NodeSpec)) (inbound : M)
      → lookup nc.protocol (builders lib nc users tc) ≡ o
      → (built lib nc users tc o).0 ≡ some inbound
      → ServesClients lib nc users nc.protocol inbound
  built-ServesClients none inbound found e = absurd (cc)
  built-ServesClients (some build) inbound found e =
      lookup-All Serves nc.protocol (builders lib nc users tc) builders-Serve found
        (base_inbound lib nc users tc) inbound e

  -- An xray inbound, whatever its protocol, transport and TLS, has exactly one client or
  -- account for each user, in the order of the users: with the email "user@" and the ID, and
  -- under the field of its secret the UUID, or for shadowsocks the password that the cipher's
  -- key size makes of it.
  pub build_inbound-ServesClients :
      (inbound : M)
      → (build_inbound lib nc users tc).0 ≡ some inbound
      → ServesClients lib nc users nc.protocol inbound
  unfolding build_inbound
  build_inbound-ServesClients inbound e =
      built-ServesClients (lookup nc.protocol (builders lib nc users tc)) inbound refl e
