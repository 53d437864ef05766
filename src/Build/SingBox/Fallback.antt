-- ===== src/Build/SingBox/Fallback.antt =====
-- The fallback of a trojan inbound: buildTrojanFallback and its helpers, and the route that lets it
-- reach a local site.
pub mod Bounds
use xboard_node_plus.Prelude.{
  ℕ, Str, Bool, true, false, List, [], ◌∷◌, ◌++◌, Option, none, some, if◌then◌else◌, Map, str_beq,
  lookup, str_eq, trim_space, codes, ◌||◌, ◌&&◌, leb, ltb, nat_beq, is_pos, not, split, atoi, has,
}
use xboard_node_plus.Model.Values.{Any, AnyMap, arr, obj, text, float, int, bool, null, items}
use xboard_node_plus.Model.{NodeSpec}
use xboard_node_plus.Validation.Tags.{fields}
use xboard_node_plus.Build.{M, str, num, doc, strings, texts}
use xboard_node_plus.Build.Atoi.{atoi_value, pattern_of}
use xboard_node_plus.Build.Library.{Library, Ip}

-- stringFromAny, where a missing value is nil.
unfoldable pub string_from_any : Library → Option Any → Str
string_from_any lib none = []
string_from_any lib (some null) = []
string_from_any lib (some (text s)) = s
string_from_any lib (some v) = lib.sprint v

unfoldable pub int_from_any : Library → Option Any → ℕ
int_from_any lib (some (int n)) = n
int_from_any lib (some (float b)) = lib.truncate b
int_from_any lib (some (text s)) = atoi_value (trim_space s)
int_from_any lib other = 0

unfoldable pub first_map_value : Map Str Any → List Str → Option Any
first_map_value m [] = none
first_map_value m (k ∷ keys) =
    let rest = first_map_value m keys in elim (lookup k m) [ none ↦ rest | some v ↦ some v ]

-- A fallback is the server and the port that the object is made of.
pub record Target : Type 0 where
  pub server : Str
  pub server_port : ℕ

unfoldable pub make_trojan_fallback : Str → ℕ → Option Target
make_trojan_fallback server port =
    let server = trim_space server in
    if str_beq server [] || not (is_pos port) || ltb 65535 port
    then none
    else some (record { server = server; server_port = port })

abbrev with_port : Str → Str → Option Target
with_port port host = elim (atoi (trim_space port)) [
  | none ↦ none
  | some n ↦ make_trojan_fallback host (pattern_of n)
]

-- strings.Split(addr, ":") in two parts.
abbrev two_parts : List Str → Option Target
two_parts [] = none
two_parts (host ∷ []) = none
two_parts (host ∷ port ∷ []) = with_port port host
two_parts (host ∷ port ∷ more ∷ parts) = none

abbrev split_address : Option (Str × Str) → Str → Option Target
split_address none addr = two_parts (split b':' addr)
split_address (some (host, port)) addr = with_port port host

unfoldable pub parse_trojan_fallback_address : Library → Str → Option Target
parse_trojan_fallback_address lib addr =
    let addr = trim_space addr in
    if str_beq addr [] then none else split_address (lib.split_host_port addr) addr

-- The common end of buildTrojanFallback and normalizeTrojanFallbackMap.
abbrev server_and_port : Library → Str → ℕ → Option Target
server_and_port lib server port =
    if str_beq server []
    then none
    else if nat_beq port 0
    then parse_trojan_fallback_address lib server
    else make_trojan_fallback server port

unfoldable pub normalize_trojan_fallback_map : Library → Map Str Any → Option Target
normalize_trojan_fallback_map lib m =
    server_and_port lib
      (trim_space (
        string_from_any lib
          (first_map_value m (codes "server" ∷ codes "host" ∷ codes "address" ∷ []))))
      (int_from_any lib (first_map_value m (codes "server_port" ∷ codes "port" ∷ [])))

unfoldable pub normalize_trojan_fallback : Library → Any → Option Target
normalize_trojan_fallback lib (text s) = parse_trojan_fallback_address lib s
normalize_trojan_fallback lib (obj m) = normalize_trojan_fallback_map lib (fields m)
normalize_trojan_fallback lib other = none

abbrev from_settings : Library → Map Str Any → Option Target
from_settings lib settings = elim (lookup (codes "fallback") settings) [
  | some v ↦ normalize_trojan_fallback lib v
  | none ↦
      server_and_port lib
        (trim_space (string_from_any lib (lookup (codes "fallback_server") settings)))
        (int_from_any lib (lookup (codes "fallback_port") settings))
]

-- A nil map has no fallback.
unfoldable pub build_trojan_fallback : Library → NodeSpec → Option Target
build_trojan_fallback lib nc = elim nc.tls_settings [
  | none ↦ none
  | some settings ↦ from_settings lib settings
]

abbrev pub fallback_m : Target → M
fallback_m t = doc (("server", str t.server) ∷ ("server_port", num t.server_port) ∷ [])

abbrev loopback_cidrs : Option Ip → List Str
loopback_cidrs none = []
loopback_cidrs (some ip) =
    if ip.is_loopback
    then (ip.name ++ (if ip.is_v4 then codes "/32" else codes "/128")) ∷ []
    else []

abbrev cidrs_of : Library → Str → List Str
cidrs_of lib server =
    if lib.equal_fold server (codes "localhost")
    then codes "127.0.0.1/32" ∷ codes "::1/128" ∷ []
    else loopback_cidrs (lib.parse_ip server)

abbrev direct_to : List Str → List M
direct_to [] = []
direct_to (c ∷ cidrs) =
    doc (("outbound", str (codes "direct")) ∷ ("ip_cidr", strings (c ∷ cidrs)) ∷ []) ∷ []

abbrev direct_routes : Library → Option Target → List M
direct_routes lib none = []
direct_routes lib (some t) =
    let server = trim_space t.server in
    if str_beq server [] then [] else direct_to (cidrs_of lib server)

unfoldable pub trojan_fallback_direct_routes : Library → NodeSpec → List M
trojan_fallback_direct_routes lib nc =
    if lib.equal_fold nc.protocol (codes "trojan")
    then direct_routes lib (build_trojan_fallback lib nc)
    else []
