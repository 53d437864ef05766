-- ===== src/Build/SingBox/Safety/Private.antt =====
-- Connections to private addresses, in a built sing-box configuration.
use xboard_node_plus.Prelude.{
  ◌≡◌, refl, ◌∙◌, ap, sym, Bool, true, false, Str, List, [], ◌∷◌, ◌++◌, Option, some, any, codes,
  append_assoc, str_beq, Map, Bool-cases, inl, inr, if◌then◌else◌,
}
use xboard_node_plus.Model.Values.{items, Any}
use xboard_node_plus.Model.{NodeSpec, UserSpec}
use xboard_node_plus.Validation.Spec.{KernelConfig}
use xboard_node_plus.Service.Core.{TlsCert}
use xboard_node_plus.Build.{M, at, get, table, tables, ms, str, doc, strings}
use xboard_node_plus.Build.Decision.{decide, decide-append, decide-all, tagged, tagged-first}
use xboard_node_plus.Build.CustomFile.{FileSays}
use xboard_node_plus.Build.Library.{Library}
use xboard_node_plus.Build.SingBox.{outbounds, raw_routes, build_config, block_outbound}
use xboard_node_plus.Build.SingBox.Blocked.{LeavesBlock, tagged-outbounds}
use xboard_node_plus.Build.SingBox.Merge.Kept.{file_outbounds, file_rules}
use xboard_node_plus.Build.SingBox.Routes.{
  route_rules, compile_custom, compile_panel, private_blocks,
}
use xboard_node_plus.Build.SingBox.Safety.{build_config-Has, built_rules}

-- The private, shared, loopback, link-local, reserved and benchmark ranges of IPv4.
abbrev pub private_ipv4 : List Str
private_ipv4 =
    codes "10.0.0.0/8"
    ∷ codes "100.64.0.0/10"
    ∷ codes "127.0.0.0/8"
    ∷ codes "169.254.0.0/16"
    ∷ codes "172.16.0.0/12"
    ∷ codes "192.0.0.0/24"
    ∷ codes "192.168.0.0/16"
    ∷ codes "198.18.0.0/15"
    ∷ []

-- The unique local, link-local and loopback ranges of IPv6.
abbrev pub private_ipv6 : List Str
private_ipv6 = codes "fc00::/7" ∷ codes "fe80::/10" ∷ codes "::1/128" ∷ []

module _ {C : Type 0} (is_within : Str → C → Bool) (matches : M → C → Bool) where
  -- A rule with ranges of addresses alone matches the connections to an address within one of them.
  abbrev pub MatchesRanges : Type 0
  MatchesRanges =
      (tag : Str) (ranges : List Str) (c : C)
      → matches (doc (("outbound", str tag) ∷ ("ip_cidr", strings ranges) ∷ [])) c
        ≡ any (λ r. is_within r c) ranges

  any-append :
      (l k : List Str) (c : C)
      → any (λ r. is_within r c) (l ++ k)
        ≡ (if any (λ r. is_within r c) l then true else any (λ r. is_within r c) k)
  any-append [] k c = refl
  any-append (r ∷ l) k c = elim (Bool-cases (is_within r c)) [
    | inl here ↦ rw here refl
    | inr other ↦ rw other (any-append l k c)
  ]

  private_blocks-match :
      MatchesRanges
      → (c : C) → any (λ r. is_within r c) (private_ipv4 ++ private_ipv6) ≡ true
      → any (λ r. matches r c) private_blocks ≡ true
  private_blocks-match law c private =
      let e4 = law (codes "block") private_ipv4 c in
      let e6 = law (codes "block") private_ipv6 c in
      rw (e4, e6) (split _ _ (sym (any-append private_ipv4 private_ipv6 c) ∙ private))
    where
      split :
          (a b : Bool)
          → (if a then true else b) ≡ true
          → (if a then true else if b then true else false) ≡ true
      split true b e = refl
      split false true e = refl
      split false false e = absurd (cc)

  private-all :
      (rest : List M) (c : C)
      → any (λ r. matches r c) private_blocks ≡ true
      → decide matches "outbound" (codes "direct") (private_blocks ++ rest) c ≡ codes "block"
  unfolding get str_beq
  private-all rest c private =
      decide-all matches "outbound" (codes "direct") (codes "block") private_blocks rest c
        (refl, (refl, tt)) private

  module _ (lib : Library) (kcfg : KernelConfig) (nc : NodeSpec) (users : List UserSpec)
      (tc : TlsCert) (file : Option (Map Str Any))
      (says : FileSays lib kcfg.custom_config file) where
    rules-decide :
        (c : C)
        → any
            (λ r. matches r c)
            (file_rules file
              ++ (compile_custom (items nc.custom_route_rules) ++ raw_routes lib kcfg nc))
          ≡ false
        → any (λ r. matches r c) private_blocks ≡ true
        → decide matches "outbound" (codes "direct") (file_rules file ++ built_rules lib kcfg nc) c
          ≡ codes "block"
    unfolding route_rules
    rules-decide c custom private =
        let panel = compile_panel (items nc.routes) in
        let compiled = compile_custom (items nc.custom_route_rules) in
        let raw = raw_routes lib kcfg nc in
        ap (λ l. decide matches "outbound" (codes "direct") l c)
          (ap (λ l. file_rules file ++ l)
              (sym (append_assoc compiled raw (private_blocks ++ panel)))
            ∙ sym (append_assoc (file_rules file) (compiled ++ raw) (private_blocks ++ panel)))
        ∙ decide-append matches "outbound" (codes "direct") (file_rules file ++ (compiled ++ raw))
            (private_blocks ++ panel) c custom
        ∙ private-all panel c private

    -- The private ranges of IPv4 and IPv6 are blocked, whatever the routes of the panel: a connection
    -- to an address within one of them goes, by the first matching rule of the built sing-box
    -- configuration, to the tag "block", and the first outbound with this tag is of the type "block",
    -- when a rule with ranges alone matches by them, no rule of the custom file, no custom rule of
    -- the panel and no raw one matches the connection, and no outbound of the panel or of the local
    -- list is named "block", in whatever case.
    pub singbox_private_blocked :
        MatchesRanges
        → LeavesBlock lib kcfg nc
        → (c : C)
        → any
            (λ r. matches r c)
            (file_rules file
              ++ (compile_custom (items nc.custom_route_rules) ++ raw_routes lib kcfg nc))
          ≡ false
        → any (λ r. is_within r c) (private_ipv4 ++ private_ipv6) ≡ true
        → (route : M) × (rules : List M) × (outs : List M) × (at "route"
              (build_config lib kcfg nc users tc)
            ≡ some (table route))
          × (at "rules" route ≡ some (tables (ms rules)))
          × (at "outbounds" (build_config lib kcfg nc users tc) ≡ some (tables (ms outs)))
          × (decide matches "outbound" (codes "direct") rules c ≡ codes "block")
          × (tagged (codes "block") outs ≡ some block_outbound)
    singbox_private_blocked law leaves c custom private =
        let h = (build_config-Has lib kcfg nc users tc file says).0 in
        (
          h.route,
          file_rules file ++ built_rules lib kcfg nc,
          outbounds lib kcfg nc ++ file_outbounds file,
          h.routed,
          h.ruled,
          h.outbounds,
          rules-decide c custom (private_blocks-match law c private),
          tagged-first (codes "block") (outbounds lib kcfg nc) (file_outbounds file)
              (tagged-outbounds lib kcfg nc leaves),
        )
