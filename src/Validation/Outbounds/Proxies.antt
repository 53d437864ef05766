-- ===== src/Validation/Outbounds/Proxies.antt =====
-- ValidateCustomOutboundsForKernel of internal/model/custom_outbound_validate.go: the second loop, and
-- which lists pass both.
use mathlib.Core.Path.{subst}
use xboard_node_plus.Prelude.{
  bind-ok, ℕ, ◌+◌, Str, List, [], ◌∷◌, ◌++◌, some, ok, ◌>>=◌, KeySet, ◌≡◌, ◌≢◌, ◌↔◌, inl, inr, refl,
  arith, sym, trim_space, to_lower, codes, str_beq, str_beq_iff, has, lookup, map, str_eq, All,
  is_in, Avoids-nil,
}
use xboard_node_plus.Validation.{kernel_sing_box, kernel_xray}
use xboard_node_plus.Validation.Kernels.Choice.{IsKernel}
use xboard_node_plus.Validation.Outbounds.{
  check_outbounds, check_proxy, check_proxies, add_tags, built_in_tags, lower_set, tag_key,
  validate_custom_outbounds_for_kernel,
}
use xboard_node_plus.Validation.Outbounds.Settings.{has-lower_set, protocols}
use xboard_node_plus.Model.{OutboundConfig}
use xboard_node_plus.Validation.Outbounds.Accepted.{
  IsProxied, AreOutbounds, known_tags, tag_keys, add_keys, has-add_keys, has-add_tags, is_in-append,
  outbounds_sound, outbounds_complete,
}

module _ (available : KeySet Str) (tags : List Str)
    (agree : (x : Str) → x ≢ [] → has x available ≡ is_in x tags) where
  proxy_iff : (i : ℕ) (o : OutboundConfig) → (check_proxy i available o ≡ ok tt) ↔ IsProxied tags o
  unfolding check_proxy
  proxy_iff i o = ground (
    arith,
    str_beq_iff o.proxy_tag [],
    str_beq_iff (tag_key o.proxy_tag) [],
    str_beq_iff (tag_key o.proxy_tag) (tag_key o.tag),
    agree (tag_key o.proxy_tag),
  )

  proxies_iff :
      (i : ℕ) (l : List OutboundConfig)
      → (check_proxies i available l ≡ ok tt) ↔ All (IsProxied tags) l
  unfolding check_proxies
  proxies_iff i [] = ground arith
  proxies_iff i (o ∷ l) = ground (arith, proxy_iff i o, proxies_iff (i + 1) l)

module _ (additional : List Str) (l : List OutboundConfig) where
  abbrev all_tags : KeySet Str
  all_tags = add_keys (tag_keys l) (add_tags additional built_in_tags)

  all_tags-known : (x : Str) → x ≢ [] → has x all_tags ≡ is_in x (known_tags additional l)
  unfolding lookup
  all_tags-known x h = ground (
    arith,
    has-add_keys x (tag_keys l) (add_tags additional built_in_tags),
    has-add_tags x additional built_in_tags h,
    is_in-append x (tag_keys l) (map tag_key additional ++ (codes "direct" ∷ codes "block" ∷ [])),
    is_in-append x (map tag_key additional) (codes "direct" ∷ codes "block" ∷ []),
  )

  module _ (kernel : Str) (allowed : KeySet Str)
      (allows : (p : Str) → has p allowed ≡ is_in p (protocols kernel)) where
    loops_iff :
        ((check_outbounds 0 kernel (some allowed) [] (add_tags additional built_in_tags) l
            >>= λ available. check_proxies 0 available l)
          ≡ ok tt)
        ↔ AreOutbounds kernel additional l
    loops_iff = (sound, complete)
      where
        complete :
            AreOutbounds kernel additional l
            → (check_outbounds 0 kernel (some allowed) [] (add_tags additional built_in_tags) l
                >>= λ available. check_proxies 0 available l)
              ≡ ok tt
        complete r =
            rw
              (outbounds_complete kernel allowed allows 0 [] (add_tags additional built_in_tags) l
                r.each (Avoids-nil Unit (tag_keys l)) r.distinct)
              ((proxies_iff all_tags (known_tags additional l) all_tags-known 0 l).1 r.proxies)

        sound :
            (check_outbounds 0 kernel (some allowed) [] (add_tags additional built_in_tags) l
                >>= λ available. check_proxies 0 available l)
              ≡ ok tt
            → AreOutbounds kernel additional l
        sound h =
            let (a, h1, h2) =
              bind-ok
                (check_outbounds 0 kernel (some allowed) [] (add_tags additional built_in_tags) l)
                (λ available. check_proxies 0 available l) h in
            let (each, away, distinct, e) =
              outbounds_sound kernel allowed allows 0 [] (add_tags additional built_in_tags) l h1 in
            record {
              each = each;
              distinct = distinct;
              proxies =
                  (proxies_iff all_tags (known_tags additional l) all_tags-known 0 l).0
                    (subst (λ a. check_proxies 0 a l ≡ ok tt) e h2);
            }

has-protocols :
    (kernel : Str)
    → map to_lower (protocols kernel) ≡ protocols kernel
    → (p : Str) → has p (lower_set (protocols kernel) []) ≡ is_in p (protocols kernel)
unfolding lookup
has-protocols kernel e p = ground (arith, has-lower_set p (protocols kernel) [], e)

-- For sing-box and for xray ValidateCustomOutboundsForKernel returns no error exactly when every
-- outbound has a tag, a protocol that the kernel supports and valid settings, no two tags are the
-- same but for case and the spaces around them, and every proxy tag that is given is that of another
-- outbound, "direct", "block" or an additional one.
pub validate_custom_outbounds_iff :
    (l : List OutboundConfig) (kernel : Str) (additional : List Str)
    → IsKernel kernel
    → (validate_custom_outbounds_for_kernel l kernel additional ≡ ok tt)
      ↔ AreOutbounds kernel additional l
unfolding validate_custom_outbounds_for_kernel to_lower trim_space lookup str_beq
validate_custom_outbounds_iff [] kernel additional k =
    (λ h. record { each = tt; distinct = tt; proxies = tt }, λ h. refl)
validate_custom_outbounds_iff (o ∷ l) kernel additional (inl e) =
    subst
      (λ k.
        (validate_custom_outbounds_for_kernel (o ∷ l) k additional ≡ ok tt)
        ↔ AreOutbounds k additional (o ∷ l))
      (sym e) (loops_iff additional (o ∷ l) kernel_sing_box _ (has-protocols kernel_sing_box refl))
validate_custom_outbounds_iff (o ∷ l) kernel additional (inr e) =
    subst
      (λ k.
        (validate_custom_outbounds_for_kernel (o ∷ l) k additional ≡ ok tt)
        ↔ AreOutbounds k additional (o ∷ l))
      (sym e) (loops_iff additional (o ∷ l) kernel_xray _ (has-protocols kernel_xray refl))
