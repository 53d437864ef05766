-- ===== src/Validation/Outbounds/Accepted.antt =====
-- ValidateCustomOutboundsForKernel of internal/model/custom_outbound_validate.go: the first
-- loop, and what it means for a list of outbounds to be accepted.
use xboard_node_plus.Prelude.{
  ℕ, ◌+◌, Str, true, List, [], ◌∷◌, ◌++◌, some, ok, KeySet, ◌≡◌, ◌≢◌, ◌⊎◌, refl, arith, sym, ◌∙◌,
  trim_space, to_lower, codes, str_beq, str_beq_iff, reject_if, >>-ok, has, map, str_eq, All, is_in,
  insert, ◌||◌, NoRepeat, Avoids, Avoids-insert, Avoids-insert_inv,
}
use xboard_node_plus.Validation.{tag_required, duplicate_tag}
use xboard_node_plus.Validation.Outbounds.{
  check_outbound, check_outbounds, add_tags, tag_key, validate_outbound_settings,
}
use xboard_node_plus.Validation.Outbounds.Settings.{
  AreSettings, validate_outbound_settings_iff, has-insert, protocols,
}
use xboard_node_plus.Model.{OutboundConfig}

pub record IsOutbound (kernel : Str) (o : OutboundConfig) : Type 0 where
  pub tag : trim_space o.tag ≢ []
  pub protocol : to_lower (trim_space o.protocol) ≢ []
  pub supported : is_in (to_lower (trim_space o.protocol)) (protocols kernel) ≡ true
  pub settings : AreSettings o.settings

-- An outbound behind another one: that is neither itself nor unknown.
abbrev pub IsProxied : List Str → OutboundConfig → Type 0
IsProxied tags o =
    (o.proxy_tag ≡ [])
    ⊎ ((tag_key o.proxy_tag ≢ [])
        × (tag_key o.proxy_tag ≢ tag_key o.tag)
        × (is_in (tag_key o.proxy_tag) tags ≡ true))

abbrev pub tag_keys : List OutboundConfig → List Str
tag_keys = map (λ o. tag_key o.tag)

-- The tags that an outbound may stand behind.
abbrev pub known_tags : List Str → List OutboundConfig → List Str
known_tags additional l =
    tag_keys l ++ (map tag_key additional ++ (codes "direct" ∷ codes "block" ∷ []))

pub record AreOutbounds (kernel : Str) (additional : List Str) (l : List OutboundConfig)
    : Type 0 where
  pub each : All (IsOutbound kernel) l
  pub distinct : NoRepeat (tag_keys l)
  pub proxies : All (IsProxied (known_tags additional l)) l

abbrev pub add_keys : List Str → KeySet Str → KeySet Str
add_keys [] m = m
add_keys (k ∷ l) m = add_keys l (insert k tt m)

pub has-add_keys :
    (x : Str) (l : List Str) (m : KeySet Str) → has x (add_keys l m) ≡ (is_in x l || has x m)
has-add_keys x [] m = refl
has-add_keys x (k ∷ l) m = ground (arith, has-add_keys x l (insert k tt m), has-insert k x m)

pub has-add_tags :
    (x : Str) (l : List Str) (m : KeySet Str)
    → x ≢ []
    → has x (add_tags l m) ≡ (is_in x (map tag_key l) || has x m)
unfolding add_tags
has-add_tags x [] m h = refl
has-add_tags x (k ∷ l) m h = ground (
  arith,
  h,
  has-add_tags x l (insert (tag_key k) tt m) h,
  has-add_tags x l m h,
  has-insert (tag_key k) x m,
  str_beq_iff (tag_key k) [],
  str_beq_iff (tag_key k) x,
)

pub is_in-append : (x : Str) (l r : List Str) → is_in x (l ++ r) ≡ (is_in x l || is_in x r)
is_in-append x [] r = refl
is_in-append x (k ∷ l) r = ground (arith, is_in-append x l r)

module _ (kernel : Str) (allowed : KeySet Str)
    (allows : (p : Str) → has p allowed ≡ is_in p (protocols kernel)) where
  IsOutbound-sound :
      (i : ℕ) (o : OutboundConfig)
      → check_outbound i kernel (some allowed) o ≡ ok tt
      → IsOutbound kernel o
  unfolding check_outbound
  IsOutbound-sound i o h =
      let (a, h1) = >>-ok (reject_if (str_beq (trim_space o.tag) []) (tag_required i)) _ h in
      let protocol = to_lower (trim_space o.protocol) in
      let settings : validate_outbound_settings i o.settings ≡ ok tt = ground (arith, h1) in
      record {
        tag = ground (arith, a, str_beq_iff (trim_space o.tag) []);
        protocol = ground (arith, h1, str_beq_iff protocol []);
        supported = sym (allows protocol) ∙ ground (arith, h1);
        settings = (validate_outbound_settings_iff i o.settings).0 settings;
      }

  IsOutbound-complete :
      (i : ℕ) (o : OutboundConfig)
      → IsOutbound kernel o
      → check_outbound i kernel (some allowed) o ≡ ok tt
  unfolding check_outbound
  IsOutbound-complete i o r = ground (
    arith,
    str_beq_iff (trim_space o.tag) [],
    str_beq_iff (to_lower (trim_space o.protocol)) [],
    allows (to_lower (trim_space o.protocol)) ∙ r.supported,
    (validate_outbound_settings_iff i o.settings).1 r.settings,
  )

  pub outbounds_sound :
      (i : ℕ) (seen available : KeySet Str) (l : List OutboundConfig) {a : KeySet Str}
      → check_outbounds i kernel (some allowed) seen available l ≡ ok a
      → All (IsOutbound kernel) l
        × Avoids seen (tag_keys l)
        × NoRepeat (tag_keys l)
        × (a ≡ add_keys (tag_keys l) available)
  unfolding check_outbounds
  outbounds_sound i seen available [] h = (tt, tt, tt, cc)
  outbounds_sound i seen available (o ∷ l) h =
      let (a, h1) = >>-ok (check_outbound i kernel (some allowed) o) _ h in
      let (b, h2) =
        >>-ok (reject_if (has (tag_key o.tag) seen) (duplicate_tag i (trim_space o.tag))) _ h1 in
      let (each, away, distinct, e) = outbounds_sound (i + 1) _ _ l h2 in
      let (away1, away2) = Avoids-insert_inv (tag_key o.tag) tt seen (tag_keys l) away in
      ((IsOutbound-sound i o a, each), (ground (arith, b), away1), (away2, distinct), e)

  pub outbounds_complete :
      (i : ℕ) (seen available : KeySet Str) (l : List OutboundConfig)
      → All (IsOutbound kernel) l
      → Avoids seen (tag_keys l)
      → NoRepeat (tag_keys l)
      → check_outbounds i kernel (some allowed) seen available l
        ≡ ok (add_keys (tag_keys l) available)
  unfolding check_outbounds
  outbounds_complete i seen available [] each away distinct = refl
  outbounds_complete i seen available (o ∷ l) (r, each) (new, away) (d, distinct) =
      rw (IsOutbound-complete i o r, new)
        (outbounds_complete (i + 1) _ _ l each
          (Avoids-insert (tag_key o.tag) tt seen (tag_keys l) away d) distinct)
