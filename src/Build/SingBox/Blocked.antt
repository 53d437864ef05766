-- ===== src/Build/SingBox/Blocked.antt =====
-- The outbound "block" among the outbounds of a sing-box configuration.
use xboard_node_plus.Prelude.{
  ◌≡◌, ◌≢◌, refl, ◌∙◌, ap, Bool, true, false, Str, List, [], ◌∷◌, ◌++◌, Option, none, some, map,
  codes, sym, str_beq, str_eq, str_beq_iff, lookup, lookup-insert, has, insert, KeySet, to_lower,
  All, if◌then◌else◌, Bool-cases, inl, inr, arith, Map,
}
use xboard_node_plus.Model.Values.{Any, AnyMap, items, arr, obj, text, float, int, bool, null}
use xboard_node_plus.Model.{NodeSpec, OutboundConfig}
use xboard_node_plus.Validation.Spec.{KernelConfig}
use xboard_node_plus.Validation.Tags.{text_of}
use xboard_node_plus.Build.{M, Value, raw, at, get, as_m, as_m_of}
use xboard_node_plus.Build.Decision.{tag_in, tagged, tagged-append, tagged-none}
use xboard_node_plus.Build.Fields.{All-append}
use xboard_node_plus.Build.Library.{Library}
use xboard_node_plus.Build.SingBox.{outbounds, direct_outbound, block_outbound}
use xboard_node_plus.Build.SingBox.Outbounds.{outbound_config_to_singbox}
use xboard_node_plus.Build.Tags.{structured_tags, static_tags, tag_of, with_defaults}

abbrev pub block : Str
block = codes "block"

has_not-insert :
    (k : Str) (m : KeySet Str) → k ≢ block → has block m ≡ false → has block (insert k tt m) ≡ false
has_not-insert k m other free =
    ground (arith, other, free, lookup-insert k block tt m, str_beq_iff k block)

structured_tags-free :
    (l : List OutboundConfig) (m : KeySet Str)
    → All (λ o. to_lower o.tag ≢ block) l
    → has block m ≡ false
    → has block (structured_tags l m) ≡ false
unfolding structured_tags
structured_tags-free [] m others free = free
structured_tags-free (o ∷ l) m (other, others) free =
    structured_tags-free l (insert (to_lower o.tag) tt m) others
      (has_not-insert (to_lower o.tag) m other free)

static_tags-free :
    (l : List AnyMap) (m : KeySet Str)
    → All (λ o. to_lower (tag_of o) ≢ block) l
    → has block m ≡ false
    → has block (static_tags l m) ≡ false
unfolding static_tags
static_tags-free [] m others free = free
static_tags-free (o ∷ l) m (other, others) free = elim (Bool-cases (str_beq (tag_of o) [])) [
  | inl blank ↦ rw blank (static_tags-free l m others free)
  | inr named ↦ rw named (
      static_tags-free l (insert (to_lower (tag_of o)) tt m) others
        (has_not-insert (to_lower (tag_of o)) m other free))
]

abbrev raw_of : Option Any → Option Value
raw_of none = none
raw_of (some v) = some (raw v)

get-as_m : (k : Str) (m : Map Str Any) → get k (as_m m) ≡ raw_of (lookup k m)
unfolding get as_m lookup
get-as_m k [] = refl
get-as_m k ((j, v) ∷ m) = elim (Bool-cases (str_beq j k)) [
  | inl here ↦ rw here refl
  | inr other ↦ rw other (get-as_m k m)
]

tag_in-raw_of : (o : Option Any) → tag_in (raw_of o) ≡ text_of o
tag_in-raw_of none = refl
tag_in-raw_of (some null) = refl
tag_in-raw_of (some (bool b)) = refl
tag_in-raw_of (some (int n)) = refl
tag_in-raw_of (some (float b)) = refl
tag_in-raw_of (some (text s)) = refl
tag_in-raw_of (some (arr l)) = refl
tag_in-raw_of (some (obj m)) = refl

tag-as_m_of : (o : AnyMap) → tag_in (at "tag" (as_m_of o)) ≡ tag_of o
tag-as_m_of o =
    ap tag_in (get-as_m (codes "tag") (items o)) ∙ tag_in-raw_of (lookup (codes "tag") (items o))

lower-block : to_lower block ≡ block
unfolding to_lower
lower-block = refl

module _ (lib : Library) (kcfg : KernelConfig) (nc : NodeSpec) where
  -- An outbound of the panel that is not named "block", nor by a setting "tag".
  abbrev IsOther : OutboundConfig → Type 0
  IsOther o =
      (to_lower o.tag ≢ block) × (tag_in (at "tag" (outbound_config_to_singbox lib o)) ≢ block)

  -- No outbound of the panel or of the local list is named "block", in whatever case.
  pub record LeavesBlock : Type 0 where
    pub structured : All IsOther (items nc.custom_outbounds)
    pub static : All (λ o. to_lower (tag_of o) ≢ block) (items kcfg.custom_outbound)

  tags_of-structured :
      (l : List OutboundConfig) → All IsOther l → All (λ o. to_lower o.tag ≢ block) l
  tags_of-structured [] others = tt
  tags_of-structured (o ∷ l) (other, others) = (other.0, tags_of-structured l others)

  others-structured :
      (l : List OutboundConfig)
      → All IsOther l
      → All (λ m. tag_in (at "tag" m) ≢ block) (map (outbound_config_to_singbox lib) l)
  others-structured [] others = tt
  others-structured (o ∷ l) (other, others) = (other.1, others-structured l others)

  others-static :
      (l : List AnyMap)
      → All (λ o. to_lower (tag_of o) ≢ block) l
      → All (λ m. tag_in (at "tag" m) ≢ block) (map as_m_of l)
  others-static [] others = tt
  others-static (o ∷ l) (other, others) =
      (λ e. other (ap to_lower (sym (tag-as_m_of o) ∙ e) ∙ lower-block), others-static l others)

  abbrev own : List M
  own =
      map (outbound_config_to_singbox lib) (items nc.custom_outbounds)
      ++ map as_m_of (items kcfg.custom_outbound)

  abbrev tags : KeySet Str
  tags = static_tags (items kcfg.custom_outbound) (structured_tags (items nc.custom_outbounds) [])

  with_direct-none :
      (b : Bool)
      → tagged block own ≡ none
      → tagged block (if b then own else direct_outbound ∷ own) ≡ none
  unfolding tagged get str_beq
  with_direct-none true e = e
  with_direct-none false e = e

  -- Then this tag is that of an outbound of the type "block".
  pub tagged-outbounds : LeavesBlock → tagged block (outbounds lib kcfg nc) ≡ some block_outbound
  unfolding outbounds with_defaults tagged get str_beq lookup
  tagged-outbounds h =
      let free : has block tags ≡ false = static_tags-free (items kcfg.custom_outbound) _ h.static (
        structured_tags-free (items nc.custom_outbounds) []
          (tags_of-structured (items nc.custom_outbounds) h.structured) refl) in
      let other = tagged-none block own (
        All-append (λ m. tag_in (at "tag" m) ≢ block) _ _
          (others-structured (items nc.custom_outbounds) h.structured)
          (others-static (items kcfg.custom_outbound) h.static)) in
      rw free (
        tagged-append block (if has (codes "direct") tags then own else direct_outbound ∷ own)
          (block_outbound ∷ []) (with_direct-none (has (codes "direct") tags) other))
