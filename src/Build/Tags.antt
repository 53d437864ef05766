-- ===== src/Build/Tags.antt =====
-- The tags that buildConfig of both kernels collects, to add the outbounds "direct" and "block" only
-- where none has the name.
use xboard_node_plus.Prelude.{
  Str, List, [], ◌∷◌, ◌++◌, if◌then◌else◌, KeySet, map, str_beq, lookup, str_eq, insert, has,
  to_lower, codes,
}
use xboard_node_plus.Model.Values.{AnyMap, items}
use xboard_node_plus.Model.{OutboundConfig}
use xboard_node_plus.Validation.Tags.{text_of}
use xboard_node_plus.Build.{M, as_m_of}

unfoldable pub structured_tags : List OutboundConfig → KeySet Str → KeySet Str
structured_tags [] tags = tags
structured_tags (co ∷ l) tags = structured_tags l (insert (to_lower co.tag) tt tags)

abbrev pub tag_of : AnyMap → Str
tag_of co = text_of (lookup (codes "tag") (items co))

unfoldable pub static_tags : List AnyMap → KeySet Str → KeySet Str
static_tags [] tags = tags
static_tags (co ∷ l) tags =
    static_tags l (if str_beq (tag_of co) [] then tags else insert (to_lower (tag_of co)) tt tags)

-- The outbounds of buildConfig: the structured ones converted, the static ones as they are, and the
-- defaults that are missing.
unfoldable pub with_defaults :
    (convert : OutboundConfig → M) (direct block : M) → List OutboundConfig → List AnyMap → List M
with_defaults convert direct block structured static =
    let tags = static_tags static (structured_tags structured []) in
    let outbounds = map convert structured ++ map as_m_of static in
    let first = if has (codes "direct") tags then outbounds else direct ∷ outbounds in
    if has (codes "block") tags then first else first ++ (block ∷ [])
