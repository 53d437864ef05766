-- ===== src/Build/Geo.antt =====
-- internal/kernel/geo.go and custom_route_compile.go: whether the routes need the geo data.
use xboard_node_plus.Prelude.{Str, Bool, List, any, has_prefix, codes, ◌||◌}
use xboard_node_plus.Model.Values.{items}
use xboard_node_plus.Model.{RouteRule, CustomRouteRule}

abbrev is_geoip : Str → Bool
is_geoip s = has_prefix s (codes "geoip:")

abbrev is_geosite : Str → Bool
is_geosite s = has_prefix s (codes "geosite:")

unfoldable pub needs_geo_ip : List RouteRule → Bool
needs_geo_ip = any (λ r. any is_geoip (items r.match))

unfoldable pub needs_geo_site : List RouteRule → Bool
needs_geo_site = any (λ r. any is_geosite (items r.match))

unfoldable pub needs_geo_ip_rules : List CustomRouteRule → Bool
needs_geo_ip_rules =
    any (λ r. any is_geoip (items r.match.ip_cidrs) || any is_geoip (items r.match.source_cidrs))

unfoldable pub needs_geo_site_rules : List CustomRouteRule → Bool
needs_geo_site_rules =
    any (λ r.
      any is_geosite (items r.match.domains) || any is_geosite (items r.match.domain_suffixes))
