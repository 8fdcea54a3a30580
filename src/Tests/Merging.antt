-- ===== src/Tests/Merging.antt =====
-- `merge_ingress`.
use cf_docker_tunnel_sync.Base.{
  ◌≡◌, refl, [], ◌∷◌, string_dec, ne_of_test, List, ◌++◌, if◌then◌else◌,
}
use cf_docker_tunnel_sync.Base.Json.{truthy?}
use cf_docker_tunnel_sync.Base.Lists.{any, keep}
use cf_docker_tunnel_sync.Base.Dict.{lookup, insert, erase, update}
use cf_docker_tunnel_sync.Base.Sort.{sorted}
use cf_docker_tunnel_sync.Domain.Ingress.{
  as_text, hostname_of, has_path, is_fallback, merge_ingress, by_hostname, merge_loop,
  with_fallback, flush, in_order, some_rule, replaced, replacement, not_found_rule,
}
use cf_docker_tunnel_sync.Domain.Ingress.Roots.{IsRoot}
use cf_docker_tunnel_sync.Domain.Ingress.Fallback.{is_fixed, keep_fixed-merge_ingress}
use cf_docker_tunnel_sync.Domain.Ingress.Serving.{Serves, merge_ingress-Serves}
use cf_docker_tunnel_sync.Domain.Models.{Rule}
use cf_docker_tunnel_sync.Tests.Data.{old_route, path_route, fallback, route}

abbrev app_route : Rule
app_route = route "app.example.com" "http://app:8080"

merge_adds :
    merge_ingress (old_route ∷ path_route ∷ fallback ∷ []) (app_route ∷ [])
    ≡ path_route ∷ app_route ∷ fallback ∷ []
unfolding merge_ingress by_hostname merge_loop with_fallback flush in_order some_rule replaced
    replacement as_text hostname_of has_path truthy? lookup insert erase update sorted string_dec
merge_adds = refl

abbrev existing : List Rule
existing = old_route ∷ path_route ∷ fallback ∷ []

app_route-IsRoot : IsRoot (hostname_of app_route) app_route
unfolding as_text hostname_of has_path truthy? lookup string_dec
app_route-IsRoot = record {
  distinct = (refl, (refl, tt));
  named = refl;
  hosted = ne_of_test "app.example.com" "" refl;
  pathless = refl;
  served = refl;
}

keep_fixed-merge_ingress_example : keep is_fixed (merge_ingress existing (app_route ∷ [])) ≡ (
    if any is_fallback existing
    then keep is_fixed existing
    else keep is_fixed existing ++ not_found_rule ∷ [])
keep_fixed-merge_ingress_example =
    keep_fixed-merge_ingress existing (app_route ∷ []) (app_route-IsRoot, tt)

merge_ingress-Serves_example :
    Serves "app.example.com" app_route (merge_ingress existing (app_route ∷ []))
unfolding by_hostname insert lookup as_text hostname_of string_dec
merge_ingress-Serves_example =
    merge_ingress-Serves existing (app_route ∷ []) "app.example.com" app_route
      (app_route-IsRoot, tt) refl
