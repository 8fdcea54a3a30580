-- ===== src/Domain/Plan/Tables.antt =====
-- What stands in the tables of origins and of existing routes.
use cf_docker_tunnel_sync.Base.{
  String, Bool, true, false, ◌≡◌, ◌≢◌, refl, inl, inr, some, List, [], ◌∷◌, if◌then◌else◌,
  Bool-cases, ne_of_test, not, ◌⊎◌, arith, ◌==◌, ◌&&◌,
}
use cf_docker_tunnel_sync.Base.Lists.{All}
use cf_docker_tunnel_sync.Base.Dict.{
  Dict, lookup, insert, NodupKeys, Entry, All-insert, All-lookup, All-set_default, set_default,
  contains_key,
}
use cf_docker_tunnel_sync.Domain.Models.{DiscoveredOrigin, Rule}
use cf_docker_tunnel_sync.Domain.Ingress.{is_fallback, hostname_of, has_path}
use cf_docker_tunnel_sync.Domain.Ingress.Roots.{IsRoot}
use cf_docker_tunnel_sync.Domain.Plan.{
  PlanArgs, index_origins, active_origins, index_rules, existing_ingress,
}

-- The hostname of an origin is a text that is not empty.
abbrev Hosted : String → DiscoveredOrigin → Type 0
Hosted k o = k ≢ ""

index_origins-Hosted :
    (os : List DiscoveredOrigin) (d : Dict DiscoveredOrigin)
    → All (Entry Hosted) d
    → All (Entry Hosted) (index_origins os d)
unfolding index_origins
index_origins-Hosted [] d a = a
index_origins-Hosted (o ∷ os) d a = index_origins-Hosted os _ (step (Bool-cases (o.hostname == "")))
  where
    step :
        ((o.hostname == "") ≡ true) ⊎ ((o.hostname == "") ≡ false)
        → All (Entry Hosted) (if o.hostname == "" then d else insert o.hostname o d)
    step (inl e) = rw e a
    step (inr e) = rw e (All-insert Hosted o.hostname o d (ne_of_test o.hostname "" e) a)

pub active_origins-Hosted :
    (args : PlanArgs) (host : String) {o : DiscoveredOrigin}
    → lookup host (active_origins args) ≡ some o
    → host ≢ ""
unfolding active_origins
active_origins-Hosted args host {o} h =
    All-lookup Hosted host o (active_origins args)
      (index_origins-Hosted args.snapshot.origins [] tt) h

-- A rule as Cloudflare sends it: a dict with a service.
abbrev pub WellFormed : Rule → Type 0
WellFormed r = NodupKeys r × (contains_key "service" r ≡ true)

index_rules-IsRoot :
    (rules : List Rule) (d : Dict Rule)
    → All WellFormed rules
    → All (Entry IsRoot) d
    → All (Entry IsRoot) (index_rules rules d)
unfolding index_rules
index_rules-IsRoot [] d w a = a
index_rules-IsRoot (r ∷ rules) d w a = index_rules-IsRoot rules _ w.1 (step (Bool-cases is_root))
  where
    is_root : Bool
    is_root = not (is_fallback r) && not (has_path r)

    step :
        (is_root ≡ true) ⊎ (is_root ≡ false)
        → All (Entry IsRoot) (if is_root then set_default (hostname_of r) r d else d)
    step (inl e) = rw e (
        All-set_default IsRoot (hostname_of r) r d
          (record {
            distinct = w.0.0;
            named = refl;
            hosted = (λ x. ground arith);
            pathless = ground arith;
            served = w.0.1;
          })
          a)
    step (inr e) = rw e a

pub existing_ingress-IsRoot :
    (args : PlanArgs)
    → All WellFormed args.remote.existing_ingress_rules
    → All (Entry IsRoot) (existing_ingress args)
unfolding existing_ingress
existing_ingress-IsRoot args w = index_rules-IsRoot args.remote.existing_ingress_rules [] w tt
