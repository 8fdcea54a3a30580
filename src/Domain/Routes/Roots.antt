-- ===== src/Domain/Routes/Roots.antt =====
-- The root routes that sections 3 and 4 hand to `merge_ingress`.
use cf_docker_tunnel_sync.Base.{
  String, true, false, ◌≡◌, ◌≢◌, refl, sym, subst, ◌∙◌, inl, inr, Option, none, some, List, [], ◌∷◌,
  ◌++◌, if◌then◌else◌, Bool-cases, arith, string_dec,
}
use cf_docker_tunnel_sync.Base.Lists.{All, contains}
use cf_docker_tunnel_sync.Base.Dict.{Dict, lookup, insert, lookup-insert, Entry}
use cf_docker_tunnel_sync.Base.Json.{Json, Fields, truthy?}
use cf_docker_tunnel_sync.Domain.Models.{DiscoveredOrigin, Rule}
use cf_docker_tunnel_sync.Domain.Ingress.{as_text, hostname_of, has_path, by_hostname}
use cf_docker_tunnel_sync.Domain.Ingress.Roots.{IsRoot}
use cf_docker_tunnel_sync.Domain.Plan.{
  owned_record, existing_dns, cleanup, Cleanup, at_once, expired, waiting, start_tombstone,
  PlanArgs, active_origins, existing_ingress, is_discovered, collect,
}
use cf_docker_tunnel_sync.Domain.Plan.Collect.{All-roots}
use cf_docker_tunnel_sync.Domain.Routes.{
  desired_rule, request_entry, managed_route, existing_route, origin_route, active_route,
  missing_routes, missing_route, unmanaged_route, cleaned_route,
}
use cf_docker_tunnel_sync.Domain.Plan.Tables.{
  active_origins-Hosted, WellFormed, existing_ingress-IsRoot,
}

desired_rule-IsRoot :
    (host : String) (origin : DiscoveredOrigin) → host ≢ "" → IsRoot host (desired_rule host origin)
unfolding desired_rule request_entry hostname_of as_text has_path truthy? lookup string_dec
desired_rule-IsRoot host origin h = go origin.origin_request
  where
    go :
        (o : Option Fields)
        → IsRoot host (
            ("hostname", Json.text host)
            ∷ ("service", Json.text origin.service_target)
            ∷ request_entry o)
    go none = record {
      distinct = (refl, (refl, tt));
      named = refl;
      hosted = h;
      pathless = refl;
      served = refl;
    }
    go (some Fields.end) = record {
      distinct = (refl, (refl, tt));
      named = refl;
      hosted = h;
      pathless = refl;
      served = refl;
    }
    go (some (Fields.field k v fs)) = record {
      distinct = (refl, (refl, (refl, tt)));
      named = refl;
      hosted = h;
      pathless = refl;
      served = refl;
    }

hostname_of-desired_rule :
    (host : String) (origin : DiscoveredOrigin) → hostname_of (desired_rule host origin) ≡ host
unfolding desired_rule hostname_of as_text lookup string_dec
hostname_of-desired_rule host origin = refl

module _ (args : PlanArgs) (managed : args.preserve_manual_roots ≡ false) where
  -- Without manual roots a discovered host gives its desired rule.
  existing_route-roots :
      (host : String) (origin : DiscoveredOrigin) (o : Option Rule)
      → (existing_route args host origin o).roots ≡ desired_rule host origin ∷ []
  unfolding existing_route managed_route
  existing_route-roots host origin none = refl
  existing_route-roots host origin (some existing) = simp managed

  active_route-roots :
      (host : String) (origin : DiscoveredOrigin)
      → lookup host (active_origins args) ≡ some origin
      → (active_route args host).roots ≡ desired_rule host origin ∷ []
  unfolding active_route origin_route
  active_route-roots host origin h =
      rw h (existing_route-roots host origin (lookup host (existing_ingress args)))

  pub active_route-IsRoot :
      (host : String)
      → is_discovered args host ≡ true
      → All (λ r. IsRoot (hostname_of r) r) (active_route args host).roots
  active_route-IsRoot host h = go (lookup host (active_origins args)) refl
    where
      go :
          (o : Option DiscoveredOrigin)
          → lookup host (active_origins args) ≡ o
          → All (λ r. IsRoot (hostname_of r) r) (active_route args host).roots
      go none e = absurd (ground arith)
      go (some origin) e = rw (active_route-roots host origin e) (
        rw (hostname_of-desired_rule host origin)
            (desired_rule-IsRoot host origin (active_origins-Hosted args host e)),
        tt,
      )

  -- The last desired rule of each host that the loop visits is the rule of its origin.
  pub by_hostname-active_routes :
      (host : String) (origin : DiscoveredOrigin)
      → lookup host (active_origins args) ≡ some origin
      → (hosts : List String) (pending : Dict Rule) → All (λ h. is_discovered args h ≡ true) hosts
      → lookup host (by_hostname (collect (active_route args) hosts).roots pending)
        ≡ (if contains hosts host then some (desired_rule host origin) else lookup host pending)
  unfolding collect by_hostname
  by_hostname-active_routes host origin found [] pending a = refl
  by_hostname-active_routes host origin found (x ∷ hosts) pending a =
      go (lookup x (active_origins args)) refl
        (λ p. by_hostname-active_routes host origin found hosts p a.1)
    where
      rest : List Rule
      rest = (collect (active_route args) hosts).roots

      want : List String → Dict Rule → Option Rule
      want hs p = if contains hs host then some (desired_rule host origin) else lookup host p

      go :
          (o : Option DiscoveredOrigin)
          → lookup x (active_origins args) ≡ o
          → ((p : Dict Rule) → lookup host (by_hostname rest p) ≡ want hosts p)
          → lookup host (by_hostname ((active_route args x).roots ++ rest) pending)
            ≡ want (x ∷ hosts) pending
      go none e ih = absurd (ground arith)
      go (some o) e ih =
          let d = desired_rule x o in
          rw (active_route-roots x o e, ih (insert (hostname_of d) d pending))
            (ground
              (arith, lookup-insert host (hostname_of d) d pending, hostname_of-desired_rule x o))

-- Rules of other hosts say nothing of a host.
pub by_hostname-others :
    (host : String) (rules : List Rule) (pending : Dict Rule)
    → All (λ r. hostname_of r ≢ host) rules
    → lookup host (by_hostname rules pending) ≡ lookup host pending
unfolding by_hostname
by_hostname-others host [] pending a = refl
by_hostname-others host (r ∷ rules) pending a =
    by_hostname-others host rules (insert (hostname_of r) r pending) a.1
    ∙ ground
        (arith, lookup-insert host (hostname_of r) r pending, λ (e : hostname_of r ≡ host). a.0 e)

pub by_hostname-append :
    (xs ys : List Rule) (pending : Dict Rule)
    → by_hostname (xs ++ ys) pending ≡ by_hostname ys (by_hostname xs pending)
unfolding by_hostname
by_hostname-append [] ys pending = refl
by_hostname-append (x ∷ xs) ys pending = by_hostname-append xs ys (insert (hostname_of x) x pending)

-- A route of section 4 is a root route of a host that was not discovered.
abbrev pub Undiscovered : PlanArgs → Rule → Type 0
Undiscovered args r = IsRoot (hostname_of r) r × (is_discovered args (hostname_of r) ≡ false)

IsRoot-Undiscovered :
    (args : PlanArgs) (host : String) (rule : Rule)
    → IsRoot host rule
    → is_discovered args host ≡ false
    → Undiscovered args rule
IsRoot-Undiscovered args host rule root e = (
  subst (λ h. IsRoot h rule) (sym root.named) root,
  subst (λ h. is_discovered args h ≡ false) (sym root.named) e,
)

cleaned_route-Undiscovered :
    (args : PlanArgs) (host : String) (rule : Rule) (c : Cleanup)
    → Undiscovered args rule
    → All (Undiscovered args) (cleaned_route args host rule c).roots
unfolding cleaned_route
cleaned_route-Undiscovered args host rule at_once u = tt
cleaned_route-Undiscovered args host rule start_tombstone u = (u, tt)
cleaned_route-Undiscovered args host rule expired u = tt
cleaned_route-Undiscovered args host rule (waiting n) u = (u, tt)

missing_route-Undiscovered :
    (args : PlanArgs) (entry : String × Rule)
    → Entry IsRoot entry
    → All (Undiscovered args) (missing_route args entry).roots
unfolding missing_route unmanaged_route
missing_route-Undiscovered args (host, rule) root = elim (Bool-cases (is_discovered args host)) [
  | inl e ↦ rw e tt
  | inr e ↦ rw e (elim (Bool-cases (owned_record args (lookup host (existing_dns args)))) [
    | inl f ↦ rw f (
        cleaned_route-Undiscovered args host rule (cleanup args host)
          (IsRoot-Undiscovered args host rule root e))
    | inr f ↦ rw f (IsRoot-Undiscovered args host rule root e, tt)
  ])
]

pub missing_routes-Undiscovered :
    (args : PlanArgs)
    → All WellFormed args.remote.existing_ingress_rules
    → All (Undiscovered args) (missing_routes args).roots
unfolding missing_routes
missing_routes-Undiscovered args w =
    All-roots (missing_route args) (Undiscovered args) (Entry IsRoot)
      (missing_route-Undiscovered args) (existing_ingress args) (existing_ingress-IsRoot args w)
