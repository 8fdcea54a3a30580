-- ===== src/Domain/Ingress/Roots.antt =====
-- The routes that `merge_ingress` is given, and which rule serves a hostname.
use cf_docker_tunnel_sync.Base.{
  String, true, false, ◌≡◌, ◌≢◌, refl, none, some, List, [], ◌∷◌, ◌==◌, if◌then◌else◌, string_dec,
  arith, sym, subst₂, inl, inr,
}
use cf_docker_tunnel_sync.Base.Lists.{All}
use cf_docker_tunnel_sync.Base.Dict.{
  Dict, lookup, insert, erase, NodupKeys, lookup-update, lookup-erase, contains_key, lookup-nil,
  first_some, lookup-insert_cases,
}
use cf_docker_tunnel_sync.Base.Json.{truthy?}
use cf_docker_tunnel_sync.Domain.Models.{Rule}
use cf_docker_tunnel_sync.Domain.Ingress.{as_text, hostname_of, has_path, by_hostname, replacement}

-- A rule that the planner gives: a root route of hostname `k`.
pub record IsRoot (k : String) (r : Rule) : Type 0 where
  pub distinct : NodupKeys r
  pub named : hostname_of r ≡ k
  pub hosted : k ≢ ""
  pub pathless : has_path r ≡ false
  pub served : contains_key "service" r ≡ true

-- The pending rules are roots at their keys.
pub record IsPending (pending : Dict Rule) : Type 0 where
  pub at : (k : String) (r : Rule) → lookup k pending ≡ some r → IsRoot k r

pub lookup-replacement :
    (j : String) (original desired : Rule)
    → NodupKeys desired
    → lookup j (replacement original desired)
      ≡ first_some (lookup j desired) (if j == "originRequest" then none else lookup j original)
unfolding replacement
lookup-replacement j original desired u =
    rw (lookup-update j (erase "originRequest" original) desired u, lookup-erase j _ original)

hostname_key : ("hostname" == "originRequest") ≡ false
unfolding string_dec
hostname_key = refl

path_key : ("path" == "originRequest") ≡ false
unfolding string_dec
path_key = refl

service_key : ("service" == "originRequest") ≡ false
unfolding string_dec
service_key = refl

request_key : ("originRequest" == "originRequest") ≡ true
unfolding string_dec
request_key = refl

module _ (k : String) (original desired : Rule) (root : IsRoot k desired) where
  -- A replaced rule has the hostname of the desired one.
  pub hostname_of-replacement : hostname_of (replacement original desired) ≡ k
  unfolding hostname_of as_text
  hostname_of-replacement =
      rw (lookup-replacement "hostname" original desired root.distinct)
        (ground (arith, root.named, root.hosted))

  pub has_path-replacement :
      has_path original ≡ false → has_path (replacement original desired) ≡ false
  unfolding has_path truthy?
  has_path-replacement h =
      rw (lookup-replacement "path" original desired root.distinct, path_key)
        (ground (arith, root.pathless))

  pub service-replacement :
      lookup "service" (replacement original desired) ≡ lookup "service" desired
  service-replacement =
      rw (lookup-replacement "service" original desired root.distinct) (ground (arith, root.served))

  pub request-replacement :
      lookup "originRequest" (replacement original desired) ≡ lookup "originRequest" desired
  request-replacement =
      rw (lookup-replacement "originRequest" original desired root.distinct, request_key)
        (ground arith)

pub IsPending-erase :
    (k : String) (pending : Dict Rule) → IsPending pending → IsPending (erase k pending)
IsPending-erase k pending p = record {
  at = λ j r h. p.at j r (ground (arith, lookup-erase j k pending));
}

pub IsPending-nil : IsPending []
IsPending-nil = record { at = λ j r h. cc (lookup-nil {V = Rule} j) }

pub by_hostname-IsPending :
    (desired : List Rule) (pending : Dict Rule)
    → IsPending pending
    → All (λ r. IsRoot (hostname_of r) r) desired
    → IsPending (by_hostname desired pending)
unfolding by_hostname
by_hostname-IsPending [] pending p a = p
by_hostname-IsPending (r ∷ rs) pending p a =
    by_hostname-IsPending rs (insert (hostname_of r) r pending)
      (record { at = λ j q h. at_key j q h }) a.1
  where
    at_key :
        (j : String) (q : Rule) → lookup j (insert (hostname_of r) r pending) ≡ some q → IsRoot j q
    at_key j q h = elim (lookup-insert_cases j (hostname_of r) r q pending h) [
      | inl (e, same) ↦ subst₂ IsRoot (sym e) same a.0
      | inr old ↦ p.at j q old
    ]
