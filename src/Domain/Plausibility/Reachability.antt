-- ===== src/Domain/Plausibility/Reachability.antt =====
-- tunnel_sync/domain/discovery.py: which origins are found implausible.
use cf_docker_tunnel_sync.Base.{
  String, true, false, ◌||◌, Option, List, [], ◌∷◌, ◌≡◌, sym, ◌∙◌, arith, Bool-cases, inl, inr,
}
use cf_docker_tunnel_sync.Base.Lists.{contains, keep, All, is_empty}
use cf_docker_tunnel_sync.Base.Sort.{sorted, sorted-is_empty}
use cf_docker_tunnel_sync.Domain.Models.{is_text}
use cf_docker_tunnel_sync.Domain.Plausibility.{
  Parsers, target_host, by_networks, by_target, evaluate_origin_network_plausibility,
}

-- No network of the first list stands in the second.
abbrev pub Apart : List String → List String → Type 0
Apart container connector = All (λ n. contains connector n ≡ false) container

-- Neither side is on the host's network, the connector has networks, and the container is on none of
-- them.
pub record CannotReach (mode : Option String) (container connector : List String) : Type 0 where
  pub bridged : (is_text mode "host" || contains container "host") ≡ false
  pub connector_bridged : contains connector "host" ≡ false
  pub known : is_empty connector ≡ false
  pub apart : Apart container connector

kept_none :
    (container connector : List String)
    → is_empty (keep (contains connector) container) ≡ true
    → Apart container connector
kept_none [] connector h = tt
kept_none (n ∷ ns) connector h = elim (Bool-cases (contains connector n)) [
  | inl e ↦ absurd (cc (simp e at h))
  | inr e ↦ (e, kept_none ns connector (simp e at h))
]

by_networks-implausible :
    (target : String) (container connector : List String)
    → (by_networks target container connector).is_plausible ≡ false
    → (is_empty connector ≡ false) × Apart container connector
unfolding by_networks
by_networks-implausible target container connector h =
    let shared = sorted (keep (contains connector) container) in
    elim (Bool-cases (is_empty shared)) [
      | inl e ↦ elim (Bool-cases (is_empty connector)) [
        | inl f ↦ absurd (cc (simp (e, f) at h))
        | inr f ↦ (
          f,
          kept_none container connector
              (sym (sorted-is_empty (keep (contains connector) container)) ∙ e),
        )
      ]
      | inr e ↦ absurd (cc (simp e at h))
    ]

by_target-implausible :
    (parsers : Parsers) (host target : String) (container connector : List String)
    → (by_target parsers host target container connector).is_plausible ≡ false
    → (by_networks target container connector).is_plausible ≡ false
unfolding by_target
by_target-implausible parsers host target container connector h = ground (arith, h)

-- An origin is found implausible only if neither the container nor the connector is on the host's
-- network, the networks of the connector are known, and the container is on none of them, whatever the
-- target is and whatever the parsers of URLs and addresses answer.
pub evaluate_origin_network_plausibility-CannotReach :
    (parsers : Parsers) (target : String) (container : List String) (mode : Option String)
    (connector : List String)
    → (evaluate_origin_network_plausibility parsers target container mode connector).is_plausible
      ≡ false
    → CannotReach mode container connector
unfolding evaluate_origin_network_plausibility
evaluate_origin_network_plausibility-CannotReach parsers target container mode connector h =
    elim (Bool-cases (is_text mode "host" || contains container "host")) [
      | inl e ↦ absurd (cc (simp e at h))
      | inr e ↦ elim (Bool-cases (contains connector "host")) [
        | inl f ↦ absurd (cc (simp (e, f) at h))
        | inr f ↦
            let apart = by_networks-implausible target container connector (
              by_target-implausible parsers (target_host parsers target) target container connector
                (simp (e, f) at h)) in
            record { bridged = e; connector_bridged = f; known = apart.0; apart = apart.1 }
      ]
    ]
