-- ===== src/Domain/Plausibility.antt =====
-- tunnel_sync/domain/discovery.py: `evaluate_origin_network_plausibility`. Sets of networks are lists
-- without repetition; `urlsplit` and `ip_address` are parameters.
pub mod Reachability
use cf_docker_tunnel_sync.Base.{
  String, ◌<>◌, Bool, true, false, not, ◌&&◌, ◌||◌, Option, none, some, List, [], ◌∷◌, ◌≡◌, ◌≢◌,
  refl, arith, ◌==◌, if◌then◌else◌, Bool-cases, inl, inr,
}
use cf_docker_tunnel_sync.Base.Lists.{contains, keep, is_empty}
use cf_docker_tunnel_sync.Base.Sort.{sorted, contains-sorted}
use cf_docker_tunnel_sync.Base.Text.{strip, lower, ends_with, has_text, join}
use cf_docker_tunnel_sync.Domain.Models.{or_default, is_text}

pub data ConnectionMode : Type 0 where
  shared_docker_network host_mode external_target gateway disjoint unknown : ConnectionMode

pub record Plausibility : Type 0 where
  pub is_plausible : Bool
  pub connection_mode : ConnectionMode
  pub shared_networks : List String
  pub diagnostic_message : String

-- An address: whether it is a loopback address, and its text.
pub record IpAddress : Type 0 where
  pub is_loopback : Bool
  pub text : String

-- `urlsplit(s).hostname`, where no answer is an exception, and `ip_address(s)`.
pub record Parsers : Type 0 where
  pub url_hostname : String → Option (Option String)
  pub ip_address : String → Option IpAddress

abbrev pub plausible : ConnectionMode → String → Plausibility
plausible mode message = record {
  is_plausible = true;
  connection_mode = mode;
  shared_networks = [];
  diagnostic_message = message;
}

abbrev parsed_host : Option (Option String) → String
parsed_host none = ""
parsed_host (some hostname) = lower (or_default hostname "")

unfoldable pub target_host : Parsers → String → String
target_host parsers service_target =
    let s = strip service_target in
    let url = if has_text s "://" then s else "http://" <> s in
    if service_target == "" then "" else parsed_host (parsers.url_hostname url)

abbrev pub gateway_hosts : List String
gateway_hosts =
    "host.docker.internal" ∷ "gateway.docker.internal" ∷ "localhost" ∷ "127.0.0.1" ∷ "172.17.0.1"
    ∷ []

abbrev is_external_ip : Option IpAddress → Bool
is_external_ip none = false
is_external_ip (some ip) = not ip.is_loopback && not (ip.text == "172.17.0.1")

abbrev pub names_or_none : List String → String
names_or_none [] = "none"
names_or_none (n ∷ ns) = join ", " (sorted (n ∷ ns))

unfoldable pub disjoint_networks : String → List String → List String → Plausibility
disjoint_networks service_target container connector = record {
  is_plausible = false;
  connection_mode = disjoint;
  shared_networks = [];
  diagnostic_message =
      "Container networks ("
      <> names_or_none container
      <> ") do not overlap with connector networks ("
      <> names_or_none connector
      <> "). Requests to '"
      <> service_target
      <> "' will fail with 502 Bad Gateway! Attach both containers to a shared Docker bridge network.";
}

-- The tests on the networks.
unfoldable pub by_networks : String → List String → List String → Plausibility
by_networks service_target container connector =
    let shared = sorted (keep (contains connector) container) in
    if not (is_empty shared)
    then record {
      is_plausible = true;
      connection_mode = shared_docker_network;
      shared_networks = shared;
      diagnostic_message = "Container and connector share network(s): " <> join ", " shared <> ".";
    }
    else if is_empty connector
    then plausible unknown
        "Connector networks could not be determined; skipping strict network check."
    else disjoint_networks service_target container connector

-- The tests on the host of the target.
unfoldable pub by_target : Parsers → String → String → List String → List String → Plausibility
by_target parsers host service_target container connector =
    if contains gateway_hosts host
    then plausible gateway ("Service targets host gateway or loopback interface (" <> host <> ").")
    else if not (host == "") && is_external_ip (parsers.ip_address host)
    then plausible external_target ("Service targets external IP address (" <> host <> ").")
    else if not (host == "")
        && has_text host "."
        && not (ends_with host ".internal")
        && not (ends_with host ".local")
    then plausible external_target ("Service targets external FQDN (" <> host <> ").")
    else by_networks service_target container connector

unfoldable pub evaluate_origin_network_plausibility :
    Parsers → String → List String → Option String → List String → Plausibility
evaluate_origin_network_plausibility parsers service_target container mode connector =
    if is_text mode "host" || contains container "host"
    then plausible host_mode "Container operates in host network mode (direct port routing)."
    else if contains connector "host"
    then plausible host_mode "Connector operates in host network mode."
    else by_target parsers (target_host parsers service_target) service_target container connector
