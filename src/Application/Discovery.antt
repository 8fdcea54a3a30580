-- ===== src/Application/Discovery.antt =====
-- tunnel_sync/application/discovery.py: `_discover` and `collect`. The texts of log lines are
-- constructors with the values formatted into them; the parsers of URLs and addresses and the text of
-- a number are parameters.
pub mod Connectors
pub mod Loop
pub mod Seen
pub mod Walking
pub mod Selection
pub mod Failures
use cf_docker_tunnel_sync.Base.{
  ℕ, String, ◌<>◌, Bool, true, false, not, ◌&&◌, ◌||◌, Option, none, some, List, [], ◌∷◌, ◌++◌, map,
  ◌==◌, if◌then◌else◌,
}
use cf_docker_tunnel_sync.Base.Lists.{contains, any, is_empty}
use cf_docker_tunnel_sync.Base.Dict.{Dict, lookup, contains_key}
use cf_docker_tunnel_sync.Base.Json.{Json}
use cf_docker_tunnel_sync.Base.Sort.{sorted}
use cf_docker_tunnel_sync.Base.Text.{strip, lower, lstrip_slash, ends_with, join}
use cf_docker_tunnel_sync.Domain.Models.{or_default, is_text}
use cf_docker_tunnel_sync.Domain.Hostnames.{normalize_hostname}
use cf_docker_tunnel_sync.Domain.Labels.{
  hostname_group, name_group, first_label, first_of, truthy, ServiceUrl, explicit, address,
  PortWarning, ParsedOrigin, parse_origin_labels,
}
use cf_docker_tunnel_sync.Domain.Plausibility.{
  Parsers, Plausibility, evaluate_origin_network_plausibility,
}
use cf_docker_tunnel_sync.Domain.Diagnostics.{
  Stage, ServiceFacts, ServiceStatus, evaluate_service_stages, compute_truthful_service_status,
}
use cf_docker_tunnel_sync.Application.Discovery.Connectors.{
  Container, Item, container, malformed, labels_of, Listing, listed, not_a_list, unavailable,
  failing, resolve_target_connector_container,
}

-- The settings that are read, with their defaults filled in, and the own hostname. `domain` is the
-- setting's property, already stripped and in small letters.
pub record Settings : Type 0 where
  pub domain : String
  pub tunnel_name : String
  pub network_name : String
  pub require_shared_network : String
  pub strict_network_check : String
  pub connector_setting : String
  pub my_hostname : String

-- `str(port)`, and the parsers.
pub record Tools : Type 0 where
  pub show : ℕ → String
  pub parsers : Parsers

-- `LEGACY_LABEL_CANONICAL_MAP`
abbrev pub legacy_labels : Dict String
legacy_labels =
    ("cloudflared.hostname", "cf.tunnel.hostname")
    ∷ ("cloudflared.domain", "cf.tunnel.domain")
    ∷ ("cloudflared.port", "cf.tunnel.port")
    ∷ ("cloudflared.service", "cf.tunnel.service")
    ∷ ("cloudflared.proto", "cf.tunnel.proto")
    ∷ ("cloudflared.protocol", "cf.tunnel.protocol")
    ∷ ("cloudflared.scheme", "cf.tunnel.scheme")
    ∷ ("cloudflared.name", "cf.tunnel.name")
    ∷ ("cloudflared.tunnel", "cf.tunnel.name")
    ∷ ("cloudflared.notlsverify", "cf.tunnel.origin_request.no_tls_verify")
    ∷ ("cloudflared.notls_verify", "cf.tunnel.origin_request.no_tls_verify")
    ∷ ("cloudflared.originRequest.noTLSVerify", "cf.tunnel.origin_request.no_tls_verify")
    ∷ ("cloudflared.origin_request.no_tls_verify", "cf.tunnel.origin_request.no_tls_verify")
    ∷ ("cloudflared.httpHostHeader", "cf.tunnel.origin_request.http_host_header")
    ∷ ("cloudflared.originRequest.httpHostHeader", "cf.tunnel.origin_request.http_host_header")
    ∷ ("port", "cf.tunnel.port")
    ∷ ("proto", "cf.tunnel.proto")
    ∷ ("protocol", "cf.tunnel.protocol")
    ∷ ("scheme", "cf.tunnel.scheme")
    ∷ ("notlsverify", "cf.tunnel.origin_request.no_tls_verify")
    ∷ ("cloudflared.host", "cf.tunnel.hostname")
    ∷ ("cf.tunnel.host", "cf.tunnel.hostname")
    ∷ ("hostname", "cf.tunnel.hostname")
    ∷ ("host", "cf.tunnel.hostname")
    ∷ []

-- What can raise in the loop: `get` on a value that is no dict, and `int` on the label of a port.
pub data Failure : Type 0 where
  no_dict port_refused : Failure

pub data LogLine : Type 0 where
  deprecated : String → String → String → LogLine
  invalid_hostname duplicate_hostname : String → String → LogLine
  port_warning : PortWarning → LogLine
  not_attached excluded : String → String → String → LogLine
  non_list_response : LogLine
  docker_error : String → LogLine
  item_error : Failure → LogLine

-- An entry of `services`. The keys "name" and "container" both hold the name.
pub record ServiceItem : Type 0 where
  pub name : String
  pub hostname : String
  pub service : ServiceUrl
  pub no_tls_verify : Bool
  pub access_policy : String
  pub network_connected : Bool
  pub network_warning : Option String
  pub origin_request : Dict Json
  pub stages : Dict Stage
  pub status : ServiceStatus

-- The value at the key "status" of an entry of `all_containers`.
pub data EntryStatus : Type 0 where
  docker_status : String → EntryStatus
  service_status : ServiceStatus → EntryStatus

pub record ContainerEntry : Type 0 where
  pub name : String
  pub image : String
  pub state : String
  pub status : EntryStatus
  pub hostname : String
  pub is_tunneled : Bool
  pub network_connected : Bool
  pub stages : Option (Dict Stage)
  pub access_policy : String

-- What the loop has gathered, with the deprecations that were told and the log.
pub record Progress : Type 0 where
  pub services : List ServiceItem
  pub containers : List ContainerEntry
  pub seen : List String
  pub warned : List (String × String)
  pub log : List LogLine

abbrev first_name : List String → String
first_name [] = "unknown"
first_name (n ∷ ns) = lstrip_slash n

-- `c_name`
unfoldable pub name_of : Container → String
name_of c = first_name (or_default c.names ("/unknown" ∷ []))

unfoldable pub raw_hostname : Container → Option String
raw_hostname c = first_label (labels_of c) hostname_group

-- The normalized hostname of a label that is not empty.
unfoldable pub hostname_of : Container → Option String
hostname_of c = if truthy (raw_hostname c) then normalize_hostname (raw_hostname c) else none

unfoldable pub matches_domain : Settings → String → Bool
matches_domain settings hostname =
    let domain = lower settings.domain in
    if not (domain == "") && not (hostname == "")
    then hostname == domain || ends_with hostname ("." <> domain)
    else true

abbrev is_tunnel : Option String → String → Bool
is_tunnel none tunnel_name = true
is_tunnel (some target) tunnel_name =
    if target == "" then true else strip target == strip tunnel_name

unfoldable pub matches_tunnel : Settings → Container → Bool
matches_tunnel settings c = is_tunnel (first_label (labels_of c) name_group) settings.tunnel_name

abbrev pub state_of : Container → String
state_of c = or_default c.state "unknown"

-- The test on a container with a hostname.
unfoldable pub is_selected : Settings → Container → String → Bool
is_selected settings c hostname =
    not (hostname == "")
    && state_of c == "running"
    && matches_domain settings hostname
    && matches_tunnel settings c

abbrev is_true : String → Bool
is_true text = contains ("true" ∷ "1" ∷ "yes" ∷ []) (lower text)

unfoldable pub enforce_strict_network : Settings → Bool
enforce_strict_network s = is_true s.strict_network_check || is_true s.require_shared_network

abbrev add_name : String → List String → List String
add_name n ns = if contains ns n then ns else ns ++ n ∷ []

unfoldable pub add_names : List String → List String → List String
add_names [] ns = ns
add_names (m ∷ ms) ns = add_names ms (add_name m ns)

abbrev connector_networks : Option Container → List String → List String
connector_networks none ns = ns
connector_networks (some c) ns =
    let joined = add_names (or_default c.networks []) ns in
    if is_text c.network_mode "host" then add_name "host" joined else joined

-- `cloudflared_networks`
unfoldable pub cloudflared_networks : Settings → List Item → List String
cloudflared_networks s items =
    let expected = strip s.network_name in
    connector_networks (resolve_target_connector_container s.connector_setting s.my_hostname items)
      (if expected == "" then [] else expected ∷ [])

-- `target_net_display`
unfoldable pub network_display : Settings → List String → String
network_display s networks =
    let expected = strip s.network_name in
    if not (expected == "")
    then expected
    else if is_empty networks
    then "cloudflared network"
    else join ", " (sorted networks)

unfoldable pub target_text : Tools → ServiceUrl → String
target_text tools (explicit s) = s
target_text tools (address proto name port) = proto <> "://" <> name <> ":" <> tools.show port

abbrev or_text : String → String → String
or_text s d = if s == "" then d else s

unfoldable pub access_policy : Container → String
access_policy c =
    let keys =
      "cf.tunnel.access.policy" ∷ "cf.tunnel.access_policy" ∷ "cloudflared.access.policy" ∷ [] in
    let found = first_of (labels_of c) keys in
    let raw = if truthy found then or_default found "" else "unspecified" in
    or_text (lower (strip raw)) "unspecified"

unfoldable pub stages_of : Settings → Container → String → Bool → Option String → Dict Stage
stages_of settings c hostname connected warning = evaluate_service_stages (record {
  hostname = some hostname;
  raw_hostname = raw_hostname c;
  is_hostname_valid = true;
  domain_matches = true;
  configured_domain = lower settings.domain;
  network_connected = connected;
  network_warning = warning;
  container_state = lower (state_of c);
  ingress_status = none;
  ingress_message = none;
  dns_status = none;
  dns_message = none;
})

module _ (tools : Tools) (settings : Settings) (networks : List String) where
  -- `none` if the parser raises.
  unfoldable pub origin_of : Container → Option ParsedOrigin
  origin_of c = parse_origin_labels (labels_of c) (name_of c) c.first_port

  unfoldable pub plausibility_of : ParsedOrigin → Container → Plausibility
  plausibility_of origin c =
      evaluate_origin_network_plausibility tools.parsers (target_text tools origin.service_target)
        (or_default c.networks []) c.network_mode networks

  unfoldable pub network_warning_of : ParsedOrigin → Container → Option String
  network_warning_of origin c =
      let verdict = plausibility_of origin c in
      if verdict.is_plausible
      then none
      else some (
          "Missing shared network '"
          <> network_display settings networks
          <> "'. Requests to "
          <> target_text tools origin.service_target
          <> " may 502 Bad Gateway. "
          <> verdict.diagnostic_message)

  -- `service_item`
  unfoldable pub service_item : ParsedOrigin → Container → String → ServiceItem
  service_item origin c hostname =
      let connected = (plausibility_of origin c).is_plausible in
      let stages = stages_of settings c hostname connected (network_warning_of origin c) in
      record {
        name = name_of c;
        hostname = hostname;
        service = origin.service_target;
        no_tls_verify = origin.no_tls_verify;
        access_policy = access_policy c;
        network_connected = connected;
        network_warning = network_warning_of origin c;
        origin_request = origin.origin_request;
        stages = stages;
        status = compute_truthful_service_status stages;
      }
