-- ===== src/Application/Discovery/Loop.antt =====
-- tunnel_sync/application/discovery.py: the loop of `_discover`, and `collect`.
use cf_docker_tunnel_sync.Base.{
  String, Bool, true, false, not, ◌&&◌, ◌||◌, Option, none, some, List, [], ◌∷◌, ◌++◌, map, ◌==◌,
  if◌then◌else◌,
}
use cf_docker_tunnel_sync.Base.Lists.{contains, any, is_empty}
use cf_docker_tunnel_sync.Base.Dict.{Dict, contains_key}
use cf_docker_tunnel_sync.Domain.Models.{or_default}
use cf_docker_tunnel_sync.Domain.Labels.{truthy, ParsedOrigin}
use cf_docker_tunnel_sync.Application.Discovery.{
  Failure, no_dict, port_refused, item_error, Settings, Tools, legacy_labels, LogLine, deprecated,
  invalid_hostname, duplicate_hostname, port_warning, not_attached, excluded, non_list_response,
  docker_error, ServiceItem, docker_status, service_status, ContainerEntry, Progress, name_of,
  raw_hostname, hostname_of, is_selected, state_of, enforce_strict_network, cloudflared_networks,
  network_display, origin_of, plausibility_of, service_item,
}
use cf_docker_tunnel_sync.Application.Discovery.Connectors.{
  Container, Item, container, malformed, labels_of, Listing, listed, not_a_list, unavailable,
  failing,
}

abbrev add_log : List LogLine → Progress → Progress
add_log lines p = record p { log = p.log ++ lines }

abbrev has_pair : List (String × String) → String → String → Bool
has_pair pairs a b = any (λ pair. pair.0 == a && pair.1 == b) pairs

-- A deprecated label is told once for each container name.
unfoldable pub tell_label : String → String → Container → Progress → Progress
tell_label key canonical c p =
    if contains_key key (labels_of c) && not (has_pair p.warned (name_of c) key)
    then record p {
      warned = p.warned ++ (name_of c, key) ∷ [];
      log = p.log ++ deprecated (name_of c) key canonical ∷ [];
    }
    else p

unfoldable pub tell : Dict String → Container → Progress → Progress
tell [] c p = p
tell ((key, canonical) ∷ legacy) c p = tell legacy c (tell_label key canonical c p)

abbrev is_none : Option String → Bool
is_none none = true
is_none (some h) = false

unfoldable pub note_invalid : Container → Progress → Progress
note_invalid c p =
    if truthy (raw_hostname c) && is_none (hostname_of c)
    then add_log (invalid_hostname (or_default (raw_hostname c) "") (name_of c) ∷ []) p
    else p

-- What a container comes to: its service, if it has one that is kept, and whether a network is shared.
pub record Visit : Type 0 where
  pub progress : Progress
  pub item : Option ServiceItem
  pub connected : Bool

abbrev no_service : Progress → Visit
no_service p = record { progress = p; item = none; connected = true }

abbrev items_of_option : Option ServiceItem → List ServiceItem
items_of_option none = []
items_of_option (some s) = s ∷ []

abbrev entry_stages : Option ServiceItem → ContainerEntry → ContainerEntry
entry_stages none e = e
entry_stages (some s) e = record e {
  stages = some s.stages;
  status = service_status s.status;
  access_policy = s.access_policy;
}

unfoldable pub container_entry : Container → Visit → ContainerEntry
container_entry c v = entry_stages v.item (record {
  name = name_of c;
  image = or_default c.image "";
  state = state_of c;
  status = docker_status (or_default c.status "");
  hostname = or_default (hostname_of c) "-";
  is_tunneled = not (is_empty (items_of_option v.item));
  network_connected = v.connected;
  stages = none;
  access_policy = "unspecified";
})

-- A container that was looked at; `refused` if the label of its port made `int` raise.
pub data Visited : Type 0 where
  visited : Visit → Visited
  refused : Progress → Visited

-- How far the loop has come.
pub data Walked : Type 0 where
  walked : Progress → Walked
  raised : Failure → Progress → Walked

unfoldable pub with_entry : Container → Visited → Walked
with_entry c (visited v) =
    let p = v.progress in
    walked (record p { containers = p.containers ++ container_entry c v ∷ [] })
with_entry c (refused p) = raised port_refused p

unfoldable pub go_on : (Progress → Walked) → Walked → Walked
go_on k (walked p) = k p
go_on k (raised failure p) = raised failure p

module _ (tools : Tools) (settings : Settings) (networks : List String) where
  -- The lines on a container that shares no network with the connector.
  unfoldable pub network_log : ParsedOrigin → Container → List LogLine
  network_log origin c =
      let verdict = plausibility_of tools settings networks origin c in
      let display = network_display settings networks in
      let lines = not_attached (name_of c) display verdict.diagnostic_message ∷ [] in
      let out = excluded (name_of c) display verdict.diagnostic_message ∷ [] in
      if verdict.is_plausible
      then []
      else lines ++ (if enforce_strict_network settings then out else [])

  -- The service is kept unless the strict check excludes it.
  unfoldable pub kept_item : ParsedOrigin → Container → String → Option ServiceItem
  kept_item origin c hostname =
      if (plausibility_of tools settings networks origin c).is_plausible
        || not (enforce_strict_network settings)
      then some (service_item tools settings networks origin c hostname)
      else none

  unfoldable pub admit : ParsedOrigin → Container → String → Progress → Visit
  admit origin c hostname p =
      let item = kept_item origin c hostname in
      record {
        progress = record p {
          services = p.services ++ items_of_option item;
          seen = p.seen ++ hostname ∷ [];
          log = p.log ++ map port_warning origin.warnings ++ network_log origin c;
        };
        item = item;
        connected = (plausibility_of tools settings networks origin c).is_plausible;
      }

  -- A new hostname is seen, and then the labels of its origin are parsed.
  unfoldable pub admit_parsed : Container → String → Progress → Option ParsedOrigin → Visited
  admit_parsed c hostname p none = refused (record p { seen = p.seen ++ hostname ∷ [] })
  admit_parsed c hostname p (some origin) = visited (admit origin c hostname p)

  unfoldable pub consider : Container → Option String → Progress → Visited
  consider c none p = visited (no_service p)
  consider c (some hostname) p =
      if is_selected settings c hostname
      then (if contains p.seen hostname
          then visited (no_service (add_log (duplicate_hostname hostname (name_of c) ∷ []) p))
          else admit_parsed c hostname p (origin_of tools settings networks c))
      else visited (no_service p)

  unfoldable pub visit : Container → Progress → Walked
  visit c p = with_entry c (consider c (hostname_of c) (note_invalid c (tell legacy_labels c p)))

  unfoldable pub walk : List Item → Progress → Walked
  walk [] p = walked p
  walk (malformed ∷ items) p = raised no_dict p
  walk (container c ∷ items) p = go_on (walk items) (visit c p)

-- `InventoryStatus`
pub data InventoryStatus : Type 0 where
  available degraded unreachable : InventoryStatus

pub data Reason : Type 0 where
  no_reason non_list no_connection : Reason
  item_failure : Failure → Reason
  error : String → Reason

-- `InventoryResult`, with "docker_connected", the deprecations that were told and the log.
pub record InventoryResult : Type 0 where
  pub status : InventoryStatus
  pub services : List ServiceItem
  pub containers : List ContainerEntry
  pub reason : Reason
  pub docker_connected : Bool
  pub warned : List (String × String)
  pub log : List LogLine

unfoldable pub nothing_found :
    InventoryStatus → Reason → List (String × String) → List LogLine → InventoryResult
nothing_found status reason warned log = record {
  status = status;
  services = [];
  containers = [];
  reason = reason;
  docker_connected = false;
  warned = warned;
  log = log;
}

unfoldable pub result_of : Walked → InventoryResult
result_of (walked p) = record {
  status = available;
  services = p.services;
  containers = p.containers;
  reason = no_reason;
  docker_connected = true;
  warned = p.warned;
  log = p.log;
}
result_of (raised failure p) =
    nothing_found degraded (item_failure failure) p.warned (p.log ++ item_error failure ∷ [])

abbrev start : List (String × String) → Progress
start warned = record { services = []; containers = []; seen = []; warned = warned; log = [] }

-- `_discover`, where `connected` is "docker_connected" after the request.
unfoldable pub discover :
    Tools → Settings → List (String × String) → Bool → Listing → InventoryResult
discover tools settings warned connected (unavailable e) =
    nothing_found unreachable (error e) warned (docker_error e ∷ [])
discover tools settings warned connected (failing e) =
    nothing_found degraded (error e) warned (docker_error e ∷ [])
discover tools settings warned connected not_a_list =
    nothing_found degraded non_list warned (non_list_response ∷ [])
discover tools settings warned connected (listed items) =
    let networks = cloudflared_networks settings items in
    if is_empty items && not connected
    then nothing_found unreachable no_connection warned []
    else result_of (walk tools settings networks items (start warned))

-- What the request for the containers does to "docker_connected", and what it answers.
pub record Request : Type 0 where
  pub report : Bool → Bool
  pub answer : Listing

-- `collect`
unfoldable pub collect : Tools → Settings → List (String × String) → Request → InventoryResult
collect tools settings warned request =
    discover tools settings warned (request.report true) request.answer

abbrev pub is_available : InventoryStatus → Bool
is_available available = true
is_available _ = false

-- `usable`
unfoldable pub usable : InventoryResult → Bool
usable r = is_available r.status
