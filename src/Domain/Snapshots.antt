-- ===== src/Domain/Snapshots.antt =====
-- tunnel_sync/domain/snapshots.py: `build_discovery_snapshot`.
pub mod Coverage
use cf_docker_tunnel_sync.Base.{
  ℕ, String, Bool, true, false, not, Option, none, some, List, [], ◌∷◌, map, ◌==◌, if◌then◌else◌,
}
use cf_docker_tunnel_sync.Base.Lists.{keep, contains}
use cf_docker_tunnel_sync.Base.Dict.{Dict}
use cf_docker_tunnel_sync.Base.Json.{Json, Fields}
use cf_docker_tunnel_sync.Domain.Models.{DiscoveredOrigin, DiscoverySnapshot, or_default}

-- A service that was discovered: the keys of its dict that are read.
pub record FoundService : Type 0 where
  pub container_name : Option String
  pub container_id : Option String
  pub hostname : Option String
  pub service : Option String
  pub origin_request_camel : Option Fields
  pub origin_request_snake : Option Fields
  pub no_tls_verify : Bool
  pub http_host_header : Option String
  pub labels : Option (Dict String)

-- `s.get(key) or default`
abbrev pub text_or_default : Option String → String → String
text_or_default none d = d
text_or_default (some s) d = if s == "" then d else s

-- An empty dict is falsy.
abbrev pub nonempty : Option Fields → Option Fields
nonempty (some Fields.end) = none
nonempty f = f

abbrev pub first_of_two : Option Fields → Option Fields → Option Fields
first_of_two none b = b
first_of_two (some a) b = some a

unfoldable pub header_entry : String → Fields
header_entry header =
    if header == "" then Fields.end else Fields.field "httpHostHeader" (Json.text header) Fields.end

-- The options that are built from the other keys, if there is no dict of options.
unfoldable pub built_request : FoundService → Option Fields
built_request s =
    let header = header_entry (or_default s.http_host_header "") in
    nonempty (
      some (if s.no_tls_verify then Fields.field "noTLSVerify" (Json.bool true) header else header))

unfoldable pub origin_of : FoundService → DiscoveredOrigin
origin_of s =
    let c_name = text_or_default s.container_name "unknown" in
    record {
      container_id = text_or_default s.container_id c_name;
      container_name = c_name;
      hostname = or_default s.hostname "";
      service_target = or_default s.service "";
      origin_request =
          first_of_two (nonempty s.origin_request_camel)
            (first_of_two (nonempty s.origin_request_snake) (built_request s));
      labels = or_default s.labels [];
    }

-- `names[0] if names else "unnamed"`
abbrev pub first_name : List String → String
first_name [] = "unnamed"
first_name (name ∷ names) = name

-- `build_discovery_snapshot`; of the containers, only their "Names" are read.
unfoldable pub build_discovery_snapshot :
    List FoundService → List (List String) → ℕ → Bool → DiscoverySnapshot
build_discovery_snapshot services all_containers timestamp docker_ok =
    let origins = map origin_of services in
    let matched_names = map (λ o. o.container_name) origins in
    record {
      timestamp = timestamp;
      docker_ok = docker_ok;
      origins = origins;
      ignored_containers =
          keep (λ name. not (contains matched_names name)) (map first_name all_containers);
    }
