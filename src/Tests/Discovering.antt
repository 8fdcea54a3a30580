-- ===== src/Tests/Discovering.antt =====
-- A snapshot of two containers, one of which has no service.
use cf_docker_tunnel_sync.Base.{String, true, ◌≡◌, refl, none, some, List, [], ◌∷◌, string_dec}
use cf_docker_tunnel_sync.Domain.Snapshots.{FoundService, origin_of, build_discovery_snapshot}

abbrev found : FoundService
found = record {
  container_name = some "app";
  container_id = none;
  hostname = some "app.example.com";
  service = some "http://app:8080";
  origin_request_camel = none;
  origin_request_snake = none;
  no_tls_verify = true;
  http_host_header = none;
  labels = none;
}

abbrev containers : List (List String)
containers = ("app" ∷ []) ∷ ("db" ∷ []) ∷ []

ignored : (build_discovery_snapshot (found ∷ []) containers 100 true).ignored_containers ≡ "db" ∷ []
unfolding build_discovery_snapshot origin_of string_dec
ignored = refl
