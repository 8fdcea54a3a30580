-- ===== src/Application/Discovery/Connectors.antt =====
-- tunnel_sync/application/discovery.py: `resolve_target_connector_container` and
-- `find_cloudflared_container_name`.
use cf_docker_tunnel_sync.Base.{
  ℕ, String, Bool, not, ◌&&◌, ◌||◌, Option, none, some, List, [], ◌∷◌, map, leb, ◌==◌, starts_with,
  if◌then◌else◌,
}
use cf_docker_tunnel_sync.Base.Lists.{contains, keep}
use cf_docker_tunnel_sync.Base.Dict.{Dict, lookup}
use cf_docker_tunnel_sync.Base.Text.{strip, lstrip_slash, text_length}
use cf_docker_tunnel_sync.Domain.Models.{or_default, is_text}
use cf_docker_tunnel_sync.Domain.Labels.{truthy}

-- A container as Docker lists it: the keys that are read. `networks` are the keys of its networks, and
-- `first_port` is the "PrivatePort" of its first port.
pub record Container : Type 0 where
  pub id : Option String
  pub names : Option (List String)
  pub labels : Option (Dict String)
  pub networks : Option (List String)
  pub network_mode : Option String
  pub state : Option String
  pub status : Option String
  pub image : Option String
  pub first_port : Option ℕ

-- An element of the list: a container, or a value that is no dict.
pub data Item : Type 0 where
  container : Container → Item
  malformed : Item

abbrev pub containers_of : List Item → List Container
containers_of [] = []
containers_of (container c ∷ items) = c ∷ containers_of items
containers_of (malformed ∷ items) = containers_of items

abbrev pub labels_of : Container → Dict String
labels_of c = or_default c.labels []

-- `[n.lstrip("/") for n in c.get("Names", [])]`
unfoldable pub names_of : Container → List String
names_of c = map lstrip_slash (or_default c.names [])

abbrev pub compose_service : Container → Option String
compose_service c = lookup "com.docker.compose.service" (labels_of c)

abbrev pub compose_project : Container → Option String
compose_project c = lookup "com.docker.compose.project" (labels_of c)

abbrev find_container : (Container → Bool) → List Container → Option Container
find_container p [] = none
find_container p (c ∷ cs) = let rest = find_container p cs in if p c then some c else rest

unfoldable pub is_explicit : String → Container → Bool
is_explicit name c =
    let id = or_default c.id "" in
    contains (names_of c) name
    || id == name
    || (leb 12 (text_length name) && starts_with id name)
    || is_text (compose_service c) name

unfoldable pub is_self : String → Container → Bool
is_self my_hostname c =
    starts_with (or_default c.id "") my_hostname
    || contains (names_of c) my_hostname
    || is_text (compose_service c) "cf-docker-tunnel-sync"
    || is_text (compose_service c) "tunnel-sync"

-- The first project that is not empty of the containers that may be this one.
unfoldable pub current_project : String → List Container → Option String
current_project my_hostname [] = none
current_project my_hostname (c ∷ cs) =
    let rest = current_project my_hostname cs in
    if is_self my_hostname c && truthy (compose_project c) then compose_project c else rest

abbrev pub is_cloudflared : Container → Bool
is_cloudflared c = contains (names_of c) "cloudflared"

unfoldable pub project_connector : Option String → List Container → Option Container
project_connector none cs = none
project_connector (some project) cs =
    find_container
      (λ c.
        is_text (compose_project c) project
        && (is_text (compose_service c) "cloudflared" || is_cloudflared c))
      cs

-- The only element of a list of one.
abbrev pub single : List Container → Option Container
single (c ∷ []) = some c
single _ = none

abbrev pub or_container : Option Container → Option Container → Option Container
or_container none o = o
or_container (some c) o = some c

-- `resolve_target_connector_container`, with CLOUDFLARED_CONTAINER_NAME and the own hostname.
unfoldable pub resolve_target_connector_container : String → String → List Item → Option Container
resolve_target_connector_container setting my_hostname items =
    let explicit_name = strip setting in
    let cs = containers_of items in
    if not (explicit_name == "")
    then find_container (is_explicit explicit_name) cs
    else or_container (project_connector (current_project my_hostname cs) cs) (
        or_container (find_container is_cloudflared cs)
          (single (keep (λ c. is_text (compose_service c) "cloudflared") cs)))

-- The name of the connector that was resolved.
unfoldable pub connector_name : Option Container → String
connector_name none = "cloudflared"
connector_name (some c) = elim (names_of c) [ [] ↦ or_default c.id "cloudflared" | n ∷ ns ↦ n ]

-- What Docker answers to the request for the containers.
pub data Listing : Type 0 where
  listed : List Item → Listing
  not_a_list : Listing
  unavailable failing : String → Listing

abbrev pub items_of : Listing → List Item
items_of (listed items) = items
items_of _ = []

-- `find_cloudflared_container_name`; without containers, `request` is what Docker answers.
unfoldable pub find_cloudflared_container_name :
    String → String → Option (List Item) → Listing → String
find_cloudflared_container_name setting my_hostname containers request =
    let explicit_name = strip setting in
    if not (explicit_name == "")
    then explicit_name
    else connector_name (
        resolve_target_connector_container setting my_hostname
          (or_default containers (items_of request)))
