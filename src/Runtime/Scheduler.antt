-- ===== src/Runtime/Scheduler.antt =====
-- tunnel_sync/runtime/scheduler.py: `Scheduler.is_relevant_event` and `Scheduler.handle_event`.
pub mod Relevance
use cf_docker_tunnel_sync.Base.{
  ℕ, String, ◌<>◌, Bool, true, false, not, ◌&&◌, ◌||◌, Option, none, some, List, [], ◌∷◌, ◌==◌, leb,
  starts_with, if◌then◌else◌,
}
use cf_docker_tunnel_sync.Base.Lists.{any, contains}
use cf_docker_tunnel_sync.Base.Dict.{Dict, lookup}
use cf_docker_tunnel_sync.Base.Text.{strip, lower, lstrip_slash, before, text_length, prefix}
use cf_docker_tunnel_sync.Domain.Models.{or_default}
use cf_docker_tunnel_sync.Domain.Labels.{has_tunnel_labels}

abbrev pub lifecycle_actions : List String
lifecycle_actions =
    "start" ∷ "stop" ∷ "die" ∷ "destroy" ∷ "rename" ∷ "pause" ∷ "unpause" ∷ "restart" ∷ []

-- An event of Docker: its "Type", "Action", "status" and "id", and the attributes of its actor, empty
-- if there is no actor.
pub record Event : Type 0 where
  pub event_type : Option String
  pub action : Option String
  pub status : Option String
  pub id : Option String
  pub attributes : Dict String

-- A service of the published state: its "name" and "container".
pub record TrackedService : Type 0 where
  pub name : String
  pub container : String

pub record Scheduler : Type 0 where
  pub filter_unlabeled_events : Bool
  pub connector_setting : Option String
  pub services : List TrackedService

-- `(setting or "cloudflared").strip().lower()`
unfoldable pub connector_target : Scheduler → String
connector_target s =
    let setting = or_default s.connector_setting "" in
    lower (strip (if setting == "" then "cloudflared" else setting))

unfoldable pub clean_name : String → String
clean_name name = lower (lstrip_slash name)

unfoldable pub attribute : String → Event → String
attribute key event = or_default (lookup key event.attributes) ""

unfoldable pub event_name : Event → String
event_name event = clean_name (attribute "name" event)

unfoldable pub event_id : Event → String
event_id event = lower (or_default event.id "")

unfoldable pub is_connector : Scheduler → Event → Bool
is_connector s event =
    let target = connector_target s in
    let name = event_name event in
    let service = lower (attribute "com.docker.compose.service" event) in
    name == target
    || service == target
    || (leb 12 (text_length target) && starts_with (event_id event) target)
    || name == "cloudflared"
    || service == "cloudflared"

unfoldable pub is_tracked_as : Event → TrackedService → Bool
is_tracked_as event svc =
    let name = event_name event in
    let id = event_id event in
    let svc_name = clean_name svc.name in
    let svc_container = clean_name svc.container in
    (not (name == "") && (name == svc_name || name == svc_container))
    || (not (id == "")
        && ((not (svc_name == "") && starts_with id svc_name)
            || (not (svc_container == "") && starts_with id svc_container)))

unfoldable pub is_relevant_event : Scheduler → Event → Bool
is_relevant_event s event =
    not s.filter_unlabeled_events
    || has_tunnel_labels event.attributes
    || is_connector s event
    || any (is_tracked_as event) s.services

-- `action.split(":")[0].strip().lower()`
unfoldable pub base_action : Event → String
base_action event =
    lower (strip (before b':' (or_default event.action (or_default event.status ""))))

abbrev pub is_container_type : Option String → Bool
is_container_type none = true
is_container_type (some t) = t == "" || t == "container"

unfoldable pub shown_name : Event → String
shown_name event =
    or_default (lookup "name" event.attributes) (prefix 12 (or_default event.id "unknown"))

-- `handle_event`: the reason that is passed to the debouncer's `trigger`, if it is called.
unfoldable pub handle_event : Scheduler → Event → Option String
handle_event s event =
    if is_container_type event.event_type
      && contains lifecycle_actions (base_action event)
      && is_relevant_event s event
    then some (base_action event <> ":" <> shown_name event)
    else none
