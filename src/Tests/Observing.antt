-- ===== src/Tests/Observing.antt =====
-- Labels, events, the debouncer and the reported status.
use cf_docker_tunnel_sync.Base.{
  String, ◌<>◌, true, false, ◌≡◌, ◌↔◌, refl, inr, inl, none, some, List, [], ◌∷◌, string_dec,
}
use mathlib.Core.Option.{map}
use cf_docker_tunnel_sync.Base.Dict.{Dict, lookup}
use cf_docker_tunnel_sync.Base.Text.{strip, lower, is_digit, int, before}
use cf_docker_tunnel_sync.Domain.Labels.{
  hostname_group, precedence, first_of, first_label, address, protocol, checked_port, assembled,
  stripped_label, service_url, port_group, number_port, with_port, parsed_origin,
  parse_origin_labels,
}
use cf_docker_tunnel_sync.Domain.Labels.Parsing.{IsParsed, parse_origin_labels-IsServable}
use cf_docker_tunnel_sync.Domain.Diagnostics.{
  Stage, ServiceFacts, Service, evaluate_service_stages, publish_service, synced, status_at,
}
use cf_docker_tunnel_sync.Domain.Diagnostics.Truthful.{Pass, publish_service-synced}
use cf_docker_tunnel_sync.Runtime.Scheduler.{
  Event, Scheduler, base_action, shown_name, handle_event,
}
use cf_docker_tunnel_sync.Runtime.Scheduler.Relevance.{handle_event-triggers}
use cf_docker_tunnel_sync.Runtime.Debounce.{
  tick, triggered, ensured, looked, woke, run, new, step, trigger, ensure_worker, look, look_at,
  wake, wake_at, fire, new_reasons,
}
use cf_docker_tunnel_sync.Runtime.Debounce as Debounce
use cf_docker_tunnel_sync.Runtime.Debounce.Delivery.{history, asked_all, run-history}

abbrev labels : Dict String
labels =
    ("cloudflared.hostname", "app.example.com")
    ∷ ("cf.tunnel.port", " 8080 ")
    ∷ ("scheme", "HTTPS")
    ∷ []

-- The port and the protocol of the labels are used.
parsed :
    map (λ o. o.service_target) (parse_origin_labels labels "app" (some 80))
    ≡ some (address "https" "app" 8080)
unfolding parse_origin_labels with_port parsed_origin protocol checked_port number_port assembled
    stripped_label service_url first_label first_of precedence lookup strip lower is_digit int
    string_dec
parsed = refl

-- A superscript is a digit for `isdigit` and not for `int`.
refused : parse_origin_labels (("port", "²") ∷ []) "app" (some 80) ≡ none
unfolding parse_origin_labels with_port checked_port number_port first_label first_of precedence
    lookup strip is_digit int string_dec
refused = refl

parse_origin_labels-IsServable_example :
    IsParsed (first_label labels port_group) "app" (parse_origin_labels labels "app" (some 80))
parse_origin_labels-IsServable_example = parse_origin_labels-IsServable labels "app" (some 80)

abbrev facts : ServiceFacts
facts = record {
  hostname = some "app.example.com";
  raw_hostname = none;
  is_hostname_valid = true;
  domain_matches = true;
  configured_domain = "example.com";
  network_connected = false;
  network_warning = none;
  container_state = "Running";
  ingress_status = some "PASS";
  ingress_message = none;
  dns_status = none;
  dns_message = none;
}

abbrev stages : Dict Stage
unfolding evaluate_service_stages
stages = evaluate_service_stages facts

abbrev app_service : Service
app_service = record {
  hostname = some "app.example.com";
  service = some "http://app:8080";
  stages = stages;
  status = none;
}

publish_service-synced_example :
    ((publish_service "t1.cfargotunnel.com" false true app_service).status ≡ some synced) ↔ (
      Pass (status_at "LABEL_SYNTAX" stages)
      × Pass (status_at "TUNNEL_DOMAIN_MATCH" stages)
      × Pass (status_at "NETWORK_TOPOLOGY" stages)
      × (false ≡ false)
      × (true ≡ false))
publish_service-synced_example = publish_service-synced "t1.cfargotunnel.com" false true app_service

abbrev died : Event
died = record {
  event_type = some "container";
  action = some "die";
  status = none;
  id = some "0123456789abcdef";
  attributes = ("name", "app") ∷ labels;
}

abbrev scheduler : Scheduler
scheduler = record { filter_unlabeled_events = true; connector_setting = none; services = [] }

handle_event-triggers_example :
    handle_event scheduler died ≡ some (base_action died <> ":" <> shown_name died)
unfolding base_action before lower strip first_label first_of precedence lookup string_dec
handle_event-triggers_example = handle_event-triggers scheduler died refl refl (
    inr (
      inl (record {
        group = hostname_group;
        value = "app.example.com";
        usual = λ h. cc h;
        found = refl;
      })))

abbrev events : List Debounce.Event
events =
    triggered "start:app"
    ∷ ensured
    ∷ looked
    ∷ tick 1000
    ∷ triggered "die:db"
    ∷ tick 9000
    ∷ woke
    ∷ []

-- The two triggers make one synchronization.
coalesced : (run events (new 0 2500 10000 true)).executed ≡ ("start:app" ∷ "die:db" ∷ []) ∷ []
unfolding run new step trigger ensure_worker look look_at wake wake_at fire string_dec
coalesced = refl

run-history_example : history (run events (new 0 2500 10000 true)) ≡ asked_all events
unfolding run new step trigger ensure_worker look look_at wake wake_at fire string_dec
run-history_example = run-history 0 2500 10000 true events refl
