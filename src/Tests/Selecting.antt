-- ===== src/Tests/Selecting.antt =====
-- An inventory of four containers: a service, one with the same hostname, one that is stopped, and one
-- of another domain.
use cf_docker_tunnel_sync.Base.{
  String, true, false, ◌≡◌, refl, some, none, List, [], ◌∷◌, string_dec,
}
use cf_docker_tunnel_sync.Base.Lists.{contains, any}
use cf_docker_tunnel_sync.Base.Dict.{lookup}
use cf_docker_tunnel_sync.Base.Sort.{sorted}
use cf_docker_tunnel_sync.Base.Text.{
  strip, lower, before, after?, text_length, lstrip_slash, ends_with, has_text, join,
}
use cf_docker_tunnel_sync.Domain.Hostnames.{
  scheme_cut, host_part, rstrip_dots, split_dots, is_alnum, ends_alnum, matches_body, chop_newline,
  matches_label, is_label, all_labels, are_labels, checked, normalize_text, normalize_hostname,
}
use cf_docker_tunnel_sync.Domain.Labels.{
  first_of, first_label, precedence, parse_origin_labels, with_port, parsed_origin, protocol,
  checked_port, assembled, fallback_port, inspected_port, stripped_label, service_url,
}
use cf_docker_tunnel_sync.Domain.Plausibility.{
  Parsers, target_host, by_networks, by_target, disjoint_networks,
  evaluate_origin_network_plausibility,
}
use cf_docker_tunnel_sync.Domain.Plausibility.Reachability.{
  CannotReach, evaluate_origin_network_plausibility-CannotReach,
}
use cf_docker_tunnel_sync.Application.Discovery.{
  Settings, Tools, raw_hostname, hostname_of, matches_domain, matches_tunnel, is_selected,
  enforce_strict_network, cloudflared_networks, name_of, origin_of, plausibility_of, target_text,
  service_item,
}
use cf_docker_tunnel_sync.Application.Discovery.Connectors.{
  Item, container, malformed, listed, containers_of, names_of, is_self, current_project,
  project_connector, resolve_target_connector_container,
}
use cf_docker_tunnel_sync.Application.Discovery.Loop.{
  tell_label, tell, note_invalid, kept_item, admit, consider, visit, with_entry, admit_parsed,
  go_on, walk, result_of, discover, Request, collect, usable,
}
use cf_docker_tunnel_sync.Application.Discovery.Seen.{hosts, serves}
use cf_docker_tunnel_sync.Application.Discovery.Selection.{
  Selected, collect-Selected, collect-serves,
}
use cf_docker_tunnel_sync.Application.Discovery.Failures.{Closed, collect-Closed}

abbrev parsers : Parsers
parsers = record { url_hostname = λ url. some (some "app"); ip_address = λ host. none }

abbrev tools : Tools
tools = record { show = λ n. "8080"; parsers = parsers }

abbrev settings : Settings
settings = record {
  domain = "example.com";
  tunnel_name = "home";
  network_name = "cf-tunnel-net";
  require_shared_network = "false";
  strict_network_check = "no";
  connector_setting = "";
  my_hostname = "sync";
}

abbrev at : String → String → String → Item
at name state hostname = container (record {
  id = some name;
  names = some (name ∷ []);
  labels = some (("cf.tunnel.hostname", hostname) ∷ []);
  networks = some ("cf-tunnel-net" ∷ []);
  network_mode = none;
  state = some state;
  status = none;
  image = none;
  first_port = some 8080;
})

abbrev items : List Item
items =
    at "/app" "running" "https://App.example.com"
    ∷ at "/copy" "running" "app.example.com"
    ∷ at "/old" "exited" "old.example.com"
    ∷ at "/far" "running" "app.example.net"
    ∷ []

abbrev request : Request
request = record { report = λ b. b; answer = listed items }

found :
    (hosts (collect tools settings [] request).services ≡ "app.example.com" ∷ [])
    × (usable (collect tools settings [] request) ≡ true)
unfolding collect usable discover result_of walk visit with_entry go_on consider admit_parsed admit
    kept_item note_invalid tell tell_label raw_hostname hostname_of matches_domain matches_tunnel
    is_selected enforce_strict_network cloudflared_networks name_of origin_of plausibility_of
    target_text service_item evaluate_origin_network_plausibility by_target by_networks target_host
    sorted first_label first_of precedence lookup parse_origin_labels with_port parsed_origin
    protocol checked_port assembled fallback_port inspected_port stripped_label service_url names_of
    is_self current_project project_connector resolve_target_connector_container lstrip_slash
    ends_with has_text join normalize_hostname normalize_text checked strip host_part scheme_cut
    before after? rstrip_dots lower split_dots are_labels is_label matches_label matches_body
    ends_alnum is_alnum chop_newline all_labels text_length string_dec
found = (refl, refl)

lenient : enforce_strict_network settings ≡ false
unfolding enforce_strict_network lower string_dec
lenient = refl

collect-Selected_example :
    Selected settings (containers_of items) (collect tools settings [] request).services
collect-Selected_example = collect-Selected tools settings [] request

collect-serves_example :
    contains (hosts (collect tools settings [] request).services) "app.example.com"
    ≡ any (serves settings "app.example.com") (containers_of items)
collect-serves_example = collect-serves tools settings [] request found.1 lenient "app.example.com"

abbrev broken : Request
broken = record {
  report = λ b. b;
  answer = listed (at "/app" "running" "app.example.com" ∷ malformed ∷ []);
}

collect-Closed_example : Closed (collect tools settings [] broken)
collect-Closed_example = collect-Closed tools settings [] broken refl

apart :
    (evaluate_origin_network_plausibility parsers "http://app:8080"
      ("web" ∷ [])
      none
      ("cf-tunnel-net" ∷ [])).is_plausible
    ≡ false
unfolding evaluate_origin_network_plausibility by_target by_networks disjoint_networks target_host
    sorted strip lower ends_with has_text join string_dec
apart = refl

evaluate_origin_network_plausibility-CannotReach_example :
    CannotReach none ("web" ∷ []) ("cf-tunnel-net" ∷ [])
evaluate_origin_network_plausibility-CannotReach_example =
    evaluate_origin_network_plausibility-CannotReach parsers "http://app:8080" ("web" ∷ []) none
      ("cf-tunnel-net" ∷ []) apart
