-- ===== src/Tests/Cycling.antt =====
-- Cycles over a world that counts what is sent: a dry run, one without Docker, and one in which all
-- containers have vanished.
use cf_docker_tunnel_sync.Base.{
  ℕ, suc, Bool, true, false, ◌≡◌, refl, some, none, [], ◌∷◌, string_dec,
}
use cf_docker_tunnel_sync.Base.Lists.{All}
use cf_docker_tunnel_sync.Base.Text.{lower}
use cf_docker_tunnel_sync.Domain.Models.{OwnershipPolicy, DnsAction, RemoteState}
use cf_docker_tunnel_sync.Domain.Planner.{compute_change_plan}
use cf_docker_tunnel_sync.Domain.Plausibility.{Parsers}
use cf_docker_tunnel_sync.Application.Activation.{contents, Answer, Created}
use cf_docker_tunnel_sync.Application.Discovery.{Tools}
use cf_docker_tunnel_sync.Application.Discovery.Connectors.{listed, unavailable}
use cf_docker_tunnel_sync.Application.Discovery.Loop.{Request}
use cf_docker_tunnel_sync.Application.Cycle.Stages.{Runtime}
use cf_docker_tunnel_sync.Application.Cycle.{
  answered, Environment, CycleSettings, CycleStatus, CycleData, Moment,
}
use cf_docker_tunnel_sync.Application.Cycle.Planning.{is_drop, policy_of}
use cf_docker_tunnel_sync.Application.Cycle.Run.{run_once}
use cf_docker_tunnel_sync.Application.Cycle.DryRuns.{Keeps, run_once-dry}
use cf_docker_tunnel_sync.Application.Cycle.Outcomes.{Recorded, run_once-Recorded}
use cf_docker_tunnel_sync.Application.Preview.{api_change_plan}
use cf_docker_tunnel_sync.Application.Preview.Repeated.{
  cycle, operate_all, api_change_plan-repeated,
}
use cf_docker_tunnel_sync.Application.Cycle.Drops.{WaitedLong, args, plan_args-WaitedLong}

abbrev parsers : Parsers
parsers = record { url_hostname = λ url. some (some "app"); ip_address = λ host. none }

abbrev tools : Tools
tools = record { show = λ n. "8080"; parsers = parsers }

-- The environment, for the answer of Docker. The world counts what was sent, and what was read.
abbrev environment : Request → Environment
environment request = record {
  World = ℕ × ℕ;
  list_containers = λ w. ((w.0, suc w.1), request);
  zones =
      λ w domain. ((w.0, suc w.1), answered (record { id = "z1"; account_id = some "a1" } ∷ []));
  accounts = λ w. ((w.0, suc w.1), answered []);
  tunnels = λ w account name. ((w.0, suc w.1), answered ("t1" ∷ []));
  create_tunnel = λ w account name. ((suc w.0, w.1), Created.created "t2");
  tunnel_token = λ w account tunnel. ((w.0, suc w.1), answered "secret");
  configuration =
      λ w account tunnel. ((w.0, suc w.1), answered (record { ingress = none; others = [] }));
  read_records = λ w zone query. ((w.0, suc w.1), some []);
  mutate = λ w call. ((suc w.0, w.1), none);
  read_token = λ w. contents "secret";
  write_token = λ w token. ((suc w.0, w.1), true);
  restart = λ w name. ((suc w.0, w.1), none);
  find_connector = λ w. Answer.found "cloudflared";
  load_file = λ w. (w, none);
  store_file = λ w tombstones. w;
}

abbrev settings : Bool → CycleSettings
settings dry_run = record {
  token = some "api-token";
  domain = "example.com";
  tunnel_name = "home";
  account_id = none;
  dry_run = dry_run;
  ownership_policy = "adopt_and_manage";
  immediate_cleanup = true;
  grace_period = 0;
  max_deletions_per_run = none;
  preserve_manual_roots = false;
  persistence_enabled = false;
  deletion_policy = record { maximum = 3; ratio = none; allow_mass = false };
  capable = true;
  discovery = record {
    domain = "example.com";
    tunnel_name = "home";
    network_name = "cf-tunnel-net";
    require_shared_network = "false";
    strict_network_check = "false";
    connector_setting = "";
    my_hostname = "sync";
  };
}

abbrev moment : Moment
moment = record { plan_id = "plan-1"; timestamp = 1000; now = 1000 }

abbrev later : Moment
later = record { plan_id = "plan-2"; timestamp = 1060; now = 1060 }

abbrev start : CycleData
start = record {
  status = CycleStatus.active;
  safety_guard_tripped = false;
  docker_connected = true;
  tunnel_id = some "t1";
  services = [];
  discovered_services = [];
  all_containers = [];
  dns_records = [];
  tombstones = ("old.example.com", 500) ∷ [];
  last_change_plan = none;
  last_ingress = none;
  deprecations_warned = [];
  pending_token = none;
  pending_connector = none;
}

abbrev empty_list : Request
empty_list = record { report = λ b. b; answer = listed [] }

abbrev no_docker : Request
no_docker = record { report = λ b. false; answer = unavailable "no socket" }

abbrev idle :
    (request : Request) (dry_run : Bool) → Runtime (environment request) tools (settings dry_run)
idle request dry_run = record {
  working = record {
    world = (0, 0);
    state = start;
    services_count = 0;
    plan_summary = none;
    reports = [];
  };
  published = start;
  running = false;
}

keeps : Keeps (environment empty_list) ℕ (λ w. w.0)
keeps = record {
  keeps_list = λ w. refl;
  keeps_zones = λ w d. refl;
  keeps_accounts = λ w. refl;
  keeps_tunnels = λ w a n. refl;
  keeps_configuration = λ w a t. refl;
  keeps_records = λ w z q. refl;
  keeps_load = λ w. refl;
  keeps_store = λ w d. refl;
}

run_once-dry_example :
    (run_once
      (environment empty_list)
      tools
      (settings true)
      moment
      (idle empty_list true)).working.world.0
    ≡ 0
run_once-dry_example =
    run_once-dry (environment empty_list) tools (settings true) moment ℕ (λ w. w.0) keeps refl
      (idle empty_list true)

run_once-Recorded_example :
    Recorded
      (environment empty_list)
      tools
      (settings false)
      moment
      (idle empty_list false).working
      (run_once
        (environment empty_list)
        tools
        (settings false)
        moment
        (idle empty_list false)).working
run_once-Recorded_example =
    run_once-Recorded (environment empty_list) tools (settings false) moment (idle empty_list false)
      refl

api_change_plan-repeated_example :
    ((api_change_plan (environment empty_list) tools (settings false) moment (
        operate_all
          (environment empty_list)
          tools
          (settings false)
          (cycle moment ∷ [])
          (idle empty_list false))).0.published.last_change_plan
      ≡ some
          (api_change_plan (environment empty_list) tools (settings false) moment (
            operate_all
              (environment empty_list)
              tools
              (settings false)
              (cycle moment ∷ [])
              (idle empty_list false))).1)
    × (api_change_plan
          (environment empty_list)
          tools
          (settings false)
          later
          (api_change_plan (environment empty_list) tools (settings false) moment (
            operate_all
              (environment empty_list)
              tools
              (settings false)
              (cycle moment ∷ [])
              (idle empty_list false))).0
        ≡ api_change_plan (environment empty_list) tools (settings false) moment (
            operate_all
              (environment empty_list)
              tools
              (settings false)
              (cycle moment ∷ [])
              (idle empty_list false)))
api_change_plan-repeated_example =
    api_change_plan-repeated (environment empty_list) tools (settings false) (cycle moment ∷ [])
      moment later (idle empty_list false) refl

abbrev remote : RemoteState
remote = record {
  tunnel_id = "t1";
  tunnel_name = "home";
  zone_id = "z1";
  tunnel_target = "t1.cfargotunnel.com";
  existing_ingress_rules = [];
  existing_dns_records =
      record {
        name = some "old.example.com";
        id = some "r1";
        rec_type = some "CNAME";
        content = some "t1.cfargotunnel.com";
        comment = none;
        proxied = some true;
        ttl = some 1;
      }
      ∷ [];
}

dropped : is_drop 2 [] ≡ true
unfolding is_drop
dropped = refl

plain : policy_of (settings false) ≡ OwnershipPolicy.adopt_and_manage
unfolding policy_of lower string_dec
plain = refl

plan_args-WaitedLong_example :
    All
      (λ c. c.action ≡ DnsAction.delete → WaitedLong start.tombstones 1000 c.hostname)
      (compute_change_plan
        (args tools (settings false) moment 2 true [] [] remote start.tombstones)).dns_changes
plan_args-WaitedLong_example =
    plan_args-WaitedLong tools (settings false) moment 2 true [] [] remote start.tombstones dropped
      (rw plain refl)
