-- ===== src/Application/Cycle/Stages.antt =====
-- tunnel_sync/application/sync.py: the parts of `run_once` up to the plan. Each part continues with `k`,
-- unless the cycle ends in it.
use cf_docker_tunnel_sync.Base.{
  ℕ, String, Bool, true, false, ◌||◌, Option, none, some, List, [], ◌∷◌, ◌++◌, map, ◌==◌,
  if◌then◌else◌,
}
use cf_docker_tunnel_sync.Base.Lists.{length}
use cf_docker_tunnel_sync.Base.Text.{strip}
use cf_docker_tunnel_sync.Domain.Models.{or_default}
use cf_docker_tunnel_sync.Domain.Labels.{truthy}
use cf_docker_tunnel_sync.Application.Ports.{TunnelConfig}
use cf_docker_tunnel_sync.Application.Activation.{
  Connector, Activated, done, missing_capability, activate, Provisioned, provisioned, provision,
}
use cf_docker_tunnel_sync.Application.Discovery.{Tools, ServiceItem, ContainerEntry, target_text}
use cf_docker_tunnel_sync.Application.Discovery.Loop.{Request, InventoryResult, collect, usable}
use cf_docker_tunnel_sync.Application.Reports.{
  Report, token_missing, domain_missing, docker_unreachable, no_accounts, tunnel_needed, discovered,
  zone_not_found, creating_tunnel, line, inventory_lines, activation_lines,
}
use cf_docker_tunnel_sync.Application.Cycle.{
  Answered, answered, failed, Zone, Environment, CycleSettings, CycleStatus, syncing,
  waiting_for_token, waiting_for_domain, docker_degraded, no_account, zone_missing,
  provisioning_required, CycleData, Cycle, say, Ended, returned, raised, service_of,
}

abbrev pub is_missing : Option String → String → Bool
is_missing none placeholder = true
is_missing (some text) placeholder = text == "" || text == placeholder

abbrev pub stripped : Option String → Option String
stripped none = none
stripped (some text) = some (strip text)

module _ (env : Environment) (tools : Tools) (settings : CycleSettings) where
  abbrev pub Now : Type 0
  Now = Cycle env.World

  -- The working state, the published copy, and whether the run lock is held.
  pub record Runtime : Type 0 where
    pub working : Now
    pub published : CycleData
    pub running : Bool

  abbrev pub End : Type 0
  End = Ended env.World

  abbrev pub at : env.World → Now → Now
  at w c = record c { world = w }

  -- The cycle ends with this status and these reports.
  unfoldable pub stop : CycleStatus → List (Report CycleStatus) → Now → End
  stop status reports c =
      returned (say reports (record c { state = record (c.state) { status = status } }))

  unfoldable pub begin : Now → Now
  begin c = record c {
    state = record (c.state) { status = syncing; safety_guard_tripped = false };
    services_count = 0;
    plan_summary = none;
  }

  -- The tests of the token and the domain.
  unfoldable pub check_settings : (Now → End) → Now → End
  check_settings k c =
      if is_missing settings.token "your_cloudflare_api_token_here"
      then stop waiting_for_token (line token_missing ∷ []) c
      else if is_missing (some settings.domain) "yourdomain.com"
      then stop waiting_for_domain (line domain_missing ∷ []) c
      else k c

  -- What the cycle knows after the inventory: the services of the cycle before are counted.
  pub record Inventory : Type 0 where
    pub known : ℕ
    pub items : List ServiceItem
    pub containers : List ContainerEntry

  unfoldable pub with_inventory : (Inventory → Now → End) → InventoryResult → Now → End
  with_inventory k r c =
      let noted = record c {
        services_count = length r.services;
        reports = c.reports ++ inventory_lines r.log ∷ [];
        state = record (c.state) { docker_connected = usable r; deprecations_warned = r.warned };
      } in
      let inventory : Inventory = record {
        known = length c.state.discovered_services;
        items = r.services;
        containers = r.containers;
      } in
      let kept = record noted {
        state = record (noted.state) {
          discovered_services = map (service_of tools) r.services;
          all_containers = r.containers;
        };
        reports =
            noted.reports
            ++ line (discovered (map (λ s. (s.hostname, target_text tools s.service)) r.services))
              ∷ [];
      } in
      if usable r
      then k inventory kept
      else stop docker_degraded (line docker_unreachable ∷ []) noted

  unfoldable pub on_containers : (Inventory → Now → End) → Now → env.World × Request → End
  on_containers k c (w, request) =
      with_inventory k (collect tools settings.discovery c.state.deprecations_warned request)
        (at w c)

  unfoldable pub find_services : (Inventory → Now → End) → Now → End
  find_services k c = on_containers k c (env.list_containers c.world)

  -- `resolve_zone`
  unfoldable pub on_zones : (Zone → Now → End) → Now → env.World × Answered (List Zone) → End
  on_zones k c (w, failed e) = raised e (at w c)
  on_zones k c (w, answered []) =
      stop (zone_missing settings.domain) (line (zone_not_found settings.domain) ∷ []) (at w c)
  on_zones k c (w, answered (zone ∷ zones)) =
      if zone.id == ""
      then stop (zone_missing settings.domain) (line (zone_not_found settings.domain) ∷ []) (at w c)
      else k zone (at w c)

  unfoldable pub find_zone : (Zone → Now → End) → Now → End
  find_zone k c = on_zones k c (env.zones c.world settings.domain)

  -- `resolve_account`: an exception is as good as no account.
  unfoldable pub on_accounts : (String → Now → End) → Now → env.World × Answered (List String) → End
  on_accounts k c (w, failed e) = stop no_account (line no_accounts ∷ []) (at w c)
  on_accounts k c (w, answered []) = stop no_account (line no_accounts ∷ []) (at w c)
  on_accounts k c (w, answered (account ∷ accounts)) =
      if account == "" then stop no_account (line no_accounts ∷ []) (at w c) else k account (at w c)

  -- The account of the settings, else of the zone, else the first of the token.
  unfoldable pub find_account : Zone → (String → Now → End) → Now → End
  find_account zone k c =
      if truthy (stripped settings.account_id)
      then k (or_default (stripped settings.account_id) "") c
      else if truthy zone.account_id
      then k (or_default zone.account_id "") c
      else on_accounts k c (env.accounts c.world)

  unfoldable pub on_provisioned : (String → Now → End) → Now → Provisioned env.World → End
  on_provisioned k c (provisioned (some tunnel_id) w log) =
      k tunnel_id (say (activation_lines log ∷ []) (at w c))
  on_provisioned k c (provisioned none w log) =
      raised "no tunnel id" (say (activation_lines log ∷ []) (at w c))
  on_provisioned k c (Provisioned.raised e w) = raised e (at w c)

  -- There is no tunnel: a dry run ends, another creates it.
  unfoldable pub create : String → (String → Now → End) → Now → End
  create account k c =
      if settings.dry_run
      then stop provisioning_required (line tunnel_needed ∷ [])
          (record c { state = record (c.state) { tunnel_id = none; last_change_plan = none } })
      else on_provisioned k (say (line (creating_tunnel (strip settings.tunnel_name)) ∷ []) c)
          (provision env.create_tunnel false account (strip settings.tunnel_name) c.world [])

  unfoldable pub on_tunnels :
      String → (String → Now → End) → Now → env.World × Answered (List String) → End
  on_tunnels account k c (w, failed e) = raised e (at w c)
  on_tunnels account k c (w, answered []) = create account k (at w c)
  on_tunnels account k c (w, answered (tunnel ∷ tunnels)) = k tunnel (at w c)

  unfoldable pub find_tunnel : String → (String → Now → End) → Now → End
  find_tunnel account k c =
      on_tunnels account k c (env.tunnels c.world account (strip settings.tunnel_name))

  abbrev pub connector : Connector
  connector = record {
    World = env.World;
    read = env.read_token;
    write = env.write_token;
    restart = env.restart;
  }

  unfoldable pub on_activated : (Now → End) → Now → Activated env.World → End
  on_activated k c missing_capability =
      raised "Connector activation requires token storage and restart capabilities" c
  on_activated k c (done a) = k (record c {
    world = a.world;
    state = record (c.state) {
      pending_token = a.pending_token;
      pending_connector = a.pending_connector;
    };
    reports = c.reports ++ activation_lines a.log ∷ [];
  })

  unfoldable pub on_token : (Now → End) → Now → env.World × Answered String → End
  on_token k c (w, failed e) = raised e (at w c)
  on_token k c (w, answered token) = on_activated k (at w c) (
      activate connector settings.capable false token (env.find_connector w) (record {
        world = w;
        pending_token = c.state.pending_token;
        pending_connector = c.state.pending_connector;
        log = [];
      }))

  -- The tunnel is noted, and its token is activated unless the run is dry.
  unfoldable pub activate_tunnel : String → String → (Now → End) → Now → End
  activate_tunnel account tunnel k c =
      let noted = record c { state = record (c.state) { tunnel_id = some tunnel } } in
      if settings.dry_run
      then k noted
      else on_token k noted (env.tunnel_token c.world account tunnel)

  unfoldable pub on_configuration :
      (TunnelConfig → Now → End) → Now → env.World × Answered TunnelConfig → End
  on_configuration k c (w, failed e) = raised e (at w c)
  on_configuration k c (w, answered config) = k config (at w c)

  unfoldable pub read_configuration : String → String → (TunnelConfig → Now → End) → Now → End
  read_configuration account tunnel k c =
      on_configuration k c (env.configuration c.world account tunnel)
