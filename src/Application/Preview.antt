-- ===== src/Application/Preview.antt =====
-- tunnel_sync/application/preview.py, `RuntimeState.cache_preview` of tunnel_sync/application/state.py and
-- `api_change_plan` of tunnel_sync/web/app.py, which uses both. A request runs while no cycle does.
pub mod Repeated
use cf_docker_tunnel_sync.Base.{
  ℕ, String, ◌<>◌, Bool, true, false, Option, none, some, List, [], ◌∷◌, ◌++◌, map, ◌==◌,
  if◌then◌else◌,
}
use cf_docker_tunnel_sync.Base.Text.{strip}
use cf_docker_tunnel_sync.Domain.Models.{
  OwnershipPolicy, adopt_and_manage, Rule, RemoteState, ChangePlan, or_default,
}
use cf_docker_tunnel_sync.Domain.Plan.{PlanArgs}
use cf_docker_tunnel_sync.Domain.Planner.{compute_change_plan}
use cf_docker_tunnel_sync.Domain.Snapshots.{build_discovery_snapshot}
use cf_docker_tunnel_sync.Application.Discovery.{Tools}
use cf_docker_tunnel_sync.Application.Discovery.Loop.{Request, InventoryResult, collect, usable}
use cf_docker_tunnel_sync.Application.Reports.{inventory_lines}
use cf_docker_tunnel_sync.Application.Cycle.{
  Environment, CycleSettings, CycleData, Moment, say, found_of,
}
use cf_docker_tunnel_sync.Application.Cycle.Stages.{Runtime, Now}

-- `state.get("tunnel_id") or "preview-tunnel-id"`
abbrev preview_tunnel : Option String → String
preview_tunnel none = "preview-tunnel-id"
preview_tunnel (some id) = if id == "" then "preview-tunnel-id" else id

-- The arguments of the planner; those that `compute_preview` does not give have their defaults.
unfoldable pub preview_args :
    Tools → CycleSettings → Moment → String → List Rule → CycleData → InventoryResult → PlanArgs
preview_args tools settings moment zone_id existing_ingress state r =
    let tunnel_id = preview_tunnel state.tunnel_id in
    record {
      snapshot =
          build_discovery_snapshot (map (found_of tools) r.services) (map (λ c. []) r.containers)
            moment.now (usable r);
      remote = record {
        tunnel_id = tunnel_id;
        tunnel_name = strip settings.tunnel_name;
        zone_id = zone_id;
        tunnel_target = tunnel_id <> ".cfargotunnel.com";
        existing_ingress_rules = existing_ingress;
        existing_dns_records = [];
      };
      tombstones = state.tombstones;
      now = moment.now;
      plan_id = moment.plan_id;
      policy = adopt_and_manage;
      dns_delete_grace_seconds = 0;
      dry_run = true;
      immediate_cleanup = false;
      max_deletions = none;
      tag_prefix = "cf-tunnel-sync:";
      preserve_manual_roots = false;
    }

module _ (env : Environment) (tools : Tools) (settings : CycleSettings) where
  abbrev pub State : Type 0
  State = Runtime env tools settings

  -- What the inventory leaves in the working state.
  unfoldable pub inspected : State → env.World → InventoryResult → State
  inspected s w r = record s {
    working = say (inventory_lines r.log ∷ []) (record (s.working) {
      world = w;
      state = record (s.working.state) {
        docker_connected = r.docker_connected;
        deprecations_warned = r.warned;
      };
    });
  }

  unfoldable pub on_inspection :
      Moment → String → List Rule → CycleData → State → env.World × Request → State × ChangePlan
  on_inspection moment zone_id existing_ingress state s (w, request) =
      let r = collect tools settings.discovery s.working.state.deprecations_warned request in
      (
        inspected s w r,
        compute_change_plan (preview_args tools settings moment zone_id existing_ingress state r),
      )

  -- `compute_preview`, with `DiscoveryService.collect` as `discover`
  unfoldable pub compute_preview :
      Moment → String → List Rule → CycleData → State → State × ChangePlan
  compute_preview moment zone_id existing_ingress state s =
      on_inspection moment zone_id existing_ingress state s (env.list_containers s.working.world)

  -- The plan joins the working state, which is published.
  unfoldable pub keep_preview : ChangePlan → State → State
  keep_preview plan s =
      let working = record (s.working) {
        state = record (s.working.state) { last_change_plan = some plan };
      } in
      record s { working = working; published = working.state }

  abbrev pub unless_planned : Option ChangePlan → ChangePlan → State → State × ChangePlan
  unless_planned (some existing) plan s = (s, existing)
  unless_planned none plan s = (keep_preview plan s, plan)

  -- `cache_preview`
  unfoldable pub cache_preview : ChangePlan → State → State × ChangePlan
  cache_preview plan s = unless_planned s.working.state.last_change_plan plan s

  abbrev pub answer_with : Moment → Option ChangePlan → State → State × ChangePlan
  answer_with moment (some plan) s = (s, plan)
  answer_with moment none s =
      let preview =
        compute_preview moment "preview-zone-id" (or_default s.published.last_ingress [])
          s.published s in
      cache_preview preview.1 preview.0

  -- `api_change_plan`; no cycle writes the key "zone_id".
  unfoldable pub api_change_plan : Moment → State → State × ChangePlan
  api_change_plan moment s = answer_with moment s.published.last_change_plan s
