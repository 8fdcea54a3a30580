-- ===== src/Application/Cycle/DryRuns.antt =====
-- tunnel_sync/application/sync.py: a dry run only reads.
use cf_docker_tunnel_sync.Base.{
  ℕ, String, Bool, true, false, Option, none, some, List, [], ◌∷◌, ◌≡◌, refl, ◌∙◌, if◌then◌else◌,
}
use cf_docker_tunnel_sync.Base.Dict.{Dict}
use cf_docker_tunnel_sync.Base.Json.{Json}
use cf_docker_tunnel_sync.Base.Text.{strip}
use cf_docker_tunnel_sync.Domain.Models.{DnsRecord, or_default}
use cf_docker_tunnel_sync.Domain.Labels.{truthy}
use cf_docker_tunnel_sync.Domain.Diagnostics.{Service}
use cf_docker_tunnel_sync.Domain.Plan.{PlanArgs}
use cf_docker_tunnel_sync.Application.Ports.{TunnelConfig}
use cf_docker_tunnel_sync.Application.Fetching.{Query}
use cf_docker_tunnel_sync.Application.Fetching.Keeping.{fetch_dns-keeps}
use cf_docker_tunnel_sync.Application.Tombstones.{planned_tombstones}
use cf_docker_tunnel_sync.Application.Discovery.{Tools}
use cf_docker_tunnel_sync.Application.Discovery.Loop.{Request}
use cf_docker_tunnel_sync.Application.Reports.{Report}
use cf_docker_tunnel_sync.Application.Cycle.{
  Answered, answered, failed, Zone, Environment, CycleSettings, CycleStatus, waiting_for_token,
  waiting_for_domain, Moment, say, Ended, returned, guarded, raised,
}
use cf_docker_tunnel_sync.Application.Cycle.Planning.{is_refused}
use cf_docker_tunnel_sync.Application.Cycle.Stages.{
  Runtime, is_missing, stripped, Now, End, at, stop, begin, check_settings, Inventory,
  with_inventory, on_containers, find_services, on_zones, find_zone, on_accounts, find_account,
  create, on_tunnels, find_tunnel, activate_tunnel, on_configuration, read_configuration,
}
use cf_docker_tunnel_sync.Application.Cycle.Finishing.{drop_lines, carry_out}
use cf_docker_tunnel_sync.Application.Cycle.Run.{
  on_file, load_tombstones, on_records, check_deletions, fetch_records, plan_and_execute,
  with_tunnel, with_services, synchronize, handle, conclude, run_once,
}

-- What reads of the environment, and the tombstone file, leave as it is.
pub record Keeps (env : Environment) (R : Type 0) (remote : env.World → R) : Type 0 where
  pub keeps_list : (w : env.World) → remote (env.list_containers w).0 ≡ remote w
  pub keeps_zones : (w : env.World) (d : String) → remote (env.zones w d).0 ≡ remote w
  pub keeps_accounts : (w : env.World) → remote (env.accounts w).0 ≡ remote w
  pub keeps_tunnels : (w : env.World) (a n : String) → remote (env.tunnels w a n).0 ≡ remote w
  pub keeps_configuration :
      (w : env.World) (a t : String) → remote (env.configuration w a t).0 ≡ remote w
  pub keeps_records :
      (w : env.World) (z : String) (q : Query) → remote (env.read_records w z q).0 ≡ remote w
  pub keeps_load : (w : env.World) → remote (env.load_file w).0 ≡ remote w
  pub keeps_store : (w : env.World) (d : Dict ℕ) → remote (env.store_file w d) ≡ remote w

abbrev world_of : {W : Type 0} → Ended W → W
world_of (returned c) = c.world
world_of (guarded e c) = c.world
world_of (raised e c) = c.world

module _ (env : Environment) (tools : Tools) (settings : CycleSettings) (moment : Moment)
    (R : Type 0) (remote : env.World → R) (keeps : Keeps env R remote)
    (dry : settings.dry_run ≡ true) (r : R) where
  record Kept (e : End env tools settings) : Type 0 where
    same : remote (world_of e) ≡ r

  -- A part that goes on keeps it whenever it is kept so far.
  abbrev Keeping : (Now env tools settings → End env tools settings) → Type 0
  Keeping k = (c : Now env tools settings) → remote c.world ≡ r → Kept (k c)

  stop-Kept :
      (status : CycleStatus) (reports : List (Report CycleStatus))
      → Keeping (stop env tools settings status reports)
  unfolding stop
  stop-Kept status reports c h = record { same = h }

  if-Kept : (b : Bool) (e f : End env tools settings) → Kept e → Kept f → Kept (if b then e else f)
  if-Kept true e f h k = h
  if-Kept false e f h k = k

  dry-Kept : (e f : End env tools settings) → Kept e → Kept (if settings.dry_run then e else f)
  dry-Kept e f h = taken settings.dry_run dry
    where
      taken : (b : Bool) → b ≡ true → Kept (if b then e else f)
      taken true t = h
      taken false t = absurd (cc t)

  check_settings-Keeping :
      (k : Now env tools settings → End env tools settings)
      → Keeping k
      → Keeping (check_settings env tools settings k)
  unfolding check_settings
  check_settings-Keeping k h c e =
      if-Kept (is_missing settings.token "your_cloudflare_api_token_here") _ _
        (stop-Kept waiting_for_token _ c e)
        (if-Kept (is_missing (some settings.domain) "yourdomain.com") _ _
          (stop-Kept waiting_for_domain _ c e) (h c e))

  -- The answer to the request for the containers.
  on_containers-Kept :
      (k : Inventory env tools settings → Now env tools settings → End env tools settings)
      → ((i : Inventory env tools settings) → Keeping (k i))
      → (c : Now env tools settings) (a : env.World × Request) → remote a.0 ≡ r
      → Kept (on_containers env tools settings k c a)
  unfolding on_containers with_inventory
  on_containers-Kept k h c (w, request) e = if-Kept _ _ _ (h _ _ e) (stop-Kept _ _ _ e)

  on_zones-Kept :
      (k : Zone → Now env tools settings → End env tools settings)
      → ((z : Zone) → Keeping (k z))
      → (c : Now env tools settings) (a : env.World × Answered (List Zone)) → remote a.0 ≡ r
      → Kept (on_zones env tools settings k c a)
  unfolding on_zones
  on_zones-Kept k h c (w, failed m) e = record { same = e }
  on_zones-Kept k h c (w, answered []) e = stop-Kept _ _ (at env tools settings w c) e
  on_zones-Kept k h c (w, answered (zone ∷ zones)) e =
      if-Kept _ _ _ (stop-Kept _ _ (at env tools settings w c) e)
        (h zone (at env tools settings w c) e)

  on_accounts-Kept :
      (k : String → Now env tools settings → End env tools settings)
      → ((n : String) → Keeping (k n))
      → (c : Now env tools settings) (a : env.World × Answered (List String)) → remote a.0 ≡ r
      → Kept (on_accounts env tools settings k c a)
  unfolding on_accounts
  on_accounts-Kept k h c (w, failed m) e = stop-Kept _ _ (at env tools settings w c) e
  on_accounts-Kept k h c (w, answered []) e = stop-Kept _ _ (at env tools settings w c) e
  on_accounts-Kept k h c (w, answered (n ∷ ns)) e =
      if-Kept _ _ _ (stop-Kept _ _ (at env tools settings w c) e)
        (h n (at env tools settings w c) e)

  find_account-Kept :
      (zone : Zone) (k : String → Now env tools settings → End env tools settings)
      → ((n : String) → Keeping (k n))
      → Keeping (find_account env tools settings zone k)
  unfolding find_account
  find_account-Kept zone k h c e =
      if-Kept (truthy (stripped settings.account_id)) _ _
        (h (or_default (stripped settings.account_id) "") c e)
        (if-Kept (truthy zone.account_id) _ _ (h (or_default zone.account_id "") c e)
          (on_accounts-Kept k h c (env.accounts c.world) (keeps.keeps_accounts c.world ∙ e)))

  on_tunnels-Kept :
      (account : String) (k : String → Now env tools settings → End env tools settings)
      → ((n : String) → Keeping (k n))
      → (c : Now env tools settings) (a : env.World × Answered (List String)) → remote a.0 ≡ r
      → Kept (on_tunnels env tools settings account k c a)
  unfolding on_tunnels create
  on_tunnels-Kept account k h c (w, failed m) e = record { same = e }
  on_tunnels-Kept account k h c (w, answered []) e = dry-Kept _ _ (stop-Kept _ _ _ e)
  on_tunnels-Kept account k h c (w, answered (n ∷ ns)) e = h n (at env tools settings w c) e

  activate_tunnel-Kept :
      (account tunnel : String) (k : Now env tools settings → End env tools settings)
      → Keeping k
      → Keeping (activate_tunnel env tools settings account tunnel k)
  unfolding activate_tunnel
  activate_tunnel-Kept account tunnel k h c e = dry-Kept _ _ (h _ e)

  on_configuration-Kept :
      (k : TunnelConfig → Now env tools settings → End env tools settings)
      → ((t : TunnelConfig) → Keeping (k t))
      → (c : Now env tools settings) (a : env.World × Answered TunnelConfig) → remote a.0 ≡ r
      → Kept (on_configuration env tools settings k c a)
  unfolding on_configuration
  on_configuration-Kept k h c (w, failed m) e = record { same = e }
  on_configuration-Kept k h c (w, answered t) e = h t (at env tools settings w c) e

  on_records-Kept :
      (k : List DnsRecord → Now env tools settings → End env tools settings)
      → ((recs : List DnsRecord) → Keeping (k recs))
      → (c : Now env tools settings) (a : env.World × Option (Dict DnsRecord)) → remote a.0 ≡ r
      → Kept (on_records env tools settings moment k c a)
  unfolding on_records
  on_records-Kept k h c (w, none) e = record { same = e }
  on_records-Kept k h c (w, some records) e = h _ (at env tools settings w c) e

  on_file-Kept :
      (k : Dict ℕ → Now env tools settings → End env tools settings)
      → ((t : Dict ℕ) → Keeping (k t))
      → (c : Now env tools settings) (a : env.World × Option (Dict Json)) → remote a.0 ≡ r
      → Kept (on_file env tools settings moment k c a)
  unfolding on_file
  on_file-Kept k h c (w, entries) e = h _ (at env tools settings w c) e

  load_tombstones-Kept :
      (k : Dict ℕ → Now env tools settings → End env tools settings)
      → ((t : Dict ℕ) → Keeping (k t))
      → Keeping (load_tombstones env tools settings moment k)
  unfolding load_tombstones
  load_tombstones-Kept k h c e =
      if-Kept _ _ _ (on_file-Kept k h c _ (keeps.keeps_load c.world ∙ e)) (h c.state.tombstones c e)

  carry_out-Kept :
      (account : String) (config : TunnelConfig) (args : PlanArgs) (services : List Service)
      → Keeping (carry_out env tools settings moment account config args services)
  unfolding carry_out
  carry_out-Kept account config args services c e =
      dry-Kept _ _ (stop-Kept _ _ _ (stored settings.persistence_enabled))
    where
      stored :
          (b : Bool)
          → remote (if b then env.store_file c.world (planned_tombstones args) else c.world) ≡ r
      stored true = keeps.keeps_store c.world (planned_tombstones args) ∙ e
      stored false = e

  check_deletions-Kept :
      (k : Now env tools settings → End env tools settings)
      → Keeping k
      → Keeping (check_deletions env tools settings moment k)
  unfolding check_deletions
  check_deletions-Kept k h c e =
      if-Kept (is_refused settings.max_deletions_per_run) (raised _ c) (k c) (record { same = e })
        (h c e)

  plan_and_execute-Kept :
      (inventory : Inventory env tools settings) (account zone_id : String) (config : TunnelConfig)
      (tunnel : String) (recs : List DnsRecord)
      → Keeping
          (plan_and_execute env tools settings moment inventory account zone_id config tunnel recs)
  unfolding plan_and_execute
  plan_and_execute-Kept inventory account zone_id config tunnel recs c e =
      check_deletions-Kept _ (load_tombstones-Kept _ (λ t. carry_out-Kept account config _ _))
        (say (drop_lines inventory.known inventory.items) c) e

  with_tunnel-Kept :
      (inventory : Inventory env tools settings) (account zone_id tunnel : String)
      → Keeping (with_tunnel env tools settings moment inventory account zone_id tunnel)
  unfolding with_tunnel read_configuration fetch_records
  with_tunnel-Kept inventory account zone_id tunnel = activate_tunnel-Kept account tunnel _ (λ c e.
      on_configuration-Kept _
        (λ config c' e'.
          on_records-Kept _
            (λ recs. plan_and_execute-Kept inventory account zone_id config tunnel recs) c' _
            (fetch_dns-keeps _ remote (λ w q. keeps.keeps_records w zone_id q) r _ _ c'.world e'))
        c _ (keeps.keeps_configuration c.world account tunnel ∙ e))

  with_services-Kept :
      (inventory : Inventory env tools settings)
      → Keeping (with_services env tools settings moment inventory)
  unfolding with_services find_zone find_tunnel
  with_services-Kept inventory c e =
      on_zones-Kept _
        (λ zone. find_account-Kept zone _ (λ account c' e'.
          on_tunnels-Kept account _ (λ tunnel. with_tunnel-Kept inventory account zone.id tunnel) c'
            _ (keeps.keeps_tunnels c'.world account (strip settings.tunnel_name) ∙ e')))
        c _ (keeps.keeps_zones c.world settings.domain ∙ e)

  synchronize-Kept : Keeping (synchronize env tools settings moment)
  unfolding synchronize find_services
  synchronize-Kept =
      check_settings-Keeping _
        (λ c e. on_containers-Kept _ with_services-Kept c _ (keeps.keeps_list c.world ∙ e))

  handle-Kept :
      (e : End env tools settings) → Kept e → remote (handle env tools settings moment e).world ≡ r
  unfolding handle
  handle-Kept (returned c) h = h.same
  handle-Kept (guarded m c) h = h.same
  handle-Kept (raised m c) h = h.same

-- In a dry run, whatever the reads and the tombstone file leave as it is, the cycle leaves as it is,
-- whatever it reads and however it ends: it creates no tunnel, activates no token and sends no change.
pub run_once-dry :
    (env : Environment) (tools : Tools) (settings : CycleSettings) (moment : Moment) (R : Type 0)
    (remote : env.World → R)
    → Keeps env R remote
    → settings.dry_run ≡ true
    → (s : Runtime env tools settings)
    → remote (run_once env tools settings moment s).working.world ≡ remote s.working.world
unfolding run_once begin conclude
run_once-dry env tools settings moment R remote keeps dry s =
    held s.running
      (conclude env tools settings moment (
        handle env tools settings moment
          (synchronize env tools settings moment (begin env tools settings s.working))))
      (handle-Kept env tools settings moment R remote keeps dry (remote s.working.world) _ (
        synchronize-Kept env tools settings moment R remote keeps dry (remote s.working.world)
          (begin env tools settings s.working) refl))
  where
    held :
        (b : Bool) (c : Now env tools settings)
        → remote c.world ≡ remote s.working.world
        → remote
            (if b
              then s
              else record { working = c; published = c.state; running = false }).working.world
          ≡ remote s.working.world
    held true c h = refl
    held false c h = h
