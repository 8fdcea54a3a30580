-- ===== src/Application/Cycle/Passing.antt =====
-- tunnel_sync/application/sync.py: how the parts of a cycle between the inventory and its end are counted and
-- alerted of.
use cf_docker_tunnel_sync.Base.{
  ℕ, String, true, Option, none, some, List, [], ◌∷◌, ◌≡◌, refl, sym, ◌∙◌, map, inl,
}
use cf_docker_tunnel_sync.Base.Lists.{length}
use cf_docker_tunnel_sync.Base.Dict.{Dict}
use cf_docker_tunnel_sync.Domain.Models.{DnsRecord, or_default}
use cf_docker_tunnel_sync.Application.Ports.{TunnelConfig}
use cf_docker_tunnel_sync.Application.Activation.{
  Activated, done, missing_capability, Provisioned, provisioned,
}
use cf_docker_tunnel_sync.Application.Discovery.{Tools}
use cf_docker_tunnel_sync.Application.Reports.{
  Report, CycleLine, line, activation_lines, tunnel_needed, creating_tunnel,
}
use cf_docker_tunnel_sync.Application.Cycle.{
  Answered, answered, failed, Zone, Environment, CycleSettings, CycleStatus, provisioning_required,
  Moment, say, service_of, raised,
}
use cf_docker_tunnel_sync.Application.Cycle.Telling.{loud, said, drop_lines-IsQuiet}
use cf_docker_tunnel_sync.Application.Cycle.Stages.{
  stripped, Now, End, at, stop, Inventory, on_zones, find_zone, on_accounts, find_account,
  on_provisioned, create, on_tunnels, find_tunnel, on_activated, on_token, activate_tunnel,
  on_configuration, read_configuration,
}
use cf_docker_tunnel_sync.Application.Cycle.Finishing.{drop_lines}
use cf_docker_tunnel_sync.Application.Cycle.Run.{
  on_file, load_tombstones, on_records, check_deletions, fetch_records, plan_and_execute,
  with_tunnel, with_services,
}
use cf_docker_tunnel_sync.Application.Cycle.Endings.{
  is_early, Numbered, Ready, Good, Keeping, stop-Good, raised-Good, if-Good, carry_out-Good,
}

module _ (env : Environment) (tools : Tools) (settings : CycleSettings) (moment : Moment)
    (told : List (Report CycleStatus)) (count : ℕ) where
  abbrev Kept : (Now env tools settings → End env tools settings) → Type 0
  Kept = Keeping env tools settings moment told count

  abbrev GoodEnd : End env tools settings → Type 0
  GoodEnd = Good env tools settings moment told

  abbrev Prepared : Now env tools settings → Type 0
  Prepared = Ready env tools settings moment told count

  counted :
      (c : Now env tools settings)
      → Prepared c
      → (c.services_count ≡ length c.state.discovered_services) × (c.plan_summary ≡ none)
  counted c e = (e.1.0 ∙ sym e.1.1.0, e.1.1.1)

  -- A part that tells only one line.
  pub stop-line :
      (status : CycleStatus) (l : CycleLine) (c : Now env tools settings)
      → is_early status ≡ true
      → loud c.reports ≡ told
      → Numbered status c
      → GoodEnd (stop env tools settings status (line l ∷ []) c)
  stop-line status l c early h counted =
      stop-Good env tools settings moment told status (line l ∷ []) early (record { quiet = refl })
        c h counted

  -- A part that raises before the plan.
  raised-Ready : (e : String) (c : Now env tools settings) → Prepared c → GoodEnd (raised e c)
  raised-Ready e c h =
      let n = counted c h in raised-Good env tools settings moment told e c h.0 (n.0, inl n.1)

  on_zones-Good :
      (k : Zone → Now env tools settings → End env tools settings)
      → ((z : Zone) → Kept (k z))
      → (c : Now env tools settings) (a : env.World × Answered (List Zone)) → Prepared c
      → GoodEnd (on_zones env tools settings k c a)
  unfolding on_zones
  on_zones-Good k h c (w, failed m) e = raised-Ready m (at env tools settings w c) e
  on_zones-Good k h c (w, answered []) e =
      stop-line _ _ (at env tools settings w c) refl e.0 (counted c e)
  on_zones-Good k h c (w, answered (zone ∷ zones)) e =
      if-Good env tools settings moment told _ _ _
        (stop-line _ _ (at env tools settings w c) refl e.0 (counted c e))
        (h zone (at env tools settings w c) e)

  on_accounts-Good :
      (k : String → Now env tools settings → End env tools settings)
      → ((n : String) → Kept (k n))
      → (c : Now env tools settings) (a : env.World × Answered (List String)) → Prepared c
      → GoodEnd (on_accounts env tools settings k c a)
  unfolding on_accounts
  on_accounts-Good k h c (w, failed m) e =
      stop-line _ _ (at env tools settings w c) refl e.0 (counted c e)
  on_accounts-Good k h c (w, answered []) e =
      stop-line _ _ (at env tools settings w c) refl e.0 (counted c e)
  on_accounts-Good k h c (w, answered (n ∷ ns)) e =
      if-Good env tools settings moment told _ _ _
        (stop-line _ _ (at env tools settings w c) refl e.0 (counted c e))
        (h n (at env tools settings w c) e)

  find_account-Good :
      (zone : Zone) (k : String → Now env tools settings → End env tools settings)
      → ((n : String) → Kept (k n))
      → Kept (find_account env tools settings zone k)
  unfolding find_account
  find_account-Good zone k h c e =
      if-Good env tools settings moment told _ _ _
        (h (or_default (stripped settings.account_id) "") c e)
        (if-Good env tools settings moment told _ _ _ (h (or_default zone.account_id "") c e)
          (on_accounts-Good k h c (env.accounts c.world) e))

  on_provisioned-Good :
      (k : String → Now env tools settings → End env tools settings)
      → ((n : String) → Kept (k n))
      → (c : Now env tools settings) (p : Provisioned env.World) → Prepared c
      → GoodEnd (on_provisioned env tools settings k c p)
  unfolding on_provisioned
  on_provisioned-Good k h c (provisioned (some id) w log) e =
      h id _ (said told c.reports (activation_lines log ∷ []) e.0 (record { quiet = refl }), e.1)
  on_provisioned-Good k h c (provisioned none w log) e =
      raised-Ready _ _
        (said told c.reports (activation_lines log ∷ []) e.0 (record { quiet = refl }), e.1)
  on_provisioned-Good k h c (Provisioned.raised m w) e =
      raised-Ready m (at env tools settings w c) e

  on_tunnels-Good :
      (account : String) (k : String → Now env tools settings → End env tools settings)
      → ((n : String) → Kept (k n))
      → (c : Now env tools settings) (a : env.World × Answered (List String)) → Prepared c
      → GoodEnd (on_tunnels env tools settings account k c a)
  unfolding on_tunnels create
  on_tunnels-Good account k h c (w, failed m) e = raised-Ready m (at env tools settings w c) e
  on_tunnels-Good account k h c (w, answered []) e =
      if-Good env tools settings moment told _ _ _
        (stop-line provisioning_required tunnel_needed _ refl e.0 (counted c e))
        (on_provisioned-Good k h _ _
          (said told c.reports (line (creating_tunnel _) ∷ []) e.0 (record { quiet = refl }), e.1))
  on_tunnels-Good account k h c (w, answered (n ∷ ns)) e = h n (at env tools settings w c) e

  on_activated-Good :
      (k : Now env tools settings → End env tools settings)
      → Kept k
      → (c : Now env tools settings) (a : Activated env.World) → Prepared c
      → GoodEnd (on_activated env tools settings k c a)
  unfolding on_activated
  on_activated-Good k h c missing_capability e = raised-Ready _ c e
  on_activated-Good k h c (done a) e =
      h _ (said told c.reports (activation_lines a.log ∷ []) e.0 (record { quiet = refl }), e.1)

  on_token-Good :
      (k : Now env tools settings → End env tools settings)
      → Kept k
      → (c : Now env tools settings) (a : env.World × Answered String) → Prepared c
      → GoodEnd (on_token env tools settings k c a)
  unfolding on_token
  on_token-Good k h c (w, failed m) e = raised-Ready m (at env tools settings w c) e
  on_token-Good k h c (w, answered token) e = on_activated-Good k h (at env tools settings w c) _ e

  activate_tunnel-Good :
      (account tunnel : String) (k : Now env tools settings → End env tools settings)
      → Kept k
      → Kept (activate_tunnel env tools settings account tunnel k)
  unfolding activate_tunnel
  activate_tunnel-Good account tunnel k h c e =
      if-Good env tools settings moment told _ _ _ (h _ e) (on_token-Good k h _ _ e)

  on_configuration-Good :
      (k : TunnelConfig → Now env tools settings → End env tools settings)
      → ((t : TunnelConfig) → Kept (k t))
      → (c : Now env tools settings) (a : env.World × Answered TunnelConfig) → Prepared c
      → GoodEnd (on_configuration env tools settings k c a)
  unfolding on_configuration
  on_configuration-Good k h c (w, failed m) e = raised-Ready m (at env tools settings w c) e
  on_configuration-Good k h c (w, answered t) e = h t (at env tools settings w c) e

  on_records-Good :
      (k : List DnsRecord → Now env tools settings → End env tools settings)
      → ((recs : List DnsRecord) → Kept (k recs))
      → (c : Now env tools settings) (a : env.World × Option (Dict DnsRecord)) → Prepared c
      → GoodEnd (on_records env tools settings moment k c a)
  unfolding on_records
  on_records-Good k h c (w, none) e = raised-Ready _ (at env tools settings w c) e
  on_records-Good k h c (w, some records) e = h _ (at env tools settings w c) e

  load_tombstones-Good :
      (k : Dict ℕ → Now env tools settings → End env tools settings)
      → ((t : Dict ℕ) → Kept (k t))
      → Kept (load_tombstones env tools settings moment k)
  unfolding load_tombstones on_file
  load_tombstones-Good k h c e =
      if-Good env tools settings moment told _ _ _ (h _ _ e) (h c.state.tombstones c e)

  check_deletions-Good :
      (k : Now env tools settings → End env tools settings)
      → Kept k
      → Kept (check_deletions env tools settings moment k)
  unfolding check_deletions
  check_deletions-Good k h c e =
      if-Good env tools settings moment told _ _ _ (raised-Ready _ c e) (h c e)

  plan_and_execute-Good :
      (inventory : Inventory env tools settings)
      (same : length (map (service_of tools) inventory.items) ≡ count) (account zone_id : String)
      (config : TunnelConfig) (tunnel : String) (recs : List DnsRecord)
      → Kept
          (plan_and_execute env tools settings moment inventory account zone_id config tunnel recs)
  unfolding plan_and_execute
  plan_and_execute-Good inventory same account zone_id config tunnel recs c e =
      let noted =
        said told c.reports (drop_lines inventory.known inventory.items) e.0
          (drop_lines-IsQuiet inventory.known inventory.items) in
      check_deletions-Good _
        (load_tombstones-Good _ (λ t.
          carry_out-Good env tools settings moment told account config _
            (map (service_of tools) inventory.items) count same))
        (say (drop_lines inventory.known inventory.items) c) (noted, e.1)

  with_tunnel-Good :
      (inventory : Inventory env tools settings)
      (same : length (map (service_of tools) inventory.items) ≡ count)
      (account zone_id tunnel : String)
      → Kept (with_tunnel env tools settings moment inventory account zone_id tunnel)
  unfolding with_tunnel read_configuration fetch_records
  with_tunnel-Good inventory same account zone_id tunnel =
      activate_tunnel-Good account tunnel _ (λ c e.
        on_configuration-Good _
          (λ config c' e'.
            on_records-Good _
              (λ recs. plan_and_execute-Good inventory same account zone_id config tunnel recs) c' _
              e')
          c _ e)

  pub with_services-Good :
      (inventory : Inventory env tools settings)
      (same : length (map (service_of tools) inventory.items) ≡ count)
      → Kept (with_services env tools settings moment inventory)
  unfolding with_services find_zone find_tunnel
  with_services-Good inventory same c e =
      on_zones-Good _
        (λ zone. find_account-Good zone _ (λ account c' e'.
          on_tunnels-Good account _
            (λ tunnel. with_tunnel-Good inventory same account zone.id tunnel) c' _ e'))
        c _ e
