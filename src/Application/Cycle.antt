-- ===== src/Application/Cycle.antt =====
-- tunnel_sync/application/sync.py: the state of `SyncService` and what a cycle is given. Cloudflare,
-- Docker, the shared volume and the tombstone file are one state of an unknown type.
pub mod Planning
pub mod Stages
pub mod Finishing
pub mod Run
pub mod DryRuns
pub mod Aborts
pub mod Drops
pub mod Telling
pub mod Endings
pub mod Passing
pub mod Outcomes
use cf_docker_tunnel_sync.Base.{
  ℕ, String, ◌<>◌, Bool, true, false, Option, none, some, List, [], ◌∷◌, ◌++◌, map,
}
use cf_docker_tunnel_sync.Base.Lists.{any}
use cf_docker_tunnel_sync.Base.Dict.{Dict, insert}
use cf_docker_tunnel_sync.Base.Json.{Json, Fields}
use cf_docker_tunnel_sync.Domain.Models.{Rule, DnsRecord, ChangePlan, ChangePlanSummary}
use cf_docker_tunnel_sync.Domain.Snapshots.{FoundService}
use cf_docker_tunnel_sync.Domain.Diagnostics.{Service, ServiceStatus}
use cf_docker_tunnel_sync.Application.Ports.{TunnelConfig, Call, Writer}
use cf_docker_tunnel_sync.Application.Policy.{DeletionPolicy, GuardError}
use cf_docker_tunnel_sync.Application.Calls.{to_fields}
use cf_docker_tunnel_sync.Application.Reports.{Report}
use cf_docker_tunnel_sync.Application.Activation.{Reading, Answer, Connector, Created}
use cf_docker_tunnel_sync.Application.Fetching.{Query, Reader}
use cf_docker_tunnel_sync.Application.Discovery.{
  Settings, Tools, ServiceItem, ContainerEntry, target_text,
}
use cf_docker_tunnel_sync.Application.Discovery.Loop.{Request}

-- What a read from Cloudflare gives: a value, or an exception with its text.
pub data Answered (A : Type 0) : Type 0 where
  answered : A → Answered A
  failed : String → Answered A

pub record Zone : Type 0 where
  pub id : String
  pub account_id : Option String

pub record Environment : Type 1 where
  pub World : Type 0
  pub list_containers : World → World × Request
  pub zones : World → String → World × Answered (List Zone)
  pub accounts : World → World × Answered (List String)
  pub tunnels : World → String → String → World × Answered (List String)
  pub create_tunnel : World → String → String → World × Created
  pub tunnel_token : World → String → String → World × Answered String
  pub configuration : World → String → String → World × Answered TunnelConfig
  pub read_records : World → String → Query → World × Option (List DnsRecord)
  pub mutate : World → Call → World × Option String
  pub read_token : World → Reading
  pub write_token : World → String → World × Bool
  pub restart : World → String → World × Option String
  pub find_connector : World → Answer
  pub load_file : World → World × Option (Dict Json)
  pub store_file : World → Dict ℕ → World

-- The settings, with their defaults filled in and their numbers parsed; `capable` says that the
-- executor has a token store and a restarter.
pub record CycleSettings : Type 0 where
  pub token : Option String
  pub domain : String
  pub tunnel_name : String
  pub account_id : Option String
  pub dry_run : Bool
  pub ownership_policy : String
  pub immediate_cleanup : Bool
  pub grace_period : ℕ
  pub max_deletions_per_run : Option String
  pub preserve_manual_roots : Bool
  pub persistence_enabled : Bool
  pub deletion_policy : DeletionPolicy
  pub capable : Bool
  pub discovery : Settings

pub data CycleStatus : Type 0 where
  syncing waiting_for_token waiting_for_domain docker_degraded no_account : CycleStatus
  zone_missing : String → CycleStatus
  provisioning_required dry_synced active degraded_sync : CycleStatus
  guard_tripped : CycleStatus
  sync_error : String → CycleStatus

-- An entry of "dns_records": of a service, or of a tombstone with the seconds that are left.
pub data SyncedRecord : Type 0 where
  of_service : String → Option String → SyncedRecord
  of_tombstone : String → ℕ → SyncedRecord

-- The keys of the state that a cycle reads and writes, and the pending restart of the executor.
pub record CycleData : Type 0 where
  pub status : CycleStatus
  pub safety_guard_tripped : Bool
  pub docker_connected : Bool
  pub tunnel_id : Option String
  pub services : List Service
  pub discovered_services : List Service
  pub all_containers : List ContainerEntry
  pub dns_records : List SyncedRecord
  pub tombstones : Dict ℕ
  pub last_change_plan : Option ChangePlan
  pub last_ingress : Option (List Rule)
  pub deprecations_warned : List (String × String)
  pub pending_token : Option String
  pub pending_connector : Option Answer

-- What differs from cycle to cycle: the id of the plan, and the clock at the snapshot and at the plan.
pub record Moment : Type 0 where
  pub plan_id : String
  pub timestamp : ℕ
  pub now : ℕ

-- `services_count` is the length of the variable `services`, 0 before it is set; `plan_summary` is that
-- of the variable `plan`. The reports are the calls of the reporter, the metrics and the dispatcher.
pub record Cycle (W : Type 0) : Type 0 where
  pub world : W
  pub state : CycleData
  pub services_count : ℕ
  pub plan_summary : Option ChangePlanSummary
  pub reports : List (Report CycleStatus)

-- More reports.
abbrev pub say : {W : Type 0} → List (Report CycleStatus) → Cycle W → Cycle W
say reports c = record c { reports = c.reports ++ reports }

-- How a part of a cycle ends: by an early return, or by one of the two kinds of exceptions.
pub data Ended (W : Type 0) : Type 0 where
  returned : Cycle W → Ended W
  guarded : GuardError → Cycle W → Ended W
  raised : String → Cycle W → Ended W

-- The keys of a service item that `build_discovery_snapshot` reads; there is no "container_name".
unfoldable pub found_of : Tools → ServiceItem → FoundService
found_of tools s = record {
  container_name = none;
  container_id = none;
  hostname = some s.hostname;
  service = some (target_text tools s.service);
  origin_request_camel = request_of s.origin_request;
  origin_request_snake = none;
  no_tls_verify = s.no_tls_verify;
  http_host_header = none;
  labels = none;
}
  where
    request_of : Dict Json → Option Fields
    request_of [] = none
    request_of request = some (to_fields request)

-- The keys of a service item that `StatusPublisher.publish` reads.
unfoldable pub service_of : Tools → ServiceItem → Service
service_of tools s = record {
  hostname = some s.hostname;
  service = some (target_text tools s.service);
  stages = s.stages;
  status = some s.status;
}
