-- ===== src/Application/Reporter.antt =====
-- tunnel_sync/application/reporting.py: `Reporter`, with the keys of the state that it reads and writes.
-- Readings of the clock and the random part of an id are arguments, and durations are rounded already.
pub mod Ring
pub mod Journal
use cf_docker_tunnel_sync.Base.{
  ℕ, suc, String, ◌<>◌, Bool, true, false, not, ◌||◌, Option, none, some, List, [], ◌∷◌, ◌++◌, ◌==◌,
  ltb, if◌then◌else◌,
}
use cf_docker_tunnel_sync.Base.Text.{lower, upper, has_text}
use cf_docker_tunnel_sync.Application.Executor.{
  Resource, ingress, dns_resource, Status, failed, succeeded, skipped, Note, OperationResult,
}
use cf_docker_tunnel_sync.Application.Reporter.Ring.{push}
use cf_docker_tunnel_sync.Domain.Models.{ChangePlanSummary}

pub record Event : Type 0 where
  pub id : String
  pub timestamp : ℕ
  pub iso_time : String
  pub severity : String
  pub event_type : String
  pub service : String
  pub message : String

pub record HistoryEntry : Type 0 where
  pub timestamp : ℕ
  pub iso_time : String
  pub duration_ms : ℕ
  pub status : String
  pub services_count : ℕ
  pub summary : Option ChangePlanSummary

pub data Health : Type 0 where
  never_synced degraded healthy unknown : Health

pub record Overview : Type 0 where
  pub active_services : ℕ
  pub discovered_services : ℕ
  pub failed_services : ℕ
  pub last_sync_duration_ms : ℕ
  pub safety_tripped : Bool
  pub api_connected : Bool
  pub health_state : Health

-- A call of the metrics.
pub data Metric : Type 0 where
  ingress_op dns_op : String → Metric
  docker_gauge : Bool → Metric

-- The state; `A` is the type of the dispatcher's status. `services` has the status of each service, an
-- empty text if it has none.
pub record Board (A : Type 0) : Type 0 where
  pub logs : List String
  pub events : List Event
  pub sync_history : List HistoryEntry
  pub overview_metrics : Option Overview
  pub alert_status : Option A
  pub metrics : List Metric
  pub status : String
  pub last_sync : Option String
  pub docker_connected : Bool
  pub safety_guard_tripped : Bool
  pub services : List String
  pub discovered_count : ℕ

-- The clock: the time of day, seconds, and the ISO form; and the id of an event.
pub record Stamp : Type 0 where
  pub time : String
  pub now : ℕ
  pub iso_time : String
  pub event_id : String

abbrev pub is_active : String → Bool
is_active st = has_text st "Active" || has_text st "Synced"

abbrev pub is_failing : String → Bool
is_failing st = has_text st "Degraded" || has_text st "Error" || has_text st "Failed"

-- The services that are active, and those that failed.
unfoldable pub tally : List String → ℕ × ℕ
tally [] = (0, 0)
tally (st ∷ sts) =
    let rest = tally sts in
    if is_active st
    then (suc rest.0, rest.1)
    else if is_failing st
    then (rest.0, suc rest.1)
    else rest

abbrev never : Option String → String → Bool
never none status = true
never (some sync) status = status == "Initializing"

unfoldable pub health_of : {A : Type 0} → ℕ → Board A → Health
health_of failures s =
    if never s.last_sync s.status
    then never_synced
    else if not s.docker_connected
    then degraded
    else if s.safety_guard_tripped
        || ltb 0 failures
        || has_text s.status "Error"
        || has_text s.status "Degraded"
    then degraded
    else if is_active s.status || s.status == "Waiting for changes..."
    then healthy
    else unknown

abbrev duration_of : List HistoryEntry → ℕ
duration_of [] = 0
duration_of (e ∷ es) = e.duration_ms

abbrev or_dash : String → String
or_dash service = if service == "" then "-" else service

-- `redact` is `redact_sensitive_string`, and `reason_text` gives the text of a reason.
module _ (redact : String → String) (reason_text : Note → String) where
  unfoldable pub log_entry : Stamp → String → String
  log_entry at msg = "[" <> at.time <> "] " <> redact msg

  unfoldable pub event_entry : Stamp → String → String → String → String → Event
  event_entry at severity event_type service message = record {
    id = at.event_id;
    timestamp = at.now;
    iso_time = at.iso_time;
    severity = lower severity;
    event_type = event_type;
    service = or_dash service;
    message = redact message;
  }

  -- The event and the log line of an operation.
  pub record Message : Type 0 where
    pub severity : String
    pub event_type : String
    pub service : String
    pub message : String
    pub line : String

  unfoldable pub message_of : OperationResult → Resource → Status → Message
  message_of op ingress failed =
      let message = "Failed to update Cloudflare Ingress rules: " <> reason_text op.reason in
      record {
        severity = "error";
        event_type = "INGRESS_ERROR";
        service = "ingress";
        message = message;
        line = "❌ " <> message;
      }
  message_of op ingress _ = record {
    severity = "info";
    event_type = "INGRESS_UPDATE";
    service = "ingress";
    message = "Updated Cloudflare Tunnel Ingress rules";
    line = "✅ Updated Cloudflare Tunnel Ingress rules";
  }
  message_of op dns_resource failed =
      let message = "DNS mutation failed for " <> op.target <> ": " <> reason_text op.reason in
      record {
        severity = "error";
        event_type = "DNS_ERROR";
        service = op.target;
        message = message;
        line = "❌ " <> message;
      }
  message_of op dns_resource _ =
      let message = "DNS " <> op.action <> " for " <> op.target in
      record {
        severity = "info";
        event_type = "DNS_" <> upper op.action;
        service = op.target;
        message = message;
        line =
            if op.action == "delete"
            then "Deleted obsolete DNS record for " <> op.target <> " after grace period expired"
            else message;
      }

  unfoldable pub metric_of : OperationResult → Resource → Status → Metric
  metric_of op ingress failed = ingress_op "failed"
  metric_of op ingress _ = ingress_op op.action
  metric_of op dns_resource failed = dns_op "failed"
  metric_of op dns_resource _ = dns_op op.action

  pub data Call (A : Type 0) : Type 0 where
    log : Stamp → String → Call A
    event : Stamp → String → String → String → String → Call A
    history : HistoryEntry → Call A
    overview : Option A → Call A
    operation : Stamp → Stamp → OperationResult → Call A

  module _ {A : Type 0} where
    unfoldable pub add_log : Stamp → String → Board A → Board A
    add_log at msg s = record s { logs = push 100 (log_entry at msg) s.logs }

    unfoldable pub record_event : Stamp → String → String → String → String → Board A → Board A
    record_event at severity event_type service message s = record s {
      events = push 100 (event_entry at severity event_type service message) s.events;
    }

    unfoldable pub record_sync_history : HistoryEntry → Board A → Board A
    record_sync_history entry s = record s { sync_history = push 20 entry s.sync_history }

    -- `update_overview_metrics`; `answer` is what `dispatcher.get_status` gives, none if it raises.
    unfoldable pub update_overview_metrics : Option A → Board A → Board A
    update_overview_metrics answer s =
        let counts = tally s.services in
        record s {
          alert_status = elim answer [ none ↦ s.alert_status | some a ↦ some a ];
          overview_metrics = some (record {
            active_services = counts.0;
            discovered_services = s.discovered_count;
            failed_services = counts.1;
            last_sync_duration_ms = duration_of s.sync_history;
            safety_tripped = s.safety_guard_tripped;
            api_connected = s.docker_connected;
            health_state = health_of counts.1 s;
          });
          metrics = s.metrics ++ docker_gauge s.docker_connected ∷ [];
        }

    abbrev pub measure : Metric → Board A → Board A
    measure m s = record s { metrics = s.metrics ++ m ∷ [] }

    -- `record_operation`, with the clock at its event and at its line.
    unfoldable pub record_operation : Stamp → Stamp → OperationResult → Board A → Board A
    record_operation at_event at_line op s =
        let m = message_of op op.resource op.status in
        add_log at_line m.line (
          record_event at_event m.severity m.event_type m.service m.message
            (measure (metric_of op op.resource op.status) s))

    unfoldable pub call : Call A → Board A → Board A
    call (log at msg) s = add_log at msg s
    call (event at severity event_type service message) s =
        record_event at severity event_type service message s
    call (history entry) s = record_sync_history entry s
    call (overview answer) s = update_overview_metrics answer s
    call (operation at_event at_line op) s = record_operation at_event at_line op s

    unfoldable pub calls : List (Call A) → Board A → Board A
    calls [] s = s
    calls (c ∷ cs) s = calls cs (call c s)
