-- ===== src/Tests/Reporting.antt =====
-- A board that is empty at first, and calls of the reporter.
use cf_docker_tunnel_sync.Base.{
  ℕ, String, true, false, ◌≡◌, refl, none, some, List, [], ◌∷◌, string_dec,
}
use cf_docker_tunnel_sync.Base.Text.{has_text}
use cf_docker_tunnel_sync.Application.Executor.{Resource, Status, Note, no_note, OperationResult}
use cf_docker_tunnel_sync.Application.Reporter.{
  Board, Stamp, Call, log, overview, operation, calls, call, add_log, log_entry, record_operation,
  record_event, message_of, update_overview_metrics, tally,
}
use cf_docker_tunnel_sync.Application.Reporter.Ring.{push, newest}
use cf_docker_tunnel_sync.Application.Reporter.Journal.{
  Shows, lines_of, events_of, entries_of, all_of, calls-Shows,
}

abbrev empty : Board ℕ
empty = record {
  logs = [];
  events = [];
  sync_history = [];
  overview_metrics = none;
  alert_status = none;
  metrics = [];
  status = "Active / Synced";
  last_sync = some "2026-01-01 00:00:00";
  docker_connected = true;
  safety_guard_tripped = false;
  services = "Synced" ∷ "Degraded" ∷ [];
  discovered_count = 2;
}

abbrev redact : String → String
redact text = text

abbrev reason_text : Note → String
reason_text note = "timeout"

abbrev stamp : Stamp
stamp = record {
  time = "00:00:01";
  now = 1;
  iso_time = "1970-01-01T00:00:01+00:00";
  event_id = "e1";
}

abbrev deleted : OperationResult
deleted = record {
  resource = Resource.dns_resource;
  action = "delete";
  target = "old.example.com";
  status = Status.succeeded;
  reason = no_note;
}

abbrev few : List (Call redact reason_text ℕ)
few = log stamp "started" ∷ operation stamp stamp deleted ∷ overview (some 7) ∷ []

two_lines :
    (calls redact reason_text few empty).logs
    ≡ "[00:00:01] Deleted obsolete DNS record for old.example.com after grace period expired"
      ∷ "[00:00:01] started" ∷ []
unfolding calls call add_log log_entry record_operation record_event message_of
    update_overview_metrics push string_dec
two_lines = refl

counted : tally ("Synced" ∷ "Degraded" ∷ "Pending" ∷ []) ≡ (1, 1)
unfolding tally has_text string_dec
counted = refl

calls-Shows_example :
    Shows
      (newest (all_of redact reason_text (lines_of redact reason_text) few) [])
      (newest (all_of redact reason_text (events_of redact reason_text) few) [])
      (newest (all_of redact reason_text (entries_of redact reason_text) few) [])
      (calls redact reason_text few empty)
calls-Shows_example =
    calls-Shows redact reason_text few [] [] [] empty
      (record { logs_shown = refl; events_shown = refl; history_shown = refl })
