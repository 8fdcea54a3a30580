-- ===== src/Domain/Diagnostics.antt =====
-- tunnel_sync/domain/diagnostics.py: `evaluate_service_stages` and `compute_truthful_service_status`,
-- and `StatusPublisher.publish` of tunnel_sync/application/sync.py.
pub mod Truthful
pub mod Stages
use cf_docker_tunnel_sync.Base.{
  String, ◌<>◌, Bool, true, false, ◌&&◌, ◌||◌, Option, none, some, List, [], ◌∷◌, map, ◌==◌,
  if◌then◌else◌,
}
use cf_docker_tunnel_sync.Base.Lists.{contains}
use cf_docker_tunnel_sync.Base.Dict.{Dict, lookup, insert}
use cf_docker_tunnel_sync.Base.Text.{lower}
use cf_docker_tunnel_sync.Domain.Models.{or_default, is_text}

pub record Stage : Type 0 where
  pub status : String
  pub message : String

abbrev pub stage : String → String → Stage
stage status message = record { status = status; message = message }

-- A text that is missing or empty is falsy.
abbrev pub text_or : Option String → String → String
text_or none d = d
text_or (some s) d = if s == "" then d else s

pub record ServiceFacts : Type 0 where
  pub hostname : Option String
  pub raw_hostname : Option String
  pub is_hostname_valid : Bool
  pub domain_matches : Bool
  pub configured_domain : String
  pub network_connected : Bool
  pub network_warning : Option String
  pub container_state : String
  pub ingress_status : Option String
  pub ingress_message : Option String
  pub dns_status : Option String
  pub dns_message : Option String

-- How an f-string shows an optional text.
abbrev pub shown : Option String → String
shown none = "None"
shown (some s) = s

abbrev pub is_truthy : Option String → Bool
is_truthy none = false
is_truthy (some s) = if s == "" then false else true

unfoldable pub label_stage : ServiceFacts → Stage
label_stage f =
    if f.is_hostname_valid && is_truthy f.hostname
    then stage "PASS" ("Hostname '" <> shown f.hostname <> "' and label syntax valid")
    else stage "FAILED" (
        "Invalid label syntax or hostname '"
        <> text_or f.raw_hostname ""
        <> "' (RFC 1123 required)")

unfoldable pub domain_stage : ServiceFacts → Stage
domain_stage f =
    if f.domain_matches
    then stage "PASS" ("Hostname matches domain '" <> f.configured_domain <> "'")
    else stage "FAILED" (
        "Hostname '"
        <> shown f.hostname
        <> "' does not match configured DOMAIN_NAME '"
        <> f.configured_domain
        <> "'")

unfoldable pub network_stage : ServiceFacts → Stage
network_stage f =
    if f.network_connected
    then stage "PASS" "Shared Docker network verified with cloudflared"
    else stage "WARNING" (
        text_or f.network_warning (
          "Missing shared network with cloudflared (potential 502 Bad Gateway). "
          <> "Remediation: attach service to external network:\nnetworks:\n  - cf-tunnel-net"))

-- Stages 4 and 5.
unfoldable pub remote_stage : Option String → Option String → String → String → Stage
remote_stage none message updated pending = stage "PENDING" pending
remote_stage (some s) message updated pending =
    if s == "" then stage "PENDING" pending else stage s (text_or message updated)

unfoldable pub health_stage : ServiceFacts → Stage
health_stage f =
    let state = lower f.container_state in
    if contains ("running" ∷ "healthy" ∷ []) state
    then stage "PASS" ("Container origin is " <> f.container_state)
    else if contains ("restarting" ∷ "created" ∷ []) state
    then stage "WARNING" ("Container origin in transitional state: " <> f.container_state)
    else stage "FAILED" ("Container origin is not running (" <> f.container_state <> ")")

unfoldable pub evaluate_service_stages : ServiceFacts → Dict Stage
evaluate_service_stages f =
    ("LABEL_SYNTAX", label_stage f)
    ∷ ("TUNNEL_DOMAIN_MATCH", domain_stage f)
    ∷ ("NETWORK_TOPOLOGY", network_stage f)
    ∷ (
      "CLOUDFLARE_INGRESS",
      remote_stage f.ingress_status f.ingress_message "Ingress rule status updated"
          "Pending ingress synchronization",
    )
    ∷ (
      "CLOUDFLARE_DNS",
      remote_stage f.dns_status f.dns_message "DNS record status updated"
          "Pending DNS synchronization",
    )
    ∷ ("ORIGIN_HEALTH", health_stage f)
    ∷ []

abbrev pub status_of_stage : Option Stage → Option String
status_of_stage none = none
status_of_stage (some s) = some s.status

-- `stages.get(name, {}).get("status")`
unfoldable pub status_at : String → Dict Stage → Option String
status_at name stages = status_of_stage (lookup name stages)

-- The statuses that `compute_truthful_service_status` returns.
pub data ServiceStatus : Type 0 where
  synced degraded failed pending : ServiceStatus

-- The tests of `compute_truthful_service_status` on the statuses of the stages 1 to 5.
unfoldable pub truthful :
    Option String → Option String → Option String → Option String → Option String → ServiceStatus
truthful s1 s2 s3 s4 s5 =
    if is_text s1 "FAILED" || is_text s2 "FAILED" || is_text s3 "FAILED"
    then failed
    else if is_text s4 "FAILED" || is_text s5 "FAILED"
    then degraded
    else if is_text s4 "PENDING" || is_text s5 "PENDING"
    then pending
    else if is_text s3 "WARNING"
    then degraded
    else if is_text s1 "PASS"
        && is_text s2 "PASS"
        && is_text s3 "PASS"
        && is_text s4 "PASS"
        && is_text s5 "PASS"
    then synced
    else degraded

unfoldable pub compute_truthful_service_status : Dict Stage → ServiceStatus
compute_truthful_service_status stages =
    truthful (status_at "LABEL_SYNTAX" stages) (status_at "TUNNEL_DOMAIN_MATCH" stages)
      (status_at "NETWORK_TOPOLOGY" stages) (status_at "CLOUDFLARE_INGRESS" stages)
      (status_at "CLOUDFLARE_DNS" stages)

-- A discovered service in the state: what `publish` reads and writes. Absent stages are an empty
-- dict.
pub record Service : Type 0 where
  pub hostname : Option String
  pub service : Option String
  pub stages : Dict Stage
  pub status : Option ServiceStatus

unfoldable pub ingress_result : Service → Bool → Stage
ingress_result s ingress_failed =
    if ingress_failed
    then stage "FAILED" "Cloudflare Tunnel ingress configuration update failed"
    else stage "PASS" ("Ingress rule active: " <> shown s.hostname <> " -> " <> shown s.service)

unfoldable pub dns_result : String → Bool → Stage
dns_result target_cname dns_failed =
    if dns_failed
    then stage "FAILED" "Cloudflare DNS synchronization failed"
    else stage "PASS" ("DNS CNAME active pointing to " <> target_cname)

unfoldable pub publish_service : String → Bool → Bool → Service → Service
publish_service target_cname ingress_failed dns_failed s =
    let stages =
      insert "CLOUDFLARE_DNS" (dns_result target_cname dns_failed)
        (insert "CLOUDFLARE_INGRESS" (ingress_result s ingress_failed) s.stages) in
    record s { stages = stages; status = some (compute_truthful_service_status stages) }

-- `publish`: the services that become `state["services"]` and `state["discovered_services"]`.
unfoldable pub publish : List Service → String → Bool → Bool → List Service
publish services target_cname ingress_failed dns_failed =
    map (publish_service target_cname ingress_failed dns_failed) services
