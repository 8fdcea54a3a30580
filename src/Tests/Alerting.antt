-- ===== src/Tests/Alerting.antt =====
-- Alerts to an endpoint that answers 204 and keeps what it was sent.
use cf_docker_tunnel_sync.Base.{
  true, false, ◌≡◌, refl, some, none, List, [], ◌∷◌, string_dec, arith,
}
use cf_docker_tunnel_sync.Base.Dict.{lookup}
use cf_docker_tunnel_sync.Base.Json.{Json}
use cf_docker_tunnel_sync.Base.Text.{strip, lower, ends_with, has_text}
use cf_docker_tunnel_sync.Adapters.Notifications.{
  response, Delivery, Dispatcher, Dispatch, throttled, delivered, is_enabled, event_hash,
  within_cooldown, should_throttle, refusal, settle, Webhook, send, send_unless, dispatch_sync,
  dispatch_each,
}
use cf_docker_tunnel_sync.Adapters.Notifications.Payloads.{
  Tools, Alert, detected, detect_webhook_type,
}
use cf_docker_tunnel_sync.Adapters.Notifications.Throttling.{dispatch_each-throttled}

abbrev tools : Tools
tools = record {
  urlsplit = λ url. some (record { hostname = some "Hooks.Slack.com"; path = "/services" });
  sha256 = λ text. text;
  str = λ value. "value";
  redact_string = λ text. text;
  redact_data = λ details. details;
}

abbrev webhook : Webhook
webhook = record { World = List Json; post = λ url payload sent. (payload ∷ sent, response 204 "") }

abbrev dispatcher : Dispatcher
dispatcher = record {
  webhook_url = "https://hooks.slack.com/services";
  explicit_type = "auto";
  cooldown_seconds = 300;
  sent_cache = [];
  last_delivery_success = none;
  last_delivery_time = none;
  last_delivery_status = none;
  consecutive_failures = 2;
  metrics = Delivery.failure ∷ Delivery.failure ∷ [];
}

abbrev alert : Alert
alert = record {
  event_type = "SYNC_FAILURE";
  title = "Synchronization Failure";
  message = "timeout";
  level = "error";
  details = ("error", Json.text "timeout") ∷ [];
}

abbrev first : Dispatch
first = record {
  alert = alert;
  force = false;
  asked = 1000;
  marked = 1001;
  noted = 1001;
  iso_time = "2026-01-01T00:00:00+00:00";
}

abbrev forced : Dispatch
forced = record first { force = true; asked = 1100; marked = 1101; noted = 1101 }

abbrev again : Dispatch
again = record first { asked = 1300; marked = 1300; noted = 1300 }

slack : detect_webhook_type tools "https://hooks.slack.com/services" "auto" ≡ "slack"
unfolding detect_webhook_type detected strip lower ends_with has_text string_dec
slack = refl

sent : (dispatch_sync tools webhook first dispatcher []).1 ≡ (true, delivered)
unfolding dispatch_sync send_unless refusal should_throttle event_hash within_cooldown is_enabled
    lookup send settle string_dec
sent = refl

dispatch_each-throttled_example :
    let later =
      dispatch_each tools webhook
        (forced ∷ [])
        (dispatch_sync tools webhook first dispatcher []).0 in
    dispatch_sync tools webhook again later.0 later.1 ≡ (later, (false, throttled))
dispatch_each-throttled_example =
    dispatch_each-throttled tools webhook first again (forced ∷ []) dispatcher [] sent
      (omega arith, tt) refl refl refl (omega arith)
