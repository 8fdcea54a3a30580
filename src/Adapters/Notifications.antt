-- ===== src/Adapters/Notifications.antt =====
-- tunnel_sync/adapters/notifications.py: `NotificationDispatcher`. The webhook endpoint is a state of an
-- unknown type that `post` changes. Times are whole seconds; the readings of the clock belong to a call.
pub mod Payloads
pub mod Throttling
use cf_docker_tunnel_sync.Base.{
  ℕ, ◌+◌, String, ◌<>◌, Bool, true, false, not, ◌&&◌, Option, none, some, List, [], ◌∷◌, ◌==◌, ltb,
  leb, starts_with, if◌then◌else◌,
}
use cf_docker_tunnel_sync.Base.Lists.{any}
use cf_docker_tunnel_sync.Base.Dict.{Dict, lookup, insert, values}
use cf_docker_tunnel_sync.Base.Text.{prefix}
use cf_docker_tunnel_sync.Base.Json.{Json}
use cf_docker_tunnel_sync.Adapters.Notifications.Payloads.{
  Tools, Alert, detect_webhook_type, format_payload,
}

-- What the POST does: it answers with a status and a text, or raises.
pub data Reply : Type 0 where
  response : ℕ → String → Reply
  raised : String → Reply

-- The texts that are returned and remembered, with the values formatted into them.
pub data DeliveryStatus : Type 0 where
  disabled throttled delivered : DeliveryStatus
  rejected : ℕ → String → DeliveryStatus
  dispatch_error : String → DeliveryStatus

pub data Delivery : Type 0 where
  success failure : Delivery

-- The fields of the object, with the deliveries that its metrics have recorded, newest first.
pub record Dispatcher : Type 0 where
  pub webhook_url : String
  pub explicit_type : String
  pub cooldown_seconds : ℕ
  pub sent_cache : Dict ℕ
  pub last_delivery_success : Option Bool
  pub last_delivery_time : Option ℕ
  pub last_delivery_status : Option DeliveryStatus
  pub consecutive_failures : ℕ
  pub metrics : List Delivery

-- A call, with the clock at the test of the cooldown, at the mark and at the note of the delivery, and
-- with the time in the payload.
pub record Dispatch : Type 0 where
  pub alert : Alert
  pub force : Bool
  pub asked : ℕ
  pub marked : ℕ
  pub noted : ℕ
  pub iso_time : String

unfoldable pub is_enabled : Dispatcher → Bool
is_enabled s = not (s.webhook_url == "") && starts_with s.webhook_url "http"

unfoldable pub event_hash : Tools → Alert → String
event_hash tools a = tools.sha256 (a.event_type <> ":" <> a.title)

-- `now - last_sent < self.cooldown_seconds`
unfoldable pub within_cooldown : Dispatcher → ℕ → ℕ → Bool
within_cooldown s now last_sent = ltb now (last_sent + s.cooldown_seconds)

abbrev pub sent_recently : Option ℕ → ℕ → Dispatcher → Bool
sent_recently none now s = false
sent_recently (some last_sent) now s = within_cooldown s now last_sent

unfoldable pub should_throttle : Tools → Alert → ℕ → Dispatcher → Bool
should_throttle tools a now s = sent_recently (lookup (event_hash tools a) s.sent_cache) now s

unfoldable pub mark_sent : Tools → Alert → ℕ → Dispatcher → Dispatcher
mark_sent tools a now s = record s { sent_cache = insert (event_hash tools a) now s.sent_cache }

-- `get_status`
pub record Status : Type 0 where
  pub configured : Bool
  pub provider : String
  pub success : Option Bool
  pub time : Option ℕ
  pub status : Option DeliveryStatus
  pub failures : ℕ
  pub cooldown_active : Bool
  pub cooldown : ℕ

unfoldable pub get_status : Tools → ℕ → Dispatcher → Status
get_status tools now s = record {
  configured = is_enabled s;
  provider =
      if is_enabled s then detect_webhook_type tools s.webhook_url s.explicit_type else "none";
  success = s.last_delivery_success;
  time = s.last_delivery_time;
  status = s.last_delivery_status;
  failures = s.consecutive_failures;
  cooldown_active = any (within_cooldown s now) (values s.sent_cache);
  cooldown = s.cooldown_seconds;
}

-- The result without a delivery: there is no endpoint, or an identical alert was sent recently.
unfoldable pub refusal : Tools → Dispatch → Dispatcher → Option DeliveryStatus
refusal tools d s =
    if not (is_enabled s)
    then some disabled
    else if not d.force && should_throttle tools d.alert d.asked s
    then some throttled
    else none

unfoldable pub fail_delivery : DeliveryStatus → ℕ → Dispatcher → Dispatcher
fail_delivery why noted s = record s {
  last_delivery_success = some false;
  last_delivery_time = some noted;
  last_delivery_status = some why;
  consecutive_failures = s.consecutive_failures + 1;
  metrics = failure ∷ s.metrics;
}

unfoldable pub finish_delivery : ℕ → Dispatcher → Dispatcher
finish_delivery noted s = record s {
  last_delivery_success = some true;
  last_delivery_time = some noted;
  last_delivery_status = some delivered;
  consecutive_failures = 0;
  metrics = success ∷ s.metrics;
}

-- What happens after the POST.
unfoldable pub settle : Tools → Dispatch → Dispatcher → Reply → Dispatcher × (Bool × DeliveryStatus)
settle tools d s (response code text) =
    let why = rejected code (prefix 200 text) in
    if leb 400 code
    then (fail_delivery why d.noted s, (false, why))
    else (finish_delivery d.noted (mark_sent tools d.alert d.marked s), (true, delivered))
settle tools d s (raised e) =
    (fail_delivery (dispatch_error e) d.noted s, (false, dispatch_error e))

unfoldable pub payload_of : Tools → Dispatch → Dispatcher → Json
payload_of tools d s =
    format_payload tools (detect_webhook_type tools s.webhook_url s.explicit_type) d.iso_time
      d.alert

-- The HTTP client: the endpoint's state, and what a POST to a URL does to it.
pub record Webhook : Type 1 where
  pub World : Type 0
  pub post : String → Json → World → World × Reply

module _ (tools : Tools) (webhook : Webhook) where
  abbrev pub Outcome : Type 0
  Outcome = (Dispatcher × webhook.World) × (Bool × DeliveryStatus)

  unfoldable pub send : Dispatch → Dispatcher → webhook.World → Outcome
  send d s w =
      let (w', reply) = webhook.post s.webhook_url (payload_of tools d s) w in
      let (s', result) = settle tools d s reply in ((s', w'), result)

  unfoldable pub send_unless :
      Option DeliveryStatus → Dispatch → Dispatcher → webhook.World → Outcome
  send_unless none d s w = send d s w
  send_unless (some why) d s w = ((s, w), (false, why))

  -- `dispatch_sync`
  unfoldable pub dispatch_sync : Dispatch → Dispatcher → webhook.World → Outcome
  dispatch_sync d s w = send_unless (refusal tools d s) d s w

  -- Calls one after the other.
  unfoldable pub dispatch_each :
      List Dispatch → Dispatcher × webhook.World → Dispatcher × webhook.World
  dispatch_each [] sw = sw
  dispatch_each (d ∷ ds) sw = dispatch_each ds (dispatch_sync d sw.0 sw.1).0
