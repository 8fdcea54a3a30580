-- ===== src/Adapters/Notifications/Throttling.antt =====
-- tunnel_sync/adapters/notifications.py: identical alerts within the cooldown.
use cf_docker_tunnel_sync.Base.{
  ℕ, ◌+◌, ◌≤◌, ◌<◌, String, true, false, Option, none, some, List, [], ◌∷◌, ◌≡◌, refl, inl, inr,
  arith, leb, Bool-cases, test_same, ◌==◌,
}
use cf_docker_tunnel_sync.Base.Lists.{All}
use cf_docker_tunnel_sync.Base.Dict.{lookup, insert, lookup-insert}
use cf_docker_tunnel_sync.Adapters.Notifications.{
  Reply, response, raised, DeliveryStatus, throttled, delivered, Dispatcher, Dispatch, is_enabled,
  event_hash, within_cooldown, should_throttle, sent_recently, send_unless, mark_sent, refusal,
  fail_delivery, finish_delivery, settle, Webhook, send, dispatch_sync, dispatch_each,
}
use cf_docker_tunnel_sync.Adapters.Notifications.Payloads.{Tools}

abbrev SentSince : ℕ → Option ℕ → Type 0
SentSince t none = ⊥
SentSince t (some m) = t ≤ m

module _ (tools : Tools) where
  -- An endpoint is there, and an alert with the hash was sent at `t` or later.
  record Marked (hash : String) (t cooldown : ℕ) (s : Dispatcher) : Type 0 where
    enabled : is_enabled s ≡ true
    cooldown_same : s.cooldown_seconds ≡ cooldown
    since : SentSince t (lookup hash s.sent_cache)

  insert-SentSince :
      (t now : ℕ) (h k : String) (s : Dispatcher)
      → t ≤ now
      → SentSince t (lookup h s.sent_cache)
      → SentSince t (lookup h (insert k now s.sent_cache))
  insert-SentSince t now h k s le m = elim (Bool-cases (h == k)) [
    | inl e ↦ rw (lookup-insert h k now s.sent_cache, e) le
    | inr e ↦ rw (lookup-insert h k now s.sent_cache, e) m
  ]

  fail_delivery-Marked :
      (hash : String) (t c noted : ℕ) (why : DeliveryStatus) (s : Dispatcher)
      → Marked hash t c s
      → Marked hash t c (fail_delivery why noted s)
  unfolding fail_delivery is_enabled
  fail_delivery-Marked hash t c noted why s m = record {
    enabled = m.enabled;
    cooldown_same = m.cooldown_same;
    since = m.since;
  }

  finish_delivery-Marked :
      (hash : String) (t c : ℕ) (d : Dispatch) (s : Dispatcher)
      → t ≤ d.marked
      → Marked hash t c s
      → Marked hash t c (finish_delivery d.noted (mark_sent tools d.alert d.marked s))
  unfolding finish_delivery mark_sent is_enabled
  finish_delivery-Marked hash t c d s le m = record {
    enabled = m.enabled;
    cooldown_same = m.cooldown_same;
    since = insert-SentSince t d.marked hash (event_hash tools d.alert) s le m.since;
  }

  settle-Marked :
      (hash : String) (t c : ℕ) (d : Dispatch) (s : Dispatcher) (reply : Reply)
      → t ≤ d.marked
      → Marked hash t c s
      → Marked hash t c (settle tools d s reply).0
  unfolding settle
  settle-Marked hash t c d s (raised e) le m = fail_delivery-Marked hash t c d.noted _ s m
  settle-Marked hash t c d s (response code text) le m = elim (Bool-cases (leb 400 code)) [
    | inl e ↦ rw e (fail_delivery-Marked hash t c d.noted _ s m)
    | inr e ↦ rw e (finish_delivery-Marked hash t c d s le m)
  ]

  -- A delivery that succeeds leaves its mark.
  finish_delivery-marks :
      (d : Dispatch) (s : Dispatcher)
      → is_enabled s ≡ true
      → Marked
          (event_hash tools d.alert)
          d.marked
          s.cooldown_seconds
          (finish_delivery d.noted (mark_sent tools d.alert d.marked s))
  unfolding finish_delivery mark_sent is_enabled
  finish_delivery-marks d s h = record {
    enabled = h;
    cooldown_same = refl;
    since =
        let key = event_hash tools d.alert in
        rw (lookup-insert key key d.marked s.sent_cache, test_same key) (omega arith);
  }

  settle-marks :
      (d : Dispatch) (s : Dispatcher) (reply : Reply)
      → is_enabled s ≡ true
      → (settle tools d s reply).1 ≡ (true, delivered)
      → Marked (event_hash tools d.alert) d.marked s.cooldown_seconds (settle tools d s reply).0
  unfolding settle
  settle-marks d s (raised e) h r = absurd (cc r)
  settle-marks d s (response code text) h r = elim (Bool-cases (leb 400 code)) [
    | inl e ↦ absurd (cc (simp e at r))
    | inr e ↦ rw e (finish_delivery-marks d s h)
  ]

  SentSince-recent :
      (s : Dispatcher) (t now : ℕ) (o : Option ℕ)
      → SentSince t o
      → now < t + s.cooldown_seconds
      → sent_recently o now s ≡ true
  unfolding within_cooldown
  SentSince-recent s t now none m h = absurd m
  SentSince-recent s t now (some sent) m h = ground arith

  Marked-throttles :
      (d : Dispatch) (hash : String) (t c : ℕ) (s : Dispatcher)
      → Marked hash t c s
      → event_hash tools d.alert ≡ hash
      → d.force ≡ false
      → d.asked < t + c
      → refusal tools d s ≡ some throttled
  unfolding refusal should_throttle
  Marked-throttles d hash t c s m same unforced soon =
      let recent =
        SentSince-recent s t d.asked (lookup hash s.sent_cache) m.since (rw m.cooldown_same soon) in
      rw (m.enabled, unforced, same, recent) refl

  -- What is not refused goes to an endpoint.
  enabled_of_refusal :
      (d : Dispatch) (s : Dispatcher) → refusal tools d s ≡ none → is_enabled s ≡ true
  unfolding refusal
  enabled_of_refusal d s h = elim (Bool-cases (is_enabled s)) [
    | inl e ↦ e
    | inr e ↦ absurd (cc (simp e at h))
  ]

  module _ (webhook : Webhook) where
    send_unless-Marked :
        (hash : String) (t c : ℕ) (o : Option DeliveryStatus) (d : Dispatch) (s : Dispatcher)
        (w : webhook.World)
        → t ≤ d.marked
        → Marked hash t c s
        → Marked hash t c (send_unless tools webhook o d s w).0.0
    unfolding send_unless send
    send_unless-Marked hash t c none d s w le m = settle-Marked hash t c d s _ le m
    send_unless-Marked hash t c (some why) d s w le m = m

    dispatch_each-Marked :
        (hash : String) (t c : ℕ) (ds : List Dispatch) (sw : Dispatcher × webhook.World)
        → All (λ d. t ≤ d.marked) ds
        → Marked hash t c sw.0
        → Marked hash t c (dispatch_each tools webhook ds sw).0
    unfolding dispatch_each dispatch_sync
    dispatch_each-Marked hash t c [] sw a m = m
    dispatch_each-Marked hash t c (d ∷ ds) sw a m =
        dispatch_each-Marked hash t c ds _ a.1
          (send_unless-Marked hash t c (refusal tools d sw.0) d sw.0 sw.1 a.0 m)

    send_unless-marks :
        (o : Option DeliveryStatus) (d : Dispatch) (s : Dispatcher) (w : webhook.World)
        → refusal tools d s ≡ o
        → (send_unless tools webhook o d s w).1 ≡ (true, delivered)
        → Marked
            (event_hash tools d.alert)
            d.marked
            s.cooldown_seconds
            (send_unless tools webhook o d s w).0.0
    unfolding send_unless send
    send_unless-marks none d s w h r = settle-marks d s _ (enabled_of_refusal d s h) r
    send_unless-marks (some why) d s w h r = absurd (cc r)

    -- After a successful delivery, and after any further calls that mark no earlier, an unforced call
    -- for the same event type and title, within the cooldown of that delivery, is throttled: it changes
    -- neither the dispatcher nor the endpoint.
    pub dispatch_each-throttled :
        (d again : Dispatch) (ds : List Dispatch) (s : Dispatcher) (w : webhook.World)
        → (dispatch_sync tools webhook d s w).1 ≡ (true, delivered)
        → All (λ e. d.marked ≤ e.marked) ds
        → again.force ≡ false
        → again.alert.event_type ≡ d.alert.event_type
        → again.alert.title ≡ d.alert.title
        → again.asked < d.marked + s.cooldown_seconds
        → let later = dispatch_each tools webhook ds (dispatch_sync tools webhook d s w).0 in
          dispatch_sync tools webhook again later.0 later.1 ≡ (later, (false, throttled))
    unfolding dispatch_sync send_unless event_hash
    dispatch_each-throttled d again ds s w sent later unforced type_same title_same soon =
        let hash = event_hash tools d.alert in
        let first = (dispatch_sync tools webhook d s w).0 in
        let m =
          dispatch_each-Marked hash d.marked s.cooldown_seconds ds first later
            (send_unless-marks (refusal tools d s) d s w refl sent) in
        rw
          (Marked-throttles again hash d.marked s.cooldown_seconds
            (dispatch_each tools webhook ds first).0 m (rw (type_same, title_same) refl) unforced
            soon)
          refl
