-- ===== src/Application/Discovery/Selection.antt =====
-- tunnel_sync/application/discovery.py: which containers become services.
use cf_docker_tunnel_sync.Base.{
  String, Bool, true, false, not, ◌&&◌, ◌||◌, List, [], ◌∷◌, ◌≡◌, refl, sym, ◌∙◌, inl, inr, ◌==◌,
  Bool-cases, test_same, arith,
}
use cf_docker_tunnel_sync.Base.Lists.{contains, any, is_empty, All, All-map, Once}
use cf_docker_tunnel_sync.Domain.Hostnames.Validity.{IsHostname}
use cf_docker_tunnel_sync.Application.Discovery.{
  Settings, Tools, ServiceItem, enforce_strict_network, cloudflared_networks,
}
use cf_docker_tunnel_sync.Application.Discovery.Connectors.{
  Container, Listing, listed, not_a_list, unavailable, failing, containers_of, items_of,
}
use cf_docker_tunnel_sync.Application.Discovery.Loop.{
  Walked, walked, raised, nothing_found, result_of, discover, Request, collect, usable,
}
use cf_docker_tunnel_sync.Application.Discovery.Seen.{hosts, serves, Sound}
use cf_docker_tunnel_sync.Application.Discovery.Walking.{AtEnd, walk-Sound}

-- The services of a result: no hostname twice, each a hostname in the sense of `IsHostname`, where a
-- newline may end each part, and the normalized hostname of a running container of the domain and the
-- tunnel.
pub record Selected (settings : Settings) (cs : List Container) (services : List ServiceItem)
    : Type 0 where
  pub once : Once (hosts services)
  pub valid : All (λ s. IsHostname s.hostname) services
  pub served : All (λ s. any (serves settings s.hostname) cs ≡ true) services

or_true : (a : Bool) → (a || true) ≡ true
or_true a = ground arith

All-hosts :
    (services : List ServiceItem) → All (λ s. contains (hosts services) s.hostname ≡ true) services
All-hosts [] = tt
All-hosts (s ∷ services) = (
  rw (test_same s.hostname) refl,
  All-map (λ t h. rw h (or_true (t.hostname == s.hostname))) services (All-hosts services),
)

none-Selected : (settings : Settings) (cs : List Container) → Selected settings cs []
none-Selected settings cs = record { once = tt; valid = tt; served = tt }

Sound-Selected :
    (settings : Settings) (cs : List Container) (services : List ServiceItem) (seen : List String)
    → Sound settings cs services seen
    → Selected settings cs services
Sound-Selected settings cs services seen s = record {
  once = s.once;
  valid = s.valid;
  served =
      All-map (λ t h. sym (s.served t.hostname) ∙ s.within t.hostname h) services
        (All-hosts services);
}

module _ (tools : Tools) (settings : Settings) where
  result_of-Selected :
      (networks : List String) (cs : List Container) (w : Walked)
      → AtEnd settings cs w
      → Selected settings cs (result_of w).services
  unfolding result_of nothing_found
  result_of-Selected networks cs (walked p) s = Sound-Selected settings cs p.services p.seen s
  result_of-Selected networks cs (raised failure p) s = none-Selected settings cs

  start-Sound : Sound settings [] [] []
  start-Sound = record {
    once = tt;
    valid = tt;
    within = λ h e. e;
    served = λ h. refl;
    complete = λ h. refl;
  }

  discover-Selected :
      (warned : List (String × String)) (connected : Bool) (answer : Listing)
      → Selected settings
          (containers_of (items_of answer))
          (discover tools settings warned connected answer).services
  unfolding discover nothing_found
  discover-Selected warned connected (unavailable e) = none-Selected settings []
  discover-Selected warned connected (failing e) = none-Selected settings []
  discover-Selected warned connected not_a_list = none-Selected settings []
  discover-Selected warned connected (listed items) =
      let networks = cloudflared_networks settings items in
      elim (Bool-cases (is_empty items && not connected)) [
        | inl e ↦ rw e (none-Selected settings (containers_of items))
        | inr e ↦ rw e (
            result_of-Selected networks (containers_of items) _
              (walk-Sound tools settings networks items [] _ start-Sound))
      ]

  -- Whatever Docker answers, the services that `collect` gives have different hostnames; each is a
  -- hostname in the sense of `IsHostname`, where the first part may be "*" and a newline may end each
  -- part; and each is the normalized hostname of a running container in the answer that
  -- matches the domain and the tunnel.
  pub collect-Selected :
      (warned : List (String × String)) (request : Request)
      → Selected settings
          (containers_of (items_of request.answer))
          (collect tools settings warned request).services
  unfolding collect
  collect-Selected warned request = discover-Selected warned (request.report true) request.answer

  result_of-serves :
      (networks : List String) (cs : List Container) (w : Walked)
      → AtEnd settings cs w
      → usable (result_of w) ≡ true
      → enforce_strict_network settings ≡ false
      → (h : String) → contains (hosts (result_of w).services) h ≡ any (serves settings h) cs
  unfolding result_of usable nothing_found
  result_of-serves networks cs (walked p) s u lenient h =
      without_strict _ _ lenient (s.complete h) ∙ s.served h
    where
      without_strict : (a b : Bool) {t : Bool} → t ≡ false → (a || t) ≡ (b || t) → a ≡ b
      without_strict a b {t} e h = ground arith
  result_of-serves networks cs (raised failure p) s u lenient h = absurd (cc u)

  discover-serves :
      (warned : List (String × String)) (connected : Bool) (answer : Listing)
      → usable (discover tools settings warned connected answer) ≡ true
      → enforce_strict_network settings ≡ false
      → (h : String)
      → contains (hosts (discover tools settings warned connected answer).services) h
        ≡ any (serves settings h) (containers_of (items_of answer))
  unfolding discover nothing_found usable
  discover-serves warned connected (unavailable e) u lenient h = absurd (cc u)
  discover-serves warned connected (failing e) u lenient h = absurd (cc u)
  discover-serves warned connected not_a_list u lenient h = absurd (cc u)
  discover-serves warned connected (listed items) u lenient h =
      let networks = cloudflared_networks settings items in
      elim (Bool-cases (is_empty items && not connected)) [
        | inl e ↦ absurd (cc (simp e at u))
        | inr e ↦ rw e (
            result_of-serves networks (containers_of items) _
              (walk-Sound tools settings networks items [] _ start-Sound) (simp e at u) lenient h)
      ]

  -- When the inventory is usable and the strict network check is off, a text is the hostname of a
  -- service exactly if it is the normalized hostname of a running container that matches the domain and
  -- the tunnel.
  pub collect-serves :
      (warned : List (String × String)) (request : Request)
      → usable (collect tools settings warned request) ≡ true
      → enforce_strict_network settings ≡ false
      → (h : String)
      → contains (hosts (collect tools settings warned request).services) h
        ≡ any (serves settings h) (containers_of (items_of request.answer))
  unfolding collect
  collect-serves warned request u lenient h =
      discover-serves warned (request.report true) request.answer u lenient h
