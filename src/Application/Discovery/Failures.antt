-- ===== src/Application/Discovery/Failures.antt =====
-- tunnel_sync/application/discovery.py: answers that are no inventory.
use cf_docker_tunnel_sync.Base.{
  String, Bool, true, false, not, ◌&&◌, ◌||◌, List, [], ◌∷◌, ◌≡◌, refl, inl, inr, Bool-cases, arith,
}
use cf_docker_tunnel_sync.Base.Lists.{is_empty}
use cf_docker_tunnel_sync.Application.Discovery.{
  Settings, Tools, LogLine, Progress, cloudflared_networks,
}
use cf_docker_tunnel_sync.Application.Discovery.Connectors.{
  Item, container, malformed, Listing, listed, not_a_list, unavailable, failing,
}
use cf_docker_tunnel_sync.Application.Discovery.Loop.{
  Walked, walked, raised, go_on, visit, walk, InventoryStatus, degraded, unreachable, Reason,
  InventoryResult, nothing_found, result_of, discover, Request, collect, usable, is_available,
}

-- Nothing is taken for found, and Docker is taken for disconnected.
pub record Closed (r : InventoryResult) : Type 0 where
  pub unusable : usable r ≡ false
  pub no_services : r.services ≡ []
  pub no_containers : r.containers ≡ []
  pub disconnected : r.docker_connected ≡ false

-- Each element is a container.
abbrev pub all_containers : List Item → Bool
all_containers [] = true
all_containers (malformed ∷ items) = false
all_containers (container c ∷ items) = all_containers items

-- The answer is a list of containers; if it is empty, the connection is not reported as lost.
abbrev pub is_inventory : Bool → Listing → Bool
is_inventory connected (listed items) = all_containers items && (not (is_empty items) || connected)
is_inventory connected _ = false

nothing_found-Closed :
    (why : Reason) (warned : List (String × String)) (log : List LogLine) (status : InventoryStatus)
    → is_available status ≡ false
    → Closed (nothing_found status why warned log)
unfolding nothing_found usable
nothing_found-Closed why warned log status e = record {
  unusable = e;
  no_services = refl;
  no_containers = refl;
  disconnected = refl;
}

module _ (tools : Tools) (settings : Settings) where
  go_on-Closed :
      (networks : List String) (items : List Item) (w : Walked)
      → ((p : Progress) → Closed (result_of (walk tools settings networks items p)))
      → Closed (result_of (go_on (walk tools settings networks items) w))
  unfolding go_on result_of
  go_on-Closed networks items (walked q) h = h q
  go_on-Closed networks items (raised failure q) h = nothing_found-Closed _ _ _ degraded refl

  walk-Closed :
      (networks : List String) (items : List Item) (p : Progress)
      → all_containers items ≡ false
      → Closed (result_of (walk tools settings networks items p))
  unfolding walk result_of
  walk-Closed networks [] p e = absurd (cc e)
  walk-Closed networks (malformed ∷ items) p e = nothing_found-Closed _ _ _ degraded refl
  walk-Closed networks (container c ∷ items) p e =
      go_on-Closed networks items (visit tools settings networks c p)
        (λ q. walk-Closed networks items q e)

  discover-Closed :
      (warned : List (String × String)) (connected : Bool) (answer : Listing)
      → is_inventory connected answer ≡ false
      → Closed (discover tools settings warned connected answer)
  unfolding discover
  discover-Closed warned connected (unavailable e) h = nothing_found-Closed _ _ _ unreachable refl
  discover-Closed warned connected (failing e) h = nothing_found-Closed _ _ _ degraded refl
  discover-Closed warned connected not_a_list h = nothing_found-Closed _ _ _ degraded refl
  discover-Closed warned connected (listed items) h =
      elim (Bool-cases (is_empty items && not connected)) [
        | inl e ↦ rw e (nothing_found-Closed _ _ _ unreachable refl)
        | inr e ↦ rw e (walk-Closed (cloudflared_networks settings items) items _ (ground arith))
      ]

  -- When Docker cannot be reached, answers with an error, with something that is no list or with a list
  -- in which an element is no container, or with an empty list while the connection is reported as
  -- lost, the result of `collect` is not usable, has neither services nor containers, and Docker is
  -- marked as disconnected.
  pub collect-Closed :
      (warned : List (String × String)) (request : Request)
      → is_inventory (request.report true) request.answer ≡ false
      → Closed (collect tools settings warned request)
  unfolding collect
  collect-Closed warned request h = discover-Closed warned (request.report true) request.answer h

  -- An inventory that is not usable has no services.
  result_of-unusable : (w : Walked) → usable (result_of w) ≡ false → (result_of w).services ≡ []
  unfolding result_of usable nothing_found
  result_of-unusable (walked p) u = absurd (cc u)
  result_of-unusable (raised failure p) u = refl

  discover-unusable :
      (warned : List (String × String)) (connected : Bool) (answer : Listing)
      → usable (discover tools settings warned connected answer) ≡ false
      → (discover tools settings warned connected answer).services ≡ []
  unfolding discover nothing_found
  discover-unusable warned connected (unavailable e) u = refl
  discover-unusable warned connected (failing e) u = refl
  discover-unusable warned connected not_a_list u = refl
  discover-unusable warned connected (listed items) u =
      elim (Bool-cases (is_empty items && not connected)) [
        | inl e ↦ rw e refl
        | inr e ↦ rw e (result_of-unusable _ (simp e at u))
      ]

  pub collect-unusable :
      (warned : List (String × String)) (request : Request)
      → usable (collect tools settings warned request) ≡ false
      → (collect tools settings warned request).services ≡ []
  unfolding collect
  collect-unusable warned request u =
      discover-unusable warned (request.report true) request.answer u
