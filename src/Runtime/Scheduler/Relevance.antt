-- ===== src/Runtime/Scheduler/Relevance.antt =====
-- Which events start a synchronization.
use cf_docker_tunnel_sync.Base.{
  String, ◌<>◌, Bool, true, false, ◌≡◌, ◌≢◌, ◌⊎◌, refl, ap, inl, inr, some, List, [], ◌∷◌, arith,
}
use cf_docker_tunnel_sync.Base.Lists.{any, contains, In}
use cf_docker_tunnel_sync.Domain.Labels.{LabelGroup, bare_notls_group, first_label}
use cf_docker_tunnel_sync.Domain.Labels.Recognition.{first_label-has_tunnel_labels}
use cf_docker_tunnel_sync.Runtime.Scheduler.{
  Event, TrackedService, Scheduler, lifecycle_actions, is_container_type, base_action, clean_name,
  event_name, shown_name, is_tracked_as, is_relevant_event, handle_event,
}

-- One of the labels of a group that has to do with tunnels is set on the container.
pub record IsLabelled (event : Event) : Type 0 where
  pub group : LabelGroup
  pub value : String
  pub usual : group ≢ bare_notls_group
  pub found : first_label event.attributes group ≡ some value

-- A service of the published state has the name of the container.
pub record IsTracked (s : Scheduler) (event : Event) : Type 0 where
  pub service : TrackedService
  pub listed : In service s.services
  pub named : event_name event ≢ ""
  pub same :
      (event_name event ≡ clean_name service.name)
      ⊎ (event_name event ≡ clean_name service.container)

any-In : {A : Type 0} (p : A → Bool) (x : A) (xs : List A) → In x xs → p x ≡ true → any p xs ≡ true
any-In p x [] h good = absurd h
any-In p x (y ∷ ys) (inl e) good = ground (arith, ap p e)
any-In p x (y ∷ ys) (inr h) good = ground (arith, any-In p x ys h good)

tracked :
    (event : Event) (svc : TrackedService)
    → event_name event ≢ ""
    → (event_name event ≡ clean_name svc.name) ⊎ (event_name event ≡ clean_name svc.container)
    → is_tracked_as event svc ≡ true
unfolding is_tracked_as
tracked event svc named same = ground arith

relevant :
    (s : Scheduler) (event : Event)
    → (s.filter_unlabeled_events ≡ false) ⊎ IsLabelled event ⊎ IsTracked s event
    → is_relevant_event s event ≡ true
unfolding is_relevant_event
relevant s event (inl off) = ground arith
relevant s event (inr (inl l)) =
    ground (arith, first_label-has_tunnel_labels event.attributes l.group l.value l.usual l.found)
relevant s event (inr (inr t)) = ground (
  arith,
  any-In (is_tracked_as event) t.service s.services t.listed
      (tracked event t.service t.named t.same),
)

-- An event of a container with a lifecycle action starts a synchronization if unlabelled containers
-- are not filtered, if `first_label` finds a label of a group other than "notlsverify" on the
-- container, or if a service of the published state has the container's name.
pub handle_event-triggers :
    (s : Scheduler) (event : Event)
    → is_container_type event.event_type ≡ true
    → contains lifecycle_actions (base_action event) ≡ true
    → (s.filter_unlabeled_events ≡ false) ⊎ IsLabelled event ⊎ IsTracked s event
    → handle_event s event ≡ some (base_action event <> ":" <> shown_name event)
unfolding handle_event
handle_event-triggers s event kind action why = rw (kind, action, relevant s event why) refl
