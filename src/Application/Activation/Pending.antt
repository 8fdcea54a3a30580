-- ===== src/Application/Activation/Pending.antt =====
-- No token is forgotten: it is pending until the connector runs on it.
use cf_docker_tunnel_sync.Base.{
  String, Bool, true, false, ◌≡◌, ◌⊎◌, inl, inr, refl, sym, ap, ◌∙◌, Option, none, some, List, [],
  ◌∷◌, ◌==◌, Bool-cases, eq_of_test,
}
use cf_docker_tunnel_sync.Base.Lists.{All}
use cf_docker_tunnel_sync.Domain.Models.{is_text}
use cf_docker_tunnel_sync.Application.Activation.{
  Reading, contents, os_error, broken, Answer, found, raises, Connector, Activation, Activated,
  done, missing_capability, note_failure, restart_failed, finish_restart, restart_connector,
  give_up, finish_write, update_token, activate_from, activate,
}

-- What the code relies on, where `applied` is the token that the connector runs on, `IsToken` tells the
-- tokens from what else the file can hold, such as a part of a token, and `IsConnector` tells the names
-- of the connector's container: a token that was written is read, a token that could not be written
-- leaves no other token to read than before, a restart leaves the token, and the connector runs on the
-- token that can be read when its own container was restarted.
pub record Laws (connector : Connector) (applied : connector.World → Option String)
    (IsToken IsConnector : String → Type 0) : Type 0 where
  pub read_written :
      (w : connector.World) (token : String)
      → IsToken token
      → (connector.write w token).1 ≡ true
      → connector.read (connector.write w token).0 ≡ contents token
  pub read_unwritten :
      (w : connector.World) (token other : String)
      → IsToken token
      → IsToken other
      → (connector.write w token).1 ≡ false
      → connector.read (connector.write w token).0 ≡ contents other
      → (connector.read w ≡ contents other) × (applied (connector.write w token).0 ≡ applied w)
  pub read_restarted :
      (w : connector.World) (name : String)
      → connector.read (connector.restart w name).0 ≡ connector.read w
  pub applied_restarted :
      (w : connector.World) (name token : String)
      → IsConnector name
      → (connector.restart w name).1 ≡ none
      → IsToken token
      → connector.read w ≡ contents token
      → applied (connector.restart w name).0 ≡ some token

-- A call of `activate` with what it is given.
pub record Cycle : Type 0 where
  pub dry_run : Bool
  pub token : String
  pub answer : Answer

-- The name that was found, if one was, is that of the connector.
abbrev pub Finds : (String → Type 0) → Answer → Type 0
Finds IsConnector (found name) = IsConnector name
Finds IsConnector (raises e) = Unit

module _ (connector : Connector) (applied : connector.World → Option String)
    (IsToken : String → Type 0) where
  abbrev State : Type 0
  State = Activation connector.World

  -- A token that can be read is pending, or the connector runs on it.
  abbrev pub InStep : State → Type 0
  InStep s =
      (t : String)
      → IsToken t
      → connector.read s.world ≡ contents t
      → (s.pending_token ≡ some t) ⊎ (applied s.world ≡ some t)

  followed_by :
      Activated connector.World → (State → Activated connector.World) → Activated connector.World
  followed_by (done s) f = f s
  followed_by missing_capability f = missing_capability

  -- The calls of `activate`, one after another, with both capabilities.
  pub activate_all : List Cycle → State → Activated connector.World
  activate_all [] s = done s
  activate_all (c ∷ cs) s =
      followed_by (activate connector true c.dry_run c.token c.answer s) (activate_all cs)

  -- The calls have returned, in step.
  pub record EndsInStep (o : Activated connector.World) : Type 0 where
    pub after : State
    pub finished : o ≡ done after
    pub in_step : InStep after

  module _ (IsConnector : String → Type 0) (laws : Laws connector applied IsToken IsConnector) where
    finish_restart-InStep :
        (token name : String) (s : State) (r : connector.World × Option String)
        → IsConnector name
        → connector.restart s.world name ≡ r
        → ((t : String) → connector.read s.world ≡ contents t → t ≡ token)
        → InStep (finish_restart connector token name s r)
    unfolding finish_restart restart_failed
    finish_restart-InStep token name s (w, none) own e only t good h = inr (
        ap applied (sym (ap (λ (r : connector.World × Option String). r.0) e))
        ∙ laws.applied_restarted s.world name t own
            (ap (λ (r : connector.World × Option String). r.1) e) good
            (sym (laws.read_restarted s.world name)
              ∙ ap connector.read (ap (λ (r : connector.World × Option String). r.0) e)
              ∙ h))
    finish_restart-InStep token name s (w, some error) own e only t good h = inl (
        ap some (
          sym (
            only t (
              sym (laws.read_restarted s.world name)
              ∙ ap connector.read (ap (λ (r : connector.World × Option String). r.0) e)
              ∙ h))))

    restart_connector-InStep :
        (token : String) (answer : Answer) (s : State)
        → Finds IsConnector answer
        → ((t : String) → connector.read s.world ≡ contents t → t ≡ token)
        → InStep (restart_connector connector token answer s)
    unfolding restart_connector restart_failed
    restart_connector-InStep token (found name) s own only t good h =
        finish_restart-InStep token name s (connector.restart s.world name) own refl only t good h
    restart_connector-InStep token (raises error) s own only t good h =
        inl (ap some (sym (only t h)))

    note_failure-same :
        (p : Option String) (s : State)
        → ((note_failure connector p s).world ≡ s.world)
          × ((note_failure connector p s).pending_token ≡ s.pending_token)
    unfolding note_failure
    note_failure-same none s = (refl, refl)
    note_failure-same (some token) s = (refl, refl)

    give_up-InStep : (s : State) → InStep s → InStep (give_up connector s)
    unfolding give_up
    give_up-InStep s h t good e =
        let same = note_failure-same s.pending_token s in
        rw (same.0, same.1) (h t good (ap connector.read (sym same.0) ∙ e))

    read_after_write :
        (w w2 : connector.World) (token : String)
        → IsToken token
        → connector.write w token ≡ (w2, true)
        → connector.read w2 ≡ contents token
    read_after_write w w2 token good e =
        ap connector.read (sym (ap (λ (r : connector.World × Bool). r.0) e))
        ∙ laws.read_written w token good (ap (λ (r : connector.World × Bool). r.1) e)

    read_after_failure :
        (w w2 : connector.World) (token other : String)
        → IsToken token
        → IsToken other
        → connector.write w token ≡ (w2, false)
        → connector.read w2 ≡ contents other
        → (connector.read w ≡ contents other) × (applied w2 ≡ applied w)
    read_after_failure w w2 token other valid good e h =
        let moved = ap (λ (r : connector.World × Bool). r.0) e in
        let kept =
          laws.read_unwritten w token other valid good (ap (λ (r : connector.World × Bool). r.1) e)
            (ap connector.read moved ∙ h) in
        (kept.0, ap applied (sym moved) ∙ kept.1)

    finish_write-InStep :
        (token : String) (answer : Answer) (s : State) (r : connector.World × Bool)
        → IsToken token
        → Finds IsConnector answer
        → connector.write s.world token ≡ r
        → InStep s
        → InStep (finish_write connector token answer s r)
    unfolding finish_write
    finish_write-InStep token answer s (w, true) valid own e h =
        let written = read_after_write s.world w token valid e in
        restart_connector-InStep token answer _ own (λ t read. cc)
    finish_write-InStep token answer s (w, false) valid own e h =
        give_up-InStep (record s { world = w })
          (λ t good read.
            let kept = read_after_failure s.world w token t valid good e read in
            elim (h t good kept.0) [ inl p ↦ inl p | inr p ↦ inr (kept.1 ∙ p) ])

    update_token-InStep :
        (token : String) (answer : Answer) (old : String) (s : State)
        → IsToken token
        → Finds IsConnector answer
        → ((t : String) → connector.read s.world ≡ contents t → t ≡ old)
        → InStep s
        → InStep (update_token connector token answer old s)
    unfolding update_token
    update_token-InStep token answer old s valid own only h = elim (Bool-cases (old == token)) [
      | inl same ↦ rw same (elim (Bool-cases (is_text s.pending_token token)) [
        | inl waiting ↦ rw waiting (
            restart_connector-InStep token answer s own
              (λ t e. only t e ∙ eq_of_test old token same))
        | inr idle ↦ rw idle h
      ])
      | inr differ ↦
          rw differ
            (finish_write-InStep token answer s (connector.write s.world token) valid own refl h)
    ]

    activate_from-InStep :
        (token : String) (answer : Answer) (s : State) (r : Reading)
        → IsToken token
        → Finds IsConnector answer
        → connector.read s.world ≡ r
        → InStep s
        → InStep (activate_from connector token answer s r)
    unfolding activate_from
    activate_from-InStep token answer s (contents old) valid own e h =
        update_token-InStep token answer old s valid own (λ t read. cc) h
    activate_from-InStep token answer s os_error valid own e h =
        update_token-InStep token answer "" s valid own (λ t read. cc) h
    activate_from-InStep token answer s broken valid own e h = give_up-InStep s h

    -- If a token that could not be written leaves no other token to read than before, and the
    -- connector's own container, once restarted, runs on the token that can be read: whichever writes
    -- and restarts of a sequence of activations with tokens fail, where each finds the connector's
    -- container or none, the calls return, and a token that can be read is still pending or the
    -- connector runs on it, if that was so before.
    pub activate_all-InStep :
        (cycles : List Cycle) (s : State)
        → All (λ c. IsToken c.token × Finds IsConnector c.answer) cycles
        → InStep s
        → EndsInStep (activate_all cycles s)
    unfolding activate_all activate followed_by
    activate_all-InStep [] s valid h = record { after = s; finished = refl; in_step = h }
    activate_all-InStep (c ∷ cs) s valid h = elim (Bool-cases c.dry_run) [
      | inl dry ↦ simp dry (activate_all-InStep cs s valid.1 h)
      | inr real ↦ simp real (
          activate_all-InStep cs
            (activate_from connector c.token c.answer s (connector.read s.world)) valid.1
            (activate_from-InStep c.token c.answer s (connector.read s.world) valid.0.0 valid.0.1
              refl h))
    ]
