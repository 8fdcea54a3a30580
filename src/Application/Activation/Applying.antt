-- ===== src/Application/Activation/Applying.antt =====
-- An activation that meets no failure makes the connector run on the token.
use cf_docker_tunnel_sync.Base.{
  String, Bool, true, false, ◌≡◌, ◌≢◌, ◌⊎◌, inl, inr, refl, sym, ap, ◌∙◌, Option, none, some, ◌==◌,
  Bool-cases, eq_of_test, arith,
}
use cf_docker_tunnel_sync.Domain.Models.{is_text}
use cf_docker_tunnel_sync.Application.Activation.{
  Reading, contents, os_error, broken, found, Connector, Activation, Activated, done,
  finish_restart, restart_connector, finish_write, update_token, activate_from, activate,
}
use cf_docker_tunnel_sync.Application.Activation.Pending.{Laws, InStep}

in_use :
    (p : Option String) (token : String) {A : Type 0}
    → is_text p token ≡ false
    → (p ≡ some token) ⊎ A
    → A
in_use p token idle (inl e) = absurd (not_idle token (ap (λ q. is_text q token) (sym e) ∙ idle))
  where
    not_idle : (t : String) → is_text (some t) t ≡ false → ⊥
    not_idle t h = ground arith
in_use p token idle (inr a) = a

module _ (connector : Connector) (applied : connector.World → Option String)
    (IsToken : String → Type 0) where
  abbrev State : Type 0
  State = Activation connector.World

  -- The call has returned, the token can be read and the connector runs on it.
  pub record RunsOn (token : String) (o : Activated connector.World) : Type 0 where
    pub after : State
    pub finished : o ≡ done after
    pub stored : connector.read after.world ≡ contents token
    pub runs : applied after.world ≡ some token

  abbrev Runs : String → State → Type 0
  Runs token s = (connector.read s.world ≡ contents token) × (applied s.world ≡ some token)

  -- Every restart of the connector succeeds.
  abbrev pub Restarts : String → Type 0
  Restarts name = (w : connector.World) → (connector.restart w name).1 ≡ none

  module _ (IsConnector : String → Type 0) (laws : Laws connector applied IsToken IsConnector)
      (name : String) (own : IsConnector name) (restarts : Restarts name) (token : String)
      (valid : IsToken token) where
    finish_restart-Runs :
        (s : State) (r : connector.World × Option String)
        → connector.restart s.world name ≡ r
        → connector.read s.world ≡ contents token
        → Runs token (finish_restart connector token name s r)
    unfolding finish_restart
    finish_restart-Runs s (w, none) e h =
        let moved = ap (λ (r : connector.World × Option String). r.0) e in
        (
          ap connector.read (sym moved) ∙ laws.read_restarted s.world name ∙ h,
          ap applied (sym moved)
              ∙ laws.applied_restarted s.world name token own (restarts s.world) valid h,
        )
    finish_restart-Runs s (w, some error) e h =
        absurd (cc (restarts s.world, ap (λ (r : connector.World × Option String). r.1) e))

    restart_connector-Runs :
        (s : State)
        → connector.read s.world ≡ contents token
        → Runs token (restart_connector connector token (found name) s)
    unfolding restart_connector
    restart_connector-Runs s h = finish_restart-Runs s (connector.restart s.world name) refl h

    finish_write-Runs :
        (s : State) (r : connector.World × Bool)
        → connector.write s.world token ≡ r
        → (connector.write s.world token).1 ≡ true
        → Runs token (finish_write connector token (found name) s r)
    unfolding finish_write
    finish_write-Runs s (w, true) e ok = restart_connector-Runs _ (
        ap connector.read (sym (ap (λ (r : connector.World × Bool). r.0) e))
        ∙ laws.read_written s.world token valid ok)
    finish_write-Runs s (w, false) e ok =
        absurd (cc (ok, ap (λ (r : connector.World × Bool). r.1) e))

    update_token-Runs :
        (old : String) (s : State)
        → (connector.write s.world token).1 ≡ true
        → (old ≡ token → connector.read s.world ≡ contents token)
        → InStep connector applied IsToken s
        → Runs token (update_token connector token (found name) old s)
    unfolding update_token
    update_token-Runs old s ok reads h = elim (Bool-cases (old == token)) [
      | inl same ↦
          let stored = reads (eq_of_test old token same) in
          rw same (elim (Bool-cases (is_text s.pending_token token)) [
            | inl waiting ↦ rw waiting (restart_connector-Runs s stored)
            | inr idle ↦ rw idle (stored, in_use s.pending_token token idle (h token valid stored))
          ])
      | inr differ ↦ rw differ (finish_write-Runs s (connector.write s.world token) refl ok)
    ]

    activate_from-Runs :
        (s : State) (r : Reading)
        → connector.read s.world ≡ r
        → r ≢ broken
        → token ≢ ""
        → (connector.write s.world token).1 ≡ true
        → InStep connector applied IsToken s
        → Runs token (activate_from connector token (found name) s r)
    unfolding activate_from
    activate_from-Runs s (contents old) e ok named wrote h =
        update_token-Runs old s wrote (λ same. e ∙ ap contents same) h
    activate_from-Runs s os_error e ok named wrote h =
        update_token-Runs "" s wrote (λ same. absurd (named (sym same))) h
    activate_from-Runs s broken e ok named wrote h = absurd (ok refl)

    -- If a token that can be read was pending or in use, then an activation with a token that is not
    -- empty, that can read the store and write the token, that finds the connector's container and for
    -- which every restart of it succeeds, returns with the token in the store and the connector running
    -- on it, whichever activations had failed before. This takes the laws of the store and the restart
    -- as given.
    pub activate-RunsOn :
        (s : State)
        → InStep connector applied IsToken s
        → token ≢ ""
        → connector.read s.world ≢ broken
        → (connector.write s.world token).1 ≡ true
        → RunsOn token (activate connector true false token (found name) s)
    unfolding activate
    activate-RunsOn s h named readable wrote =
        let runs = activate_from-Runs s (connector.read s.world) refl readable named wrote h in
        record {
          after = activate_from connector token (found name) s (connector.read s.world);
          finished = refl;
          stored = runs.0;
          runs = runs.1;
        }
