-- ===== src/Application/Activation.antt =====
-- tunnel_sync/application/executor.py: `ChangeExecutor.provision` and `ChangeExecutor.activate`.
-- The token store and the restarter are the protocols of tunnel_sync/application/ports.py.
pub mod Pending
pub mod Applying
use cf_docker_tunnel_sync.Base.{
  String, Bool, true, false, not, ◌&&◌, Option, none, some, List, [], ◌∷◌, ◌++◌, ◌==◌,
  if◌then◌else◌,
}
use cf_docker_tunnel_sync.Domain.Models.{is_text}

-- What reading the token gives: a text, an `OSError`, or another exception.
pub data Reading : Type 0 where
  contents : String → Reading
  os_error broken : Reading

-- What the callable that finds the connector gives: its name, or an exception of the class named.
pub data Answer : Type 0 where
  found raises : String → Answer

-- `TokenStore` and `ConnectorRestarter`, which act on the shared volume and on Docker. A write says
-- whether it succeeded; a restart names the class of its exception, if it raises one.
pub record Connector : Type 1 where
  pub World : Type 0
  pub read : World → Reading
  pub write : World → String → World × Bool
  pub restart : World → String → World × Option String

pub data ActivationLog : Type 0 where
  token_updated write_failed : ActivationLog
  restarted retry_later tunnel_created : String → ActivationLog

-- `_pending_token` and `_pending_connector`, with the world and the log.
pub record Activation (W : Type 0) : Type 0 where
  pub world : W
  pub pending_token : Option String
  pub pending_connector : Option Answer
  pub log : List ActivationLog

pub data Activated (W : Type 0) : Type 0 where
  done : Activation W → Activated W
  missing_capability : Activated W

module _ (connector : Connector) where
  abbrev pub State : Type 0
  State = Activation connector.World

  unfoldable pub restart_failed : String → Answer → String → State → State
  restart_failed token answer error s = record s {
    pending_token = some token;
    pending_connector = some answer;
    log = s.log ++ retry_later error ∷ [];
  }

  unfoldable pub finish_restart : String → String → State → connector.World × Option String → State
  finish_restart token name s (w, none) = record s {
    world = w;
    pending_token = none;
    pending_connector = none;
    log = s.log ++ restarted name ∷ [];
  }
  finish_restart token name s (w, some error) =
      restart_failed token (found name) error (record s { world = w })

  unfoldable pub restart_connector : String → Answer → State → State
  restart_connector token (found name) s =
      finish_restart token name s (connector.restart s.world name)
  restart_connector token (raises error) s = restart_failed token (raises error) error s

  -- The outer handler.
  unfoldable pub note_failure : Option String → State → State
  note_failure none s = record s { log = s.log ++ write_failed ∷ [] }
  note_failure (some token) s = s

  unfoldable pub give_up : State → State
  give_up s = note_failure s.pending_token s

  unfoldable pub finish_write : String → Answer → State → connector.World × Bool → State
  finish_write token answer s (w, true) =
      restart_connector token answer (record s { world = w; log = s.log ++ token_updated ∷ [] })
  finish_write token answer s (w, false) = give_up (record s { world = w })

  unfoldable pub update_token : String → Answer → String → State → State
  update_token token answer old s =
      if old == token
      then (if is_text s.pending_token token then restart_connector token answer s else s)
      else finish_write token answer s (connector.write s.world token)

  unfoldable pub activate_from : String → Answer → State → Reading → State
  activate_from token answer s (contents old) = update_token token answer old s
  activate_from token answer s os_error = update_token token answer "" s
  activate_from token answer s broken = give_up s

  -- `activate`; `capable` says that both the store and the restarter were given.
  unfoldable pub activate : Bool → Bool → String → Answer → State → Activated connector.World
  activate capable dry_run token answer s =
      if dry_run
      then done s
      else if capable
      then done (activate_from token answer s (connector.read s.world))
      else missing_capability

-- What the call that creates the tunnel gives: the id in its answer, or an exception.
pub data Created : Type 0 where
  created error : String → Created

pub data Provisioned (W : Type 0) : Type 0 where
  provisioned : Option String → W → List ActivationLog → Provisioned W
  raised : String → W → Provisioned W

-- `provision`, where `create world account_id name` is the POST to the tunnels of the account.
module _ {W : Type 0} (create : W → String → String → W × Created) where
  unfoldable pub finish_provision : List ActivationLog → W × Created → Provisioned W
  finish_provision log (w, created tunnel_id) =
      provisioned (some tunnel_id) w (log ++ tunnel_created tunnel_id ∷ [])
  finish_provision log (w, error message) = raised message w

  unfoldable pub provision : Bool → String → String → W → List ActivationLog → Provisioned W
  provision dry_run account_id name w log =
      if dry_run then provisioned none w log else finish_provision log (create w account_id name)
