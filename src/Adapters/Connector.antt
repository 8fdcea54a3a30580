-- ===== src/Adapters/Connector.antt =====
-- tunnel_sync/adapters/connector.py: the token file and the restart over the Docker client.
pub mod Laws
use cf_docker_tunnel_sync.Base.{
  ℕ, String, Bool, true, false, ◌||◌, Option, ◌<>◌, ◌==◌, if◌then◌else◌,
}
use cf_docker_tunnel_sync.Base.Text.{strip}
use cf_docker_tunnel_sync.Application.Activation.{Reading, contents, os_error, broken, Connector}

-- What `os`, `open` and the Docker client do: `exists`, `open(path).read()`, `os.makedirs`,
-- `os.chmod`, `open(path, "w")` with the write, and the request. A Boolean says that no `OSError`
-- was raised; a request names the class of its exception, if it raises one.
pub record Host : Type 1 where
  pub World : Type 0
  pub dirname : String → String
  pub exists : World → String → Bool
  pub read_text : World → String → Reading
  pub makedirs : World → String → World × Bool
  pub chmod : World → String → ℕ → World × Bool
  pub write_text : World → String → String → World × Bool
  pub request : World → String → String → World × Option String

unfoldable pub strip_reading : Reading → Reading
strip_reading (contents t) = contents (strip t)
strip_reading os_error = os_error
strip_reading broken = broken

module _ (host : Host) (path : String) where
  -- `FileTokenStore.read`
  unfoldable pub read_token : host.World → Reading
  read_token w = if host.exists w path then strip_reading (host.read_text w path) else contents ""

  -- One round of the loop over the folder and the file. The error is only logged.
  unfoldable pub tighten : String → ℕ → host.World → host.World
  tighten target mode w =
      if target == host.dirname path || host.exists w target
      then (host.chmod w target mode).0
      else w

  unfoldable pub seal : host.World × Bool → host.World × Bool
  seal (w, true) = ((host.chmod w path 384).0, true)
  seal (w, false) = (w, false)

  unfoldable pub write_under : String → host.World × Bool → host.World × Bool
  write_under token (w, true) =
      seal (host.write_text (tighten path 384 (tighten (host.dirname path) 448 w)) path token)
  write_under token (w, false) = (w, false)

  -- `FileTokenStore.write`. The modes are 0o700 and 0o600.
  unfoldable pub write_token : host.World → String → host.World × Bool
  write_token w token = write_under token (host.makedirs w (host.dirname path))

  -- `DockerConnectorRestarter.restart`
  unfoldable pub restart_container : host.World → String → host.World × Option String
  restart_container w name = host.request w ("/containers/" <> name <> "/restart") "POST"

  abbrev pub file_connector : Connector
  file_connector = record {
    World = host.World;
    read = read_token;
    write = write_token;
    restart = restart_container;
  }
