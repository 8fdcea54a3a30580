-- ===== src/Tests/Activating.antt =====
-- `activate` over a token file in memory and a connector that starts with the token of the file.
use cf_docker_tunnel_sync.Base.{
  String, Bool, ap, sym, subst, ◌∙◌, ◌⊎◌, ◌<>◌, arith, eq_of_test, test_same, true, false, ◌≡◌,
  refl, inl, Option, none, some, [], ◌∷◌, ne_of_test, string_dec, Bool-cases, inr, ◌==◌,
  if◌then◌else◌,
}
use cf_docker_tunnel_sync.Base.Text.{strip, text_length}
use cf_docker_tunnel_sync.Base.Text.Chars.{strip-shorter, text_length-append, text_length-positive}
use cf_docker_tunnel_sync.Adapters.Connector.{
  Host, strip_reading, read_token, tighten, seal, write_under, write_token, restart_container,
  file_connector,
}
use cf_docker_tunnel_sync.Adapters.Connector.Laws.{
  Same, Holds, CutShort, HostLaws, file_connector-Laws,
}
use cf_docker_tunnel_sync.Application.Activation.{
  Reading, contents, os_error, found, raises, Activation, activate,
}
use cf_docker_tunnel_sync.Application.Activation.Pending.{
  Laws, Cycle, EndsInStep, activate_all, activate_all-InStep,
}
use cf_docker_tunnel_sync.Application.Activation.Applying.{RunsOn, activate-RunsOn}

-- The token in the volume and the one that the connector runs on.
abbrev Volume : Type 0
Volume = Option String × Option String

abbrev reading : Option String → Reading
reading none = os_error
reading (some token) = contents token

abbrev running : Option String → Option String
running none = none
running (some text) = some (strip text)

abbrev is_there : Option String → Bool
is_there none = false
is_there (some text) = true

-- The write of "unsent" stops after the first characters.
abbrev written : Volume → String → Volume × Bool
written w text = if text == "unsent" then ((some "uns", w.1), false) else ((some text, w.1), true)

-- The connector reads the token when its own container is restarted.
abbrev requested : Volume → String → String → Volume
requested w target method =
    if target == "/containers/cloudflared/restart" then (w.0, running w.0) else w

abbrev host : Host
host = record {
  World = Volume;
  dirname = λ path. "/etc/cloudflared";
  exists = λ w path. is_there w.0;
  read_text = λ w path. reading w.0;
  makedirs = λ w folder. (w, true);
  chmod = λ w target mode. (w, true);
  write_text = λ w path text. written w text;
  request = λ w target method. (requested w target method, none);
}

abbrev file : String
file = "/etc/cloudflared/token"

abbrev applied : Volume → Option String
applied w = w.1

abbrev IsToken : String → Type 0
IsToken t = (text_length t ≡ 6) × (strip t ≡ t)

abbrev IsConnector : String → Type 0
IsConnector name = name ≡ "cloudflared"

host_laws : HostLaws host file applied IsToken IsConnector
unfolding text_length strip
host_laws = record {
  named = λ t valid e. absurd (short t e valid.0);
  stripped = λ t valid. valid.1;
  uncut = λ start rest whole lost part. absurd (
      omega (
        arith,
        text_length-append start rest,
        text_length-positive rest lost,
        strip-shorter start,
        whole.0,
        part.0,
      ));
  made = λ w folder. (refl, (refl, refl));
  moded = λ w target mode. (refl, (refl, refl));
  written = written_holds;
  unwritten = cut_short;
  requested = λ w target method. file_kept w target (Bool-cases _);
  restarted = λ w name text own ok h.
      subst
        (λ n. applied (requested w ("/containers/" <> n <> "/restart") "POST") ≡ some (strip text))
        (sym own) (restarted_own w text (runs w.0 text h.1));
}
  where
    short : (t : String) → t ≡ "" → text_length t ≡ 6 → ⊥
    short t e h = absurd (omega (arith, ap text_length (sym e) ∙ h))

    file_kept :
        (w : Volume) (target : String)
        → ((target == "/containers/cloudflared/restart") ≡ true)
          ⊎ ((target == "/containers/cloudflared/restart") ≡ false)
        → (is_there (requested w target "POST").0 ≡ is_there w.0)
          × (reading (requested w target "POST").0 ≡ reading w.0)
    file_kept w target (inl e) = rw e (refl, refl)
    file_kept w target (inr e) = rw e (refl, refl)

    restarted_own :
        (w : Volume) (text : String)
        → running w.0 ≡ some (strip text)
        → applied (requested w "/containers/cloudflared/restart" "POST") ≡ some (strip text)
    restarted_own w text h = rw (test_same "/containers/cloudflared/restart") h

    written_holds :
        (w : Volume) (text : String)
        → (written w text).1 ≡ true
        → Holds host file applied text (written w text).0
    written_holds w text ok = elim (Bool-cases (text == "unsent")) [
      | inl long ↦ absurd (cc (ok, long))
      | inr fits ↦ rw fits (refl, refl)
    ]

    cut_short :
        (w : Volume) (text : String)
        → (written w text).1 ≡ false
        → (Same host file applied w (written w text).0)
          ⊎ CutShort host file applied text w (written w text).0
    cut_short w text failed = elim (Bool-cases (text == "unsent")) [
      | inl e ↦ inr (record {
        start = "uns";
        rest = "ent";
        whole = eq_of_test text "unsent" e;
        lost = λ h. absurd (omega (arith, ap text_length h));
        left = rw e (refl, refl);
        same = rw e refl;
      })
      | inr e ↦ absurd (cc (failed, e))
    ]

    runs :
        (o : Option String) (text : String)
        → reading o ≡ contents text
        → running o ≡ some (strip text)
    runs none text h = absurd (cc h)
    runs (some t) text h = cc h

file_connector-Laws_example : Laws (file_connector host file) applied IsToken IsConnector
file_connector-Laws_example = file_connector-Laws host file applied IsToken IsConnector host_laws

laws : Laws (file_connector host file) applied IsToken IsConnector
laws = file_connector-Laws host file applied IsToken IsConnector host_laws

abbrev fresh : Activation Volume
fresh = record { world = (none, none); pending_token = none; pending_connector = none; log = [] }

abbrev unlucky : Cycle
unlucky = record { dry_run = false; token = "secret"; answer = raises "RuntimeError" }

-- The write fails and leaves a part of the token.
abbrev refused : Cycle
refused = record { dry_run = false; token = "unsent"; answer = found "cloudflared" }

abbrev lucky : Cycle
lucky = record { dry_run = false; token = "secret"; answer = found "cloudflared" }

secret : IsToken "secret"
unfolding text_length strip
secret = (refl, refl)

unsent : IsToken "unsent"
unfolding text_length strip
unsent = (refl, refl)

no_token : (t : String) → IsToken t → contents "" ≡ contents t → ⊥
unfolding text_length
no_token t valid h = absurd (omega (arith, ap text_length (contents_inj h) ∙ valid.0))
  where
    contents_inj : {a b : String} → contents a ≡ contents b → a ≡ b
    contents_inj h = cc h

activate_all-InStep_example :
    EndsInStep (file_connector host file) applied IsToken (
      activate_all
        (file_connector host file)
        applied
        IsToken
        (unlucky ∷ refused ∷ lucky ∷ [])
        fresh)
unfolding read_token strip_reading
activate_all-InStep_example =
    activate_all-InStep (file_connector host file) applied IsToken IsConnector laws
      (unlucky ∷ refused ∷ lucky ∷ []) fresh ((secret, tt), ((unsent, refl), ((secret, refl), tt)))
      (λ t valid h. absurd (no_token t valid h))

-- The token was written and the restart failed.
abbrev waiting : Activation Volume
waiting = record {
  world = (some "secret", none);
  pending_token = some "secret";
  pending_connector = some (raises "RuntimeError");
  log = [];
}

activate-RunsOn_example :
    RunsOn
      (file_connector host file)
      applied
      IsToken
      "secret"
      (activate (file_connector host file) true false "secret" (found "cloudflared") waiting)
unfolding string_dec read_token write_token write_under seal tighten restart_container strip
    strip_reading
activate-RunsOn_example =
    activate-RunsOn (file_connector host file) applied IsToken IsConnector laws "cloudflared" refl
      (λ w. refl) "secret" secret waiting (λ t valid h. inl (cc h)) (ne_of_test "secret" "" refl)
      (λ h. cc h) refl
