-- ===== src/Adapters/Connector/Laws.antt =====
-- The token file and the restart do what an activation relies on.
use cf_docker_tunnel_sync.Base.{
  ℕ, String, Bool, true, false, ◌≡◌, ◌≢◌, ◌⊎◌, inl, inr, refl, sym, ap, subst, ◌∙◌, Option, none,
  some, ◌<>◌, ◌||◌, ◌==◌, Bool-cases,
}
use cf_docker_tunnel_sync.Base.Text.{strip}
use cf_docker_tunnel_sync.Application.Activation.{Reading, contents, os_error, broken}
use cf_docker_tunnel_sync.Application.Activation.Pending.{Laws}
use cf_docker_tunnel_sync.Adapters.Connector.{
  Host, strip_reading, read_token, tighten, seal, write_under, write_token, restart_container,
  file_connector,
}

module _ (host : Host) (path : String) (applied : host.World → Option String) where
  -- The file and the token that the connector runs on are the same.
  abbrev pub Same : host.World → host.World → Type 0
  Same w v =
      (host.exists v path ≡ host.exists w path)
      × ((host.read_text v path ≡ host.read_text w path) × (applied v ≡ applied w))

  abbrev pub Holds : String → host.World → Type 0
  Holds text w = (host.exists w path ≡ true) × (host.read_text w path ≡ contents text)

  -- A write that stopped early: the file was truncated, and has a part of the text without its end.
  pub record CutShort (text : String) (w v : host.World) : Type 0 where
    pub start : String
    pub rest : String
    pub whole : text ≡ start <> rest
    pub lost : rest ≢ ""
    pub left : Holds start v
    pub same : applied v ≡ applied w

  -- What the code relies on: folders and modes leave the file and the connector; a text that was
  -- written is in the file; a write that failed could not open the file, which is as it was, or stopped
  -- early; a request leaves the file; when Docker has restarted the connector's container by its name,
  -- the connector runs on the stripped text of the file. A token is not empty, has no white space around
  -- it, and is no token without its end.
  pub record HostLaws (IsToken IsConnector : String → Type 0) : Type 0 where
    pub named : (t : String) → IsToken t → t ≢ ""
    pub stripped : (t : String) → IsToken t → strip t ≡ t
    pub uncut :
        (start rest : String) → IsToken (start <> rest) → rest ≢ "" → ¬ IsToken (strip start)
    pub made : (w : host.World) (folder : String) → Same w (host.makedirs w folder).0
    pub moded : (w : host.World) (target : String) (mode : ℕ) → Same w (host.chmod w target mode).0
    pub written :
        (w : host.World) (text : String)
        → (host.write_text w path text).1 ≡ true
        → Holds text (host.write_text w path text).0
    pub unwritten :
        (w : host.World) (text : String)
        → (host.write_text w path text).1 ≡ false
        → (Same w (host.write_text w path text).0) ⊎ CutShort text w (host.write_text w path text).0
    pub requested :
        (w : host.World) (target method : String)
        → (host.exists (host.request w target method).0 path ≡ host.exists w path)
          × (host.read_text (host.request w target method).0 path ≡ host.read_text w path)
    pub restarted :
        (w : host.World) (name text : String)
        → IsConnector name
        → (host.request w ("/containers/" <> name <> "/restart") "POST").1 ≡ none
        → Holds text w
        → applied (host.request w ("/containers/" <> name <> "/restart") "POST").0
          ≡ some (strip text)

  Same-trans : (a b c : host.World) → Same a b → Same b c → Same a c
  Same-trans a b c p q = (q.0 ∙ p.0, (q.1.0 ∙ p.1.0, q.1.1 ∙ p.1.1))

  read_same :
      (w v : host.World)
      → host.exists v path ≡ host.exists w path
      → host.read_text v path ≡ host.read_text w path
      → read_token host path v ≡ read_token host path w
  unfolding read_token
  read_same w v here texts = rw (here, texts) refl

  read_here :
      (w : host.World)
      → host.exists w path ≡ true
      → read_token host path w ≡ strip_reading (host.read_text w path)
  unfolding read_token
  read_here w here = rw here refl

  read_missing :
      (w : host.World) → host.exists w path ≡ false → read_token host path w ≡ contents ""
  unfolding read_token
  read_missing w missing = rw missing refl

  read_holds :
      (text : String) (w : host.World)
      → Holds text w
      → read_token host path w ≡ contents (strip text)
  unfolding read_token strip_reading
  read_holds text w h = rw (h.0, h.1) refl

  module _ (IsToken IsConnector : String → Type 0) (laws : HostLaws IsToken IsConnector) where
    -- The file with the token that was read.
    record Held (token : String) (w : host.World) : Type 0 where
      text : String
      holds : Holds text w
      same : strip text ≡ token

    strip_reading-Held :
        (token : String) (w : host.World) (r : Reading)
        → host.exists w path ≡ true
        → host.read_text w path ≡ r
        → strip_reading r ≡ contents token
        → Held token w
    unfolding strip_reading
    strip_reading-Held token w (contents text) here e h = record {
      text = text;
      holds = (here, e);
      same = cc h;
    }
    strip_reading-Held token w os_error here e h = absurd (cc h)
    strip_reading-Held token w broken here e h = absurd (cc h)

    read_token-Held :
        (token : String) (w : host.World)
        → IsToken token
        → read_token host path w ≡ contents token
        → Held token w
    read_token-Held token w valid h = elim (Bool-cases (host.exists w path)) [
      | inl here ↦
          strip_reading-Held token w (host.read_text w path) here refl (sym (read_here w here) ∙ h)
      | inr missing ↦ absurd (laws.named token valid (cc (h, read_missing w missing)))
    ]

    tighten-Same :
        (target : String) (mode : ℕ) (w : host.World) → Same w (tighten host path target mode w)
    unfolding tighten
    tighten-Same target mode w =
        elim (Bool-cases (target == host.dirname path || host.exists w target)) [
          | inl there ↦ rw there (laws.moded w target mode)
          | inr missing ↦ rw missing (refl, (refl, refl))
        ]

    abbrev tightened : host.World → host.World
    tightened w = tighten host path path 384 (tighten host path (host.dirname path) 448 w)

    tightened-Same : (w : host.World) → Same w (tightened w)
    tightened-Same w =
        let inner = tighten host path (host.dirname path) 448 w in
        Same-trans w inner (tightened w) (tighten-Same (host.dirname path) 448 w)
          (tighten-Same path 384 inner)

    seal-Holds :
        (token : String) (w : host.World) (r : host.World × Bool)
        → host.write_text w path token ≡ r
        → (seal host path r).1 ≡ true
        → Holds token (seal host path r).0
    unfolding seal
    seal-Holds token w (v, true) e ok =
        let there = laws.written w token (ap (λ (r : host.World × Bool). r.1) e) in
        let moved = ap (λ (r : host.World × Bool). r.0) e in
        let moded = laws.moded v path 384 in
        (
          moded.0 ∙ ap (λ x. host.exists x path) (sym moved) ∙ there.0,
          moded.1.0 ∙ ap (λ x. host.read_text x path) (sym moved) ∙ there.1,
        )
    seal-Holds token w (v, false) e ok = absurd (cc ok)

    write_under-Holds :
        (token : String) (r : host.World × Bool)
        → (write_under host path token r).1 ≡ true
        → Holds token (write_under host path token r).0
    unfolding write_under
    write_under-Holds token (w, true) ok =
        seal-Holds token (tightened w) (host.write_text (tightened w) path token) refl ok
    write_under-Holds token (w, false) ok = absurd (cc ok)

    -- What a write that stopped early leaves is no token.
    write_text-Same :
        (token other : String) (w : host.World)
        → IsToken token
        → IsToken (strip other)
        → (host.write_text w path token).1 ≡ false
        → Holds other (host.write_text w path token).0
        → Same w (host.write_text w path token).0
    write_text-Same token other w own valid failed h = elim (laws.unwritten w token failed) [
      | inl same ↦ same
      | inr cut ↦ absurd (
          laws.uncut cut.start cut.rest (subst IsToken cut.whole own) cut.lost
            (subst (λ t. IsToken (strip t)) (cc (cut.left.1, h.1)) valid))
    ]

    seal-Same :
        (token other : String) (w : host.World) (r : host.World × Bool)
        → IsToken token
        → IsToken (strip other)
        → host.write_text w path token ≡ r
        → (seal host path r).1 ≡ false
        → Holds other (seal host path r).0
        → Same w (seal host path r).0
    unfolding seal
    seal-Same token other w (v, true) own valid e ok h = absurd (cc ok)
    seal-Same token other w (v, false) own valid e ok h =
        let moved = ap (λ (r : host.World × Bool). r.0) e in
        let kept =
          write_text-Same token other w own valid (ap (λ (r : host.World × Bool). r.1) e) (
            ap (λ x. host.exists x path) moved ∙ h.0,
            ap (λ x. host.read_text x path) moved ∙ h.1,
          ) in
        (
          ap (λ x. host.exists x path) (sym moved) ∙ kept.0,
          (
            ap (λ x. host.read_text x path) (sym moved) ∙ kept.1.0,
            ap applied (sym moved) ∙ kept.1.1,
          ),
        )

    write_under-Same :
        (token other : String) (r : host.World × Bool)
        → IsToken token
        → IsToken (strip other)
        → (write_under host path token r).1 ≡ false
        → Holds other (write_under host path token r).0
        → Same r.0 (write_under host path token r).0
    unfolding write_under
    write_under-Same token other (w, true) own valid ok h =
        Same-trans w (tightened w) _ (tightened-Same w) (
          seal-Same token other (tightened w) (host.write_text (tightened w) path token) own valid
            refl ok h)
    write_under-Same token other (w, false) own valid ok h = (refl, (refl, refl))

    write_token-Holds :
        (w : host.World) (token : String)
        → (write_token host path w token).1 ≡ true
        → Holds token (write_token host path w token).0
    unfolding write_token
    write_token-Holds w token ok = write_under-Holds token (host.makedirs w (host.dirname path)) ok

    write_token-Same :
        (w : host.World) (token other : String)
        → IsToken token
        → IsToken (strip other)
        → (write_token host path w token).1 ≡ false
        → Holds other (write_token host path w token).0
        → Same w (write_token host path w token).0
    unfolding write_token
    write_token-Same w token other own valid ok h =
        let r = host.makedirs w (host.dirname path) in
        Same-trans w r.0 _ (laws.made w (host.dirname path))
          (write_under-Same token other r own valid ok h)

    read_unwritten_file :
        (w : host.World) (token other : String)
        → IsToken token
        → IsToken other
        → (write_token host path w token).1 ≡ false
        → read_token host path (write_token host path w token).0 ≡ contents other
        → (read_token host path w ≡ contents other)
          × (applied (write_token host path w token).0 ≡ applied w)
    read_unwritten_file w token other own valid ok h =
        let v = (write_token host path w token).0 in
        let file = read_token-Held other v valid h in
        let same =
          write_token-Same w token file.text own (subst IsToken (sym file.same) valid) ok
            file.holds in
        (sym (read_same w v same.0 same.1.0) ∙ h, same.1.1)

    applied_restarted_file :
        (w : host.World) (name token : String)
        → IsConnector name
        → (restart_container host path w name).1 ≡ none
        → IsToken token
        → read_token host path w ≡ contents token
        → applied (restart_container host path w name).0 ≡ some token
    unfolding restart_container
    applied_restarted_file w name token own ok valid h =
        let file = read_token-Held token w valid h in
        laws.restarted w name file.text own ok file.holds ∙ ap some file.same

    read_restarted_file :
        (w : host.World) (name : String)
        → read_token host path (restart_container host path w name).0 ≡ read_token host path w
    unfolding restart_container
    read_restarted_file w name =
        let same = laws.requested w ("/containers/" <> name <> "/restart") "POST" in
        read_same w _ same.0 same.1

    -- The token file and the restart over the Docker client satisfy what an activation relies on, if
    -- the host behaves as `HostLaws` says: a write that fails leaves the file as it was or a part of the
    -- text without its end, which is no token; and a restart that Docker reports as done, requested for
    -- the connector's own container, makes the connector run on the stripped text of the file.
    pub file_connector-Laws : Laws (file_connector host path) applied IsToken IsConnector
    file_connector-Laws = record {
      read_written = λ w token valid ok.
          read_holds token (write_token host path w token).0 (write_token-Holds w token ok)
          ∙ ap contents (laws.stripped token valid);
      read_unwritten = read_unwritten_file;
      read_restarted = read_restarted_file;
      applied_restarted = applied_restarted_file;
    }
