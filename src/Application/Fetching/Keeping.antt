-- ===== src/Application/Fetching/Keeping.antt =====
-- tunnel_sync/application/sync.py: what `fetch_dns` leaves as it is.
use cf_docker_tunnel_sync.Base.{
  String, Bool, true, false, not, Option, none, some, List, [], ◌∷◌, ◌≡◌, ◌∙◌, inl, inr, Bool-cases,
  if◌then◌else◌,
}
use cf_docker_tunnel_sync.Base.Lists.{any}
use cf_docker_tunnel_sync.Base.Dict.{Dict}
use cf_docker_tunnel_sync.Domain.Models.{DnsRecord}
use cf_docker_tunnel_sync.Domain.Hostnames.{normalize_hostname}
use cf_docker_tunnel_sync.Application.Fetching.{
  Query, all_cname, with_content, with_name, Reader, Fetched, is_covered, is_empty, add_answer,
  read_into, and_then, read_host, read_hosts, read_uncovered, complete, seed, batch, batch_from,
  per_host, or_per_host, fetch_dns,
}

-- `R` is what reads leave as it is.
module _ (reader : Reader) {R : Type 0} (remote : reader.World → R)
    (keeps : (w : reader.World) (query : Query) → remote (reader.read w query).0 ≡ remote w)
    (r : R) where
  abbrev Stays : Fetched reader → Type 0
  Stays f = remote f.0 ≡ r

  add_answer-Stays :
      (records : Dict DnsRecord) (a : reader.World × Option (List DnsRecord))
      → remote a.0 ≡ r
      → Stays (add_answer reader records a)
  unfolding add_answer
  add_answer-Stays records (w, none) h = h
  add_answer-Stays records (w, some recs) h = h

  read_into-Stays :
      (query : Query) (records : Dict DnsRecord) (w : reader.World)
      → remote w ≡ r
      → Stays (read_into reader query records w)
  unfolding read_into
  read_into-Stays query records w h = add_answer-Stays records _ (keeps w query ∙ h)

  and_then-Stays :
      (f : Fetched reader) (g : Dict DnsRecord → reader.World → Fetched reader)
      → Stays f
      → ((records : Dict DnsRecord) (w : reader.World) → remote w ≡ r → Stays (g records w))
      → Stays (and_then reader f g)
  unfolding and_then
  and_then-Stays (w, none) g h k = h
  and_then-Stays (w, some records) g h k = k records w h

  read_host-Stays :
      (o : Option String) (records : Dict DnsRecord) (w : reader.World)
      → remote w ≡ r
      → Stays (read_host reader o records w)
  unfolding read_host
  read_host-Stays none records w h = h
  read_host-Stays (some host) records w h = read_into-Stays (with_name host) records w h

  read_hosts-Stays :
      (services : List (Option String)) (records : Dict DnsRecord) (w : reader.World)
      → remote w ≡ r
      → Stays (read_hosts reader services records w)
  unfolding read_hosts
  read_hosts-Stays [] records w h = h
  read_hosts-Stays (s ∷ services) records w h =
      and_then-Stays _ (read_hosts reader services)
        (read_host-Stays (normalize_hostname s) records w h) (read_hosts-Stays services)

  read_uncovered-Stays :
      (services : List (Option String)) (records : Dict DnsRecord) (w : reader.World)
      → remote w ≡ r
      → Stays (read_uncovered reader services records w)
  unfolding read_uncovered
  read_uncovered-Stays [] records w h = h
  read_uncovered-Stays (s ∷ services) records w h =
      and_then-Stays
        (if is_covered (normalize_hostname s) records
          then (w, some records)
          else read_host reader (normalize_hostname s) records w)
        (read_uncovered reader services)
        (elim (Bool-cases (is_covered (normalize_hostname s) records)) [
          | inl e ↦ rw e h
          | inr e ↦ rw e (read_host-Stays (normalize_hostname s) records w h)
        ])
        (read_uncovered-Stays services)

  seed-Stays :
      (t : String) (records : Dict DnsRecord) (w : reader.World)
      → remote w ≡ r
      → Stays (seed reader t records w)
  unfolding seed
  seed-Stays t records w h = elim (Bool-cases (is_empty records)) [
    | inl e ↦ rw e (read_into-Stays (with_content t) records w h)
    | inr e ↦ rw e h
  ]

  complete-Stays :
      (services : List (Option String)) (records : Dict DnsRecord) (w : reader.World)
      → remote w ≡ r
      → Stays (complete reader services records w)
  unfolding complete
  complete-Stays services records w h =
      branch (any (λ s. not (is_covered (normalize_hostname s) records)) services)
    where
      branch :
          (b : Bool)
          → Stays (if b then read_uncovered reader services records w else (w, some records))
      branch true = read_uncovered-Stays services records w h
      branch false = h

  or_per_host-Stays :
      (t : String) (services : List (Option String)) (f : Fetched reader)
      → Stays f
      → Stays (or_per_host reader t services f)
  unfolding or_per_host per_host
  or_per_host-Stays t services (w, some records) h = h
  or_per_host-Stays t services (w, none) h =
      and_then-Stays _ (read_hosts reader services) (read_into-Stays (with_content t) [] w h)
        (read_hosts-Stays services)

  -- Reads that keep something, whether they fail or not, keep it in `fetch_dns`.
  pub fetch_dns-keeps :
      (t : String) (services : List (Option String)) (w : reader.World)
      → remote w ≡ r
      → remote (fetch_dns reader t services w).0 ≡ r
  unfolding fetch_dns batch batch_from
  fetch_dns-keeps t services w h = or_per_host-Stays t services _ (
      and_then-Stays _ _ (add_answer-Stays [] _ (keeps w all_cname ∙ h)) (λ records w' h'.
        and_then-Stays _ (complete reader services) (seed-Stays t _ w' h')
          (complete-Stays services)))
