-- ===== src/Application/Fetching.antt =====
-- tunnel_sync/application/sync.py: `RemoteFetcher.fetch_dns`. Cloudflare is a state that reads may
-- change; a read fails or gives a list of records. The zone, the domain and the token are part of it.
pub mod Lookups
pub mod Reads
pub mod Coverage
pub mod Keeping
use cf_docker_tunnel_sync.Base.{
  String, Bool, true, false, not, ◌||◌, Option, none, some, List, [], ◌∷◌, ◌==◌, if◌then◌else◌,
}
use cf_docker_tunnel_sync.Base.Lists.{any, contains}
use cf_docker_tunnel_sync.Base.Dict.{Dict, insert, values}
use cf_docker_tunnel_sync.Domain.Models.{DnsRecord, or_default, is_text}
use cf_docker_tunnel_sync.Domain.Hostnames.{normalize_hostname}

-- What is read of the CNAME records: all, those with a content, or those with a name.
pub data Query : Type 0 where
  all_cname : Query
  with_content with_name : String → Query

-- `CloudflareReader.read` of the records of the zone.
pub record Reader : Type 1 where
  pub World : Type 0
  pub read : World → Query → World × Option (List DnsRecord)

-- `records[rec["id"]] = rec` for the records that have an id.
unfoldable pub add_records : List DnsRecord → Dict DnsRecord → Dict DnsRecord
add_records [] records = records
add_records (rec ∷ recs) records =
    let id = or_default rec.id "" in
    add_records recs (if id == "" then records else insert id rec records)

-- `wanted`
unfoldable pub wanted_hosts : List (Option String) → List String
wanted_hosts [] = []
wanted_hosts (hostname ∷ services) = elim (normalize_hostname hostname) [
  | none ↦ wanted_hosts services
  | some host ↦ host ∷ wanted_hosts services
]

abbrev pub contains_some : List String → Option String → Bool
contains_some hosts none = false
contains_some hosts (some h) = contains hosts h

-- The record points to the tunnel, or its name is wanted.
unfoldable pub is_relevant : String → List String → DnsRecord → Bool
is_relevant target_cname wanted rec =
    is_text rec.content target_cname || contains_some wanted (normalize_hostname rec.name)

-- The entries whose record passes the test.
unfoldable pub keep_values : (DnsRecord → Bool) → Dict DnsRecord → Dict DnsRecord
keep_values p [] = []
keep_values p ((rid, rec) ∷ records) =
    let rest = keep_values p records in if p rec then (rid, rec) ∷ rest else rest

abbrev pub same_host : Option String → Option String → Bool
same_host none none = true
same_host (some h) (some k) = h == k
same_host _ _ = false

-- Whether the host is the normalized name of a record.
unfoldable pub is_covered : Option String → Dict DnsRecord → Bool
is_covered host records = any (λ rec. same_host host (normalize_hostname rec.name)) (values records)

abbrev pub is_empty : Dict DnsRecord → Bool
is_empty [] = true
is_empty _ = false

module _ (reader : Reader) where
  abbrev pub Fetched : Type 0
  Fetched = reader.World × Option (Dict DnsRecord)

  unfoldable pub add_answer : Dict DnsRecord → reader.World × Option (List DnsRecord) → Fetched
  add_answer records (w, none) = (w, none)
  add_answer records (w, some recs) = (w, some (add_records recs records))

  unfoldable pub read_into : Query → Dict DnsRecord → reader.World → Fetched
  read_into query records w = add_answer records (reader.read w query)

  unfoldable pub and_then : Fetched → (Dict DnsRecord → reader.World → Fetched) → Fetched
  and_then (w, none) f = (w, none)
  and_then (w, some records) f = f records w

  -- A read by the name of a service, if the service has a valid hostname.
  unfoldable pub read_host : Option String → Dict DnsRecord → reader.World → Fetched
  read_host none records w = (w, some records)
  read_host (some host) records w = read_into (with_name host) records w

  unfoldable pub read_hosts : List (Option String) → Dict DnsRecord → reader.World → Fetched
  read_hosts [] records w = (w, some records)
  read_hosts (hostname ∷ services) records w =
      and_then (read_host (normalize_hostname hostname) records w) (read_hosts services)

  -- The same, for the services that no record covers.
  unfoldable pub read_uncovered : List (Option String) → Dict DnsRecord → reader.World → Fetched
  read_uncovered [] records w = (w, some records)
  read_uncovered (hostname ∷ services) records w =
      let host = normalize_hostname hostname in
      and_then (if is_covered host records then (w, some records) else read_host host records w)
        (read_uncovered services)

  unfoldable pub complete : List (Option String) → Dict DnsRecord → reader.World → Fetched
  complete services records w =
      if any (λ hostname. not (is_covered (normalize_hostname hostname) records)) services
      then read_uncovered services records w
      else (w, some records)

  unfoldable pub seed : String → Dict DnsRecord → reader.World → Fetched
  seed target_cname records w =
      if is_empty records
      then read_into (with_content target_cname) records w
      else (w, some records)

  -- The `try` block after the batch is read.
  unfoldable pub batch_from :
      String → List (Option String) → reader.World × Option (List DnsRecord) → Fetched
  batch_from target_cname services answer = and_then (add_answer [] answer) (λ records w.
      let kept = keep_values (is_relevant target_cname (wanted_hosts services)) records in
      and_then (seed target_cname kept w) (complete services))

  -- The `try` block.
  unfoldable pub batch : String → List (Option String) → reader.World → Fetched
  batch target_cname services w = batch_from target_cname services (reader.read w all_cname)

  -- The `except` block.
  unfoldable pub per_host : String → List (Option String) → reader.World → Fetched
  per_host target_cname services w =
      and_then (read_into (with_content target_cname) [] w) (read_hosts services)

  unfoldable pub or_per_host : String → List (Option String) → Fetched → Fetched
  or_per_host target_cname services (w, none) = per_host target_cname services w
  or_per_host target_cname services (w, some records) = (w, some records)

  -- `fetch_dns`; of the services, their "hostname" is read. No result: a read of the fallback raised.
  unfoldable pub fetch_dns : String → List (Option String) → reader.World → Fetched
  fetch_dns target_cname services w =
      or_per_host target_cname services (batch target_cname services w)
