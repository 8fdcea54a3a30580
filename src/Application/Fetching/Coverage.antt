-- ===== src/Application/Fetching/Coverage.antt =====
-- tunnel_sync/application/sync.py: what `fetch_dns` gives, on either of its ways.
use cf_docker_tunnel_sync.Base.{
  String, Bool, false, ◌||◌, Option, none, some, List, [], ◌∷◌, ◌≡◌, ◌∙◌, refl, ap, inl, inr, ◌⊎◌,
  arith,
}
use cf_docker_tunnel_sync.Base.Lists.{All}
use cf_docker_tunnel_sync.Base.Dict.{Dict, lookup, lookup-nil, first_some}
use cf_docker_tunnel_sync.Domain.Models.{DnsRecord, or_default, is_text}
use cf_docker_tunnel_sync.Domain.Hostnames.{normalize_hostname}
use cf_docker_tunnel_sync.Application.Fetching.{
  all_cname, Reader, add_records, wanted_hosts, contains_some, is_relevant, keep_values, Fetched,
  add_answer, read_into, and_then, complete, seed, batch, batch_from, per_host, or_per_host,
  fetch_dns,
}
use cf_docker_tunnel_sync.Application.Fetching.Lookups.{
  find, UniqueIds, passes, pick, find-All, lookup-add_records, lookup-keep_values,
  add_records-NodupKeys,
}
use cf_docker_tunnel_sync.Application.Fetching.Reads.{
  Serves, Holds, is_named, named_by, and_then-Holds, per_host-Holds, complete-Holds, seed-Holds,
}

-- The names of the records are normalized.
abbrev pub NormalNames : List DnsRecord → Type 0
NormalNames = All (λ rec. normalize_hostname rec.name ≡ rec.name)

-- There is a result, and it holds at each id what the other dict holds.
abbrev pub Gives : Option (Dict DnsRecord) → Dict DnsRecord → Type 0
Gives none expected = ⊥
Gives (some records) expected = (id : String) → lookup id records ≡ lookup id expected

-- The records of the zone that concern the tunnel or a service.
abbrev pub relevant_records : String → List (Option String) → List DnsRecord → Dict DnsRecord
relevant_records target_cname services cnames =
    keep_values (is_relevant target_cname (wanted_hosts services)) (add_records cnames [])

named_by-none : (services : List (Option String)) → named_by none services ≡ false
unfolding named_by
named_by-none [] = refl
named_by-none (hostname ∷ services) = named_by-none services

contains_some-add :
    (name host : Option String) (hosts : List String) (rest : Bool)
    → contains_some hosts name ≡ rest
    → contains_some (elim host [ none ↦ hosts | some h ↦ h ∷ hosts ]) name
      ≡ (is_named name host || rest)
contains_some-add name none hosts rest e = e
contains_some-add none (some h) hosts rest e = e
contains_some-add (some n) (some h) hosts rest e = ground (arith, e)

wanted_hosts-named_by :
    (rec : DnsRecord) (services : List (Option String))
    → contains_some (wanted_hosts services) rec.name ≡ named_by (some rec) services
unfolding wanted_hosts named_by
wanted_hosts-named_by rec [] = none_wanted rec.name
  where
    none_wanted : (name : Option String) → contains_some [] name ≡ false
    none_wanted none = refl
    none_wanted (some h) = refl
wanted_hosts-named_by rec (hostname ∷ services) =
    contains_some-add rec.name (normalize_hostname hostname) (wanted_hosts services) _
      (wanted_hosts-named_by rec services)

relevant-cases :
    (t : String) (services : List (Option String)) (cnames : List DnsRecord) (id : String)
    (o : Option DnsRecord)
    → NormalNames cnames
    → find id cnames ≡ o
    → passes (is_relevant t (wanted_hosts services)) o
      ≡ (passes (λ rec. is_text rec.content t) o || named_by o services)
unfolding is_relevant
relevant-cases t services cnames id none n e = rw (named_by-none services) refl
relevant-cases t services cnames id (some rec) n e =
    rw
      (
        find-All (λ r. normalize_hostname r.name ≡ r.name) id cnames rec n e,
        wanted_hosts-named_by rec services,
      )
      refl

gives :
    (o : Option (Dict DnsRecord)) (expected : Dict DnsRecord)
    → ((id : String) → Holds id (lookup id expected) o)
    → Gives o expected
gives none expected h = h ""
gives (some records) expected h = h

add_records-first :
    (id : String) (recs : List DnsRecord)
    → UniqueIds recs
    → lookup id (add_records recs []) ≡ find id recs
add_records-first id recs u =
    lookup-add_records id recs [] u ∙ rw (lookup-nil id) (or_nothing (find id recs))
  where
    or_nothing : (o : Option DnsRecord) → first_some o none ≡ o
    or_nothing none = refl
    or_nothing (some rec) = refl

lookup-kept :
    (id : String) (p : DnsRecord → Bool) (recs : List DnsRecord)
    → UniqueIds recs
    → lookup id (keep_values p (add_records recs []))
      ≡ pick (passes p (find id recs)) (find id recs)
lookup-kept id p recs u =
    lookup-keep_values p id (add_records recs []) (add_records-NodupKeys recs [] tt)
    ∙ rw (add_records-first id recs u) refl

absorbs : (a b c : Bool) → c ≡ (a || b) → ((c || a) ≡ c) × ((c || b) ≡ c)
absorbs a b c h = (ground arith, ground arith)

module _ (reader : Reader) (cnames : List DnsRecord) (serves : Serves reader cnames)
    (unique : UniqueIds cnames) (normal : NormalNames cnames) (t : String)
    (services : List (Option String)) where
  module _ (id : String) where
    abbrev relevant : Bool
    relevant = passes (is_relevant t (wanted_hosts services)) (find id cnames)

    relevant-same : relevant ≡ (
        passes (λ rec. is_text rec.content t) (find id cnames)
        || named_by (find id cnames) services)
    relevant-same = relevant-cases t services cnames id (find id cnames) normal refl

    batch_rest-Holds :
        (w : reader.World) (recs : List DnsRecord)
        → recs ≡ cnames
        → Holds id
            (pick relevant (find id cnames))
            (and_then reader
              (seed reader t
                (keep_values (is_relevant t (wanted_hosts services)) (add_records recs []))
                w)
              (complete reader services)).1
    batch_rest-Holds w recs e =
        let kept = keep_values (is_relevant t (wanted_hosts services)) (add_records recs []) in
        let absorbed = absorbs _ _ relevant relevant-same in
        and_then-Holds reader cnames serves unique id _ _ (seed reader t kept w)
          (complete reader services)
          (seed-Holds reader cnames serves unique id relevant t kept w absorbed.0 (
            ap
              (λ r.
                lookup id (keep_values (is_relevant t (wanted_hosts services)) (add_records r [])))
              e
            ∙ lookup-kept id (is_relevant t (wanted_hosts services)) cnames unique))
          (λ d w' h.
            complete-Holds reader cnames serves unique id relevant services d w' absorbed.1 h)

    batch_from-Holds :
        (a : reader.World × Option (List DnsRecord))
        → (a.1 ≡ none) ⊎ (a.1 ≡ some cnames)
        → ((batch_from reader t services a).1 ≡ none)
          ⊎ Holds id (pick relevant (find id cnames)) (batch_from reader t services a).1
    unfolding batch_from and_then add_answer
    batch_from-Holds (w, none) h = inl refl
    batch_from-Holds (w, some recs) (inl h) = absurd (cc h)
    batch_from-Holds (w, some recs) (inr h) =
        inr (batch_rest-Holds w recs (ap (λ o. or_default o []) h))

    or_per_host-Holds :
        (q : Option DnsRecord) (f : Fetched reader)
        → (f.1 ≡ none) ⊎ Holds id q f.1
        → ((w : reader.World) → Holds id q (per_host reader t services w).1)
        → Holds id q (or_per_host reader t services f).1
    unfolding or_per_host
    or_per_host-Holds q (w, none) h k = k w
    or_per_host-Holds q (w, some d) (inl h) k = absurd (cc h)
    or_per_host-Holds q (w, some d) (inr h) k = h

    fetch_dns-Holds :
        (w : reader.World)
        → Holds id (pick relevant (find id cnames)) (fetch_dns reader t services w).1
    unfolding fetch_dns batch read_into
    fetch_dns-Holds w =
        or_per_host-Holds _ (batch reader t services w)
          (batch_from-Holds (reader.read w all_cname) (serves.answers_all w))
          (λ w'. rw relevant-same (per_host-Holds reader cnames serves unique id t services w'))

  -- Let a zone's CNAME records have different ids and normalized names, let the queries by content and
  -- by name answer with the records that have it, and the query for all either fail or answer with all.
  -- Then `fetch_dns` returns, and what it returns holds at each id what the zone's records hold that
  -- point to the tunnel or bear the normalized hostname of a service: the batch and the fallback agree.
  pub fetch_dns-Gives :
      (w : reader.World)
      → Gives (fetch_dns reader t services w).1 (relevant_records t services cnames)
  fetch_dns-Gives w = gives _ _ (λ id.
      rw (lookup-kept id (is_relevant t (wanted_hosts services)) cnames unique)
        (fetch_dns-Holds id w))
