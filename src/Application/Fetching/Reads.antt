-- ===== src/Application/Fetching/Reads.antt =====
-- tunnel_sync/application/sync.py: what the reads of `fetch_dns` add at an id.
use cf_docker_tunnel_sync.Base.{
  String, subst, Bool, false, not, ◌||◌, Option, none, some, List, [], ◌∷◌, ◌≡◌, ◌∙◌, refl, ap, inl,
  inr, ◌⊎◌, arith, Bool-cases, if◌then◌else◌,
}
use cf_docker_tunnel_sync.Base.Lists.{keep, any}
use cf_docker_tunnel_sync.Base.Dict.{Dict, lookup, lookup-nil, first_some}
use cf_docker_tunnel_sync.Domain.Models.{DnsRecord, or_default, is_text}
use cf_docker_tunnel_sync.Domain.Hostnames.{normalize_hostname}
use cf_docker_tunnel_sync.Application.Fetching.{
  all_cname, with_content, with_name, Reader, add_records, is_covered, is_empty, Fetched,
  add_answer, read_into, and_then, read_host, read_hosts, read_uncovered, complete, seed, per_host,
}
use cf_docker_tunnel_sync.Application.Fetching.Lookups.{
  find, UniqueIds, passes, pick, find-keep, keep-UniqueIds, lookup-add_records,
}

-- The server's answers for a zone with these CNAME records: the list of all of them may fail, a query
-- by content or by name gives those that have it.
pub record Serves (reader : Reader) (cnames : List DnsRecord) : Type 0 where
  pub answers_all :
      (w : reader.World)
      → ((reader.read w all_cname).1 ≡ none) ⊎ ((reader.read w all_cname).1 ≡ some cnames)
  pub answers_content :
      (w : reader.World) (t : String)
      → (reader.read w (with_content t)).1 ≡ some (keep (λ rec. is_text rec.content t) cnames)
  pub answers_name :
      (w : reader.World) (h : String)
      → (reader.read w (with_name h)).1 ≡ some (keep (λ rec. is_text rec.name h) cnames)

-- The result holds the record found at the id, or nothing.
abbrev pub Holds : String → Option DnsRecord → Option (Dict DnsRecord) → Type 0
Holds id o none = ⊥
Holds id o (some records) = lookup id records ≡ o

first_some-pick :
    (a b : Bool) (o : Option DnsRecord) → first_some (pick a o) (pick b o) ≡ pick (b || a) o
first_some-pick a b none = ground arith
first_some-pick a b (some rec) = ground arith

-- The name is that host.
abbrev pub is_named : Option String → Option String → Bool
is_named name none = false
is_named name (some host) = is_text name host

abbrev pub named : Option DnsRecord → Option String → Bool
named o host = passes (λ rec. is_named rec.name host) o

unfoldable pub named_by : Option DnsRecord → List (Option String) → Bool
named_by o [] = false
named_by o (hostname ∷ services) = named o (normalize_hostname hostname) || named_by o services

named_none : (o : Option DnsRecord) → named o none ≡ false
named_none none = refl
named_none (some rec) = refl

or_false : (b : Bool) → (b || false) ≡ b
or_false b = ground arith

or_assoc : (a b c : Bool) → (a || (b || c)) ≡ ((a || b) || c)
or_assoc a b c = ground arith

absorbs_both : (a b c : Bool) → (a || (b || c)) ≡ a → ((a || b) ≡ a) × ((a || c) ≡ a)
absorbs_both a b c h = (ground arith, ground arith)

module _ (reader : Reader) (cnames : List DnsRecord) (serves : Serves reader cnames)
    (unique : UniqueIds cnames) (id : String) where
  abbrev pub z : Option DnsRecord
  z = find id cnames

  add_answer-Holds :
      (p : DnsRecord → Bool) (b : Bool) (d : Dict DnsRecord)
      (a : reader.World × Option (List DnsRecord))
      → a.1 ≡ some (keep p cnames)
      → lookup id d ≡ pick b z
      → Holds id (pick (b || passes p z) z) (add_answer reader d a).1
  unfolding add_answer
  add_answer-Holds p b d (w, none) h e = absurd (cc h)
  add_answer-Holds p b d (w, some recs) h e =
      ap (λ r. lookup id (add_records (or_default r []) d)) h
      ∙ lookup-add_records id (keep p cnames) d (keep-UniqueIds p cnames unique)
      ∙ rw (find-keep p id cnames unique, e) (first_some-pick (passes p z) b z)

  pub and_then-Holds :
      (o q : Option DnsRecord) (f : Fetched reader)
      (g : Dict DnsRecord → reader.World → Fetched reader)
      → Holds id o f.1
      → ((d : Dict DnsRecord) (w : reader.World) → lookup id d ≡ o → Holds id q (g d w).1)
      → Holds id q (and_then reader f g).1
  unfolding and_then
  and_then-Holds o q (w, none) g h k = absurd h
  and_then-Holds o q (w, some d) g h k = k d w h

  read_host-Holds :
      (b : Bool) (host : Option String) (d : Dict DnsRecord) (w : reader.World)
      → lookup id d ≡ pick b z
      → Holds id (pick (b || named z host) z) (read_host reader host d w).1
  unfolding read_host read_into
  read_host-Holds b none d w e = rw (named_none z, or_false b) e
  read_host-Holds b (some host) d w e =
      add_answer-Holds (λ rec. is_text rec.name host) b d _ (serves.answers_name w host) e

  read_hosts-Holds :
      (b : Bool) (services : List (Option String)) (d : Dict DnsRecord) (w : reader.World)
      → lookup id d ≡ pick b z
      → Holds id (pick (b || named_by z services) z) (read_hosts reader services d w).1
  unfolding read_hosts named_by
  read_hosts-Holds b [] d w e = ground (arith, e)
  read_hosts-Holds b (hostname ∷ services) d w e =
      let host = normalize_hostname hostname in
      and_then-Holds _ _ (read_host reader host d w) (read_hosts reader services)
        (read_host-Holds b host d w e)
        (λ d' w' e'.
          rw (or_assoc b (named z host) (named_by z services))
            (read_hosts-Holds (b || named z host) services d' w' e'))

  read_uncovered-Holds :
      (b : Bool) (services : List (Option String)) (d : Dict DnsRecord) (w : reader.World)
      → (b || named_by z services) ≡ b
      → lookup id d ≡ pick b z
      → Holds id (pick b z) (read_uncovered reader services d w).1
  unfolding read_uncovered named_by
  read_uncovered-Holds b [] d w absorbs e = e
  read_uncovered-Holds b (hostname ∷ services) d w absorbs e =
      let host = normalize_hostname hostname in
      let both = absorbs_both b (named z host) (named_by z services) absorbs in
      and_then-Holds _ _ (if is_covered host d then (w, some d) else read_host reader host d w)
        (read_uncovered reader services)
        (elim (Bool-cases (is_covered host d)) [
          | inl h ↦ rw h e
          | inr h ↦ rw h (
              subst (λ c. Holds id (pick c z) (read_host reader host d w).1) both.0
                (read_host-Holds b host d w e))
        ])
        (λ d' w' e'. read_uncovered-Holds b services d' w' both.1 e')

  pub seed-Holds :
      (b : Bool) (t : String) (d : Dict DnsRecord) (w : reader.World)
      → (b || passes (λ rec. is_text rec.content t) z) ≡ b
      → lookup id d ≡ pick b z
      → Holds id (pick b z) (seed reader t d w).1
  unfolding seed read_into
  seed-Holds b t d w absorbs e = elim (Bool-cases (is_empty d)) [
    | inl h ↦ rw h (
        subst (λ c. Holds id (pick c z) (read_into reader (with_content t) d w).1) absorbs
          (add_answer-Holds (λ rec. is_text rec.content t) b d _ (serves.answers_content w t) e))
    | inr h ↦ rw h e
  ]

  -- The two ways.
  pub per_host-Holds :
      (t : String) (services : List (Option String)) (w : reader.World)
      → Holds id
          (pick (passes (λ rec. is_text rec.content t) z || named_by z services) z)
          (per_host reader t services w).1
  unfolding per_host read_into
  per_host-Holds t services w =
      and_then-Holds _ _ (add_answer reader [] (reader.read w (with_content t)))
        (read_hosts reader services)
        (add_answer-Holds (λ rec. is_text rec.content t) false [] _ (serves.answers_content w t)
          (lookup-nil id))
        (λ d w' e. read_hosts-Holds _ services d w' e)

  pub complete-Holds :
      (b : Bool) (services : List (Option String)) (d : Dict DnsRecord) (w : reader.World)
      → (b || named_by z services) ≡ b
      → lookup id d ≡ pick b z
      → Holds id (pick b z) (complete reader services d w).1
  unfolding complete
  complete-Holds b services d w absorbs e =
      elim (Bool-cases
        (any (λ hostname. not (is_covered (normalize_hostname hostname) d)) services)) [
          | inl h ↦ rw h (read_uncovered-Holds b services d w absorbs e)
          | inr h ↦ rw h e
        ]
