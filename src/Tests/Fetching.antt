-- ===== src/Tests/Fetching.antt =====
-- A zone with three records, whose list of all CNAME records cannot be read the first time.
use cf_docker_tunnel_sync.Base.{
  ℕ, suc, ◌=ℕ◌, if◌then◌else◌, String, true, ◌≡◌, refl, some, none, inl, inr, Option, List, [], ◌∷◌,
  string_dec, Bool-cases,
}
use cf_docker_tunnel_sync.Base.Lists.{keep}
use cf_docker_tunnel_sync.Base.Dict.{lookup, insert}
use cf_docker_tunnel_sync.Base.Text.{strip, lower, before, after?, text_length}
use cf_docker_tunnel_sync.Domain.Models.{DnsRecord, is_text}
use cf_docker_tunnel_sync.Domain.Hostnames.{
  scheme_cut, host_part, rstrip_dots, split_dots, is_alnum, ends_alnum, matches_body, chop_newline,
  matches_label, is_label, all_labels, are_labels, checked, normalize_text, normalize_hostname,
}
use cf_docker_tunnel_sync.Application.Fetching.{
  Query, all_cname, with_content, with_name, Reader, add_records, wanted_hosts, is_relevant,
  keep_values, fetch_dns,
}
use cf_docker_tunnel_sync.Application.Fetching.Lookups.{find, UniqueIds}
use cf_docker_tunnel_sync.Application.Fetching.Reads.{Serves}
use cf_docker_tunnel_sync.Application.Fetching.Coverage.{
  NormalNames, Gives, relevant_records, fetch_dns-Gives,
}

abbrev cname : String → String → String → DnsRecord
cname id name content = record {
  name = some name;
  id = some id;
  rec_type = some "CNAME";
  content = some content;
  comment = none;
  proxied = some true;
  ttl = some 1;
}

abbrev zone : List DnsRecord
zone =
    cname "r1" "app.example.com" "t1.cfargotunnel.com"
    ∷ cname "r2" "web.example.com" "other.example.net"
    ∷ cname "r3" "mail.example.com" "mx.example.net"
    ∷ []

-- The state counts the reads.
abbrev answer : ℕ → Query → Option (List DnsRecord)
answer n all_cname = if n =ℕ 0 then none else some zone
answer n (with_content t) = some (keep (λ rec. is_text rec.content t) zone)
answer n (with_name h) = some (keep (λ rec. is_text rec.name h) zone)

abbrev reader : Reader
reader = record { World = ℕ; read = λ n query. (suc n, answer n query) }

serves : Serves reader zone
serves = record {
  answers_all =
      λ n. elim (Bool-cases (n =ℕ 0)) [ inl e ↦ rw e (inl refl) | inr e ↦ rw e (inr refl) ];
  answers_content = λ n t. refl;
  answers_name = λ n h. refl;
}

abbrev services : List (Option String)
services = some "https://Web.Example.com/" ∷ none ∷ []

ids : UniqueIds zone
unfolding find string_dec
ids = (refl, (refl, (refl, tt)))

names : NormalNames zone
unfolding normalize_hostname normalize_text checked strip host_part scheme_cut before after?
    rstrip_dots lower split_dots are_labels is_label matches_label matches_body ends_alnum is_alnum
    chop_newline all_labels text_length string_dec
names = (refl, (refl, (refl, tt)))

fetch_dns-Gives_example :
    Gives
      (fetch_dns reader "t1.cfargotunnel.com" services 0).1
      (relevant_records "t1.cfargotunnel.com" services zone)
fetch_dns-Gives_example =
    fetch_dns-Gives reader zone serves ids names "t1.cfargotunnel.com" services 0

-- The record that no service names and that points elsewhere is left out.
left_out : lookup "r3" (relevant_records "t1.cfargotunnel.com" services zone) ≡ none
unfolding lookup insert add_records keep_values is_relevant wanted_hosts normalize_hostname
    normalize_text checked strip host_part scheme_cut before after? rstrip_dots lower split_dots
    are_labels is_label matches_label matches_body ends_alnum is_alnum chop_newline all_labels
    text_length string_dec
left_out = refl
