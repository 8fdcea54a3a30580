-- ===== src/Domain/Ingress.antt =====
-- tunnel_sync/domain/ingress.py: `merge_ingress`.
pub mod Roots
pub mod Serving
pub mod Fallback
use cf_docker_tunnel_sync.Base.{
  String, Bool, true, false, not, ◌||◌, Option, none, some, List, [], ◌∷◌, ◌++◌, ◌==◌,
  if◌then◌else◌,
}
use cf_docker_tunnel_sync.Base.Lists.{any, contains}
use cf_docker_tunnel_sync.Base.Dict.{Dict, lookup, insert, erase, update, keys}
use cf_docker_tunnel_sync.Base.Json.{Json, truthy?}
use cf_docker_tunnel_sync.Base.Sort.{sorted}
use cf_docker_tunnel_sync.Domain.Models.{Rule}

unfoldable pub as_text : Option Json → String
as_text (some (Json.text s)) = s
as_text _ = ""

-- `rule.get("hostname")`, with "" for a missing or null hostname
unfoldable pub hostname_of : Rule → String
hostname_of rule = as_text (lookup "hostname" rule)

-- `not rule.get("hostname")`
abbrev pub is_fallback : Rule → Bool
is_fallback rule = hostname_of rule == ""

-- `rule.get("path")` is true
unfoldable pub has_path : Rule → Bool
has_path rule = truthy? (lookup "path" rule)

-- `{rule["hostname"]: rule for rule in desired_roots}`; each of these rules has a hostname.
unfoldable pub by_hostname : List Rule → Dict Rule → Dict Rule
by_hostname [] pending = pending
by_hostname (rule ∷ rules) pending = by_hostname rules (insert (hostname_of rule) rule pending)

unfoldable pub some_rule : Option Rule → List Rule
some_rule none = []
some_rule (some rule) = rule ∷ []

-- `pending[host] for host in hosts`
unfoldable pub in_order : List String → Dict Rule → List Rule
in_order [] pending = []
in_order (host ∷ hosts) pending = some_rule (lookup host pending) ++ in_order hosts pending

-- The pending rules by sorted hostname.
unfoldable pub flush : Dict Rule → List Rule
flush pending = in_order (sorted (keys pending)) pending

-- The old rule without its "originRequest", updated by the desired rule.
unfoldable pub replacement : Rule → Rule → Rule
replacement original desired = update (erase "originRequest" original) desired

unfoldable pub replaced : Rule → Option Rule → List Rule
replaced original none = []
replaced original (some desired) = replacement original desired ∷ []

-- The loop over the existing rules, with `pending` and `seen`, and what follows it up to the test
-- for a fallback.
unfoldable pub merge_loop : List Rule → Dict Rule → List String → List Rule
merge_loop [] pending seen = flush pending
merge_loop (original ∷ rules) pending seen =
    let at_fallback = flush pending ++ (original ∷ merge_loop rules [] seen) in
    let kept = original ∷ merge_loop rules pending seen in
    let host = hostname_of original in
    let first_root =
      replaced original (lookup host pending)
      ++ merge_loop rules (erase host pending) (host ∷ seen) in
    if is_fallback original
    then at_fallback
    else if has_path original || contains seen host
    then kept
    else first_root

abbrev pub not_found_rule : Rule
not_found_rule = ("service", Json.text "http_status:404") ∷ []

-- The last test of `merge_ingress`.
unfoldable pub with_fallback : List Rule → List Rule
with_fallback rules = if any is_fallback rules then rules else rules ++ not_found_rule ∷ []

unfoldable pub merge_ingress : List Rule → List Rule → List Rule
merge_ingress existing desired = with_fallback (merge_loop existing (by_hostname desired []) [])
