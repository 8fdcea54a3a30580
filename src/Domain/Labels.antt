-- ===== src/Domain/Labels.antt =====
-- tunnel_sync/domain/labels.py: `LABEL_PRECEDENCE`, `first_label`, `has_tunnel_labels` and
-- `parse_origin_labels`. Labels are texts, as Docker gives them.
pub mod Recognition
pub mod Parsing
use cf_docker_tunnel_sync.Base.{
  ℕ, String, ◌<>◌, Bool, true, false, not, ◌&&◌, ◌||◌, Option, none, some, List, [], ◌∷◌, ◌++◌,
  ◌==◌, leb, starts_with, if◌then◌else◌,
}
use cf_docker_tunnel_sync.Base.Lists.{any, contains}
use cf_docker_tunnel_sync.Base.Dict.{Dict, lookup, keys}
use cf_docker_tunnel_sync.Base.Json.{Json}
use cf_docker_tunnel_sync.Base.Text.{strip, lower, is_digit, int}

pub data LabelGroup : Type 0 where
  hostname_group name_group port_group service_group server_name_group host_header_group :
      LabelGroup
  notls_group tls_group legacy_notls_group legacy_tls_group bare_notls_group : LabelGroup

-- `LABEL_PRECEDENCE`
unfoldable pub precedence : LabelGroup → List String
precedence hostname_group =
    "cf.tunnel.hostname" ∷ "cf.tunnel.domain" ∷ "cf.tunnel.host" ∷ "cloudflared.hostname"
    ∷ "cloudflared.domain" ∷ "cloudflared.host" ∷ "hostname" ∷ "host" ∷ []
precedence name_group =
    "cf.tunnel.name" ∷ "cf.tunnel.tunnel" ∷ "cloudflared.name" ∷ "cloudflared.tunnel" ∷ []
precedence port_group = "cf.tunnel.port" ∷ "cloudflared.port" ∷ "port" ∷ []
precedence service_group = "cf.tunnel.service" ∷ "cloudflared.service" ∷ []
precedence server_name_group =
    "cf.tunnel.originServerName" ∷ "cf.tunnel.origin.server.name" ∷ "cf.tunnel.origin_server_name"
    ∷ "cloudflared.originServerName" ∷ "cloudflared.origin.server.name"
    ∷ "cloudflared.origin_server_name" ∷ []
precedence host_header_group =
    "cf.tunnel.httpHostHeader" ∷ "cf.tunnel.http.host.header" ∷ "cf.tunnel.http_host_header"
    ∷ "cloudflared.httpHostHeader" ∷ "cloudflared.http.host.header" ∷ "cloudflared.http_host_header"
    ∷ []
precedence notls_group =
    "cf.tunnel.notlsverify" ∷ "cf.tunnel.notls_verify" ∷ "cf.tunnel.originRequest.noTLSVerify"
    ∷ "cf.tunnel.origin_request.no_tls_verify" ∷ []
precedence tls_group = "cf.tunnel.tls.verify" ∷ "cf.tunnel.tls_verify" ∷ []
precedence legacy_notls_group =
    "cloudflared.notlsverify" ∷ "cloudflared.notls_verify" ∷ "cloudflared.originRequest.noTLSVerify"
    ∷ "cloudflared.origin_request.no_tls_verify" ∷ []
precedence legacy_tls_group = "cloudflared.tls.verify" ∷ "cloudflared.tls_verify" ∷ []
precedence bare_notls_group = "notlsverify" ∷ "no_tls_verify" ∷ []

-- A text that is missing or empty is falsy.
abbrev pub truthy : Option String → Bool
truthy none = false
truthy (some v) = not (v == "")

-- `a or b`
abbrev pub or_else : Option String → Option String → Option String
or_else a b = if truthy a then a else b

unfoldable pub first_of : Dict String → List String → Option String
first_of labels [] = none
first_of labels (key ∷ keys) = let rest = first_of labels keys in or_else (lookup key labels) rest

unfoldable pub first_label : Dict String → LabelGroup → Option String
first_label labels group = first_of labels (precedence group)

-- `TUNNEL_LABEL_PREFIXES` and `TUNNEL_SHORTHAND_LABELS`
abbrev pub tunnel_label_prefixes : List String
tunnel_label_prefixes = "cf.tunnel." ∷ "cloudflared." ∷ "cftunnel." ∷ "tunnel." ∷ []

abbrev pub tunnel_shorthand_labels : List String
tunnel_shorthand_labels =
    "hostname" ∷ "host" ∷ "port" ∷ "proto" ∷ "protocol" ∷ "scheme" ∷ "notlsverify"
    ∷ "origin_server_name" ∷ "http_host_header" ∷ []

unfoldable pub is_tunnel_label : String → Bool
is_tunnel_label key =
    let cleaned = lower (strip key) in
    any (starts_with cleaned) tunnel_label_prefixes || contains tunnel_shorthand_labels cleaned

unfoldable pub has_tunnel_labels : Dict String → Bool
has_tunnel_labels labels = any is_tunnel_label (keys labels)

-- A service URL: the text of a label, or the parts of `f"{proto}://{c_name}:{port}"`.
pub data ServiceUrl : Type 0 where
  explicit : String → ServiceUrl
  address : String → String → ℕ → ServiceUrl

pub data PortWarning : Type 0 where
  out_of_range : ℕ → PortWarning
  non_numeric : String → PortWarning

pub record ParsedOrigin : Type 0 where
  pub service_target : ServiceUrl
  pub origin_request : Dict Json
  pub no_tls_verify : Bool
  pub warnings : List PortWarning

abbrev pub known_protocols : List String
known_protocols = "http" ∷ "https" ∷ "tcp" ∷ "udp" ∷ "ssh" ∷ "rdp" ∷ []

-- The keys of the `or` chain of the protocol.
abbrev pub protocol_keys : List String
protocol_keys =
    "cf.tunnel.protocol" ∷ "cf.tunnel.proto" ∷ "cf.tunnel.scheme" ∷ "cloudflared.protocol"
    ∷ "cloudflared.proto" ∷ "cloudflared.scheme" ∷ "proto" ∷ "protocol" ∷ "scheme" ∷ []

abbrev pub with_default : Option String → String → String
with_default none d = d
with_default (some v) d = v

unfoldable pub protocol : Dict String → String
protocol labels =
    let proto = lower (strip (with_default (first_of labels protocol_keys) "http")) in
    if contains known_protocols proto then proto else "http"

abbrev pub is_port : ℕ → Bool
is_port p = leb 1 p && leb p 65535

-- The number that `int` gives; `none` if it raises.
unfoldable pub number_port : Option ℕ → Option (Option ℕ × List PortWarning)
number_port none = none
number_port (some n) = some (if is_port n then (some n, []) else (none, out_of_range n ∷ []))

-- `valid_port` with the warnings, from a truthy label; `none` if `int` raises.
unfoldable pub checked_port : Option String → Option (Option ℕ × List PortWarning)
checked_port none = some (none, [])
checked_port (some label) =
    let text = strip label in
    if is_digit text then number_port (int text) else some (none, non_numeric label ∷ [])

-- The port that Docker lists first, if its "PrivatePort" is a number.
unfoldable pub inspected_port : Option ℕ → Option ℕ
inspected_port none = none
inspected_port (some p) = if is_port p then some p else none

unfoldable pub fallback_port : String → Option ℕ → ℕ
fallback_port proto (some p) = p
fallback_port proto none = if proto == "https" then 443 else 80

unfoldable pub assembled : String → String → Option ℕ → Option ℕ → ServiceUrl
assembled proto c_name (some p) ports = address proto c_name p
assembled proto c_name none ports =
    address proto c_name (fallback_port proto (inspected_port ports))

-- The stripped text of a label, if it is not empty.
unfoldable pub stripped_label : Option String → Option String
stripped_label none = none
stripped_label (some v) = let s = strip v in if s == "" then none else some s

unfoldable pub service_url : Option String → ServiceUrl → ServiceUrl
service_url none url = url
service_url (some s) url = explicit s

-- `_parse_bool`
unfoldable pub parse_bool : Option String → Option Bool
parse_bool none = none
parse_bool (some v) =
    let s = lower (strip v) in
    if contains ("true" ∷ "1" ∷ "yes" ∷ []) s
    then some true
    else if contains ("false" ∷ "0" ∷ "no" ∷ []) s
    then some false
    else none

abbrev pub negated : Option Bool → Option Bool
negated none = none
negated (some b) = some (not b)

unfoldable pub first_some : List (Option Bool) → Bool
first_some [] = false
first_some (none ∷ bs) = first_some bs
first_some (some b ∷ bs) = b

unfoldable pub no_tls : Dict String → Bool
no_tls labels = first_some (
    parse_bool (first_label labels notls_group)
    ∷ negated (parse_bool (first_label labels tls_group))
    ∷ parse_bool (first_label labels legacy_notls_group)
    ∷ negated (parse_bool (first_label labels legacy_tls_group))
    ∷ parse_bool (first_label labels bare_notls_group)
    ∷ negated (parse_bool (lookup "tls_verify" labels))
    ∷ [])

unfoldable pub text_entry : String → Option String → Dict Json
text_entry key none = []
text_entry key (some s) = (key, Json.text s) ∷ []

unfoldable pub origin_request_of : Bool → Option String → Option String → Dict Json
origin_request_of no_verify server_name host_header =
    (if no_verify then ("noTLSVerify", Json.bool true) ∷ [] else [])
    ++ text_entry "originServerName" server_name
    ++ text_entry "httpHostHeader" host_header

-- What follows the check of the port.
unfoldable pub parsed_origin :
    Dict String → String → Option ℕ → Option ℕ × List PortWarning → ParsedOrigin
parsed_origin labels c_name ports port =
    let no_verify = no_tls labels in
    record {
      service_target =
          service_url (stripped_label (first_label labels service_group))
            (assembled (protocol labels) c_name port.0 ports);
      origin_request =
          origin_request_of no_verify (stripped_label (first_label labels server_name_group))
            (stripped_label (first_label labels host_header_group));
      no_tls_verify = no_verify;
      warnings = port.1;
    }

unfoldable pub with_port :
    Dict String → String → Option ℕ → Option (Option ℕ × List PortWarning) → Option ParsedOrigin
with_port labels c_name ports none = none
with_port labels c_name ports (some port) = some (parsed_origin labels c_name ports port)

-- `parse_origin_labels`, where `ports` is the "PrivatePort" of the first port that is listed; `none` if it
-- raises the `ValueError` of `int`.
unfoldable pub parse_origin_labels : Dict String → String → Option ℕ → Option ParsedOrigin
parse_origin_labels labels c_name ports =
    with_port labels c_name ports (checked_port (first_label labels port_group))
