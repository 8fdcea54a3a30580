-- ===== src/Domain/Labels/Parsing.antt =====
-- What `parse_origin_labels` returns for any labels.
use cf_docker_tunnel_sync.Base.{
  ℕ, String, ◌≤◌, true, ◌≡◌, ◌≢◌, refl, inl, inr, Option, none, some, List, [], ◌∷◌, ◌==◌,
  Bool-cases, ne_of_test, string_dec, if◌then◌else◌, arith,
}
use cf_docker_tunnel_sync.Base.Lists.{contains}
use cf_docker_tunnel_sync.Base.Dict.{Dict}
use cf_docker_tunnel_sync.Base.Text.{strip, is_digit, int}
use cf_docker_tunnel_sync.Domain.Labels.{
  ServiceUrl, explicit, port_group, first_label, ParsedOrigin, number_port, with_port,
  parsed_origin, address, known_protocols, protocol, is_port, PortWarning, out_of_range,
  checked_port, inspected_port, fallback_port, assembled, stripped_label, service_url,
  parse_origin_labels,
}

-- An explicit text that is not empty, or an address with a known protocol, the name of the container
-- and a port from 1 to 65535.
abbrev pub IsServable : String → ServiceUrl → Type 0
IsServable c_name (explicit s) = s ≢ ""
IsServable c_name (address proto host port) =
    (contains known_protocols proto ≡ true) × (host ≡ c_name) × (1 ≤ port) × (port ≤ 65535)

abbrev InRange : Option ℕ → Type 0
InRange none = Unit
InRange (some p) = (1 ≤ p) × (p ≤ 65535)

http_known : contains known_protocols "http" ≡ true
unfolding string_dec
http_known = refl

-- A protocol that is not known is replaced.
known_or_http :
    (p : String)
    → contains known_protocols (if contains known_protocols p then p else "http") ≡ true
known_or_http p = elim (Bool-cases (contains known_protocols p)) [
  | inl e ↦ rw e e
  | inr e ↦ rw e http_known
]

protocol-known : (labels : Dict String) → contains known_protocols (protocol labels) ≡ true
unfolding protocol
protocol-known labels = known_or_http _

in_range_of : (p : ℕ) → is_port p ≡ true → (1 ≤ p) × (p ≤ 65535)
in_range_of p h = ground arith

-- The port label is one of digits that `int` refuses.
abbrev pub IsRefused : Option String → Type 0
IsRefused none = ⊥
IsRefused (some label) = (is_digit (strip label) ≡ true) × (int (strip label) ≡ none)

-- What the check of a port label comes to.
abbrev Checked : Option String → Option (Option ℕ × List PortWarning) → Type 0
Checked label none = IsRefused label
Checked label (some port) = InRange port.0 × ¬ IsRefused label

warned-InRange :
    (n : ℕ)
    → InRange
        (if◌then◌else◌ {A = Option ℕ × List PortWarning}
          (is_port n)
          (some n, [])
          (none, out_of_range n ∷ [])).0
warned-InRange n = elim (Bool-cases (is_port n)) [
  | inl e ↦ rw e (in_range_of n e)
  | inr e ↦ rw e tt
]

number_port-Checked :
    (label : String) (n : Option ℕ)
    → is_digit (strip label) ≡ true
    → int (strip label) ≡ n
    → Checked (some label) (number_port n)
unfolding number_port
number_port-Checked label none d e = (d, e)
number_port-Checked label (some n) d e = (warned-InRange n, λ r. absurd (cc (e, r.1)))

checked_port-Checked : (label : Option String) → Checked label (checked_port label)
unfolding checked_port
checked_port-Checked none = (tt, λ r. r)
checked_port-Checked (some label) = elim (Bool-cases (is_digit (strip label))) [
  | inl e ↦ rw e (number_port-Checked label (int (strip label)) e refl)
  | inr e ↦ rw e (tt, λ r. absurd (cc (e, r.0)))
]

fallback_port-bounds :
    (proto : String) (p : Option ℕ)
    → InRange p
    → (1 ≤ fallback_port proto p) × (fallback_port proto p ≤ 65535)
unfolding fallback_port
fallback_port-bounds proto (some p) h = h
fallback_port-bounds proto none h = ground arith

inspected_port-InRange : (p : Option ℕ) → InRange (inspected_port p)
unfolding inspected_port
inspected_port-InRange none = tt
inspected_port-InRange (some p) = elim (Bool-cases (is_port p)) [
  | inl e ↦ rw e (in_range_of p e)
  | inr e ↦ rw e tt
]

assembled-IsServable :
    (proto c_name : String) (port ports : Option ℕ)
    → contains known_protocols proto ≡ true
    → InRange port
    → IsServable c_name (assembled proto c_name port ports)
unfolding assembled
assembled-IsServable proto c_name (some p) ports known range = (known, refl, range.0, range.1)
assembled-IsServable proto c_name none ports known range =
    let range = fallback_port-bounds proto (inspected_port ports) (inspected_port-InRange ports) in
    (known, refl, range.0, range.1)

service_url-IsServable :
    (c_name : String) (label : Option String) (url : ServiceUrl)
    → IsServable c_name url
    → IsServable c_name (service_url (stripped_label label) url)
unfolding service_url stripped_label
service_url-IsServable c_name none url h = h
service_url-IsServable c_name (some v) url h = elim (Bool-cases (strip v == "")) [
  | inl e ↦ simp e h
  | inr e ↦ simp e (ne_of_test (strip v) "" e)
]

-- What `parse_origin_labels` comes to, by the label of the port.
abbrev pub IsParsed : Option String → String → Option ParsedOrigin → Type 0
IsParsed label c_name none = IsRefused label
IsParsed label c_name (some origin) = IsServable c_name origin.service_target × ¬ IsRefused label

with_port-IsParsed :
    (labels : Dict String) (c_name : String) (ports : Option ℕ) (label : Option String)
    (port : Option (Option ℕ × List PortWarning))
    → Checked label port
    → IsParsed label c_name (with_port labels c_name ports port)
unfolding with_port parsed_origin
with_port-IsParsed labels c_name ports label none h = h
with_port-IsParsed labels c_name ports label (some port) h = (
  service_url-IsServable c_name _ _
      (assembled-IsServable (protocol labels) c_name port.0 ports (protocol-known labels) h.0),
  h.1,
)

-- Whatever the labels and the listed port are: the parser raises the `ValueError` of `int` exactly if the
-- stripped label of the port consists of digits for `isdigit` and `int` refuses them; otherwise the
-- service is the text of a label, not empty, or an address with a known protocol, the name of the
-- container and a port from 1 to 65535.
pub parse_origin_labels-IsServable :
    (labels : Dict String) (c_name : String) (ports : Option ℕ)
    → IsParsed (first_label labels port_group) c_name (parse_origin_labels labels c_name ports)
unfolding parse_origin_labels
parse_origin_labels-IsServable labels c_name ports =
    with_port-IsParsed labels c_name ports _ _
      (checked_port-Checked (first_label labels port_group))
