-- ===== src/Domain/Hostnames.antt =====
-- tunnel_sync/domain/discovery.py: `normalize_hostname`.
pub mod Validity
pub mod Idempotence
use cf_docker_tunnel_sync.Base.{
  ℕ, String, Bool, true, false, not, ◌&&◌, ◌||◌, Option, none, some, List, [], ◌∷◌, ◌==◌, ◌=ℕ◌, leb,
  if◌then◌else◌,
}
use Prim.Native.Char.{Char, code}
use cf_docker_tunnel_sync.Base.Text.{strip, lower, before, after?, text_length}

-- The rest after "//".
abbrev pub after_slashes : String → Option String
after_slashes (String.◌∷◌ c (String.◌∷◌ d s)) =
    if code c =ℕ b'/' && code d =ℕ b'/' then some s else none
after_slashes _ = none

abbrev pub or_option : Option String → Option String → Option String
or_option none b = b
or_option (some a) b = some a

-- `raw.split("://", 1)[1]`, if "://" is in the text
unfoldable pub scheme_cut : String → Option String
scheme_cut String.[] = none
scheme_cut (String.◌∷◌ c s) =
    let rest = scheme_cut s in or_option (if code c =ℕ b':' then after_slashes s else none) rest

abbrev pub else_whole : Option String → String → String
else_whole none s = s
else_whole (some t) s = t

abbrev pub starts_bracket : String → Bool
starts_bracket String.[] = false
starts_bracket (String.◌∷◌ c s) = code c =ℕ b'['

abbrev pub strip_port : String → String
strip_port raw = if starts_bracket raw then raw else before b':' raw

-- `rstrip(".")`
abbrev before_dots : Char → String → String
before_dots c String.[] = if code c =ℕ b'.' then String.[] else String.◌∷◌ c String.[]
before_dots c s = String.◌∷◌ c s

unfoldable pub rstrip_dots : String → String
rstrip_dots String.[] = String.[]
rstrip_dots (String.◌∷◌ c s) = before_dots c (rstrip_dots s)

-- What is left of the scheme, the path, the query, the fragment, the user and the port.
unfoldable pub host_part : String → String
host_part raw =
    let a = else_whole (scheme_cut raw) raw in
    let b = before b'#' (before b'?' (before b'/' a)) in strip_port (else_whole (after? b'@' b) b)

abbrev pub prepend : Char → List String → List String
prepend c [] = []
prepend c (l ∷ ls) = String.◌∷◌ c l ∷ ls

-- `raw.split(".")`
unfoldable pub split_dots : String → List String
split_dots String.[] = "" ∷ []
split_dots (String.◌∷◌ c s) =
    let labels = split_dots s in if code c =ℕ b'.' then "" ∷ labels else prepend c labels

unfoldable pub is_alnum : ℕ → Bool
is_alnum c = (leb b'a' c && leb c b'z') || (leb b'0' c && leb c b'9')

-- `[a-z0-9-]{0,61}[a-z0-9]`, or nothing; the lengths are tested before.
unfoldable pub ends_alnum : String → Bool
ends_alnum String.[] = true
ends_alnum (String.◌∷◌ c String.[]) = is_alnum (code c)
ends_alnum (String.◌∷◌ c (String.◌∷◌ d s)) =
    (is_alnum (code c) || code c =ℕ b'-') && ends_alnum (String.◌∷◌ d s)

unfoldable pub matches_body : String → Bool
matches_body String.[] = false
matches_body (String.◌∷◌ c s) = is_alnum (code c) && ends_alnum s

abbrev chop_at : Char → String → String → String
chop_at c String.[] chopped = if code c =ℕ b'\n' then String.[] else String.◌∷◌ c String.[]
chop_at c (String.◌∷◌ d s) chopped = String.◌∷◌ c chopped

-- Without a newline at its end.
unfoldable pub chop_newline : String → String
chop_newline String.[] = String.[]
chop_newline (String.◌∷◌ c s) = chop_at c s (chop_newline s)

-- `LABEL_REGEX.match(label)`, where `$` also matches before a newline that ends the text.
unfoldable pub matches_label : String → Bool
matches_label label = matches_body (chop_newline label)

-- The label has from 1 to 63 characters and matches the pattern.
unfoldable pub is_label : String → Bool
is_label label = not (label == "") && leb (text_length label) 63 && matches_label label

unfoldable pub all_labels : List String → Bool
all_labels [] = true
all_labels (label ∷ labels) = is_label label && all_labels labels

abbrev pub is_empty : List String → Bool
is_empty [] = true
is_empty (x ∷ xs) = false

-- The loop over the labels: "*" may be the first of several.
unfoldable pub are_labels : List String → Bool
are_labels [] = true
are_labels (label ∷ labels) =
    (if label == "*" then not (is_empty labels) else is_label label) && all_labels labels

unfoldable pub checked : String → Option String
checked raw =
    if raw == "" || not (leb (text_length raw) 253)
    then none
    else if are_labels (split_dots raw)
    then some raw
    else none

unfoldable pub normalize_text : String → Option String
normalize_text raw =
    if raw == "" then none else checked (lower (rstrip_dots (strip (host_part raw))))

unfoldable pub normalize_hostname : Option String → Option String
normalize_hostname none = none
normalize_hostname (some hostname) = normalize_text (strip hostname)
