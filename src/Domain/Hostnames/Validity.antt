-- ===== src/Domain/Hostnames/Validity.antt =====
-- What a normalized hostname is.
use cf_docker_tunnel_sync.Base.{
  ℕ, ◌≤◌, String, Bool, true, false, not, ◌≡◌, ◌≢◌, ◌⊎◌, inl, inr, refl, subst, none, some, List,
  [], ◌∷◌, ◌==◌, ◌=ℕ◌, Bool-cases, eq_of_test, ne_of_test, if◌then◌else◌, arith,
}
use Prim.Native.Char.{Char, code}
use cf_docker_tunnel_sync.Base.Lists.{All}
use cf_docker_tunnel_sync.Base.Text.{strip, lower, text_length}
use cf_docker_tunnel_sync.Base.Text.Chars.{AllChars}
use cf_docker_tunnel_sync.Domain.Hostnames.{
  prepend, split_dots, is_alnum, ends_alnum, matches_body, chop_newline, matches_label, is_label,
  all_labels, is_empty, are_labels, checked, rstrip_dots, host_part, normalize_text,
  normalize_hostname,
}

-- A small letter or a digit of ASCII, and one of these or a hyphen.
abbrev pub IsAlnum : ℕ → Type 0
IsAlnum c = ((b'a' ≤ c) × (c ≤ b'z')) ⊎ ((b'0' ≤ c) × (c ≤ b'9'))

abbrev pub IsLabelChar : ℕ → Type 0
IsLabelChar c = IsAlnum c ⊎ (c ≡ b'-')

abbrev pub First : (ℕ → Type 0) → String → Type 0
First P String.[] = ⊥
First P (String.◌∷◌ c s) = P (code c)

abbrev pub Last : (ℕ → Type 0) → String → Type 0
Last P String.[] = ⊥
Last P (String.◌∷◌ c String.[]) = P (code c)
Last P (String.◌∷◌ c (String.◌∷◌ d s)) = Last P (String.◌∷◌ d s)

-- From 1 to 63 characters; but for a newline at the end, they are letters, digits and hyphens, and
-- the first and the last one are no hyphens.
pub record IsLabel (label : String) : Type 0 where
  pub nonempty : label ≢ ""
  pub short : text_length label ≤ 63
  pub first : First IsAlnum (chop_newline label)
  pub last : Last IsAlnum (chop_newline label)
  pub chars : AllChars IsLabelChar (chop_newline label)

-- The first label is "*" and not the only one, or a label; all others are labels.
abbrev pub AreLabels : List String → Type 0
AreLabels [] = ⊥
AreLabels (label ∷ labels) = (((label ≡ "*") × (labels ≢ [])) ⊎ IsLabel label) × All IsLabel labels

pub record IsHostname (r : String) : Type 0 where
  pub nonempty : r ≢ ""
  pub short : text_length r ≤ 253
  pub labels : AreLabels (split_dots r)

alnum : (c : ℕ) → is_alnum c ≡ true → IsAlnum c
unfolding is_alnum
alnum c h = ground arith

ends_alnum-Last :
    (s : String) → s ≢ "" → ends_alnum s ≡ true → Last IsAlnum s × AllChars IsLabelChar s
unfolding ends_alnum
ends_alnum-Last String.[] n h = absurd (n refl)
ends_alnum-Last (String.◌∷◌ c String.[]) n h = (alnum (code c) h, (inl (alnum (code c) h), tt))
ends_alnum-Last (String.◌∷◌ c (String.◌∷◌ d s)) n h =
    let rest = ends_alnum-Last (String.◌∷◌ d s) (λ e. cc e) (ground arith) in
    (rest.0, (ground (arith, alnum (code c)), rest.1))

matches_body_lem :
    (s : String) → matches_body s ≡ true → First IsAlnum s × Last IsAlnum s × AllChars IsLabelChar s
unfolding matches_body
matches_body_lem String.[] h = absurd (cc h)
matches_body_lem (String.◌∷◌ c String.[]) h =
    let a = alnum (code c) (ground arith) in (a, a, (inl a, tt))
matches_body_lem (String.◌∷◌ c (String.◌∷◌ d s)) h =
    let a = alnum (code c) (ground arith) in
    let rest = ends_alnum-Last (String.◌∷◌ d s) (λ e. cc e) (ground arith) in
    (a, rest.0, (inl a, rest.1))

pub is_label-IsLabel : (label : String) → is_label label ≡ true → IsLabel label
unfolding is_label matches_label
is_label-IsLabel label h =
    let m = matches_body_lem (chop_newline label) (ground arith) in
    record {
      nonempty = ne_of_test label "" (ground arith);
      short = ground arith;
      first = m.0;
      last = m.1;
      chars = m.2;
    }

pub all_labels-IsLabel : (ls : List String) → all_labels ls ≡ true → All IsLabel ls
unfolding all_labels
all_labels-IsLabel [] h = tt
all_labels-IsLabel (l ∷ ls) h =
    (is_label-IsLabel l (ground arith), all_labels-IsLabel ls (ground arith))

star_or_IsLabel :
    (b e : Bool) (l : String)
    → (if b then not e else is_label l) ≡ true
    → ((b ≡ true) × (e ≡ false)) ⊎ IsLabel l
star_or_IsLabel true false l h = inl (refl, refl)
star_or_IsLabel true true l h = absurd (cc h)
star_or_IsLabel false e l h = inr (is_label-IsLabel l h)

not_empty : (ls : List String) → is_empty ls ≡ false → ls ≢ []
not_empty [] h e = cc h
not_empty (l ∷ ls) h e = cc e

prepend-ne-nil : (c : Char) (ls : List String) → ls ≢ [] → prepend c ls ≢ []
prepend-ne-nil c [] n e = n e
prepend-ne-nil c (l ∷ ls) n e = cc e

pub split_dots-ne-nil : (s : String) → split_dots s ≢ []
unfolding split_dots
split_dots-ne-nil String.[] e = cc e
split_dots-ne-nil (String.◌∷◌ c s) e = elim (Bool-cases (code c =ℕ b'.')) [
  | inl dot ↦ cc (simp dot at e)
  | inr other ↦ prepend-ne-nil c (split_dots s) (split_dots-ne-nil s) (simp other at e)
]

are_labels-AreLabels : (ls : List String) → ls ≢ [] → are_labels ls ≡ true → AreLabels ls
unfolding are_labels
are_labels-AreLabels [] n h = absurd (n refl)
are_labels-AreLabels (l ∷ ls) n h = (
  elim (star_or_IsLabel (l == "*") (is_empty ls) l (ground arith)) [
    | inl star ↦ inl (eq_of_test l "*" star.0, not_empty ls star.1)
    | inr label ↦ inr label
  ],
  all_labels-IsLabel ls (ground arith),
)

-- A text that passes the last checks is the result.
pub record Passed (raw r : String) : Type 0 where
  pub same : raw ≡ r
  pub nonempty : (r == "") ≡ false
  pub short : text_length r ≤ 253
  pub labels : are_labels (split_dots r) ≡ true

checked_tests :
    (a b : Bool) (raw r : String)
    → (if a then none else if b then some raw else none) ≡ some r
    → (a ≡ false) × (b ≡ true) × (raw ≡ r)
checked_tests true b raw r h = absurd (cc h)
checked_tests false true raw r h = (refl, refl, cc h)
checked_tests false false raw r h = absurd (cc h)

pub checked-Passed : (raw r : String) → checked raw ≡ some r → Passed raw r
unfolding checked
checked-Passed raw r h =
    let t = checked_tests _ _ raw r h in
    subst (λ x. Passed raw x) t.2
      (record {
        same = refl;
        nonempty = ground (arith, t.0);
        short = ground (arith, t.0);
        labels = t.1;
      })

pub Passed-IsHostname : (raw r : String) → Passed raw r → IsHostname r
Passed-IsHostname raw r p = record {
  nonempty = ne_of_test r "" p.nonempty;
  short = p.short;
  labels = are_labels-AreLabels (split_dots r) (split_dots-ne-nil r) p.labels;
}

-- The text that is checked last.
abbrev pub trimmed : String → String
trimmed h = lower (rstrip_dots (strip (host_part (strip h))))

pub normalize_hostname-Passed :
    (h r : String) → normalize_hostname (some h) ≡ some r → Passed (trimmed h) r
unfolding normalize_hostname normalize_text
normalize_hostname-Passed h r e = elim (Bool-cases (strip h == "")) [
  | inl nothing ↦ absurd (cc (simp nothing at e))
  | inr something ↦ checked-Passed (trimmed h) r (simp something at e)
]

-- A normalized hostname is not empty, has at most 253 characters, and its parts between dots are
-- labels of from 1 to 63 small letters, digits and hyphens that neither begin nor end with a
-- hyphen, but for a first part "*" and for a newline that may end each part.
pub normalize_hostname-IsHostname :
    (h r : String) → normalize_hostname (some h) ≡ some r → IsHostname r
normalize_hostname-IsHostname h r e =
    Passed-IsHostname (trimmed h) r (normalize_hostname-Passed h r e)
