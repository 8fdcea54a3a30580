-- ===== src/Domain/Hostnames/Idempotence.antt =====
-- A normalized hostname is normalized to itself.
use cf_docker_tunnel_sync.Base.{
  ℕ, String, ◌≡◌, ◌≢◌, ◌⊎◌, inl, inr, refl, sym, ap, ◌∙◌, none, some, List, [], ◌∷◌, ◌=ℕ◌,
  Bool-cases, arith, subst,
}
use Prim.Native.Char.{Char, code}
use cf_docker_tunnel_sync.Base.Lists.{All}
use cf_docker_tunnel_sync.Base.Text.{strip, lower, before}
use cf_docker_tunnel_sync.Base.Text.Chars.{
  AllChars, AllChars-map, before-same, after?-none, IsVisible, strip-same, visible, IsLow,
  lower-same,
}
use cf_docker_tunnel_sync.Domain.Hostnames.{
  scheme_cut, strip_port, rstrip_dots, before_dots, host_part, prepend, split_dots, chop_newline,
  checked, normalize_text, normalize_hostname,
}
use cf_docker_tunnel_sync.Domain.Hostnames.Validity.{
  split_dots-ne-nil, IsLabelChar, IsLabel, AreLabels, IsHostname, Passed, Passed-IsHostname,
  normalize_hostname-Passed, trimmed,
}

-- A character of a hostname, and one that can be in a label.
abbrev IsHostChar : ℕ → Type 0
IsHostChar c = IsLabelChar c ⊎ ((c ≡ b'.') ⊎ (c ≡ b'*'))

abbrev NotNewline : ℕ → Type 0
NotNewline c = c ≢ b'\n'

chop_newline-same : (s : String) → AllChars NotNewline s → chop_newline s ≡ s
unfolding chop_newline
chop_newline-same String.[] h = refl
chop_newline-same (String.◌∷◌ c String.[]) h = ground arith
chop_newline-same (String.◌∷◌ c (String.◌∷◌ d s)) h =
    ap (String.◌∷◌ c) (chop_newline-same (String.◌∷◌ d s) h.1)

module _ (P : ℕ → Type 0) where
  abbrev AllLabels : List String → Type 0
  AllLabels ls = All (AllChars P) ls

  prepend-AllLabels :
      (c : Char) (ls : List String) → P (code c) → AllLabels ls → AllLabels (prepend c ls)
  prepend-AllLabels c [] p h = tt
  prepend-AllLabels c (l ∷ ls) p h = ((p, h.0), h.1)

  -- What holds of the characters of a text holds of those of its parts.
  split_dots-AllLabels : (s : String) → AllChars P s → AllLabels (split_dots s)
  unfolding split_dots
  split_dots-AllLabels String.[] h = (tt, tt)
  split_dots-AllLabels (String.◌∷◌ c s) h = elim (Bool-cases (code c =ℕ b'.')) [
    | inl dot ↦ rw dot (tt, split_dots-AllLabels s h.1)
    | inr other ↦ rw other (prepend-AllLabels c (split_dots s) h.0 (split_dots-AllLabels s h.1))
  ]

  prepend_chars :
      (c : Char) (ls : List String) → ls ≢ [] → AllLabels (prepend c ls) → P (code c) × AllLabels ls
  prepend_chars c [] n h = absurd (n refl)
  prepend_chars c (l ∷ ls) n h = (h.0.0, (h.0.1, h.1))

  -- And back, but for the dots.
  of_split_dots : P b'.' → (s : String) → AllLabels (split_dots s) → AllChars P s
  unfolding split_dots
  of_split_dots d String.[] h = tt
  of_split_dots d (String.◌∷◌ c s) h = elim (Bool-cases (code c =ℕ b'.')) [
    | inl dot ↦
        (let t : AllLabels ("" ∷ split_dots s) = simp dot at h in
          (subst P (ground arith) d, of_split_dots d s t.1))
    | inr other ↦
        (let t = prepend_chars c (split_dots s) (split_dots-ne-nil s) (simp other at h) in
          (t.0, of_split_dots d s t.1))
  ]

label-IsHostChar : (l : String) → AllChars NotNewline l → IsLabel l → AllChars IsHostChar l
label-IsHostChar l n label =
    AllChars-map IsLabelChar IsHostChar (λ c h. inl h) l
      (subst (AllChars IsLabelChar) (chop_newline-same l n) label.chars)

labels-IsHostChar :
    (ls : List String)
    → All (AllChars NotNewline) ls
    → All IsLabel ls
    → All (AllChars IsHostChar) ls
labels-IsHostChar [] n h = tt
labels-IsHostChar (l ∷ ls) n h = (label-IsHostChar l n.0 h.0, labels-IsHostChar ls n.1 h.1)

star_chars : (l : String) → l ≡ "*" → AllChars IsHostChar l
star_chars l e = subst (AllChars IsHostChar) (sym e) (inr (inr refl), tt)

are_labels-IsHostChar :
    (ls : List String) → All (AllChars NotNewline) ls → AreLabels ls → All (AllChars IsHostChar) ls
are_labels-IsHostChar [] n h = absurd h
are_labels-IsHostChar (l ∷ ls) n h = (
  elim h.0 [ inl star ↦ star_chars l star.0 | inr label ↦ label-IsHostChar l n.0 label ],
  labels-IsHostChar ls n.1 h.1,
)

-- Each character of a hostname without a newline is a letter, a digit, a hyphen, a dot or a star.
host_chars : (r : String) → IsHostname r → AllChars NotNewline r → AllChars IsHostChar r
host_chars r h n =
    of_split_dots IsHostChar (inr (inl refl)) r
      (are_labels-IsHostChar (split_dots r) (split_dots-AllLabels NotNewline r n) h.labels)

abbrev TailNonempty : List String → Type 0
TailNonempty [] = Unit
TailNonempty (l ∷ ls) = All (λ l. l ≢ "") ls

before_dots-same :
    (c : Char) (s : String) → (code c ≢ b'.') ⊎ (s ≢ "") → before_dots c s ≡ String.◌∷◌ c s
before_dots-same c String.[] (inl n) = ground arith
before_dots-same c String.[] (inr n) = absurd (n refl)
before_dots-same c (String.◌∷◌ d s) h = refl

nonempty_of_parts : (s : String) → All (λ l. l ≢ "") (split_dots s) → s ≢ ""
unfolding split_dots
nonempty_of_parts String.[] h e = h.0 refl
nonempty_of_parts (String.◌∷◌ c s) h e = cc e

tail_of_All : (ls : List String) → All (λ l. l ≢ "") ls → TailNonempty ls
tail_of_All [] h = tt
tail_of_All (l ∷ ls) h = h.1

tail_of_prepend : (c : Char) (ls : List String) → TailNonempty (prepend c ls) → TailNonempty ls
tail_of_prepend c [] h = tt
tail_of_prepend c (l ∷ ls) h = h

-- A text does not end in a dot if no part but the first is empty.
rstrip_dots-same : (s : String) → TailNonempty (split_dots s) → rstrip_dots s ≡ s
unfolding rstrip_dots split_dots
rstrip_dots-same String.[] h = refl
rstrip_dots-same (String.◌∷◌ c s) h = elim (Bool-cases (code c =ℕ b'.')) [
  | inl dot ↦
      (let parts : TailNonempty ("" ∷ split_dots s) = simp dot at h in
        ap (before_dots c) (rstrip_dots-same s (tail_of_All (split_dots s) parts))
        ∙ before_dots-same c s (inr (nonempty_of_parts s parts)))
  | inr other ↦
      (ap (before_dots c) (rstrip_dots-same s (tail_of_prepend c (split_dots s) (simp other at h)))
        ∙ before_dots-same c s (inl (ground (arith, other))))
]

labels_nonempty : (ls : List String) → All IsLabel ls → All (λ l. l ≢ "") ls
labels_nonempty [] h = tt
labels_nonempty (l ∷ ls) h = (h.0.nonempty, labels_nonempty ls h.1)

tail_of_labels : (ls : List String) → AreLabels ls → TailNonempty ls
tail_of_labels [] h = tt
tail_of_labels (l ∷ ls) h = labels_nonempty ls h.1

scheme_cut-none : (s : String) → AllChars (λ c. c ≢ b':') s → scheme_cut s ≡ none
unfolding scheme_cut
scheme_cut-none String.[] h = refl
scheme_cut-none (String.◌∷◌ c s) h = ground (arith, scheme_cut-none s)

strip_port-same : (s : String) → before b':' s ≡ s → strip_port s ≡ s
strip_port-same s h = ground (arith, h)

module _ (s : String) (h : AllChars IsHostChar s) where
  lacks : (k : ℕ) → ((c : ℕ) → IsHostChar c → c ≢ k) → AllChars (λ c. c ≢ k) s
  lacks k f = AllChars-map IsHostChar (λ c. c ≢ k) f s h

  -- There is nothing to cut off.
  host_part-same : host_part s ≡ s
  unfolding host_part
  host_part-same =
      rw
        (
          scheme_cut-none s (lacks b':' (λ c p. omega arith)),
          before-same b'/' s (lacks b'/' (λ c p. omega arith)),
          before-same b'?' s (lacks b'?' (λ c p. omega arith)),
          before-same b'#' s (lacks b'#' (λ c p. omega arith)),
          after?-none b'@' s (lacks b'@' (λ c p. omega arith)),
        )
        (strip_port-same s (before-same b':' s (lacks b':' (λ c p. omega arith))))

  chars_strip : strip s ≡ s
  chars_strip =
      strip-same s
        (AllChars-map IsHostChar IsVisible (λ c p. visible c (omega arith) (omega arith)) s h)

  chars_lower : lower s ≡ s
  chars_lower = lower-same s (AllChars-map IsHostChar IsLow (λ c p. omega arith) s h)

inner-same :
    (r : String)
    → IsHostname r
    → AllChars NotNewline r
    → lower (rstrip_dots (strip (host_part r))) ≡ r
inner-same r h n =
    let chars = host_chars r h n in
    rw
      (
        host_part-same r chars,
        chars_strip r chars,
        rstrip_dots-same r (tail_of_labels (split_dots r) h.labels),
      )
      (chars_lower r chars)

checked-same : (raw r : String) → Passed raw r → checked r ≡ some r
unfolding checked
checked-same raw r p = ground (arith, p.nonempty, p.short, p.labels)

-- A normalized hostname without a newline is normalized to itself.
pub normalize_hostname-normalize_hostname :
    (h r : String)
    → normalize_hostname (some h) ≡ some r
    → AllChars NotNewline r
    → normalize_hostname (some r) ≡ some r
unfolding normalize_hostname normalize_text
normalize_hostname-normalize_hostname h r e n =
    let p = normalize_hostname-Passed h r e in
    let host = Passed-IsHostname (trimmed h) r p in
    rw (chars_strip r (host_chars r host n), p.nonempty, inner-same r host n)
      (checked-same (trimmed h) r p)
