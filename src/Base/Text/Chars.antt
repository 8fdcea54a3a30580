-- ===== src/Base/Text/Chars.antt =====
-- Texts on which the operations of `str` do nothing, and the length of a text.
use Prim.Native.Nat.{ℕ, ◌+◌, ◌≤◌, ◌<◌}
use Prim.Native.Char.{Char, code}
use Prim.Native.String.{String, ◌++◌ as ◌<>◌}
use mathlib.Core.Path.{◌≡◌, refl, ap, ◌∙◌}
use mathlib.Core.Logic.{◌≢◌, ◌⊎◌, inl, inr}
use mathlib.Core.Bool.{false}
use mathlib.Core.Option.{none}
use native.Mathlib.Omega.{arith}
use text.Mathlib.TextLemmas.{nil-append, cons-append}
use cf_docker_tunnel_sync.Base.Tests.{Bool-cases}
use cf_docker_tunnel_sync.Base.Text.{
  text_length, lstrip, rstrip, before_stripped, strip, is_space, in_range, translate, lower, before,
  after?,
}

-- What holds of the code of each character.
abbrev pub AllChars {κ} : (ℕ → Type κ) → String → Type κ
AllChars P String.[] = Unit
AllChars P (String.◌∷◌ c s) = P (code c) × AllChars P s

module _ {κ μ} (P : ℕ → Type κ) (Q : ℕ → Type μ) where
  pub AllChars-map : ((c : ℕ) → P c → Q c) → (s : String) → AllChars P s → AllChars Q s
  AllChars-map f String.[] h = tt
  AllChars-map f (String.◌∷◌ c s) h = (f (code c) h.0, AllChars-map f s h.1)

pub before-same : (k : ℕ) (s : String) → AllChars (λ c. c ≢ k) s → before k s ≡ s
unfolding before
before-same k String.[] h = refl
before-same k (String.◌∷◌ c s) h = ground (arith, before-same k s)

pub after?-none : (k : ℕ) (s : String) → AllChars (λ c. c ≢ k) s → after? k s ≡ none
unfolding after?
after?-none k String.[] h = refl
after?-none k (String.◌∷◌ c s) h = ground (arith, after?-none k s)

abbrev pub IsVisible : ℕ → Type 0
IsVisible c = is_space c ≡ false

lstrip-same : (s : String) → AllChars IsVisible s → lstrip s ≡ s
unfolding lstrip
lstrip-same String.[] h = refl
lstrip-same (String.◌∷◌ c s) h = rw h.0 refl

before_stripped-same :
    (c : Char) (s : String) → IsVisible (code c) → before_stripped c s ≡ String.◌∷◌ c s
unfolding before_stripped
before_stripped-same c String.[] h = rw h refl
before_stripped-same c (String.◌∷◌ d s) h = refl

rstrip-same : (s : String) → AllChars IsVisible s → rstrip s ≡ s
unfolding rstrip
rstrip-same String.[] h = refl
rstrip-same (String.◌∷◌ c s) h =
    ap (before_stripped c) (rstrip-same s h.1) ∙ before_stripped-same c s h.0

-- A text without white space is its own strip.
pub strip-same : (s : String) → AllChars IsVisible s → strip s ≡ s
unfolding strip
strip-same s h = ap lstrip (rstrip-same s h) ∙ lstrip-same s h

-- The printed characters of ASCII are not white space.
pub visible : (c : ℕ) → 33 ≤ c → c ≤ 126 → IsVisible c
unfolding is_space in_range
visible c h k = ground arith

translate-same : (c : Char) (us ls : String) → AllChars (λ u. code c ≢ u) us → translate c us ls ≡ c
unfolding translate
translate-same c String.[] ls h = refl
translate-same c (String.◌∷◌ u us) String.[] h = refl
translate-same c (String.◌∷◌ u us) (String.◌∷◌ l ls) h = ground (arith, translate-same c us ls)

-- Not a capital letter of ASCII.
abbrev pub IsLow : ℕ → Type 0
IsLow c = (c < 65) ⊎ (90 < c)

lower_char-same :
    (c : Char)
    → IsLow (code c)
    → translate c "ABCDEFGHIJKLMNOPQRSTUVWXYZ" "abcdefghijklmnopqrstuvwxyz" ≡ c
lower_char-same c (inl h) = translate-same c _ _ (omega arith)
lower_char-same c (inr h) = translate-same c _ _ (omega arith)

-- A text without capital letters is its own lower case.
pub lower-same : (s : String) → AllChars IsLow s → lower s ≡ s
unfolding lower
lower-same String.[] h = refl
lower-same (String.◌∷◌ c s) h = rw (lower_char-same c h.0, lower-same s h.1) refl

lstrip-shorter : (s : String) → text_length (lstrip s) ≤ text_length s
unfolding lstrip text_length
lstrip-shorter String.[] = omega arith
lstrip-shorter (String.◌∷◌ c s) = ground (arith, lstrip-shorter s)

before_stripped-shorter :
    (c : Char) (s : String) → text_length (before_stripped c s) ≤ 1 + text_length s
unfolding before_stripped text_length
before_stripped-shorter c String.[] = elim (Bool-cases (is_space (code c))) [
  | inl e ↦ rw e (omega arith)
  | inr e ↦ rw e (omega arith)
]
before_stripped-shorter c (String.◌∷◌ d s) = omega arith

rstrip-shorter : (s : String) → text_length (rstrip s) ≤ text_length s
unfolding rstrip text_length
rstrip-shorter String.[] = omega arith
rstrip-shorter (String.◌∷◌ c s) =
    omega (arith, before_stripped-shorter c (rstrip s), rstrip-shorter s)

pub strip-shorter : (s : String) → text_length (strip s) ≤ text_length s
unfolding strip
strip-shorter s = omega (arith, lstrip-shorter (rstrip s), rstrip-shorter s)

pub text_length-append : (s t : String) → text_length (s <> t) ≡ text_length s + text_length t
unfolding text_length
text_length-append String.[] t = omega (arith, ap text_length (nil-append t))
text_length-append (String.◌∷◌ c s) t =
    omega (arith, ap text_length (cons-append c s t), text_length-append s t)

pub text_length-positive : (s : String) → s ≢ "" → 1 ≤ text_length s
unfolding text_length
text_length-positive String.[] h = absurd (h refl)
text_length-positive (String.◌∷◌ c s) h = omega arith
