-- ===== src/Base/Text.antt =====
-- Operations of Python's `str` that the code calls.
-- `lower` and `upper` treat ASCII only; `strip` knows every white space of `str.isspace`, `isdigit` and
-- `int` every digit of Unicode.
pub mod Chars
use Prim.Native.Nat.{ℕ, zero, suc, ◌+◌, ◌-◌, ◌*◌}
use Prim.Native.Char.{Char, code}
use Prim.Native.String.{String, ◌++◌ as ◌<>◌}
use text.Mathlib.Text.{starts_with}
use mathlib.Core.List.{List, [], ◌∷◌}
use mathlib.Core.Bool.{Bool, true, false, ◌&&◌, ◌||◌}
use mathlib.Core.Option.{Option, none, some}
use cf_docker_tunnel_sync.Base.Tests.{◌==◌, leb, ◌=ℕ◌, if◌then◌else◌}

pub in_range : ℕ → ℕ → ℕ → Bool
in_range lo hi c = leb lo c && leb c hi

pub is_space : ℕ → Bool
unfolding in_range
is_space c =
    in_range 9 13 c
    || in_range 28 32 c
    || c =ℕ 0x85
    || c =ℕ 0xa0
    || c =ℕ 0x1680
    || in_range 0x2000 0x200a c
    || in_range 0x2028 0x2029 c
    || c =ℕ 0x202f
    || c =ℕ 0x205f
    || c =ℕ 0x3000

lstrip : String → String
unfolding is_space
lstrip String.[] = String.[]
lstrip (String.◌∷◌ c s) = if is_space (code c) then lstrip s else String.◌∷◌ c s

-- One character in front of a text that is stripped on its right.
before_stripped : Char → String → String
unfolding is_space
before_stripped c String.[] = if is_space (code c) then String.[] else String.◌∷◌ c String.[]
before_stripped c s = String.◌∷◌ c s

rstrip : String → String
unfolding before_stripped
rstrip String.[] = String.[]
rstrip (String.◌∷◌ c s) = before_stripped c (rstrip s)

unfoldable pub strip : String → String
unfolding lstrip rstrip
strip s = lstrip (rstrip s)

translate : Char → String → String → Char
translate c (String.◌∷◌ u us) (String.◌∷◌ l ls) =
    let rest = translate c us ls in if code c =ℕ code u then l else rest
translate c _ _ = c

unfoldable pub lower : String → String
unfolding translate
lower String.[] = String.[]
lower (String.◌∷◌ c s) =
    String.◌∷◌ (translate c "ABCDEFGHIJKLMNOPQRSTUVWXYZ" "abcdefghijklmnopqrstuvwxyz") (lower s)

unfoldable pub upper : String → String
unfolding translate
upper String.[] = String.[]
upper (String.◌∷◌ c s) =
    String.◌∷◌ (translate c "abcdefghijklmnopqrstuvwxyz" "ABCDEFGHIJKLMNOPQRSTUVWXYZ") (upper s)

-- The codes of the zeros of Unicode 14, the version of Python 3.11: each starts a row of ten decimal
-- digits.
zeros : List ℕ
zeros =
    48 ∷ 1632 ∷ 1776 ∷ 1984 ∷ 2406 ∷ 2534 ∷ 2662 ∷ 2790 ∷ 2918 ∷ 3046 ∷ 3174 ∷ 3302 ∷ 3430 ∷ 3558
    ∷ 3664 ∷ 3792 ∷ 3872 ∷ 4160 ∷ 4240 ∷ 6112 ∷ 6160 ∷ 6470 ∷ 6608 ∷ 6784 ∷ 6800 ∷ 6992 ∷ 7088
    ∷ 7232 ∷ 7248 ∷ 42528 ∷ 43216 ∷ 43264 ∷ 43472 ∷ 43504 ∷ 43600 ∷ 44016 ∷ 65296 ∷ 66720 ∷ 68912
    ∷ 69734 ∷ 69872 ∷ 69942 ∷ 70096 ∷ 70384 ∷ 70736 ∷ 70864 ∷ 71248 ∷ 71360 ∷ 71472 ∷ 71904 ∷ 72016
    ∷ 72784 ∷ 73040 ∷ 73120 ∷ 92768 ∷ 92864 ∷ 93008 ∷ 120782 ∷ 120792 ∷ 120802 ∷ 120812 ∷ 120822
    ∷ 123200 ∷ 123632 ∷ 125264 ∷ 130032 ∷ []

-- The other characters that `isdigit` takes for digits, such as superscripts, by ranges of codes.
other_digits : List (ℕ × ℕ)
other_digits =
    (178, 179)
    ∷ (185, 185)
    ∷ (4969, 4977)
    ∷ (6618, 6618)
    ∷ (8304, 8304)
    ∷ (8308, 8313)
    ∷ (8320, 8329)
    ∷ (9312, 9320)
    ∷ (9332, 9340)
    ∷ (9352, 9360)
    ∷ (9450, 9450)
    ∷ (9461, 9469)
    ∷ (9471, 9471)
    ∷ (10102, 10110)
    ∷ (10112, 10120)
    ∷ (10122, 10130)
    ∷ (68160, 68163)
    ∷ (69216, 69224)
    ∷ (69714, 69722)
    ∷ (127232, 127242)
    ∷ []

-- The value of a decimal digit.
decimal_in : List ℕ → ℕ → Option ℕ
unfolding in_range
decimal_in [] c = none
decimal_in (z ∷ zs) c =
    let rest = decimal_in zs c in if in_range z (z + 9) c then some (c - z) else rest

is_among : List (ℕ × ℕ) → ℕ → Bool
unfolding in_range
is_among [] c = false
is_among ((lo, hi) ∷ ranges) c = in_range lo hi c || is_among ranges c

abbrev is_some : Option ℕ → Bool
is_some none = false
is_some (some n) = true

is_decimal : ℕ → Bool
unfolding decimal_in zeros
is_decimal c = is_some (decimal_in zeros c)

all_digits : String → Bool
unfolding is_decimal is_among other_digits
all_digits String.[] = true
all_digits (String.◌∷◌ c s) =
    (is_decimal (code c) || is_among other_digits (code c)) && all_digits s

-- `s.isdigit()`
unfoldable pub is_digit : String → Bool
unfolding all_digits
is_digit String.[] = false
is_digit (String.◌∷◌ c s) = all_digits (String.◌∷◌ c s)

all_decimals : String → Bool
unfolding is_decimal
all_decimals String.[] = true
all_decimals (String.◌∷◌ c s) = is_decimal (code c) && all_decimals s

abbrev digit_value : Option ℕ → ℕ
digit_value none = 0
digit_value (some d) = d

int_from : ℕ → String → ℕ
unfolding decimal_in zeros
int_from n String.[] = n
int_from n (String.◌∷◌ c s) = int_from (10 * n + digit_value (decimal_in zeros (code c))) s

-- `len(s)`
unfoldable pub text_length : String → ℕ
text_length String.[] = 0
text_length (String.◌∷◌ c s) = 1 + text_length s

-- `int(s)` of a text for which `isdigit` holds: it raises a `ValueError`, here `none`, when a digit is
-- not decimal, and when there are more than 4300 digits.
unfoldable pub int : String → Option ℕ
unfolding all_decimals int_from text_length
int s = if all_decimals s && leb (text_length s) 4300 then some (int_from 0 s) else none

-- `s.lstrip("/")`
unfoldable pub lstrip_slash : String → String
lstrip_slash String.[] = String.[]
lstrip_slash (String.◌∷◌ c s) =
    let rest = lstrip_slash s in if code c =ℕ 47 then rest else String.◌∷◌ c s

-- `s.split(k, 1)[0]`, for the character with the code `k`
unfoldable pub before : ℕ → String → String
before k String.[] = String.[]
before k (String.◌∷◌ c s) =
    let rest = String.◌∷◌ c (before k s) in if code c =ℕ k then String.[] else rest

-- `s.split(k, 1)[1]`, if there is the character
unfoldable pub after? : ℕ → String → Option String
after? k String.[] = none
after? k (String.◌∷◌ c s) = let rest = after? k s in if code c =ℕ k then some s else rest

-- `s[:n]`
unfoldable pub prefix : ℕ → String → String
prefix n String.[] = String.[]
prefix zero (String.◌∷◌ c s) = String.[]
prefix (suc n) (String.◌∷◌ c s) = String.◌∷◌ c (prefix n s)

-- `s.endswith(t)`
unfoldable pub ends_with : String → String → Bool
ends_with String.[] t = t == ""
ends_with (String.◌∷◌ c s) t = let rest = ends_with s t in String.◌∷◌ c s == t || rest

-- `t in s`
unfoldable pub has_text : String → String → Bool
has_text String.[] t = t == ""
has_text (String.◌∷◌ c s) t = let rest = has_text s t in starts_with (String.◌∷◌ c s) t || rest

-- `separator.join(texts)`
unfoldable pub join : String → List String → String
join separator [] = ""
join separator (s ∷ []) = s
join separator (s ∷ t ∷ ts) = s <> separator <> join separator (t ∷ ts)
