-- ===== src/Base/Tests.antt =====
-- Boolean tests on numbers and texts, and ways to split on a test.
use Prim.Native.Nat.{ℕ, compare, Ordering}
use Prim.Native.String.{String}
use mathlib.Core.Path.{◌≡◌, refl}
use mathlib.Core.Logic.{◌⊎◌, ◌≢◌, inl, inr, ite, dite}
use mathlib.Core.Bool.{Bool, true, false, Bool-discrete}
use text.Mathlib.Text
use text.Mathlib.TextEquality.{eq_iff}
use native.Mathlib.Omega.{arith}

abbrev pub ltb : ℕ → ℕ → Bool
ltb a b = elim (compare a b) [ Ordering.lt ↦ true | _ ↦ false ]

abbrev pub leb : ℕ → ℕ → Bool
leb a b = elim (compare a b) [ Ordering.gt ↦ false | _ ↦ true ]

-- Equality of numbers.
infix 50 ◌=ℕ◌
abbrev pub ◌=ℕ◌ : ℕ → ℕ → Bool
a =ℕ b = elim (compare a b) [ Ordering.eq ↦ true | _ ↦ false ]

infix 1 if◌then◌else◌
abbrev pub if◌then◌else◌ {ℓ} : {A : Type ℓ} → Bool → A → A → A
if true then x else y = x
if false then x else y = y

-- Shut in proofs, where a split on `s == t` yields the equation or its negation.
unfoldable pub string_dec : Discrete String
string_dec s t =
    dite (Bool-discrete (Text.◌==◌ s t) true) (λ same. yes ((eq_iff s t).0 same))
      (λ differ. no (λ p. differ ((eq_iff s t).1 p)))

infix 50 ◌==◌
abbrev pub ◌==◌ : String → String → Bool
s == t = ite (string_dec s t) true false

pub Bool-cases : (b : Bool) → (b ≡ true) ⊎ (b ≡ false)
Bool-cases true = inl refl
Bool-cases false = inr refl

pub eq_of_test : (s t : String) → (s == t) ≡ true → s ≡ t
eq_of_test s t h = ground arith

pub ne_of_test : (s t : String) → (s == t) ≡ false → s ≢ t
ne_of_test s t h = ground arith

pub test_same : (s : String) → (s == s) ≡ true
test_same s = ground arith
