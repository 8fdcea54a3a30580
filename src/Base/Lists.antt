-- ===== src/Base/Lists.antt =====
-- Lists: length over the native numbers, `All` by recursion, membership and counting as tests.
use Prim.Native.Nat.{ℕ, suc, ◌+◌}
use Prim.Native.String.{String}
use mathlib.Core.Path.{◌≡◌, refl, sym, ap, subst}
use mathlib.Core.Logic.{◌⊎◌, inl, inr}
use mathlib.Core.Bool.{Bool, true, false, ◌||◌}
use mathlib.Core.List.{List, [], ◌∷◌, ◌++◌, map}
use native.Mathlib.Omega.{arith}
use cf_docker_tunnel_sync.Base.Tests.{◌==◌, if◌then◌else◌}

module _ {ℓ} {A : Type ℓ} where
  abbrev pub length : List A → ℕ
  length [] = 0
  length (x ∷ xs) = suc (length xs)

  pub length-append : (xs ys : List A) → length (xs ++ ys) ≡ length xs + length ys
  length-append [] ys = omega arith
  length-append (x ∷ xs) ys = omega (arith, length-append xs ys)

  abbrev pub is_empty : List A → Bool
  is_empty [] = true
  is_empty (x ∷ xs) = false

  -- `[x for x in xs if p(x)]`
  abbrev pub keep : (A → Bool) → List A → List A
  keep p [] = []
  keep p (x ∷ xs) = let rest = keep p xs in if p x then x ∷ rest else rest

  pub keep-append : (p : A → Bool) (xs ys : List A) → keep p (xs ++ ys) ≡ keep p xs ++ keep p ys
  keep-append p [] ys = refl
  keep-append p (x ∷ xs) ys = ground (arith, keep-append p xs ys)

  -- `sum(1 for x in xs if p(x))`
  abbrev pub count : (A → Bool) → List A → ℕ
  count p [] = 0
  count p (x ∷ xs) = (if p x then 1 else 0) + count p xs

  pub count-append : (p : A → Bool) (xs ys : List A) → count p (xs ++ ys) ≡ count p xs + count p ys
  count-append p [] ys = omega arith
  count-append p (x ∷ xs) ys = omega (arith, count-append p xs ys)

  -- `any(p(x) for x in xs)`
  abbrev pub any : (A → Bool) → List A → Bool
  any p [] = false
  any p (x ∷ xs) = p x || any p xs

  pub any-append : (p : A → Bool) (xs ys : List A) → any p (xs ++ ys) ≡ (any p xs || any p ys)
  any-append p [] ys = refl
  any-append p (x ∷ xs) ys = ground (arith, any-append p xs ys)

module _ {ℓ κ} {A : Type ℓ} (P : A → Type κ) where
  abbrev pub All : List A → Type κ
  All [] = Unit
  All (x ∷ xs) = P x × All xs

  pub All-append : (xs ys : List A) → All xs → All ys → All (xs ++ ys)
  All-append [] ys hx hy = hy
  All-append (x ∷ xs) ys hx hy = (hx.0, All-append xs ys hx.1 hy)

module _ {ℓ κ μ} {A : Type ℓ} {P : A → Type κ} {Q : A → Type μ} where
  pub All-map : ((x : A) → P x → Q x) → (xs : List A) → All P xs → All Q xs
  All-map f [] h = tt
  All-map f (x ∷ xs) h = (f x h.0, All-map f xs h.1)

-- `x in xs`
abbrev pub contains : List String → String → Bool
contains [] a = false
contains (x ∷ xs) a = a == x || contains xs a

module _ {A : Type 0} where
  -- `x` stands in the list.
  abbrev pub In : A → List A → Type 0
  In x [] = ⊥
  In x (y ∷ ys) = (x ≡ y) ⊎ In x ys

  pub In-append_left : (x : A) (xs ys : List A) → In x xs → In x (xs ++ ys)
  In-append_left x [] ys h = absurd h
  In-append_left x (y ∷ xs) ys (inl e) = inl e
  In-append_left x (y ∷ xs) ys (inr h) = inr (In-append_left x xs ys h)

  pub In-append_right : (x : A) (xs ys : List A) → In x ys → In x (xs ++ ys)
  In-append_right x [] ys h = h
  In-append_right x (y ∷ xs) ys h = inr (In-append_right x xs ys h)

  -- Each element stands in the list.
  pub All-In : (xs : List A) → All (λ x. In x xs) xs
  All-In [] = tt
  All-In (x ∷ xs) = (inl refl, All-map (λ y h. inr h) xs (All-In xs))

  pub All-at {κ} : (P : A → Type κ) (x : A) (xs : List A) → All P xs → In x xs → P x
  All-at P x [] a h = absurd h
  All-at P x (y ∷ ys) a (inl e) = subst P (sym e) a.0
  All-at P x (y ∷ ys) a (inr h) = All-at P x ys a.1 h

pub All-trivial {ℓ} : {A : Type ℓ} (xs : List A) → All (λ x. Unit {0}) xs
All-trivial [] = tt
All-trivial (x ∷ xs) = (tt, All-trivial xs)

contains-cons :
    (a b : String) (xs : List String) → contains xs a ≡ true → contains (b ∷ xs) a ≡ true
contains-cons a b xs h = ground arith

pub All-contains : (xs : List String) → All (λ x. contains xs x ≡ true) xs
All-contains [] = tt
All-contains (x ∷ xs) = (ground arith, All-map (λ y h. contains-cons y x xs h) xs (All-contains xs))

pub contains-append :
    (xs ys : List String) (a : String) → contains (xs ++ ys) a ≡ (contains xs a || contains ys a)
contains-append [] ys a = refl
contains-append (x ∷ xs) ys a = ground (arith, contains-append xs ys a)

-- No text stands twice.
abbrev pub Once : List String → Type 0
Once [] = Unit
Once (x ∷ xs) = (contains xs x ≡ false) × Once xs

pub Once-append :
    (xs : List String) (a : String) → Once xs → contains xs a ≡ false → Once (xs ++ a ∷ [])
Once-append [] a o h = (refl, tt)
Once-append (x ∷ xs) a o h =
    (ground (arith, contains-append xs (a ∷ []) x, o.0), Once-append xs a o.1 (ground arith))

module _ {ℓ μ} {A : Type ℓ} {B : Type μ} (f : A → B) where
  pub length-map : (xs : List A) → length (map f xs) ≡ length xs
  length-map [] = refl
  length-map (x ∷ xs) = ap suc (length-map xs)
