-- ===== src/Base/Sort.antt =====
-- Python's `sorted` on texts: a stable insertion sort by code points.
use Prim.Native.String.{String, compare}
use Prim.Native.Nat.{Ordering}
use mathlib.Core.Path.{◌≡◌, refl}
use mathlib.Core.Bool.{Bool, true, false, ◌||◌}
use mathlib.Core.List.{List, [], ◌∷◌}
use native.Mathlib.Omega.{arith}
use cf_docker_tunnel_sync.Base.Tests.{◌==◌, if◌then◌else◌}
use cf_docker_tunnel_sync.Base.Lists.{contains, is_empty}

abbrev pub text_le : String → String → Bool
text_le s t = elim (compare s t) [ Ordering.gt ↦ false | _ ↦ true ]

pub place : String → List String → List String
place x [] = x ∷ []
place x (y ∷ ys) = if text_le x y then x ∷ y ∷ ys else y ∷ place x ys

unfoldable pub sorted : List String → List String
unfolding place
sorted [] = []
sorted (x ∷ xs) = place x (sorted xs)

contains-place :
    (x : String) (ys : List String) (a : String)
    → contains (place x ys) a ≡ (a == x || contains ys a)
unfolding place
contains-place x [] a = refl
contains-place x (y ∷ ys) a = ground (arith, contains-place x ys a)

pub contains-sorted : (xs : List String) (a : String) → contains (sorted xs) a ≡ contains xs a
unfolding sorted
contains-sorted [] a = refl
contains-sorted (x ∷ xs) a = ground (arith, contains-place x (sorted xs) a, contains-sorted xs a)

place-nonempty : (x : String) (ys : List String) → is_empty (place x ys) ≡ false
unfolding place
place-nonempty x [] = refl
place-nonempty x (y ∷ ys) = ground arith

pub sorted-is_empty : (xs : List String) → is_empty (sorted xs) ≡ is_empty xs
unfolding sorted
sorted-is_empty [] = refl
sorted-is_empty (x ∷ xs) = place-nonempty x (sorted xs)
