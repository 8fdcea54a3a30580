-- ===== src/Base/Json.antt =====
-- JSON values as Python holds them, with `==` and truth values.
-- A fraction does not occur in the values that the code compares.
use Prim.Native.Nat.{ℕ, suc}
use Prim.Native.String.{String}
use mathlib.Core.Bool.{Bool, true, false, not, ◌&&◌}
use mathlib.Core.Option.{Option, none, some}
use cf_docker_tunnel_sync.Base.Tests.{◌==◌, ◌=ℕ◌, if◌then◌else◌}

mutual
  pub data Json : Type 0 where
    null : Json
    bool : Bool → Json
    num : ℕ → Json
    text : String → Json
    arr : Items → Json
    obj : Fields → Json

  pub data Items : Type 0 where
    nil : Items
    cons : Json → Items → Items

  pub data Fields : Type 0 where
    end : Fields
    field : String → Json → Fields → Fields

unfoldable pub get_field : String → Fields → Option Json
get_field k end = none
get_field k (field j v fs) = if k == j then some v else get_field k fs

size_fields : Fields → ℕ
size_fields end = 0
size_fields (field _ _ fs) = suc (size_fields fs)

-- `True == 1` and `False == 0`.
as_num : Json → Option ℕ
as_num (bool true) = some 1
as_num (bool false) = some 0
as_num (num n) = some n
as_num _ = none

same_num : ℕ → Option ℕ → Bool
same_num n none = false
same_num n (some m) = n =ℕ m

unfoldable mutual
  unfolding get_field size_fields as_num same_num

  -- `a == b`: dicts are equal if they hold equal values at the same keys, in any order.
  pub json_eq : Json → Json → Bool
  json_eq null b = elim b [ null ↦ true | _ ↦ false ]
  json_eq (bool true) b = same_num 1 (as_num b)
  json_eq (bool false) b = same_num 0 (as_num b)
  json_eq (num n) b = same_num n (as_num b)
  json_eq (text s) b = elim b [ text t ↦ s == t | _ ↦ false ]
  json_eq (arr xs) b = elim b [ arr ys ↦ items_eq xs ys | _ ↦ false ]
  json_eq (obj fs) b = elim b [
    | obj gs ↦ (size_fields fs =ℕ size_fields gs) && fields_within fs gs
    | _ ↦ false
  ]

  items_eq : Items → Items → Bool
  items_eq nil nil = true
  items_eq (cons x xs) (cons y ys) = json_eq x y && items_eq xs ys
  items_eq _ _ = false

  fields_within : Fields → Fields → Bool
  fields_within end gs = true
  fields_within (field k v fs) gs = elim (get_field k gs) [
    | none ↦ false
    | some w ↦ json_eq v w && fields_within fs gs
  ]

-- `bool(v)`
unfoldable pub truthy : Json → Bool
truthy null = false
truthy (bool b) = b
truthy (num n) = not (n =ℕ 0)
truthy (text s) = not (s == "")
truthy (arr nil) = false
truthy (arr (cons _ _)) = true
truthy (obj end) = false
truthy (obj (field _ _ _)) = true

unfoldable pub truthy? : Option Json → Bool
unfolding truthy
truthy? none = false
truthy? (some v) = truthy v
