-- ===== src/Base/Dict.antt =====
-- Python's `dict` with text keys, as an association list in insertion order.
use Prim.Native.String.{String}
use mathlib.Core.Path.{◌≡◌, refl, sym, subst, subst₂}
use mathlib.Core.Bool.{Bool, true, false}
use mathlib.Core.Logic.{◌⊎◌, inl, inr}
use mathlib.Core.Option.{Option, none, some}
use mathlib.Core.List.{List, [], ◌∷◌}
use native.Mathlib.Omega.{arith}
use cf_docker_tunnel_sync.Base.Tests.{◌==◌, string_dec, Bool-cases, eq_of_test, if◌then◌else◌}
use cf_docker_tunnel_sync.Base.Lists.{contains, All}

abbrev pub Dict {ℓ} : Type ℓ → Type ℓ
Dict V = List (String × V)

module _ {ℓ} {V : Type ℓ} where
  -- `d.get(k)`
  unfoldable pub lookup : String → Dict V → Option V
  lookup k [] = none
  lookup k ((j, v) ∷ d) = if k == j then some v else lookup k d

  -- `d[k] = v`: an old key keeps its place.
  unfoldable pub insert : String → V → Dict V → Dict V
  insert k v [] = (k, v) ∷ []
  insert k v ((j, w) ∷ d) = if k == j then (j, v) ∷ d else (j, w) ∷ insert k v d

  -- `d.pop(k, None)`. Every entry of the key goes; a real dict has at most one.
  unfoldable pub erase : String → Dict V → Dict V
  erase k [] = []
  erase k ((j, w) ∷ d) = let rest = erase k d in if k == j then rest else (j, w) ∷ rest

  -- `d.setdefault(k, v)`, the result dropped
  unfoldable pub set_default : String → V → Dict V → Dict V
  unfolding lookup
  set_default k v d = elim (lookup k d) [ none ↦ insert k v d | some _ ↦ d ]

  -- `d.update(e)`
  unfoldable pub update : Dict V → Dict V → Dict V
  unfolding insert
  update d [] = d
  update d ((k, v) ∷ e) = update (insert k v d) e

  -- `k in d`
  abbrev pub is_some : Option V → Bool
  is_some none = false
  is_some (some _) = true

  abbrev pub contains_key : String → Dict V → Bool
  contains_key k d = is_some (lookup k d)

  -- `list(d)`
  abbrev pub keys : Dict V → List String
  keys [] = []
  keys ((k, _) ∷ d) = k ∷ keys d

  abbrev pub values : Dict V → List V
  values [] = []
  values ((_, v) ∷ d) = v ∷ values d

  pub lookup-nil : (k : String) → lookup k [] ≡ none
  unfolding lookup
  lookup-nil k = refl

  pub lookup-cons :
      (j k : String) (v : V) (d : Dict V)
      → lookup j ((k, v) ∷ d) ≡ (if j == k then some v else lookup j d)
  unfolding lookup
  lookup-cons j k v d = refl

  pub lookup-insert :
      (j k : String) (v : V) (d : Dict V)
      → lookup j (insert k v d) ≡ (if j == k then some v else lookup j d)
  unfolding insert lookup
  lookup-insert j k v [] = refl
  lookup-insert j k v ((i, w) ∷ d) = ground (arith, lookup-insert j k v d)

  pub lookup-erase :
      (j k : String) (d : Dict V) → lookup j (erase k d) ≡ (if j == k then none else lookup j d)
  unfolding erase lookup
  lookup-erase j k [] = ground arith
  lookup-erase j k ((i, w) ∷ d) = ground (arith, lookup-erase j k d)

  pub lookup-set_default :
      (j k : String) (v : V) (d : Dict V)
      → lookup j (set_default k v d)
        ≡ (if j == k then (if contains_key k d then lookup j d else some v) else lookup j d)
  unfolding set_default
  lookup-set_default j k v d = ground (arith, lookup-insert j k v d)

  -- Each key stands once.
  abbrev pub NodupKeys : Dict V → Type ℓ
  NodupKeys [] = Unit
  NodupKeys ((k, _) ∷ d) = (lookup k d ≡ none) × NodupKeys d

  -- The first value, if there is one, else the second.
  abbrev pub first_some : Option V → Option V → Option V
  first_some none o = o
  first_some (some v) _ = some v

  pub lookup-update :
      (j : String) (d e : Dict V)
      → NodupKeys e
      → lookup j (update d e) ≡ first_some (lookup j e) (lookup j d)
  unfolding update
  lookup-update j d [] u = rw (lookup-nil j)
  lookup-update j d ((k, v) ∷ e) u =
      rw (lookup-update j (insert k v d) e u.1, lookup-insert j k v d, lookup-cons j k v e)
        (ground (arith, u.0))

  pub contains-keys : (k : String) (d : Dict V) → contains (keys d) k ≡ contains_key k d
  unfolding lookup
  contains-keys k [] = refl
  contains-keys k ((j, v) ∷ d) = ground (arith, contains-keys k d)

  -- What a lookup after an insertion finds is the new value or an old one.
  pub lookup-insert_cases :
      (j k : String) (v w : V) (d : Dict V)
      → lookup j (insert k v d) ≡ some w
      → ((j ≡ k) × (v ≡ w)) ⊎ (lookup j d ≡ some w)
  lookup-insert_cases j k v w d h = elim (string_dec j k) [
    | yes e ↦ inl (e, ground (arith, lookup-insert j k v d))
    | no n ↦ inr (ground (arith, lookup-insert j k v d))
  ]

-- What holds of the entries of two dicts holds of those of their union.
module _ {ℓ} {V : Type 0} (P : String → V → Type ℓ) where
  abbrev pub Entry : String × V → Type ℓ
  Entry (k, v) = P k v

  pub All-insert :
      (k : String) (v : V) (d : Dict V) → P k v → All Entry d → All Entry (insert k v d)
  unfolding insert
  All-insert k v [] p a = (p, tt)
  All-insert k v ((j, w) ∷ d) p a = elim (Bool-cases (k == j)) [
    | inl e ↦ rw e (subst (λ i. P i v) (eq_of_test k j e) p, a.1)
    | inr e ↦ rw e (a.0, All-insert k v d p a.1)
  ]

  pub All-update : (d e : Dict V) → All Entry d → All Entry e → All Entry (update d e)
  unfolding update
  All-update d [] a b = a
  All-update d ((k, v) ∷ e) a b = All-update (insert k v d) e (All-insert k v d b.0 a) b.1

  pub All-lookup : (k : String) (v : V) (d : Dict V) → All Entry d → lookup k d ≡ some v → P k v
  unfolding lookup
  All-lookup k v [] a h = cc
  All-lookup k v ((j, w) ∷ d) a h = elim (string_dec k j) [
    | yes e ↦ subst₂ P (sym e) (ground arith) a.0
    | no n ↦ All-lookup k v d a.1 (ground arith)
  ]

  pub All-set_default :
      (k : String) (v : V) (d : Dict V) → P k v → All Entry d → All Entry (set_default k v d)
  unfolding set_default
  All-set_default k v d p a = go (lookup k d)
    where
      go : (o : Option V) → All Entry (elim o [ none ↦ insert k v d | some _ ↦ d ])
      go none = All-insert k v d p a
      go (some _) = a
