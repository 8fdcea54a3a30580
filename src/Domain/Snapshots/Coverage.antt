-- ===== src/Domain/Snapshots/Coverage.antt =====
-- Each container is an origin or ignored.
use cf_docker_tunnel_sync.Base.{
  ℕ, String, Bool, true, not, ◌&&◌, ◌≡◌, refl, ap, inl, inr, List, [], ◌∷◌, map, ◌==◌, Bool-cases,
  eq_of_test, arith,
}
use cf_docker_tunnel_sync.Base.Lists.{In, keep, contains}
use cf_docker_tunnel_sync.Domain.Snapshots.{FoundService, first_name, build_discovery_snapshot}

contains-keep :
    (p : String → Bool) (xs : List String) (x : String)
    → contains (keep p xs) x ≡ (contains xs x && p x)
contains-keep p [] x = refl
contains-keep p (y ∷ xs) x = elim (Bool-cases (x == y)) [
  | inl e ↦ ground (arith, ap p (eq_of_test x y e), contains-keep p xs x)
  | inr e ↦ ground (arith, contains-keep p xs x)
]

contains-kept :
    (p : String → Bool) (xs : List String) (x : String)
    → contains xs x ≡ true
    → contains (keep p xs) x ≡ p x
contains-kept p xs x h = ground (arith, contains-keep p xs x)

contains-map :
    {A : Type 0} (f : A → String) (a : A) (xs : List A) → In a xs → contains (map f xs) (f a) ≡ true
contains-map f a [] h = absurd h
contains-map f a (x ∷ xs) (inl e) = ground (arith, ap f e)
contains-map f a (x ∷ xs) (inr h) = ground (arith, contains-map f a xs h)

-- The first name of a container is ignored exactly if no origin of the snapshot has it as its
-- container's name.
pub build_discovery_snapshot-ignored :
    (services : List FoundService) (all_containers : List (List String)) (timestamp : ℕ)
    (docker_ok : Bool) (names : List String)
    → In names all_containers
    → (let s = build_discovery_snapshot services all_containers timestamp docker_ok in
        contains s.ignored_containers (first_name names)
        ≡ not (contains (map (λ o. o.container_name) s.origins) (first_name names)))
unfolding build_discovery_snapshot
build_discovery_snapshot-ignored services all_containers timestamp docker_ok names listed =
    contains-kept _ (map first_name all_containers) (first_name names)
      (contains-map first_name names all_containers listed)
