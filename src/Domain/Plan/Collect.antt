-- ===== src/Domain/Plan/Collect.antt =====
-- What holds of each iteration of a loop holds of all that the loop appends.
use cf_docker_tunnel_sync.Base.{ℕ, String, List, [], ◌∷◌, inl, inr, subst}
use cf_docker_tunnel_sync.Base.Lists.{All, All-append, In, In-append_left, In-append_right}
use cf_docker_tunnel_sync.Base.Dict.{Entry, All-update}
use cf_docker_tunnel_sync.Domain.Models.{Rule}
use cf_docker_tunnel_sync.Domain.Plan.{Output, collect}

module _ {A C : Type 0} (f : A → Output C) where
  module _ (P : C → Type 0) (Q : A → Type 0) (step : (x : A) → Q x → All P (f x).changes) where
    pub All-changes : (xs : List A) → All Q xs → All P (collect f xs).changes
    unfolding collect
    All-changes [] h = tt
    All-changes (x ∷ xs) h =
        All-append P (f x).changes (collect f xs).changes (step x h.0) (All-changes xs h.1)

  module _ (P : Rule → Type 0) (Q : A → Type 0) (step : (x : A) → Q x → All P (f x).roots) where
    pub All-roots : (xs : List A) → All Q xs → All P (collect f xs).roots
    unfolding collect
    All-roots [] h = tt
    All-roots (x ∷ xs) h =
        All-append P (f x).roots (collect f xs).roots (step x h.0) (All-roots xs h.1)

  pub In-changes :
      (c : C) (x : A) (xs : List A) → In x xs → In c (f x).changes → In c (collect f xs).changes
  unfolding collect
  In-changes c x [] m h = absurd m
  In-changes c x (y ∷ ys) (inl e) h =
      In-append_left c (f y).changes (collect f ys).changes (subst (λ z. In c (f z).changes) e h)
  In-changes c x (y ∷ ys) (inr m) h =
      In-append_right c (f y).changes (collect f ys).changes (In-changes c x ys m h)

  module _ (P : String → ℕ → Type 0) (Q : A → Type 0)
      (step : (x : A) → Q x → All (Entry P) (f x).to_set) where
    pub All-to_set : (xs : List A) → All Q xs → All (Entry P) (collect f xs).to_set
    unfolding collect
    All-to_set [] h = tt
    All-to_set (x ∷ xs) h =
        All-update P (f x).to_set (collect f xs).to_set (step x h.0) (All-to_set xs h.1)
