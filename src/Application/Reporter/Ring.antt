-- ===== src/Application/Reporter/Ring.antt =====
-- tunnel_sync/application/reporting.py: lists that keep their newest entries, and what they hold.
use cf_docker_tunnel_sync.Base.{
  ℕ, zero, suc, ◌≤◌, true, false, List, [], ◌∷◌, ◌≡◌, refl, sym, ap, ◌∙◌, inl, inr, Bool-cases,
  arith, ltb, if◌then◌else◌,
}
use cf_docker_tunnel_sync.Base.Lists.{length}

full : (limit n : ℕ) → ltb limit (suc n) ≡ true → n ≤ limit → n ≡ limit
full limit n e h = ground arith

fits : (limit n : ℕ) → ltb limit (suc n) ≡ false → suc n ≤ limit
fits limit n e = ground arith

module _ {A : Type 0} where
  -- `xs.pop()`
  unfoldable pub without_last : List A → List A
  without_last [] = []
  without_last (x ∷ []) = []
  without_last (x ∷ y ∷ xs) = x ∷ without_last (y ∷ xs)

  -- `xs.insert(0, x)`, and a `pop` if there are more than `limit` entries
  unfoldable pub push : ℕ → A → List A → List A
  push limit x xs = if ltb limit (length (x ∷ xs)) then without_last (x ∷ xs) else x ∷ xs

  unfoldable pub push_all : ℕ → List A → List A → List A
  push_all limit [] xs = xs
  push_all limit (e ∷ es) xs = push_all limit es (push limit e xs)

  abbrev pub take : ℕ → List A → List A
  take zero xs = []
  take (suc n) [] = []
  take (suc n) (x ∷ xs) = x ∷ take n xs

  -- Entries on top of others, the newest first.
  abbrev pub newest : List A → List A → List A
  newest [] xs = xs
  newest (e ∷ es) xs = newest es (e ∷ xs)

  length-take : (n : ℕ) (xs : List A) → length (take n xs) ≤ n
  length-take zero xs = omega arith
  length-take (suc n) [] = omega arith
  length-take (suc n) (x ∷ xs) = omega (arith, length-take n xs)

  take-all : (n : ℕ) (xs : List A) → length xs ≤ n → take n xs ≡ xs
  take-all zero [] h = refl
  take-all zero (x ∷ xs) h = absurd (omega (arith, h))
  take-all (suc n) [] h = refl
  take-all (suc n) (x ∷ xs) h = ap (λ ys. x ∷ ys) (take-all n xs (omega (arith, h)))

  take-take : (n : ℕ) (xs : List A) → take n (take (suc n) xs) ≡ take n xs
  take-take zero xs = refl
  take-take (suc n) [] = refl
  take-take (suc n) (x ∷ xs) = ap (λ ys. x ∷ ys) (take-take n xs)

  take-cons : (n : ℕ) (x : A) (xs : List A) → take n (x ∷ take n xs) ≡ take n (x ∷ xs)
  take-cons zero x xs = refl
  take-cons (suc n) x xs = ap (λ ys. x ∷ ys) (take-take n xs)

  without_last-take : (x : A) (xs : List A) → without_last (x ∷ xs) ≡ take (length xs) (x ∷ xs)
  unfolding without_last
  without_last-take x [] = refl
  without_last-take x (y ∷ xs) = ap (λ ys. x ∷ ys) (without_last-take y xs)

  push-take :
      (limit : ℕ) (x : A) (xs : List A) → length xs ≤ limit → push limit x xs ≡ take limit (x ∷ xs)
  unfolding push
  push-take limit x xs h = elim (Bool-cases (ltb limit (length (x ∷ xs)))) [
    | inl e ↦ rw e (without_last-take x xs ∙ ap (λ n. take n (x ∷ xs)) (full limit (length xs) e h))
    | inr e ↦ rw e (sym (take-all limit (x ∷ xs) (fits limit (length xs) e)))
  ]

  -- What is pushed onto the newest entries leaves the newest entries.
  pub push_all-newest :
      (limit : ℕ) (es xs : List A) → push_all limit es (take limit xs) ≡ take limit (newest es xs)
  unfolding push_all
  push_all-newest limit [] xs = refl
  push_all-newest limit (e ∷ es) xs =
      ap (push_all limit es)
        (push-take limit e (take limit xs) (length-take limit xs) ∙ take-cons limit e xs)
      ∙ push_all-newest limit es (e ∷ xs)
