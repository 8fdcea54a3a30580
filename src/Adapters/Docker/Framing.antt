-- ===== src/Adapters/Docker/Framing.antt =====
-- tunnel_sync/adapters/docker.py: events do not depend on how the stream is cut into chunks.
use cf_docker_tunnel_sync.Base.{
  ℕ, Bool, false, Option, List, [], ◌∷◌, ◌++◌, ◌≡◌, refl, sym, ap, ◌∙◌, inl, inr, Bool-cases, ◌=ℕ◌,
}
use mathlib.Core.List.{append-nil, append_assoc}
use cf_docker_tunnel_sync.Adapters.Docker.Stream.{
  Bytes, Delivered, deliver, followed, prepend, lstrip, rstrip, event_of, lines, events, read_chunk,
  read_all,
}

-- The bytes of a list of chunks.
abbrev pub joined : List Bytes → Bytes
joined [] = []
joined (chunk ∷ chunks) = chunk ++ joined chunks

abbrev join_lines : List Bytes → List Bytes × Bytes → List Bytes × Bytes
join_lines ls (ms, rest) = (ls ++ ms, rest)

lines-byte : (b : ℕ) (xs : Bytes) → (b =ℕ 10) ≡ false → lines (b ∷ xs) ≡ prepend b (lines xs)
unfolding lines
lines-byte b xs e = rw e refl

join-prepend :
    (b : ℕ) (ls : List Bytes) (rest ys : Bytes)
    → (b =ℕ 10) ≡ false
    → join_lines (prepend b (ls, rest)).0 (lines ((prepend b (ls, rest)).1 ++ ys))
      ≡ prepend b (join_lines ls (lines (rest ++ ys)))
join-prepend b [] rest ys e = lines-byte b (rest ++ ys) e
join-prepend b (l ∷ ls) rest ys e = refl

-- Lines of a text in two parts: the second one begins with what the first leaves.
lines-append :
    (xs ys : Bytes) → lines (xs ++ ys) ≡ join_lines (lines xs).0 (lines ((lines xs).1 ++ ys))
unfolding lines
lines-append [] ys = refl
lines-append (b ∷ xs) ys = elim (Bool-cases (b =ℕ 10)) [
  | inl e ↦ rw e (ap (λ p. ([] ∷ p.0, p.1)) (lines-append xs ys))
  | inr e ↦
      rw e
        (ap (prepend b) (lines-append xs ys) ∙ sym (join-prepend b (lines xs).0 (lines xs).1 ys e))
]

-- What is left has no line.
IsRest : Bytes → Type 0
IsRest xs = lines xs ≡ ([], xs)

prepend-IsRest :
    (b : ℕ) (ls : List Bytes) (rest : Bytes)
    → (b =ℕ 10) ≡ false
    → IsRest rest
    → IsRest (prepend b (ls, rest)).1
unfolding IsRest
prepend-IsRest b [] rest e h = lines-byte b rest e ∙ ap (prepend b) h
prepend-IsRest b (l ∷ ls) rest e h = h

lines-IsRest : (xs : Bytes) → IsRest (lines xs).1
unfolding lines
lines-IsRest [] = unfold IsRest in refl
lines-IsRest (b ∷ xs) = elim (Bool-cases (b =ℕ 10)) [
  | inl e ↦ rw e (lines-IsRest xs)
  | inr e ↦ rw e (prepend-IsRest b (lines xs).0 (lines xs).1 e (lines-IsRest xs))
]

module _ {E : Type 0} (parse : Bytes → Option E) where
  events-append :
      (ls ms : List Bytes) → events parse (ls ++ ms) ≡ events parse ls ++ events parse ms
  unfolding events
  events-append [] ms = refl
  events-append (l ∷ ls) ms =
      let head = event_of parse (lstrip (rstrip l)) in
      ap (λ rest. head ++ rest) (events-append ls ms)
      ∙ sym (append_assoc head (events parse ls) (events parse ms))

push : {E : Type 0} → E → Delivered E → Delivered E
push e d = record d { handed = e ∷ d.handed }

push-followed :
    {E : Type 0} (e : E) (a b : Delivered E) → push e (followed a b) ≡ followed (push e a) b
unfolding push followed
push-followed e a b = elim (Bool-cases a.raised) [ inl r ↦ rw r refl | inr r ↦ rw r refl ]

deliver-append :
    {E : Type 0} (accepts : E → Bool) (xs ys : List E)
    → deliver accepts (xs ++ ys) ≡ followed (deliver accepts xs) (deliver accepts ys)
unfolding deliver followed push
deliver-append accepts [] ys = refl
deliver-append accepts (e ∷ xs) ys = elim (Bool-cases (accepts e)) [
  | inl r ↦ rw r (
      ap (push e) (deliver-append accepts xs ys)
      ∙ push-followed e (deliver accepts xs) (deliver accepts ys))
  | inr r ↦ rw r refl
]

module _ {E : Type 0} (parse : Bytes → Option E) (accepts : E → Bool) where
  read_all-lines :
      (buffer : Bytes) (chunks : List Bytes)
      → IsRest buffer
      → read_all parse accepts buffer chunks
        ≡ deliver accepts (events parse (lines (buffer ++ joined chunks)).0)
  unfolding read_all read_chunk events IsRest
  read_all-lines buffer [] h =
      rw (append-nil buffer) (sym (ap (λ p. deliver accepts (events parse p.0)) h))
  read_all-lines buffer (chunk ∷ chunks) h =
      let taken = lines (buffer ++ chunk) in
      ap (followed (deliver accepts (events parse taken.0)))
        (read_all-lines taken.1 chunks (lines-IsRest (buffer ++ chunk)))
      ∙ sym (
          deliver-append accepts (events parse taken.0)
            (events parse (lines (taken.1 ++ joined chunks)).0))
      ∙ ap (deliver accepts)
          (sym (events-append parse taken.0 (lines (taken.1 ++ joined chunks)).0))
      ∙ ap (λ p. deliver accepts (events parse p.0))
          (sym (lines-append (buffer ++ chunk) (joined chunks)))
      ∙ ap (λ bs. deliver accepts (events parse (lines bs).0))
          (append_assoc buffer chunk (joined chunks))

  -- A connection hands on the events of the lines of all its bytes in a row, up to the one on which the
  -- callback raises, if it does: neither depends on how the stream is cut into chunks.
  pub read_all-joined :
      (chunks : List Bytes)
      → read_all parse accepts [] chunks ≡ deliver accepts (events parse (lines (joined chunks)).0)
  unfolding lines
  read_all-joined chunks = read_all-lines [] chunks (lines-IsRest [])
