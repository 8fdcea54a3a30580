-- ===== src/Application/Fetching/Lookups.antt =====
-- tunnel_sync/application/sync.py: what the dicts of `fetch_dns` hold at an id.
use cf_docker_tunnel_sync.Base.{
  String, subst, Bool, true, false, not, ◌&&◌, Option, none, some, List, [], ◌∷◌, ◌≡◌, refl, ap,
  inl, inr, arith, Bool-cases, ◌==◌, if◌then◌else◌,
}
use cf_docker_tunnel_sync.Base.Lists.{All, keep}
use cf_docker_tunnel_sync.Base.Dict.{
  Dict, lookup, insert, lookup-nil, lookup-cons, lookup-insert, NodupKeys, first_some,
}
use cf_docker_tunnel_sync.Domain.Models.{DnsRecord, or_default}
use cf_docker_tunnel_sync.Application.Fetching.{add_records, keep_values}

abbrev pub key : DnsRecord → String
key rec = or_default rec.id ""

abbrev pub is_at : String → DnsRecord → Bool
is_at id rec = not (key rec == "") && id == key rec

-- The record with the id, in a list.
unfoldable pub find : String → List DnsRecord → Option DnsRecord
find id [] = none
find id (rec ∷ recs) = let rest = find id recs in if is_at id rec then some rec else rest

-- No two records have the same id.
abbrev pub UniqueIds : List DnsRecord → Type 0
UniqueIds [] = Unit
UniqueIds (rec ∷ recs) = (find (key rec) recs ≡ none) × UniqueIds recs

abbrev pub passes : (DnsRecord → Bool) → Option DnsRecord → Bool
passes p none = false
passes p (some rec) = p rec

abbrev pub pick : Bool → Option DnsRecord → Option DnsRecord
pick b o = if b then o else none

same_key : (id : String) (rec : DnsRecord) → is_at id rec ≡ true → id ≡ key rec
same_key id rec h = ground arith

pub find-keep :
    (p : DnsRecord → Bool) (id : String) (recs : List DnsRecord)
    → UniqueIds recs
    → find id (keep p recs) ≡ pick (passes p (find id recs)) (find id recs)
unfolding find
find-keep p id [] u = refl
find-keep p id (rec ∷ recs) u =
    let ih = find-keep p id recs u.1 in
    elim (Bool-cases (is_at id rec)) [
      | inl e ↦ ground (arith, ih, u.0, same_key id rec e)
      | inr e ↦ ground (arith, ih)
    ]

pub lookup-add_records :
    (id : String) (recs : List DnsRecord) (d : Dict DnsRecord)
    → UniqueIds recs
    → lookup id (add_records recs d) ≡ first_some (find id recs) (lookup id d)
unfolding add_records find
lookup-add_records id [] d u = refl
lookup-add_records id (rec ∷ recs) d u = ground (
  arith,
  lookup-add_records id recs d u.1,
  lookup-insert id (key rec) rec d,
  lookup-add_records id recs (insert (key rec) rec d) u.1,
  u.0,
)

pub lookup-keep_values :
    (p : DnsRecord → Bool) (id : String) (d : Dict DnsRecord)
    → NodupKeys d
    → lookup id (keep_values p d) ≡ pick (passes p (lookup id d)) (lookup id d)
unfolding keep_values lookup
lookup-keep_values p id [] u = refl
lookup-keep_values p id ((rid, rec) ∷ d) u =
    ground (arith, lookup-keep_values p id d u.1, u.0, lookup-cons id rid rec (keep_values p d))

insert-NodupKeys :
    (k : String) (v : DnsRecord) (d : Dict DnsRecord) → NodupKeys d → NodupKeys (insert k v d)
unfolding insert
insert-NodupKeys k v [] u = (lookup-nil k, tt)
insert-NodupKeys k v ((j, w) ∷ d) u = elim (Bool-cases (k == j)) [
  | inl e ↦ rw e u
  | inr e ↦ rw e (ground (arith, lookup-insert j k v d, u.0), insert-NodupKeys k v d u.1)
]

pub add_records-NodupKeys :
    (recs : List DnsRecord) (d : Dict DnsRecord) → NodupKeys d → NodupKeys (add_records recs d)
unfolding add_records
add_records-NodupKeys [] d u = u
add_records-NodupKeys (rec ∷ recs) d u = add_records-NodupKeys recs _ (next (key rec == ""))
  where
    next : (b : Bool) → NodupKeys (if b then d else insert (key rec) rec d)
    next true = u
    next false = insert-NodupKeys (key rec) rec d u

pub keep-UniqueIds :
    (p : DnsRecord → Bool) (recs : List DnsRecord) → UniqueIds recs → UniqueIds (keep p recs)
keep-UniqueIds p [] u = tt
keep-UniqueIds p (rec ∷ recs) u = elim (Bool-cases (p rec)) [
  | inl e ↦ rw e (ground (arith, find-keep p (key rec) recs u.1, u.0), keep-UniqueIds p recs u.1)
  | inr e ↦ rw e (keep-UniqueIds p recs u.1)
]

-- What holds of all records holds of the one that is found.
pub find-All :
    (P : DnsRecord → Type 0) (id : String) (recs : List DnsRecord) (rec : DnsRecord)
    → All P recs
    → find id recs ≡ some rec
    → P rec
unfolding find
find-All P id [] rec a h = absurd (cc h)
find-All P id (r ∷ recs) rec a h = elim (Bool-cases (is_at id r)) [
  | inl e ↦ subst P (some_injective r rec (simp e at h)) a.0
  | inr e ↦ find-All P id recs rec a.1 (simp e at h)
]
  where
    some_injective : (a b : DnsRecord) → some a ≡ some b → a ≡ b
    some_injective a b e = ap (λ o. or_default o a) e
