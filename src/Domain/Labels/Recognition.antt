-- ===== src/Domain/Labels/Recognition.antt =====
-- What `first_label` finds, `has_tunnel_labels` recognizes.
use cf_docker_tunnel_sync.Base.{
  String, Bool, true, ◌≡◌, ◌≢◌, refl, ap, inl, inr, some, List, [], ◌∷◌, ◌==◌, Bool-cases,
  eq_of_test, string_dec, arith,
}
use cf_docker_tunnel_sync.Base.Lists.{All, any}
use cf_docker_tunnel_sync.Base.Dict.{Dict, lookup, keys}
use cf_docker_tunnel_sync.Base.Text.{strip, lower}
use cf_docker_tunnel_sync.Domain.Labels.{
  LabelGroup, hostname_group, name_group, port_group, service_group, server_name_group,
  host_header_group, notls_group, tls_group, legacy_notls_group, legacy_tls_group, bare_notls_group,
  precedence, truthy, first_of, first_label, is_tunnel_label, has_tunnel_labels,
}

any-keys :
    (p : String → Bool) (key v : String) (labels : Dict String)
    → lookup key labels ≡ some v
    → p key ≡ true
    → any p (keys labels) ≡ true
unfolding lookup
any-keys p key v [] h good = absurd (cc h)
any-keys p key v ((k, w) ∷ labels) h good = elim (Bool-cases (key == k)) [
  | inl e ↦ (let same = eq_of_test key k e in ground (arith, ap p same))
  | inr e ↦ ground (arith, any-keys p key v labels (simp e at h) good)
]

-- A truthy value that is found under one of the keys.
first_of-has_tunnel_labels :
    (labels : Dict String) (names : List String) (v : String)
    → All (λ k. is_tunnel_label k ≡ true) names
    → first_of labels names ≡ some v
    → has_tunnel_labels labels ≡ true
unfolding first_of
first_of-has_tunnel_labels labels [] v good h = absurd (cc h)
first_of-has_tunnel_labels labels (k ∷ names) v good h =
    elim (Bool-cases (truthy (lookup k labels))) [
      | inl e ↦ unfold has_tunnel_labels in any-keys is_tunnel_label k v labels (simp e at h) good.0
      | inr e ↦ first_of-has_tunnel_labels labels names v good.1 (simp e at h)
    ]

-- Each name of every group but the last one is recognized.
recognized :
    (group : LabelGroup)
    → group ≢ bare_notls_group
    → All (λ k. is_tunnel_label k ≡ true) (precedence group)
unfolding precedence is_tunnel_label lower strip string_dec
recognized hostname_group h = (refl, (refl, (refl, (refl, (refl, (refl, (refl, (refl, tt))))))))
recognized name_group h = (refl, (refl, (refl, (refl, tt))))
recognized port_group h = (refl, (refl, (refl, tt)))
recognized service_group h = (refl, (refl, tt))
recognized server_name_group h = (refl, (refl, (refl, (refl, (refl, (refl, tt))))))
recognized host_header_group h = (refl, (refl, (refl, (refl, (refl, (refl, tt))))))
recognized notls_group h = (refl, (refl, (refl, (refl, tt))))
recognized tls_group h = (refl, (refl, tt))
recognized legacy_notls_group h = (refl, (refl, (refl, (refl, tt))))
recognized legacy_tls_group h = (refl, (refl, tt))
recognized bare_notls_group h = absurd (h refl)

-- If `first_label` finds a value for a group other than "notlsverify", then `has_tunnel_labels`
-- says that the container has tunnel labels.
pub first_label-has_tunnel_labels :
    (labels : Dict String) (group : LabelGroup) (v : String)
    → group ≢ bare_notls_group
    → first_label labels group ≡ some v
    → has_tunnel_labels labels ≡ true
unfolding first_label
first_label-has_tunnel_labels labels group v h found =
    first_of-has_tunnel_labels labels (precedence group) v (recognized group h) found
