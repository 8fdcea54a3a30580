-- ===== src/Domain/Diagnostics/Truthful.antt =====
-- When a service is reported as synced.
use cf_docker_tunnel_sync.Base.{
  String, Bool, true, false, ◌&&◌, ◌≡◌, ◌↔◌, refl, sym, ap, ◌∙◌, Option, none, some, ◌==◌,
  eq_of_test, ne_of_test, string_dec, if◌then◌else◌, arith,
}
use cf_docker_tunnel_sync.Base.Dict.{Dict, insert, lookup-insert}
use cf_docker_tunnel_sync.Domain.Models.{is_text}
use cf_docker_tunnel_sync.Domain.Diagnostics.{
  Stage, Service, status_at, truthful, synced, failed, degraded, pending, failed, degraded, pending,
  compute_truthful_service_status, ingress_result, dns_result, publish_service,
}

is_text-some : (o : Option String) (s : String) → is_text o s ≡ true → o ≡ some s
is_text-some none s h = absurd (cc h)
is_text-some (some t) s h = ap some (eq_of_test t s h)

last_test :
    (f g p w q : Bool)
    → (if f
        then failed
        else if g
        then degraded
        else if p
        then pending
        else if w
        then degraded
        else if q
        then synced
        else degraded)
      ≡ synced
    → q ≡ true
last_test f g p w q h = ground arith

conjuncts :
    (a b c d e : Bool)
    → (a && b && c && d && e) ≡ true
    → (a ≡ true) × (b ≡ true) × (c ≡ true) × (d ≡ true) × (e ≡ true)
conjuncts a b c d e h = ground arith

passing :
    (s1 s2 s3 s4 s5 : Option String)
    → truthful s1 s2 s3 s4 s5 ≡ synced
    → (is_text s1 "PASS" ≡ true)
      × (is_text s2 "PASS" ≡ true)
      × (is_text s3 "PASS" ≡ true)
      × (is_text s4 "PASS" ≡ true)
      × (is_text s5 "PASS" ≡ true)
unfolding truthful
passing s1 s2 s3 s4 s5 h = conjuncts _ _ _ _ _ (last_test _ _ _ _ _ h)

abbrev pub Pass : Option String → Type 0
Pass o = o ≡ some "PASS"

all-Pass :
    (s1 s2 s3 s4 s5 : Option String)
    → truthful s1 s2 s3 s4 s5 ≡ synced
    → Pass s1 × Pass s2 × Pass s3 × Pass s4 × Pass s5
all-Pass s1 s2 s3 s4 s5 h =
    let p = passing s1 s2 s3 s4 s5 h in
    (
      is_text-some s1 _ p.0,
      is_text-some s2 _ p.1,
      is_text-some s3 _ p.2,
      is_text-some s4 _ p.3,
      is_text-some s5 _ p.4,
    )

pass-synced :
    truthful (some "PASS") (some "PASS") (some "PASS") (some "PASS") (some "PASS") ≡ synced
unfolding truthful string_dec
pass-synced = refl

synced_of_Pass :
    (s1 s2 s3 s4 s5 : Option String)
    → Pass s1 × Pass s2 × Pass s3 × Pass s4 × Pass s5
    → truthful s1 s2 s3 s4 s5 ≡ synced
synced_of_Pass s1 s2 s3 s4 s5 p = rw (p.0, p.1, p.2, p.3, p.4) pass-synced

-- A service is reported as synced exactly if each of the stages 1 to 5 is there and has passed.
pub compute_truthful_service_status-synced :
    (stages : Dict Stage)
    → (compute_truthful_service_status stages ≡ synced) ↔ (
        Pass (status_at "LABEL_SYNTAX" stages)
        × Pass (status_at "TUNNEL_DOMAIN_MATCH" stages)
        × Pass (status_at "NETWORK_TOPOLOGY" stages)
        × Pass (status_at "CLOUDFLARE_INGRESS" stages)
        × Pass (status_at "CLOUDFLARE_DNS" stages))
unfolding compute_truthful_service_status
compute_truthful_service_status-synced stages = (all-Pass _ _ _ _ _, synced_of_Pass _ _ _ _ _)

status_at-insert :
    (name key : String) (v : Stage) (stages : Dict Stage)
    → status_at name (insert key v stages)
      ≡ (if name == key then some v.status else status_at name stages)
unfolding status_at
status_at-insert name key v stages = ground (arith, lookup-insert name key v stages)

failed_text : "FAILED" == "PASS" ≡ false
unfolding string_dec
failed_text = refl

result_passed :
    (t : String) (bad : Bool)
    → t ≡ (if bad then "FAILED" else "PASS")
    → Pass (some t) ↔ (bad ≡ false)
result_passed t true e =
    (λ p. absurd (ne_of_test "FAILED" "PASS" failed_text (sym e ∙ cc p)), λ h. absurd (cc h))
result_passed t false e = (λ p. refl, λ h. ap some e)

module _ (target_cname : String) (ingress_failed dns_failed : Bool) (s : Service) where
  abbrev published : Dict Stage
  published =
      insert "CLOUDFLARE_DNS" (dns_result target_cname dns_failed)
        (insert "CLOUDFLARE_INGRESS" (ingress_result s ingress_failed) s.stages)

  earlier :
      (name : String)
      → (name == "CLOUDFLARE_DNS") ≡ false
      → (name == "CLOUDFLARE_INGRESS") ≡ false
      → status_at name published ≡ status_at name s.stages
  earlier name h k = ground (
    arith,
    status_at-insert name "CLOUDFLARE_DNS" (dns_result target_cname dns_failed)
        (insert "CLOUDFLARE_INGRESS" (ingress_result s ingress_failed) s.stages),
    status_at-insert name "CLOUDFLARE_INGRESS" (ingress_result s ingress_failed) s.stages,
  )

  label_kept : status_at "LABEL_SYNTAX" published ≡ status_at "LABEL_SYNTAX" s.stages
  unfolding string_dec
  label_kept = earlier "LABEL_SYNTAX" refl refl

  domain_kept : status_at "TUNNEL_DOMAIN_MATCH" published ≡ status_at "TUNNEL_DOMAIN_MATCH" s.stages
  unfolding string_dec
  domain_kept = earlier "TUNNEL_DOMAIN_MATCH" refl refl

  network_kept : status_at "NETWORK_TOPOLOGY" published ≡ status_at "NETWORK_TOPOLOGY" s.stages
  unfolding string_dec
  network_kept = earlier "NETWORK_TOPOLOGY" refl refl

  dns_status-publish :
      status_at "CLOUDFLARE_DNS" published ≡ some (dns_result target_cname dns_failed).status
  unfolding string_dec
  dns_status-publish = status_at-insert "CLOUDFLARE_DNS" "CLOUDFLARE_DNS" _ _

  ingress_status-publish :
      status_at "CLOUDFLARE_INGRESS" published ≡ some (ingress_result s ingress_failed).status
  unfolding string_dec
  ingress_status-publish =
      status_at-insert "CLOUDFLARE_INGRESS" "CLOUDFLARE_DNS" _ _
      ∙ status_at-insert "CLOUDFLARE_INGRESS" "CLOUDFLARE_INGRESS" _ _

  dns_passed : Pass (some (dns_result target_cname dns_failed).status) ↔ (dns_failed ≡ false)
  dns_passed =
      result_passed (dns_result target_cname dns_failed).status dns_failed
        (unfold dns_result in ground arith)

  ingress_passed : Pass (some (ingress_result s ingress_failed).status) ↔ (ingress_failed ≡ false)
  ingress_passed =
      result_passed (ingress_result s ingress_failed).status ingress_failed
        (unfold ingress_result in ground arith)

  -- A service is published as synced exactly if neither an operation on the ingress rules nor one
  -- on the DNS records failed, and the stages 1 to 3 of the service had passed.
  pub publish_service-synced :
      ((publish_service target_cname ingress_failed dns_failed s).status ≡ some synced) ↔ (
        Pass (status_at "LABEL_SYNTAX" s.stages)
        × Pass (status_at "TUNNEL_DOMAIN_MATCH" s.stages)
        × Pass (status_at "NETWORK_TOPOLOGY" s.stages)
        × (ingress_failed ≡ false)
        × (dns_failed ≡ false))
  unfolding publish_service
  publish_service-synced = (
    λ h.
        let p = (compute_truthful_service_status-synced published).0 (cc h) in
        (
          sym label_kept ∙ p.0,
          sym domain_kept ∙ p.1,
          sym network_kept ∙ p.2,
          ingress_passed.0 (sym ingress_status-publish ∙ p.3),
          dns_passed.0 (sym dns_status-publish ∙ p.4),
        ),
    λ p. ap some (
        (compute_truthful_service_status-synced published).1 (
          label_kept ∙ p.0,
          domain_kept ∙ p.1,
          network_kept ∙ p.2,
          ingress_status-publish ∙ ingress_passed.1 p.3,
          dns_status-publish ∙ dns_passed.1 p.4,
        )),
  )
