-- ===== src/Domain/Diagnostics/Stages.antt =====
-- When the stages that `evaluate_service_stages` computes amount to a synced service.
use cf_docker_tunnel_sync.Base.{
  String, Bool, true, false, ◌&&◌, ◌≡◌, ◌↔◌, refl, sym, ap, ◌∙◌, inl, inr, Option, none, some, ◌==◌,
  Bool-cases, eq_of_test, ne_of_test, string_dec, if◌then◌else◌, arith,
}
use cf_docker_tunnel_sync.Base.Dict.{lookup}
use cf_docker_tunnel_sync.Domain.Diagnostics.{
  ServiceFacts, is_truthy, label_stage, domain_stage, network_stage, remote_stage,
  evaluate_service_stages, status_at, synced, compute_truthful_service_status,
}
use cf_docker_tunnel_sync.Domain.Diagnostics.Truthful.{Pass, compute_truthful_service_status-synced}

not_passed :
    (("FAILED" == "PASS") ≡ false)
    × (("WARNING" == "PASS") ≡ false)
    × (("PENDING" == "PASS") ≡ false)
    × (("PASS" == "") ≡ false)
unfolding string_dec
not_passed = (refl, refl, refl, refl)

-- A stage that passes if a test holds, and has the status `other` if it does not.
stage_passed :
    (t other : String) (good : Bool)
    → (other == "PASS") ≡ false
    → t ≡ (if good then "PASS" else other)
    → Pass (some t) ↔ (good ≡ true)
stage_passed t other true h e = (λ p. refl, λ g. ap some e)
stage_passed t other false h e =
    (λ p. absurd (ne_of_test other "PASS" h (sym e ∙ cc p)), λ g. absurd (cc g))

-- The status that the caller hands in reaches the stage.
remote_passed :
    (status message : Option String) (updated waiting : String)
    → Pass (some (remote_stage status message updated waiting).status) ↔ Pass status
unfolding remote_stage
remote_passed none message updated waiting =
    (λ p. absurd (ne_of_test "PENDING" "PASS" not_passed.2 (cc p)), λ p. absurd (cc p))
remote_passed (some t) message updated waiting = elim (Bool-cases (t == "")) [
  | inl e ↦ simp e (
    λ p. absurd (ne_of_test "PENDING" "PASS" not_passed.2 (cc p)),
    λ p. absurd (ne_of_test "PASS" "" not_passed.3 (cc (p, eq_of_test t "" e))),
  )
  | inr e ↦ simp e (λ p. p, λ p. p)
]

module _ (f : ServiceFacts) where
  label_passed :
      Pass (some (label_stage f).status) ↔ ((f.is_hostname_valid && is_truthy f.hostname) ≡ true)
  label_passed =
      stage_passed (label_stage f).status "FAILED" _ not_passed.0
        (unfold label_stage in ground arith)

  domain_passed : Pass (some (domain_stage f).status) ↔ (f.domain_matches ≡ true)
  domain_passed =
      stage_passed (domain_stage f).status "FAILED" f.domain_matches not_passed.0
        (unfold domain_stage in ground arith)

  network_passed : Pass (some (network_stage f).status) ↔ (f.network_connected ≡ true)
  network_passed =
      stage_passed (network_stage f).status "WARNING" f.network_connected not_passed.1
        (unfold network_stage in ground arith)

  -- The stages of a service amount to a synced service exactly if its hostname is valid and not
  -- empty, it matches the domain, a network is shared with the connector, and the statuses of the
  -- ingress rule and of the DNS record are "PASS", whatever the state of the container is.
  pub evaluate_service_stages-synced :
      (compute_truthful_service_status (evaluate_service_stages f) ≡ synced) ↔ (
        ((f.is_hostname_valid && is_truthy f.hostname) ≡ true)
        × (f.domain_matches ≡ true)
        × (f.network_connected ≡ true)
        × Pass f.ingress_status
        × Pass f.dns_status)
  unfolding evaluate_service_stages status_at lookup string_dec
  evaluate_service_stages-synced =
      let c = compute_truthful_service_status-synced (evaluate_service_stages f) in
      let ingress =
        remote_passed f.ingress_status f.ingress_message "Ingress rule status updated"
          "Pending ingress synchronization" in
      let dns =
        remote_passed f.dns_status f.dns_message "DNS record status updated"
          "Pending DNS synchronization" in
      (
        λ h.
            let p = c.0 h in
            (
              label_passed.0 p.0,
              domain_passed.0 p.1,
              network_passed.0 p.2,
              ingress.0 p.3,
              dns.0 p.4,
            ),
        λ q. c.1 (
          label_passed.1 q.0,
          domain_passed.1 q.1,
          network_passed.1 q.2,
          ingress.1 q.3,
          dns.1 q.4,
        ),
      )
