-- ===== src/Tests/Planning.antt =====
-- `compute_change_plan` and the classification of records.
use cf_docker_tunnel_sync.Base.{false, ◌≡◌, refl, inl, string_dec, ne_of_test}
use cf_docker_tunnel_sync.Base.Lists.{All}
use cf_docker_tunnel_sync.Base.Dict.{lookup, insert}
use cf_docker_tunnel_sync.Domain.Models.{
  parse_status, foreign_tunnel, format_comment, comment_status, tagged_status,
}
use cf_docker_tunnel_sync.Base.Text.{strip}
use cf_docker_tunnel_sync.Domain.Plan.{active_origins, index_origins}
use cf_docker_tunnel_sync.Domain.Records.Deletion.{DeletesOwned}
use cf_docker_tunnel_sync.Domain.Records.Writes.{WritesOwn}
use cf_docker_tunnel_sync.Domain.Routes.{desired_rule}
use cf_docker_tunnel_sync.Domain.Routes.Deletion.{DeletesOwnRoute}
use cf_docker_tunnel_sync.Domain.Ingress.Serving.{Serves}
use cf_docker_tunnel_sync.Domain.Planner.{compute_change_plan}
use cf_docker_tunnel_sync.Domain.Planner.Degraded.{ChangesNothing, compute_change_plan-degraded}
use cf_docker_tunnel_sync.Domain.Planner.Safety.{
  compute_change_plan-DeletesOwned, compute_change_plan-WritesOwn,
  compute_change_plan-DeletesOwnRoute,
}
use cf_docker_tunnel_sync.Domain.Planner.Totals.{SummaryIsExact, compute_change_plan-summary}
use cf_docker_tunnel_sync.Domain.Planner.Routing.{compute_change_plan-Serves}
use cf_docker_tunnel_sync.Domain.Planner.Legacy.{Deletes, compute_change_plan-Deletes}
use cf_docker_tunnel_sync.Tests.Data.{live, degraded, legacy, app, tagging, foreign_rec, target}

foreign_status : parse_status tagging foreign_rec target false ≡ foreign_tunnel
unfolding parse_status tagged_status comment_status format_comment strip string_dec
foreign_status = refl

compute_change_plan-degraded_example : ChangesNothing degraded (compute_change_plan degraded)
compute_change_plan-degraded_example = compute_change_plan-degraded degraded refl

compute_change_plan-DeletesOwned_example :
    All (DeletesOwned live) (compute_change_plan live).dns_changes
compute_change_plan-DeletesOwned_example = compute_change_plan-DeletesOwned live refl

compute_change_plan-WritesOwn_example : All (WritesOwn live) (compute_change_plan live).dns_changes
compute_change_plan-WritesOwn_example = compute_change_plan-WritesOwn live

compute_change_plan-DeletesOwnRoute_example :
    All (DeletesOwnRoute live) (compute_change_plan live).ingress_changes
compute_change_plan-DeletesOwnRoute_example = compute_change_plan-DeletesOwnRoute live

compute_change_plan-summary_example :
    SummaryIsExact
      (compute_change_plan live).ingress_changes
      (compute_change_plan live).dns_changes
      (compute_change_plan live).summary
compute_change_plan-summary_example = compute_change_plan-summary live

compute_change_plan-Serves_example :
    Serves "app.example.com"
      (desired_rule "app.example.com" app)
      (compute_change_plan live).final_ingress_rules
unfolding active_origins index_origins insert lookup string_dec
compute_change_plan-Serves_example =
    compute_change_plan-Serves live "app.example.com" app refl refl
      (((refl, (refl, tt)), refl), (((refl, (refl, (refl, tt))), refl), (((refl, tt), refl), tt)))
      refl

compute_change_plan-Deletes_example :
    Deletes foreign_rec
      (parse_status tagging foreign_rec target false)
      (compute_change_plan legacy).dns_changes
unfolding active_origins index_origins insert lookup string_dec
compute_change_plan-Deletes_example =
    compute_change_plan-Deletes legacy foreign_rec refl (inl refl)
      (ne_of_test "old.example.com" "" refl) refl refl refl refl refl
