-- ===== src/Application/Preview/Repeated.antt =====
-- tunnel_sync/web/app.py: requests for the plan, one after another and between cycles.
use cf_docker_tunnel_sync.Base.{
  Bool, true, false, Option, none, some, List, [], ◌∷◌, ◌≡◌, refl, ◌∙◌, if◌then◌else◌,
}
use cf_docker_tunnel_sync.Domain.Models.{ChangePlan}
use cf_docker_tunnel_sync.Application.Discovery.{Tools}
use cf_docker_tunnel_sync.Application.Cycle.{Environment, CycleSettings, Moment}
use cf_docker_tunnel_sync.Application.Cycle.Run.{run_once}
use cf_docker_tunnel_sync.Application.Preview.{
  State, inspected, on_inspection, compute_preview, keep_preview, unless_planned, cache_preview,
  answer_with, api_change_plan,
}

module _ (env : Environment) (tools : Tools) (settings : CycleSettings) where
  -- The published plan is that of the working state.
  abbrev pub IsSynced : State env tools settings → Type 0
  IsSynced s = s.published.last_change_plan ≡ s.working.state.last_change_plan

  -- The answer is the published plan, and the state is in step.
  record Answers (r : State env tools settings × ChangePlan) : Type 0 where
    shown : (r.0).published.last_change_plan ≡ some r.1
    synced : IsSynced r.0

  cached :
      (plan : ChangePlan) (s : State env tools settings) (known : Option ChangePlan)
      → s.working.state.last_change_plan ≡ known
      → IsSynced s
      → Answers (unless_planned env tools settings known plan s)
  unfolding keep_preview
  cached plan s none e h = record { shown = refl; synced = refl }
  cached plan s (some existing) e h = record { shown = h ∙ e; synced = h }

  cache_preview-Answers :
      (plan : ChangePlan) (s : State env tools settings)
      → IsSynced s
      → Answers (cache_preview env tools settings plan s)
  unfolding cache_preview
  cache_preview-Answers plan s h = cached plan s s.working.state.last_change_plan refl h

  answer_with-Answers :
      (moment : Moment) (known : Option ChangePlan) (s : State env tools settings)
      → s.published.last_change_plan ≡ known
      → IsSynced s
      → Answers (answer_with env tools settings moment known s)
  unfolding compute_preview on_inspection inspected
  answer_with-Answers moment (some plan) s e h = record { shown = e; synced = h }
  answer_with-Answers moment none s e h = cache_preview-Answers _ _ h

  api_change_plan-Answers :
      (moment : Moment) (s : State env tools settings)
      → IsSynced s
      → Answers (api_change_plan env tools settings moment s)
  unfolding api_change_plan
  api_change_plan-Answers moment s h =
      answer_with-Answers moment s.published.last_change_plan s refl h

  shown-again :
      (moment : Moment) (r : State env tools settings × ChangePlan)
      → (r.0).published.last_change_plan ≡ some r.1
      → api_change_plan env tools settings moment r.0 ≡ r
  unfolding api_change_plan
  shown-again moment r e = rw e refl

  -- A cycle, or a request for the plan.
  pub data Operation : Type 0 where
    cycle request : Moment → Operation

  pub operate : Operation → State env tools settings → State env tools settings
  operate (cycle moment) s = run_once env tools settings moment s
  operate (request moment) s = (api_change_plan env tools settings moment s).0

  pub operate_all : List Operation → State env tools settings → State env tools settings
  operate_all [] s = s
  operate_all (o ∷ os) s = operate_all os (operate o s)

  run_once-IsSynced :
      (moment : Moment) (s : State env tools settings)
      → IsSynced s
      → IsSynced (run_once env tools settings moment s)
  unfolding run_once
  run_once-IsSynced moment s h = chosen s.running _ h refl
    where
      chosen :
          (b : Bool) (t : State env tools settings)
          → IsSynced s
          → IsSynced t
          → IsSynced (if b then s else t)
      chosen true t h k = h
      chosen false t h k = k

  operate_all-IsSynced :
      (os : List Operation) (s : State env tools settings)
      → IsSynced s
      → IsSynced (operate_all os s)
  unfolding operate_all operate
  operate_all-IsSynced [] s h = h
  operate_all-IsSynced (cycle moment ∷ os) s h =
      operate_all-IsSynced os _ (run_once-IsSynced moment s h)
  operate_all-IsSynced (request moment ∷ os) s h =
      operate_all-IsSynced os _ ((api_change_plan-Answers moment s h).synced)

  -- After any cycles and requests for the plan, from a state whose plan is published: a request
  -- answers with the plan that is published then, and a request right after it, at any time, gives
  -- the same answer and changes nothing.
  pub api_change_plan-repeated :
      (os : List Operation) (moment later : Moment) (s : State env tools settings)
      → IsSynced s
      → let r = api_change_plan env tools settings moment (operate_all os s) in
        ((r.0).published.last_change_plan ≡ some r.1)
        × (api_change_plan env tools settings later r.0 ≡ r)
  api_change_plan-repeated os moment later s h =
      let a = api_change_plan-Answers moment (operate_all os s) (operate_all-IsSynced os s h) in
      (a.shown, shown-again later _ a.shown)
