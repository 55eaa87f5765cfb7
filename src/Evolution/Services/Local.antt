-- ===== src/Evolution/Services/Local.antt =====
-- The local backend and the lifecycle service respect what the statements that they run respect.
use ange_media_gateway.Evolution.Services.Worker.{Relates-handle}
use ange_media_gateway.Evolution.Services.Recovery.{
  Relates-handle_unhandled, Relates-handle_duplicate,
}
use ange_media_gateway.Worker.Local.{is_ambiguous, settle_delivery}
use ange_media_gateway.Message.{JobStageMessage}
use ange_media_gateway.Evolution.Relates.{
  Relates-catch_all, Relates-ensure, Relates-if, Relates-raise, Relates-try_except, Relates-option,
  Relates-reads, Relates-pure, Relates-bind, Relates-db_transaction, Relates,
}
use ange_media_gateway.Worker.Runtime.{StageResult, StageHandler, Registry}
use ange_media_gateway.Lifecycle.{transition, transition_current}
use ange_media_gateway.Jobs.{
  none_if_not_found, JobFields, get_job, update_job_status, transition_job,
}
use ange_media_gateway.Evolution.Primitives.{statements_order, primitives_statements, Primitives}
use mathlib.Core.Option.{some-injective}
use ange_media_gateway.Worker.Local.{publish}
use ange_media_gateway.Base.{subst, ◌≡◌, Option, ℕ, String, none, some}
use ange_media_gateway.Store.{
  ok, raised, job_not_found, Outcome, Job, Status, Stage, Exec, Error, Env, World,
}

module _ {R : World → World → Type 0} ⦃k : Primitives R⦄ (env : Env) where
  module _ (registry : Registry)
      (handlers_related : (stage : Stage) (h : StageHandler)
        → registry stage ≡ some h
        → (m : JobStageMessage) (job : Job) → Relates R (h m job))
      (refresh : Exec (Unit {0})) (refresh_related : Relates R refresh)
      (describe type_name : Error → String) where
    Relates-settle_delivery :
        (m : JobStageMessage) (r : Outcome StageResult)
        → Relates R (settle_delivery env registry refresh describe type_name m r)
    unfolding settle_delivery
    Relates-settle_delivery m (raised e) =
        Relates-bind (Relates-handle_unhandled env m (describe e) (type_name e)) λ _. Relates-pure _
    Relates-settle_delivery m (ok r) =
        Relates-if (is_ambiguous r.status)
          (Relates-bind (Relates-handle_duplicate env m) λ _. Relates-pure _) (Relates-pure _)

    pub Relates-publish :
        (topic : String) (m : JobStageMessage)
        → Relates R (publish env registry refresh describe type_name topic m)
    unfolding publish
    Relates-publish topic m = Relates-bind (Relates-ensure _ _) λ _.
        Relates-bind
          (Relates-catch_all
            (Relates-handle env "local" registry handlers_related refresh refresh_related _))
          λ r. Relates-bind (Relates-settle_delivery m r) λ _. Relates-pure _

  Relates-transition_job :
      (id : String) (v : ℕ) (status : Status) (stage : Option Stage) (event_type : String)
      (fields : JobFields)
      → Relates R (transition_job env id v status stage event_type fields)
  unfolding transition_job
  Relates-transition_job id v status stage event_type fields =
      Relates-db_transaction (k.statements.of_transition env id v status stage event_type fields)

  not_found_related :
      (e : Error) (m : Exec (Option Job)) → none_if_not_found e ≡ some m → Relates R m
  not_found_related job_not_found m h = subst (Relates R) (some-injective _ _ h) (Relates-pure _)
  not_found_related _ m h = cc

  pub Relates-update_job_status :
      (id : String) (status : Status) (v : Option ℕ) (stage : Option Stage) (event_type : String)
      (fields : JobFields)
      → Relates R (update_job_status env id status v stage event_type fields)
  unfolding update_job_status get_job
  Relates-update_job_status id status v stage event_type fields =
      Relates-bind (Relates-reads _) λ found. Relates-option found (Relates-pure _) λ existing.
        Relates-try_except (Relates-transition_job _ _ status stage event_type fields)
          not_found_related

  pub Relates-transition_current :
      (id : String) (status : Status) (fields : JobFields)
      → Relates R (transition_current env id status fields)
  unfolding transition_current transition get_job
  Relates-transition_current id status fields = Relates-bind (Relates-reads _) λ found.
      Relates-option found (Relates-raise _)
        λ job. Relates-transition_job _ _ status none "status_changed" fields
