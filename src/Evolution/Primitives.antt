-- ===== src/Evolution/Primitives.antt =====
-- The repositories' statements as an interface: a relation that each of them respects is respected
-- by all that the services compose of them.
-- The statements on the rows of jobs (JobStatements) are apart from those on the outbox.
use ange_media_gateway.VideoTasks.{upsert_video_task, TaskResult}
use ange_media_gateway.Media.{
  NewGeneration, GeneratedMedia, save_generated_asset, record_generation,
}
use ange_media_gateway.Outbox.Requeue.{set_lost}
use ange_media_gateway.Base.{List, string_eq, ◌&&◌, ◌==◌, ℕ, String, Bool, Option}
use ange_media_gateway.Store.{
  World, DispatchStatus, modify_db, Status, Stage, Payload, PayloadJson, Env,
}
use ange_media_gateway.Events.{append_job_event}
use ange_media_gateway.Jobs.{
  NewJob, insert_job, JobFields, transition_job_in_connection, claim_job_attempt,
  update_job_attempt_summary,
}
use ange_media_gateway.Attempts.{NewAttempt, AttemptEnd, create_job_attempt, finish_job_attempt}
use ange_media_gateway.Outbox.{
  dispatch_status_beq, update_dispatches, create_job_dispatch, claim_pending_dispatches,
  mark_dispatch_published, release_dispatch,
}
use ange_media_gateway.Evolution.Relates.{IsPreorder, Relates}

pub record JobStatements (R : World → World → Type 0) : Type 0 where
  pub order : IsPreorder R
  pub of_transition :
      (env : Env) (id : String) (v : ℕ) (status : Status) (stage : Option Stage)
      (event_type : String) (fields : JobFields)
      → Relates R (transition_job_in_connection env id v status stage event_type fields)
  pub of_claim :
      (env : Env) (id : String) (v : ℕ) (stage : Stage) (attempt_count : ℕ)
      (worker_kind provider : String) (model : Option String) (started_at : ℕ)
      (allow_running : Bool)
      → Relates R (
          claim_job_attempt env id v stage attempt_count worker_kind provider model started_at
            allow_running)
  pub of_summary :
      (env : Env) (id : String) (stage : Stage) (attempt_count : ℕ) (worker_kind : String)
      → Relates R (update_job_attempt_summary env id stage attempt_count worker_kind)
  pub of_event :
      (env : Env) (id event_type : String) (payload : Option Payload) (from to : Option Status)
      (stage : Option Stage)
      → Relates R (append_job_event env id event_type payload from to stage)
  pub of_create_attempt : (env : Env) (n : NewAttempt) → Relates R (create_job_attempt env n)
  pub of_finish_attempt :
      (env : Env) (id : String) (attempt_number : ℕ) (e : AttemptEnd)
      → Relates R (finish_job_attempt env id attempt_number e)
  pub of_generation : (env : Env) (g : NewGeneration) → Relates R (record_generation env g)
  pub of_assets :
      (env : Env) (files : List (String × ℕ)) (g : GeneratedMedia) (job_id : Option String)
      → Relates R (save_generated_asset env files g job_id)
  pub of_video_task :
      (env : Env) (is_local : String → Bool) (task_id prompt model status : String) (r : TaskResult)
      (duration_ms : ℕ)
      → Relates R (upsert_video_task env is_local task_id prompt model status r duration_ms)

pub record Primitives (R : World → World → Type 0) : Type 0 where
  pub statements : JobStatements R
  pub of_insert_job : (env : Env) (n : NewJob) → Relates R (insert_job env n)
  pub of_create_dispatch :
      (env : Env) (id topic : String) (payload : PayloadJson) (available_at : Option ℕ)
      → Relates R (create_job_dispatch env id topic payload available_at)
  pub of_claim_dispatches :
      (claim_token : String) (claim_expires_at limit cutoff : ℕ)
      → Relates R (claim_pending_dispatches claim_token claim_expires_at limit cutoff)
  pub of_mark_published :
      (env : Env) (id claim_token : String) (broker_message_id : Option String)
      → Relates R (mark_dispatch_published env id claim_token broker_message_id)
  pub of_release :
      (env : Env) (id claim_token error_message : String) (available_at : Option ℕ)
      (terminal : Bool)
      → Relates R (release_dispatch env id claim_token error_message available_at terminal)
  pub of_lost :
      (id : String) (now : ℕ)
      → Relates R (
          modify_db (
            update_dispatches
              (λ d. d.id == id && dispatch_status_beq d.status DispatchStatus.published)
              (set_lost now)))

instance pub statements_order : {R : World → World → Type 0} ⦃s : JobStatements R⦄ → IsPreorder R
statements_order ⦃s⦄ = s.order

instance pub primitives_statements :
    {R : World → World → Type 0} ⦃k : Primitives R⦄ → JobStatements R
primitives_statements ⦃k⦄ = k.statements
