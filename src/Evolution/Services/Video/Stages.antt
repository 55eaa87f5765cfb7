-- ===== src/Evolution/Services/Video/Stages.antt =====
-- The claim of a video stage, and the ways in which a stage ends, respect what the statements that
-- they run respect.
use mathlib.Core.Option.{none}
use ange_media_gateway.Evolution.Relates.{
  Relates-option, Relates-ensure, Relates-reads, Relates-bind, Relates-pure, Relates-if,
  Relates-now_iso, Relates-db_transaction, Relates,
}
use ange_media_gateway.Base.{some, ℕ, Option}
use ange_media_gateway.Message.{JobStageMessage}
use Prim.Native.String.{String}
use ange_media_gateway.VideoTasks.{validate_provider_external_id}
use ange_media_gateway.VideoPolling.{VideoPipelinePolicy, exhausted, available_at}
use ange_media_gateway.Worker.Video.Finalizer.{
  ImportedVideoFinalization, started_or_now, finalize_imported_video,
}
use ange_media_gateway.Worker.Video.Schedule.{
  rescheduling, record_task, schedule, retry_again, dispatch_stage, fail, persist_schedule, retry,
  fail_result, record_failed_task,
}
use ange_media_gateway.Worker.Video.{Failure, Failing, Scheduling, VideoJobWorker}
use ange_media_gateway.Worker.Video.Claim.{claim_fresh, claim, claim_existing, claim_recorded}
use ange_media_gateway.Evolution.Primitives.{
  JobStatements, statements_order, primitives_statements, Primitives,
}
use ange_media_gateway.Store.{JobAttempt, Stage, Job, Env, World}

module _ {R : World → World → Type 0} ⦃s : JobStatements R⦄ (env : Env) (c : VideoJobWorker) where
  Relates-claim_existing :
      (m : JobStageMessage) (job : Job) (attempt : JobAttempt)
      → Relates R (claim_existing env c m job attempt)
  unfolding claim_existing
  Relates-claim_existing m job attempt =
      Relates-if _ (Relates-bind (s.of_event env _ _ _ _ _ _) λ _. Relates-pure _) (Relates-pure _)

  Relates-claim_recorded :
      (m : JobStageMessage) (job : Job) (row : Option Job)
      → Relates R (claim_recorded env c m job row)
  unfolding claim_recorded
  Relates-claim_recorded m job none = Relates-pure _
  Relates-claim_recorded m job (some row) =
      Relates-bind (s.of_create_attempt env _)
        λ _. Relates-bind (s.of_event env _ _ _ _ _ _) λ _. Relates-pure _

  Relates-claim_fresh :
      (m : JobStageMessage) (job : Job) (other : Option JobAttempt)
      → Relates R (claim_fresh env c m job other)
  unfolding claim_fresh
  Relates-claim_fresh m job (some other) =
      Relates-bind (s.of_event env _ _ _ _ _ _) λ _. Relates-pure _
  Relates-claim_fresh m job none =
      Relates-bind (Relates-now_iso env)
        λ _. Relates-bind (s.of_claim env _ _ _ _ _ _ _ _ _) λ row. Relates-claim_recorded m job row

  pub Relates-claim : (m : JobStageMessage) (job : Job) → Relates R (claim env c m job)
  unfolding claim
  Relates-claim m job = Relates-db_transaction (
      Relates-bind (Relates-reads _) λ existing.
        Relates-option existing
          (Relates-bind (Relates-reads _) λ other. Relates-claim_fresh m job other)
          (λ attempt. Relates-claim_existing m job attempt))

  pub Relates-validate : (id : String) → Relates R (validate_provider_external_id id)
  unfolding validate_provider_external_id
  Relates-validate id = Relates-bind (Relates-ensure _ _) λ _. Relates-pure _

  pub Relates-record_task :
      (job : Job) (task_id status : String) → Relates R (record_task env c job task_id status)
  unfolding record_task
  Relates-record_task job task_id status = s.of_video_task env _ _ _ _ _ _ _

  pub Relates-available_at :
      (p : VideoPipelinePolicy) (attempt : ℕ) → Relates R (available_at env p attempt)
  unfolding available_at
  Relates-available_at p attempt = Relates-bind (Relates-now_iso env) λ _. Relates-pure _

  pub Relates-exhausted :
      (p : VideoPipelinePolicy) (attempt : ℕ) (started_at : Option ℕ)
      → Relates R (exhausted env p attempt started_at)
  unfolding exhausted
  Relates-exhausted p attempt none = Relates-pure _
  Relates-exhausted p attempt (some started_at) =
      Relates-if _ (Relates-pure _) (Relates-bind (Relates-now_iso env) λ _. Relates-pure _)

  Relates-record_failed_task : (job : Job) → Relates R (record_failed_task env c job)
  unfolding record_failed_task
  Relates-record_failed_task job =
      Relates-if _ (Relates-pure _)
        (Relates-bind (Relates-validate _) λ id. Relates-record_task job id "failed")

  Relates-fail :
      (m : JobStageMessage) (job : Job) (v : ℕ) (f : Failing) → Relates R (fail env c m job v f)
  unfolding fail
  Relates-fail m job v f = Relates-db_transaction (
      Relates-bind (Relates-now_iso env) λ _. Relates-bind (s.of_transition env _ _ _ _ _ _) λ _.
        Relates-bind (Relates-now_iso env) λ _.
          Relates-bind (s.of_finish_attempt env _ _ _)
            λ _. Relates-bind (s.of_event env _ _ _ _ _ _) λ _. Relates-record_failed_task job)

  pub Relates-fail_result :
      (m : JobStageMessage) (job : Job) (v : ℕ) (f : Failing)
      → Relates R (fail_result env c m job v f)
  unfolding fail_result
  Relates-fail_result m job v f = Relates-bind (Relates-fail m job v f) λ _. Relates-pure _

  Relates-started_or_now : (t : Option ℕ) → Relates R (started_or_now env t)
  Relates-started_or_now none = Relates-now_iso env
  Relates-started_or_now (some t) = Relates-pure t

  pub Relates-finalize_imported_video :
      (f : ImportedVideoFinalization) → Relates R (finalize_imported_video env c f)
  unfolding finalize_imported_video
  Relates-finalize_imported_video f = Relates-db_transaction (
      Relates-bind (Relates-started_or_now f.job.started_at) λ _.
        Relates-bind (s.of_generation env _) λ _. Relates-bind (s.of_assets env _ _ _) λ _.
          Relates-bind (Relates-now_iso env) λ _.
            Relates-bind (s.of_transition env _ _ _ _ _ _) λ _.
              Relates-bind (Relates-now_iso env) λ _.
                Relates-bind (s.of_finish_attempt env _ _ _) λ _.
                  Relates-bind (s.of_event env _ _ _ _ _ _) λ _. s.of_video_task env _ _ _ _ _ _ _)

module _ {R : World → World → Type 0} ⦃k : Primitives R⦄ (env : Env) (c : VideoJobWorker) where
  Relates-dispatch_stage :
      (m : JobStageMessage) (next_stage : Stage) (at : ℕ)
      → Relates R (dispatch_stage env c m next_stage at)
  unfolding dispatch_stage
  Relates-dispatch_stage m next_stage at = k.of_create_dispatch env _ _ _ _

  Relates-persist_schedule :
      (m : JobStageMessage) (job : Job) (v : ℕ) (s : Scheduling) (at : ℕ)
      → Relates R (persist_schedule env c m job v s at)
  unfolding persist_schedule
  Relates-persist_schedule m job v s at = Relates-db_transaction (
      Relates-bind (k.statements.of_transition env _ _ _ _ _ _) λ _.
        Relates-bind (Relates-now_iso env) λ _.
          Relates-bind (k.statements.of_finish_attempt env _ _ _) λ _.
            Relates-bind (Relates-dispatch_stage m s.next_stage at) λ _.
              Relates-bind (k.statements.of_event env _ _ _ _ _ _)
                λ _. Relates-record_task env c job _ _)

  pub Relates-schedule :
      (m : JobStageMessage) (job : Job) (v : ℕ) (s : Scheduling)
      → Relates R (schedule env c m job v s)
  unfolding schedule
  Relates-schedule m job v s =
      Relates-bind
        (Relates-if _ (Relates-available_at env c c.policy m.attempt) (Relates-now_iso env))
        λ at. Relates-persist_schedule m job v s at

  Relates-retry_again :
      (m : JobStageMessage) (job : Job) (v : ℕ) (task_id provider_status error_code : String)
      (error : Failure)
      → Relates R (retry_again env c m job v task_id provider_status error_code error)
  unfolding retry_again
  Relates-retry_again m job v task_id provider_status error_code error =
      Relates-bind
        (Relates-schedule m job v (rescheduling env c m task_id provider_status error_code error))
        λ _. Relates-pure _

  pub Relates-retry :
      (m : JobStageMessage) (job : Job) (v : ℕ) (task_id provider_status error_code : String)
      (error : Failure)
      → Relates R (retry env c m job v task_id provider_status error_code error)
  unfolding retry
  Relates-retry m job v task_id provider_status error_code error =
      Relates-bind (Relates-exhausted env c c.policy m.attempt job.started_at) λ over.
        Relates-if over (search Relates-fail_result)
          (Relates-retry_again m job v task_id provider_status error_code error)
