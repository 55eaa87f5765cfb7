-- ===== src/Evolution/Services/Video/Ends.antt =====
-- What follows the call of the provider of videos respects what the statements that it runs respect.
use ange_media_gateway.Evolution.Services.Video.Stages.{
  Relates-validate, Relates-schedule, Relates-fail_result, Relates-retry,
  Relates-finalize_imported_video,
}
use ange_media_gateway.VideoPolling.{completed, pending, failed, PollDecision, VideoPollResult}
use ange_media_gateway.Evolution.Relates.{
  Relates-raise, Relates-catch_all, Relates-pure, Relates-bind, Relates-db_transaction, Relates-if,
  Relates,
}
use ange_media_gateway.Message.{JobStageMessage}
use ange_media_gateway.Worker.Video.Import.{
  is_value_error, import_failed, returned, imported, ImportStep, after_import, after_finalize,
}
use ange_media_gateway.Worker.Video.Poll.{schedule_result, after_poll}
use ange_media_gateway.Worker.Video.Submit.{
  resume_submitted, reject_claimed, after_schedule, after_submit, record_submitted_recovery,
}
use ange_media_gateway.Base.{ℕ, String}
use ange_media_gateway.Worker.Video.{taken, refused, Claimed, VideoSubmitResult, VideoJobWorker}
use ange_media_gateway.Evolution.Primitives.{
  JobStatements, statements_order, primitives_statements, Primitives,
}
use ange_media_gateway.Store.{
  video_result_missing_url, stale_job_version, video_provider_disabled, ok, raised, Error, Job,
  Outcome, Env, World,
}

module _ {R : World → World → Type 0} ⦃s : JobStatements R⦄ (env : Env) (c : VideoJobWorker) where
  pub Relates-record_submitted_recovery :
      (m : JobStageMessage) (v : ℕ) (task_id provider_status : String)
      → Relates R (record_submitted_recovery env c m v task_id provider_status)
  unfolding record_submitted_recovery
  Relates-record_submitted_recovery m v task_id provider_status = Relates-db_transaction (
      Relates-bind (s.of_transition env _ _ _ _ _ _)
        λ _. Relates-bind (s.of_event env _ _ _ _ _ _) λ _. Relates-pure _)

  pub Relates-reject_claimed :
      (m : JobStageMessage) (job : Job) (e : Error) (x : Claimed)
      → Relates R (reject_claimed env c m job e x)
  unfolding reject_claimed
  Relates-reject_claimed m job e (refused status) = Relates-pure _
  Relates-reject_claimed m job e (taken row) = search Relates-fail_result

  pub Relates-after_finalize :
      (m : JobStageMessage) (r : Outcome (Unit {0})) → Relates R (after_finalize env c m r)
  unfolding after_finalize
  Relates-after_finalize m (ok done) = Relates-pure _
  Relates-after_finalize m (raised stale_job_version) = Relates-pure _
  Relates-after_finalize m (raised _) = Relates-raise _

module _ {R : World → World → Type 0} ⦃k : Primitives R⦄ (env : Env) (c : VideoJobWorker) where
  pub Relates-after_schedule :
      (m : JobStageMessage) (v : ℕ) (s : VideoSubmitResult) (r : Outcome (Unit {0}))
      → Relates R (after_schedule env c m v s r)
  unfolding after_schedule
  Relates-after_schedule m v s (ok done) = Relates-pure _
  Relates-after_schedule m v s (raised stale_job_version) = Relates-pure _
  Relates-after_schedule m v s (raised _) =
      Relates-bind (Relates-record_submitted_recovery env c m v _ _) λ _. Relates-raise _

  pub Relates-after_submit :
      (m : JobStageMessage) (job : Job) (v : ℕ) (r : Outcome VideoSubmitResult)
      → Relates R (after_submit env c m job v r)
  unfolding after_submit
  Relates-after_submit m job v (raised video_provider_disabled) = search Relates-fail_result
  Relates-after_submit m job v (raised _) = search Relates-fail_result
  Relates-after_submit m job v (ok s) =
      Relates-bind (Relates-catch_all (search Relates-schedule)) λ r. Relates-after_schedule m v s r

  pub Relates-schedule_result :
      (m : JobStageMessage) (job : Job) (v : ℕ) (task_id : String) (r : VideoPollResult)
      (d : PollDecision)
      → Relates R (schedule_result env c m job v task_id r d)
  unfolding schedule_result
  Relates-schedule_result m job v task_id r failed = search Relates-fail_result
  Relates-schedule_result m job v task_id r completed =
      Relates-bind (search Relates-schedule) λ _. Relates-pure _
  Relates-schedule_result m job v task_id r pending =
      Relates-bind (search Relates-schedule) λ _. Relates-pure _

  pub Relates-after_poll :
      (m : JobStageMessage) (job : Job) (v : ℕ) (task_id : String) (r : Outcome VideoPollResult)
      → Relates R (after_poll env c m job v task_id r)
  unfolding after_poll
  Relates-after_poll m job v task_id (raised video_provider_disabled) = search Relates-fail_result
  Relates-after_poll m job v task_id (raised _) = search Relates-retry
  Relates-after_poll m job v task_id (ok polled) = Relates-schedule_result m job v task_id polled _

  pub Relates-import_failed :
      (m : JobStageMessage) (job : Job) (v : ℕ) (task_id : String) (e : Error)
      → Relates R (import_failed env c m job v task_id e)
  unfolding import_failed
  Relates-import_failed m job v task_id e =
      Relates-if (is_value_error e) (search Relates-fail_result) (search Relates-retry)

  pub Relates-after_import :
      (m : JobStageMessage) (job : Job) (v : ℕ) (task_id : String) (r : Outcome ImportStep)
      → Relates R (after_import env c m job v task_id r)
  unfolding after_import
  Relates-after_import m job v task_id (ok (returned r)) = Relates-pure _
  Relates-after_import m job v task_id (ok (imported x)) =
      Relates-bind (search (Relates-catch_all, Relates-finalize_imported_video))
        λ r. Relates-after_finalize env c m r
  Relates-after_import m job v task_id (raised video_provider_disabled) = search Relates-fail_result
  Relates-after_import m job v task_id (raised video_result_missing_url) =
      search Relates-fail_result
  Relates-after_import m job v task_id (raised e) = Relates-import_failed m job v task_id e

  pub Relates-resume_submitted :
      (m : JobStageMessage) (job : Job) (v : ℕ) → Relates R (resume_submitted env c m job v)
  unfolding resume_submitted
  Relates-resume_submitted m job v =
      Relates-bind (Relates-validate env c _)
        λ _. Relates-bind (search Relates-schedule) λ _. Relates-pure _
