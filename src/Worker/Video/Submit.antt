-- ===== src/Worker/Video/Submit.antt =====
-- `handle_submit` of services/video_job_worker.py.
use ange_media_gateway.Base.{
  ℕ, ◌&&◌, true, String, none, some, [], ◌∷◌, ◌==◌, if◌then◌else◌, or_else,
}
use ange_media_gateway.Store.{
  video, video_submit, video_poll, kind_eq, stage_eq, running, number, text, Job, Env, Exec,
  Outcome, ok, raised, Error, value_error, stale_job_version, video_provider_disabled, ensure,
  raise, pure, catch_all, db_transaction, ◌>>=◌, ◌>>◌,
}
use ange_media_gateway.Text.{is_empty}
use ange_media_gateway.Events.{append_job_event}
use ange_media_gateway.Jobs.{no_fields, transition_job_in_connection}
use ange_media_gateway.Message.{JobStageMessage}
use ange_media_gateway.VideoTasks.{validate_provider_external_id, text_or}
use ange_media_gateway.VideoPolling.{video_output_summary}
use ange_media_gateway.Worker.Image.{call_provider}
use ange_media_gateway.Worker.Runtime.{StageResult, result, stale, scheduled}
use ange_media_gateway.Worker.Video.{
  VideoJobWorker, VideoSubmitResult, Claimed, refused, taken, scheduling, failing, of_error,
}
use ange_media_gateway.Worker.Video.Claim.{claim}
use ange_media_gateway.Worker.Video.Schedule.{fail_result, schedule}

module _ (env : Env) (c : VideoJobWorker) where
  -- `_record_submitted_recovery`
  unfoldable pub record_submitted_recovery :
      JobStageMessage → ℕ → (task_id provider_status : String) → Exec (Unit {0})
  unfolding video_output_summary
  record_submitted_recovery m expected_version task_id provider_status = db_transaction (do
    moved ←
        transition_job_in_connection env m.job_id expected_version running (some video_submit)
          "status_changed"
          (record no_fields {
            output_json =
                some (video_output_summary env c.dumps task_id provider_status 0 none none);
            external_task_id = some task_id;
            provider_status = some provider_status;
            error_code = some "video_submit_dispatch_pending";
            error_message = some "provider task accepted; poll dispatch persistence pending";
            error_category = some "queue_persistence";
            human_hint =
                some
                  "Provider task was accepted; worker delivery will resume without resubmitting.";
            retryable = some 1;
            gateway_stage = some "video_submit";
          })
    append_job_event env m.job_id "video_submit_dispatch_recovery"
          (some (("attempt", number m.attempt) ∷ ("provider_status", text provider_status) ∷ []))
          none (some running) (some video_submit)
        >>= λ _. pure tt)

  -- The last `try` of `handle_submit`, after its body.
  unfoldable pub after_schedule :
      JobStageMessage → ℕ → VideoSubmitResult → Outcome (Unit {0}) → Exec StageResult
  unfolding record_submitted_recovery
  after_schedule m v s (ok done) = pure (result m scheduled)
  after_schedule m v s (raised stale_job_version) = pure (result m stale)
  after_schedule m v s (raised e) =
      record_submitted_recovery m v s.task_id s.provider_status >> raise e

  -- What follows the call of `executor.submit`.
  unfoldable pub after_submit :
      JobStageMessage → Job → ℕ → Outcome VideoSubmitResult → Exec StageResult
  unfolding after_schedule
  after_submit m job v (raised video_provider_disabled) =
      fail_result env c m job v
        (failing "video_provider_disabled" (of_error c video_provider_disabled))
  after_submit m job v (raised e) =
      fail_result env c m job v (record (failing "video_submit_ambiguous" (of_error c e)) {
        error_category = some "ambiguous_submit";
      })
  after_submit m job v (ok s) =
      catch_all (schedule env c m job v (scheduling video_poll s.task_id s.provider_status true))
      >>= after_schedule m v s

  -- A task id that is known already is polled; the provider is not asked again.
  unfoldable pub resume_submitted : JobStageMessage → Job → ℕ → Exec StageResult
  resume_submitted m job v = do
    task_id ← validate_provider_external_id (or_else job.external_task_id "")
    scheduled_poll ←
        schedule env c m job v
          (scheduling video_poll task_id (text_or job.provider_status "queued") true)
    pure (result m scheduled)

  unfoldable pub submit_taken : JobStageMessage → Job → String → ℕ → Exec StageResult
  unfolding after_submit resume_submitted
  submit_taken m job request v =
      if is_empty (or_else job.external_task_id "")
      then (catch_all (call_provider m.job_id m.stage (c.submit request)) >>= after_submit m job v)
      else resume_submitted m job v

  unfoldable pub submit_claimed : JobStageMessage → Job → String → Claimed → Exec StageResult
  unfolding submit_taken
  submit_claimed m job request (refused status) = pure (result m status)
  submit_claimed m job request (taken row) = submit_taken m job request row.version

  -- A payload that does not parse.
  unfoldable pub reject_claimed : JobStageMessage → Job → Error → Claimed → Exec StageResult
  reject_claimed m job e (refused status) = pure (result m status)
  reject_claimed m job e (taken row) =
      fail_result env c m job row.version (failing "invalid_video_job_payload" (of_error c e))

  unfoldable pub handle_submit : JobStageMessage → Job → Exec StageResult
  unfolding submit_claimed reject_claimed
  handle_submit m job =
      ensure (job.kind == video && m.stage == video_submit) value_error
      >> (elim (c.parse job.input_json) [
        | raised e ↦ claim env c m job >>= reject_claimed m job e
        | ok request ↦ claim env c m job >>= submit_claimed m job request
      ])
