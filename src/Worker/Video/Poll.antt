-- ===== src/Worker/Video/Poll.antt =====
-- `handle_poll` of services/video_job_worker.py.
use ange_media_gateway.Base.{false, ℕ, ◌&&◌, true, String, some, ◌==◌, if◌then◌else◌, or_else}
use ange_media_gateway.Store.{
  video, video_poll, asset_import, kind_eq, stage_eq, Job, Env, Exec, Outcome, ok, raised,
  value_error, video_provider_disabled, ensure, pure, catch_all, ◌>>=◌, ◌>>◌,
}
use ange_media_gateway.Message.{JobStageMessage}
use ange_media_gateway.VideoTasks.{validate_provider_external_id, text_or}
use ange_media_gateway.VideoPolling.{
  VideoPollResult, poll_decision, PollDecision, completed, failed, pending, exhausted,
}
use ange_media_gateway.Worker.Image.{call_provider}
use ange_media_gateway.Worker.Runtime.{StageResult, result, scheduled}
use ange_media_gateway.Worker.Video.{
  VideoJobWorker, Claimed, refused, taken, scheduling, failing, of_error, of_text, poll_model,
}
use ange_media_gateway.Worker.Video.Claim.{claim}
use ange_media_gateway.Worker.Video.Schedule.{fail_result, retry, schedule}

module _ (env : Env) (c : VideoJobWorker) where
  unfoldable pub schedule_result :
      JobStageMessage
      → Job
      → ℕ
      → (task_id : String) → VideoPollResult
      → PollDecision
      → Exec StageResult
  schedule_result m job v task_id polled failed =
      fail_result env c m job v
        (record (failing "video_generation_failed"
          (of_text (text_or polled.error_message polled.provider_status))) {
            error_category = some "provider_failure";
          })
  schedule_result m job v task_id polled completed =
      schedule env c m job v (scheduling asset_import task_id polled.provider_status false)
      >> pure (result m scheduled)
  schedule_result m job v task_id polled pending =
      schedule env c m job v (scheduling video_poll task_id polled.provider_status true)
      >> pure (result m scheduled)

  -- What follows the call of `executor.poll`.
  unfoldable pub after_poll :
      JobStageMessage → Job → ℕ → (task_id : String) → Outcome VideoPollResult → Exec StageResult
  unfolding schedule_result poll_decision
  after_poll m job v task_id (raised video_provider_disabled) =
      fail_result env c m job v
        (failing "video_provider_disabled" (of_error c video_provider_disabled))
  after_poll m job v task_id (raised e) =
      retry env c m job v task_id "poll_error" "video_poll_failed" (of_error c e)
  after_poll m job v task_id (ok polled) =
      schedule_result m job v task_id polled (poll_decision polled)

  unfoldable pub poll_claimed : JobStageMessage → Job → String → Claimed → Exec StageResult
  unfolding after_poll
  poll_claimed m job task_id (refused status) = pure (result m status)
  poll_claimed m job task_id (taken row) = do
    over ← exhausted env c.policy m.attempt job.started_at
    if over
        then fail_result env c m job row.version
            (failing "video_poll_timeout" (of_text "video poll timeout"))
        else (catch_all (call_provider m.job_id m.stage (c.poll task_id (poll_model env c job)))
            >>= after_poll m job row.version task_id)

  unfoldable pub handle_poll : JobStageMessage → Job → Exec StageResult
  unfolding poll_claimed
  handle_poll m job = do
    ensure (job.kind == video && m.stage == video_poll) value_error
    task_id ← validate_provider_external_id (or_else job.external_task_id "")
    claimed ← claim env c m job
    poll_claimed m job task_id claimed
