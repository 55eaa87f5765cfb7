-- ===== src/Worker/Video/Import.antt =====
-- `handle_asset_import` of services/video_job_worker.py.
use ange_media_gateway.Base.{ℕ, Bool, true, false, ◌&&◌, String, some, ◌==◌, if◌then◌else◌, or_else}
use ange_media_gateway.Store.{
  video, asset_import, kind_eq, stage_eq, Job, Env, Exec, Outcome, ok, raised, Error, value_error,
  invalid_queue_message, video_provider_disabled, video_result_missing_url, stale_job_version,
  ensure, raise, pure, catch_all, ◌>>=◌, ◌>>◌,
}
use ange_media_gateway.Message.{JobStageMessage}
use ange_media_gateway.VideoTasks.{validate_provider_external_id, text_or}
use ange_media_gateway.VideoPolling.{
  VideoPollResult, poll_decision, PollDecision, completed, failed, pending,
}
use ange_media_gateway.Worker.Image.{call_provider}
use ange_media_gateway.Worker.Runtime.{StageResult, ResultStatus, result, stale}
use ange_media_gateway.Worker.Video.{
  VideoJobWorker, VideoAssetImportResult, Claimed, refused, taken, failing, of_error, of_text,
  poll_model,
}
use ange_media_gateway.Worker.Video.Claim.{claim}
use ange_media_gateway.Worker.Video.Schedule.{fail_result, retry}
use ange_media_gateway.Worker.Video.Finalizer.{finalize_imported_video}

-- How the first `try` ends without an exception: by a `return` in it, or with the imported file.
pub data ImportStep : Type 0 where
  returned : StageResult → ImportStep
  imported : VideoAssetImportResult → ImportStep

-- `except ValueError`, of what this model raises.
abbrev pub is_value_error : Error → Bool
is_value_error value_error = true
is_value_error invalid_queue_message = true
is_value_error video_result_missing_url = true
is_value_error _ = false

module _ (env : Env) (c : VideoJobWorker) where
  -- After the poll, by what it returned.
  unfoldable pub import_decided :
      JobStageMessage
      → Job
      → ℕ
      → (task_id : String) → VideoPollResult
      → PollDecision
      → Exec ImportStep
  import_decided m job v task_id polled failed =
      fail_result env c m job v (
        failing "video_generation_failed"
          (of_text (text_or polled.error_message polled.provider_status)))
      >>= λ r. pure (returned r)
  import_decided m job v task_id polled pending =
      retry env c m job v task_id polled.provider_status "video_result_not_ready"
        (of_text "video result is not ready")
      >>= λ r. pure (returned r)
  import_decided m job v task_id polled completed =
      call_provider m.job_id m.stage (c.import_completed task_id polled) >>= λ x. pure (imported x)

  -- The body of the first `try`.
  unfoldable pub import_polled : JobStageMessage → Job → ℕ → (task_id : String) → Exec ImportStep
  unfolding import_decided poll_decision
  import_polled m job v task_id =
      call_provider m.job_id m.stage (c.poll task_id (poll_model env c job)) >>= λ polled.
      import_decided m job v task_id polled (poll_decision polled)

  unfoldable pub after_finalize : JobStageMessage → Outcome (Unit {0}) → Exec StageResult
  after_finalize m (ok done) = pure (result m ResultStatus.succeeded)
  after_finalize m (raised stale_job_version) = pure (result m stale)
  after_finalize m (raised e) = raise e

  -- The last two `except` clauses of the first `try`.
  unfoldable pub import_failed :
      JobStageMessage → Job → ℕ → (task_id : String) → Error → Exec StageResult
  import_failed m job v task_id e =
      if is_value_error e
      then fail_result env c m job v (record (failing "video_asset_url_rejected" (of_error c e)) {
        error_category = some "unsafe_remote_url";
      })
      else retry env c m job v task_id (text_or job.provider_status "completed")
          "video_asset_import_failed" (of_error c e)

  -- The `except` clauses of the first `try`, and what follows it.
  unfoldable pub after_import :
      JobStageMessage → Job → ℕ → (task_id : String) → Outcome ImportStep → Exec StageResult
  unfolding after_finalize import_failed finalize_imported_video
  after_import m job v task_id (ok (returned r)) = pure r
  after_import m job v task_id (ok (imported x)) =
      catch_all (
        finalize_imported_video env c (record {
          job = job;
          job_id = m.job_id;
          attempt = m.attempt;
          task_id = task_id;
          expected_version = v;
          result = x;
          duration_ms = x.duration_ms;
        }))
      >>= after_finalize m
  after_import m job v task_id (raised video_provider_disabled) =
      fail_result env c m job v
        (failing "video_provider_disabled" (of_error c video_provider_disabled))
  after_import m job v task_id (raised video_result_missing_url) =
      fail_result env c m job v
        (record (failing "video_result_missing_url" (of_error c video_result_missing_url)) {
          error_category = some "provider_protocol";
        })
  after_import m job v task_id (raised e) = import_failed m job v task_id e

  unfoldable pub import_claimed : JobStageMessage → Job → String → Claimed → Exec StageResult
  unfolding import_polled after_import
  import_claimed m job task_id (refused status) = pure (result m status)
  import_claimed m job task_id (taken row) =
      catch_all (import_polled m job row.version task_id) >>= after_import m job row.version task_id

  unfoldable pub handle_asset_import : JobStageMessage → Job → Exec StageResult
  unfolding import_claimed
  handle_asset_import m job = do
    ensure (job.kind == video && m.stage == asset_import) value_error
    task_id ← validate_provider_external_id (or_else job.external_task_id "")
    claimed ← claim env c m job
    import_claimed m job task_id claimed
