-- ===== src/Worker/Video/Finalizer.antt =====
-- services/video_job_finalizer.py: the transaction that stores a finished video.
use ange_media_gateway.Base.{ℕ, true, String, Option, none, some, [], ◌∷◌, or_else}
use ange_media_gateway.Store.{
  video, finalize, succeeded, text, number, Job, Env, Exec, now_iso, pure, db_transaction, ◌>>=◌,
}
use ange_media_gateway.Text.{basename, generated_path}
use ange_media_gateway.Events.{append_job_event}
use ange_media_gateway.Attempts.{finish_job_attempt}
use ange_media_gateway.Jobs.{no_fields, transition_job_in_connection}
use ange_media_gateway.Media.{record_generation, save_generated_asset}
use ange_media_gateway.VideoTasks.{upsert_video_task}
use ange_media_gateway.VideoPolling.{video_output_summary}
use ange_media_gateway.Worker.Video.{VideoJobWorker, VideoAssetImportResult}

pub record ImportedVideoFinalization : Type 0 where
  pub job : Job
  pub job_id : String
  pub attempt : ℕ
  pub task_id : String
  pub expected_version : ℕ
  pub result : VideoAssetImportResult
  pub duration_ms : ℕ

-- `str(job.get("started_at") or now_iso())`
abbrev pub started_or_now : Env → Option ℕ → Exec ℕ
started_or_now env none = now_iso env
started_or_now env (some t) = pure t

unfoldable pub finalize_imported_video :
    Env → VideoJobWorker → ImportedVideoFinalization → Exec (Unit {0})
unfolding basename video_output_summary
finalize_imported_video env c f = do
  let asset_url = generated_path (basename f.result.local_path)
  let prompt = or_else f.job.prompt ""
  let model = or_else f.job.model ""
  db_transaction (do
    started_at ← started_or_now env f.job.started_at
    history_id ← record_generation env (record {
      media_type = video;
      prompt = prompt;
      enhanced_prompt = none;
      model = some model;
      status = "completed";
      task_id = some f.task_id;
      provider = some "agnes_video";
      request_model = some model;
      input_mode = some "queued_worker";
      duration_ms = f.duration_ms;
      started_at = some started_at;
      job_id = some f.job_id;
    })
    asset_count ←
        save_generated_asset env f.result.files
          (record {
            media_type = video;
            prompt = prompt;
            model = some model;
            provider = some "agnes_video";
            duration_ms = f.duration_ms;
          })
          (some f.job_id)
    job_completed_at ← now_iso env
    moved ←
        transition_job_in_connection env f.job_id f.expected_version succeeded (some finalize)
          "status_changed"
          (record no_fields {
            output_json = some (
                video_output_summary env c.dumps f.task_id "completed" 1 (some asset_url)
                  (some history_id));
            provider_status = some "completed";
            duration_ms = some f.duration_ms;
            retryable = some 0;
            gateway_stage = some "asset_import";
            completed_at = some job_completed_at;
          })
    completed_at ← now_iso env
    finished ← finish_job_attempt env f.job_id f.attempt (record {
      status = succeeded;
      completed_at = completed_at;
      retry_at = none;
      error_code = none;
      error_message = none;
      detail = some (("history_id", text history_id) ∷ ("asset_count", number 1) ∷ []);
    })
    event ←
        append_job_event env f.job_id "worker_video_finalized"
          (some (
            ("attempt", number f.attempt)
            ∷ ("history_id", text history_id)
            ∷ ("asset_count", number 1)
            ∷ []))
          none (some succeeded) (some finalize)
    upsert_video_task env c.is_local f.task_id prompt model "completed"
        (record {
          model = "";
          localized = true;
          video_url = asset_url;
          local_path = "";
          duration_ms = f.duration_ms;
        })
        f.duration_ms)
