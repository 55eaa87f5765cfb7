-- ===== src/Worker/Video.antt =====
-- services/video_job_worker.py: the claim of a video stage, and the three ways in which a stage
-- ends: another stage is scheduled, the job fails, or (Finalizer) it is done.
pub mod Claim
pub mod Schedule
pub mod Finalizer
pub mod Submit
pub mod Poll
pub mod Import
use ange_media_gateway.Base.{
  List, ℕ, suc, ◌+◌, Bool, true, false, ◌&&◌, ◌||◌, String, Option, none, some, [], ◌∷◌, ◌==◌,
  string_eq, if◌then◌else◌, or_else,
}
use ange_media_gateway.Store.{
  Stage, video_submit, video_poll, asset_import, finalize, stage_eq, status_eq, stage_text, Status,
  running, video, Payload, text, number, flag, Job, JobAttempt, JobDispatch, Env, Exec, Outcome,
  Error, pure, reads, now_iso, db_transaction, ◌>>=◌, ◌>>◌,
}
use ange_media_gateway.Text.{is_empty, is_within}
use ange_media_gateway.Events.{append_job_event}
use ange_media_gateway.Attempts.{
  create_job_attempt, new_attempt, finish_job_attempt, job_attempt, running_stage_attempt,
}
use ange_media_gateway.Jobs.{no_fields, claim_job_attempt, transition_job_in_connection}
use ange_media_gateway.Message.{JobStageMessage, as_dict}
use ange_media_gateway.Outbox.{create_job_dispatch, worker_task_name}
use ange_media_gateway.Diagnostics.{classify_provider_error}
use ange_media_gateway.VideoTasks.{upsert_video_task, validate_provider_external_id, bare_result}
use ange_media_gateway.VideoPolling.{
  VideoPipelinePolicy, VideoPollResult, available_at, exhausted, video_output_summary,
}
use ange_media_gateway.Worker.Image.{nonempty_text}
use ange_media_gateway.Worker.Recovery.{safe_error_text}
use ange_media_gateway.Worker.Runtime.{
  StageResult, ResultStatus, result, is_resumable, ambiguous, duplicate, inflight, stale,
}

-- `VideoSubmitResult` of services/video_execution.py, as far as the worker reads it.
pub record VideoSubmitResult : Type 0 where
  pub task_id : String
  pub provider_status : String

-- `VideoAssetImportResult`: the path of the local file, and the output files that exist, with their
-- sizes.
pub record VideoAssetImportResult : Type 0 where
  pub local_path : String
  pub files : List (String × ℕ)
  pub duration_ms : ℕ

-- What the worker takes from elsewhere: the parser of the payload (a request is named by a text),
-- the executor and the importer, whose answers may depend on the calls made before, Python's `str`,
-- `type(…).__name__`, `.status_code == 503`, `str.lower`, `str.strip` and `json.dumps`, and
-- `is_generated_local_url`.
pub record VideoJobWorker : Type 0 where
  pub worker_kind : String
  pub policy : VideoPipelinePolicy
  pub parse : Option String → Outcome String
  pub submit : String → ℕ → Outcome VideoSubmitResult
  pub poll : String → Option String → ℕ → Outcome VideoPollResult
  pub import_completed : String → VideoPollResult → ℕ → Outcome VideoAssetImportResult
  pub describe : Error → String
  pub type_name : Error → String
  pub is_503 : Error → Bool
  pub lower : String → String
  pub strip : String → String
  pub dumps : Payload → String
  pub is_local : String → Bool

-- What `_claim` answers: the claimed row, or the status to answer with.
pub data Claimed : Type 0 where
  refused : ResultStatus → Claimed
  taken : Job → Claimed

-- The argument `error` of `_fail` and `_retry`: an exception or a text.
pub record Failure : Type 0 where
  pub message : String
  pub type_name : String
  pub is_503 : Bool

abbrev pub of_text : String → Failure
of_text s = record { message = s; type_name = "str"; is_503 = false }

abbrev pub of_error : VideoJobWorker → Error → Failure
of_error c e = record { message = c.describe e; type_name = c.type_name e; is_503 = c.is_503 e }

-- The keyword arguments of `_schedule`.
pub record Scheduling : Type 0 where
  pub next_stage : Stage
  pub task_id : String
  pub provider_status : String
  pub delay : Bool
  pub attempt_status : Status
  pub error_code : String
  pub error_message : String
  pub retryable : Bool
  pub error_category : String
  pub human_hint : String

-- Its defaults.
abbrev pub scheduling : Stage → (task_id provider_status : String) → Bool → Scheduling
scheduling next_stage task_id provider_status delay = record {
  next_stage = next_stage;
  task_id = task_id;
  provider_status = provider_status;
  delay = delay;
  attempt_status = Status.succeeded;
  error_code = "";
  error_message = "";
  retryable = false;
  error_category = "";
  human_hint = "";
}

-- The keyword arguments of `_fail`.
pub record Failing : Type 0 where
  pub error_code : String
  pub error : Failure
  pub retryable : Bool
  pub error_category : Option String

abbrev pub failing : String → Failure → Failing
failing error_code error = record {
  error_code = error_code;
  error = error;
  retryable = false;
  error_category = none;
}

abbrev pub ambiguous_submit_hint : (lower : String → String) → Failing → String → String
unfolding is_within
ambiguous_submit_hint lower f safe_error =
    if f.error_code == "video_submit_ambiguous" && is_within "timeout" (lower safe_error)
    then "视频提交超时，系统未收到上游任务号；为避免重复扣费或重复生成，不会自动重提。可在渠道页的全局视频请求超时中调高等待时间后手动重新提交。"
    else if f.error_code == "video_submit_ambiguous"
        && (f.error.is_503 || is_within "http 503" (lower safe_error))
    then "视频服务商当前繁忙或暂无可用生成资源；本次提交未返回任务 ID，请稍后手动重新提交。为避免重复扣费或重复生成，系统不会自动重提。"
    else "视频服务商未返回明确的提交结果或任务 ID；为避免重复扣费或重复生成，系统不会自动重提，请稍后手动重新提交。"

abbrev pub flag_number : Bool → ℕ
flag_number true = 1
flag_number false = 0

abbrev pub attempt_started_payload : JobStageMessage → Payload
attempt_started_payload m = ("attempt", number m.attempt) ∷ ("dispatch_id", text m.dispatch_id) ∷ []

-- `"ambiguous" if message.stage == "video_submit" else …`
abbrev pub ambiguous_or : ResultStatus → Stage → ResultStatus
ambiguous_or other stage = if stage == video_submit then ambiguous else other

module _ (env : Env) (c : VideoJobWorker) where
  -- `executor.poll`; the model is passed on for the models of version 2.5.
  abbrev pub poll_model : Job → Option String
  poll_model job =
      let model = or_else job.model "" in
      let name = c.lower (c.strip model) in
      if name == "agnes-video-2.5" || name == "agnes-video-v2.5" then some model else none
