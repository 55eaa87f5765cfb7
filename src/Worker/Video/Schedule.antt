-- ===== src/Worker/Video/Schedule.antt =====
-- `_schedule`, `_fail` and `_retry` of services/video_job_worker.py.
use ange_media_gateway.Base.{
  ℕ, ◌+◌, true, String, none, some, [], ◌∷◌, ◌==◌, string_eq, if◌then◌else◌, or_else,
}
use ange_media_gateway.Store.{
  Stage, finalize, stage_eq, status_eq, stage_text, Status, running, video, text, number, flag, Job,
  JobDispatch, Env, Exec, pure, now_iso, db_transaction, ◌>>=◌, ◌>>◌,
}
use ange_media_gateway.Text.{is_empty}
use ange_media_gateway.Events.{append_job_event}
use ange_media_gateway.Attempts.{finish_job_attempt}
use ange_media_gateway.Jobs.{no_fields, transition_job_in_connection}
use ange_media_gateway.Message.{JobStageMessage, as_dict}
use ange_media_gateway.Outbox.{create_job_dispatch, worker_task_name}
use ange_media_gateway.Diagnostics.{classify_provider_error}
use ange_media_gateway.VideoTasks.{upsert_video_task, validate_provider_external_id, bare_result}
use ange_media_gateway.VideoPolling.{available_at, exhausted, video_output_summary}
use ange_media_gateway.Worker.Image.{nonempty_text}
use ange_media_gateway.Worker.Recovery.{safe_error_text}
use ange_media_gateway.Worker.Runtime.{StageResult, ResultStatus, result}
use ange_media_gateway.Worker.Video.{
  VideoJobWorker, Failure, of_text, Scheduling, scheduling, Failing, failing, flag_number,
  ambiguous_submit_hint,
}

module _ (env : Env) (c : VideoJobWorker) where
  -- `_dispatch_stage`
  unfoldable pub dispatch_stage : JobStageMessage → Stage → ℕ → Exec JobDispatch
  unfolding as_dict
  dispatch_stage m next_stage available_at =
      create_job_dispatch env m.job_id worker_task_name
        (as_dict (record {
          job_id = m.job_id;
          job_kind = video;
          stage = next_stage;
          payload_schema_version = 1;
          attempt = m.attempt + 1;
        }))
        (some available_at)

  -- The row of `video_tasks` that the worker keeps for a job.
  unfoldable pub record_task : Job → (task_id status : String) → Exec (Unit {0})
  record_task job task_id status =
      upsert_video_task env c.is_local task_id (or_else job.prompt "") (or_else job.model "") status
        bare_result (or_else job.duration_ms 0)

  -- The transaction of `_schedule`.
  unfoldable pub persist_schedule : JobStageMessage → Job → ℕ → Scheduling → ℕ → Exec (Unit {0})
  unfolding dispatch_stage record_task video_output_summary stage_text
  persist_schedule m job expected_version s available_at = db_transaction (do
    moved ←
        transition_job_in_connection env m.job_id expected_version running (some s.next_stage)
          "status_changed"
          (record no_fields {
            output_json =
                some (video_output_summary env c.dumps s.task_id s.provider_status 0 none none);
            external_task_id = some s.task_id;
            provider_status = some s.provider_status;
            error_code = some s.error_code;
            error_message = some s.error_message;
            error_category = some s.error_category;
            human_hint = some s.human_hint;
            retryable = some (flag_number s.retryable);
            gateway_stage = some (stage_text m.stage);
            next_retry_at = some available_at;
          })
    completed_at ← now_iso env
    finished ← finish_job_attempt env m.job_id m.attempt (record {
      status = s.attempt_status;
      completed_at = completed_at;
      retry_at = if s.attempt_status == Status.failed then some available_at else none;
      error_code = if is_empty s.error_code then none else some s.error_code;
      error_message = if is_empty s.error_message then none else some s.error_message;
      detail = some (
          ("next_stage", text (stage_text s.next_stage))
          ∷ ("provider_status", text s.provider_status)
          ∷ []);
    })
    dispatch ← dispatch_stage m s.next_stage available_at
    event ←
        append_job_event env m.job_id "worker_stage_scheduled"
          (some (
            ("attempt", number m.attempt)
            ∷ ("next_stage", text (stage_text s.next_stage))
            ∷ ("dispatch_id", text dispatch.id)
            ∷ ("retryable", flag s.retryable)
            ∷ []))
          none (some running) (some s.next_stage)
    record_task job s.task_id s.provider_status)

  -- `_schedule`
  unfoldable pub schedule : JobStageMessage → Job → ℕ → Scheduling → Exec (Unit {0})
  unfolding persist_schedule available_at
  schedule m job expected_version s =
      (if s.delay then available_at env c.policy m.attempt else now_iso env)
      >>= persist_schedule m job expected_version s

  -- The end of `_fail`: the public record of a task that had been accepted.
  unfoldable pub record_failed_task : Job → Exec (Unit {0})
  unfolding record_task
  record_failed_task job =
      let task_id = or_else job.external_task_id "" in
      if is_empty task_id
      then pure tt
      else (validate_provider_external_id task_id >>= λ id. record_task job id "failed")

  -- `_fail`
  unfoldable pub fail : JobStageMessage → Job → ℕ → Failing → Exec (Unit {0})
  unfolding record_failed_task stage_text
  fail m job expected_version f = do
    let safe_error = safe_error_text env f.error.message f.error.type_name
    let class = classify_provider_error c.lower safe_error
    db_transaction (do
      job_completed_at ← now_iso env
      moved ←
          transition_job_in_connection env m.job_id expected_version Status.failed (some finalize)
            "status_changed"
            (record no_fields {
              error_code = some f.error_code;
              error_message = some safe_error;
              error_category = some (or_else (nonempty_text f.error_category) class.error_category);
              human_hint = some (
                  if f.error_code == "video_submit_ambiguous"
                  then ambiguous_submit_hint c.lower f safe_error
                  else class.human_hint);
              retryable = some (flag_number f.retryable);
              gateway_stage = some (stage_text m.stage);
              completed_at = some job_completed_at;
            })
      completed_at ← now_iso env
      finished ← finish_job_attempt env m.job_id m.attempt (record {
        status = Status.failed;
        completed_at = completed_at;
        retry_at = none;
        error_code = some f.error_code;
        error_message = some safe_error;
        detail = some (("retryable", flag f.retryable) ∷ []);
      })
      event ←
          append_job_event env m.job_id "worker_attempt_failed"
            (some (
              ("attempt", number m.attempt)
              ∷ ("error_code", text f.error_code)
              ∷ ("retryable", flag f.retryable)
              ∷ []))
            none (some Status.failed) (some finalize)
      record_failed_task job)

  -- `_fail`, then an answer.
  unfoldable pub fail_result : JobStageMessage → Job → ℕ → Failing → Exec StageResult
  unfolding fail
  fail_result m job expected_version f =
      fail m job expected_version f >> pure (result m ResultStatus.failed)

  -- The arguments with which `_retry` schedules the same stage again.
  unfoldable pub rescheduling :
      JobStageMessage → (task_id provider_status error_code : String) → Failure → Scheduling
  rescheduling m task_id provider_status error_code error =
      let safe_error = safe_error_text env error.message error.type_name in
      let class = classify_provider_error c.lower safe_error in
      record (scheduling m.stage task_id provider_status true) {
        attempt_status = Status.failed;
        error_code = error_code;
        error_message = safe_error;
        retryable = true;
        error_category = class.error_category;
        human_hint = class.human_hint;
      }

  -- The part of `_retry` behind the test of the policy.
  unfoldable pub retry_again :
      JobStageMessage
      → Job
      → ℕ
      → (task_id provider_status error_code : String) → Failure
      → Exec StageResult
  unfolding schedule rescheduling
  retry_again m job expected_version task_id provider_status error_code error =
      schedule m job expected_version (rescheduling m task_id provider_status error_code error)
      >> pure (result m ResultStatus.scheduled)

  -- `_retry`, with the answer that its callers make of its status.
  unfoldable pub retry :
      JobStageMessage
      → Job
      → ℕ
      → (task_id provider_status error_code : String) → Failure
      → Exec StageResult
  unfolding fail_result retry_again exhausted
  retry m job expected_version task_id provider_status error_code error = do
    over ← exhausted env c.policy m.attempt job.started_at
    if over
        then fail_result m job expected_version
            (failing "video_pipeline_timeout" (of_text "video pipeline retry limit exceeded"))
        else retry_again m job expected_version task_id provider_status error_code error
