-- ===== src/Worker/Recovery.antt =====
-- services/local_worker_failure_recovery.py and queue/local_backend.py: delivery in the process of
-- the dispatcher, and what becomes of a job whose worker failed.
use ange_media_gateway.Base.{
  ℕ, ◌+◌, Bool, true, false, not, ◌&&◌, ◌||◌, String, Option, none, some, [], ◌∷◌, contains, ◌==◌,
  string_eq, nat_eq, if◌then◌else◌, ltb,
}
use ange_media_gateway.Store.{
  video, running, Stage, finalize, video_submit, video_poll, asset_import, stage_eq, status_eq,
  kind_eq, stage_text, Status, number, text, flag, Job, Env, Exec, Error, stale_job_version, pure,
  now_iso, db_transaction, try_except, ◌>>=◌,
}
use ange_media_gateway.Text.{is_blank, take_chars, is_empty, sanitize_error_text}
use ange_media_gateway.Events.{append_job_event}
use ange_media_gateway.Jobs.{
  JobFields, no_fields, get_job, is_terminal, transition_job_in_connection,
}
use ange_media_gateway.Attempts.{finish_job_attempt}
use ange_media_gateway.Message.{JobStageMessage, as_dict}
use ange_media_gateway.Outbox.{worker_task_name, create_job_dispatch}
use ange_media_gateway.Worker.Runtime.{attempt_limit}

-- The texts that the recovery answers.
pub data RecoveryState : Type 0 where
  missing terminal scheduled stale failed : RecoveryState

abbrev pub has_task_id : Option String → Bool
unfolding is_blank
has_task_id none = false
has_task_id (some s) = not (is_blank s)

-- `_can_resume`
abbrev pub can_resume : Job → Stage → Bool
can_resume job stage =
    job.kind == video
    && (contains (video_poll ∷ asset_import ∷ []) stage
        || stage == video_submit && has_task_id job.external_task_id)

-- `except StaleJobVersionError: return "stale"`
abbrev pub stale_to_state : Error → Option (Exec RecoveryState)
stale_to_state stale_job_version = some (pure stale)
stale_to_state _ = none

-- `sanitize_error_text(str(error)) or type(error).__name__`; `error` is the text, `type_name` the
-- name of its type.
abbrev pub safe_error_text : Env → String → String → String
unfolding sanitize_error_text
safe_error_text env error type_name =
    let t = take_chars 1000 (env.redact error) in if is_empty t then type_name else t

abbrev pub retry_hint : String
retry_hint = "Local worker recovery is retrying the existing video task without resubmitting it."

abbrev pub terminal_hint : String
terminal_hint =
    "The local worker did not automatically repeat Provider work to avoid duplicate generation or billing."

module _ (env : Env) where
  abbrev pub retry_fields : JobStageMessage → String → ℕ → JobFields
  unfolding stage_text
  retry_fields m safe_error retry_at = record no_fields {
    error_code = some "local_worker_recovery_pending";
    error_message = some safe_error;
    error_category = some "local_worker_failure";
    human_hint = some retry_hint;
    retryable = some 1;
    gateway_stage = some (stage_text m.stage);
    next_retry_at = some retry_at;
  }

  unfoldable pub schedule_retry :
      Job → JobStageMessage → (error type_name : String) → Exec RecoveryState
  unfolding as_dict
  schedule_retry job m error type_name = do
    let safe_error = safe_error_text env error type_name
    retry_at ← now_iso env
    try_except
        (db_transaction (do
          finished ← finish_job_attempt env m.job_id m.attempt (record {
            status = Status.failed;
            completed_at = retry_at;
            retry_at = some retry_at;
            error_code = some "local_worker_unhandled_error";
            error_message = some safe_error;
            detail =
                some (
                  ("recovery", text "local_retry") ∷ ("next_attempt", number (m.attempt + 1)) ∷ []);
          })
          moved ←
              transition_job_in_connection env m.job_id job.version running (some m.stage)
                "status_changed" (retry_fields m safe_error retry_at)
          dispatch ←
              create_job_dispatch env m.job_id worker_task_name
                (as_dict (record {
                  job_id = m.job_id;
                  job_kind = job.kind;
                  stage = m.stage;
                  payload_schema_version =
                      if job.payload_schema_version == 0 then 1 else job.payload_schema_version;
                  attempt = m.attempt + 1;
                }))
                (some retry_at)
          append_job_event env m.job_id "local_worker_recovery_scheduled"
                (some (
                  ("attempt", number m.attempt)
                  ∷ ("next_attempt", number (m.attempt + 1))
                  ∷ ("dispatch_id", text dispatch.id)
                  ∷ ("retryable", flag true)
                  ∷ []))
                none (some running) (some m.stage)
              >>= λ _. pure scheduled))
        stale_to_state

  abbrev pub terminal_fields : JobStageMessage → (safe_error error_code : String) → ℕ → JobFields
  unfolding stage_text
  terminal_fields m safe_error error_code completed_at = record no_fields {
    error_code = some error_code;
    error_message = some safe_error;
    error_category = some "ambiguous_execution";
    human_hint = some terminal_hint;
    retryable = some 0;
    gateway_stage = some (stage_text m.stage);
    completed_at = some completed_at;
  }

  unfoldable pub fail_terminal :
      Job → JobStageMessage → (error type_name error_code : String) → Exec RecoveryState
  fail_terminal job m error type_name error_code = do
    let safe_error = safe_error_text env error type_name
    completed_at ← now_iso env
    try_except
        (db_transaction (do
          finished ← finish_job_attempt env m.job_id m.attempt (record {
            status = Status.failed;
            completed_at = completed_at;
            retry_at = none;
            error_code = some error_code;
            error_message = some safe_error;
            detail = some (("recovery", text "terminal") ∷ ("automatic_resubmit", flag false) ∷ []);
          })
          moved ←
              transition_job_in_connection env m.job_id job.version Status.failed (some finalize)
                "status_changed" (terminal_fields m safe_error error_code completed_at)
          append_job_event env m.job_id "local_worker_terminal_failure"
                (some (
                  ("attempt", number m.attempt)
                  ∷ ("automatic_resubmit", flag false)
                  ∷ ("error_code", text error_code)
                  ∷ []))
                none (some Status.failed) (some finalize)
              >>= λ _. pure failed))
        stale_to_state

  unfoldable pub recover_found :
      JobStageMessage → (error type_name : String) → Option Job → Exec RecoveryState
  unfolding schedule_retry fail_terminal
  recover_found m error type_name none = pure missing
  recover_found m error type_name (some job) =
      if is_terminal job.status
      then pure terminal
      else if can_resume job m.stage && ltb m.attempt (attempt_limit job)
      then schedule_retry job m error type_name
      else fail_terminal job m error type_name "local_worker_unhandled_error"

  -- `handle_unhandled`
  unfoldable pub handle_unhandled :
      JobStageMessage → (error type_name : String) → Exec RecoveryState
  unfolding recover_found
  handle_unhandled m error type_name = get_job m.job_id >>= recover_found m error type_name

  unfoldable pub duplicate_found : JobStageMessage → Option Job → Exec RecoveryState
  unfolding fail_terminal
  duplicate_found m none = pure missing
  duplicate_found m (some job) =
      if is_terminal job.status
      then pure terminal
      else fail_terminal job m "local worker delivery was ambiguous after restart" "str"
          "local_worker_ambiguous_delivery"

  -- `handle_duplicate`
  unfoldable pub handle_duplicate : JobStageMessage → Exec RecoveryState
  unfolding duplicate_found
  handle_duplicate m = get_job m.job_id >>= duplicate_found m
