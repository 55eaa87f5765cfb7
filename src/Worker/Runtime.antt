-- ===== src/Worker/Runtime.antt =====
-- services/worker_runtime.py and services/job_stage_registry.py: a message is validated, then given
-- to the handler of its stage, or answered without running anything.
use ange_media_gateway.Base.{
  ℕ, Bool, false, not, ◌&&◌, ◌||◌, String, Option, none, some, [], ◌∷◌, contains, ◌==◌, string_eq,
  nat_eq, if◌then◌else◌, ltb,
}
use ange_media_gateway.Store.{
  running, Stage, other_stage, video_submit, video_poll, asset_import, stage_eq, status_eq, Status,
  number, text, flag, Payload, Job, JobAttempt, Env, Exec, ok, raised, worker_job_not_found,
  worker_job_not_executable, raise, pure, reads, now_iso, db_transaction, ◌>>=◌, ◌>>◌,
}
use ange_media_gateway.Text.{take_chars, is_empty}
use ange_media_gateway.Events.{append_job_event}
use ange_media_gateway.Jobs.{get_job, is_active, is_terminal, update_job_attempt_summary}
use ange_media_gateway.Attempts.{new_attempt, create_job_attempt, job_attempt}
use ange_media_gateway.Message.{JobStageMessage, RawMessage, parse_job_stage_message}

-- The values of the key `status` of a result.
pub data ResultStatus : Type 0 where
  duplicate terminal stale not_implemented succeeded failed scheduled ambiguous inflight :
      ResultStatus

pub record StageResult : Type 0 where
  pub status : ResultStatus
  pub job_id : String
  pub stage : Stage
  pub attempt : ℕ
  pub dispatch_id : String

-- `_result`
abbrev pub result : JobStageMessage → ResultStatus → StageResult
result m status = record {
  status = status;
  job_id = m.job_id;
  stage = m.stage;
  attempt = m.attempt;
  dispatch_id = m.dispatch_id;
}

abbrev pub StageHandler : Type 0
StageHandler = JobStageMessage → Job → Exec StageResult

-- `JobStageRegistry.get`
abbrev pub Registry : Type 0
Registry = Stage → Option StageHandler

-- A column that may be empty counts as absent when it is.
abbrev pub has_text : Option String → Bool
has_text none = false
has_text (some s) = not (is_empty s)

abbrev pub clip_stage : Stage → Stage
clip_stage (other_stage s) = other_stage (take_chars 64 s)
clip_stage s = s

-- `int(job.get("max_attempts") or 1)`
abbrev pub attempt_limit : Job → ℕ
attempt_limit job = if job.max_attempts == 0 then 1 else job.max_attempts

-- The stages whose running attempt a second delivery may resume.
abbrev pub is_resumable : Stage → Job → Bool
is_resumable stage job =
    contains (video_poll ∷ asset_import ∷ []) stage
    || stage == video_submit && has_text job.external_task_id

abbrev pub trace_payload : JobStageMessage → Payload
trace_payload m = ("dispatch_id", text m.dispatch_id) ∷ ("trace_id", text m.trace_id) ∷ []

abbrev pub attempt_payload : JobStageMessage → Payload
attempt_payload m =
    ("attempt", number m.attempt)
    ∷ ("dispatch_id", text m.dispatch_id)
    ∷ ("trace_id", text m.trace_id)
    ∷ []

-- An event outside any transaction, then an answer.
unfoldable pub answer :
    Env → JobStageMessage → String → Payload → Stage → ResultStatus → Exec StageResult
answer env m event_type payload stage status =
    append_job_event env m.job_id event_type (some payload) none none (some stage) >>= λ _.
    pure (result m status)

abbrev pub or_not_executable : Option Job → Exec Job
or_not_executable none = raise worker_job_not_executable
or_not_executable (some j) = pure j

module _ (env : Env) (worker_kind : String) (registry : Registry) where
  -- A stage that has no handler: a failed attempt is recorded.
  unfoldable pub record_unhandled : JobStageMessage → Exec StageResult
  record_unhandled m = do
    completed_at ← now_iso env
    db_transaction (do
      updated ← update_job_attempt_summary env m.job_id m.stage m.attempt worker_kind
      job ← or_not_executable updated
      attempt ← create_job_attempt env (record (new_attempt m.job_id m.attempt m.stage) {
        worker_kind = some worker_kind;
        status = Status.failed;
        completed_at = some completed_at;
        error_code = some "worker_stage_not_implemented";
        error_message = some "worker stage handler is not implemented";
        detail = some (trace_payload m);
      })
      append_job_event env m.job_id "worker_stage_not_implemented"
            (some (
              ("attempt", number m.attempt)
              ∷ ("dispatch_id", text m.dispatch_id)
              ∷ ("trace_id", text m.trace_id)
              ∷ ("retryable", flag false)
              ∷ []))
            none none (some m.stage)
          >>= λ _. pure (result m not_implemented))

  unfoldable pub run_handler : JobStageMessage → Job → Option StageHandler → Exec StageResult
  unfolding record_unhandled
  run_handler m job none = record_unhandled m
  run_handler m job (some handler) = handler m job

  -- The row of an attempt that was started before: resumed, or a duplicate.
  unfoldable pub handle_existing :
      JobStageMessage → Job → JobAttempt → Option StageHandler → Exec StageResult
  unfolding answer
  handle_existing m job attempt none =
      answer env m "worker_duplicate_message" (trace_payload m) m.stage duplicate
  handle_existing m job attempt (some handler) =
      if is_resumable m.stage job
        && attempt.status == running
        && is_active job.status
        && job.stage == m.stage
      then handler m job
      else answer env m "worker_duplicate_message" (trace_payload m) m.stage duplicate

  unfoldable pub handle_fresh : JobStageMessage → Job → Exec StageResult
  unfolding answer run_handler
  handle_fresh m job =
      if is_terminal job.status
      then answer env m "worker_terminal_message_rejected" (trace_payload m) (clip_stage job.stage)
          terminal
      else if ltb (attempt_limit job) m.attempt
      then (append_job_event env m.job_id "worker_attempt_limit_rejected" (some (attempt_payload m))
            none none (some m.stage)
          >>= λ _. raise worker_job_not_executable)
      else if not (job.stage == m.stage)
      then answer env m "worker_stage_mismatch" (trace_payload m) (clip_stage job.stage) stale
      else run_handler m job (registry m.stage)

  unfoldable pub handle_found : JobStageMessage → Option Job → Exec StageResult
  unfolding handle_existing handle_fresh
  handle_found m none = raise worker_job_not_found
  handle_found m (some job) = reads (job_attempt m.job_id m.attempt) >>= λ existing. elim existing [
    | some attempt ↦ handle_existing m job attempt (registry m.stage)
    | none ↦ handle_fresh m job
  ]

  unfoldable pub handle_message : (refresh : Exec (Unit {0})) → JobStageMessage → Exec StageResult
  unfolding handle_found
  handle_message refresh m = refresh >> (get_job m.job_id >>= handle_found m)

  -- `WorkerRuntime.handle`; `refresh` is the runtime's `runtime_refresher`.
  unfoldable pub handle : (refresh : Exec (Unit {0})) → RawMessage → Exec StageResult
  unfolding handle_message parse_job_stage_message
  handle refresh raw = elim (parse_job_stage_message raw) [
    | raised e ↦ raise e
    | ok m ↦ handle_message refresh m
  ]
