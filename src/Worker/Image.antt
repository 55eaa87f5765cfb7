-- ===== src/Worker/Image.antt =====
-- services/image_job_worker.py: one image_generate stage, from the claim to the result.
use ange_media_gateway.Media.{save_generated_asset, record_generation}
use ange_media_gateway.Jobs.{no_fields, claim_job_attempt, transition_job_in_connection}
use ange_media_gateway.Events.{append_job_event}
use ange_media_gateway.Attempts.{finish_job_attempt, new_attempt, create_job_attempt, job_attempt}
use ange_media_gateway.Diagnostics.{classify_provider_error}
use ange_media_gateway.Text.{is_empty, take_chars}
use ange_media_gateway.Message.{JobStageMessage}
use ange_media_gateway.Worker.Runtime.{duplicate, stale, result, StageResult, ResultStatus}
use ange_media_gateway.Base.{
  ltb, false, ◌&&◌, length, List, if◌then◌else◌, ℕ, Option, String, none, some, [], ◌∷◌, ◌==◌,
}
use ange_media_gateway.Store.{
  flag, finalize, number, stage_eq, queued, running, kind_eq, text, try_except, value_error,
  now_iso, failed, raised, image_generate, succeeded, stale_job_version, catch_all, ◌>>◌, ◌>>=◌,
  image, ensure, pure, reads, ok, db_transaction, Payload, Exec, Stage, Job, Outcome,
  image_asset_missing, Env, Error,
}

-- What `parse_image_job_payload` makes of a payload, as far as the worker reads it.
pub record ImagePayload : Type 0 where
  pub prompt : String
  pub provider : String
  pub model : String

-- `ImageExecutionResult`; `files` are the output files that exist,
-- with their sizes, and `output_json` is
-- `safe_output_json` of the result, which holds the id of the generation.
pub record ImageExecution : Type 0 where
  pub provider : String
  pub model : String
  pub request_model : Option String
  pub input_mode : String
  pub started_at : ℕ
  pub duration_ms : ℕ
  pub files : List (String × ℕ)
  pub output_json : String → String

-- What the worker takes from elsewhere: the parser of the payload, the executor (its answer may
-- depend on the calls made before), and Python's `str`, `type(…).__name__` and `str.lower`.
pub record ImageJobWorker : Type 0 where
  pub worker_kind : String
  pub parse : Option String → Outcome ImagePayload
  pub execute : ImagePayload → ℕ → Outcome ImageExecution
  pub describe : Error → String
  pub type_name : Error → String
  pub lower : String → String

-- A call of a provider; it is made, whatever comes of it.
unfoldable pub call_provider {ℓ} : {A : Type ℓ} → String → Stage → (ℕ → Outcome A) → Exec A
call_provider job_id stage execute w =
    (execute (length w.calls), record w { calls = (job_id, stage) ∷ w.calls })

-- How the first transaction ends: with an answer, or with the claimed row.
pub data Started : Type 0 where
  answered : ResultStatus → Started
  claimed : Job → Started

-- `except StaleJobVersion`
abbrev pub stale_result : JobStageMessage → Error → Option (Exec StageResult)
stale_result m stale_job_version = some (pure (result m stale))
stale_result m _ = none

-- `sanitize_error_text(detail) or type(exc).__name__`
abbrev pub failure_text : Env → ImageJobWorker → Error → String
failure_text env c e =
    let t = take_chars 1000 (env.redact (c.describe e)) in if is_empty t then c.type_name e else t

abbrev pub error_code_of : Error → String
error_code_of image_asset_missing = "image_asset_missing"
error_code_of _ = "image_provider_failure"

-- `str(job.get("provider") or "image")`
abbrev pub provider_or_image : Option String → String
provider_or_image none = "image"
provider_or_image (some s) = if is_empty s then "image" else s

-- `str(job.get("model") or "") or None`
abbrev pub nonempty_text : Option String → Option String
nonempty_text none = none
nonempty_text (some s) = if is_empty s then none else some s

module _ (env : Env) (c : ImageJobWorker) where
  -- The attempt and the event of a claim that succeeded.
  unfoldable pub start_claimed :
      JobStageMessage
      → (started_at : ℕ) (detail : Option Payload) (event_type : String) (payload : Payload)
      → Option Job
      → Exec Started
  start_claimed m started_at detail event_type payload none = pure (answered stale)
  start_claimed m started_at detail event_type payload (some job) = do
    attempt ← create_job_attempt env (record (new_attempt m.job_id m.attempt m.stage) {
      worker_kind = some c.worker_kind;
      status = running;
      started_at = some started_at;
      detail = detail;
    })
    append_job_event env m.job_id event_type (some payload) (some queued) (some running)
          (some m.stage)
        >>= λ _. pure (claimed job)

  -- The transaction that claims the job, in `handle`.
  unfoldable pub start_attempt : JobStageMessage → Job → ImagePayload → ℕ → Exec Started
  unfolding start_claimed
  start_attempt m job p started_at = db_transaction (
      reads (job_attempt m.job_id m.attempt) >>= λ existing. elim existing [
        | some attempt ↦
            append_job_event env m.job_id "worker_duplicate_message"
              (some (("dispatch_id", text m.dispatch_id) ∷ ("trace_id", text m.trace_id) ∷ [])) none
              none (some m.stage)
            >>= λ _. pure (answered duplicate)
        | none ↦
            claim_job_attempt env m.job_id job.version m.stage m.attempt c.worker_kind p.provider
              (some p.model) started_at false
            >>= start_claimed m started_at
                (some (("dispatch_id", text m.dispatch_id) ∷ ("trace_id", text m.trace_id) ∷ []))
                "worker_attempt_started"
                (("attempt", number m.attempt) ∷ ("dispatch_id", text m.dispatch_id) ∷ [])
      ])

  -- The transaction of `_fail_without_execution`.
  unfoldable pub start_rejected : JobStageMessage → Job → String → ℕ → Exec Started
  unfolding start_claimed
  start_rejected m job error_code started_at = db_transaction (
      reads (job_attempt m.job_id m.attempt) >>= λ existing. elim existing [
        | some attempt ↦ pure (answered duplicate)
        | none ↦
            claim_job_attempt env m.job_id job.version m.stage m.attempt c.worker_kind
              (provider_or_image job.provider) (nonempty_text job.model) started_at false
            >>= start_claimed m started_at none "worker_image_payload_rejected"
                (("attempt", number m.attempt) ∷ ("error_code", text error_code) ∷ [])
      ])

  -- `_persist_success`
  unfoldable pub persist_success :
      JobStageMessage → ImagePayload → ImageExecution → ℕ → Exec (Unit {0})
  persist_success m p x expected_version = do
    completed_at ← now_iso env
    db_transaction (do
      record_id ← record_generation env (record {
        media_type = image;
        prompt = p.prompt;
        enhanced_prompt = none;
        model = some x.model;
        status = "completed";
        task_id = none;
        provider = some x.provider;
        request_model = x.request_model;
        input_mode = some x.input_mode;
        duration_ms = x.duration_ms;
        started_at = some x.started_at;
        job_id = some m.job_id;
      })
      asset_count ←
          save_generated_asset env x.files
            (record {
              media_type = image;
              prompt = p.prompt;
              model = some x.model;
              provider = some x.provider;
              duration_ms = x.duration_ms;
            })
            (some m.job_id)
      ensure (ltb 0 asset_count) image_asset_missing
      moved ←
          transition_job_in_connection env m.job_id expected_version succeeded none "status_changed"
            (record no_fields {
              output_json = some (x.output_json record_id);
              completed_at = some completed_at;
              duration_ms = some x.duration_ms;
            })
      finished ← finish_job_attempt env m.job_id m.attempt (record {
        status = succeeded;
        completed_at = completed_at;
        retry_at = none;
        error_code = none;
        error_message = none;
        detail = some (("history_id", text record_id) ∷ ("asset_count", number asset_count) ∷ []);
      })
      append_job_event env m.job_id "worker_attempt_succeeded"
            (some (("attempt", number m.attempt) ∷ ("history_id", text record_id) ∷ [])) none
            (some succeeded) (some finalize)
          >>= λ _. pure tt)

  -- `_persist_failure`
  unfoldable pub persist_failure : JobStageMessage → Error → String → ℕ → Exec (Unit {0})
  persist_failure m e error_code expected_version = do
    let safe_error = failure_text env c e
    let class = classify_provider_error c.lower safe_error
    completed_at ← now_iso env
    db_transaction (do
      moved ←
          transition_job_in_connection env m.job_id expected_version failed none "status_changed"
            (record no_fields {
              error_code = some error_code;
              error_message = some safe_error;
              error_category = some class.error_category;
              human_hint = some class.human_hint;
              retryable = some (if class.retryable then 1 else 0);
              gateway_stage = some class.gateway_stage;
              completed_at = some completed_at;
            })
      finished ← finish_job_attempt env m.job_id m.attempt (record {
        status = failed;
        completed_at = completed_at;
        retry_at = none;
        error_code = some error_code;
        error_message = some safe_error;
        detail = some (("retryable", flag class.retryable) ∷ []);
      })
      append_job_event env m.job_id "worker_attempt_failed"
            (some (
              ("attempt", number m.attempt)
              ∷ ("error_code", text error_code)
              ∷ ("retryable", flag class.retryable)
              ∷ []))
            none (some failed) (some finalize)
          >>= λ _. pure tt)

  -- The outer `except` clauses of `handle`.
  unfoldable pub after_execution : JobStageMessage → ℕ → Outcome (Unit {0}) → Exec StageResult
  unfolding persist_failure
  after_execution m expected_version (ok done) = pure (result m ResultStatus.succeeded)
  after_execution m expected_version (raised e) = elim (stale_result m e) [
    | some answer ↦ answer
    | none ↦
        try_except
          (persist_failure m e (error_code_of e) expected_version
            >> pure (result m ResultStatus.failed))
          (stale_result m)
  ]

  -- The executor is called only with the claimed row in hand.
  unfoldable pub run_claimed : JobStageMessage → ImagePayload → Started → Exec StageResult
  unfolding after_execution persist_success call_provider
  run_claimed m p (answered status) = pure (result m status)
  run_claimed m p (claimed job) =
      catch_all
        (call_provider m.job_id m.stage (c.execute p) >>= λ x. persist_success m p x job.version)
      >>= after_execution m job.version

  unfoldable pub fail_claimed : JobStageMessage → Error → String → Started → Exec StageResult
  unfolding persist_failure
  fail_claimed m e error_code (answered status) = pure (result m status)
  fail_claimed m e error_code (claimed job) =
      persist_failure m e error_code job.version >> pure (result m ResultStatus.failed)

  -- `_fail_without_execution`
  unfoldable pub fail_without_execution : JobStageMessage → Job → Error → String → Exec StageResult
  unfolding start_rejected fail_claimed
  fail_without_execution m job e error_code = do
    started_at ← now_iso env
    started ← start_rejected m job error_code started_at
    fail_claimed m e error_code started

  -- `handle`
  unfoldable pub handle_image : JobStageMessage → Job → Exec StageResult
  unfolding start_attempt run_claimed fail_without_execution
  handle_image m job =
      ensure (job.kind == image && m.stage == image_generate) value_error
      >> (elim (c.parse job.input_json) [
        | raised e ↦ fail_without_execution m job e "invalid_image_job_payload"
        | ok p ↦ now_iso env >>= λ started_at. start_attempt m job p started_at >>= run_claimed m p
      ])
