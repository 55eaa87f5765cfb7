-- ===== src/Jobs/Transition.antt =====
-- `transition_job` and its wrappers in repositories/jobs.py: a versioned compare-and-swap update.
use ange_media_gateway.Base.{
  ℕ, suc, Bool, not, ◌&&◌, String, Option, none, some, [], ◌∷◌, contains, ◌==◌, string_eq, nat_eq,
  update_rows, count_rows, if◌then◌else◌, or_else, leb,
}
use ange_media_gateway.Store.{
  Status, failed, Stage, finalize, kind_eq, status_eq, stage_eq, Scalar, Payload, null, number,
  text, Job, Db, Env, Exec, Error, job_not_found, invalid_job_transition, stale_job_version,
  integrity_error, raise, pure, reads, modify_db, ensure, now_iso, db_transaction, try_except,
  ◌>>=◌, ◌>>◌,
}
use ange_media_gateway.Text.{sanitize_error_text, sanitize_json_text}
use ange_media_gateway.Events.{append_job_event}
use ange_media_gateway.Jobs.Tables.{
  job_stages_by_kind, valid_job_stages, allowed_stage_transitions, allowed_status_transitions,
  is_terminal, job_from_connection,
}
use ange_media_gateway.Jobs.Insert.{get_job}

-- The keyword arguments of `transition_job` that `allowed_fields` lets through; None is dropped.
pub record JobFields : Type 0 where
  pub provider : Option String
  pub model : Option String
  pub output_json : Option String
  pub error_code : Option String
  pub error_message : Option String
  pub external_task_id : Option String
  pub started_at : Option ℕ
  pub completed_at : Option ℕ
  pub duration_ms : Option ℕ
  pub error_category : Option String
  pub human_hint : Option String
  pub retryable : Option ℕ
  pub gateway_stage : Option String
  pub scheduled_at : Option ℕ
  pub next_retry_at : Option ℕ
  pub attempt_count : Option ℕ
  pub max_attempts : Option ℕ
  pub claim_token : Option String
  pub claim_expires_at : Option ℕ
  pub worker_kind : Option String
  pub provider_status : Option String
  pub cancel_requested_at : Option ℕ

abbrev pub no_fields : JobFields
no_fields = record {
  provider = none;
  model = none;
  output_json = none;
  error_code = none;
  error_message = none;
  external_task_id = none;
  started_at = none;
  completed_at = none;
  duration_ms = none;
  error_category = none;
  human_hint = none;
  retryable = none;
  gateway_stage = none;
  scheduled_at = none;
  next_retry_at = none;
  attempt_count = none;
  max_attempts = none;
  claim_token = none;
  claim_expires_at = none;
  worker_kind = none;
  provider_status = none;
  cancel_requested_at = none;
}

-- A nullable column keeps its value where no update is given.
abbrev pub or_old {ℓ} : {A : Type ℓ} → Option A → Option A → Option A
or_old none old = old
or_old (some a) old = some a

-- `SET` of the given columns, sanitized, with `status`, `stage`, `updated_at` and `version+1`.
unfoldable pub set_job_columns : Env → JobFields → Status → Stage → ℕ → Job → Job
unfolding sanitize_error_text sanitize_json_text
set_job_columns env f status stage now j =
    let clean = λ (o : Option String). sanitize_error_text env o 1000 in
    record j {
      provider = or_old (clean f.provider) j.provider;
      model = or_old (clean f.model) j.model;
      output_json = or_old (sanitize_json_text env f.output_json) j.output_json;
      error_code = or_old (clean f.error_code) j.error_code;
      error_message = or_old (clean f.error_message) j.error_message;
      external_task_id = or_old (clean f.external_task_id) j.external_task_id;
      started_at = or_old f.started_at j.started_at;
      completed_at = or_old f.completed_at j.completed_at;
      duration_ms = or_old f.duration_ms j.duration_ms;
      error_category = or_old (clean f.error_category) j.error_category;
      human_hint = or_old (clean f.human_hint) j.human_hint;
      retryable = or_else f.retryable j.retryable;
      gateway_stage = or_old (clean f.gateway_stage) j.gateway_stage;
      scheduled_at = or_old f.scheduled_at j.scheduled_at;
      next_retry_at = or_old f.next_retry_at j.next_retry_at;
      attempt_count = or_else f.attempt_count j.attempt_count;
      max_attempts = or_else f.max_attempts j.max_attempts;
      claim_token = or_old f.claim_token j.claim_token;
      claim_expires_at = or_old f.claim_expires_at j.claim_expires_at;
      worker_kind = or_old (clean f.worker_kind) j.worker_kind;
      provider_status = or_old (clean f.provider_status) j.provider_status;
      cancel_requested_at = or_old f.cancel_requested_at j.cancel_requested_at;
      status = status;
      stage = stage;
      updated_at = now;
      version = suc j.version;
    }

abbrev pub effective_stage : Option Stage → Status → Job → Stage
effective_stage (some stage) status existing = stage
effective_stage none status existing = if is_terminal status then finalize else existing.stage

-- The checks of `transition_job_in_connection` on the row that it read, in their order.
unfoldable pub transition_error : Job → ℕ → Status → Stage → Option Error
transition_error existing expected_version status stage =
    if not (existing.version == expected_version)
    then some stale_job_version
    else if not (contains (allowed_status_transitions existing.status) status)
    then some invalid_job_transition
    else if not (contains valid_job_stages stage)
    then some invalid_job_transition
    else if not (contains (job_stages_by_kind existing.kind) stage)
    then some invalid_job_transition
    else if not (contains (allowed_stage_transitions existing.stage) stage)
    then some invalid_job_transition
    else none

-- `WHERE id=? AND version=?`
abbrev pub is_version_of : String → ℕ → Job → Bool
is_version_of job_id version j = j.id == job_id && j.version == version

abbrev pub update_jobs : (Job → Bool) → (Job → Job) → Db → Db
update_jobs p f db = record db { jobs = update_rows p f db.jobs }

-- An `UPDATE jobs`, with its `rowcount`.
unfoldable pub execute_update_jobs : (Job → Bool) → (Job → Job) → Exec ℕ
execute_update_jobs p f w =
    let n = count_rows p w.db.jobs in (modify_db (update_jobs p f) >> pure n) w

abbrev pub text_or_null : Option String → Scalar
text_or_null none = null
text_or_null (some s) = text s

abbrev pub transition_payload : Env → ℕ → JobFields → Payload
unfolding sanitize_error_text
transition_payload env expected_version fields =
    ("version", number (suc expected_version))
    ∷ ("error_code", text_or_null (sanitize_error_text env fields.error_code 1000))
    ∷ ("provider_status", text_or_null (sanitize_error_text env fields.provider_status 1000))
    ∷ []

-- The part of `transition_job_in_connection` behind its checks. The first `ensure` is the column's
-- `CHECK(max_attempts > 0)`.
unfoldable pub commit_transition :
    Env → Job → String → ℕ → Status → Stage → String → JobFields → Exec (Option Job)
unfolding set_job_columns execute_update_jobs sanitize_error_text
commit_transition env existing job_id expected_version status stage event_type fields = do
  now ← now_iso env
  ensure (leb 1 (or_else fields.max_attempts 1)) integrity_error
  rowcount ←
      execute_update_jobs (is_version_of job_id expected_version)
        (set_job_columns env fields status stage now)
  ensure (rowcount == 1) stale_job_version
  append_job_event env job_id event_type (some (transition_payload env expected_version fields))
        (some existing.status) (some status) (some stage)
      >>= λ _. reads (job_from_connection job_id)

-- The exception that the checks raise, or the update.
unfoldable pub transition_checked :
    Env → Job → String → ℕ → Status → Stage → String → JobFields → Option Error → Exec (Option Job)
unfolding commit_transition
transition_checked env existing job_id expected_version status stage event_type fields (some e) =
    raise e
transition_checked env existing job_id expected_version status stage event_type fields none =
    commit_transition env existing job_id expected_version status stage event_type fields

unfoldable pub transition_found :
    Env → String → ℕ → Status → Option Stage → String → JobFields → Option Job → Exec (Option Job)
unfolding transition_checked transition_error
transition_found env job_id expected_version status stage event_type fields none =
    raise job_not_found
transition_found env job_id expected_version status stage event_type fields (some existing) =
    let next = effective_stage stage status existing in
    transition_checked env existing job_id expected_version status next event_type fields
      (transition_error existing expected_version status next)

-- The result `none` is the empty dict of `… or {}`.
unfoldable pub transition_job_in_connection :
    Env → String → ℕ → Status → Option Stage → String → JobFields → Exec (Option Job)
unfolding transition_found
transition_job_in_connection env job_id expected_version status stage event_type fields =
    reads (job_from_connection job_id)
    >>= transition_found env job_id expected_version status stage event_type fields

unfoldable pub transition_job :
    Env → String → ℕ → Status → Option Stage → String → JobFields → Exec (Option Job)
unfolding transition_job_in_connection
transition_job env job_id expected_version status stage event_type fields =
    db_transaction
      (transition_job_in_connection env job_id expected_version status stage event_type fields)

-- `except JobNotFoundError: return None`
abbrev pub none_if_not_found : Error → Option (Exec (Option Job))
none_if_not_found job_not_found = some (pure none)
none_if_not_found _ = none

-- `**fields` may hold the stage and the event type; an absent event type is "status_changed".
unfoldable pub update_job_status :
    Env → String → Status → Option ℕ → Option Stage → String → JobFields → Exec (Option Job)
unfolding transition_job get_job
update_job_status env job_id status expected_version stage event_type fields = do
  found ← get_job job_id
  elim found [
    | none ↦ pure none
    | some existing ↦
        try_except
          (transition_job env job_id (or_else expected_version existing.version) status stage
            event_type fields)
          none_if_not_found
  ]

unfoldable pub fail_job : Env → String → String → String → Exec (Option Job)
unfolding update_job_status
fail_job env job_id error_code error_message =
    update_job_status env job_id failed none none "status_changed"
      (record no_fields { error_code = some error_code; error_message = some error_message })
