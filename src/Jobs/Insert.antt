-- ===== src/Jobs/Insert.antt =====
-- `insert_job`, `create_job`, `get_job` and the look-up by request hash of repositories/jobs.py.
use ange_media_gateway.Base.{
  ℕ, Bool, true, false, not, ◌&&◌, ◌||◌, String, Option, none, some, List, [], ◌∷◌, ◌++◌, contains,
  ◌==◌, Eq, string_eq, nat_eq, find_row, select_rows, if◌then◌else◌, is_some, is_none, leb, ltb,
}
use ange_media_gateway.Store.{
  Kind, Status, queued, Stage, admitted, finalize, other_stage, kind_eq, status_eq, stage_eq, Job,
  Db, Env, Exec, Error, value_error, integrity_error, raise, modify_db, pure, reads, now_iso,
  uuid4_hex, ◌>>=◌, ◌>>◌,
}
use ange_media_gateway.Text.{sanitize_error_text, sanitize_json_text, is_hex, is_empty}
use ange_media_gateway.Jobs.Tables.{
  job_stages_by_kind, is_job_kind, valid_job_statuses, valid_job_stages, is_terminal, is_active,
  job_from_connection,
}

-- The keyword arguments of `insert_job`.
pub record NewJob : Type 0 where
  pub kind : Kind
  pub status : Status
  pub provider : Option String
  pub model : Option String
  pub prompt : Option String
  pub input_json : Option String
  pub output_json : Option String
  pub error_code : Option String
  pub error_message : Option String
  pub external_task_id : Option String
  pub started_at : Option ℕ
  pub completed_at : Option ℕ
  pub duration_ms : Option ℕ
  pub request_hash : Option String
  pub request_hash_version : Option ℕ
  pub error_category : Option String
  pub human_hint : Option String
  pub retryable : ℕ
  pub gateway_stage : Option String
  pub stage : Option Stage
  pub payload_schema_version : ℕ
  pub priority : ℕ
  pub scheduled_at : Option ℕ
  pub next_retry_at : Option ℕ
  pub attempt_count : ℕ
  pub max_attempts : ℕ
  pub claim_token : Option String
  pub claim_expires_at : Option ℕ
  pub worker_kind : Option String
  pub provider_status : Option String
  pub cancel_requested_at : Option ℕ
  pub version : ℕ
  pub job_id : Option String

-- The defaults of the keyword arguments.
abbrev pub new_job : Kind → NewJob
new_job kind = record {
  kind = kind;
  status = queued;
  provider = none;
  model = none;
  prompt = none;
  input_json = none;
  output_json = none;
  error_code = none;
  error_message = none;
  external_task_id = none;
  started_at = none;
  completed_at = none;
  duration_ms = none;
  request_hash = none;
  request_hash_version = none;
  error_category = none;
  human_hint = none;
  retryable = 0;
  gateway_stage = none;
  stage = none;
  payload_schema_version = 1;
  priority = 0;
  scheduled_at = none;
  next_retry_at = none;
  attempt_count = 0;
  max_attempts = 3;
  claim_token = none;
  claim_expires_at = none;
  worker_kind = none;
  provider_status = none;
  cancel_requested_at = none;
  version = 0;
  job_id = none;
}

abbrev pub default_stage : Status → Stage
default_stage status = if is_terminal status then finalize else admitted

-- `stage or (…)`: None and the empty text count as not given.
abbrev pub effective_new_stage : Option Stage → Status → Stage
effective_new_stage none status = default_stage status
effective_new_stage (some (other_stage name)) status =
    if is_empty name then default_stage status else other_stage name
effective_new_stage (some stage) status = stage

abbrev pub is_request_hash : Option String → Bool
is_request_hash none = true
is_request_hash (some h) = is_hex 64 h

-- The checks of `insert_job`, in their order.
unfoldable pub insert_job_error : NewJob → Option Error
unfolding is_hex
insert_job_error n =
    let stage = effective_new_stage n.stage n.status in
    if not (is_job_kind n.kind)
    then some integrity_error
    else if not (contains valid_job_statuses n.status)
    then some integrity_error
    else if not (contains valid_job_stages stage)
    then some value_error
    else if not (contains (job_stages_by_kind n.kind) stage)
    then some value_error
    else if not (is_request_hash n.request_hash)
    then some value_error
    else if is_some n.request_hash && is_none n.request_hash_version
        || is_none n.request_hash && is_some n.request_hash_version
    then some value_error
    else none

abbrev pub some_eq {ℓ} : {A : Type ℓ} ⦃e : Eq A⦄ → Option A → Option A → Bool
some_eq (some a) (some b) = a == b
some_eq _ _ = false

-- Two rows that the partial index `uq_jobs_active_request_hash` does not allow together.
abbrev pub same_active_hash : Job → Job → Bool
same_active_hash a b =
    is_active a.status
    && is_active b.status
    && a.kind == b.kind
    && some_eq a.request_hash b.request_hash
    && some_eq a.request_hash_version b.request_hash_version

-- The constraints of the table `jobs` on a new row.
unfoldable pub job_row_fits : Job → Db → Bool
unfolding job_from_connection
job_row_fits j db =
    is_none (job_from_connection j.id db)
    && is_none (find_row (same_active_hash j) db.jobs)
    && leb 1 j.payload_schema_version
    && leb 1 j.max_attempts

unfoldable pub insert_job_row : Job → Exec (Option Job)
unfolding job_row_fits
insert_job_row j = do
  fits ← reads (job_row_fits j)
  if fits
      then modify_db (λ db. record db { jobs = db.jobs ++ j ∷ [] })
        >> reads (job_from_connection j.id)
      else raise integrity_error

unfoldable pub job_row : Env → NewJob → String → ℕ → Job
unfolding sanitize_error_text sanitize_json_text
job_row env n identifier now = record {
  id = identifier;
  kind = n.kind;
  status = n.status;
  provider = sanitize_error_text env n.provider 256;
  model = sanitize_error_text env n.model 256;
  prompt = sanitize_error_text env n.prompt 8000;
  input_json = sanitize_json_text env n.input_json;
  output_json = sanitize_json_text env n.output_json;
  error_code = sanitize_error_text env n.error_code 128;
  error_message = sanitize_error_text env n.error_message 1000;
  external_task_id = sanitize_error_text env n.external_task_id 256;
  created_at = now;
  updated_at = now;
  started_at = n.started_at;
  completed_at = n.completed_at;
  duration_ms = n.duration_ms;
  request_hash = n.request_hash;
  request_hash_version = n.request_hash_version;
  error_category = sanitize_error_text env n.error_category 128;
  human_hint = sanitize_error_text env n.human_hint 1000;
  retryable = if ltb 0 n.retryable then 1 else 0;
  gateway_stage = sanitize_error_text env n.gateway_stage 128;
  stage = effective_new_stage n.stage n.status;
  payload_schema_version = n.payload_schema_version;
  priority = n.priority;
  scheduled_at = n.scheduled_at;
  next_retry_at = n.next_retry_at;
  attempt_count = n.attempt_count;
  max_attempts = n.max_attempts;
  claim_token = n.claim_token;
  claim_expires_at = n.claim_expires_at;
  worker_kind = sanitize_error_text env n.worker_kind 128;
  provider_status = sanitize_error_text env n.provider_status 128;
  cancel_requested_at = n.cancel_requested_at;
  version = n.version;
}

-- `job_id or uuid4().hex`
unfoldable pub new_identifier : Env → Option String → Exec String
new_identifier env none = uuid4_hex env
new_identifier env (some id) = if is_empty id then uuid4_hex env else pure id

-- The result `none` is the empty dict of `… or {}`.
unfoldable pub insert_job : Env → NewJob → Exec (Option Job)
unfolding insert_job_row new_identifier insert_job_error
insert_job env n = elim (insert_job_error n) [
  | some e ↦ raise e
  | none ↦ do
    now ← now_iso env
    identifier ← new_identifier env n.job_id
    insert_job_row (job_row env n identifier now)
]

-- On its own connection: the one statement commits by itself.
unfoldable pub create_job : Env → NewJob → Exec (Option Job)
unfolding insert_job
create_job env n = insert_job env n

unfoldable pub get_job : String → Exec (Option Job)
get_job job_id = reads (job_from_connection job_id)

-- `ORDER BY created_at DESC LIMIT 1`; of equal instants, the row inserted first.
unfoldable pub latest_job : List Job → Option Job
latest_job [] = none
latest_job (j ∷ js) = elim (latest_job js) [
  | none ↦ some j
  | some k ↦ if ltb j.created_at k.created_at then some k else some j
]

-- An absent or empty hash, or an absent version, finds nothing.
unfoldable pub find_recent_job_by_request_hash :
    Kind → Option String → Option ℕ → List Status → Option ℕ → Db → Option Job
unfolding latest_job
find_recent_job_by_request_hash kind (some hash) (some version) statuses created_after db =
    if is_empty hash
    then none
    else latest_job (
        select_rows
          (λ j.
            j.kind == kind
            && some_eq j.request_hash (some hash)
            && some_eq j.request_hash_version (some version)
            && contains statuses j.status
            && (elim created_after [ none ↦ true | some t ↦ leb t j.created_at ]))
          db.jobs)
find_recent_job_by_request_hash kind (some hash) none statuses created_after db = none
find_recent_job_by_request_hash kind none _ statuses created_after db = none
