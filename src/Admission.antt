-- ===== src/Admission.antt =====
-- services/job_admission.py: a job, its first event and its outbox row in one transaction, unless
-- an active job with the same request hash is there already.
use ange_media_gateway.Base.{
  ℕ, Bool, true, false, not, ◌&&◌, ◌||◌, String, Option, none, some, List, [], ◌∷◌, contains, ◌==◌,
  string_eq, nat_eq, if◌then◌else◌, is_some, is_none, leb,
}
use ange_media_gateway.Store.{
  Kind, queued, Stage, admitted, finalize, stage_eq, number, Job, JobDispatch, Db, Env, Exec,
  value_error, other_error, raise, pure, reads, now_iso, ensure, db_transaction, ◌>>=◌, ◌>>◌,
}
use ange_media_gateway.Text.{is_hex, is_empty}
use ange_media_gateway.Events.{append_job_event}
use ange_media_gateway.Jobs.{
  NewJob, new_job, is_job_kind, insert_job, find_recent_job_by_request_hash, valid_job_stages,
  active_job_statuses,
}
use ange_media_gateway.Message.{as_dict}
use ange_media_gateway.Outbox.{worker_task_name, create_job_dispatch}

pub record AdmissionRequest : Type 0 where
  pub kind : Kind
  pub stage : Stage
  pub request_hash : Option String
  pub request_hash_version : Option ℕ
  -- `sanitized_json(payload)`
  pub payload_json : String
  pub provider : Option String
  pub model : Option String
  pub prompt : Option String
  pub priority : ℕ
  pub max_attempts : ℕ
  pub payload_schema_version : ℕ
  pub scheduled_at : Option ℕ
  pub topic : String
  pub dedupe_hashes : List (Option String × Option ℕ)

pub record AdmissionResult : Type 0 where
  pub job : Job
  pub dispatch : Option JobDispatch
  pub created : Bool

-- The loop over `dedupe_hashes`: candidates without a hash or a version are passed over.
unfoldable pub dedupe_candidates : List (Option String × Option ℕ) → Exec (List (String × ℕ))
unfolding is_hex
dedupe_candidates [] = pure []
dedupe_candidates ((some hash, some version) ∷ rest) =
    if is_empty hash
    then dedupe_candidates rest
    else ensure (is_hex 64 hash) value_error
      >> (dedupe_candidates rest >>= λ more. pure ((hash, version) ∷ more))
dedupe_candidates ((some hash, none) ∷ rest) = dedupe_candidates rest
dedupe_candidates ((none, version) ∷ rest) = dedupe_candidates rest

abbrev pub hash_is_valid : Option String → Bool
hash_is_valid none = true
hash_is_valid (some h) = is_hex 64 h

-- The checks of `admit` on its arguments, in their order.
unfoldable pub check_request : AdmissionRequest → Exec (List (String × ℕ))
unfolding dedupe_candidates is_hex
check_request r = do
  ensure (is_job_kind r.kind) value_error
  ensure (contains valid_job_stages r.stage && not (contains (admitted ∷ finalize ∷ []) r.stage))
      value_error
  ensure (hash_is_valid r.request_hash) value_error
  ensure
      (is_some r.request_hash && is_some r.request_hash_version
        || is_none r.request_hash && is_none r.request_hash_version)
      value_error
  candidates ← dedupe_candidates r.dedupe_hashes
  ensure (leb 1 r.payload_schema_version && leb 1 r.max_attempts) value_error
  ensure (r.topic == worker_task_name) value_error
  pure candidates

-- `[(request_hash, request_hash_version), *dedupe_candidates]`, without what the loop skips.
abbrev pub all_candidates : AdmissionRequest → List (String × ℕ) → List (String × ℕ)
all_candidates r rest = elim r.request_hash [
  | none ↦ rest
  | some h ↦ elim r.request_hash_version [
    | none ↦ rest
    | some v ↦ if is_empty h then rest else (h, v) ∷ rest
  ]
]

-- A candidate that was seen before finds what it found before, so `seen` only saves a query.
unfoldable pub existing_job : Kind → List (String × ℕ) → Db → Option Job
existing_job kind [] db = none
existing_job kind ((hash, version) ∷ rest) db =
    let others = existing_job kind rest db in
    elim (find_recent_job_by_request_hash kind (some hash) (some version) active_job_statuses none
      db) [ some j ↦ some j | none ↦ others ]

abbrev pub admitted_job : AdmissionRequest → NewJob
admitted_job r = record (new_job r.kind) {
  status = queued;
  provider = r.provider;
  model = r.model;
  prompt = r.prompt;
  input_json = some r.payload_json;
  request_hash = r.request_hash;
  request_hash_version = r.request_hash_version;
  stage = some r.stage;
  payload_schema_version = r.payload_schema_version;
  priority = r.priority;
  scheduled_at = r.scheduled_at;
  max_attempts = r.max_attempts;
}

-- `job["id"]` of the empty dict is a `KeyError`.
abbrev pub require_job : Option Job → Exec Job
require_job none = raise (other_error "KeyError")
require_job (some j) = pure j

abbrev pub or_now_iso : Env → Option ℕ → Exec ℕ
or_now_iso env none = now_iso env
or_now_iso env (some t) = pure t

unfoldable pub admit_new : Env → AdmissionRequest → Exec AdmissionResult
unfolding as_dict
admit_new env r = do
  inserted ← insert_job env (admitted_job r)
  job ← require_job inserted
  event ←
      append_job_event env job.id "admitted"
        (some (
          ("payload_schema_version", number r.payload_schema_version)
          ∷ ("priority", number r.priority)
          ∷ []))
        none (some queued) (some r.stage)
  available_at ← or_now_iso env r.scheduled_at
  dispatch ←
      create_job_dispatch env job.id r.topic
        (as_dict (record {
          job_id = job.id;
          job_kind = r.kind;
          stage = r.stage;
          payload_schema_version = r.payload_schema_version;
          attempt = 1;
        }))
        (some available_at)
  pure (record { job = job; dispatch = some dispatch; created = true })

unfoldable pub admit_or_reuse : Env → AdmissionRequest → Option Job → Exec AdmissionResult
unfolding admit_new
admit_or_reuse env r (some existing) =
    pure (record { job = existing; dispatch = none; created = false })
admit_or_reuse env r none = admit_new env r

unfoldable pub admit : Env → AdmissionRequest → Exec AdmissionResult
unfolding check_request admit_or_reuse existing_job
admit env r = do
  candidates ← check_request r
  db_transaction
      (reads (existing_job r.kind (all_candidates r candidates)) >>= admit_or_reuse env r)
