-- ===== src/Store/Schema.antt =====
-- The rows of the tables that db/schema.py and db/migrations.py create.
-- An instant (`now_iso`) is a number: the texts that `now_iso` writes sort as the instants do.
-- The column `payload_json` of an outbox row is modelled by what `json.loads` makes of it.
use ange_media_gateway.Base.{ℕ, String, Bool, Option, List}
use ange_media_gateway.Store.Vocabulary.{Kind, Status, Stage}

-- A JSON value inside the flat objects that events carry.
pub data Scalar : Type 0 where
  null : Scalar
  flag : Bool → Scalar
  number : ℕ → Scalar
  text : String → Scalar

abbrev pub Payload : Type 0
Payload = List (String × Scalar)

pub record Job : Type 0 where
  pub id : String
  pub kind : Kind
  pub status : Status
  pub provider : Option String
  pub model : Option String
  pub prompt : Option String
  pub input_json : Option String
  pub output_json : Option String
  pub error_code : Option String
  pub error_message : Option String
  pub external_task_id : Option String
  pub created_at : ℕ
  pub updated_at : ℕ
  pub started_at : Option ℕ
  pub completed_at : Option ℕ
  pub duration_ms : Option ℕ
  pub request_hash : Option String
  pub request_hash_version : Option ℕ
  pub error_category : Option String
  pub human_hint : Option String
  pub retryable : ℕ
  pub gateway_stage : Option String
  pub stage : Stage
  pub payload_schema_version : ℕ
  pub priority : ℕ
  pub scheduled_at : Option ℕ
  pub next_retry_at : Option ℕ
  pub attempt_count : ℕ
  pub max_attempts : ℕ
  pub claim_token : Option String
  pub claim_expires_at : Option ℕ
  pub worker_kind : Option String
  pub provider_status : Option String
  pub cancel_requested_at : Option ℕ
  pub version : ℕ

pub record JobEvent : Type 0 where
  pub id : String
  pub job_id : String
  pub event_type : String
  pub from_status : Option Status
  pub to_status : Option Status
  pub stage : Option Stage
  pub payload_json : Option Payload
  pub created_at : ℕ

pub record JobAttempt : Type 0 where
  pub id : String
  pub job_id : String
  pub attempt_number : ℕ
  pub stage : Stage
  pub worker_kind : Option String
  pub status : Status
  pub started_at : ℕ
  pub completed_at : Option ℕ
  pub retry_at : Option ℕ
  pub error_code : Option String
  pub error_message : Option String
  pub detail_json : Option Payload

-- A JSON value where the code tests its type: a text, an int, a bool, or anything else (a negative
-- int, which no test of the code accepts, is among the rest).
pub data RawValue : Type 0 where
  raw_text : String → RawValue
  raw_int : ℕ → RawValue
  raw_bool : Bool → RawValue
  raw_other : RawValue

-- An object is read at its keys `stage` and `attempt` only; `rest` are its other entries.
pub data PayloadJson : Type 0 where
  not_json not_object : PayloadJson
  object : (stage : Stage) (attempt : Option RawValue) (rest : Payload) → PayloadJson

pub data DispatchStatus : Type 0 where
  pending publishing published failed canceled : DispatchStatus

pub record JobDispatch : Type 0 where
  pub id : String
  pub job_id : String
  pub topic : String
  pub payload_json : PayloadJson
  pub status : DispatchStatus
  pub available_at : ℕ
  pub published_at : Option ℕ
  pub attempt_count : ℕ
  pub last_error : Option String
  pub claim_token : Option String
  pub claim_expires_at : Option ℕ
  pub broker_message_id : Option String
  pub version : ℕ
  pub created_at : ℕ
  pub updated_at : ℕ

pub record Asset : Type 0 where
  pub id : String
  pub filename : String
  pub storage_area : String
  pub relative_path : String
  pub url_path : String
  pub media_type : Kind
  pub source : String
  pub size : ℕ
  pub prompt : Option String
  pub model : Option String
  pub provider : Option String
  pub duration_ms : Option ℕ
  pub created_at : ℕ
  pub job_id : Option String

-- Without the columns for the provider's answer: `result_url`, `remote_url`, `local_path`, `raw_json`.
pub record Generation : Type 0 where
  pub id : String
  pub media_type : Kind
  pub prompt : String
  pub enhanced_prompt : Option String
  pub model : Option String
  pub status : String
  pub task_id : Option String
  pub job_id : Option String
  pub created_at : ℕ
  pub updated_at : ℕ
  pub provider : Option String
  pub request_model : Option String
  pub input_mode : Option String
  pub duration_ms : ℕ
  pub started_at : ℕ
  pub completed_at : ℕ

-- What `_safe_task_summary` writes into `raw_json`.
pub record TaskSummary : Type 0 where
  pub task_id : String
  pub status : String
  pub provider : String
  pub model : String
  pub localized : Bool
  pub has_video_url : Bool
  pub has_local_path : Bool
  pub duration_ms : ℕ

pub record VideoTask : Type 0 where
  pub task_id : String
  pub prompt : String
  pub model : String
  pub status : String
  pub video_url : String
  pub remote_video_url : String
  pub local_path : String
  pub raw_json : TaskSummary
  pub created_at : ℕ
  pub updated_at : ℕ
  pub provider : String
  pub duration_ms : ℕ

pub record AdminSession : Type 0 where
  pub session_hash : String
  pub username : String
  pub expires_at : ℕ
  pub created_at : ℕ

pub record LoginAttempt : Type 0 where
  pub attempt_key : String
  pub fail_count : ℕ
  pub locked_until : ℕ
  pub updated_at : ℕ

pub record GatewayApiKey : Type 0 where
  pub id : String
  pub name : String
  pub key_prefix : String
  pub key_hash : String
  pub enabled : ℕ
  pub note : Option String
  pub created_at : ℕ
  pub last_used_at : Option ℕ
  pub last_used_ip : Option String
  pub revoked_at : Option ℕ

pub record Db : Type 0 where
  pub jobs : List Job
  pub job_events : List JobEvent
  pub job_attempts : List JobAttempt
  pub job_dispatches : List JobDispatch
  pub assets : List Asset
  pub generations : List Generation
  pub video_tasks : List VideoTask
  pub admin_sessions : List AdminSession
  pub admin_login_attempts : List LoginAttempt
  pub gateway_api_keys : List GatewayApiKey

-- What the code reads from outside: successive results of `now_iso` and `uuid4().hex`, and the
-- redactions of job_sanitizer.py (`_sanitize_string`, `sanitize_json_text`, `sanitized_json`).
pub record Env : Type 0 where
  pub clock : ℕ → ℕ
  pub uuid : ℕ → String
  pub redact : String → String
  pub redact_json : String → String
  pub redact_payload : Payload → Payload

-- The tables, the readings taken so far, and the provider calls made so far, by job and stage.
pub record World : Type 0 where
  pub db : Db
  pub ticks : ℕ
  pub calls : List (String × Stage)
