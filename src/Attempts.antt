-- ===== src/Attempts.antt =====
-- repositories/job_attempts.py: one row for each time that a worker takes up a stage of a job.
use mathlib.Core.Option
use ange_media_gateway.Base.{
  ℕ, Bool, ◌&&◌, String, Option, none, some, List, [], ◌∷◌, ◌++◌, contains, ◌==◌, string_eq, nat_eq,
  find_row, select_rows, update_rows, if◌then◌else◌, is_some, is_none, leb, ltb,
}
use ange_media_gateway.Store.{
  Status, running, succeeded, failed, canceled, Stage, status_eq, stage_eq, Payload, JobAttempt, Db,
  Env, Exec, value_error, integrity_error, modify_db, pure, reads, now_iso, uuid4_hex, ensure,
  ◌>>=◌, ◌>>◌,
}
use ange_media_gateway.Text.{sanitize_error_text}

-- The keyword arguments of `create_job_attempt`.
pub record NewAttempt : Type 0 where
  pub job_id : String
  pub attempt_number : ℕ
  pub stage : Stage
  pub worker_kind : Option String
  pub status : Status
  pub started_at : Option ℕ
  pub completed_at : Option ℕ
  pub retry_at : Option ℕ
  pub error_code : Option String
  pub error_message : Option String
  pub detail : Option Payload

abbrev pub new_attempt : String → ℕ → Stage → NewAttempt
new_attempt job_id attempt_number stage = record {
  job_id = job_id;
  attempt_number = attempt_number;
  stage = stage;
  worker_kind = none;
  status = running;
  started_at = none;
  completed_at = none;
  retry_at = none;
  error_code = none;
  error_message = none;
  detail = none;
}

-- `WHERE job_id=? AND attempt_number=?`
abbrev pub is_attempt : String → ℕ → JobAttempt → Bool
is_attempt job_id attempt_number a = a.job_id == job_id && a.attempt_number == attempt_number

abbrev pub attempt_statuses : List Status
attempt_statuses = running ∷ succeeded ∷ failed ∷ canceled ∷ []

-- The constraints of the table `job_attempts` on a new row.
unfoldable pub attempt_row_fits : JobAttempt → Db → Bool
attempt_row_fits a db =
    is_none (find_row (λ x. x.id == a.id) db.job_attempts)
    && is_some (find_row (λ j. j.id == a.job_id) db.jobs)
    && leb 1 a.attempt_number
    && contains attempt_statuses a.status
    && is_none (find_row (is_attempt a.job_id a.attempt_number) db.job_attempts)

unfoldable pub insert_attempt_row : JobAttempt → Exec JobAttempt
unfolding attempt_row_fits
insert_attempt_row a = do
  fits ← reads (attempt_row_fits a)
  ensure fits integrity_error
  modify_db (λ db. record db { job_attempts = db.job_attempts ++ a ∷ [] })
  pure a

-- `started_at or now_iso()`
unfoldable pub or_now : Env → Option ℕ → Exec ℕ
or_now env none = now_iso env
or_now env (some t) = pure t

unfoldable pub create_job_attempt : Env → NewAttempt → Exec JobAttempt
unfolding or_now insert_attempt_row sanitize_error_text
create_job_attempt env n = do
  attempt_id ← uuid4_hex env
  started_at ← or_now env n.started_at
  insert_attempt_row (record {
    id = attempt_id;
    job_id = n.job_id;
    attempt_number = n.attempt_number;
    stage = n.stage;
    worker_kind = sanitize_error_text env n.worker_kind 128;
    status = n.status;
    started_at = started_at;
    completed_at = n.completed_at;
    retry_at = n.retry_at;
    error_code = sanitize_error_text env n.error_code 128;
    error_message = sanitize_error_text env n.error_message 1000;
    detail_json = Option.map env.redact_payload n.detail;
  })

-- `get_job_attempt`
unfoldable pub job_attempt : String → ℕ → Db → Option JobAttempt
job_attempt job_id attempt_number db = find_row (is_attempt job_id attempt_number) db.job_attempts

-- `ORDER BY attempt_number DESC LIMIT 1`
unfoldable pub last_attempt : List JobAttempt → Option JobAttempt
last_attempt [] = none
last_attempt (a ∷ rest) = elim (last_attempt rest) [
  | none ↦ some a
  | some b ↦ if ltb a.attempt_number b.attempt_number then some b else some a
]

-- `get_running_stage_attempt`
unfoldable pub running_stage_attempt : String → Stage → Db → Option JobAttempt
unfolding last_attempt
running_stage_attempt job_id stage db = last_attempt (
    select_rows (λ a. a.job_id == job_id && a.stage == stage && a.status == running)
      db.job_attempts)

abbrev pub completion_statuses : List Status
completion_statuses = succeeded ∷ failed ∷ canceled ∷ []

-- The keyword arguments of `finish_job_attempt`.
pub record AttemptEnd : Type 0 where
  pub status : Status
  pub completed_at : ℕ
  pub retry_at : Option ℕ
  pub error_code : Option String
  pub error_message : Option String
  pub detail : Option Payload

unfoldable pub set_attempt_end : Env → AttemptEnd → JobAttempt → JobAttempt
unfolding sanitize_error_text
set_attempt_end env e a = record a {
  status = e.status;
  completed_at = some e.completed_at;
  retry_at = e.retry_at;
  error_code = sanitize_error_text env e.error_code 128;
  error_message = sanitize_error_text env e.error_message 1000;
  detail_json = Option.map env.redact_payload e.detail;
}

-- Only a running attempt is changed; the row is returned as it stands then.
unfoldable pub finish_job_attempt : Env → String → ℕ → AttemptEnd → Exec (Option JobAttempt)
unfolding set_attempt_end job_attempt
finish_job_attempt env job_id attempt_number e = do
  ensure (contains completion_statuses e.status) value_error
  modify_db (λ db. record db {
    job_attempts =
        update_rows (λ a. is_attempt job_id attempt_number a && a.status == running)
          (set_attempt_end env e) db.job_attempts;
  })
  reads (job_attempt job_id attempt_number)
