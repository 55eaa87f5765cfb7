-- ===== src/Lifecycle.antt =====
-- services/job_lifecycle.py, over the repository's `create_job` and `transition_job`.
use ange_media_gateway.Text.{is_empty}
use ange_media_gateway.Jobs.{no_fields, transition_job, get_job, create_job, JobFields, NewJob}
use ange_media_gateway.Base.{if◌then◌else◌, none, some, ℕ, String, Option}
use ange_media_gateway.Store.{
  pure, runtime_error, job_not_found, raise, ◌>>=◌, running, failed, succeeded, Stage, Job, Status,
  Env, Exec,
}

-- `create`
unfoldable pub create : Env → NewJob → Exec String
create env n = create_job env n >>= λ created. elim created [
  | none ↦ raise runtime_error
  | some job ↦ if is_empty job.id then raise runtime_error else pure job.id
]

-- `transition`
unfoldable pub transition : Env → String → ℕ → Status → Option Stage → JobFields → Exec (Option Job)
transition env job_id expected_version status stage fields =
    transition_job env job_id expected_version status stage "status_changed" fields

-- `_transition_current`
unfoldable pub transition_current : Env → String → Status → JobFields → Exec (Option Job)
unfolding transition
transition_current env job_id status fields = get_job job_id >>= λ found. elim found [
  | none ↦ raise job_not_found
  | some job ↦ transition env job_id job.version status none fields
]

unfoldable pub mark_running :
    Env → String → (provider : String) (model : Option String) (started_at : ℕ) → Exec (Option Job)
unfolding transition_current
mark_running env job_id provider model started_at =
    transition_current env job_id running
      (record no_fields { provider = some provider; model = model; started_at = some started_at })

unfoldable pub mark_succeeded :
    Env
    → String
    → (output_json : Option String) (completed_at : ℕ) (duration_ms : Option ℕ) → Exec (Option Job)
unfolding transition_current
mark_succeeded env job_id output_json completed_at duration_ms =
    transition_current env job_id succeeded (record no_fields {
      output_json = output_json;
      completed_at = some completed_at;
      duration_ms = duration_ms;
    })

unfoldable pub mark_failed :
    Env
    → String
    → (error_code error_message : String) (completed_at : ℕ)
      (error_category human_hint : Option String) (retryable : Option ℕ)
      (gateway_stage : Option String)
    → Exec (Option Job)
unfolding transition_current
mark_failed env job_id error_code error_message completed_at error_category human_hint retryable
      gateway_stage =
    transition_current env job_id failed (record no_fields {
      error_code = some error_code;
      error_message = some error_message;
      error_category = error_category;
      human_hint = human_hint;
      retryable = retryable;
      gateway_stage = gateway_stage;
      completed_at = some completed_at;
    })
