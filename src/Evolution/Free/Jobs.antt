-- ===== src/Evolution/Free/Jobs.antt =====
-- A relation that leaves the jobs free is respected by the statements on jobs.
use ange_media_gateway.Events.{append_job_event}
use ange_media_gateway.Jobs.{
  JobFields, commit_transition, transition_found, transition_checked, transition_job_in_connection,
  insert_job_error, NewJob, claim_job_attempt, update_job_attempt_summary, insert_job,
  new_identifier, execute_update_jobs,
}
use ange_media_gateway.Evolution.Relates.{
  Relates-ensure, Relates-raise, Relates-modify_db, Relates-pure, Relates-if, Relates-reads,
  Relates-now_iso, Relates-option, Relates-uuid4_hex, Relates-bind, Relates, IsPreorder,
}
use ange_media_gateway.Base.{nat_eq, ◌==◌, ℕ, Bool, Option, String, List, none, some}
use ange_media_gateway.Store.{World, Error, Status, Stage, Payload, ◌>>=◌, Env, Job}

module _ {R : World → World → Type 0} ⦃o : IsPreorder R⦄
    (free : (a : World) (l : List Job) → R a (record a { db = record (a.db) { jobs = l } })) where
  Free-new_identifier : (env : Env) (o : Option String) → Relates R (new_identifier env o)
  unfolding new_identifier
  Free-new_identifier env none = Relates-uuid4_hex env
  Free-new_identifier env (some id) = Relates-if _ (Relates-uuid4_hex env) (Relates-pure id)

  pub Free-insert_job : (env : Env) (n : NewJob) → Relates R (insert_job env n)
  unfolding insert_job
  Free-insert_job env n =
      Relates-option (insert_job_error n)
        (Relates-bind (Relates-now_iso env) λ now.
          Relates-bind (Free-new_identifier env n.job_id) λ identifier.
            Relates-bind (Relates-reads _) λ fits.
              Relates-if fits
                (Relates-bind (Relates-modify_db _ λ a. free a _) λ _. Relates-reads _)
                (Relates-raise _))
        (λ e. Relates-raise e)

  Free-execute_update_jobs : (p : Job → Bool) (f : Job → Job) → Relates R (execute_update_jobs p f)
  unfolding execute_update_jobs ◌>>=◌
  Free-execute_update_jobs p f = record { at = λ w. free w _ }

  pub Free-claim :
      (env : Env) (id : String) (v : ℕ) (stage : Stage) (attempt_count : ℕ)
      (worker_kind provider : String) (model : Option String) (started_at : ℕ)
      (allow_running : Bool)
      → Relates R (
          claim_job_attempt env id v stage attempt_count worker_kind provider model started_at
            allow_running)
  unfolding claim_job_attempt
  Free-claim env id v stage attempt_count worker_kind provider model started_at allow_running =
      Relates-bind (Relates-now_iso env) λ now.
        Relates-bind (Free-execute_update_jobs _ _)
          λ rowcount. Relates-if (rowcount == 1) (Relates-reads _) (Relates-pure _)

  pub Free-summary :
      (env : Env) (id : String) (stage : Stage) (attempt_count : ℕ) (worker_kind : String)
      → Relates R (update_job_attempt_summary env id stage attempt_count worker_kind)
  unfolding update_job_attempt_summary
  Free-summary env id stage attempt_count worker_kind = Relates-bind (Relates-reads _) λ found.
      Relates-option found (Relates-pure _) λ existing. Relates-if _ (Relates-pure _) (
        Relates-bind (Relates-now_iso env) λ now.
          Relates-bind (Free-execute_update_jobs _ _)
            λ rowcount. Relates-if (rowcount == 1) (Relates-reads _) (Relates-pure _))

  -- A transition also writes an event.
  module _
      (event_related : (env : Env) (id event_type : String) (payload : Option Payload)
          (from to : Option Status) (stage : Option Stage)
        → Relates R (append_job_event env id event_type payload from to stage)) where
    Free-commit_transition :
        (env : Env) (existing : Job) (id : String) (v : ℕ) (status : Status) (stage : Stage)
        (event_type : String) (fields : JobFields)
        → Relates R (commit_transition env existing id v status stage event_type fields)
    unfolding commit_transition
    Free-commit_transition env existing id v status stage event_type fields =
        Relates-bind (Relates-now_iso env) λ now. Relates-bind (Relates-ensure _ _) λ _.
          Relates-bind (Free-execute_update_jobs _ _) λ rowcount.
            Relates-bind (Relates-ensure _ _)
              λ _. Relates-bind (event_related env _ _ _ _ _ _) λ _. Relates-reads _

    Free-transition_checked :
        (env : Env) (existing : Job) (id : String) (v : ℕ) (status : Status) (stage : Stage)
        (event_type : String) (fields : JobFields) (o : Option Error)
        → Relates R (transition_checked env existing id v status stage event_type fields o)
    unfolding transition_checked
    Free-transition_checked env existing id v status stage event_type fields none =
        Free-commit_transition env existing id v status stage event_type fields
    Free-transition_checked env existing id v status stage event_type fields (some e) =
        Relates-raise e

    Free-transition_found :
        (env : Env) (id : String) (v : ℕ) (status : Status) (stage : Option Stage)
        (event_type : String) (fields : JobFields) (found : Option Job)
        → Relates R (transition_found env id v status stage event_type fields found)
    unfolding transition_found
    Free-transition_found env id v status stage event_type fields none = Relates-raise _
    Free-transition_found env id v status stage event_type fields (some existing) =
        Free-transition_checked env existing id v status _ event_type fields _

    pub Free-transition :
        (env : Env) (id : String) (v : ℕ) (status : Status) (stage : Option Stage)
        (event_type : String) (fields : JobFields)
        → Relates R (transition_job_in_connection env id v status stage event_type fields)
    unfolding transition_job_in_connection
    Free-transition env id v status stage event_type fields =
        Relates-bind (Relates-reads _)
          λ found. Free-transition_found env id v status stage event_type fields found
