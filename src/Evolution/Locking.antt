-- ===== src/Evolution/Locking.antt =====
-- Transitions that return, and the version of a job as an optimistic lock.
use mathlib.Core.Option.{none}
use ange_media_gateway.Base.{
  refl, nat_eq, string_eq, ◌∙◌, ==_iff, true, sym, Bool-cases, find_row-update_rows, inr, inl,
  Option-cases, ◌≢◌, some, update_rows, ◌≡◌, Option, ℕ, String, ◌==◌, arith,
}
use ange_media_gateway.Store.{
  Error, stale_job_version, db_transaction, raised, Db, raise, ok, World, Stage, Status, Job, Env,
  ◌>>=◌,
}
use ange_media_gateway.Store.Success.{transaction_raises, transaction_returns}
use ange_media_gateway.Jobs.{
  transition_checked, transition_job_in_connection, transition_error, effective_stage,
  job_from_connection, transition_found, set_job_columns, is_version_of, JobFields,
  execute_update_jobs, commit_transition, transition_job,
}
use ange_media_gateway.Evolution.Transitions.{
  id-job_from_connection, id-set_job_columns, TransitionChecked, transition_error-none,
  jobs-append_job_event,
}

commit_returns :
    (env : Env) (existing : Job) (id : String) (v : ℕ) (status : Status) (stage : Stage)
    (event_type : String) (fields : JobFields) (w : World) (r : Option Job)
    → (commit_transition env existing id v status stage event_type fields w).0 ≡ ok r
    → (commit_transition env existing id v status stage event_type fields w).1.db.jobs
      ≡ update_rows
          (is_version_of id v)
          (set_job_columns env fields status stage (env.clock w.ticks))
          w.db.jobs
unfolding commit_transition execute_update_jobs ◌>>=◌
commit_returns env existing id v status stage event_type fields w r h =
    grind (arith, jobs-append_job_event)

-- The effect of a transition that returned: the row that it read passed the checks, the new row
-- stands in its place, and no other job has changed.
pub record Transitioned (env : Env) (id : String) (v : ℕ) (status : Status) (stage : Option Stage)
    (fields : JobFields) (a b : World) : Type 0 where
  pub existing : Job
  pub found : job_from_connection id a.db ≡ some existing
  pub checked : TransitionChecked existing v status (effective_stage stage status existing)
  pub after :
      job_from_connection id b.db
      ≡ some (
          set_job_columns env fields status
            (effective_stage stage status existing)
            (env.clock a.ticks)
            existing)
  pub others : (i : String) → i ≢ id → job_from_connection i b.db ≡ job_from_connection i a.db

after_update :
    (env : Env) (id : String) (v : ℕ) (status : Status) (stage : Stage) (fields : JobFields)
    (now : ℕ) (existing : Job) (a b : Db)
    → job_from_connection id a ≡ some existing
    → existing.version ≡ v
    → b.jobs ≡ update_rows (is_version_of id v) (set_job_columns env fields status stage now) a.jobs
    → job_from_connection id b ≡ some (set_job_columns env fields status stage now existing)
unfolding job_from_connection
after_update env id v status stage fields now existing a b found current e =
    let f = set_job_columns env fields status stage now in
    let key =
      find_row-update_rows (λ j. j.id == id) (is_version_of id v) f a.jobs
        (λ j. rw (id-set_job_columns env fields status stage now j)) in
    let same : existing.id ≡ id = id-job_from_connection id existing a found in
    let selected : is_version_of id v existing ≡ true =
      ground (arith, ==_iff existing.id id, ==_iff existing.version v) in
    rw (e, key, found) (rw selected)

others_after_update :
    (env : Env) (id : String) (v : ℕ) (status : Status) (stage : Stage) (fields : JobFields)
    (now : ℕ) (a b : Db)
    → b.jobs ≡ update_rows (is_version_of id v) (set_job_columns env fields status stage now) a.jobs
    → (i : String) → i ≢ id
    → job_from_connection i b ≡ job_from_connection i a
unfolding job_from_connection
others_after_update env id v status stage fields now a b e i other =
    let f = set_job_columns env fields status stage now in
    let key =
      find_row-update_rows (λ j. j.id == i) (is_version_of id v) f a.jobs
        (λ j. rw (id-set_job_columns env fields status stage now j)) in
    elim (Option-cases (job_from_connection i a)) [
      | inl missing ↦ rw (e, key, missing)
      | inr (j, found) ↦ elim (Bool-cases (is_version_of id v j)) [
        | inl selected ↦
            absurd
              (other (sym (id-job_from_connection i j a found) ∙ ground (arith, ==_iff j.id id)))
        | inr left ↦ rw (e, key, found) (rw left)
      ]
    ]

found_returns :
    (env : Env) (id : String) (v : ℕ) (status : Status) (stage : Option Stage) (event_type : String)
    (fields : JobFields) (found : Option Job) (w : World) (r : Option Job)
    → job_from_connection id w.db ≡ found
    → (transition_found env id v status stage event_type fields found w).0 ≡ ok r
    → Transitioned env id v status stage fields w
        (transition_found env id v status stage event_type fields found w).1
unfolding transition_found raise
found_returns env id v status stage event_type fields none w r found h = cc
found_returns env id v status stage event_type fields (some existing) w r found h =
    let next = effective_stage stage status existing in
    elim (Option-cases (transition_error existing v status next)) [
      | inl none_raised ↦
          let returned =
            commit_returns env existing id v status next event_type fields w r
              (rw none_raised at h) in
          let checked = transition_error-none existing v status next none_raised in
          rw none_raised (record {
            existing = existing;
            found = found;
            checked = checked;
            after =
                after_update env id v status next fields _ existing _ _ found checked.current
                  returned;
            others = others_after_update env id v status next fields _ _ _ returned;
          })
      | inr (e, raises) ↦ cc
    ]

-- A call of `transition_job` that returns has found the job at the expected version, with a status
-- and a stage from which the diagrams allow the new ones; the updated row, its version one higher,
-- stands in the table, and every other job is as it was.
pub transition_job_effect :
    (env : Env) (id : String) (v : ℕ) (status : Status) (stage : Option Stage) (event_type : String)
    (fields : JobFields) (w : World) (r : Option Job)
    → (transition_job env id v status stage event_type fields w).0 ≡ ok r
    → Transitioned env id v status stage fields w
        (transition_job env id v status stage event_type fields w).1
unfolding transition_job transition_job_in_connection ◌>>=◌
transition_job_effect env id v status stage event_type fields w r h =
    let (returned, committed) =
      transaction_returns (transition_job_in_connection env id v status stage event_type fields) w r
        h in
    rw committed (
      found_returns env id v status stage event_type fields (job_from_connection id w.db) w r refl
        returned)

stale_found :
    (env : Env) (id : String) (v : ℕ) (status : Status) (stage : Option Stage) (event_type : String)
    (fields : JobFields) (existing : Job) (w : World)
    → existing.version ≢ v
    → (transition_found env id v status stage event_type fields (some existing) w).0
      ≡ raised stale_job_version
unfolding transition_found transition_checked transition_error raise
stale_found env id v status stage event_type fields existing w h =
    ground (arith, ==_iff existing.version v)

-- A call of `transition_job` with another version than the stored one raises StaleJobVersionError.
transition_job_stale :
    (env : Env) (id : String) (v : ℕ) (status : Status) (stage : Option Stage) (event_type : String)
    (fields : JobFields) (existing : Job) (w : World)
    → job_from_connection id w.db ≡ some existing
    → existing.version ≢ v
    → (transition_job env id v status stage event_type fields w).0 ≡ raised stale_job_version
unfolding transition_job transition_job_in_connection db_transaction ◌>>=◌
transition_job_stale env id v status stage event_type fields existing w found h =
    let stale = stale_found env id v status stage event_type fields existing w h in
    rw found (ground arith)

transition_job_undone :
    (env : Env) (id : String) (v : ℕ) (status : Status) (stage : Option Stage) (event_type : String)
    (fields : JobFields) (w : World) (e : Error)
    → (transition_job env id v status stage event_type fields w).0 ≡ raised e
    → (transition_job env id v status stage event_type fields w).1.db ≡ w.db
unfolding transition_job
transition_job_undone env id v status stage event_type fields w e h =
    transaction_raises (transition_job_in_connection env id v status stage event_type fields) w e h

-- Of two transitions that were decided on the same version of a job, only one takes effect: after a
-- first that returned, a second with the same version raises StaleJobVersionError, whatever it asks
-- for, and leaves the tables as the first left them.
pub transition_job_once :
    (env : Env) (id : String) (v : ℕ) (first second : Status) (stage stage' : Option Stage)
    (event_type event_type' : String) (fields fields' : JobFields) (w : World) (r : Option Job)
    → (transition_job env id v first stage event_type fields w).0 ≡ ok r
    → (let after = (transition_job env id v first stage event_type fields w).1 in
        let again = transition_job env id v second stage' event_type' fields' after in
        (again.0 ≡ raised stale_job_version) × (again.1.db ≡ after.db))
unfolding set_job_columns
transition_job_once env id v first second stage stage' event_type event_type' fields fields' w r h =
    let done = transition_job_effect env id v first stage event_type fields w r h in
    let stale =
      transition_job_stale env id v second stage' event_type' fields' _ _ done.after
        (λ same. let current = done.checked.current in omega arith) in
    (
      stale,
      transition_job_undone env id v second stage' event_type' fields' _ stale_job_version stale,
    )
