-- ===== src/Evolution/Transitions.antt =====
-- The transitions of repositories/jobs.py and the diagrams of a job.
use ange_media_gateway.Base.{
  ◌∙◌, sym, find_row_sound, subst, refl, Option-cases, ==_iff, none, contains, ℕ, ◌≡◌, ◌⊎◌, inl,
  inr, String, Bool, true, Option, some, arith, update_rows, find_row-update_rows, ◌==◌, string_eq,
  nat_eq, Bool-cases,
}
use ange_media_gateway.Store.{
  raise, Status, Stage, Payload, Job, Db, Env, World, stage_eq, status_eq, ◌>>=◌,
}
use ange_media_gateway.Events.{append_job_event}
use ange_media_gateway.Jobs.{
  allowed_stage_transitions, effective_stage, job_stages_by_kind, valid_job_stages,
  allowed_status_transitions, transition_error, transition_found, transition_job_in_connection,
  JobFields, set_job_columns, is_version_of, execute_update_jobs, commit_transition,
  job_from_connection,
}
use ange_media_gateway.Evolution.Moves.{JobsEvolve-preorder, Evolves, Evolves-refl, JobsEvolve}
use ange_media_gateway.Evolution.Paths.{allowed_stage-StagePath, allowed_status-StatusPath}
use ange_media_gateway.Evolution.Relates.{OnTables, Relates}

pub jobs-append_job_event :
    (env : Env) (id event_type : String) (payload : Option Payload) (from to : Option Status)
    (stage : Option Stage) (w : World)
    → (append_job_event env id event_type payload from to stage w).1.db.jobs ≡ w.db.jobs
unfolding append_job_event ◌>>=◌
jobs-append_job_event env id event_type payload from to stage w = ground arith

-- The tables after an action have either the jobs before it or those after one `UPDATE`.
pub jobs-commit_transition :
    (env : Env) (existing : Job) (id : String) (v : ℕ) (status : Status) (stage : Stage)
    (event_type : String) (fields : JobFields) (w : World)
    → ((commit_transition env existing id v status stage event_type fields w).1.db.jobs ≡ w.db.jobs)
      ⊎ ((commit_transition env existing id v status stage event_type fields w).1.db.jobs
          ≡ update_rows
              (is_version_of id v)
              (set_job_columns env fields status stage (env.clock w.ticks))
              w.db.jobs)
unfolding commit_transition execute_update_jobs ◌>>=◌
jobs-commit_transition env existing id v status stage event_type fields w =
    grind (arith, jobs-append_job_event)

pub JobsEvolve-same : (a b : Db) → b.jobs ≡ a.jobs → JobsEvolve a b
JobsEvolve-same a b e = record { later = λ id j h. (j, rw e h, Evolves-refl j) }

-- An `UPDATE jobs` that keeps ids and lets the rows that it selects evolve.
pub JobsEvolve-update :
    (p : Job → Bool) (f : Job → Job) (a b : Db)
    → b.jobs ≡ update_rows p f a.jobs
    → ((j : Job) → (f j).id ≡ j.id)
    → ((id : String) (j : Job) → job_from_connection id a ≡ some j → p j ≡ true → Evolves j (f j))
    → JobsEvolve a b
unfolding job_from_connection
JobsEvolve-update p f a b e keeps moves = record {
  later = λ id j h.
      let found = find_row-update_rows (λ x. x.id == id) p f a.jobs (λ x. rw (keeps x)) in
      elim (Bool-cases (p j)) [
        | inl y ↦ (f j, rw (e, found, h) (rw y), moves id j h y)
        | inr n ↦ (j, rw (e, found, h) (rw n), Evolves-refl j)
      ];
}

-- What the checks of a transition that raises nothing have established.
pub record TransitionChecked (j : Job) (v : ℕ) (status : Status) (stage : Stage) : Type 0 where
  pub current : j.version ≡ v
  pub status_allowed : contains (allowed_status_transitions j.status) status ≡ true
  pub stage_valid : contains valid_job_stages stage ≡ true
  pub stage_of_kind : contains (job_stages_by_kind j.kind) stage ≡ true
  pub stage_allowed : contains (allowed_stage_transitions j.stage) stage ≡ true

pub transition_error-none :
    (j : Job) (v : ℕ) (status : Status) (stage : Stage)
    → transition_error j v status stage ≡ none
    → TransitionChecked j v status stage
unfolding transition_error
transition_error-none j v status stage h = ground (arith, ==_iff j.version v)

Evolves-set_job_columns :
    (env : Env) (fields : JobFields) (v : ℕ) (status : Status) (stage : Stage) (now : ℕ) (j : Job)
    → TransitionChecked j v status stage
    → Evolves j (set_job_columns env fields status stage now j)
unfolding set_job_columns
Evolves-set_job_columns env fields v status stage now j c = record {
  same_id = refl;
  same_kind = refl;
  same_hash = refl;
  same_hash_version = refl;
  same_created = refl;
  version_grows = omega arith;
  change_is_versioned = λ e. absurd (omega arith);
  status_path = allowed_status-StatusPath j.status status c.status_allowed;
  stage_path = allowed_stage-StagePath j.stage stage c.stage_allowed;
}

pub id-set_job_columns :
    (env : Env) (fields : JobFields) (status : Status) (stage : Stage) (now : ℕ) (j : Job)
    → (set_job_columns env fields status stage now j).id ≡ j.id
unfolding set_job_columns
id-set_job_columns env fields status stage now j = refl

pub id-job_from_connection :
    (i : String) (j : Job) (a : Db) → job_from_connection i a ≡ some j → j.id ≡ i
unfolding job_from_connection
id-job_from_connection i j a h = (==_iff j.id i).0 (find_row_sound (λ x. x.id == i) a.jobs j h)

-- An `UPDATE … WHERE id=? AND version=?` selects the row that the look-up finds.
pub selected_is_found :
    (i id : String) (v : ℕ) (j existing : Job) (a : Db)
    → job_from_connection i a ≡ some j
    → is_version_of id v j ≡ true
    → job_from_connection id a ≡ some existing
    → existing ≡ j
selected_is_found i id v j existing a hj selected found =
    let key : j.id ≡ i = id-job_from_connection i j a hj in
    let same : j.id ≡ id = ground (arith, ==_iff j.id id) in let ids : i ≡ id = sym key ∙ same in cc

JobsEvolve-commit_transition :
    (env : Env) (existing : Job) (id : String) (v : ℕ) (status : Status) (stage : Stage)
    (event_type : String) (fields : JobFields) (w : World)
    → job_from_connection id w.db ≡ some existing
    → TransitionChecked existing v status stage
    → JobsEvolve w.db (commit_transition env existing id v status stage event_type fields w).1.db
JobsEvolve-commit_transition env existing id v status stage event_type fields w found c =
    elim (jobs-commit_transition env existing id v status stage event_type fields w) [
      | inl same ↦ JobsEvolve-same _ _ same
      | inr updated ↦
          JobsEvolve-update _ _ _ _ updated (id-set_job_columns env fields status stage _)
            λ i j hj selected. Evolves-set_job_columns env fields v status stage _ j (
              subst (λ x. TransitionChecked x v status stage)
                (selected_is_found i id v j existing w.db hj selected found) c)
    ]

JobsEvolve-transition_found :
    (env : Env) (id : String) (v : ℕ) (status : Status) (stage : Option Stage) (event_type : String)
    (fields : JobFields) (found : Option Job) (w : World)
    → job_from_connection id w.db ≡ found
    → JobsEvolve w.db (transition_found env id v status stage event_type fields found w).1.db
unfolding transition_found raise
JobsEvolve-transition_found env id v status stage event_type fields none w h =
    JobsEvolve-preorder.same_law w.db
JobsEvolve-transition_found env id v status stage event_type fields (some existing) w h =
    let next = effective_stage stage status existing in
    elim (Option-cases (transition_error existing v status next)) [
      | inl none_raised ↦ rw none_raised (
          JobsEvolve-commit_transition env existing id v status next event_type fields w h
            (transition_error-none existing v status next none_raised))
      | inr (e, raises) ↦ rw raises (JobsEvolve-preorder.same_law w.db)
    ]

-- Whatever a transition is asked to do, and whether it succeeds or raises, every job that is in
-- the table before is there after, evolved along the diagrams with a version that counts changes.
pub Relates-transition_job_in_connection :
    (env : Env) (id : String) (v : ℕ) (status : Status) (stage : Option Stage) (event_type : String)
    (fields : JobFields)
    → Relates
        (OnTables JobsEvolve)
        (transition_job_in_connection env id v status stage event_type fields)
unfolding transition_job_in_connection ◌>>=◌
Relates-transition_job_in_connection env id v status stage event_type fields = record {
  at = λ w.
      JobsEvolve-transition_found env id v status stage event_type fields
        (job_from_connection id w.db) w refl;
}
