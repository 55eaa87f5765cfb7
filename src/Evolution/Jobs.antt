-- ===== src/Evolution/Jobs.antt =====
-- The statements of the repositories and the diagrams of a job.
use ange_media_gateway.Evolution.Free.{
  Free-video_task, Free-assets, Free-generation, Free-lost, Free-release, Free-mark_published,
  Free-claim_dispatches, Free-create_dispatch, Free-finish_attempt, Free-create_attempt, Free-event,
}
use ange_media_gateway.Evolution.Updates.{
  Relates-update_job_attempt_summary, Relates-claim_job_attempt,
}
use ange_media_gateway.Evolution.Relates.{
  OnTables, Relates-raise, Relates-modify_db, Relates-reads, Relates-now_iso, Relates-pure,
  Relates-bind, Relates-if, Relates-option, Relates-uuid4_hex, Relates,
}
use ange_media_gateway.Evolution.Transitions.{Relates-transition_job_in_connection, JobsEvolve-same}
use ange_media_gateway.Evolution.Moves.{jobs_order, Evolves-refl, JobsEvolve}
use ange_media_gateway.Evolution.Primitives.{Primitives}
use ange_media_gateway.Jobs.{job_row, insert_job_error, NewJob, new_identifier, insert_job}
use ange_media_gateway.Base.{
  find_row-append, String, ◌++◌, Option, ◌≡◌, List, none, some, [], ◌∷◌, refl, string_eq, ◌==◌,
}
use ange_media_gateway.Store.{
  VideoTask, Generation, Asset, World, JobAttempt, Env, JobEvent, JobDispatch, Job, Db,
}

-- An insertion keeps the rows that are there.
JobsEvolve-append : (a b : Db) (j : Job) → b.jobs ≡ a.jobs ++ j ∷ [] → JobsEvolve a b
JobsEvolve-append a b j e = record {
  later = λ id k h. (k, rw (e, find_row-append (λ x. x.id == id) a.jobs j, h), Evolves-refl k);
}

JobsEvolve-new_identifier :
    (env : Env) (o : Option String) → Relates (OnTables JobsEvolve) (new_identifier env o)
unfolding new_identifier
JobsEvolve-new_identifier env none = Relates-uuid4_hex env
JobsEvolve-new_identifier env (some id) = Relates-if _ (Relates-uuid4_hex env) (Relates-pure id)

JobsEvolve-insert_job : (env : Env) (n : NewJob) → Relates (OnTables JobsEvolve) (insert_job env n)
unfolding insert_job
JobsEvolve-insert_job env n =
    Relates-option (insert_job_error n)
      (Relates-bind (Relates-now_iso env) λ now.
        Relates-bind (JobsEvolve-new_identifier env n.job_id) λ identifier.
          Relates-bind (Relates-reads _) λ fits.
            Relates-if fits
              (Relates-bind
                (Relates-modify_db _
                  λ w. JobsEvolve-append w.db _ (job_row env n identifier now) refl)
                λ _. Relates-reads _)
              (Relates-raise _))
      (λ e. Relates-raise e)

free_events :
    (a : World) (l : List JobEvent)
    → OnTables JobsEvolve a (record a { db = record (a.db) { job_events = l } })
free_events a l = JobsEvolve-same a.db _ refl

free_attempts :
    (a : World) (l : List JobAttempt)
    → OnTables JobsEvolve a (record a { db = record (a.db) { job_attempts = l } })
free_attempts a l = JobsEvolve-same a.db _ refl

free_dispatches :
    (a : World) (l : List JobDispatch)
    → OnTables JobsEvolve a (record a { db = record (a.db) { job_dispatches = l } })
free_dispatches a l = JobsEvolve-same a.db _ refl

free_generations :
    (a : World) (l : List Generation)
    → OnTables JobsEvolve a (record a { db = record (a.db) { generations = l } })
free_generations a l = JobsEvolve-same a.db _ refl

free_assets :
    (a : World) (l : List Asset)
    → OnTables JobsEvolve a (record a { db = record (a.db) { assets = l } })
free_assets a l = JobsEvolve-same a.db _ refl

free_video_tasks :
    (a : World) (l : List VideoTask)
    → OnTables JobsEvolve a (record a { db = record (a.db) { video_tasks = l } })
free_video_tasks a l = JobsEvolve-same a.db _ refl

-- The statements of the repositories, one by one.
instance pub jobs_primitives : Primitives (OnTables JobsEvolve)
jobs_primitives = record {
  statements = record {
    order = jobs_order;
    of_transition = Relates-transition_job_in_connection;
    of_claim = Relates-claim_job_attempt;
    of_summary = Relates-update_job_attempt_summary;
    of_event = Free-event free_events;
    of_create_attempt = Free-create_attempt free_attempts;
    of_finish_attempt = Free-finish_attempt free_attempts;
    of_generation = Free-generation free_generations;
    of_assets = Free-assets free_assets;
    of_video_task = Free-video_task free_video_tasks;
  };
  of_insert_job = JobsEvolve-insert_job;
  of_create_dispatch = Free-create_dispatch free_dispatches;
  of_claim_dispatches = Free-claim_dispatches free_dispatches;
  of_mark_published = Free-mark_published free_dispatches;
  of_release = Free-release free_dispatches;
  of_lost = Free-lost free_dispatches;
}
