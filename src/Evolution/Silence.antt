-- ===== src/Evolution/Silence.antt =====
-- The statements of the repositories and the record of provider calls.
use ange_media_gateway.Evolution.Free.{
  Free-video_task, Free-assets, Free-generation, Free-lost, Free-release, Free-mark_published,
  Free-claim_dispatches, Free-create_dispatch, Free-finish_attempt, Free-create_attempt,
  Free-summary, Free-claim, Free-event, Free-transition, Free-insert_job,
}
use ange_media_gateway.Evolution.Relates.{IsPreorder}
use ange_media_gateway.Evolution.Primitives.{Primitives}
use ange_media_gateway.Base.{List, ◌∙◌, ◌≡◌, refl}
use ange_media_gateway.Store.{
  VideoTask, Asset, Generation, JobEvent, JobDispatch, Job, JobAttempt, World,
}

pub record Silent (a b : World) : Type 0 where
  pub same_calls : b.calls ≡ a.calls

instance pub silent_order : IsPreorder Silent
silent_order = record {
  refl_law = λ a. record { same_calls = refl };
  trans_law = λ a b c p q. record { same_calls = q.same_calls ∙ p.same_calls };
  ticks_law = λ a n. record { same_calls = refl };
  rollback_law = λ a b p. record { same_calls = p.same_calls };
}

free_jobs : (a : World) (l : List Job) → Silent a (record a { db = record (a.db) { jobs = l } })
free_jobs a l = record { same_calls = refl }

free_events :
    (a : World) (l : List JobEvent) → Silent a (record a { db = record (a.db) { job_events = l } })
free_events a l = record { same_calls = refl }

free_attempts :
    (a : World) (l : List JobAttempt)
    → Silent a (record a { db = record (a.db) { job_attempts = l } })
free_attempts a l = record { same_calls = refl }

free_dispatches :
    (a : World) (l : List JobDispatch)
    → Silent a (record a { db = record (a.db) { job_dispatches = l } })
free_dispatches a l = record { same_calls = refl }

free_generations :
    (a : World) (l : List Generation)
    → Silent a (record a { db = record (a.db) { generations = l } })
free_generations a l = record { same_calls = refl }

free_assets :
    (a : World) (l : List Asset) → Silent a (record a { db = record (a.db) { assets = l } })
free_assets a l = record { same_calls = refl }

free_video_tasks :
    (a : World) (l : List VideoTask)
    → Silent a (record a { db = record (a.db) { video_tasks = l } })
free_video_tasks a l = record { same_calls = refl }

instance pub silent_primitives : Primitives Silent
silent_primitives = record {
  statements = record {
    order = silent_order;
    of_transition = Free-transition free_jobs (Free-event free_events);
    of_claim = Free-claim free_jobs;
    of_summary = Free-summary free_jobs;
    of_event = Free-event free_events;
    of_create_attempt = Free-create_attempt free_attempts;
    of_finish_attempt = Free-finish_attempt free_attempts;
    of_generation = Free-generation free_generations;
    of_assets = Free-assets free_assets;
    of_video_task = Free-video_task free_video_tasks;
  };
  of_insert_job = Free-insert_job free_jobs;
  of_create_dispatch = Free-create_dispatch free_dispatches;
  of_claim_dispatches = Free-claim_dispatches free_dispatches;
  of_mark_published = Free-mark_published free_dispatches;
  of_release = Free-release free_dispatches;
  of_lost = Free-lost free_dispatches;
}
