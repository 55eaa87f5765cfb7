-- ===== src/Evolution/SameOutbox.antt =====
-- Actions that leave the outbox alone.
use ange_media_gateway.Evolution.Free.{
  Free-video_task, Free-assets, Free-generation, Free-finish_attempt, Free-create_attempt,
  Free-summary, Free-claim, Free-event, Free-transition,
}
use ange_media_gateway.Evolution.Relates.{tables_order, OnTables, IsPreorder}
use ange_media_gateway.Evolution.Primitives.{JobStatements}
use ange_media_gateway.Store.{VideoTask, Job, Asset, JobAttempt, JobEvent, Generation, Db, World}
use ange_media_gateway.Base.{◌∙◌, List, ◌≡◌, refl}

pub record SameOutbox (a b : Db) : Type 0 where
  pub same_rows : b.job_dispatches ≡ a.job_dispatches

instance pub outbox_order : IsPreorder (OnTables SameOutbox)
outbox_order = tables_order (record {
  same_law = λ a. record { same_rows = refl };
  chain_law = λ a b c p q. record { same_rows = q.same_rows ∙ p.same_rows };
})

free_jobs :
    (a : World) (l : List Job)
    → OnTables SameOutbox a (record a { db = record (a.db) { jobs = l } })
free_jobs a l = record { same_rows = refl }

free_events :
    (a : World) (l : List JobEvent)
    → OnTables SameOutbox a (record a { db = record (a.db) { job_events = l } })
free_events a l = record { same_rows = refl }

free_attempts :
    (a : World) (l : List JobAttempt)
    → OnTables SameOutbox a (record a { db = record (a.db) { job_attempts = l } })
free_attempts a l = record { same_rows = refl }

free_generations :
    (a : World) (l : List Generation)
    → OnTables SameOutbox a (record a { db = record (a.db) { generations = l } })
free_generations a l = record { same_rows = refl }

free_assets :
    (a : World) (l : List Asset)
    → OnTables SameOutbox a (record a { db = record (a.db) { assets = l } })
free_assets a l = record { same_rows = refl }

free_video_tasks :
    (a : World) (l : List VideoTask)
    → OnTables SameOutbox a (record a { db = record (a.db) { video_tasks = l } })
free_video_tasks a l = record { same_rows = refl }

instance pub outbox_statements : JobStatements (OnTables SameOutbox)
outbox_statements = record {
  order = outbox_order;
  of_transition = Free-transition free_jobs (Free-event free_events);
  of_claim = Free-claim free_jobs;
  of_summary = Free-summary free_jobs;
  of_event = Free-event free_events;
  of_create_attempt = Free-create_attempt free_attempts;
  of_finish_attempt = Free-finish_attempt free_attempts;
  of_generation = Free-generation free_generations;
  of_assets = Free-assets free_assets;
  of_video_task = Free-video_task free_video_tasks;
}
