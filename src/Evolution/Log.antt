-- ===== src/Evolution/Log.antt =====
-- The event log as a list that grows, and the statements that write it.
use mathlib.Core.List.{append-nil, append_assoc}
use ange_media_gateway.Evolution.Free.{
  Free-video_task, Free-assets, Free-generation, Free-lost, Free-release, Free-mark_published,
  Free-claim_dispatches, Free-create_dispatch, Free-finish_attempt, Free-create_attempt,
  Free-summary, Free-claim, Free-transition, Free-insert_job,
}
use ange_media_gateway.Events.{append_job_event}
use ange_media_gateway.Evolution.Relates.{
  tables_order, OnTables, IsTablePreorder, Relates-raise, Relates-write, Relates-if, Relates-reads,
  Relates-now_iso, Relates-uuid4_hex, Relates-bind, Relates, IsPreorder,
}
use ange_media_gateway.Evolution.Primitives.{Primitives}
use ange_media_gateway.Base.{Option, String, ◌++◌, ◌∙◌, sym, List, ◌≡◌, [], refl}
use ange_media_gateway.Store.{
  VideoTask, Generation, Asset, World, Stage, Status, Payload, Job, Env, JobDispatch, JobEvent,
  JobAttempt, Db,
}

pub record LogGrows (a b : Db) : Type 0 where
  pub added : List JobEvent
  pub grows : b.job_events ≡ a.job_events ++ added

pub log_order : IsTablePreorder LogGrows
log_order = record {
  same_law = λ a. record { added = []; grows = sym (append-nil _) };
  chain_law = λ a b c p q. record {
    added = p.added ++ q.added;
    grows = rw (q.grows, p.grows) (append_assoc a.job_events p.added q.added);
  };
}

instance pub log_world_order : IsPreorder (OnTables LogGrows)
log_world_order = tables_order log_order

same_log : (a b : Db) → b.job_events ≡ a.job_events → LogGrows a b
same_log a b e = record { added = []; grows = e ∙ sym (append-nil _) }

free_jobs :
    (a : World) (l : List Job) → OnTables LogGrows a (record a { db = record (a.db) { jobs = l } })
free_jobs a l = same_log a.db _ refl

free_attempts :
    (a : World) (l : List JobAttempt)
    → OnTables LogGrows a (record a { db = record (a.db) { job_attempts = l } })
free_attempts a l = same_log a.db _ refl

free_dispatches :
    (a : World) (l : List JobDispatch)
    → OnTables LogGrows a (record a { db = record (a.db) { job_dispatches = l } })
free_dispatches a l = same_log a.db _ refl

LogGrows-event :
    (env : Env) (id event_type : String) (payload : Option Payload) (from to : Option Status)
    (stage : Option Stage)
    → Relates (OnTables LogGrows) (append_job_event env id event_type payload from to stage)
unfolding append_job_event
LogGrows-event env id event_type payload from to stage = Relates-bind (Relates-uuid4_hex env) λ _.
    Relates-bind (Relates-now_iso env) λ _. Relates-bind (Relates-reads _) λ fits.
      Relates-if fits (Relates-write _ _ (λ a. record { added = _; grows = refl }))
        (Relates-raise _)

free_generations :
    (a : World) (l : List Generation)
    → OnTables LogGrows a (record a { db = record (a.db) { generations = l } })
free_generations a l = same_log a.db _ refl

free_assets :
    (a : World) (l : List Asset)
    → OnTables LogGrows a (record a { db = record (a.db) { assets = l } })
free_assets a l = same_log a.db _ refl

free_video_tasks :
    (a : World) (l : List VideoTask)
    → OnTables LogGrows a (record a { db = record (a.db) { video_tasks = l } })
free_video_tasks a l = same_log a.db _ refl

instance pub log_primitives : Primitives (OnTables LogGrows)
log_primitives = record {
  statements = record {
    order = log_world_order;
    of_transition = Free-transition free_jobs LogGrows-event;
    of_claim = Free-claim free_jobs;
    of_summary = Free-summary free_jobs;
    of_event = LogGrows-event;
    of_create_attempt = Free-create_attempt free_attempts;
    of_finish_attempt = Free-finish_attempt free_attempts;
    of_generation = Free-generation free_generations;
    of_assets = Free-assets free_assets;
    of_video_task = Free-video_task free_video_tasks;
  };
  of_insert_job = Free-insert_job free_jobs;
  of_create_dispatch = Free-create_dispatch free_dispatches;
  of_claim_dispatches = Free-claim_dispatches free_dispatches;
  of_mark_published = Free-mark_published free_dispatches;
  of_release = Free-release free_dispatches;
  of_lost = Free-lost free_dispatches;
}
