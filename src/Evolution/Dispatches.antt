-- ===== src/Evolution/Dispatches.antt =====
-- The statements of the repositories and the diagram of an outbox row.
mod Rows
mod Updates
mod Leases
use ange_media_gateway.Evolution.Free.{
  Free-video_task, Free-assets, Free-generation, Free-finish_attempt, Free-create_attempt,
  Free-summary, Free-claim, Free-event, Free-transition, Free-insert_job,
}
use ange_media_gateway.Evolution.Primitives.{Primitives}
use ange_media_gateway.Outbox.Requeue.{set_lost}
use ange_media_gateway.Evolution.Outbox.{
  dispatches_world_order, dispatch_key, DispatchesKeyed, updated_dispatches, dispatches_order,
  added_dispatch, same_dispatches, DispatchEvolves, DispatchesEvolve, is_settled, DispatchMove,
  DispatchPath,
}
use ange_media_gateway.Evolution.Relates.{
  OnTables, Relates-dict_of_row, Relates-modify_db, Relates-reads, Relates-uuid4_hex,
  Relates-db_transaction, Relates-ensure, Relates-now_iso, Relates-bind, Relates,
}
use ange_media_gateway.Outbox.{
  bounded_limit, comes_before, insert_by_due, is_due, claim_pending_dispatches, due_rows,
  sort_by_due, claim_rows, update_dispatches, holds_lease, execute_update_dispatches, set_lease,
  dispatch_row_fits, dispatch_by_id, dispatch_status_beq, insert_dispatch_row,
  mark_dispatch_published, set_published, release_dispatch, create_job_dispatch, update_leased,
  set_released,
}
use mathlib.Core.Option
use ange_media_gateway.Base.{
  FindsItself, All-select_rows, All-take, find_row-update_rows, find_row_sound, ◌∙◌, All-map,
  ==_iff, All, Option-cases, string_eq, inr, ◌&&◌, or_else, sym, ◌==◌, inl, subst, Bool-cases,
  if◌then◌else◌, false, arith, Option, true, ◌≡◌, String, List, ℕ, Bool, none, some, [], ◌∷◌, refl,
}
use ange_media_gateway.Store.{
  VideoTask, Generation, Asset, raised, ok, pure, reads, dict_of_row, continue, Exec, Outcome,
  World, modify_db, ◌>>=◌, PayloadJson, JobEvent, JobAttempt, JobDispatch, Job, Env, DispatchStatus,
  Db,
}
use ange_media_gateway.Evolution.Dispatches.Updates.{
  Relates-create_dispatch, Relates-mark_published, Relates-release, Relates-lost,
}
use ange_media_gateway.Evolution.Dispatches.Leases.{Relates-claim_dispatches}

free_jobs :
    (a : World) (l : List Job)
    → OnTables DispatchesEvolve a (record a { db = record (a.db) { jobs = l } })
free_jobs a l = same_dispatches a.db _ refl

free_events :
    (a : World) (l : List JobEvent)
    → OnTables DispatchesEvolve a (record a { db = record (a.db) { job_events = l } })
free_events a l = same_dispatches a.db _ refl

free_attempts :
    (a : World) (l : List JobAttempt)
    → OnTables DispatchesEvolve a (record a { db = record (a.db) { job_attempts = l } })
free_attempts a l = same_dispatches a.db _ refl

free_generations :
    (a : World) (l : List Generation)
    → OnTables DispatchesEvolve a (record a { db = record (a.db) { generations = l } })
free_generations a l = same_dispatches a.db _ refl

free_assets :
    (a : World) (l : List Asset)
    → OnTables DispatchesEvolve a (record a { db = record (a.db) { assets = l } })
free_assets a l = same_dispatches a.db _ refl

free_video_tasks :
    (a : World) (l : List VideoTask)
    → OnTables DispatchesEvolve a (record a { db = record (a.db) { video_tasks = l } })
free_video_tasks a l = same_dispatches a.db _ refl

instance pub dispatches_primitives : Primitives (OnTables DispatchesEvolve)
dispatches_primitives = record {
  statements = record {
    order = dispatches_world_order;
    of_transition = Free-transition free_jobs (Free-event free_events);
    of_claim = Free-claim free_jobs;
    of_summary = Free-summary free_jobs;
    of_event = Free-event free_events;
    of_create_attempt = Free-create_attempt free_attempts;
    of_finish_attempt = Free-finish_attempt free_attempts;
    of_generation = Free-generation free_generations;
    of_assets = Free-assets free_assets;
    of_video_task = Free-video_task free_video_tasks;
  };
  of_insert_job = Free-insert_job free_jobs;
  of_create_dispatch = Relates-create_dispatch;
  of_claim_dispatches = Relates-claim_dispatches;
  of_mark_published = Relates-mark_published;
  of_release = Relates-release;
  of_lost = Relates-lost;
}
