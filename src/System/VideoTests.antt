-- ===== src/System/VideoTests.antt =====
-- Runs of the video worker on small inputs, of the cleanup and the listing of jobs, and of
-- the outbox.
use ange_media_gateway.Outbox.{list_pending_dispatches}
use ange_media_gateway.Outbox.Due.{list_pending_dispatches-AreEarliest, AreEarliest}
use ange_media_gateway.Jobs.Pages.{list_jobs-IsPage, IsPage, is_known_sort}
use ange_media_gateway.Base.{List, false, refl, [], ◌∷◌, none, some}
use ange_media_gateway.Text.{is_empty}
use ange_media_gateway.Evolution.VideoCalls.{handle_submit_calls, handle_poll_calls}
use ange_media_gateway.Evolution.VideoEnds.{attempts_end}
use ange_media_gateway.Worker.Video.Import.{handle_asset_import}
use ange_media_gateway.VideoPolling.Policy.{delay_bounds}
use ange_media_gateway.VideoTasks.{bare_result, upsert_video_task}
use ange_media_gateway.Base.{or_else, ◌⊎◌, true, ◌≡◌, none, some}
use ange_media_gateway.Evolution.Deliveries.{one_follow_up}
use ange_media_gateway.Message.{JobStageMessage}
use ange_media_gateway.Admission.{admitted_job, AdmissionRequest}
use ange_media_gateway.Worker.Video.Poll.{handle_poll}
use ange_media_gateway.Jobs.{JobFilter, list_jobs, job_row}
use Prim.Native.String.{◌∷◌, [], String}
use ange_media_gateway.Worker.Video.Submit.{handle_submit}
use ange_media_gateway.Evolution.FollowUps.{FollowedUp}
use Prim.Native.Nat.{suc, ◌+◌, ◌≤◌, ℕ}
use ange_media_gateway.VideoPolling.{delay}
use ange_media_gateway.Store.{
  value_error, raised, succeeded, Status, Stage, ok, video_submit, running, video_poll, video,
  World, Job,
}
use ange_media_gateway.VideoTasks.Rows.{upsert_video_task_stores, TaskStored}
use ange_media_gateway.System.Tests.{plain_env, one_video_worker, empty_world}

abbrev video_request : AdmissionRequest
video_request = record {
  kind = video;
  stage = video_submit;
  request_hash = none;
  request_hash_version = none;
  payload_json = "{}";
  provider = none;
  model = some "agnes-video";
  prompt = some "a cat runs";
  priority = 0;
  max_attempts = 10;
  payload_schema_version = 1;
  scheduled_at = none;
  topic = "angemedia.jobs.execute";
  dedupe_hashes = [];
}

abbrev video_job : String
video_job = "00000000000000000000000000000001"

abbrev queued_row : Job
unfolding job_row
queued_row = job_row plain_env (admitted_job video_request) video_job 0

abbrev queued_world : World
queued_world = record empty_world { db = record (empty_world.db) { jobs = queued_row ∷ [] } }

abbrev submit_message : JobStageMessage
submit_message = record {
  job_id = video_job;
  stage = video_submit;
  attempt = 1;
  dispatch_id = "00000000000000000000000000000005";
  trace_id = "00000000000000000000000000000005";
  schema_version = 1;
}

abbrev poll_message : ℕ → JobStageMessage
poll_message n = record submit_message { stage = video_poll; attempt = n }

-- The row of a job whose task the provider has accepted.
abbrev accepted_row : Job
accepted_row = record queued_row {
  status = running;
  stage = video_poll;
  external_task_id = some "task_1";
  version = 2;
}

abbrev accepted_world : World
accepted_world = record empty_world { db = record (empty_world.db) { jobs = accepted_row ∷ [] } }

handle_submit_calls_example :
    ((handle_submit plain_env one_video_worker submit_message queued_row queued_world).1.calls
      ≡ queued_world.calls)
    ⊎ (((handle_submit plain_env one_video_worker submit_message queued_row queued_world).1.calls
          ≡ (video_job, video_submit) ∷ queued_world.calls)
        × (is_empty (or_else queued_row.external_task_id "") ≡ true))
handle_submit_calls_example =
    handle_submit_calls plain_env one_video_worker submit_message queued_row queued_world

handle_poll_calls_example :
    ((handle_poll plain_env one_video_worker (poll_message 2) accepted_row accepted_world).1.calls
      ≡ accepted_world.calls)
    ⊎ ((handle_poll plain_env one_video_worker (poll_message 2) accepted_row accepted_world).1.calls
        ≡ (video_job, video_poll) ∷ accepted_world.calls)
handle_poll_calls_example =
    handle_poll_calls plain_env one_video_worker (poll_message 2) accepted_row accepted_world

-- The policy of `one_video_worker` allows 10 attempts.
attempts_end_example :
    ((handle_poll plain_env one_video_worker
        (poll_message 10)
        accepted_row
        accepted_world).1.db.job_dispatches
      ≡ accepted_world.db.job_dispatches)
    × ((handle_asset_import plain_env one_video_worker
          (poll_message 10)
          accepted_row
          accepted_world).1.db.job_dispatches
        ≡ accepted_world.db.job_dispatches)
attempts_end_example =
    attempts_end plain_env one_video_worker (poll_message 10) accepted_row refl accepted_world

one_follow_up_example :
    FollowedUp submit_message queued_world
      (handle_submit plain_env one_video_worker submit_message queued_row queued_world).1
    × FollowedUp submit_message queued_world
        (handle_poll plain_env one_video_worker submit_message queued_row queued_world).1
one_follow_up_example =
    one_follow_up plain_env one_video_worker submit_message queued_row queued_world

delay_bounds_example :
    (delay one_video_worker.policy 3 ≤ 60)
    × (5 ≤ delay one_video_worker.policy 3)
    × (delay one_video_worker.policy 3 ≤ delay one_video_worker.policy (3 + 2))
delay_bounds_example = delay_bounds one_video_worker.policy 3 2

upsert_video_task_stores_example :
    TaskStored plain_env
      (λ url. true)
      "task_1"
      "a cat"
      "m"
      "queued"
      bare_result
      40
      (plain_env.clock queued_world.ticks)
      (plain_env.clock (suc queued_world.ticks))
      []
      (upsert_video_task plain_env
        (λ url. true)
        "task_1"
        "a cat"
        "m"
        "queued"
        bare_result
        40
        queued_world).1.db.video_tasks
unfolding upsert_video_task ange_media_gateway.Store.◌>>=◌
upsert_video_task_stores_example =
    upsert_video_task_stores plain_env (λ url. true) "task_1" "a cat" "m" "queued" bare_result 40
      queued_world refl

abbrev done_row : Job
done_row = record queued_row {
  id = "00000000000000000000000000000002";
  status = succeeded;
  created_at = 3;
}

abbrev two_jobs_world : World
two_jobs_world = record empty_world {
  db = record (empty_world.db) { jobs = queued_row ∷ done_row ∷ [] };
}

abbrev all_jobs : JobFilter
all_jobs = record { kind = none; status = none; provider = none; model = none }

list_jobs-IsPage_example :
    ((list_jobs all_jobs 1 1 "created_at_desc" two_jobs_world.db ≡ raised value_error)
      × (is_known_sort "created_at_desc" ≡ false))
    ⊎ ((rows : List Job) × (list_jobs all_jobs 1 1 "created_at_desc" two_jobs_world.db ≡ ok rows)
        × (is_known_sort "created_at_desc" ≡ true)
        × IsPage all_jobs 1 1 "created_at_desc" two_jobs_world.db rows)
list_jobs-IsPage_example = list_jobs-IsPage all_jobs 1 1 "created_at_desc" two_jobs_world.db

abbrev submitted_world : World
submitted_world =
    (handle_submit plain_env one_video_worker submit_message queued_row queued_world).1

list_pending_dispatches-AreEarliest_example :
    AreEarliest 10 50 submitted_world.db (list_pending_dispatches 10 50 submitted_world.db)
list_pending_dispatches-AreEarliest_example =
    list_pending_dispatches-AreEarliest 10 50 submitted_world.db
