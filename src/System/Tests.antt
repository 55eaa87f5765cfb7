-- ===== src/System/Tests.antt =====
-- Runs of the whole gateway on small inputs.
use ange_media_gateway.Text.{is_hex}
use ange_media_gateway.Worker.Local.{publish}
use ange_media_gateway.System.Duplicates.{delivered_again, OnlyLogged}
use ange_media_gateway.Message.Wire.{parse-to_dict}
use ange_media_gateway.Message.Accepted.{parse_accepts_messages, IsRead}
use ange_media_gateway.Dispatcher.Backoff.{retry_delay_bounds}
use ange_media_gateway.Dispatcher.Counts.{dispatch_once_counts}
use ange_media_gateway.Evolution.Admissions.{admit_raises, admit_returns, Reused, Created}
use ange_media_gateway.Evolution.Calls.{handle_image_calls}
use ange_media_gateway.Message.{JobStageMessage, to_dict, parse_job_stage_message, message_is_valid}
use ange_media_gateway.Worker.Runtime.{handle}
use ange_media_gateway.Worker.Image.{handle_image}
use ange_media_gateway.Outbox.{
  mark_dispatch_published, claim_pending_dispatches, create_job_dispatch,
}
use ange_media_gateway.Events.{append_job_event}
use ange_media_gateway.Media.{save_generated_asset, record_generation}
use ange_media_gateway.Attempts.{finish_job_attempt, job_attempt, create_job_attempt}
use ange_media_gateway.Message.{to_dict, parse_job_stage_message, message_is_valid}
use ange_media_gateway.Evolution.Locking.{transition_job_once, transition_job_effect, Transitioned}
use ange_media_gateway.System.Reachable.{
  Reach-DispatchesKept, Reach-AttemptsEvolve, Reach-LogGrows, Reach-JobsEvolve,
}
use ange_media_gateway.Evolution.Attempts.{AttemptsEvolve}
use ange_media_gateway.Evolution.Outbox.{DispatchesKeyed, DispatchesKept}
use ange_media_gateway.Evolution.Admissions.{admit_returns, Created, Reused}
use ange_media_gateway.Jobs.{
  latest_job, claim_job_attempt, transition_job_in_connection, get_job, job_row, insert_job,
  find_recent_job_by_request_hash, job_from_connection, no_fields, transition_job,
}
use ange_media_gateway.Evolution.Log.{LogGrows}
use ange_media_gateway.Evolution.Moves.{JobsEvolve}
use ange_media_gateway.Base.{
  leb, ◌+◌, ◌≤◌, update_rows, count_rows, select_rows, find_row, ◌⊎◌, map, ℕ, ◌/◌, ◌%◌, true, false,
  String, none, some, [], ◌∷◌, ◌≡◌, refl, if◌then◌else◌, ◌==◌, nat_eq,
}
use ange_media_gateway.Store.{
  other_error, JobAttempt, pure, integrity_error, Exec, try_except, Job, catch_all, ◌>>=◌,
  db_transaction, stale_job_version, failed, DispatchStatus, succeeded, running, Env, World, ok,
  raised, image, image_generate,
}
use ange_media_gateway.Admission.{
  admitted_job, AdmissionResult, existing_job, AdmissionRequest, admit,
}
use ange_media_gateway.Dispatcher.{retry_delay, DispatchBatchResult, job_dispatcher, dispatch_once}
use ange_media_gateway.Worker.Image.{call_provider, ImageJobWorker}
use ange_media_gateway.System.{
  VideoJobWorker, no_refresh, stage_registry, next, Gateway, Step, Reach, local_publish,
}
use Prim.Native.String.{◌++◌}

abbrev digit : ℕ → String
digit n =
    if n == 0
    then "0"
    else if n == 1
    then "1"
    else if n == 2
    then "2"
    else if n == 3
    then "3"
    else if n == 4
    then "4"
    else if n == 5
    then "5"
    else if n == 6
    then "6"
    else if n == 7
    then "7"
    else if n == 8
    then "8"
    else "9"

abbrev counted_uuid : ℕ → String
counted_uuid n = "000000000000000000000000000000" ++ digit (n / 10) ++ digit (n % 10)

abbrev pub plain_env : Env
plain_env = record {
  clock = λ n. n;
  uuid = counted_uuid;
  redact = λ s. s;
  redact_json = λ s. s;
  redact_payload = λ p. p;
}

-- A provider that answers one picture.
abbrev one_picture_worker : ImageJobWorker
one_picture_worker = record {
  worker_kind = "local";
  parse = λ input. ok (record { prompt = "a cat"; provider = "mock"; model = "m" });
  execute = λ p calls. ok (record {
    provider = "mock";
    model = "m";
    request_model = some "m";
    input_mode = "text";
    started_at = 12;
    duration_ms = 5;
    files = ("cat.png", 9) ∷ [];
    output_json = λ id. id;
  });
  describe = λ e. "error";
  type_name = λ e. "RuntimeError";
  lower = λ s. s;
}

-- A provider that accepts the task `task_1` and finishes it at the second poll.
abbrev pub one_video_worker : VideoJobWorker
one_video_worker = record {
  worker_kind = "local";
  policy = record { poll_interval = 5; max_poll = 600; max_attempts = 10; max_backoff = 60 };
  parse = λ input. ok "a request";
  submit = λ request calls. ok (record { task_id = "task_1"; provider_status = "queued" });
  poll = λ task_id model calls. ok (record {
    task_id = task_id;
    provider_status = if leb calls 1 then "in_progress" else "completed";
    video_url = some "https://provider/v.mp4";
    duration_ms = 40;
    error_message = none;
  });
  import_completed = λ task_id polled calls.
      ok (record { local_path = "/data/v.mp4"; files = ("v.mp4", 7) ∷ []; duration_ms = 40 });
  describe = λ e. "error";
  type_name = λ e. "RuntimeError";
  is_503 = λ e. false;
  lower = λ s. s;
  strip = λ s. s;
  dumps = λ p. "{}";
  is_local = λ url. true;
}

abbrev pub test_gateway : Gateway
unfolding job_dispatcher
test_gateway = record {
  env = plain_env;
  dispatcher = job_dispatcher 10 30 3 1000000 60000000;
  worker = one_picture_worker;
  video = one_video_worker;
}

abbrev pub empty_world : World
empty_world = record {
  db = record {
    jobs = [];
    job_events = [];
    job_attempts = [];
    job_dispatches = [];
    assets = [];
    video_tasks = [];
    admin_sessions = [];
    admin_login_attempts = [];
    gateway_api_keys = [];
    generations = [];
  };
  ticks = 0;
  calls = [];
}

abbrev cat_request : AdmissionRequest
cat_request = record {
  kind = image;
  stage = image_generate;
  request_hash = some "0123456789abcdef0123456789abcdef0123456789abcdef0123456789abcdef";
  request_hash_version = some 1;
  payload_json = "{}";
  provider = none;
  model = none;
  prompt = some "a cat";
  priority = 0;
  max_attempts = 3;
  payload_schema_version = 1;
  scheduled_at = none;
  topic = "angemedia.jobs.execute";
  dedupe_hashes = [];
}

abbrev admitted_world : World
unfolding admit
admitted_world = (admit plain_env cat_request empty_world).1

abbrev delivered_world : World
unfolding dispatch_once
delivered_world =
    (dispatch_once plain_env test_gateway.dispatcher (local_publish test_gateway)
      one_picture_worker.describe admitted_world).1

-- The request is admitted, sent and done in one round.
admission_is_delivered :
    (admitted_world.calls ≡ [])
    × (delivered_world.calls ≡ ("00000000000000000000000000000001", image_generate) ∷ [])
    × (map (λ j. j.status) delivered_world.db.jobs ≡ succeeded ∷ [])
    × (map (λ a. a.status) delivered_world.db.job_attempts ≡ succeeded ∷ [])
    × (map (λ d. d.status) delivered_world.db.job_dispatches ≡ DispatchStatus.published ∷ [])
unfolding delivered_world admitted_world test_gateway db_transaction ◌>>=◌ job_from_connection
    find_row find_recent_job_by_request_hash select_rows insert_job job_row append_job_event
    create_job_dispatch count_rows update_rows claim_pending_dispatches catch_all publish handle
    get_job job_attempt handle_image call_provider record_generation save_generated_asset
    transition_job_in_connection finish_job_attempt mark_dispatch_published claim_job_attempt
    create_job_attempt stage_registry to_dict parse_job_stage_message is_hex try_except
admission_is_delivered = (refl, refl, refl, refl, refl)

one_round : Reach test_gateway admitted_world delivered_world
unfolding delivered_world test_gateway
one_round = next Reach.here (Step.dispatch admitted_world)

admitted_ids_distinct : DispatchesKeyed admitted_world.db
unfolding admitted_world db_transaction ◌>>=◌ job_from_connection find_row
    find_recent_job_by_request_hash select_rows insert_job job_row append_job_event
    create_job_dispatch count_rows update_rows
admitted_ids_distinct = (refl, tt)

Reach-JobsEvolve_example : JobsEvolve admitted_world.db delivered_world.db
Reach-JobsEvolve_example = Reach-JobsEvolve test_gateway one_round

Reach-AttemptsEvolve_example : AttemptsEvolve admitted_world.db delivered_world.db
Reach-AttemptsEvolve_example = Reach-AttemptsEvolve test_gateway one_round

Reach-DispatchesKept_example : DispatchesKept admitted_world.db delivered_world.db
Reach-DispatchesKept_example = Reach-DispatchesKept test_gateway admitted_ids_distinct one_round

Reach-LogGrows_example : LogGrows admitted_world.db delivered_world.db
Reach-LogGrows_example = Reach-LogGrows test_gateway one_round

abbrev cat_job : String
cat_job = "00000000000000000000000000000001"

transition_job_effect_example :
    Transitioned plain_env cat_job 0 running none no_fields admitted_world
      (transition_job plain_env cat_job 0 running none "status_changed" no_fields admitted_world).1
unfolding transition_job admitted_world db_transaction ◌>>=◌ job_from_connection find_row
    find_recent_job_by_request_hash select_rows insert_job job_row append_job_event
    create_job_dispatch count_rows update_rows
transition_job_effect_example =
    transition_job_effect plain_env cat_job 0 running none "status_changed" no_fields admitted_world
      _ refl

transition_job_once_example :
    (let after =
        (transition_job plain_env cat_job 0 running none "status_changed" no_fields
          admitted_world).1 in
      let again = transition_job plain_env cat_job 0 failed none "status_changed" no_fields after in
      (again.0 ≡ raised stale_job_version) × (again.1.db ≡ after.db))
unfolding transition_job admitted_world db_transaction ◌>>=◌ job_from_connection find_row
    find_recent_job_by_request_hash select_rows insert_job job_row append_job_event
    create_job_dispatch count_rows update_rows
transition_job_once_example =
    transition_job_once plain_env cat_job 0 running failed none none "status_changed"
      "status_changed" no_fields no_fields admitted_world _ refl

abbrev reuse_answer : AdmissionResult
unfolding job_row
reuse_answer = record {
  job = job_row plain_env (admitted_job cat_request) cat_job 0;
  dispatch = none;
  created = false;
}

admit_returns_example :
    Reused cat_request admitted_world.db
      (admit plain_env cat_request admitted_world).1.db
      reuse_answer
    ⊎ Created cat_request admitted_world.db
        (admit plain_env cat_request admitted_world).1.db
        reuse_answer
unfolding admitted_world reuse_answer admit db_transaction ◌>>=◌ job_from_connection find_row
    find_recent_job_by_request_hash select_rows insert_job job_row append_job_event
    create_job_dispatch count_rows update_rows latest_job existing_job
admit_returns_example = admit_returns plain_env cat_request admitted_world reuse_answer refl

-- Ids that repeat, so that an insert fails inside the transaction.
abbrev stuck_env : Env
stuck_env = record plain_env { uuid = λ n. "00000000000000000000000000000001" }

abbrev other_request : AdmissionRequest
other_request = record cat_request { request_hash = none; request_hash_version = none }

admit_raises_example : (admit stuck_env other_request admitted_world).1.db ≡ admitted_world.db
unfolding admitted_world admit db_transaction ◌>>=◌ job_from_connection find_row
    find_recent_job_by_request_hash select_rows insert_job job_row append_job_event
    create_job_dispatch count_rows update_rows
admit_raises_example = admit_raises stuck_env other_request admitted_world integrity_error refl

abbrev cat_message : JobStageMessage
cat_message = record {
  job_id = cat_job;
  stage = image_generate;
  attempt = 1;
  dispatch_id = "00000000000000000000000000000005";
  trace_id = "00000000000000000000000000000005";
  schema_version = 1;
}

abbrev cat_row : Job
unfolding job_row
cat_row = job_row plain_env (admitted_job cat_request) cat_job 0

handle_image_calls_example :
    ((handle_image plain_env one_picture_worker cat_message cat_row admitted_world).1.calls
      ≡ admitted_world.calls)
    ⊎ ((handle_image plain_env one_picture_worker cat_message cat_row admitted_world).1.calls
        ≡ (cat_job, image_generate) ∷ admitted_world.calls)
handle_image_calls_example =
    handle_image_calls plain_env one_picture_worker cat_message cat_row admitted_world

-- A broker that takes every message.
abbrev broker_publish : String → JobStageMessage → Exec String
broker_publish topic m = pure m.dispatch_id

abbrev one_sent : DispatchBatchResult
one_sent = record { claimed = 1; published = 1; retried = 0; failed = 0 }

dispatch_once_counts_example :
    one_sent.claimed ≡ one_sent.published + one_sent.retried + one_sent.failed
unfolding admitted_world dispatch_once admit db_transaction ◌>>=◌ job_from_connection find_row
    find_recent_job_by_request_hash select_rows insert_job job_row append_job_event
    create_job_dispatch count_rows update_rows claim_pending_dispatches catch_all
    mark_dispatch_published try_except test_gateway is_hex
dispatch_once_counts_example =
    dispatch_once_counts plain_env test_gateway.dispatcher broker_publish
      one_picture_worker.describe admitted_world one_sent refl

retry_delay_bounds_example :
    (let c = job_dispatcher 10 30 3 1000000 60000000 in
      ((4 + 3 ≤ 1024)
        × ((first : ℕ) × (later : ℕ) × (retry_delay c 4 ≡ ok first)
            × (retry_delay c (4 + 3) ≡ ok later)
            × (c.retry_base ≤ first)
            × (first ≤ c.retry_max)
            × (first ≤ later)))
      ⊎ ((1025 ≤ 4 + 3) × (retry_delay c (4 + 3) ≡ raised (other_error "OverflowError"))))
retry_delay_bounds_example = retry_delay_bounds 10 30 3 1000000 60000000 4 3

parse-to_dict_example : parse_job_stage_message (to_dict cat_message) ≡ ok cat_message
unfolding message_is_valid is_hex
parse-to_dict_example = parse-to_dict cat_message refl

parse_accepts_messages_example : IsRead (to_dict cat_message)
parse_accepts_messages_example = parse_accepts_messages (to_dict cat_message)

abbrev cat_attempt : JobAttempt
cat_attempt = record {
  id = "00000000000000000000000000000013";
  job_id = cat_job;
  attempt_number = 1;
  stage = image_generate;
  worker_kind = some "local";
  status = running;
  started_at = 11;
  completed_at = none;
  retry_at = none;
  error_code = none;
  error_message = none;
  detail_json = none;
}

abbrev started_world : World
started_world = record empty_world {
  db = record (empty_world.db) { jobs = cat_row ∷ []; job_attempts = cat_attempt ∷ [] };
}

delivered_again_example :
    OnlyLogged started_world
      (handle test_gateway.env "celery"
        (stage_registry test_gateway)
        no_refresh
        (to_dict cat_message)
        started_world).1
unfolding cat_row job_row job_from_connection job_attempt find_row
delivered_again_example =
    delivered_again test_gateway "celery" (to_dict cat_message) cat_message cat_row cat_attempt
      started_world parse-to_dict_example refl refl refl
