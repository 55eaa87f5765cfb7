-- ===== src/Lib.antt =====
-- AngeMedia Gateway: the durable job queue, and who may use it.
--
-- The gateway turns requests for images and videos into jobs. A request is admitted
-- (scripts/angemedia_gateway/services/job_admission.py) by one transaction that inserts a job, its
-- first event and an outbox row. A dispatcher (services/job_dispatcher.py) leases due outbox rows
-- and publishes each as a message; the local backend (queue/local_backend.py) hands the message to
-- the worker runtime (services/worker_runtime.py) in the same process, a broker would hand it over
-- later, in any order and perhaps twice. The runtime checks the message against the tables and
-- calls the handler of its stage; the image handler (services/image_job_worker.py) claims the job,
-- calls the provider and stores the result. A video job goes through several messages: the handlers
-- of services/video_job_worker.py submit the task, poll it, and import the finished file, and each
-- schedules the next. services/local_worker_failure_recovery.py settles what a failed worker
-- leaves. Every part keeps its state in the tables of repositories/ only. All these
-- paths are below scripts/angemedia_gateway.
--
-- Files:
--   Base            tests, rows of a table as a list, and lemmas on keys
--   Store           the tables (db/schema.py, db/migrations.py), `db_transaction`
--                   (db/connection.py), exceptions; an action is a function of the world
--   Text            the bounded texts of job_sanitizer.py, the patterns of ids and hashes
--   Events, Attempts, Jobs, Media
--                   repositories/job_events.py, job_attempts.py, jobs.py; generations.py, assets.py
--                   and services/generation_assets.py
--   Cleanup         `cleanup_jobs` of repositories/jobs.py
--   Message         queue/messages.py and queue/contracts.py
--   Outbox          repositories/job_dispatches.py
--   VideoTasks, VideoPolling
--                   repositories/video_tasks.py, services/video_polling.py
--   Admission, Dispatcher, Lifecycle, Diagnostics
--                   services/job_admission.py, job_dispatcher.py, job_lifecycle.py;
--                   error_diagnostics.py
--   Worker          Runtime is services/worker_runtime.py, Recovery is
--                   services/local_worker_failure_recovery.py, Local is queue/local_backend.py,
--                   Image is services/image_job_worker.py, Video is
--                   services/video_job_worker.py and services/video_job_finalizer.py
--   AdminAuth, GatewayKeys
--                   repositories/admin_auth.py (sessions and the lock after failed logins) and
--                   gateway_keys.py, beside the queue and on tables of their own
--   System          the gateway as a transition system: each operation, whole, is one step;
--                   Reachable and Duplicates are about its runs, Tests and VideoTests run it
--                   (VideoTests the queries and the cleanup of jobs, too);
--                   AccessTests runs AdminAuth and GatewayKeys
--   Evolution       how the tables may change: `Relates R m` says that the action `m` respects the
--                   relation `R` whatever its outcome. Relates has a rule for each way to build an
--                   action, Primitives lists what a relation owes for each statement of the
--                   repositories, Services composes these for every operation, and Jobs,
--                   Attempts, Dispatches, Log and Silence fill Primitives for five relations;
--                   Locking, Admissions, Calls, VideoCalls, VideoEnds and Deliveries say what
--                   single operations do
--
-- Names are the code's own. A function of the code that takes a connection is an action of type
-- `Exec A`, from a world to an outcome and a world; an exception is an outcome, and
-- `db_transaction` restores the tables on one. `conn.execute` of an UPDATE is a function from the
-- rows to the rows with the count of the rows it selects; an INSERT checks the constraints of its
-- table. The clock, `uuid4().hex` and the redactions are functions of an environment, which no
-- theorem restricts: ids may even repeat, and then the insert raises. Instants are numbers, since
-- the ISO texts that the code writes sort as the instants do. A dict that the code unpacks into
-- keyword arguments is a record. Loops go through a list of selected rows, so no fuel is needed.
--
-- Not modelled: the other queries for display and the retention of files; the threads and locks
-- around the dispatcher (services/queue_runtime.py), of which a step here is one critical section
-- that runs to its end; Celery and Redis, of which only the deliveries appear; the parsers of
-- payloads, the executors, the importer of videos and the redaction, which are parameters; the users
-- of the administration with their passwords; routes, providers, assistant, settings and frontend.
-- The policy of polls is taken as given: `from_config` computes it from floats of the configuration,
-- which may be infinite. Delays are finite, exact numbers of microseconds, and no instant runs past
-- the last year of datetime; the delay of the dispatcher raises where its power of two is too large
-- for a float. Duplicates is about `handle` of the runtime; in local mode the backend around it also
-- fails the job of a refused delivery.
-- The steps of System are those of the queue: the cleanup of jobs, which deletes rows, is not one.
pub mod Base
pub mod Store
pub mod Text
pub mod Events
pub mod Jobs
pub mod Attempts
pub mod Media
pub mod Cleanup
pub mod VideoTasks
pub mod VideoPolling
pub mod Message
pub mod Outbox
pub mod Admission
pub mod Diagnostics
pub mod Lifecycle
pub mod Worker
pub mod Dispatcher
pub mod AdminAuth
pub mod GatewayKeys
pub mod Evolution
pub mod System
