-- ===== src/System/Duplicates.antt =====
-- What a second delivery of the same message does.
use mathlib.Core.Option.{none}
use ange_media_gateway.Attempts.{job_attempt}
use ange_media_gateway.Message.{parse_job_stage_message}
use ange_media_gateway.Jobs.{job_from_connection, get_job}
use ange_media_gateway.System.{
  Registry, no_refresh, JobStageMessage, RawMessage, Gateway, stage_registry,
}
use ange_media_gateway.Worker.Runtime.{
  StageHandler, ResultStatus, answer, handle_existing, handle_found, handle_message, handle,
}
use ange_media_gateway.Evolution.Admissions.Rows.{event_tables}
use ange_media_gateway.Store.{Error, JobEvent, Db}
use ange_media_gateway.Base.{ap, ◌++◌, [], ◌∷◌, List, ◌∙◌}
use mathlib.Core.List.{append-nil}
use ange_media_gateway.Events.{insert_event_row, append_job_event}
use ange_media_gateway.Base.{sym, subst, Option, String, refl, ◌≡◌, some, arith}
use ange_media_gateway.Store.{
  raised, JobAttempt, Job, Stage, Status, Payload, Outcome, Env, pure, Exec, World, ◌>>=◌,
  image_generate, ok,
}

-- Of what is stored nothing differs but that events are added to the end of the log, and no provider
-- has been called.
pub record OnlyLogged (a b : World) : Type 0 where
  pub same_calls : b.calls ≡ a.calls
  pub events : List JobEvent
  pub same_tables : b.db ≡ record (a.db) { job_events = a.db.job_events ++ events }

no_events : (db : Db) → db ≡ record db { job_events = db.job_events ++ [] }
no_events db = ap (λ l. record db { job_events = l }) (sym (append-nil db.job_events))

refused_tables :
    (env : Env) (id event_type : String) (payload : Option Payload) (from to : Option Status)
    (stage : Option Stage) (w : World) (e : Error)
    → (append_job_event env id event_type payload from to stage w).0 ≡ raised e
    → (append_job_event env id event_type payload from to stage w).1.db ≡ w.db
unfolding append_job_event insert_event_row ◌>>=◌
refused_tables env id event_type payload from to stage w e h = ground arith

append_calls :
    (env : Env) (id event_type : String) (payload : Option Payload) (from to : Option Status)
    (stage : Option Stage) (w : World)
    → (append_job_event env id event_type payload from to stage w).1.calls ≡ w.calls
unfolding append_job_event insert_event_row ◌>>=◌
append_calls env id event_type payload from to stage w = ground arith

OnlyLogged-append_job_event :
    (env : Env) (id event_type : String) (payload : Option Payload) (from to : Option Status)
    (stage : Option Stage) (w : World)
    → OnlyLogged w (append_job_event env id event_type payload from to stage w).1
OnlyLogged-append_job_event env id event_type payload from to stage w = logged _ refl
  where
    logged :
        (r : Outcome JobEvent)
        → (append_job_event env id event_type payload from to stage w).0 ≡ r
        → OnlyLogged w (append_job_event env id event_type payload from to stage w).1
    logged (ok event) h = record {
      same_calls = append_calls env id event_type payload from to stage w;
      events = event ∷ [];
      same_tables = (event_tables env id event_type payload from to stage w event h).1;
    }
    logged (raised e) h = record {
      same_calls = append_calls env id event_type payload from to stage w;
      events = [];
      same_tables = refused_tables env id event_type payload from to stage w e h ∙ no_events w.db;
    }

then_pure : {A B : Type 0} (m : Exec A) (b : B) (w : World) → ((m >>= λ _. pure b) w).1 ≡ (m w).1
unfolding ◌>>=◌
then_pure m b w = ended (m w).0 (m w).1 b
  where
    ended :
        {A B : Type 0} (r : Outcome A) (v : World) (b : B)
        → (ange_media_gateway.Store.continue r (λ _. pure b) v).1 ≡ v
    ended (ok a) v b = refl
    ended (raised e) v b = refl

OnlyLogged-answer :
    (env : Env) (m : JobStageMessage) (event_type : String) (payload : Payload) (stage : Stage)
    (status : ResultStatus) (w : World)
    → OnlyLogged w (answer env m event_type payload stage status w).1
unfolding answer
OnlyLogged-answer env m event_type payload stage status w =
    subst (OnlyLogged w) (sym (then_pure _ _ w)) (OnlyLogged-append_job_event env _ _ _ _ _ _ w)

OnlyLogged-handle_existing :
    (env : Env) (worker_kind : String) (registry : Registry) (m : JobStageMessage) (job : Job)
    (attempt : JobAttempt) (handler : Option StageHandler) (w : World)
    → m.stage ≡ image_generate
    → OnlyLogged w (handle_existing env worker_kind registry m job attempt handler w).1
unfolding handle_existing
OnlyLogged-handle_existing env worker_kind registry m job attempt none w h =
    OnlyLogged-answer env m _ _ _ _ w
OnlyLogged-handle_existing env worker_kind registry m job attempt (some handler) w h =
    rw (h, handle_existing) (rw (sym h) (OnlyLogged-answer env m _ _ _ _ w))

OnlyLogged-handle_found :
    (env : Env) (worker_kind : String) (registry : Registry) (m : JobStageMessage) (job : Job)
    (attempt : JobAttempt) (w : World)
    → m.stage ≡ image_generate
    → job_attempt m.job_id m.attempt w.db ≡ some attempt
    → OnlyLogged w (handle_found env worker_kind registry m (some job) w).1
unfolding handle_found ◌>>=◌
OnlyLogged-handle_found env worker_kind registry m job attempt w stage existing =
    rw (existing, handle_found)
      (OnlyLogged-handle_existing env worker_kind registry m job attempt (registry m.stage) w stage)

-- The worker runtime answers a message for the image worker whose attempt has a row already, whatever
-- became of that attempt, by starting nothing: however often and whenever `handle` is given it again,
-- no provider is called and every table is the same, but for events at the end of the log.
pub delivered_again :
    (g : Gateway) (worker_kind : String) (raw : RawMessage) (m : JobStageMessage) (job : Job)
    (attempt : JobAttempt) (w : World)
    → parse_job_stage_message raw ≡ ok m
    → m.stage ≡ image_generate
    → job_from_connection m.job_id w.db ≡ some job
    → job_attempt m.job_id m.attempt w.db ≡ some attempt
    → OnlyLogged w (handle g.env worker_kind (stage_registry g) no_refresh raw w).1
unfolding handle handle_message get_job ◌>>=◌
delivered_again g worker_kind raw m job attempt w parsed stage found existing =
    rw (parsed, handle)
      (rw found (
        OnlyLogged-handle_found g.env worker_kind (stage_registry g) m job attempt w stage
          existing))
