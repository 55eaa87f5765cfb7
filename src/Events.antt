-- ===== src/Events.antt =====
-- repositories/job_events.py: the append-only log of a job's life.
use ange_media_gateway.Base.{
  Bool, String, Option, [], ◌∷◌, ◌++◌, ◌==◌, string_eq, is_some, is_none, find_row, ◌&&◌,
  if◌then◌else◌,
}
use mathlib.Core.Option
use ange_media_gateway.Store.{
  Status, Stage, Payload, JobEvent, Db, Env, Exec, integrity_error, raise, write, reads, now_iso,
  uuid4_hex, ◌>>=◌,
}

abbrev pub id_is_job : String → Db → Bool
id_is_job id db = is_some (find_row (λ j. j.id == id) db.jobs)

-- `INSERT INTO job_events`: the primary key, and the reference to `jobs(id)`.
unfoldable pub insert_event_row : JobEvent → Exec JobEvent
insert_event_row e = do
  fits ← reads (λ db.
      is_none (find_row (λ x. x.id == e.id) db.job_events)
      && is_some (find_row (λ j. j.id == e.job_id) db.jobs))
  if fits
      then write (λ db. record db { job_events = db.job_events ++ e ∷ [] }) e
      else raise integrity_error

unfoldable pub append_job_event :
    Env
    → String
    → String
    → Option Payload
    → Option Status
    → Option Status
    → Option Stage
    → Exec JobEvent
unfolding insert_event_row
append_job_event env job_id event_type payload from_status to_status stage = do
  event_id ← uuid4_hex env
  created_at ← now_iso env
  insert_event_row (record {
    id = event_id;
    job_id = job_id;
    event_type = event_type;
    from_status = from_status;
    to_status = to_status;
    stage = stage;
    payload_json = Option.map env.redact_payload payload;
    created_at = created_at;
  })
