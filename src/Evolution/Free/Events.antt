-- ===== src/Evolution/Free/Events.antt =====
-- A relation that leaves the event log free is respected by the statement that extends the log.
use ange_media_gateway.Events.{append_job_event}
use ange_media_gateway.Evolution.Relates.{
  Relates-raise, Relates-write, Relates-if, Relates-reads, Relates-now_iso, Relates-uuid4_hex,
  Relates-bind, Relates, IsPreorder,
}
use ange_media_gateway.Base.{Option, String, List}
use ange_media_gateway.Store.{World, Stage, Status, Payload, Env, JobEvent}

module _ {R : World → World → Type 0} ⦃o : IsPreorder R⦄
    (free : (a : World) (l : List JobEvent)
      → R a (record a { db = record (a.db) { job_events = l } })) where
  pub Free-event :
      (env : Env) (id event_type : String) (payload : Option Payload) (from to : Option Status)
      (stage : Option Stage)
      → Relates R (append_job_event env id event_type payload from to stage)
  unfolding append_job_event
  Free-event env id event_type payload from to stage = Relates-bind (Relates-uuid4_hex env) λ _.
      Relates-bind (Relates-now_iso env) λ _.
        Relates-bind (Relates-reads _)
          λ fits. Relates-if fits (Relates-write _ _ (λ a. free a _)) (Relates-raise _)
