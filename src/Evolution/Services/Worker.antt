-- ===== src/Evolution/Services/Worker.antt =====
-- The worker runtime respects what the statements that it runs and its handlers respect.
use ange_media_gateway.Jobs.{is_terminal, get_job}
use ange_media_gateway.Evolution.Relates.{
  Relates-outcome, Relates-db_transaction, Relates-option, Relates-now_iso, Relates-reads,
  Relates-if, Relates-pure, Relates-raise, Relates-bind, Relates,
}
use ange_media_gateway.Message.{parse_job_stage_message, RawMessage, JobStageMessage}
use ange_media_gateway.Worker.Runtime.{
  attempt_limit, handle_message, handle, record_unhandled, run_handler, handle_existing,
  handle_fresh, handle_found, or_not_executable, ResultStatus, StageHandler, Registry, answer,
}
use ange_media_gateway.Evolution.Primitives.{statements_order, primitives_statements, Primitives}
use ange_media_gateway.Base.{◌==◌, not, ltb, refl, ◌≡◌, String, Option, none, some}
use ange_media_gateway.Store.{World, stage_eq, JobAttempt, Exec, Stage, Payload, Job, Env}

module _ {R : World → World → Type 0} ⦃k : Primitives R⦄ where
  Relates-answer :
      (env : Env) (m : JobStageMessage) (event_type : String) (payload : Payload) (stage : Stage)
      (status : ResultStatus)
      → Relates R (answer env m event_type payload stage status)
  unfolding answer
  Relates-answer env m event_type payload stage status =
      Relates-bind (k.statements.of_event env _ _ _ _ _ _) λ _. Relates-pure _

  Relates-or_not_executable : (o : Option Job) → Relates R (or_not_executable o)
  Relates-or_not_executable none = Relates-raise _
  Relates-or_not_executable (some j) = Relates-pure j

  module _ (env : Env) (worker_kind : String) (registry : Registry)
      (handlers_related : (stage : Stage) (h : StageHandler)
        → registry stage ≡ some h
        → (m : JobStageMessage) (job : Job) → Relates R (h m job)) where
    Relates-record_unhandled :
        (m : JobStageMessage) → Relates R (record_unhandled env worker_kind registry m)
    unfolding record_unhandled
    Relates-record_unhandled m = Relates-bind (Relates-now_iso env) λ completed_at.
        Relates-db_transaction (
          Relates-bind (k.statements.of_summary env _ _ _ _) λ updated.
            Relates-bind (Relates-or_not_executable updated) λ _.
              Relates-bind (k.statements.of_create_attempt env _)
                λ _. Relates-bind (k.statements.of_event env _ _ _ _ _ _) λ _. Relates-pure _)

    Relates-run_handler :
        (m : JobStageMessage) (job : Job) (o : Option StageHandler)
        → registry m.stage ≡ o
        → Relates R (run_handler env worker_kind registry m job o)
    unfolding run_handler
    Relates-run_handler m job none e = Relates-record_unhandled m
    Relates-run_handler m job (some h) e = handlers_related m.stage h e m job

    Relates-handle_existing :
        (m : JobStageMessage) (job : Job) (a : JobAttempt) (o : Option StageHandler)
        → registry m.stage ≡ o
        → Relates R (handle_existing env worker_kind registry m job a o)
    unfolding handle_existing
    Relates-handle_existing m job a none e = Relates-answer env m _ _ _ _
    Relates-handle_existing m job a (some h) e =
        Relates-if _ (handlers_related m.stage h e m job) (Relates-answer env m _ _ _ _)

    Relates-handle_fresh :
        (m : JobStageMessage) (job : Job) → Relates R (handle_fresh env worker_kind registry m job)
    unfolding handle_fresh
    Relates-handle_fresh m job =
        Relates-if (is_terminal job.status) (Relates-answer env m _ _ _ _) (
          Relates-if (ltb (attempt_limit job) m.attempt)
            (Relates-bind (k.statements.of_event env _ _ _ _ _ _) λ _. Relates-raise _)
            (Relates-if (not (job.stage == m.stage)) (Relates-answer env m _ _ _ _)
              (Relates-run_handler m job (registry m.stage) refl)))

    Relates-handle_found :
        (m : JobStageMessage) (o : Option Job)
        → Relates R (handle_found env worker_kind registry m o)
    unfolding handle_found
    Relates-handle_found m none = Relates-raise _
    Relates-handle_found m (some job) = Relates-bind (Relates-reads _) λ existing.
        Relates-option existing (Relates-handle_fresh m job)
          (λ a. Relates-handle_existing m job a (registry m.stage) refl)

    module _ (refresh : Exec (Unit {0})) (refresh_related : Relates R refresh) where
      Relates-handle_message :
          (m : JobStageMessage) → Relates R (handle_message env worker_kind registry refresh m)
      unfolding handle_message get_job
      Relates-handle_message m =
          Relates-bind refresh_related
            λ _. Relates-bind (Relates-reads _) λ found. Relates-handle_found m found

      pub Relates-handle :
          (raw : RawMessage) → Relates R (handle env worker_kind registry refresh raw)
      unfolding handle
      Relates-handle raw =
          Relates-outcome (parse_job_stage_message raw) (λ e. Relates-raise e)
            (λ m. Relates-handle_message m)
