-- ===== src/Evolution/Services/Recovery.antt =====
-- The recovery of a failed local worker respects what the statements that it runs respect.
use ange_media_gateway.Evolution.Relates.{
  Relates-db_transaction, Relates-try_except, Relates-reads, Relates-now_iso, Relates-if,
  Relates-bind, Relates-pure, Relates,
}
use ange_media_gateway.Jobs.{get_job}
use ange_media_gateway.Worker.Recovery.{
  stale_to_state, RecoveryState, schedule_retry, fail_terminal, handle_unhandled, duplicate_found,
  recover_found, handle_duplicate,
}
use ange_media_gateway.Message.{JobStageMessage}
use ange_media_gateway.Evolution.Primitives.{statements_order, primitives_statements, Primitives}
use mathlib.Core.Option.{some-injective}
use ange_media_gateway.Base.{subst, ◌≡◌, Option, String, none, some}
use ange_media_gateway.Store.{World, stale_job_version, Exec, Error, Job, Env}

module _ {R : World → World → Type 0} ⦃k : Primitives R⦄ where
  stale_related : (e : Error) (m : Exec RecoveryState) → stale_to_state e ≡ some m → Relates R m
  stale_related stale_job_version m h = subst (Relates R) (some-injective _ _ h) (Relates-pure _)
  stale_related _ m h = cc

  module _ (env : Env) (job : Job) (m : JobStageMessage) (error type_name : String) where
    Relates-schedule_retry : Relates R (schedule_retry env job m error type_name)
    unfolding schedule_retry
    Relates-schedule_retry = Relates-bind (Relates-now_iso env) λ retry_at.
        Relates-try_except
          (Relates-db_transaction (
            Relates-bind (k.statements.of_finish_attempt env _ _ _) λ _.
              Relates-bind (k.statements.of_transition env _ _ _ _ _ _) λ _.
                Relates-bind (k.of_create_dispatch env _ _ _ _)
                  λ _. Relates-bind (k.statements.of_event env _ _ _ _ _ _) λ _. Relates-pure _))
          stale_related

    Relates-fail_terminal :
        (error_code : String) → Relates R (fail_terminal env job m error type_name error_code)
    unfolding fail_terminal
    Relates-fail_terminal error_code = Relates-bind (Relates-now_iso env) λ completed_at.
        Relates-try_except
          (Relates-db_transaction (
            Relates-bind (k.statements.of_finish_attempt env _ _ _) λ _.
              Relates-bind (k.statements.of_transition env _ _ _ _ _ _)
                λ _. Relates-bind (k.statements.of_event env _ _ _ _ _ _) λ _. Relates-pure _))
          stale_related

  module _ (env : Env) (m : JobStageMessage) where
    Relates-recover_found :
        (error type_name : String) (o : Option Job)
        → Relates R (recover_found env m error type_name o)
    unfolding recover_found
    Relates-recover_found error type_name none = Relates-pure _
    Relates-recover_found error type_name (some job) = Relates-if _ (Relates-pure _) (
        Relates-if _ (Relates-schedule_retry env job m error type_name)
          (Relates-fail_terminal env job m error type_name _))

    pub Relates-handle_unhandled :
        (error type_name : String) → Relates R (handle_unhandled env m error type_name)
    unfolding handle_unhandled get_job
    Relates-handle_unhandled error type_name =
        Relates-bind (Relates-reads _) λ found. Relates-recover_found error type_name found

    Relates-duplicate_found : (o : Option Job) → Relates R (duplicate_found env m o)
    unfolding duplicate_found
    Relates-duplicate_found none = Relates-pure _
    Relates-duplicate_found (some job) =
        Relates-if _ (Relates-pure _) (Relates-fail_terminal env job m _ _ _)

    pub Relates-handle_duplicate : Relates R (handle_duplicate env m)
    unfolding handle_duplicate get_job
    Relates-handle_duplicate = Relates-bind (Relates-reads _) λ found. Relates-duplicate_found found
