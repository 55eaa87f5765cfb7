-- ===== src/Evolution/Services/Image.antt =====
-- The image worker respects what the statements that it runs respect: with the call of the provider
-- (`Relates-handle_image`), or up to it and after it.
use ange_media_gateway.Worker.Runtime.{ResultStatus, result, StageResult}
use ange_media_gateway.Evolution.Relates.{
  Relates-try_except, Relates-catch_all, Relates-outcome, Relates-option, Relates-reads,
  Relates-ensure, Relates-now_iso, Relates-pure, Relates-bind, Relates-db_transaction, Relates,
}
use ange_media_gateway.Message.{JobStageMessage}
use ange_media_gateway.Worker.Image.{
  error_code_of, claimed, handle_image, answered, stale_result, call_provider, run_claimed,
  ImagePayload, Started, ImageExecution, start_claimed, persist_success, start_rejected,
  start_attempt, fail_without_execution, fail_claimed, after_execution, persist_failure,
  ImageJobWorker,
}
use ange_media_gateway.Evolution.Primitives.{statements_order, primitives_statements, Primitives}
use mathlib.Core.Option.{some-injective}
use ange_media_gateway.Base.{subst, ◌≡◌, Option, String, ℕ, List, refl, none, some}
use ange_media_gateway.Store.{
  pure, ◌>>◌, try_except, stale_job_version, raised, Payload, ok, Exec, Stage, Outcome, Error, Job,
  Env, World,
}

module _ {R : World → World → Type 0} ⦃k : Primitives R⦄ (env : Env) (c : ImageJobWorker) where
  Relates-start_claimed :
      (m : JobStageMessage) (started_at : ℕ) (detail : Option Payload) (event_type : String)
      (payload : Payload) (o : Option Job)
      → Relates R (start_claimed env c m started_at detail event_type payload o)
  unfolding start_claimed
  Relates-start_claimed m started_at detail event_type payload none = Relates-pure _
  Relates-start_claimed m started_at detail event_type payload (some job) =
      Relates-bind (k.statements.of_create_attempt env _)
        λ _. Relates-bind (k.statements.of_event env _ _ _ _ _ _) λ _. Relates-pure _

  pub Relates-start_attempt :
      (m : JobStageMessage) (job : Job) (p : ImagePayload) (started_at : ℕ)
      → Relates R (start_attempt env c m job p started_at)
  unfolding start_attempt
  Relates-start_attempt m job p started_at = Relates-db_transaction (
      Relates-bind (Relates-reads _) λ existing.
        Relates-option existing
          (Relates-bind (k.statements.of_claim env _ _ _ _ _ _ _ _ _)
            λ o. Relates-start_claimed m started_at _ _ _ o)
          (λ attempt. Relates-bind (k.statements.of_event env _ _ _ _ _ _) λ _. Relates-pure _))

  Relates-start_rejected :
      (m : JobStageMessage) (job : Job) (error_code : String) (started_at : ℕ)
      → Relates R (start_rejected env c m job error_code started_at)
  unfolding start_rejected
  Relates-start_rejected m job error_code started_at = Relates-db_transaction (
      Relates-bind (Relates-reads _) λ existing.
        Relates-option existing
          (Relates-bind (k.statements.of_claim env _ _ _ _ _ _ _ _ _)
            λ o. Relates-start_claimed m started_at _ _ _ o)
          (λ attempt. Relates-pure _))

  pub Relates-persist_success :
      (m : JobStageMessage) (p : ImagePayload) (x : ImageExecution) (v : ℕ)
      → Relates R (persist_success env c m p x v)
  unfolding persist_success
  Relates-persist_success m p x v = Relates-bind (Relates-now_iso env) λ _. Relates-db_transaction (
      Relates-bind (k.statements.of_generation env _) λ _.
        Relates-bind (k.statements.of_assets env _ _ _) λ _. Relates-bind (Relates-ensure _ _) λ _.
          Relates-bind (k.statements.of_transition env _ _ _ _ _ _) λ _.
            Relates-bind (k.statements.of_finish_attempt env _ _ _)
              λ _. Relates-bind (k.statements.of_event env _ _ _ _ _ _) λ _. Relates-pure _)

  Relates-persist_failure :
      (m : JobStageMessage) (e : Error) (error_code : String) (v : ℕ)
      → Relates R (persist_failure env c m e error_code v)
  unfolding persist_failure
  Relates-persist_failure m e error_code v = Relates-bind (Relates-now_iso env) λ _.
      Relates-db_transaction (
        Relates-bind (k.statements.of_transition env _ _ _ _ _ _) λ _.
          Relates-bind (k.statements.of_finish_attempt env _ _ _)
            λ _. Relates-bind (k.statements.of_event env _ _ _ _ _ _) λ _. Relates-pure _)

  stale_related :
      (m : JobStageMessage) (e : Error) (a : Exec StageResult)
      → stale_result m e ≡ some a
      → Relates R a
  stale_related m stale_job_version a h = subst (Relates R) (some-injective _ _ h) (Relates-pure _)
  stale_related m _ a h = cc

  pub Relates-after_execution :
      (m : JobStageMessage) (v : ℕ) (r : Outcome (Unit {0}))
      → Relates R (after_execution env c m v r)
  unfolding after_execution
  Relates-after_execution m v (ok done) = Relates-pure _
  Relates-after_execution m v (raised e) = by_handler (stale_result m e) refl
    where
      by_handler :
          (o : Option (Exec StageResult))
          → stale_result m e ≡ o
          → Relates R (elim o [
            | some answer ↦ answer
            | none ↦
                try_except
                  (persist_failure env c m e (error_code_of e) v
                    >> pure (result m ResultStatus.failed))
                  (stale_result m)
          ])
      by_handler (some a) h = stale_related m e a h
      by_handler none h =
          Relates-try_except (Relates-bind (Relates-persist_failure m e _ v) λ _. Relates-pure _)
            (stale_related m)

  Relates-fail_claimed :
      (m : JobStageMessage) (e : Error) (error_code : String) (s : Started)
      → Relates R (fail_claimed env c m e error_code s)
  unfolding fail_claimed
  Relates-fail_claimed m e error_code (answered status) = Relates-pure _
  Relates-fail_claimed m e error_code (claimed job) =
      Relates-bind (Relates-persist_failure m e error_code job.version) λ _. Relates-pure _

  pub Relates-fail_without_execution :
      (m : JobStageMessage) (job : Job) (e : Error) (error_code : String)
      → Relates R (fail_without_execution env c m job e error_code)
  unfolding fail_without_execution
  Relates-fail_without_execution m job e error_code =
      Relates-bind (Relates-now_iso env) λ started_at.
        Relates-bind (Relates-start_rejected m job error_code started_at)
          λ s. Relates-fail_claimed m e error_code s

  module _
      (calls_free : (a : World) (l : List (String × Stage)) → R a (record a { calls = l })) where
    Relates-call_provider :
        {A : Type 0} (id : String) (stage : Stage) (f : ℕ → Outcome A)
        → Relates R (call_provider id stage f)
    unfolding call_provider
    Relates-call_provider id stage f = record { at = λ w. calls_free w _ }

    Relates-run_claimed :
        (m : JobStageMessage) (p : ImagePayload) (s : Started) → Relates R (run_claimed env c m p s)
    unfolding run_claimed
    Relates-run_claimed m p (answered status) = Relates-pure _
    Relates-run_claimed m p (claimed job) =
        Relates-bind
          (Relates-catch_all (
            Relates-bind (Relates-call_provider m.job_id m.stage (c.execute p))
              λ x. Relates-persist_success m p x job.version))
          (λ r. Relates-after_execution m job.version r)

    pub Relates-handle_image :
        (m : JobStageMessage) (job : Job) → Relates R (handle_image env c m job)
    unfolding handle_image
    Relates-handle_image m job = Relates-bind (Relates-ensure _ _) λ _.
        Relates-outcome (c.parse job.input_json) (λ e. Relates-fail_without_execution m job e _)
          (λ p. Relates-bind (Relates-now_iso env) λ started_at.
            Relates-bind (Relates-start_attempt m job p started_at) λ s. Relates-run_claimed m p s)
