-- ===== src/Evolution/Calls.antt =====
-- How often the image worker calls its provider for one message.
use ange_media_gateway.Evolution.Once.{call_provider-Once, CallsAtMostOnce, once_one_time}
use ange_media_gateway.Evolution.OneTime.{only_silent, silent_first, silent_last, caught}
use ange_media_gateway.Message.{JobStageMessage}
use ange_media_gateway.Worker.Image.{
  start_attempt, claimed, answered, fail_without_execution, Started, ImagePayload, handle_image,
  run_claimed, ImageJobWorker,
}
use ange_media_gateway.Store.{now_iso, ok, raised, Outcome, Job, ◌>>=◌, World, Exec, Env}
use ange_media_gateway.Base.{◌∷◌, ◌≡◌, ◌⊎◌, inl, inr}
use ange_media_gateway.Evolution.Silence.{Silent, silent_primitives, silent_order}
use ange_media_gateway.Evolution.Relates.{Relates-pure, Relates, Relates-now_iso, Relates-ensure}
use ange_media_gateway.Evolution.Services.{
  Relates-start_attempt, Relates-fail_without_execution, Relates-after_execution,
  Relates-persist_success,
}

module _ (env : Env) (c : ImageJobWorker) (m : JobStageMessage) where
  abbrev Once : {A : Type 0} → Exec A → Type 0
  Once x = Relates (CallsAtMostOnce (Unit {0}) m.job_id m.stage) x

  run_claimed-Once : (p : ImagePayload) (s : Started) → Once (run_claimed env c m p s)
  unfolding run_claimed
  run_claimed-Once p (answered status) = only_silent {S = Silent} (Relates-pure _)
  run_claimed-Once p (claimed job) =
      silent_last {S = Silent}
        (caught (
          silent_last {S = Silent} (call_provider-Once (c.execute p) tt)
            λ x. Relates-persist_success env c m p x job.version))
        (λ r. Relates-after_execution env c m job.version r)

  parsed-Once :
      (job : Job) (r : Outcome ImagePayload)
      → Once (elim r [
        | raised e ↦ fail_without_execution env c m job e "invalid_image_job_payload"
        | ok p ↦ now_iso env >>= λ started_at.
            start_attempt env c m job p started_at >>= run_claimed env c m p
      ])
  parsed-Once job (raised e) =
      only_silent {S = Silent} (Relates-fail_without_execution env c m job e _)
  parsed-Once job (ok p) = silent_first {S = Silent} (Relates-now_iso env) λ started_at.
      silent_first {S = Silent} (Relates-start_attempt env c m job p started_at)
        λ s. run_claimed-Once p s

  -- Whatever the tables hold and however the run ends, one delivery of a message to the image worker
  -- calls the provider at most once, and only for the job and the stage of the message.
  pub handle_image_calls :
      (job : Job) (w : World)
      → ((handle_image env c m job w).1.calls ≡ w.calls)
        ⊎ ((handle_image env c m job w).1.calls ≡ (m.job_id, m.stage) ∷ w.calls)
  unfolding handle_image
  handle_image_calls job w =
      elim ((silent_first {S = Silent} (Relates-ensure _ _)
          λ _. parsed-Once job (c.parse job.input_json)).at
        w).calls_made [ inl none_made ↦ inl none_made | inr once ↦ inr once.0 ]
