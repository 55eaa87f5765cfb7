-- ===== src/Evolution/VideoCalls.antt =====
-- How often a delivery for a video job calls the provider.
use ange_media_gateway.Evolution.Primitives.{primitives_statements}
use ange_media_gateway.Evolution.Silence.{Silent, silent_order, silent_primitives}
use ange_media_gateway.Evolution.Services.{
  Relates-after_poll, Relates-reject_claimed, Relates-fail_result, Relates-exhausted, Relates-claim,
  Relates-resume_submitted, Relates-validate, Relates-after_submit,
}
use ange_media_gateway.Evolution.Once.{call_provider-Once, CallsAtMostOnce, once_one_time}
use ange_media_gateway.Evolution.OneTime.{only_silent, silent_first, silent_last, caught, if_so}
use ange_media_gateway.Evolution.Relates.{Relates-pure, Relates-ensure, Relates}
use ange_media_gateway.Worker.Video.Submit.{
  reject_claimed, submit_claimed, submit_taken, handle_submit,
}
use ange_media_gateway.Base.{inr, inl, ◌∷◌, true, ℕ, ◌⊎◌, or_else, ◌≡◌, String}
use ange_media_gateway.Worker.Video.Poll.{handle_poll, poll_claimed}
use ange_media_gateway.Text.{is_empty}
use ange_media_gateway.Message.{JobStageMessage}
use ange_media_gateway.Worker.Video.{poll_model, taken, refused, Claimed, VideoJobWorker}
use ange_media_gateway.Worker.Video.Claim.{claim}
use ange_media_gateway.Store.{ok, ◌>>=◌, raised, World, Outcome, Exec, Job, Env}

module _ (env : Env) (c : VideoJobWorker) (m : JobStageMessage) (job : Job) where
  -- The job has no task of the provider yet.
  abbrev HasNoTask : Type 0
  HasNoTask = is_empty (or_else job.external_task_id "") ≡ true

  abbrev Once : Type 0 → {A : Type 0} → Exec A → Type 0
  Once P x = Relates (CallsAtMostOnce P m.job_id m.stage) x

  submit_taken-Once :
      (request : String) (v : ℕ) → Once HasNoTask (submit_taken env c m job request v)
  unfolding submit_taken
  submit_taken-Once request v =
      if_so _
        (λ none_yet.
          silent_last {S = Silent} (caught (call_provider-Once (c.submit request) none_yet))
            λ r. Relates-after_submit env c m job v r)
        (only_silent {S = Silent} (Relates-resume_submitted env c m job v))

  submit_claimed-Once :
      (request : String) (x : Claimed) → Once HasNoTask (submit_claimed env c m job request x)
  unfolding submit_claimed
  submit_claimed-Once request (refused status) = only_silent {S = Silent} (Relates-pure _)
  submit_claimed-Once request (taken row) = submit_taken-Once request row.version

  parsed-Once :
      (r : Outcome String)
      → Once HasNoTask (elim r [
        | raised e ↦ claim env c m job >>= reject_claimed env c m job e
        | ok request ↦ claim env c m job >>= submit_claimed env c m job request
      ])
  parsed-Once (raised e) =
      silent_first {S = Silent} (Relates-claim env c m job)
        λ x. only_silent {S = Silent} (Relates-reject_claimed env c m job e x)
  parsed-Once (ok request) =
      silent_first {S = Silent} (Relates-claim env c m job) λ x. submit_claimed-Once request x

  -- Whatever the tables hold and however the run ends, one delivery of a message to the submit stage
  -- of the video worker makes no call of the provider, or one, for the job and the stage of the
  -- message, and the latter only where the row of the job has no task id of the provider.
  pub handle_submit_calls :
      (w : World)
      → ((handle_submit env c m job w).1.calls ≡ w.calls)
        ⊎ (((handle_submit env c m job w).1.calls ≡ (m.job_id, m.stage) ∷ w.calls)
            × (is_empty (or_else job.external_task_id "") ≡ true))
  unfolding handle_submit
  handle_submit_calls w =
      ((silent_first {S = Silent} (Relates-ensure _ _) λ _. parsed-Once (c.parse job.input_json)).at
        w).calls_made

  poll_claimed-Once :
      (task_id : String) (x : Claimed) → Once (Unit {0}) (poll_claimed env c m job task_id x)
  unfolding poll_claimed
  poll_claimed-Once task_id (refused status) = only_silent {S = Silent} (Relates-pure _)
  poll_claimed-Once task_id (taken row) =
      silent_first {S = Silent} (Relates-exhausted env c c.policy m.attempt job.started_at) λ over.
        if_so over (λ _. only_silent {S = Silent} (search Relates-fail_result))
          (silent_last {S = Silent}
            (caught (call_provider-Once (c.poll task_id (poll_model env c job)) tt))
            λ r. Relates-after_poll env c m job row.version task_id r)

  -- Whatever the tables hold and however the run ends, one delivery of a message to the poll stage
  -- of the video worker calls the provider at most once, and only for the job and the stage of the
  -- message.
  pub handle_poll_calls :
      (w : World)
      → ((handle_poll env c m job w).1.calls ≡ w.calls)
        ⊎ ((handle_poll env c m job w).1.calls ≡ (m.job_id, m.stage) ∷ w.calls)
  unfolding handle_poll
  handle_poll_calls w =
      elim ((silent_first {S = Silent} (Relates-ensure _ _) λ _.
        silent_first {S = Silent} (Relates-validate env c _) λ task_id.
          silent_first {S = Silent} (Relates-claim env c m job) λ x. poll_claimed-Once task_id x).at
        w).calls_made [ inl none_made ↦ inl none_made | inr once ↦ inr once.0 ]
