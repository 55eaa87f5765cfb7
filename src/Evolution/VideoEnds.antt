-- ===== src/Evolution/VideoEnds.antt =====
-- The end of the chain of deliveries for a video: where no attempt is left, none is scheduled.
use ange_media_gateway.Worker.Image.{call_provider}
use ange_media_gateway.Worker.Video.Import.{
  imported, is_value_error, returned, ImportStep, import_decided, after_import, import_polled,
  handle_asset_import, import_failed, import_claimed,
}
use ange_media_gateway.Evolution.Services.{
  Relates-after_finalize, Relates-finalize_imported_video, Relates-claim, Relates-validate,
  Relates-fail_result,
}
use mathlib.Core.Option.{none}
use ange_media_gateway.VideoPolling.{
  completed, pending, failed, PollDecision, VideoPollResult, exhausted,
}
use ange_media_gateway.Worker.Video.Poll.{handle_poll, poll_claimed}
use ange_media_gateway.Message.{JobStageMessage}
use ange_media_gateway.Worker.Video.{taken, refused, Failure, Claimed, VideoJobWorker}
use ange_media_gateway.Worker.Video.Schedule.{retry}
use ange_media_gateway.Evolution.Relates.{
  Relates-catch_all, Relates-ensure, Relates-if, Relates-bind, Relates-pure, Relates, OnTables,
}
use ange_media_gateway.Evolution.SameOutbox.{SameOutbox, outbox_order, outbox_statements}
use ange_media_gateway.Store.{
  video_result_missing_url, video_provider_disabled, raised, ok, Outcome, Error, Exec, Job, Env,
  World, ◌>>=◌, pure,
}
use ange_media_gateway.Base.{some, if◌then◌else◌, ℕ, Option, String, true, leb, ◌≡◌, refl}

module _ (env : Env) (c : VideoJobWorker) (m : JobStageMessage) (job : Job)
    (none_left : leb c.policy.max_attempts m.attempt ≡ true) where
  abbrev SchedulesNothing : {A : Type 0} → Exec A → Type 0
  SchedulesNothing x = Relates (OnTables SameOutbox) x

  exhausted_now : (t : Option ℕ) → exhausted env c.policy m.attempt t ≡ pure true
  unfolding exhausted
  exhausted_now none = rw none_left refl
  exhausted_now (some t) = rw none_left refl

  when_exhausted :
      {A : Type 0} {x : Exec A} (y : Exec A)
      → SchedulesNothing x
      → SchedulesNothing
          (exhausted env c.policy m.attempt job.started_at >>= λ over. if over then x else y)
  unfolding ◌>>=◌ pure
  when_exhausted y h = rw (exhausted_now job.started_at) h

  call_provider-SchedulesNothing :
      {A : Type 0} (f : ℕ → Outcome A) → SchedulesNothing (call_provider m.job_id m.stage f)
  unfolding call_provider
  call_provider-SchedulesNothing f = record { at = λ w. record { same_rows = refl } }

  poll_claimed-SchedulesNothing :
      (task_id : String) (x : Claimed) → SchedulesNothing (poll_claimed env c m job task_id x)
  unfolding poll_claimed
  poll_claimed-SchedulesNothing task_id (refused status) = Relates-pure _
  poll_claimed-SchedulesNothing task_id (taken row) = when_exhausted _ (search Relates-fail_result)

  retry-SchedulesNothing :
      (v : ℕ) (task_id provider_status error_code : String) (error : Failure)
      → SchedulesNothing (retry env c m job v task_id provider_status error_code error)
  unfolding retry
  retry-SchedulesNothing v task_id provider_status error_code error =
      when_exhausted _ (search Relates-fail_result)

  import_decided-SchedulesNothing :
      (v : ℕ) (task_id : String) (r : VideoPollResult) (d : PollDecision)
      → SchedulesNothing (import_decided env c m job v task_id r d)
  unfolding import_decided
  import_decided-SchedulesNothing v task_id r failed =
      Relates-bind (search Relates-fail_result) λ _. Relates-pure _
  import_decided-SchedulesNothing v task_id r pending =
      Relates-bind (retry-SchedulesNothing v task_id _ _ _) λ _. Relates-pure _
  import_decided-SchedulesNothing v task_id r completed =
      Relates-bind (call_provider-SchedulesNothing _) λ _. Relates-pure _

  import_polled-SchedulesNothing :
      (v : ℕ) (task_id : String) → SchedulesNothing (import_polled env c m job v task_id)
  unfolding import_polled
  import_polled-SchedulesNothing v task_id =
      Relates-bind (call_provider-SchedulesNothing _)
        λ r. import_decided-SchedulesNothing v task_id r _

  import_failed-SchedulesNothing :
      (v : ℕ) (task_id : String) (e : Error)
      → SchedulesNothing (import_failed env c m job v task_id e)
  unfolding import_failed
  import_failed-SchedulesNothing v task_id e =
      Relates-if (is_value_error e) (search Relates-fail_result)
        (retry-SchedulesNothing v task_id _ _ _)

  after_import-SchedulesNothing :
      (v : ℕ) (task_id : String) (r : Outcome ImportStep)
      → SchedulesNothing (after_import env c m job v task_id r)
  unfolding after_import
  after_import-SchedulesNothing v task_id (ok (returned r)) = Relates-pure _
  after_import-SchedulesNothing v task_id (ok (imported x)) =
      Relates-bind (search (Relates-catch_all, Relates-finalize_imported_video))
        λ r. Relates-after_finalize env c m r
  after_import-SchedulesNothing v task_id (raised video_provider_disabled) =
      search Relates-fail_result
  after_import-SchedulesNothing v task_id (raised video_result_missing_url) =
      search Relates-fail_result
  after_import-SchedulesNothing v task_id (raised e) = import_failed-SchedulesNothing v task_id e

  import_claimed-SchedulesNothing :
      (task_id : String) (x : Claimed) → SchedulesNothing (import_claimed env c m job task_id x)
  unfolding import_claimed
  import_claimed-SchedulesNothing task_id (refused status) = Relates-pure _
  import_claimed-SchedulesNothing task_id (taken row) =
      Relates-bind (Relates-catch_all (import_polled-SchedulesNothing row.version task_id))
        λ r. after_import-SchedulesNothing row.version task_id r

  handle_poll-SchedulesNothing : SchedulesNothing (handle_poll env c m job)
  unfolding handle_poll
  handle_poll-SchedulesNothing = Relates-bind (Relates-ensure _ _) λ _.
      Relates-bind (Relates-validate env c _) λ task_id.
        Relates-bind (Relates-claim env c m job) λ x. poll_claimed-SchedulesNothing task_id x

  handle_asset_import-SchedulesNothing : SchedulesNothing (handle_asset_import env c m job)
  unfolding handle_asset_import
  handle_asset_import-SchedulesNothing = Relates-bind (Relates-ensure _ _) λ _.
      Relates-bind (Relates-validate env c _) λ task_id.
        Relates-bind (Relates-claim env c m job) λ x. import_claimed-SchedulesNothing task_id x

  -- A message whose attempt number has reached the limit of the policy ends the chain of deliveries:
  -- neither the poll stage nor the import stage adds a row to the outbox or changes one, whatever
  -- the tables hold, whatever the provider answers and however the run ends.
  pub attempts_end :
      (w : World)
      → ((handle_poll env c m job w).1.db.job_dispatches ≡ w.db.job_dispatches)
        × ((handle_asset_import env c m job w).1.db.job_dispatches ≡ w.db.job_dispatches)
  attempts_end w = (
    (handle_poll-SchedulesNothing.at w).same_rows,
    (handle_asset_import-SchedulesNothing.at w).same_rows,
  )
