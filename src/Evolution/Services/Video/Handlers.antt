-- ===== src/Evolution/Services/Video/Handlers.antt =====
-- The handlers of the video stages respect what the statements that they run respect, if the record
-- of the calls of the provider is free.
use ange_media_gateway.Evolution.Services.Video.Stages.{
  Relates-claim, Relates-validate, Relates-exhausted, Relates-fail_result, Relates-retry,
}
use ange_media_gateway.Evolution.Services.Video.Ends.{
  Relates-after_submit, Relates-reject_claimed, Relates-after_poll, Relates-after_import,
  Relates-resume_submitted,
}
use ange_media_gateway.VideoPolling.{completed, pending, failed, PollDecision, VideoPollResult}
use ange_media_gateway.Evolution.Relates.{
  Relates-outcome, Relates-catch_all, Relates-pure, Relates-ensure, Relates-bind, Relates-if,
  Relates,
}
use ange_media_gateway.Message.{JobStageMessage}
use ange_media_gateway.Worker.Image.{call_provider}
use ange_media_gateway.Worker.Video.Import.{
  import_polled, handle_asset_import, import_claimed, import_decided,
}
use ange_media_gateway.Worker.Video.Poll.{handle_poll, poll_claimed}
use ange_media_gateway.Worker.Video.Submit.{submit_claimed, handle_submit, submit_taken}
use ange_media_gateway.Base.{ℕ, String, List}
use ange_media_gateway.Worker.Video.{taken, refused, Claimed, VideoJobWorker}
use ange_media_gateway.Evolution.Primitives.{statements_order, primitives_statements, Primitives}
use ange_media_gateway.Store.{Job, Outcome, Stage, Env, World}

module _ {R : World → World → Type 0} ⦃k : Primitives R⦄ (env : Env) (c : VideoJobWorker)
    (calls_free : (a : World) (l : List (String × Stage)) → R a (record a { calls = l })) where
  Relates-call_provider :
      {A : Type 0} (id : String) (stage : Stage) (f : ℕ → Outcome A)
      → Relates R (call_provider id stage f)
  unfolding call_provider
  Relates-call_provider id stage f = record { at = λ w. calls_free w _ }

  Relates-submit_taken :
      (m : JobStageMessage) (job : Job) (request : String) (v : ℕ)
      → Relates R (submit_taken env c m job request v)
  unfolding submit_taken
  Relates-submit_taken m job request v =
      Relates-if _
        (Relates-bind (Relates-catch_all (Relates-call_provider _ _ _))
          λ r. Relates-after_submit env c m job v r)
        (Relates-resume_submitted env c m job v)

  Relates-submit_claimed :
      (m : JobStageMessage) (job : Job) (request : String) (x : Claimed)
      → Relates R (submit_claimed env c m job request x)
  unfolding submit_claimed
  Relates-submit_claimed m job request (refused status) = Relates-pure _
  Relates-submit_claimed m job request (taken row) = Relates-submit_taken m job request row.version

  pub Relates-handle_submit :
      (m : JobStageMessage) (job : Job) → Relates R (handle_submit env c m job)
  unfolding handle_submit
  Relates-handle_submit m job = Relates-bind (Relates-ensure _ _) λ _.
      Relates-outcome (c.parse job.input_json)
        (λ e. Relates-bind (Relates-claim env c m job) λ x. Relates-reject_claimed env c m job e x)
        (λ request.
          Relates-bind (Relates-claim env c m job) λ x. Relates-submit_claimed m job request x)

  Relates-poll_claimed :
      (m : JobStageMessage) (job : Job) (task_id : String) (x : Claimed)
      → Relates R (poll_claimed env c m job task_id x)
  unfolding poll_claimed
  Relates-poll_claimed m job task_id (refused status) = Relates-pure _
  Relates-poll_claimed m job task_id (taken row) =
      Relates-bind (Relates-exhausted env c c.policy m.attempt job.started_at) λ over.
        Relates-if over (search Relates-fail_result) (
          Relates-bind (Relates-catch_all (Relates-call_provider _ _ _))
            λ r. Relates-after_poll env c m job row.version task_id r)

  pub Relates-handle_poll : (m : JobStageMessage) (job : Job) → Relates R (handle_poll env c m job)
  unfolding handle_poll
  Relates-handle_poll m job = Relates-bind (Relates-ensure _ _) λ _.
      Relates-bind (Relates-validate env c _) λ task_id.
        Relates-bind (Relates-claim env c m job) λ x. Relates-poll_claimed m job task_id x

  Relates-import_decided :
      (m : JobStageMessage) (job : Job) (v : ℕ) (task_id : String) (r : VideoPollResult)
      (d : PollDecision)
      → Relates R (import_decided env c m job v task_id r d)
  unfolding import_decided
  Relates-import_decided m job v task_id r failed =
      Relates-bind (search Relates-fail_result) λ _. Relates-pure _
  Relates-import_decided m job v task_id r pending =
      Relates-bind (search Relates-retry) λ _. Relates-pure _
  Relates-import_decided m job v task_id r completed =
      Relates-bind (Relates-call_provider _ _ _) λ _. Relates-pure _

  Relates-import_polled :
      (m : JobStageMessage) (job : Job) (v : ℕ) (task_id : String)
      → Relates R (import_polled env c m job v task_id)
  unfolding import_polled
  Relates-import_polled m job v task_id =
      Relates-bind (Relates-call_provider _ _ _)
        λ polled. Relates-import_decided m job v task_id polled _

  Relates-import_claimed :
      (m : JobStageMessage) (job : Job) (task_id : String) (x : Claimed)
      → Relates R (import_claimed env c m job task_id x)
  unfolding import_claimed
  Relates-import_claimed m job task_id (refused status) = Relates-pure _
  Relates-import_claimed m job task_id (taken row) =
      Relates-bind (Relates-catch_all (Relates-import_polled m job row.version task_id))
        λ r. Relates-after_import env c m job row.version task_id r

  pub Relates-handle_asset_import :
      (m : JobStageMessage) (job : Job) → Relates R (handle_asset_import env c m job)
  unfolding handle_asset_import
  Relates-handle_asset_import m job = Relates-bind (Relates-ensure _ _) λ _.
      Relates-bind (Relates-validate env c _) λ task_id.
        Relates-bind (Relates-claim env c m job) λ x. Relates-import_claimed m job task_id x
