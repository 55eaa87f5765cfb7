-- ===== src/Evolution/Deliveries.antt =====
-- The handlers of the video worker schedule at most one other delivery.
use ange_media_gateway.Base.{or_else}
use ange_media_gateway.Text.{is_empty}
use ange_media_gateway.Evolution.Services.{
  Relates-exhausted, Relates-record_submitted_recovery, Relates-reject_claimed, Relates-claim,
  Relates-validate,
}
use ange_media_gateway.VideoPolling.{pending, completed, failed, PollDecision, VideoPollResult}
use ange_media_gateway.Evolution.Relates.{
  Relates-raise, Relates-bind, Relates-pure, Relates, Relates-catch_all, Relates-ensure,
}
use ange_media_gateway.Worker.Runtime.{StageResult}
use Prim.Native.String.{String}
use Prim.Native.Nat.{ℕ}
use ange_media_gateway.Worker.Video.Poll.{after_poll, schedule_result, handle_poll, poll_claimed}
use ange_media_gateway.Worker.Video.Submit.{
  reject_claimed, resume_submitted, submit_taken, handle_submit, submit_claimed, after_schedule,
  after_submit,
}
use ange_media_gateway.Message.{JobStageMessage}
use ange_media_gateway.Worker.Video.{taken, refused, Claimed, VideoSubmitResult, VideoJobWorker}
use ange_media_gateway.Worker.Video.Claim.{claim}
use ange_media_gateway.Store.{
  World, stale_job_version, video_provider_disabled, ok, pure, raised, ◌>>=◌, Outcome, Exec, Job,
  Env,
}
use ange_media_gateway.Evolution.SameOutbox.{outbox_order, outbox_statements}
use ange_media_gateway.Evolution.OneTime.{only_silent, silent_first, silent_last, caught, if_so}
use ange_media_gateway.Evolution.FollowUps.{
  retry-FollowsUp, schedule-FollowsUp, fail_result-FollowsUp, call_provider-Outbox, FollowedUp,
  FollowsUp, Outbox, followed_one_time,
}

module _ (env : Env) (c : VideoJobWorker) (m : JobStageMessage) where
  result_follows :
      {A : Type 0} {x : Exec A} (r : StageResult)
      → FollowsUp env c m x
      → FollowsUp env c m (x >>= λ _. pure r)
  result_follows r h = silent_last {S = Outbox} h λ _. Relates-pure r

  after_schedule-FollowsUp :
      (v : ℕ) (s : VideoSubmitResult) (r : Outcome (Unit {0}))
      → Relates Outbox (after_schedule env c m v s r)
  unfolding after_schedule
  after_schedule-FollowsUp v s (ok done) = Relates-pure _
  after_schedule-FollowsUp v s (raised stale_job_version) = Relates-pure _
  after_schedule-FollowsUp v s (raised _) =
      Relates-bind (Relates-record_submitted_recovery env c m v _ _) λ _. Relates-raise _

  after_submit-FollowsUp :
      (job : Job) (v : ℕ) (r : Outcome VideoSubmitResult)
      → FollowsUp env c m (after_submit env c m job v r)
  unfolding after_submit
  after_submit-FollowsUp job v (raised video_provider_disabled) = search fail_result-FollowsUp
  after_submit-FollowsUp job v (raised _) = search fail_result-FollowsUp
  after_submit-FollowsUp job v (ok s) =
      silent_last {S = Outbox} (search (caught, schedule-FollowsUp))
        λ r. after_schedule-FollowsUp v s r

  resume_submitted-FollowsUp :
      (job : Job) (v : ℕ) → FollowsUp env c m (resume_submitted env c m job v)
  unfolding resume_submitted
  resume_submitted-FollowsUp job v =
      silent_first {S = Outbox} (Relates-validate env c _)
        λ task_id. search (result_follows, schedule-FollowsUp)

  submit_taken-FollowsUp :
      (job : Job) (request : String) (v : ℕ)
      → FollowsUp env c m (submit_taken env c m job request v)
  unfolding submit_taken
  submit_taken-FollowsUp job request v =
      if_so (is_empty (or_else job.external_task_id ""))
        (λ _.
          silent_first {S = Outbox} (Relates-catch_all (call_provider-Outbox env c m _))
            λ r. after_submit-FollowsUp job v r)
        (resume_submitted-FollowsUp job v)

  submit_claimed-FollowsUp :
      (job : Job) (request : String) (x : Claimed)
      → FollowsUp env c m (submit_claimed env c m job request x)
  unfolding submit_claimed
  submit_claimed-FollowsUp job request (refused status) = only_silent {S = Outbox} (Relates-pure _)
  submit_claimed-FollowsUp job request (taken row) = submit_taken-FollowsUp job request row.version

  parsed-FollowsUp :
      (job : Job) (r : Outcome String)
      → FollowsUp env c m (elim r [
        | raised e ↦ claim env c m job >>= reject_claimed env c m job e
        | ok request ↦ claim env c m job >>= submit_claimed env c m job request
      ])
  parsed-FollowsUp job (raised e) =
      only_silent {S = Outbox}
        (Relates-bind (Relates-claim env c m job) λ x. Relates-reject_claimed env c m job e x)
  parsed-FollowsUp job (ok request) =
      silent_first {S = Outbox} (Relates-claim env c m job)
        λ x. submit_claimed-FollowsUp job request x

  handle_submit-FollowsUp : (job : Job) → FollowsUp env c m (handle_submit env c m job)
  unfolding handle_submit
  handle_submit-FollowsUp job =
      silent_first {S = Outbox} (Relates-ensure _ _)
        λ _. parsed-FollowsUp job (c.parse job.input_json)

  schedule_result-FollowsUp :
      (job : Job) (v : ℕ) (task_id : String) (r : VideoPollResult) (d : PollDecision)
      → FollowsUp env c m (schedule_result env c m job v task_id r d)
  unfolding schedule_result
  schedule_result-FollowsUp job v task_id r failed = search fail_result-FollowsUp
  schedule_result-FollowsUp job v task_id r completed = search (result_follows, schedule-FollowsUp)
  schedule_result-FollowsUp job v task_id r pending = search (result_follows, schedule-FollowsUp)

  after_poll-FollowsUp :
      (job : Job) (v : ℕ) (task_id : String) (r : Outcome VideoPollResult)
      → FollowsUp env c m (after_poll env c m job v task_id r)
  unfolding after_poll
  after_poll-FollowsUp job v task_id (raised video_provider_disabled) = search fail_result-FollowsUp
  after_poll-FollowsUp job v task_id (raised _) = search retry-FollowsUp
  after_poll-FollowsUp job v task_id (ok polled) = schedule_result-FollowsUp job v task_id polled _

  poll_claimed-FollowsUp :
      (job : Job) (task_id : String) (x : Claimed)
      → FollowsUp env c m (poll_claimed env c m job task_id x)
  unfolding poll_claimed
  poll_claimed-FollowsUp job task_id (refused status) = only_silent {S = Outbox} (Relates-pure _)
  poll_claimed-FollowsUp job task_id (taken row) =
      silent_first {S = Outbox} (Relates-exhausted env c c.policy m.attempt job.started_at) λ over.
        if_so over (λ _. search fail_result-FollowsUp)
          (silent_first {S = Outbox} (Relates-catch_all (call_provider-Outbox env c m _))
            λ r. after_poll-FollowsUp job row.version task_id r)

  handle_poll-FollowsUp : (job : Job) → FollowsUp env c m (handle_poll env c m job)
  unfolding handle_poll
  handle_poll-FollowsUp job = silent_first {S = Outbox} (Relates-ensure _ _) λ _.
      silent_first {S = Outbox} (Relates-validate env c _) λ task_id.
        silent_first {S = Outbox} (Relates-claim env c m job)
          λ x. poll_claimed-FollowsUp job task_id x

  -- One delivery of a message to the submit or to the poll stage of the video worker leaves the outbox
  -- as it is, or adds one row at its end: a pending, untried row for the same job, with the next
  -- attempt number.
  pub one_follow_up :
      (job : Job) (w : World)
      → FollowedUp m w (handle_submit env c m job w).1
        × FollowedUp m w (handle_poll env c m job w).1
  one_follow_up job w = ((handle_submit-FollowsUp job).at w, (handle_poll-FollowsUp job).at w)
