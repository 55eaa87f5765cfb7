-- ===== src/Worker/Video/Claim.antt =====
-- `_claim` of services/video_job_worker.py.
use ange_media_gateway.Base.{
  true, ◌&&◌, Option, none, some, [], ◌∷◌, ◌==◌, string_eq, if◌then◌else◌,
}
use ange_media_gateway.Store.{
  stage_eq, status_eq, running, text, Job, JobAttempt, Env, Exec, pure, reads, now_iso,
  db_transaction, ◌>>=◌,
}
use ange_media_gateway.Events.{append_job_event}
use ange_media_gateway.Attempts.{
  create_job_attempt, new_attempt, job_attempt, running_stage_attempt,
}
use ange_media_gateway.Jobs.{claim_job_attempt}
use ange_media_gateway.Message.{JobStageMessage}
use ange_media_gateway.Worker.Image.{nonempty_text}
use ange_media_gateway.Worker.Runtime.{is_resumable, duplicate, inflight, stale}
use ange_media_gateway.Worker.Video.{
  VideoJobWorker, Claimed, refused, taken, attempt_started_payload, ambiguous_or,
}

module _ (env : Env) (c : VideoJobWorker) where
  -- An attempt of this number is there: it is resumed where that repeats no submission.
  unfoldable pub claim_existing : JobStageMessage → Job → JobAttempt → Exec Claimed
  claim_existing m job attempt =
      if attempt.status == running && is_resumable m.stage job
      then (append_job_event env m.job_id "worker_attempt_resumed"
            (some (attempt_started_payload m)) none none (some m.stage)
          >>= λ _. pure (taken job))
      else pure (refused (ambiguous_or duplicate m.stage))

  -- After `claim_job_attempt`.
  unfoldable pub claim_recorded : JobStageMessage → Job → Option Job → Exec Claimed
  claim_recorded m job none = pure (refused stale)
  claim_recorded m job (some row) = do
    attempt ← create_job_attempt env (record (new_attempt m.job_id m.attempt m.stage) {
      worker_kind = some c.worker_kind;
      status = running;
      detail = some (("dispatch_id", text m.dispatch_id) ∷ ("trace_id", text m.trace_id) ∷ []);
    })
    append_job_event env m.job_id "worker_attempt_started" (some (attempt_started_payload m))
          (some job.status) (some running) (some m.stage)
        >>= λ _. pure (taken row)

  -- No attempt of this number: refused while another attempt of the stage runs.
  unfoldable pub claim_fresh : JobStageMessage → Job → Option JobAttempt → Exec Claimed
  unfolding claim_recorded
  claim_fresh m job (some other) =
      append_job_event env m.job_id "worker_stage_inflight" (some (attempt_started_payload m)) none
        none (some m.stage)
      >>= λ _. pure (refused (ambiguous_or inflight m.stage))
  claim_fresh m job none = do
    started_at ← now_iso env
    row ←
        claim_job_attempt env m.job_id job.version m.stage m.attempt c.worker_kind "agnes_video"
          (nonempty_text job.model) started_at true
    claim_recorded m job row

  -- `_claim`
  unfoldable pub claim : JobStageMessage → Job → Exec Claimed
  unfolding claim_existing claim_fresh
  claim m job = db_transaction (
      reads (job_attempt m.job_id m.attempt) >>= λ existing. elim existing [
        | some attempt ↦ claim_existing m job attempt
        | none ↦ reads (running_stage_attempt m.job_id m.stage) >>= claim_fresh m job
      ])
