-- ===== src/Evolution/FollowUps.antt =====
-- The rows that the video worker adds to the outbox: one delivery schedules at most one other.
use ange_media_gateway.Evolution.Services.{
  Relates-record_task, Relates-available_at, Relates-exhausted, Relates-fail_result,
}
use ange_media_gateway.Worker.Image.{call_provider}
use ange_media_gateway.Outbox.{create_job_dispatch, insert_dispatch_row}
use ange_media_gateway.Evolution.Relates.{
  Relates-if, Relates-bind, Relates-now_iso, Relates-uuid4_hex, Relates-pure, Relates-ensure,
  Relates-reads, Relates, OnTables,
}
use ange_media_gateway.Worker.Video.Schedule.{
  rescheduling, fail_result, retry_again, schedule, persist_schedule, retry, dispatch_stage,
}
use ange_media_gateway.Worker.Video.{Failure, Failing, Scheduling, VideoJobWorker}
use ange_media_gateway.Store.{
  DispatchStatus, raw_int, object, Job, Payload, raised, Stage, ok, Outcome, Exec, modify_db,
  db_transaction, JobDispatch, Env, World,
}
use ange_media_gateway.Message.{as_dict, JobStageMessage}
use ange_media_gateway.Evolution.SameOutbox.{SameOutbox, outbox_order, outbox_statements}
use ange_media_gateway.Evolution.OneTime.{IsOneTime, only_silent, silent_first, silent_last, if_so}
use ange_media_gateway.Store
use ange_media_gateway.Base.{◌+◌, String, some, ℕ, [], ◌∷◌, ◌⊎◌, ◌≡◌, refl, inl, inr, sym, ◌++◌}

-- A row that carries a message on: for the same job, with the next attempt number, not yet due to
-- any publisher.
pub record IsFollowUp (m : JobStageMessage) (d : JobDispatch) : Type 0 where
  pub same_job : d.job_id ≡ m.job_id
  pub next_attempt :
      (stage : Stage) × (rest : Payload) × (d.payload_json
        ≡ object stage (some (raw_int (m.attempt + 1))) rest)
  pub is_pending : d.status ≡ DispatchStatus.pending
  pub untried : d.attempt_count ≡ 0

-- The outbox is the same, or has one row more, at its end.
pub record FollowedUp (m : JobStageMessage) (a b : World) : Type 0 where
  pub added :
      (b.db.job_dispatches ≡ a.db.job_dispatches)
      ⊎ ((d : JobDispatch) × (b.db.job_dispatches ≡ a.db.job_dispatches ++ d ∷ []) × IsFollowUp m d)

abbrev pub Outbox : World → World → Type 0
Outbox = OnTables SameOutbox

instance pub followed_one_time : {m : JobStageMessage} → IsOneTime Outbox (FollowedUp m)
followed_one_time = record {
  from_law = λ a b h. record { added = inl h.same_rows };
  after_law = λ a b c h k. record { added = rw (sym h.same_rows) k.added };
  before_law = λ a b c h k. record { added = rw k.same_rows h.added };
}

module _ (env : Env) (c : VideoJobWorker) (m : JobStageMessage) where
  abbrev pub FollowsUp : {A : Type 0} → Exec A → Type 0
  FollowsUp x = Relates (FollowedUp m) x

  transaction_follows : {A : Type 0} {x : Exec A} → FollowsUp x → FollowsUp (db_transaction x)
  unfolding db_transaction
  transaction_follows {A = A} {x = x} h = record { at = λ w. go w (x w).0 (x w).1 (h.at w) }
    where
      go :
          (a : World) (r : Outcome A) (w : World)
          → FollowedUp m a w
          → FollowedUp m a (Store.end_transaction a.db r w).1
      go a (ok x) w p = p
      go a (raised e) w p = record { added = inl refl }

  appended :
      (d : JobDispatch)
      → IsFollowUp m d
      → FollowsUp (modify_db (λ db. record db { job_dispatches = db.job_dispatches ++ d ∷ [] }))
  unfolding modify_db
  appended d h = record { at = λ w. record { added = inr (d, refl, h) } }

  insert-FollowsUp : (d : JobDispatch) → IsFollowUp m d → FollowsUp (insert_dispatch_row d)
  unfolding insert_dispatch_row
  insert-FollowsUp d h = silent_first {S = Outbox} (Relates-reads _) λ fits.
      silent_first {S = Outbox} (Relates-ensure fits _)
        λ _. silent_last {S = Outbox} (appended d h) λ _. Relates-pure _

  dispatch_stage-FollowsUp :
      (next_stage : Stage) (at : ℕ) → FollowsUp (dispatch_stage env c m next_stage at)
  unfolding dispatch_stage create_job_dispatch as_dict
  dispatch_stage-FollowsUp next_stage at = silent_first {S = Outbox} (Relates-ensure _ _) λ _.
      silent_first {S = Outbox} (Relates-uuid4_hex env) λ id.
        silent_first {S = Outbox} (Relates-now_iso env) λ now. insert-FollowsUp _ (record {
          same_job = refl;
          next_attempt = (next_stage, _, refl);
          is_pending = refl;
          untried = refl;
        })

  persist_schedule-FollowsUp :
      (job : Job) (v : ℕ) (s : Scheduling) (at : ℕ)
      → FollowsUp (persist_schedule env c m job v s at)
  unfolding persist_schedule
  persist_schedule-FollowsUp job v s at = transaction_follows (
      silent_first {S = Outbox} (outbox_statements.of_transition env _ _ _ _ _ _) λ _.
        silent_first {S = Outbox} (Relates-now_iso env) λ _.
          silent_first {S = Outbox} (outbox_statements.of_finish_attempt env _ _ _) λ _.
            silent_last {S = Outbox} (dispatch_stage-FollowsUp s.next_stage at) λ _.
              Relates-bind (outbox_statements.of_event env _ _ _ _ _ _)
                λ _. Relates-record_task env c job _ _)

  pub schedule-FollowsUp :
      (job : Job) (v : ℕ) (s : Scheduling) → FollowsUp (schedule env c m job v s)
  unfolding schedule
  schedule-FollowsUp job v s =
      silent_first {S = Outbox}
        (Relates-if _ (Relates-available_at env c c.policy m.attempt) (Relates-now_iso env))
        λ at. persist_schedule-FollowsUp job v s at

  pub fail_result-FollowsUp :
      (job : Job) (v : ℕ) (f : Failing) → FollowsUp (fail_result env c m job v f)
  fail_result-FollowsUp job v f = only_silent {S = Outbox} (Relates-fail_result env c m job v f)

  pub retry-FollowsUp :
      (job : Job) (v : ℕ) (task_id provider_status error_code : String) (error : Failure)
      → FollowsUp (retry env c m job v task_id provider_status error_code error)
  unfolding retry retry_again
  retry-FollowsUp job v task_id provider_status error_code error =
      silent_first {S = Outbox} (Relates-exhausted env c c.policy m.attempt job.started_at) λ over.
        if_so over (λ _. search fail_result-FollowsUp)
          (silent_last {S = Outbox}
            (schedule-FollowsUp job v
              (rescheduling env c m task_id provider_status error_code error))
            λ _. Relates-pure _)

  pub call_provider-Outbox :
      {A : Type 0} (f : ℕ → Outcome A) → Relates Outbox (call_provider m.job_id m.stage f)
  unfolding call_provider
  call_provider-Outbox f = record { at = λ w. record { same_rows = refl } }
