-- ===== src/Dispatcher.antt =====
-- services/job_dispatcher.py: leases due outbox rows, publishes each, and settles it. Instants and
-- delays are numbers of microseconds, the resolution of `timedelta`.
pub mod Backoff
pub mod Counts
use ange_media_gateway.Base.{
  ℕ, suc, ◌+◌, ◌*◌, ◌-◌, ◌^◌, min, max, Bool, true, false, not, ◌||◌, String, Option, none, some,
  List, [], ◌∷◌, contains, string_eq, nat_eq, if◌then◌else◌, or_else, leb, length,
}
use ange_media_gateway.Store.{
  Stage, stage_eq, stage_text, raw_int, raw_text, PayloadJson, not_json, not_object, object, number,
  text, flag, JobDispatch, Env, Exec, Outcome, ok, raised, Error, invalid_queue_message, type_error,
  value_error, outbox_claim_lost, other_error, raise, pure, now_iso, uuid4_hex, try_except,
  catch_all, ◌>>=◌,
}
use ange_media_gateway.Text.{take_chars, is_empty}
use ange_media_gateway.Events.{append_job_event}
use ange_media_gateway.Message.{
  JobStageMessage, make_message, executable_stages, message_schema_version,
}
use ange_media_gateway.Outbox.{claim_pending_dispatches, mark_dispatch_published, release_dispatch}

pub record DispatchBatchResult : Type 0 where
  pub claimed : ℕ
  pub published : ℕ
  pub retried : ℕ
  pub failed : ℕ

pub record JobDispatcher : Type 0 where
  pub batch_size : ℕ
  pub lease_seconds : ℕ
  pub max_attempts : ℕ
  pub retry_base : ℕ
  pub retry_max : ℕ

abbrev pub second : ℕ
second = 1000000

-- `JobDispatcher.__init__`; the floor of the base delay is 0.1 seconds.
unfoldable pub job_dispatcher :
    (batch_size lease_seconds max_attempts retry_base retry_max : ℕ) → JobDispatcher
job_dispatcher batch_size lease_seconds max_attempts retry_base retry_max = record {
  batch_size = max 1 batch_size;
  lease_seconds = max 1 lease_seconds;
  max_attempts = max 1 max_attempts;
  retry_base = max 100000 retry_base;
  retry_max = max (max 100000 retry_base) retry_max;
}

-- `_retry_delay`: the product of a float and an int raises once the int, a power of two, is too large
-- for a float. Below that the float of a product that is cut off at the maximum is taken as exact.
unfoldable pub retry_delay : JobDispatcher → ℕ → Outcome ℕ
retry_delay c attempt =
    if leb 1024 (attempt - 1)
    then raised (other_error "OverflowError")
    else ok (min (c.retry_base * 2 ^ (attempt - 1)) c.retry_max)

-- `_message_from_dispatch`
unfoldable pub message_from_dispatch : JobDispatch → PayloadJson → Outcome JobStageMessage
unfolding make_message stage_text
message_from_dispatch d not_json = raised invalid_queue_message
message_from_dispatch d not_object = raised invalid_queue_message
message_from_dispatch d (object stage attempt rest) =
    make_message (raw_int message_schema_version) (raw_text d.job_id) (raw_text (stage_text stage))
      (or_else attempt (raw_int 1)) (raw_text d.id) (raw_text d.id)

-- `_safe_stage`
abbrev pub safe_stage : PayloadJson → Option Stage
safe_stage (object stage attempt rest) =
    if contains executable_stages stage then some stage else none
safe_stage _ = none

-- `isinstance(exc, (InvalidQueueMessage, TypeError, ValueError))`
abbrev pub is_permanent : Error → Bool
is_permanent invalid_queue_message = true
is_permanent type_error = true
is_permanent value_error = true
is_permanent _ = false

-- How the body of the outer `try` ends: the counters as they are then, `broker_message_id`, and
-- whether an exception left the body.
pub record Progress : Type 0 where
  pub counts : DispatchBatchResult
  pub broker_message_id : Option String
  pub ended : Outcome (Unit {0})

abbrev pub one_published : DispatchBatchResult → DispatchBatchResult
one_published r = record r { published = suc r.published }

abbrev pub one_retried : DispatchBatchResult → DispatchBatchResult
one_retried r = record r { retried = suc r.retried }

abbrev pub one_failed : DispatchBatchResult → DispatchBatchResult
one_failed r = record r { failed = suc r.failed }

abbrev pub lift {ℓ} : {A : Type ℓ} → Outcome A → Exec A
lift (ok a) = pure a
lift (raised e) = raise e

-- `except OutboxClaimLost: failed += 1`
abbrev pub lost_to_failed : DispatchBatchResult → Error → Option (Exec DispatchBatchResult)
lost_to_failed r outbox_claim_lost = some (pure (one_failed r))
lost_to_failed r _ = none

-- `sanitize_error_text(str(exc)) or "queue publish failed"`
abbrev pub publish_error_text : Env → String → String
publish_error_text env e =
    let t = take_chars 1000 (env.redact e) in if is_empty t then "queue publish failed" else t

-- `publish` is the queue backend; `describe` is `str` of an exception.
module _ (env : Env) (c : JobDispatcher) (publish : String → JobStageMessage → Exec String)
    (describe : Error → String) where
  -- Up to and with `queue_backend.publish`.
  unfoldable pub send : JobDispatch → Exec (JobStageMessage × String)
  unfolding message_from_dispatch
  send d = do
    m ← lift (message_from_dispatch d d.payload_json)
    event ←
        append_job_event env d.job_id "dispatch_claimed"
          (some (
            ("dispatch_id", text d.id)
            ∷ ("dispatch_attempt", number d.attempt_count)
            ∷ ("trace_id", text m.trace_id)
            ∷ []))
          none none (some m.stage)
    broker_message_id ← publish d.topic m
    pure (m, broker_message_id)

  -- The body of the outer `try` behind `publish`. An exception of the event behind the
  -- acknowledgement is caught by the inner `try`; one of the acknowledgement leaves the body.
  unfoldable pub acknowledge :
      String → JobDispatch → JobStageMessage → String → DispatchBatchResult → Exec Progress
  acknowledge claim_token d m broker_message_id r = do
    acknowledged ← catch_all (mark_dispatch_published env d.id claim_token (some broker_message_id))
    elim acknowledged [
      | raised e ↦
          pure (record { counts = r; broker_message_id = some broker_message_id; ended = raised e })
      | ok row ↦
          catch_all (
            append_job_event env d.job_id "dispatch_published"
              (some (("dispatch_id", text d.id) ∷ ("trace_id", text m.trace_id) ∷ [])) none none
              (some m.stage))
          >>= λ logged. pure (record {
            counts = one_published r;
            broker_message_id = some broker_message_id;
            ended = ok tt;
          })
    ]

  -- The body of the outer `try`.
  unfoldable pub publish_row : String → JobDispatch → DispatchBatchResult → Exec Progress
  unfolding send acknowledge
  publish_row claim_token d r = do
    sent ← catch_all (send d)
    elim sent [
      | raised e ↦ pure (record { counts = r; broker_message_id = none; ended = raised e })
      | ok p ↦ acknowledge claim_token d p.0 p.1 r
    ]

  abbrev pub is_terminal_failure : JobDispatch → Error → Bool
  is_terminal_failure d e = is_permanent e || leb c.max_attempts d.attempt_count

  -- The outer `except` where no broker id is known: the row is released for another try, or failed.
  -- The delay is computed outside the inner `try`, so its exception leaves the round.
  unfoldable pub give_back :
      ℕ → String → JobDispatch → Error → DispatchBatchResult → Exec DispatchBatchResult
  unfolding retry_delay
  give_back now claim_token d e r =
      let safe_error = publish_error_text env (describe e) in
      let terminal = is_terminal_failure d e in
      lift (retry_delay c d.attempt_count) >>= λ delay.
      try_except
        (release_dispatch env d.id claim_token safe_error (some (now + delay)) terminal
          >>= λ released.
              append_job_event env d.job_id
                (if terminal then "dispatch_failed" else "dispatch_retry_scheduled")
                (some (
                  ("dispatch_id", text d.id)
                  ∷ ("error", text safe_error)
                  ∷ ("retryable", flag (not terminal))
                  ∷ []))
                none none (safe_stage d.payload_json)
              >>= λ event. pure (if terminal then one_failed r else one_retried r))
        (lost_to_failed r)

  -- The outer `except`: with a broker id the lease is left to expire.
  unfoldable pub handle_failure :
      ℕ
      → String
      → JobDispatch
      → Option String
      → Error
      → DispatchBatchResult
      → Exec DispatchBatchResult
  unfolding give_back
  handle_failure now claim_token d (some broker_message_id) e r = pure (one_failed r)
  handle_failure now claim_token d none e r = give_back now claim_token d e r

  -- One turn of the loop.
  unfoldable pub dispatch_row_once :
      ℕ → String → JobDispatch → DispatchBatchResult → Exec DispatchBatchResult
  unfolding publish_row handle_failure
  dispatch_row_once now claim_token d r = do
    p ← publish_row claim_token d r
    elim p.ended [
      | raised e ↦ handle_failure now claim_token d p.broker_message_id e p.counts
      | ok done ↦ pure p.counts
    ]

  unfoldable pub dispatch_rows :
      ℕ → String → List JobDispatch → DispatchBatchResult → Exec DispatchBatchResult
  unfolding dispatch_row_once
  dispatch_rows now claim_token [] r = pure r
  dispatch_rows now claim_token (d ∷ rest) r =
      dispatch_row_once now claim_token d r >>= λ counts. dispatch_rows now claim_token rest counts

  unfoldable pub dispatch_once : Exec DispatchBatchResult
  unfolding dispatch_rows
  dispatch_once = do
    now ← now_iso env
    claim_token ← uuid4_hex env
    dispatches ←
        claim_pending_dispatches claim_token (now + c.lease_seconds * second) c.batch_size now
    dispatch_rows now claim_token dispatches
        (record { claimed = length dispatches; published = 0; retried = 0; failed = 0 })
