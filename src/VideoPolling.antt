-- ===== src/VideoPolling.antt =====
-- services/video_polling.py: when a video is asked for again, when it is given up, and what the
-- answer of the provider means. Instants and delays are numbers of microseconds.
pub mod Policy
use ange_media_gateway.Base.{
  ℕ, ◌+◌, ◌-◌, ◌*◌, ◌/◌, ◌^◌, min, max, Bool, true, false, ◌&&◌, ◌||◌, String, Option, none, some,
  [], ◌∷◌, ◌++◌, contains, string_eq, if◌then◌else◌, leb, ltb,
}
use ange_media_gateway.Store.{
  Payload, number, text, flag, Env, Exec, Outcome, ok, raised, value_error, pure, now_iso, ◌>>=◌,
}
use ange_media_gateway.Text.{is_prefix, is_empty}

pub record VideoPipelinePolicy : Type 0 where
  pub poll_interval : ℕ
  pub max_poll : ℕ
  pub max_attempts : ℕ
  pub max_backoff : ℕ

-- The constructor with `__post_init__`.
unfoldable pub video_pipeline_policy :
    (poll_interval max_poll max_attempts max_backoff : ℕ) → Outcome VideoPipelinePolicy
video_pipeline_policy poll_interval max_poll max_attempts max_backoff =
    if leb poll_interval 0 || leb max_poll 0
    then raised value_error
    else if ltb max_attempts 3 || ltb 1000 max_attempts
    then raised value_error
    else ok (record {
      poll_interval = poll_interval;
      max_poll = max_poll;
      max_attempts = max_attempts;
      max_backoff = max_backoff;
    })

-- `delay_seconds`
unfoldable pub delay : VideoPipelinePolicy → ℕ → ℕ
delay p attempt = min p.max_backoff (p.poll_interval * 2 ^ (min (attempt - 1) 6))

unfoldable pub available_at : Env → VideoPipelinePolicy → ℕ → Exec ℕ
unfolding delay
available_at env p attempt = now_iso env >>= λ now. pure (now + delay p attempt)

-- An absent start never runs out of time; the clock is read only when the start is known.
unfoldable pub exhausted : Env → VideoPipelinePolicy → ℕ → Option ℕ → Exec Bool
exhausted env p attempt none = pure (leb p.max_attempts attempt)
exhausted env p attempt (some started_at) =
    if leb p.max_attempts attempt
    then pure true
    else now_iso env >>= λ now. pure (leb (started_at + p.max_poll) now)

-- `VideoPollResult` of services/video_execution.py
pub record VideoPollResult : Type 0 where
  pub task_id : String
  pub provider_status : String
  pub video_url : Option String
  pub duration_ms : ℕ
  pub error_message : Option String

pub data PollDecision : Type 0 where
  completed failed pending : PollDecision

unfoldable pub poll_decision : VideoPollResult → PollDecision
poll_decision r =
    if contains ("completed" ∷ "succeeded" ∷ "success" ∷ "done" ∷ []) r.provider_status
    then completed
    else if contains ("failed" ∷ "error" ∷ "cancelled" ∷ "canceled" ∷ []) r.provider_status
    then failed
    else pending

abbrev pub asset_url_entry : Option String → Payload
unfolding is_prefix
asset_url_entry none = []
asset_url_entry (some url) =
    if is_prefix "/generated/" url then ("asset_url", text url) ∷ [] else []

abbrev pub history_entry : Option String → Payload
history_entry none = []
history_entry (some id) = if is_empty id then [] else ("history_id", text id) ∷ []

-- `dumps` is `json.dumps` with compact separators.
unfoldable pub video_output_summary :
    Env
    → (dumps : Payload → String) → (task_id provider_status : String) → (asset_count : ℕ)
    → (asset_url history_id : Option String) → String
unfolding asset_url_entry
video_output_summary env dumps task_id provider_status asset_count asset_url history_id = dumps (
    env.redact_payload (
      ("task_id", text task_id)
        ∷ ("provider_status", text provider_status)
        ∷ ("localized", flag (ltb 0 asset_count))
        ∷ ("has_asset", flag (ltb 0 asset_count))
        ∷ ("asset_count", number asset_count)
        ∷ asset_url_entry asset_url
      ++ history_entry history_id))
