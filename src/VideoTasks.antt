-- ===== src/VideoTasks.antt =====
-- repositories/video_tasks.py, and `validate_provider_external_id` of security.py: the public record
-- of a video task, one row for each task id of the provider.
pub mod Rows
use ange_media_gateway.Base.{
  ℕ, Bool, true, false, not, ◌&&◌, ◌||◌, String, Option, none, some, [], ◌∷◌, ◌++◌, ◌==◌, string_eq,
  find_row, update_rows, if◌then◌else◌, is_some, or_else, leb,
}
use ange_media_gateway.Store.{
  VideoTask, TaskSummary, Env, Exec, Outcome, ok, raised, value_error, raise, pure, reads,
  modify_db, now_iso, ensure, ◌>>=◌, ◌>>◌,
}
use ange_media_gateway.Text.{
  sanitize_error_text, take_chars, is_empty, is_stripped, has_control, count_chars,
}

-- The test of `validate_provider_external_id`.
unfoldable pub is_external_id : String → Bool
unfolding is_stripped has_control
is_external_id text =
    not (is_empty text) && is_stripped text && leb (count_chars text) 256 && not (has_control text)

unfoldable pub validate_provider_external_id : String → Exec String
unfolding is_external_id
validate_provider_external_id text = ensure (is_external_id text) value_error >> pure text

-- The keys of `result` that the row is made of.
pub record TaskResult : Type 0 where
  pub model : String
  pub localized : Bool
  pub video_url : String
  pub local_path : String
  pub duration_ms : ℕ

-- The results that the worker passes: `task_id` and `status` only.
abbrev pub bare_result : TaskResult
bare_result = record {
  model = "";
  localized = false;
  video_url = "";
  local_path = "";
  duration_ms = 0;
}

-- `_safe_task_summary`
unfoldable pub safe_task_summary : TaskResult → String → String → TaskSummary
safe_task_summary result task_id status = record {
  task_id = task_id;
  status = status;
  provider = "agnes_video";
  model = take_chars 160 result.model;
  localized = result.localized;
  has_video_url = not (is_empty result.video_url);
  has_local_path = not (is_empty result.local_path);
  duration_ms = result.duration_ms;
}

-- `text or default`
abbrev pub text_or : Option String → String → String
text_or none d = d
text_or (some s) d = if is_empty s then d else s

-- The columns that `ON CONFLICT(task_id) DO UPDATE` sets.
unfoldable pub set_video_task : VideoTask → VideoTask → VideoTask
set_video_task new old = record old {
  status = new.status;
  video_url = new.video_url;
  remote_video_url = new.remote_video_url;
  local_path = new.local_path;
  raw_json = new.raw_json;
  provider = new.provider;
  duration_ms = new.duration_ms;
  updated_at = new.updated_at;
}

unfoldable pub write_video_task : VideoTask → Exec (Unit {0})
unfolding set_video_task
write_video_task new = do
  there ← reads (λ db. is_some (find_row (λ t. t.task_id == new.task_id) db.video_tasks))
  modify_db (λ db. record db {
    video_tasks =
        if there
        then update_rows (λ t. t.task_id == new.task_id) (set_video_task new) db.video_tasks
        else db.video_tasks ++ new ∷ [];
  })

-- `is_local` is `is_generated_local_url`.
unfoldable pub upsert_video_task :
    Env
    → (is_local : String → Bool) → (task_id prompt model status : String) → TaskResult
    → ℕ
    → Exec (Unit {0})
unfolding validate_provider_external_id safe_task_summary write_video_task sanitize_error_text
upsert_video_task env is_local raw_id prompt model status result duration_ms = do
  task_id ← validate_provider_external_id raw_id
  created_at ← now_iso env
  updated_at ← now_iso env
  write_video_task (record {
    task_id = task_id;
    prompt = or_else (sanitize_error_text env (some prompt) 8000) "";
    model = or_else (sanitize_error_text env (some model) 256) "";
    status = text_or (sanitize_error_text env (some status) 64) "unknown";
    video_url = if is_local result.video_url then result.video_url else "";
    remote_video_url = "";
    local_path = result.local_path;
    raw_json = safe_task_summary result task_id status;
    created_at = created_at;
    updated_at = updated_at;
    provider = "agnes_video";
    duration_ms = duration_ms;
  })
