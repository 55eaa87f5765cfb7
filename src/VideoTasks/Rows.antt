-- ===== src/VideoTasks/Rows.antt =====
-- What `upsert_video_task` does to the table of tasks.
use ange_media_gateway.Base.{other_row-upserted, find_row-upserted, merged, ◌≢◌}
use ange_media_gateway.VideoTasks.{
  is_external_id, TaskResult, write_video_task, validate_provider_external_id, upsert_video_task,
  set_video_task,
}
use ange_media_gateway.Base.{
  Bool, ◌≢◌, ℕ, String, string_eq, find_row, some, List, refl, ◌≡◌, Bool-cases, inl, inr, ◌==◌,
}
use mathlib.Core.Option.{some-injective}
use Prim.Native.Nat.{suc}
use ange_media_gateway.Text.{sanitize_error_text}
use ange_media_gateway.VideoTasks.{text_or, safe_task_summary}
use ange_media_gateway.Base.{
  Option, none, or_else, ap, ◌∙◌, ==_iff, find_row_sound, if◌then◌else◌, true, false,
}
use ange_media_gateway.Store.{
  ok, World, Env, modify_db, reads, now_iso, pure, ensure, VideoTask, ◌>>=◌,
}

keeps_id : (new old : VideoTask) → (set_video_task new old).task_id ≡ old.task_id
unfolding set_video_task
keeps_id new old = refl

-- The row of a task after it was stored, column by column, and those of the others. `created` and
-- `updated` are the two readings of the clock.
pub record TaskStored (env : Env) (is_local : String → Bool) (id prompt model status : String)
    (r : TaskResult) (duration created updated : ℕ) (a b : List VideoTask) : Type 0 where
  pub row : VideoTask
  pub row_after : find_row (λ t. t.task_id == id) b ≡ some row
  pub same_id : row.task_id ≡ id
  pub has_status : row.status ≡ text_or (sanitize_error_text env (some status) 64) "unknown"
  pub hides_remote : row.remote_video_url ≡ ""
  pub local_url : is_local r.video_url ≡ true → row.video_url ≡ r.video_url
  pub no_other_url : is_local r.video_url ≡ false → row.video_url ≡ ""
  pub has_path : row.local_path ≡ r.local_path
  pub has_summary : row.raw_json ≡ safe_task_summary r id status
  pub has_provider : row.provider ≡ "agnes_video"
  pub has_duration : row.duration_ms ≡ duration
  pub was_updated : row.updated_at ≡ updated
  -- A task that was there keeps what it was made with.
  pub first_kept :
      (old : VideoTask)
      → find_row (λ t. t.task_id == id) a ≡ some old
      → (row.prompt ≡ old.prompt) × (row.model ≡ old.model) × (row.created_at ≡ old.created_at)
  pub first_set :
      find_row (λ t. t.task_id == id) a ≡ none
      → (row.prompt ≡ or_else (sanitize_error_text env (some prompt) 8000) "")
        × (row.model ≡ or_else (sanitize_error_text env (some model) 256) "")
        × (row.created_at ≡ created)
  pub others_after :
      (other : String)
      → other ≢ id
      → find_row (λ t. t.task_id == other) b ≡ find_row (λ t. t.task_id == other) a

-- The columns of the row that is there afterwards.
record Columns (new row : VideoTask) (o : Option VideoTask) : Type 0 where
  pub written :
      (row.status ≡ new.status)
      × (row.remote_video_url ≡ new.remote_video_url)
      × (row.video_url ≡ new.video_url)
      × (row.local_path ≡ new.local_path)
      × (row.raw_json ≡ new.raw_json)
      × (row.provider ≡ new.provider)
      × (row.duration_ms ≡ new.duration_ms)
      × (row.updated_at ≡ new.updated_at)
  pub kept :
      (old : VideoTask)
      → o ≡ some old
      → (row.prompt ≡ old.prompt) × (row.model ≡ old.model) × (row.created_at ≡ old.created_at)
  pub fresh :
      o ≡ none
      → (row.prompt ≡ new.prompt) × (row.model ≡ new.model) × (row.created_at ≡ new.created_at)

merged-Columns :
    (new : VideoTask) (o : Option VideoTask)
    → Columns new (merged (λ t. t.task_id) set_video_task new o) o
unfolding set_video_task
merged-Columns new none = record {
  written = (refl, refl, refl, refl, refl, refl, refl, refl);
  kept = λ old h. cc;
  fresh = λ h. (refl, refl, refl);
}
merged-Columns new (some row) = record {
  written = (refl, refl, refl, refl, refl, refl, refl, refl);
  kept = λ old h.
      let same = some-injective _ _ h in
      (ap (λ x. x.prompt) same, ap (λ x. x.model) same, ap (λ x. x.created_at) same);
  fresh = λ h. cc;
}

-- A record of a task that returns has stored the row under its id: the sanitized status (or
-- "unknown"), the local address and path of the result (a remote address is not stored), its
-- summary, the duration and the instant. A row that was there keeps its prompt, its model and its
-- creation time; a new one has the sanitized prompt and model, and is created now. The rows that
-- other ids find are the same.
pub upsert_video_task_stores :
    (env : Env) (is_local : String → Bool) (id prompt model status : String) (r : TaskResult)
    (duration : ℕ) (w : World)
    → (upsert_video_task env is_local id prompt model status r duration w).0 ≡ ok tt
    → TaskStored env is_local id prompt model status r duration
        (env.clock w.ticks)
        (env.clock (suc w.ticks))
        w.db.video_tasks
        (upsert_video_task env is_local id prompt model status r duration w).1.db.video_tasks
unfolding upsert_video_task validate_provider_external_id write_video_task ◌>>=◌ ensure pure now_iso
    reads modify_db
upsert_video_task_stores env is_local id prompt model status r duration w h =
    elim (Bool-cases (is_external_id id)) [
      | inl y ↦
          let new : VideoTask = record {
            task_id = id;
            prompt = or_else (sanitize_error_text env (some prompt) 8000) "";
            model = or_else (sanitize_error_text env (some model) 256) "";
            status = text_or (sanitize_error_text env (some status) 64) "unknown";
            video_url = if is_local r.video_url then r.video_url else "";
            remote_video_url = "";
            local_path = r.local_path;
            raw_json = safe_task_summary r id status;
            created_at = env.clock w.ticks;
            updated_at = env.clock (suc w.ticks);
            provider = "agnes_video";
            duration_ms = duration;
          } in
          let old = find_row (λ t. t.task_id == id) w.db.video_tasks in
          let columns = merged-Columns new old in
          let (c0, c1, c2, c3, c4, c5, c6, c7) = columns.written in
          rw y (record {
            row = merged (λ t. t.task_id) set_video_task new old;
            row_after =
                find_row-upserted (λ t. t.task_id) set_video_task keeps_id new w.db.video_tasks;
            same_id = (==_iff _ id).0 (
                find_row_sound (λ t. t.task_id == id) _ _
                  (find_row-upserted (λ t. t.task_id) set_video_task keeps_id new
                    w.db.video_tasks));
            has_status = c0;
            hides_remote = c1;
            local_url = λ l. c2 ∙ rw l refl;
            no_other_url = λ l. c2 ∙ rw l refl;
            has_path = c3;
            has_summary = c4;
            has_provider = c5;
            has_duration = c6;
            was_updated = c7;
            first_kept = columns.kept;
            first_set = columns.fresh;
            others_after =
                other_row-upserted (λ t. t.task_id) set_video_task keeps_id new w.db.video_tasks;
          })
      | inr n ↦ cc
    ]
