-- ===== src/Cleanup.antt =====
-- `cleanup_jobs` of repositories/jobs.py: jobs that have ended are deleted with their events, attempts
-- and dispatches; their assets and generations stay, without the job.
pub mod Kept
pub mod Deleted
use ange_media_gateway.Text.{is_empty}
use ange_media_gateway.Jobs.{is_terminal}
use ange_media_gateway.Base.{
  sort_by, min, max, length, update_rows, take, not, string_eq, map, count_rows, ltb, contains, leb,
  select_rows, true, false, if◌then◌else◌, Bool, List, String, Option, ℕ, [], ◌∷◌, ◌&&◌, ◌==◌, none,
  some,
}
use ange_media_gateway.Store.{
  db_transaction, value_error, ensure, status_eq, modify_db, pure, Db, reads, Status, Exec, Job,
  ◌>>=◌, ◌>>◌,
}

pub record CleanupResult : Type 0 where
  pub deleted_jobs : ℕ
  pub deleted_events : ℕ
  pub deleted_attempts : ℕ
  pub deleted_dispatches : ℕ
  pub unlinked_assets : ℕ
  pub unlinked_generations : ℕ

abbrev pub nothing_deleted : CleanupResult
nothing_deleted = record {
  deleted_jobs = 0;
  deleted_events = 0;
  deleted_attempts = 0;
  deleted_dispatches = 0;
  unlinked_assets = 0;
  unlinked_generations = 0;
}

-- `ORDER BY created_at DESC`; of equal instants, the row inserted first.
abbrev pub is_newer : Job → Job → Bool
is_newer j k = leb k.created_at j.created_at

-- `created_at < ?`, where an instant is given.
abbrev pub is_before : Option ℕ → ℕ → Bool
is_before none created_at = true
is_before (some instant) created_at = ltb created_at instant

-- `id IN (…)`, where there are ids.
abbrev pub is_among : List String → String → Bool
is_among [] id = true
is_among (x ∷ xs) id = contains (x ∷ xs) id

abbrev pub has_job : List String → Option String → Bool
has_job ids none = false
has_job ids (some id) = contains ids id

-- The statements behind the selection.
unfoldable pub delete_jobs : List String → Exec CleanupResult
delete_jobs ids = do
  assets ← reads (λ db. count_rows (λ a. has_job ids a.job_id) db.assets)
  modify_db (λ db. record db {
    assets = update_rows (λ a. has_job ids a.job_id) (λ a. record a { job_id = none }) db.assets;
  })
  generations ← reads (λ db. count_rows (λ g. has_job ids g.job_id) db.generations)
  modify_db (λ db. record db {
    generations =
        update_rows (λ g. has_job ids g.job_id) (λ g. record g { job_id = none }) db.generations;
  })
  events ← reads (λ db. count_rows (λ e. contains ids e.job_id) db.job_events)
  modify_db (λ db. record db {
    job_events = select_rows (λ e. not (contains ids e.job_id)) db.job_events;
  })
  attempts ← reads (λ db. count_rows (λ a. contains ids a.job_id) db.job_attempts)
  modify_db (λ db. record db {
    job_attempts = select_rows (λ a. not (contains ids a.job_id)) db.job_attempts;
  })
  dispatches ← reads (λ db. count_rows (λ d. contains ids d.job_id) db.job_dispatches)
  modify_db (λ db. record db {
    job_dispatches = select_rows (λ d. not (contains ids d.job_id)) db.job_dispatches;
  })
  jobs ← reads (λ db. count_rows (λ j. contains ids j.id) db.jobs)
  modify_db (λ db. record db { jobs = select_rows (λ j. not (contains ids j.id)) db.jobs })
  pure (record {
    deleted_jobs = jobs;
    deleted_events = events;
    deleted_attempts = attempts;
    deleted_dispatches = dispatches;
    unlinked_assets = assets;
    unlinked_generations = generations;
  })

unfoldable pub delete_selected : List String → Exec CleanupResult
unfolding delete_jobs
delete_selected [] = pure nothing_deleted
delete_selected (id ∷ ids) = delete_jobs (id ∷ ids)

-- The ids that the transaction selects.
unfoldable pub selected_ids :
    (ids : List String)
    → (before : Option ℕ) → (statuses : List Status) → (limit : ℕ) → Db
    → List String
selected_ids ids before statuses limit db =
    map (λ j. j.id)
      (take limit (
        sort_by is_newer (
          select_rows
            (λ j.
              contains statuses j.status && (is_among ids j.id && is_before before j.created_at))
            db.jobs)))

-- `strip` is that of Python.
unfoldable pub cleanup_jobs :
    (strip : String → String)
    → (job_ids : List String) → (before : Option ℕ) → (statuses : List Status) → (limit : ℕ)
    → Exec CleanupResult
unfolding selected_ids delete_selected
cleanup_jobs strip job_ids before statuses limit =
    let status_values = select_rows is_terminal statuses in
    let id_values = select_rows (λ id. not (is_empty id)) (map strip job_ids) in
    ensure (ltb 0 (length status_values)) value_error
    >> db_transaction (
        reads (selected_ids id_values before status_values (max 1 (min limit 500)))
        >>= delete_selected)
