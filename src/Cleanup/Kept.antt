-- ===== src/Cleanup/Kept.antt =====
-- What the cleanup of jobs keeps and what it leaves behind.
use ange_media_gateway.Base.{◌≤◌, count_rows}
use ange_media_gateway.Base.{sort_by, take, ℕ}
use ange_media_gateway.Cleanup.{is_before, is_among, has_job, is_newer}
use ange_media_gateway.Base.{
  length, string_eq, true, map, contains, find_row, String, false, Option, All, Bool, List,
  select_rows, [], ◌∷◌, ◌==◌, none, some, ◌≡◌, ◌&&◌,
}
use ange_media_gateway.Jobs.{is_terminal}
use ange_media_gateway.Store.{Status, status_eq, World, Job, Db}

-- The rows of the tables after the jobs with these ids are gone.
pub record NoTrace (ids : List String) (db : Db) : Type 0 where
  pub no_jobs : All (λ j. contains ids j.id ≡ false) db.jobs
  pub no_events : All (λ e. contains ids e.job_id ≡ false) db.job_events
  pub no_attempts : All (λ a. contains ids a.job_id ≡ false) db.job_attempts
  pub no_dispatches : All (λ d. contains ids d.job_id ≡ false) db.job_dispatches
  pub no_assets : All (λ a. has_job ids a.job_id ≡ false) db.assets
  pub no_generations : All (λ g. has_job ids g.job_id ≡ false) db.generations

-- What a cleanup does, where `chosen` tells the jobs that it is asked to delete and `limit` how many
-- it deletes at most.
pub record CleanedUp (chosen : Job → Bool) (limit : ℕ) (a b : Db) : Type 0 where
  -- A job that it is not asked to delete is found as before.
  pub others_stay :
      (id : String) (j : Job)
      → find_row (λ k. k.id == id) a.jobs ≡ some j
      → chosen j ≡ false
      → find_row (λ k. k.id == id) b.jobs ≡ some j
  -- Nothing is left of a job that is gone.
  pub no_trace :
      (id : String) (j : Job)
      → find_row (λ k. k.id == id) a.jobs ≡ some j
      → find_row (λ k. k.id == id) b.jobs ≡ none
      → NoTrace (id ∷ []) b
  -- Where the limit is not exceeded, all that it is asked to delete are gone.
  pub chosen_gone :
      (id : String) (j : Job)
      → count_rows chosen a.jobs ≤ limit
      → find_row (λ k. k.id == id) a.jobs ≡ some j
      → chosen j ≡ true
      → find_row (λ k. k.id == id) b.jobs ≡ none
  pub assets_stay : length b.assets ≡ length a.assets
  pub generations_stay : length b.generations ≡ length a.generations

-- The jobs that a cleanup is asked to delete: ended, with one of the statuses, one of the ids where
-- there are any, and created before the instant where there is one.
abbrev pub is_chosen : List String → Option ℕ → List Status → Job → Bool
is_chosen ids before statuses j =
    (is_terminal j.status && contains statuses j.status)
    && (is_among ids j.id && is_before before j.created_at)

module _ (ids : List String) (before : Option ℕ) (statuses : List Status) (limit : ℕ)
    (w : World) where
  -- The ids of the jobs that go.
  abbrev picked : List String
  picked =
      map (λ j. j.id)
        (take limit (sort_by is_newer (select_rows (is_chosen ids before statuses) w.db.jobs)))
