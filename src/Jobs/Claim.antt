-- ===== src/Jobs/Claim.antt =====
-- `claim_job_attempt` and `update_job_attempt_summary` of repositories/jobs.py.
use ange_media_gateway.Base.{
  ℕ, suc, max, Bool, not, ◌&&◌, ◌||◌, String, Option, none, some, ◌==◌, string_eq, nat_eq,
  if◌then◌else◌,
}
use ange_media_gateway.Store.{
  queued, running, Stage, status_eq, stage_eq, Job, Env, Exec, pure, reads, now_iso, ◌>>=◌,
}
use ange_media_gateway.Text.{sanitize_error_text}
use ange_media_gateway.Jobs.Tables.{is_active, job_from_connection}
use ange_media_gateway.Jobs.Transition.{is_version_of, execute_update_jobs}

-- The `WHERE` test of the claim: a version, a stage, and `queued` or, if allowed, `running`.
abbrev pub is_claimable : String → ℕ → Stage → Bool → Job → Bool
is_claimable job_id expected_version stage allow_running j =
    is_version_of job_id expected_version j
    && j.stage == stage
    && (j.status == queued || allow_running && j.status == running)

abbrev pub first_of_two {ℓ} : {A : Type ℓ} → Option A → A → Option A
first_of_two none a = some a
first_of_two (some old) a = some old

unfoldable pub set_claim_columns : Env → String → Option String → ℕ → ℕ → String → ℕ → Job → Job
unfolding sanitize_error_text
set_claim_columns env provider model started_at attempt_count worker_kind now j = record j {
  status = running;
  provider = sanitize_error_text env (some provider) 256;
  model = sanitize_error_text env model 256;
  started_at = first_of_two j.started_at started_at;
  attempt_count = max j.attempt_count attempt_count;
  worker_kind = sanitize_error_text env (some worker_kind) 128;
  updated_at = now;
  version = suc j.version;
}

unfoldable pub claim_job_attempt :
    Env
    → (job_id : String) (expected_version : ℕ) (stage : Stage) (attempt_count : ℕ)
      (worker_kind provider : String) (model : Option String) (started_at : ℕ)
      (allow_running : Bool)
    → Exec (Option Job)
unfolding set_claim_columns execute_update_jobs
claim_job_attempt env job_id expected_version stage attempt_count worker_kind provider model
      started_at allow_running =
    do
      now ← now_iso env
      rowcount ←
          execute_update_jobs (is_claimable job_id expected_version stage allow_running)
            (set_claim_columns env provider model started_at attempt_count worker_kind now)
      if rowcount == 1 then reads (job_from_connection job_id) else pure none

abbrev pub is_summary_target : String → ℕ → Stage → Job → Bool
is_summary_target job_id version stage j =
    is_version_of job_id version j && j.stage == stage && is_active j.status

unfoldable pub set_summary_columns : Env → ℕ → String → ℕ → Job → Job
unfolding sanitize_error_text
set_summary_columns env attempt_count worker_kind now j = record j {
  attempt_count = max j.attempt_count attempt_count;
  worker_kind = sanitize_error_text env (some worker_kind) 128;
  updated_at = now;
  version = suc j.version;
}

unfoldable pub update_job_attempt_summary : Env → String → Stage → ℕ → String → Exec (Option Job)
unfolding set_summary_columns execute_update_jobs
update_job_attempt_summary env job_id stage attempt_count worker_kind = do
  found ← reads (job_from_connection job_id)
  elim found [
    | none ↦ pure none
    | some existing ↦
        if not (is_active existing.status) || not (existing.stage == stage) then pure none else do
          now ← now_iso env
          rowcount ←
              execute_update_jobs (is_summary_target job_id existing.version stage)
                (set_summary_columns env attempt_count worker_kind now)
          if rowcount == 1 then reads (job_from_connection job_id) else pure none
  ]
