-- ===== src/Evolution/Updates.antt =====
-- The updates of repositories/jobs.py other than a transition: every row that they write is a
-- later row of the same job.
use ange_media_gateway.Base.{true, refl, ℕ, ◌≡◌, String, Bool, Option, arith, ◌==◌, nat_eq}
use ange_media_gateway.Store.{Stage, Job, Env, stage_eq, status_eq, ◌>>=◌}
use ange_media_gateway.Jobs.{
  execute_update_jobs, claim_job_attempt, update_job_attempt_summary, is_claimable,
  set_claim_columns, set_summary_columns,
}
use ange_media_gateway.Evolution.Moves.{jobs_order, Evolves, JobsEvolve}
use ange_media_gateway.Evolution.Paths.{StatusPath, StagePath, StatusPath-start}
use ange_media_gateway.Evolution.Relates.{
  OnTables, Relates-option, Relates, Relates-pure, Relates-bind, Relates-now_iso, Relates-reads,
  Relates-if,
}
use ange_media_gateway.Evolution.Transitions.{JobsEvolve-update}

pub Relates-execute_update_jobs :
    (p : Job → Bool) (f : Job → Job)
    → ((j : Job) → (f j).id ≡ j.id)
    → ((j : Job) → p j ≡ true → Evolves j (f j))
    → Relates (OnTables JobsEvolve) (execute_update_jobs p f)
unfolding execute_update_jobs ◌>>=◌
Relates-execute_update_jobs p f keeps moves = record {
  at = λ w. JobsEvolve-update p f _ _ refl keeps (λ i j h selected. moves j selected);
}

Evolves-set_claim_columns :
    (env : Env) (id : String) (v : ℕ) (stage : Stage) (allow_running : Bool) (provider : String)
    (model : Option String) (started_at attempt_count : ℕ) (worker_kind : String) (now : ℕ)
    (j : Job)
    → is_claimable id v stage allow_running j ≡ true
    → Evolves j (set_claim_columns env provider model started_at attempt_count worker_kind now j)
unfolding set_claim_columns
Evolves-set_claim_columns env id v stage allow_running provider model started_at attempt_count
      worker_kind now j h =
    record {
      same_id = refl;
      same_kind = refl;
      same_hash = refl;
      same_hash_version = refl;
      same_created = refl;
      version_grows = omega arith;
      change_is_versioned = λ e. absurd (omega arith);
      status_path = StatusPath-start j.status (ground arith);
      stage_path = StagePath.here;
    }

Evolves-set_summary_columns :
    (env : Env) (attempt_count : ℕ) (worker_kind : String) (now : ℕ) (j : Job)
    → Evolves j (set_summary_columns env attempt_count worker_kind now j)
unfolding set_summary_columns
Evolves-set_summary_columns env attempt_count worker_kind now j = record {
  same_id = refl;
  same_kind = refl;
  same_hash = refl;
  same_hash_version = refl;
  same_created = refl;
  version_grows = omega arith;
  change_is_versioned = λ e. absurd (omega arith);
  status_path = StatusPath.here;
  stage_path = StagePath.here;
}

module _ (env : Env) (id : String) where
  pub Relates-claim_job_attempt :
      (v : ℕ) (stage : Stage) (attempt_count : ℕ) (worker_kind provider : String)
      (model : Option String) (started_at : ℕ) (allow_running : Bool)
      → Relates (OnTables JobsEvolve) (
          claim_job_attempt env id v stage attempt_count worker_kind provider model started_at
            allow_running)
  unfolding claim_job_attempt
  Relates-claim_job_attempt v stage attempt_count worker_kind provider model started_at
        allow_running =
      Relates-bind (Relates-now_iso env) λ now.
        Relates-bind
          (Relates-execute_update_jobs _ _ (λ j. unfold set_claim_columns in refl)
            (Evolves-set_claim_columns env id v stage allow_running provider model started_at
              attempt_count worker_kind now))
          λ rowcount. Relates-if (rowcount == 1) (Relates-reads _) (Relates-pure _)

  pub Relates-update_job_attempt_summary :
      (stage : Stage) (attempt_count : ℕ) (worker_kind : String)
      → Relates
          (OnTables JobsEvolve)
          (update_job_attempt_summary env id stage attempt_count worker_kind)
  unfolding update_job_attempt_summary
  Relates-update_job_attempt_summary stage attempt_count worker_kind =
      Relates-bind (Relates-reads _) λ found. Relates-option found (Relates-pure _) λ existing.
        Relates-if _ (Relates-pure _) (
          Relates-bind (Relates-now_iso env) λ now.
            Relates-bind
              (Relates-execute_update_jobs _ _ (λ j. unfold set_summary_columns in refl)
                (λ j h. Evolves-set_summary_columns env attempt_count worker_kind now j))
              λ rowcount. Relates-if (rowcount == 1) (Relates-reads _) (Relates-pure _))
