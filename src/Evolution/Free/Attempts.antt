-- ===== src/Evolution/Free/Attempts.antt =====
-- A relation that leaves the attempts free is respected by the statements on attempts.
use ange_media_gateway.Attempts.{
  AttemptEnd, NewAttempt, create_job_attempt, finish_job_attempt, or_now,
}
use ange_media_gateway.Evolution.Relates.{
  Relates-modify_db, Relates-reads, Relates-ensure, Relates-pure, Relates-uuid4_hex, Relates-bind,
  Relates-now_iso, Relates, IsPreorder,
}
use ange_media_gateway.Base.{ℕ, String, Option, List, none, some}
use ange_media_gateway.Store.{World, Env, JobAttempt}

module _ {R : World → World → Type 0} ⦃o : IsPreorder R⦄
    (free : (a : World) (l : List JobAttempt)
      → R a (record a { db = record (a.db) { job_attempts = l } })) where
  Free-or_now : (env : Env) (o : Option ℕ) → Relates R (or_now env o)
  unfolding or_now
  Free-or_now env none = Relates-now_iso env
  Free-or_now env (some t) = Relates-pure t

  pub Free-create_attempt : (env : Env) (n : NewAttempt) → Relates R (create_job_attempt env n)
  unfolding create_job_attempt
  Free-create_attempt env n = Relates-bind (Relates-uuid4_hex env) λ _.
      Relates-bind (Free-or_now env n.started_at) λ _. Relates-bind (Relates-reads _) λ _.
        Relates-bind (Relates-ensure _ _)
          λ _. Relates-bind (Relates-modify_db _ (λ a. free a _)) λ _. Relates-pure _

  pub Free-finish_attempt :
      (env : Env) (id : String) (attempt_number : ℕ) (e : AttemptEnd)
      → Relates R (finish_job_attempt env id attempt_number e)
  unfolding finish_job_attempt
  Free-finish_attempt env id attempt_number e =
      Relates-bind (Relates-ensure _ _)
        λ _. Relates-bind (Relates-modify_db _ (λ a. free a _)) λ _. Relates-reads _
