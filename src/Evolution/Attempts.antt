-- ===== src/Evolution/Attempts.antt =====
-- The life of an attempt, and the statements that write attempts.
use Status.{canceled, failed}
use ange_media_gateway.Evolution.Paths.{StatusMove, StatusPath-trans, StatusPath}
use ange_media_gateway.Evolution.Free.{
  Free-video_task, Free-assets, Free-generation, Free-lost, Free-release, Free-mark_published,
  Free-claim_dispatches, Free-create_dispatch, Free-summary, Free-claim, Free-event,
  Free-transition, Free-insert_job,
}
use ange_media_gateway.Evolution.Primitives.{Primitives}
use ange_media_gateway.Evolution.Relates.{
  tables_order, IsTablePreorder, OnTables, Relates-modify_db, Relates-ensure, Relates-reads,
  Relates-pure, Relates-uuid4_hex, Relates-bind, Relates-now_iso, Relates, IsPreorder,
}
use ange_media_gateway.Attempts.{
  is_attempt, AttemptEnd, completion_statuses, NewAttempt, finish_job_attempt, create_job_attempt,
  set_attempt_end, job_attempt, or_now,
}
use ange_media_gateway.Base.{
  find_row-update_rows, arith, ◌==◌, inr, inl, ◌&&◌, update_rows, Bool-cases, sym, true, Option,
  ◌≢◌, subst, find_row-append, ◌∙◌, contains, ℕ, ◌≡◌, ◌++◌, List, String, none, some, [], ◌∷◌, refl,
}
use ange_media_gateway.Store.{
  VideoTask, Generation, Asset, World, status_beq_iff, succeeded, status_eq, running, JobDispatch,
  Env, ◌>>=◌, JobEvent, Job, JobAttempt, Status, Db,
}

-- `b` is a later row of the attempt `a`: who ran what does not change, and an attempt that has
-- ended does not change at all.
pub record AttemptEvolves (a b : JobAttempt) : Type 0 where
  pub same_id : b.id ≡ a.id
  pub same_job : b.job_id ≡ a.job_id
  pub same_number : b.attempt_number ≡ a.attempt_number
  pub same_stage : b.stage ≡ a.stage
  pub same_worker : b.worker_kind ≡ a.worker_kind
  pub same_start : b.started_at ≡ a.started_at
  pub ended_is_final : a.status ≢ running → b ≡ a
  pub status_path : StatusPath a.status b.status

AttemptEvolves-refl : (a : JobAttempt) → AttemptEvolves a a
AttemptEvolves-refl a = record {
  same_id = refl;
  same_job = refl;
  same_number = refl;
  same_stage = refl;
  same_worker = refl;
  same_start = refl;
  ended_is_final = λ _. refl;
  status_path = StatusPath.here;
}

AttemptEvolves-trans :
    (a b c : JobAttempt) → AttemptEvolves a b → AttemptEvolves b c → AttemptEvolves a c
AttemptEvolves-trans a b c p q = record {
  same_id = q.same_id ∙ p.same_id;
  same_job = q.same_job ∙ p.same_job;
  same_number = q.same_number ∙ p.same_number;
  same_stage = q.same_stage ∙ p.same_stage;
  same_worker = q.same_worker ∙ p.same_worker;
  same_start = q.same_start ∙ p.same_start;
  ended_is_final = λ ended.
      let same = p.ended_is_final ended in
      q.ended_is_final (subst (λ (x : JobAttempt). x.status ≢ running) (sym same) ended) ∙ same;
  status_path = StatusPath-trans p.status_path q.status_path;
}

-- Every attempt of the first state is there in the second, as a later row.
pub record AttemptsEvolve (a b : Db) : Type 0 where
  pub later :
      (id : String) (n : ℕ) (x : JobAttempt)
      → job_attempt id n a ≡ some x
      → (y : JobAttempt) × (job_attempt id n b ≡ some y) × AttemptEvolves x y

pub attempts_order : IsTablePreorder AttemptsEvolve
attempts_order = record {
  same_law = λ a. record { later = λ id n x h. (x, h, AttemptEvolves-refl x) };
  chain_law = λ a b c p q. record {
    later = λ id n x h.
        let (y, hy, xy) = p.later id n x h in
        let (z, hz, yz) = q.later id n y hy in (z, hz, AttemptEvolves-trans x y z xy yz);
  };
}

instance pub attempts_world_order : IsPreorder (OnTables AttemptsEvolve)
attempts_world_order = tables_order attempts_order

same_attempts : (a b : Db) → b.job_attempts ≡ a.job_attempts → AttemptsEvolve a b
unfolding job_attempt
same_attempts a b e = record { later = λ id n x h. (x, rw e h, AttemptEvolves-refl x) }

free_jobs :
    (a : World) (l : List Job)
    → OnTables AttemptsEvolve a (record a { db = record (a.db) { jobs = l } })
free_jobs a l = same_attempts a.db _ refl

free_events :
    (a : World) (l : List JobEvent)
    → OnTables AttemptsEvolve a (record a { db = record (a.db) { job_events = l } })
free_events a l = same_attempts a.db _ refl

free_dispatches :
    (a : World) (l : List JobDispatch)
    → OnTables AttemptsEvolve a (record a { db = record (a.db) { job_dispatches = l } })
free_dispatches a l = same_attempts a.db _ refl

added_attempt :
    (a : Db) (x : JobAttempt)
    → AttemptsEvolve a (record a { job_attempts = a.job_attempts ++ x ∷ [] })
unfolding job_attempt
added_attempt a x = record {
  later = λ id n y h.
      (y, rw (find_row-append (is_attempt id n) a.job_attempts x, h), AttemptEvolves-refl y);
}

Relates-or_now : (env : Env) (o : Option ℕ) → Relates (OnTables AttemptsEvolve) (or_now env o)
unfolding or_now
Relates-or_now env none = Relates-now_iso env
Relates-or_now env (some t) = Relates-pure t

Relates-create_attempt :
    (env : Env) (n : NewAttempt) → Relates (OnTables AttemptsEvolve) (create_job_attempt env n)
unfolding create_job_attempt
Relates-create_attempt env n = Relates-bind (Relates-uuid4_hex env) λ _.
    Relates-bind (Relates-or_now env n.started_at) λ _. Relates-bind (Relates-reads _) λ _.
      Relates-bind (Relates-ensure _ _)
        λ _. Relates-bind (Relates-modify_db _ (λ w. added_attempt w.db _)) λ _. Relates-pure _

-- What may end an attempt.
end_path : (s : Status) → contains completion_statuses s ≡ true → StatusPath running s
end_path succeeded h = StatusPath.onward StatusPath.here StatusMove.succeed
end_path failed h = StatusPath.onward StatusPath.here StatusMove.fail_running
end_path canceled h = StatusPath.onward StatusPath.here StatusMove.cancel_running
end_path _ h = absurd (ground arith)

AttemptEvolves-set_attempt_end :
    (env : Env) (e : AttemptEnd) (a : JobAttempt)
    → contains completion_statuses e.status ≡ true
    → a.status ≡ running
    → AttemptEvolves a (set_attempt_end env e a)
unfolding set_attempt_end
AttemptEvolves-set_attempt_end env e a h is_running = record {
  same_id = refl;
  same_job = refl;
  same_number = refl;
  same_stage = refl;
  same_worker = refl;
  same_start = refl;
  ended_is_final = λ ended. absurd (ended is_running);
  status_path = subst (λ s. StatusPath s e.status) (sym is_running) (end_path e.status h);
}

ended_attempt :
    (env : Env) (id : String) (n : ℕ) (e : AttemptEnd) (a : Db)
    → contains completion_statuses e.status ≡ true
    → AttemptsEvolve a (record a {
      job_attempts =
          update_rows
            (λ x. is_attempt id n x && x.status == running)
            (set_attempt_end env e)
            a.job_attempts;
    })
unfolding job_attempt
ended_attempt env id n e a ok_status = record {
  later = λ i m x h.
      let p = λ (y : JobAttempt). is_attempt id n y && y.status == running in
      let found =
        find_row-update_rows (is_attempt i m) p (set_attempt_end env e) a.job_attempts
          (λ y. unfold set_attempt_end in refl) in
      elim (Bool-cases (p x)) [
        | inl y ↦ (
          set_attempt_end env e x,
          rw (found, h) (rw y),
          AttemptEvolves-set_attempt_end env e x ok_status
              (ground (arith, status_beq_iff x.status running)),
        )
        | inr no_match ↦ (x, rw (found, h) (rw no_match), AttemptEvolves-refl x)
      ];
}

Relates-finish_attempt :
    (env : Env) (id : String) (n : ℕ) (e : AttemptEnd)
    → Relates (OnTables AttemptsEvolve) (finish_job_attempt env id n e)
unfolding finish_job_attempt ◌>>=◌
Relates-finish_attempt env id n e = elim (Bool-cases (contains completion_statuses e.status)) [
  | inl y ↦ rw y (record { at = λ w. ended_attempt env id n e w.db y })
  | inr no_match ↦ rw no_match (record { at = λ w. attempts_order.same_law w.db })
]

free_generations :
    (a : World) (l : List Generation)
    → OnTables AttemptsEvolve a (record a { db = record (a.db) { generations = l } })
free_generations a l = same_attempts a.db _ refl

free_assets :
    (a : World) (l : List Asset)
    → OnTables AttemptsEvolve a (record a { db = record (a.db) { assets = l } })
free_assets a l = same_attempts a.db _ refl

free_video_tasks :
    (a : World) (l : List VideoTask)
    → OnTables AttemptsEvolve a (record a { db = record (a.db) { video_tasks = l } })
free_video_tasks a l = same_attempts a.db _ refl

instance pub attempts_primitives : Primitives (OnTables AttemptsEvolve)
attempts_primitives = record {
  statements = record {
    order = attempts_world_order;
    of_transition = Free-transition free_jobs (Free-event free_events);
    of_claim = Free-claim free_jobs;
    of_summary = Free-summary free_jobs;
    of_event = Free-event free_events;
    of_create_attempt = Relates-create_attempt;
    of_finish_attempt = Relates-finish_attempt;
    of_generation = Free-generation free_generations;
    of_assets = Free-assets free_assets;
    of_video_task = Free-video_task free_video_tasks;
  };
  of_insert_job = Free-insert_job free_jobs;
  of_create_dispatch = Free-create_dispatch free_dispatches;
  of_claim_dispatches = Free-claim_dispatches free_dispatches;
  of_mark_published = Free-mark_published free_dispatches;
  of_release = Free-release free_dispatches;
  of_lost = Free-lost free_dispatches;
}
