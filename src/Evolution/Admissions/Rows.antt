-- ===== src/Evolution/Admissions/Rows.antt =====
-- The rows that each insert of an admission adds.
use mathlib.Core.Option.{none}
use ange_media_gateway.Text.{is_empty}
use ange_media_gateway.Outbox.{insert_dispatch_row, create_job_dispatch}
use ange_media_gateway.Events.{insert_event_row, append_job_event}
use ange_media_gateway.Jobs.{
  insert_job_error, job_row, NewJob, new_identifier, insert_job, job_from_connection, job_row_fits,
  insert_job_row,
}
use ange_media_gateway.Base.{
  ap, Bool-cases, Option-cases, string_eq, ==_iff, ◌==◌, find_row-append, [], ◌∷◌, ◌++◌, some,
  Option, ℕ, String, ◌≡◌, ◌∙◌, refl, inl, inr, arith,
}
use ange_media_gateway.Store.{
  raise, pure, Db, now_iso, JobEvent, Stage, Status, DispatchStatus, Payload, JobDispatch, Job,
  PayloadJson, Error, ◌>>=◌, World, Env, ok, raised,
}
use ange_media_gateway.Store.Success.{bind_returns}
use ange_media_gateway.Admission.{require_job, or_now_iso}

insert_row_returns :
    (j : Job) (w : World) (o : Option Job)
    → (insert_job_row j w).0 ≡ ok o
    → (o ≡ some j)
      × ((insert_job_row j w).1 ≡ record w { db = record (w.db) { jobs = w.db.jobs ++ j ∷ [] } })
unfolding insert_job_row job_row_fits job_from_connection ◌>>=◌
insert_row_returns j w o h =
    let key = find_row-append (λ x. x.id == j.id) w.db.jobs j in
    let self = (==_iff j.id j.id).1 refl in grind (arith, key, self)

pub event_tables :
    (env : Env) (id event_type : String) (payload : Option Payload) (from to : Option Status)
    (stage : Option Stage) (w : World) (e : JobEvent)
    → (append_job_event env id event_type payload from to stage w).0 ≡ ok e
    → (e.job_id ≡ id)
      × ((append_job_event env id event_type payload from to stage w).1.db
          ≡ record (w.db) { job_events = w.db.job_events ++ e ∷ [] })
unfolding append_job_event insert_event_row ◌>>=◌
event_tables env id event_type payload from to stage w e h = ground arith

pub dispatch_tables :
    (env : Env) (id topic : String) (p : PayloadJson) (t : Option ℕ) (w : World) (d : JobDispatch)
    → (create_job_dispatch env id topic p t w).0 ≡ ok d
    → (d.job_id ≡ id)
      × (d.status ≡ DispatchStatus.pending)
      × ((create_job_dispatch env id topic p t w).1.db
          ≡ record (w.db) { job_dispatches = w.db.job_dispatches ++ d ∷ [] })
unfolding create_job_dispatch insert_dispatch_row ◌>>=◌
dispatch_tables env id topic p t w d h = ground arith

identifier_tables :
    (env : Env) (o : Option String) (w : World) → (new_identifier env o w).1.db ≡ w.db
unfolding new_identifier ◌>>=◌
identifier_tables env none w = refl
identifier_tables env (some id) w = elim (Bool-cases (is_empty id)) [
  | inl empty ↦ rw empty refl
  | inr full ↦ rw full refl
]

inserted_tables :
    (env : Env) (n : NewJob) (w : World) (o : Option Job)
    → ((now_iso env >>= λ now.
          new_identifier env n.job_id >>= λ id. insert_job_row (job_row env n id now))
        w).0
      ≡ ok o
    → (id : String) × (now : ℕ) × (o ≡ some (job_row env n id now))
      × (((now_iso env >>= λ now.
              new_identifier env n.job_id >>= λ id. insert_job_row (job_row env n id now))
            w).1.db
          ≡ record (w.db) { jobs = w.db.jobs ++ job_row env n id now ∷ [] })
unfolding now_iso
inserted_tables env n w o h =
    let (now, h0, h1, e1) = bind_returns (now_iso env) _ w o h in
    let (id, h2, h3, e2) = bind_returns (new_identifier env n.job_id) _ _ o h1 in
    let (is_new, e3) = insert_row_returns (job_row env n id now) _ o h3 in
    let one_more : Db → Db = λ d. record d { jobs = d.jobs ++ job_row env n id now ∷ [] } in
    let unread = ap one_more (identifier_tables env n.job_id (now_iso env w).1) in
    (id, now, is_new, ap (λ x. x.1.db) (e1 ∙ e2) ∙ ap (λ x. x.db) e3 ∙ unread)

raised_returns : (e : Error) (o : Option Job) → raised e ≡ ok o → ⊥
raised_returns e o h = cc

pub insert_job_tables :
    (env : Env) (n : NewJob) (w : World) (o : Option Job)
    → (insert_job env n w).0 ≡ ok o
    → (id : String) × (now : ℕ) × (o ≡ some (job_row env n id now))
      × ((insert_job env n w).1.db
          ≡ record (w.db) { jobs = w.db.jobs ++ job_row env n id now ∷ [] })
unfolding insert_job raise
insert_job_tables env n w o h = elim (Option-cases (insert_job_error n)) [
  | inr (e, raises) ↦
      absurd (let refused = rw (raises, insert_job) at h in raised_returns e o refused)
  | inl none_raised ↦
      rw (none_raised, insert_job) (inserted_tables env n w o (rw (none_raised, insert_job) at h))
]

pub require_tables :
    (o : Option Job) (w : World) (j : Job)
    → (require_job o w).0 ≡ ok j
    → (o ≡ some j) × ((require_job o w).1.db ≡ w.db)
unfolding raise pure
require_tables none w j h = cc
require_tables (some i) w j h = ground arith

pub or_now_tables : (env : Env) (o : Option ℕ) (w : World) → (or_now_iso env o w).1.db ≡ w.db
unfolding now_iso pure
or_now_tables env none w = refl
or_now_tables env (some t) w = refl
