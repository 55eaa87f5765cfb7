-- ===== src/Evolution/Admissions.antt =====
-- What an admission does to the tables.
pub mod Rows
pub mod Pairs
pub mod Reuse
use ange_media_gateway.Store.Success.{ok-injective}
use mathlib.Core.Option.{none}
use ange_media_gateway.Text.{is_empty}
use ange_media_gateway.Outbox.{insert_dispatch_row, create_job_dispatch}
use ange_media_gateway.Events.{insert_event_row, append_job_event}
use ange_media_gateway.Jobs.{
  insert_job_error, job_row, NewJob, new_identifier, insert_job, job_from_connection, job_row_fits,
  insert_job_row,
}
use ange_media_gateway.Base.{
  false, subst, sym, true, ap, Bool-cases, Option-cases, string_eq, ==_iff, ◌==◌, find_row-append,
  [], ◌∷◌, ◌++◌, some, Option, ℕ, String, List, ◌≡◌, ◌∙◌, refl, ◌⊎◌, inl, inr, arith,
}
use mathlib.Core.Option.{some-injective}
use ange_media_gateway.Store
use ange_media_gateway.Store.{
  number, queued, raise, pure, Db, now_iso, Exec, JobEvent, Stage, Status, DispatchStatus, Payload,
  JobDispatch, Job, PayloadJson, reads, db_transaction, Outcome, Error, ◌>>=◌, World, Env, ok,
  raised,
}
use ange_media_gateway.Store.Success.{transaction_raises, transaction_returns, bind_returns}
use ange_media_gateway.Admission.{
  require_job, or_now_iso, admitted_job, AdmissionResult, admit_new, admit_or_reuse, all_candidates,
  existing_job, check_request, admit, AdmissionRequest,
}
use ange_media_gateway.Evolution.Relates.{IsPreorder}
use ange_media_gateway.Evolution.Services.{Relates-check_request}
use ange_media_gateway.Evolution.Admissions.Pairs.{
  AmongPairs, wanted_pairs, is_active_with, usable, check_request_returns,
}
use ange_media_gateway.Evolution.Admissions.Reuse.{IsRow, existing_job_sound, existing_job-none}
use ange_media_gateway.Base.{count_rows, ◌≤◌}
use ange_media_gateway.Store.{running}
use ange_media_gateway.Evolution.Admissions.Rows.{
  event_tables, dispatch_tables, insert_job_tables, require_tables, or_now_tables,
}

pub record SameTables (a b : World) : Type 0 where
  pub same_db : b.db ≡ a.db

instance same_tables_order : IsPreorder SameTables
same_tables_order = record {
  refl_law = λ a. record { same_db = refl };
  trans_law = λ a b c p q. record { same_db = q.same_db ∙ p.same_db };
  ticks_law = λ a n. record { same_db = refl };
  rollback_law = λ a b p. record { same_db = refl };
}

admit_checked :
    (env : Env) (r : AdmissionRequest) (w : World) (e : Error) (a : Outcome (List (String × ℕ)))
    (v : World)
    → v.db ≡ w.db
    → (Store.continue a
        (λ candidates.
          db_transaction
            (reads (existing_job r.kind (all_candidates r candidates)) >>= admit_or_reuse env r))
        v).0
      ≡ raised e
    → (Store.continue a
        (λ candidates.
          db_transaction
            (reads (existing_job r.kind (all_candidates r candidates)) >>= admit_or_reuse env r))
        v).1.db
      ≡ w.db
admit_checked env r w e (ok candidates) v same h = transaction_raises _ v e h ∙ same
admit_checked env r w e (raised x) v same h = same

-- An admission that raises, whichever check, insert or constraint refused it, leaves every table as
-- it was: no job without its event and its outbox row is ever left behind.
pub admit_raises :
    (env : Env) (r : AdmissionRequest) (w : World) (e : Error)
    → (admit env r w).0 ≡ raised e
    → (admit env r w).1.db ≡ w.db
unfolding admit ◌>>=◌
admit_raises env r w e h =
    admit_checked env r w e (check_request r w).0 (check_request r w).1
      ((Relates-check_request {R = SameTables} r).at w).same_db h

-- What a new admission leaves: one row in each of three tables, which belong together.
pub record Created (r : AdmissionRequest) (a b : Db) (out : AdmissionResult) : Type 0 where
  pub is_created : out.created ≡ true
  pub event : JobEvent
  pub dispatch : JobDispatch
  pub answer : out.dispatch ≡ some dispatch
  pub job_queued : out.job.status ≡ queued
  pub job_kind : out.job.kind ≡ r.kind
  -- There was no active job of the kind with a pair of the request.
  pub none_active :
      (hash : String) (version : ℕ)
      → AmongPairs hash version (wanted_pairs r)
      → (hash ≡ "") ⊎ (count_rows (λ j. is_active_with r.kind hash version j) a.jobs ≡ 0)
  pub job_hash : out.job.request_hash ≡ r.request_hash
  pub event_of_job : event.job_id ≡ out.job.id
  pub dispatch_of_job : dispatch.job_id ≡ out.job.id
  pub dispatch_pending : dispatch.status ≡ DispatchStatus.pending
  pub tables : b ≡ record a {
    jobs = a.jobs ++ out.job ∷ [];
    job_events = a.job_events ++ event ∷ [];
    job_dispatches = a.job_dispatches ++ dispatch ∷ [];
  }

three_rows :
    (a b1 b2 b3 b4 b5 : Db) (j row : Job) (e : JobEvent) (d : JobDispatch)
    → j ≡ row
    → b1 ≡ record a { jobs = a.jobs ++ row ∷ [] }
    → b2 ≡ b1
    → b3 ≡ record b2 { job_events = b2.job_events ++ e ∷ [] }
    → b4 ≡ b3
    → b5 ≡ record b4 { job_dispatches = b4.job_dispatches ++ d ∷ [] }
    → b5 ≡ record a {
      jobs = a.jobs ++ j ∷ [];
      job_events = a.job_events ++ e ∷ [];
      job_dispatches = a.job_dispatches ++ d ∷ [];
    }
three_rows a b1 b2 b3 b4 b5 j row e d same d1 d2 d3 d4 d5 = rw (d5, d4, d3, d2, d1, same) refl

row_columns :
    (env : Env) (r : AdmissionRequest) (id : String) (now : ℕ)
    → (let j = job_row env (admitted_job r) id now in
        (j.status ≡ queued) × (j.kind ≡ r.kind) × (j.request_hash ≡ r.request_hash))
unfolding job_row
row_columns env r id now = (refl, refl, refl)

admit_new_tables :
    (env : Env) (r : AdmissionRequest) (w : World) (out : AdmissionResult)
    → existing_job r.kind (usable (wanted_pairs r)) w.db ≡ none
    → (admit_new env r w).0 ≡ ok out
    → Created r w.db (admit_new env r w).1.db out
unfolding admit_new pure
admit_new_tables env r w out no_job h =
    let (inserted, i0, h1, e1) = bind_returns (insert_job env (admitted_job r)) _ w out h in
    let (job, i1, h2, e2) = bind_returns (require_job inserted) _ _ out h1 in
    let (event, i2, h3, e3) =
      bind_returns (append_job_event env job.id "admitted" _ none (some queued) (some r.stage)) _ _
        out h2 in
    let (t, i3, h4, e4) = bind_returns (or_now_iso env r.scheduled_at) _ _ out h3 in
    let (dispatch, i4, h5, e5) =
      bind_returns (create_job_dispatch env job.id r.topic _ (some t)) _ _ out h4 in
    let (id, now, is_row, d1) = insert_job_tables env (admitted_job r) w inserted i0 in
    let (is_job, d2) = require_tables inserted _ job i1 in
    let (of_event, d3) =
      event_tables env job.id "admitted" _ none (some queued) (some r.stage) _ event i2 in
    let payload = some (
      ("payload_schema_version", number r.payload_schema_version)
      ∷ ("priority", number r.priority)
      ∷ []) in
    let before = (require_job inserted (insert_job env (admitted_job r) w).1).1 in
    let d4 =
      or_now_tables env r.scheduled_at
        (append_job_event env job.id "admitted" payload none (some queued) (some r.stage)
          before).1 in
    let (of_dispatch, is_pending, d5) =
      dispatch_tables env job.id r.topic _ (some t) _ dispatch i4 in
    let row : job ≡ job_row env (admitted_job r) id now =
      some-injective _ _ (sym is_job ∙ is_row) in
    let (is_queued, has_kind, has_hash) = row_columns env r id now in
    let answered : ok (record { job = job; dispatch = some dispatch; created = true }) ≡ ok out =
      h5 in
    subst (λ o. Created r w.db (admit_new env r w).1.db o) (ok-injective _ _ answered)
      (record {
        is_created = refl;
        event = event;
        dispatch = dispatch;
        answer = refl;
        job_queued = rw row is_queued;
        job_kind = rw row has_kind;
        none_active = λ hash version among.
            existing_job-none r.kind hash version w.db (wanted_pairs r) no_job among;
        job_hash = rw row has_hash;
        event_of_job = of_event;
        dispatch_of_job = of_dispatch;
        dispatch_pending = is_pending;
        tables =
            ap (λ x. x.1.db) (e1 ∙ e2 ∙ e3 ∙ e4 ∙ e5)
            ∙ three_rows _ _ _ _ _ _ job _ event dispatch row d1 d2 d3 d4 d5;
      })

-- What an admission leaves that finds an active job with one of its hashes: nothing but the answer,
-- a queued or running job of the table, of the kind of the request, with one of its pairs of a hash
-- and a version.
pub record Reused (r : AdmissionRequest) (a b : Db) (out : AdmissionResult) : Type 0 where
  pub not_created : out.created ≡ false
  pub no_dispatch : out.dispatch ≡ none
  pub hash : String
  pub version : ℕ
  pub of_request : AmongPairs hash version (wanted_pairs r)
  pub has_hash : out.job.request_hash ≡ some hash
  pub has_version : out.job.request_hash_version ≡ some version
  pub has_kind : out.job.kind ≡ r.kind
  pub is_active : (out.job.status ≡ queued) ⊎ (out.job.status ≡ running)
  pub in_table : IsRow out.job a.jobs
  pub untouched : b ≡ a

admit_or_reuse_tables :
    (env : Env) (r : AdmissionRequest) (w : World) (found : Option Job) (out : AdmissionResult)
    → existing_job r.kind (usable (wanted_pairs r)) w.db ≡ found
    → (admit_or_reuse env r found w).0 ≡ ok out
    → Reused r w.db (admit_or_reuse env r found w).1.db out
      ⊎ Created r w.db (admit_or_reuse env r found w).1.db out
unfolding admit_or_reuse pure
admit_or_reuse_tables env r w none out e h = inr (admit_new_tables env r w out e h)
admit_or_reuse_tables env r w (some j) out e h =
    let active = existing_job_sound r.kind (wanted_pairs r) w.db j e in
    inl (
      subst (λ o. Reused r w.db w.db o) (ok-injective _ _ h)
        (record {
          not_created = refl;
          no_dispatch = refl;
          hash = active.hash;
          version = active.version;
          of_request = active.of_request;
          has_hash = active.has_hash;
          has_version = active.has_version;
          has_kind = active.has_kind;
          is_active = active.is_active;
          in_table = active.in_table;
          untouched = refl;
        }))

-- An admission that returns either answers a queued or running job of the table, of the kind of the
-- request and with one of its pairs of a hash and a version (its own or one of `dedupe_hashes`), and
-- changes no table; or there was no such job, and it adds exactly three rows, and no other: a queued
-- job of the request's kind and hash, an event of this job, and a pending dispatch of this job.
pub admit_returns :
    (env : Env) (r : AdmissionRequest) (w : World) (out : AdmissionResult)
    → (admit env r w).0 ≡ ok out
    → Reused r w.db (admit env r w).1.db out ⊎ Created r w.db (admit env r w).1.db out
unfolding admit ◌>>=◌
admit_returns env r w out h =
    let (candidates, checked, h1, e1) = bind_returns (check_request r) _ w out h in
    let v = (check_request r w).1 in
    let unchanged = ((Relates-check_request {R = SameTables} r).at w).same_db in
    let pairs = check_request_returns r w candidates checked in
    let found = existing_job r.kind (all_candidates r candidates) v.db in
    let (returned, committed) = transaction_returns _ v out h1 in
    let tables =
      admit_or_reuse_tables env r v found out (ap (λ l. existing_job r.kind l v.db) (sym pairs))
        returned in
    let same = ap (λ x. x.1.db) (e1 ∙ committed) in
    subst (λ d. Reused r d (admit env r w).1.db out ⊎ Created r d (admit env r w).1.db out)
      unchanged (subst (λ d. Reused r v.db d out ⊎ Created r v.db d out) (sym same) tables)
