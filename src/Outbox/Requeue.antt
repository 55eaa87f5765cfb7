-- ===== src/Outbox/Requeue.antt =====
-- `requeue_orphaned_published_dispatches`: a new outbox row for each queued job whose published
-- message no worker has taken up.
use ange_media_gateway.Base.{
  map, not, ℕ, suc, Bool, true, ◌&&◌, ◌||◌, String, Option, none, some, List, [], ◌∷◌, contains,
  ◌==◌, string_eq, nat_eq, find_row, select_rows, if◌then◌else◌, is_some, leb, ltb, take,
}
use ange_media_gateway.Store.{
  queued, status_eq, PayloadJson, not_json, Job, JobDispatch, DispatchStatus, Db, Env, Exec,
  value_error, raise, modify_db, pure, reads, now_iso, db_transaction, ◌>>=◌, ◌>>◌,
}
use ange_media_gateway.Outbox.{
  is_empty, bounded_limit, dispatch_status_beq, update_dispatches, create_job_dispatch,
}

-- `ORDER BY created_at`
unfoldable pub insert_by_age : Job → List Job → List Job
insert_by_age j [] = j ∷ []
insert_by_age j (k ∷ rest) =
    let later = insert_by_age j rest in
    if leb j.created_at k.created_at then j ∷ k ∷ rest else k ∷ later

unfoldable pub sort_by_age : List Job → List Job
unfolding insert_by_age
sort_by_age [] = []
sort_by_age (j ∷ rest) = insert_by_age j (sort_by_age rest)

abbrev pub is_listed : List String → String → Bool
is_listed [] id = true
is_listed (x ∷ xs) id = contains (x ∷ xs) id

unfoldable pub requeue_candidates : List String → ℕ → Db → List Job
unfolding sort_by_age
requeue_candidates job_ids limit db =
    take (bounded_limit limit)
      (sort_by_age (select_rows (λ j. is_listed job_ids j.id && j.status == queued) db.jobs))

abbrev pub null_last : Option ℕ → ℕ
null_last none = 0
null_last (some t) = suc t

-- `ORDER BY published_at DESC,created_at DESC`; NULL sorts last.
abbrev pub published_later : JobDispatch → JobDispatch → Bool
published_later a b =
    ltb (null_last a.published_at) (null_last b.published_at)
    || null_last a.published_at == null_last b.published_at && ltb a.created_at b.created_at

unfoldable pub latest_published : List JobDispatch → Option JobDispatch
latest_published [] = none
latest_published (d ∷ rest) = elim (latest_published rest) [
  | none ↦ some d
  | some e ↦ if published_later d e then some e else some d
]

unfoldable pub published_dispatch : String → Db → Option JobDispatch
unfolding latest_published
published_dispatch job_id db = latest_published (
    select_rows (λ d. d.job_id == job_id && dispatch_status_beq d.status DispatchStatus.published)
      db.job_dispatches)

unfoldable pub has_attempt : String → Db → Bool
has_attempt job_id db = is_some (find_row (λ a. a.job_id == job_id) db.job_attempts)

abbrev pub lost_message : String
lost_message = "published broker message was not consumed; requeued by admin"

abbrev pub set_lost : ℕ → JobDispatch → JobDispatch
set_lost now d = record d {
  status = DispatchStatus.failed;
  last_error = some lost_message;
  updated_at = now;
  version = suc d.version;
}

-- `json.loads(str(old["payload_json"] or "{}"))`
abbrev pub loaded : PayloadJson → Exec PayloadJson
loaded not_json = raise value_error
loaded p = pure p

unfoldable pub repair_dispatch : Env → ℕ → Job → JobDispatch → Exec (Unit {0})
repair_dispatch env now job old = do
  modify_db (
      update_dispatches
        (λ d. d.id == old.id && dispatch_status_beq d.status DispatchStatus.published)
        (set_lost now))
  payload ← loaded old.payload_json
  create_job_dispatch env job.id old.topic payload (some now) >>= λ _. pure tt

-- The loop over the candidates, with the counts of repaired and skipped jobs.
unfoldable pub requeue_rows : Env → ℕ → List Job → ℕ → ℕ → Exec (ℕ × ℕ)
unfolding repair_dispatch has_attempt published_dispatch
requeue_rows env now [] repaired skipped = pure (repaired, skipped)
requeue_rows env now (job ∷ rest) repaired skipped = do
  attempted ← reads (has_attempt job.id)
  dispatch ← reads (published_dispatch job.id)
  if attempted then requeue_rows env now rest repaired (suc skipped) else elim dispatch [
    | none ↦ requeue_rows env now rest repaired (suc skipped)
    | some old ↦ repair_dispatch env now job old >> requeue_rows env now rest (suc repaired) skipped
  ]

-- The ids are stripped, and blank ones dropped; `strip` is that of Python.
unfoldable pub requeue_orphaned_published_dispatches :
    Env → (strip : String → String) → (job_ids : List String) → (limit : ℕ) → Exec (ℕ × ℕ)
unfolding requeue_rows requeue_candidates
requeue_orphaned_published_dispatches env strip job_ids limit = do
  let normalized_ids = select_rows (λ id. not (is_empty id)) (map strip job_ids)
  now ← now_iso env
  db_transaction
      (reads (requeue_candidates normalized_ids limit) >>= λ rows. requeue_rows env now rows 0 0)
