-- ===== src/Outbox.antt =====
-- repositories/job_dispatches.py: the transactional outbox. A row waits (`pending`), is leased to
-- one dispatcher (`publishing`), and ends `published` or `failed`.
pub mod Requeue
pub mod Due
use ange_media_gateway.Base.{
  ℕ, suc, min, max, Bool, true, false, not, ◌&&◌, ◌||◌, String, Option, none, some, List, [], ◌∷◌,
  ◌++◌, ◌==◌, string_eq, nat_eq, find_row, select_rows, update_rows, count_rows, if◌then◌else◌,
  is_some, is_none, or_else, leb, ltb, take,
}
use ange_media_gateway.Store.{
  dict_of_row, object, status_eq, PayloadJson, JobDispatch, DispatchStatus, Db, Env, Exec,
  value_error, integrity_error, outbox_claim_lost, modify_db, pure, reads, now_iso, uuid4_hex,
  ensure, db_transaction, ◌>>=◌, ◌>>◌,
}
use ange_media_gateway.Text.{sanitize_error_text, is_empty}

-- `WORKER_TASK_NAME` of queue/settings.py
abbrev pub worker_task_name : String
worker_task_name = "angemedia.jobs.execute"

-- `max(1, min(int(limit), 500))`
abbrev pub bounded_limit : ℕ → ℕ
bounded_limit limit = max 1 (min limit 500)

abbrev pub dispatch_status_beq : DispatchStatus → DispatchStatus → Bool
dispatch_status_beq DispatchStatus.pending DispatchStatus.pending = true
dispatch_status_beq DispatchStatus.publishing DispatchStatus.publishing = true
dispatch_status_beq DispatchStatus.published DispatchStatus.published = true
dispatch_status_beq DispatchStatus.failed DispatchStatus.failed = true
dispatch_status_beq DispatchStatus.canceled DispatchStatus.canceled = true
dispatch_status_beq _ _ = false

-- The constraints of the table `job_dispatches` on a new row.
unfoldable pub dispatch_row_fits : JobDispatch → Db → Bool
dispatch_row_fits d db =
    is_none (find_row (λ x. x.id == d.id) db.job_dispatches)
    && is_some (find_row (λ j. j.id == d.job_id) db.jobs)

unfoldable pub insert_dispatch_row : JobDispatch → Exec JobDispatch
unfolding dispatch_row_fits
insert_dispatch_row d = do
  fits ← reads (dispatch_row_fits d)
  ensure fits integrity_error
  modify_db (λ db. record db { job_dispatches = db.job_dispatches ++ d ∷ [] })
  pure d

abbrev pub dispatch_row : String → String → String → PayloadJson → ℕ → ℕ → JobDispatch
dispatch_row dispatch_id job_id topic payload available_at now = record {
  id = dispatch_id;
  job_id = job_id;
  topic = topic;
  payload_json = payload;
  status = DispatchStatus.pending;
  available_at = available_at;
  published_at = none;
  attempt_count = 0;
  last_error = none;
  claim_token = none;
  claim_expires_at = none;
  broker_message_id = none;
  version = 0;
  created_at = now;
  updated_at = now;
}

-- `sanitized_json(payload)`: the stage and the attempt number hold nothing to redact.
abbrev pub sanitized_payload : Env → PayloadJson → PayloadJson
sanitized_payload env (object stage attempt rest) = object stage attempt (env.redact_payload rest)
sanitized_payload env p = p

unfoldable pub create_job_dispatch :
    Env → String → String → PayloadJson → Option ℕ → Exec JobDispatch
unfolding insert_dispatch_row
create_job_dispatch env job_id topic payload available_at = do
  ensure (topic == worker_task_name) value_error
  dispatch_id ← uuid4_hex env
  now ← now_iso env
  insert_dispatch_row (
      dispatch_row dispatch_id job_id topic (sanitized_payload env payload)
        (or_else available_at now) now)

-- `ORDER BY available_at,created_at`, as an insertion sort: equal rows keep their order.
abbrev pub comes_before : JobDispatch → JobDispatch → Bool
comes_before a b =
    ltb a.available_at b.available_at
    || a.available_at == b.available_at && leb a.created_at b.created_at

unfoldable pub insert_by_due : JobDispatch → List JobDispatch → List JobDispatch
insert_by_due d [] = d ∷ []
insert_by_due d (e ∷ rest) =
    let later = insert_by_due d rest in if comes_before d e then d ∷ e ∷ rest else e ∷ later

unfoldable pub sort_by_due : List JobDispatch → List JobDispatch
unfolding insert_by_due
sort_by_due [] = []
sort_by_due (d ∷ rest) = insert_by_due d (sort_by_due rest)

unfoldable pub list_pending_dispatches : ℕ → ℕ → Db → List JobDispatch
unfolding sort_by_due
list_pending_dispatches limit cutoff db = take (bounded_limit limit) (
    sort_by_due (
      select_rows
        (λ d. dispatch_status_beq d.status DispatchStatus.pending && leb d.available_at cutoff)
        db.job_dispatches))

abbrev pub lease_expired : ℕ → JobDispatch → Bool
lease_expired cutoff d = elim d.claim_expires_at [ none ↦ false | some t ↦ leb t cutoff ]

-- The `WHERE` test of the claim: due and waiting, or leased and expired.
abbrev pub is_due : ℕ → JobDispatch → Bool
is_due cutoff d =
    (dispatch_status_beq d.status DispatchStatus.pending && leb d.available_at cutoff)
    || (dispatch_status_beq d.status DispatchStatus.publishing && lease_expired cutoff d)

abbrev pub set_lease : String → ℕ → ℕ → JobDispatch → JobDispatch
set_lease claim_token claim_expires_at cutoff d = record d {
  status = DispatchStatus.publishing;
  claim_token = some claim_token;
  claim_expires_at = some claim_expires_at;
  attempt_count = suc d.attempt_count;
  updated_at = cutoff;
  version = suc d.version;
}

abbrev pub update_dispatches : (JobDispatch → Bool) → (JobDispatch → JobDispatch) → Db → Db
update_dispatches p f db = record db { job_dispatches = update_rows p f db.job_dispatches }

unfoldable pub dispatch_by_id : String → Db → Option JobDispatch
dispatch_by_id id db = find_row (λ d. d.id == id) db.job_dispatches

-- The loop of `claim_pending_dispatches` over the selected ids.
unfoldable pub claim_rows : String → ℕ → ℕ → List JobDispatch → Exec (List JobDispatch)
unfolding dispatch_by_id
claim_rows claim_token claim_expires_at cutoff [] = pure []
claim_rows claim_token claim_expires_at cutoff (d ∷ rest) = do
  modify_db (update_dispatches (λ x. x.id == d.id) (set_lease claim_token claim_expires_at cutoff))
  row ← reads (dispatch_by_id d.id)
  claimed ← dict_of_row row
  others ← claim_rows claim_token claim_expires_at cutoff rest
  pure (claimed ∷ others)

unfoldable pub due_rows : ℕ → ℕ → Db → List JobDispatch
unfolding sort_by_due
due_rows limit cutoff db =
    take (bounded_limit limit) (sort_by_due (select_rows (is_due cutoff) db.job_dispatches))

unfoldable pub claim_pending_dispatches : String → ℕ → ℕ → ℕ → Exec (List JobDispatch)
unfolding claim_rows due_rows
claim_pending_dispatches claim_token claim_expires_at limit cutoff = do
  ensure (not (is_empty claim_token)) value_error
  db_transaction (reads (due_rows limit cutoff) >>= claim_rows claim_token claim_expires_at cutoff)

-- `WHERE id=? AND status='publishing' AND claim_token=?`
abbrev pub holds_lease : String → String → JobDispatch → Bool
holds_lease dispatch_id claim_token d =
    d.id == dispatch_id
    && dispatch_status_beq d.status DispatchStatus.publishing
    && (elim d.claim_token [ none ↦ false | some t ↦ t == claim_token ])

-- An `UPDATE job_dispatches`, with its `rowcount`.
unfoldable pub execute_update_dispatches :
    (JobDispatch → Bool) → (JobDispatch → JobDispatch) → Exec ℕ
execute_update_dispatches p f w =
    let n = count_rows p w.db.job_dispatches in (modify_db (update_dispatches p f) >> pure n) w

unfoldable pub set_published : Env → Option String → ℕ → JobDispatch → JobDispatch
unfolding sanitize_error_text
set_published env broker_message_id now d = record d {
  status = DispatchStatus.published;
  published_at = some now;
  broker_message_id = sanitize_error_text env broker_message_id 256;
  claim_token = none;
  claim_expires_at = none;
  last_error = none;
  updated_at = now;
  version = suc d.version;
}

-- The update under a lease that `mark_dispatch_published` and `release_dispatch` share.
unfoldable pub update_leased : String → String → (JobDispatch → JobDispatch) → Exec JobDispatch
unfolding execute_update_dispatches dispatch_by_id
update_leased dispatch_id claim_token f = do
  rowcount ← execute_update_dispatches (holds_lease dispatch_id claim_token) f
  ensure (rowcount == 1) outbox_claim_lost
  reads (dispatch_by_id dispatch_id) >>= dict_of_row

unfoldable pub mark_dispatch_published : Env → String → String → Option String → Exec JobDispatch
unfolding update_leased set_published
mark_dispatch_published env dispatch_id claim_token broker_message_id = do
  now ← now_iso env
  db_transaction (update_leased dispatch_id claim_token (set_published env broker_message_id now))

unfoldable pub set_released : Env → String → ℕ → Bool → ℕ → JobDispatch → JobDispatch
unfolding sanitize_error_text
set_released env error_message available_at terminal now d = record d {
  status = if terminal then DispatchStatus.failed else DispatchStatus.pending;
  available_at = available_at;
  last_error = sanitize_error_text env (some error_message) 1000;
  claim_token = none;
  claim_expires_at = none;
  updated_at = now;
  version = suc d.version;
}

unfoldable pub release_dispatch :
    Env → String → String → String → Option ℕ → Bool → Exec JobDispatch
unfolding update_leased set_released
release_dispatch env dispatch_id claim_token error_message available_at terminal = do
  now ← now_iso env
  db_transaction (
      update_leased dispatch_id claim_token
        (set_released env error_message (or_else available_at now) terminal now))
