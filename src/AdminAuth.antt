-- ===== src/AdminAuth.antt =====
-- repositories/admin_auth.py: sessions of the administrator, and the lock after failed logins.
pub mod Lockout
pub mod Sessions
use mathlib.Core.Option.{none}
use ange_media_gateway.Base.{none, true}
use ange_media_gateway.Text.{text_append, is_empty}
use ange_media_gateway.Base.{suc, ℕ, ◌++◌, [], ◌∷◌, is_none, upserted}
use ange_media_gateway.Base.{
  ◌+◌, ◌-◌, ◌*◌, not, count_rows, string_eq, select_rows, leb, ◌||◌, ◌==◌, Bool, some, find_row,
  ltb, Option, if◌then◌else◌, List,
}
use ange_media_gateway.Store.{
  ensure, integrity_error, World, ◌>>=◌, modify_db, pure, ◌>>◌, Db, now_iso, LoginAttempt,
  db_transaction, AdminSession, reads, ok, Env, Exec,
}
use Prim.Native.String.{String}

-- What the code takes from Python: `strip` and `lower` of texts, `hashlib.sha256(…).hexdigest()`, and
-- `secrets.token_hex(bytes)`, whose results may depend on the readings before.
pub record AdminTools : Type 0 where
  pub strip : String → String
  pub lower : String → String
  pub sha256_hex : String → String
  pub token_hex : ℕ → ℕ → String

-- Instants are numbers of microseconds.
abbrev pub second : ℕ
second = 1000000

abbrev pub day : ℕ
day = 86400 * second

-- `time.time()`
abbrev pub time_now : Env → Exec ℕ
time_now = now_iso

-- `generate_session_token` of security.py
unfoldable pub generate_session_token : AdminTools → Exec String
generate_session_token c w =
    (ok (text_append "ams-" (c.token_hex 32 w.ticks)), record w { ticks = suc w.ticks })

abbrev pub set_sessions : List AdminSession → Db → Db
set_sessions rows db = record db { admin_sessions = rows }

abbrev pub set_attempts : List LoginAttempt → Db → Db
set_attempts rows db = record db { admin_login_attempts = rows }

module _ (env : Env) (c : AdminTools) where
  -- The answer of `create_admin_session`: the token and the end of the session.
  unfoldable pub create_admin_session : (username : String) → (ttl_seconds : ℕ) → Exec (String × ℕ)
  unfolding generate_session_token
  create_admin_session username ttl_seconds = do
    token ← generate_session_token c
    now ← time_now env
    created_at ← now_iso env
    let expires_at = now + ttl_seconds * second
    let digest = c.sha256_hex token
    fits ← reads (λ db. is_none (find_row (λ s. s.session_hash == digest) db.admin_sessions))
    ensure fits integrity_error
    modify_db (λ db.
        set_sessions
          (db.admin_sessions
            ++ record {
              session_hash = digest;
              username = username;
              expires_at = expires_at;
              created_at = created_at;
            }
              ∷ [])
          db)
    pure (token, expires_at)

  unfoldable pub delete_admin_session : String → Exec (Unit {0})
  delete_admin_session token =
      if is_empty token
      then pure tt
      else modify_db (λ db.
        set_sessions
          (select_rows (λ s. not (s.session_hash == c.sha256_hex token)) db.admin_sessions) db)

  -- The row that `get_admin_session` has found, at a later reading of the clock.
  unfoldable pub session_at : String → AdminSession → ℕ → Exec (Option (String × ℕ))
  unfolding delete_admin_session
  session_at token row now =
      if ltb row.expires_at now
      then (delete_admin_session token >> pure none)
      else pure (some (row.username, row.expires_at))

  unfoldable pub get_admin_session : String → Exec (Option (String × ℕ))
  unfolding session_at
  get_admin_session token =
      if is_empty token
      then pure none
      else (reads (λ db. find_row (λ s. s.session_hash == c.sha256_hex token) db.admin_sessions)
          >>= λ found. elim found [
            | none ↦ pure none
            | some row ↦ time_now env >>= session_at token row
          ])

  unfoldable pub purge_expired_admin_sessions : Exec ℕ
  purge_expired_admin_sessions = do
    now ← time_now env
    removed ← reads (λ db. count_rows (λ s. ltb s.expires_at now) db.admin_sessions)
    modify_db
        (λ db. set_sessions (select_rows (λ s. not (ltb s.expires_at now)) db.admin_sessions) db)
    pure removed

  -- `updated_at < ? OR locked_until < ?`
  abbrev pub is_old_attempt : (cutoff_iso cutoff : ℕ) → LoginAttempt → Bool
  is_old_attempt cutoff_iso cutoff a = ltb a.updated_at cutoff_iso || ltb a.locked_until cutoff

  unfoldable pub purge_old_admin_login_attempts : (max_age_seconds : ℕ) → Exec ℕ
  purge_old_admin_login_attempts max_age_seconds = do
    now ← time_now env
    later ← time_now env
    let is_old = is_old_attempt (now - max_age_seconds * second) (later - max_age_seconds * second)
    removed ← reads (λ db. count_rows is_old db.admin_login_attempts)
    modify_db (λ db. set_attempts (select_rows (λ a. not (is_old a)) db.admin_login_attempts) db)
    pure removed

  unfoldable pub cleanup_admin_security_state : Exec (ℕ × ℕ)
  unfolding purge_expired_admin_sessions purge_old_admin_login_attempts
  cleanup_admin_security_state = do
    expired_sessions ← purge_expired_admin_sessions
    old_login_attempts ← purge_old_admin_login_attempts (24 * 3600)
    pure (expired_sessions, old_login_attempts)

  -- `text or "unknown"`
  abbrev pub or_unknown : String → String
  or_unknown text = if is_empty text then "unknown" else text

  unfoldable pub login_attempt_key : (username client_ip : String) → String
  login_attempt_key username client_ip =
      text_append (or_unknown (c.lower (c.strip username)))
        (text_append "@" (c.strip (or_unknown client_ip)))

  unfoldable pub get_admin_login_lock : (username client_ip : String) → Exec ℕ
  unfolding login_attempt_key
  get_admin_login_lock username client_ip =
      reads (λ db.
        find_row (λ a. a.attempt_key == login_attempt_key username client_ip)
          db.admin_login_attempts)
      >>= λ found. elim found [
        | none ↦ pure 0
        | some row ↦
            time_now env >>= λ now. pure (if leb row.locked_until now then 0 else row.locked_until)
      ]

  -- `DO UPDATE SET` every column but the key.
  unfoldable pub set_attempt : LoginAttempt → LoginAttempt → LoginAttempt
  set_attempt new old = record new { attempt_key = old.attempt_key }

  abbrev pub failures_before : Option LoginAttempt → ℕ
  failures_before none = 0
  failures_before (some row) = row.fail_count

  -- The answer, `LoginAttemptResult`: the number of failures and the end of the lock.
  unfoldable pub record_admin_login_failure :
      (username client_ip : String) → (max_failures lock_seconds : ℕ) → Exec (ℕ × ℕ)
  unfolding login_attempt_key set_attempt
  record_admin_login_failure username client_ip max_failures lock_seconds = do
    let key = login_attempt_key username client_ip
    now_ts ← time_now env
    row ← reads (λ db. find_row (λ a. a.attempt_key == key) db.admin_login_attempts)
    let fail_count = failures_before row + 1
    let locked_until = if leb max_failures fail_count then now_ts + lock_seconds * second else 0
    updated_at ← now_iso env
    modify_db (λ db.
        set_attempts
          (upserted (λ a. a.attempt_key) set_attempt
            (record {
              attempt_key = key;
              fail_count = fail_count;
              locked_until = locked_until;
              updated_at = updated_at;
            })
            db.admin_login_attempts)
          db)
    pure (fail_count, locked_until)

  unfoldable pub clear_admin_login_failures : (username client_ip : String) → Exec (Unit {0})
  unfolding login_attempt_key
  clear_admin_login_failures username client_ip = db_transaction (do
    modify_db (λ db.
        set_attempts
          (select_rows (λ a. not (a.attempt_key == login_attempt_key username client_ip))
            db.admin_login_attempts)
          db)
    now ← time_now env
    modify_db (λ db.
        set_attempts (select_rows (λ a. not (ltb a.updated_at (now - day))) db.admin_login_attempts)
          db))
