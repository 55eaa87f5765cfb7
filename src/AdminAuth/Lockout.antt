-- ===== src/AdminAuth/Lockout.antt =====
-- The lock after failed logins.
use ange_media_gateway.Base.{All, All-map, All-select_rows, not}
use Prim.Native.Nat.{zero}
use ange_media_gateway.Base.{
  Bool, count_rows, length, All-of, find_row-kept, count_rows-select_rows, length-removed,
}
use ange_media_gateway.Base.{
  All-select_rows, All-map, All, sym, subst, ◌∙◌, ◌==◌, string_eq, if◌then◌else◌, find_row-upserted,
  other_row-upserted, merged, none, some,
}
use ange_media_gateway.AdminAuth.{
  true, is_old_attempt, not, purge_old_admin_login_attempts, ok, suc, get_admin_login_lock, leb,
  find_row, failures_before, LoginAttempt, Option, second, Db, World, List,
  record_admin_login_failure, set_attempt, login_attempt_key, AdminTools,
}
use ange_media_gateway.Base.{◌≡◌, ℕ, String, refl, ◌+◌, ◌-◌, ◌*◌, ◌≤◌, ◌<◌, arith, ◌≢◌}
use ange_media_gateway.Store.{Env, ◌>>=◌}

-- What one failed login records for its key: the count goes up by one, the lock is set from the
-- clock once the count has reached the limit, and the rows of other keys are left alone.
pub record FailureRecorded (key : String) (max_failures lock now count : ℕ)
    (a b : List LoginAttempt) : Type 0 where
  pub row_after : LoginAttempt
  pub found_after : find_row (λ r. r.attempt_key == key) b ≡ some row_after
  pub counted : row_after.fail_count ≡ count
  pub locked_if : max_failures ≤ count → row_after.locked_until ≡ now + lock
  pub free_if : count < max_failures → row_after.locked_until ≡ 0
  pub others_after :
      (other : String)
      → other ≢ key
      → find_row (λ r. r.attempt_key == other) b ≡ find_row (λ r. r.attempt_key == other) a

module _ (env : Env) (c : AdminTools) (username client_ip : String) where
  abbrev attempt_of_user : String
  attempt_of_user = login_attempt_key env c username client_ip

  abbrev row_of : Db → Option LoginAttempt
  row_of db = find_row (λ r. r.attempt_key == attempt_of_user) db.admin_login_attempts

  keeps_key : (new old : LoginAttempt) → (set_attempt env c new old).attempt_key ≡ old.attempt_key
  unfolding set_attempt
  keeps_key new old = refl

  merged_columns :
      (new : LoginAttempt) (o : Option LoginAttempt)
      → ((merged (λ r. r.attempt_key) (set_attempt env c) new o).fail_count ≡ new.fail_count)
        × ((merged (λ r. r.attempt_key) (set_attempt env c) new o).locked_until ≡ new.locked_until)
  unfolding set_attempt
  merged_columns new none = (refl, refl)
  merged_columns new (some old) = (refl, refl)

  module _ (max_failures lock_seconds : ℕ) where
    abbrev failed_at : World → World
    failed_at w =
        (record_admin_login_failure env c username client_ip max_failures lock_seconds w).1

    locked_case :
        (now count : ℕ)
        → max_failures ≤ count
        → (if leb max_failures count then now + lock_seconds * second else 0)
          ≡ now + lock_seconds * second
    locked_case now count h = ground arith

    free_case :
        (now count : ℕ)
        → count < max_failures
        → (if leb max_failures count then now + lock_seconds * second else 0) ≡ 0
    free_case now count h = ground arith

    -- A failed login is counted for its user and address: the count is one more than before, and
    -- the lock ends `lock_seconds` after the reading of the clock if the count has reached
    -- `max_failures`, and is none otherwise. The rows of other users and addresses are the same.
    pub failure_recorded :
        (w : World)
        → FailureRecorded
            (login_attempt_key env c username client_ip)
            max_failures
            (lock_seconds * second)
            (env.clock w.ticks)
            (failures_before env c (
                find_row
                  (λ r. r.attempt_key == login_attempt_key env c username client_ip)
                  w.db.admin_login_attempts)
              + 1)
            w.db.admin_login_attempts
            (record_admin_login_failure env c username client_ip max_failures lock_seconds
              w).1.db.admin_login_attempts
    unfolding record_admin_login_failure ◌>>=◌
    failure_recorded w = record {
      row_after = merged (λ r. r.attempt_key) (set_attempt env c) _ (row_of w.db);
      found_after =
          find_row-upserted (λ r. r.attempt_key) (set_attempt env c) keeps_key _
            w.db.admin_login_attempts;
      counted = (merged_columns _ (row_of w.db)).0;
      locked_if = λ h. (merged_columns _ (row_of w.db)).1 ∙ locked_case _ _ h;
      free_if = λ h. (merged_columns _ (row_of w.db)).1 ∙ free_case _ _ h;
      others_after =
          other_row-upserted (λ r. r.attempt_key) (set_attempt env c) keeps_key _
            w.db.admin_login_attempts;
    }

    -- So many failed logins one after the other.
    unfoldable pub after_failures : ℕ → World → World
    after_failures zero w = w
    after_failures (suc k) w =
        (record_admin_login_failure env c username client_ip max_failures lock_seconds
          (after_failures k w)).1

    failures_counted :
        (k : ℕ) (w : World)
        → failures_before env c (row_of (after_failures k w).db)
          ≡ failures_before env c (row_of w.db) + k
    unfolding after_failures
    failures_counted zero w = omega arith
    failures_counted (suc k) w =
        let r = failure_recorded (after_failures k w) in
        let before = failures_counted k w in rw r.found_after (r.counted ∙ omega (arith, before))

    lock_read :
        (row : LoginAttempt) (v : World)
        → row_of v.db ≡ some row
        → env.clock v.ticks < row.locked_until
        → (get_admin_login_lock env c username client_ip v).0 ≡ ok row.locked_until
    unfolding get_admin_login_lock ◌>>=◌
    lock_read row v found open_until = rw found (ground arith)

    -- Once `max_failures` failed logins are recorded, by failures one after the other, the lock
    -- stands: until `lock_seconds` after the last of them, every look at the lock, whatever else has
    -- happened since that left the recorded attempts alone, answers when it ends.
    pub lock_stands :
        (k : ℕ) (w v : World)
        → max_failures
          ≤ failures_before env c (
              find_row
                (λ r. r.attempt_key == login_attempt_key env c username client_ip)
                w.db.admin_login_attempts)
            + suc k
        → v.db.admin_login_attempts ≡ (after_failures (suc k) w).db.admin_login_attempts
        → env.clock v.ticks < env.clock (after_failures k w).ticks + lock_seconds * second
        → (get_admin_login_lock env c username client_ip v).0
          ≡ ok (env.clock (after_failures k w).ticks + lock_seconds * second)
    unfolding after_failures
    lock_stands k w v enough same early =
        let r = failure_recorded (after_failures k w) in
        let before = failures_counted k w in
        let lock = r.locked_if (omega (arith, before)) in
        subst (λ t. (get_admin_login_lock env c username client_ip v).0 ≡ ok t) lock
          (lock_read r.row_after v
            (subst (λ l. find_row (λ a. a.attempt_key == attempt_of_user) l ≡ some r.row_after)
              (sym same) r.found_after)
            (omega (arith, lock)))

-- What the removal of old attempts leaves and answers: `oldest` bounds the last failure of a row from
-- below, and `oldest_lock` the end of its lock, which is 0 in a row without one.
pub record Purged (oldest oldest_lock : ℕ) (a b : List LoginAttempt) (removed : ℕ) : Type 0 where
  pub left_fresh : All (λ r. (oldest ≤ r.updated_at) × (oldest_lock ≤ r.locked_until)) b
  pub fresh_stay :
      (key : String) (r : LoginAttempt)
      → find_row (λ x. x.attempt_key == key) a ≡ some r
      → oldest ≤ r.updated_at
      → oldest_lock ≤ r.locked_until
      → find_row (λ x. x.attempt_key == key) b ≡ some r
  pub none_added : (p : LoginAttempt → Bool) → count_rows p b ≤ count_rows p a
  pub counts_removed : length a ≡ length b + removed

module _ (env : Env) (c : AdminTools) where
  not_old :
      (cutoff_iso cutoff : ℕ) (a : LoginAttempt)
      → not (is_old_attempt env c cutoff_iso cutoff a) ≡ true
      → (cutoff_iso ≤ a.updated_at) × (cutoff ≤ a.locked_until)
  not_old cutoff_iso cutoff a h = (ground arith, ground arith)

  is_kept :
      (cutoff_iso cutoff : ℕ) (a : LoginAttempt)
      → cutoff_iso ≤ a.updated_at
      → cutoff ≤ a.locked_until
      → not (is_old_attempt env c cutoff_iso cutoff a) ≡ true
  is_kept cutoff_iso cutoff a h₁ h₂ = ground arith

  -- The removal of old login attempts returns, with the number of rows removed, and keeps exactly the
  -- rows whose last failure and whose end of the lock are both at most `max_age_seconds` ago. A row
  -- without a lock has 0 for its end: once the clock is past that age it is removed, however fresh it
  -- is.
  pub purge_keeps_fresh :
      (max_age_seconds : ℕ) (w : World)
      → (removed : ℕ) × ((purge_old_admin_login_attempts env c max_age_seconds w).0 ≡ ok removed)
        × Purged
            (env.clock w.ticks - max_age_seconds * second)
            (env.clock (suc w.ticks) - max_age_seconds * second)
            w.db.admin_login_attempts
            (purge_old_admin_login_attempts env c max_age_seconds w).1.db.admin_login_attempts
            removed
  unfolding purge_old_admin_login_attempts ◌>>=◌
  purge_keeps_fresh max_age_seconds w = (
    _,
    refl,
    record {
      left_fresh =
          All-map _ _ (λ a h. not_old _ _ a h.1) _
            (All-select_rows (λ a. Unit {0}) _ w.db.admin_login_attempts (All-of _ (λ a. tt) _));
      fresh_stay = λ key r found h₁ h₂.
          find_row-kept (λ x. x.attempt_key == key) _ w.db.admin_login_attempts r found
            (is_kept _ _ r h₁ h₂);
      none_added = λ p. count_rows-select_rows p _ w.db.admin_login_attempts;
      counts_removed = length-removed _ w.db.admin_login_attempts;
    },
  )
