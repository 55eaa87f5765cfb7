-- ===== src/System/AccessTests.antt =====
-- Logins, sessions and keys on small inputs.
use ange_media_gateway.GatewayKeys.Revoked.{KeyReach, revoked_for_good}
use ange_media_gateway.AdminAuth.Sessions.{expired_session_removed, create-get_admin_session}
use ange_media_gateway.AdminAuth.Lockout.{
  lock_stands, failure_recorded, purge_keeps_fresh, Purged, after_failures, FailureRecorded,
}
use ange_media_gateway.GatewayKeys.{
  verify_gateway_api_key, update_keys, revoke_gateway_api_key, get_gateway_api_key,
}
use ange_media_gateway.Store.{Env, ok, GatewayApiKey, AdminSession, World}
use ange_media_gateway.AdminAuth.{
  record_admin_login_failure, purge_old_admin_login_attempts, get_admin_login_lock,
  get_admin_session, generate_session_token, AdminTools, login_attempt_key, create_admin_session,
}
use ange_media_gateway.Base.{
  ℕ, update_rows, find_row, String, refl, arith, [], ◌∷◌, none, some, ◌==◌, string_eq, ◌+◌, ◌≡◌,
  ◌≢◌,
}
use ange_media_gateway.System.Tests.{plain_env, empty_world}

abbrev plain_tools : AdminTools
plain_tools = record {
  strip = λ s. s;
  lower = λ s. s;
  sha256_hex = λ s. s;
  token_hex = λ n t. "00";
}

failure_recorded_example :
    FailureRecorded "admin@10.0.0.1" 5 30000000 0 1 []
      (record_admin_login_failure plain_env plain_tools "admin" "10.0.0.1" 5 30
        empty_world).1.db.admin_login_attempts
unfolding login_attempt_key find_row
failure_recorded_example =
    failure_recorded plain_env plain_tools "admin" "10.0.0.1" 5 30 empty_world

-- The attempts that are recorded after five failures.
abbrev locked_out_world : World
locked_out_world = record empty_world {
  db = record (empty_world.db) {
    admin_login_attempts =
        (after_failures plain_env plain_tools "admin" "10.0.0.1" 5 30 5
          empty_world).db.admin_login_attempts;
  };
}

lock_stands_example :
    (get_admin_login_lock plain_env plain_tools "admin" "10.0.0.1" locked_out_world).0
    ≡ ok (
        (after_failures plain_env plain_tools "admin" "10.0.0.1" 5 30 4 empty_world).ticks
        + 30000000)
unfolding find_row
lock_stands_example =
    lock_stands plain_env plain_tools "admin" "10.0.0.1" 5 30 4 empty_world locked_out_world
      (omega arith) refl (omega arith)

-- A clock that is past the age of the removal.
abbrev late_env : Env
late_env = record plain_env { clock = λ n. 100000000000 + n }

-- Two fresh rows, of which one is locked.
abbrev attempts_world : World
attempts_world = record empty_world {
  db = record (empty_world.db) {
    admin_login_attempts =
        record { attempt_key = "a"; fail_count = 2; locked_until = 0; updated_at = 99999999999 }
        ∷ record {
          attempt_key = "b";
          fail_count = 5;
          locked_until = 100000500000;
          updated_at = 99999999999;
        }
        ∷ [];
  };
}

purge_keeps_fresh_example :
    (removed : ℕ) × ((purge_old_admin_login_attempts late_env plain_tools 86400 attempts_world).0
      ≡ ok removed)
    × Purged 13600000000 13600000001 attempts_world.db.admin_login_attempts
        (purge_old_admin_login_attempts late_env plain_tools 86400
          attempts_world).1.db.admin_login_attempts
        removed
purge_keeps_fresh_example = purge_keeps_fresh late_env plain_tools 86400 attempts_world

abbrev session_world : World
session_world = record empty_world {
  db = record (empty_world.db) {
    admin_sessions =
        (create_admin_session plain_env plain_tools "admin" 60 empty_world).1.db.admin_sessions;
  };
}

create-get_admin_session_example :
    (get_admin_session plain_env plain_tools "ams-00" session_world).0
    ≡ ok (some ("admin", 60000001))
unfolding create_admin_session generate_session_token find_row ange_media_gateway.Store.◌>>=◌
create-get_admin_session_example =
    create-get_admin_session plain_env plain_tools "admin" "ams-00" 60 60000001 empty_world
      session_world refl refl (omega arith)

abbrev old_session : AdminSession
old_session = record { session_hash = "ams-00"; username = "admin"; expires_at = 5; created_at = 1 }

abbrev later_world : World
later_world = record empty_world {
  db = record (empty_world.db) { admin_sessions = old_session ∷ [] };
  ticks = 9;
}

expired_session_removed_example :
    ((get_admin_session plain_env plain_tools "ams-00" later_world).0 ≡ ok none)
    × (find_row
          (λ s. s.session_hash == "ams-00")
          (get_admin_session plain_env plain_tools "ams-00" later_world).1.db.admin_sessions
        ≡ none)
unfolding find_row
expired_session_removed_example =
    expired_session_removed plain_env plain_tools "ams-00" old_session later_world refl refl
      (omega arith)

abbrev client_key : String → GatewayApiKey
client_key id = record {
  id = id;
  name = "client";
  key_prefix = id;
  key_hash = id;
  enabled = 1;
  note = none;
  created_at = 0;
  last_used_at = none;
  last_used_ip = none;
  revoked_at = none;
}

abbrev two_keys_world : World
two_keys_world = record empty_world {
  db = record (empty_world.db) { gateway_api_keys = client_key "k1" ∷ client_key "k2" ∷ [] };
}

revoked_for_good_example : (client_key "k2").id ≢ "k1"
unfolding get_gateway_api_key find_row revoke_gateway_api_key update_keys update_rows
    verify_gateway_api_key ange_media_gateway.Store.◌>>=◌
revoked_for_good_example =
    revoked_for_good plain_env plain_tools "k1" two_keys_world
      (revoke_gateway_api_key plain_env plain_tools "k1" two_keys_world).1 "k2" (client_key "k2")
      refl KeyReach.here refl
