-- ===== src/AdminAuth/Sessions.antt =====
-- Sessions of the administrator: a token opens its session until the session ends.
use ange_media_gateway.Base.{suc, ◌+◌, ◌*◌}
use ange_media_gateway.AdminAuth.{second}
use ange_media_gateway.Store.Success.{ok-injective}
use Prim.Native.String.append
use ange_media_gateway.Base.{sym, ap}
use ange_media_gateway.AdminAuth.{
  Option, true, text_append, ltb, find_row, ok, is_empty, World, AdminSession, ℕ,
  delete_admin_session, String, session_at, generate_session_token, create_admin_session,
  get_admin_session, AdminTools,
}
use ange_media_gateway.Base.{arith, false, ◌≤◌, ◌<◌}
use ange_media_gateway.Store.{Env, ◌>>=◌}
use ange_media_gateway.Base.{
  refl, ◌≡◌, find_row-append, find_row-removed, ==_iff, none, some, ◌==◌, string_eq,
}

module _ (env : Env) (c : AdminTools) where
  opens :
      (token : String) (row : AdminSession) (v : World)
      → is_empty token ≡ false
      → find_row (λ s. s.session_hash == c.sha256_hex token) v.db.admin_sessions ≡ some row
      → env.clock v.ticks ≤ row.expires_at
      → (get_admin_session env c token v).0 ≡ ok (some (row.username, row.expires_at))
  unfolding get_admin_session session_at ◌>>=◌
  opens token row v present found early =
      let open_still : ltb row.expires_at (env.clock v.ticks) ≡ false = ground arith in
      rw (present, found, session_at, open_still) refl

  token_present : (text : String) → is_empty (text_append "ams-" text) ≡ false
  token_present text = ap is_empty (append.cons "a" "ms-" text)

  abbrev token_at : World → String
  token_at w = text_append "ams-" (c.token_hex 32 w.ticks)

  abbrev new_session : String → ℕ → World → AdminSession
  new_session username ttl_seconds w = record {
    session_hash = c.sha256_hex (token_at w);
    username = username;
    expires_at = env.clock (suc w.ticks) + ttl_seconds * second;
    created_at = env.clock (suc (suc w.ticks));
  }

  -- How the creation ends, by whether the digest of the new token is there already.
  created :
      (username : String) (ttl_seconds : ℕ) (w : World) (o : Option AdminSession)
      → find_row (λ s. s.session_hash == c.sha256_hex (token_at w)) w.db.admin_sessions ≡ o
      → ((token : String) (expires_at : ℕ)
          → (create_admin_session env c username ttl_seconds w).0 ≡ ok (token, expires_at)
          → (token ≡ token_at w)
            × (row : AdminSession) × (row.username ≡ username)
            × (row.expires_at ≡ expires_at)
            × (find_row
                  (λ s. s.session_hash == c.sha256_hex (token_at w))
                  (create_admin_session env c username ttl_seconds w).1.db.admin_sessions
                ≡ some row))
  unfolding create_admin_session generate_session_token ◌>>=◌
  created username ttl_seconds w none absent token expires_at = rw absent (λ h.
      let answer = ok-injective _ _ h in
      (
        sym (ap (λ p. p.0) answer),
        new_session username ttl_seconds w,
        refl,
        ap (λ p. p.1) answer,
        rw
            (
              find_row-append (λ s. s.session_hash == c.sha256_hex (token_at w)) w.db.admin_sessions
                  (new_session username ttl_seconds w),
              absent,
              (==_iff (c.sha256_hex (token_at w)) (c.sha256_hex (token_at w))).1 refl,
            )
            refl,
      ))
  created username ttl_seconds w (some old) there token expires_at = rw there (λ h. cc)

  -- The token of a session that was created opens it, for the user that it was created for, at
  -- every reading of the clock up to its end, whatever has happened since that left the table of
  -- sessions alone.
  pub create-get_admin_session :
      (username token : String) (ttl_seconds expires_at : ℕ) (w v : World)
      → (create_admin_session env c username ttl_seconds w).0 ≡ ok (token, expires_at)
      → v.db.admin_sessions
        ≡ (create_admin_session env c username ttl_seconds w).1.db.admin_sessions
      → env.clock v.ticks ≤ expires_at
      → (get_admin_session env c token v).0 ≡ ok (some (username, expires_at))
  create-get_admin_session username token ttl_seconds expires_at w v h same early =
      let (at, row, user, until, found) =
        created username ttl_seconds w
          (find_row (λ s. s.session_hash == c.sha256_hex (token_at w)) w.db.admin_sessions) refl
          token expires_at h in
      rw (at, sym user, sym until)
        (opens (token_at w) row v (token_present _) (rw same found) (rw until early))

  -- Once the clock has passed the end of a session, its token opens nothing, and the session is
  -- removed.
  pub expired_session_removed :
      (token : String) (row : AdminSession) (v : World)
      → is_empty token ≡ false
      → find_row (λ s. s.session_hash == c.sha256_hex token) v.db.admin_sessions ≡ some row
      → row.expires_at < env.clock v.ticks
      → ((get_admin_session env c token v).0 ≡ ok none)
        × (find_row
              (λ s. s.session_hash == c.sha256_hex token)
              (get_admin_session env c token v).1.db.admin_sessions
            ≡ none)
  unfolding get_admin_session session_at delete_admin_session ◌>>=◌
  expired_session_removed token row v present found late =
      let over : ltb row.expires_at (env.clock v.ticks) ≡ true = ground arith in
      rw (present, found, session_at, over, delete_admin_session, present)
        (refl, find_row-removed _ v.db.admin_sessions)
