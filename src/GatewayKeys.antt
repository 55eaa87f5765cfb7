-- ===== src/GatewayKeys.antt =====
-- repositories/gateway_keys.py: the keys with which clients call the gateway.
pub mod Revoked
use ange_media_gateway.Store.{integrity_error, modify_db, ensure, ◌>>◌}
use ange_media_gateway.Base.{update_rows, nat_eq, ◌&&◌}
use mathlib.Core.Bool.{false, true}
use ange_media_gateway.Text.{take_chars, is_empty, text_append}
use mathlib.Core.Option.{none}
use ange_media_gateway.Store.{
  pure, now_iso, uuid4_hex, ◌>>=◌, reads, Db, ok, Exec, Env, GatewayApiKey,
}
use ange_media_gateway.Base.{
  or_else, string_eq, count_rows, is_none, ◌==◌, find_row, length, if◌then◌else◌, Bool, some, List,
  String, Option, suc, ℕ, ◌++◌, [], ◌∷◌, ltb,
}
use ange_media_gateway.AdminAuth.{AdminTools}

-- `generate_gateway_key` of security.py
unfoldable pub generate_gateway_key : AdminTools → Exec String
generate_gateway_key c w =
    (ok (text_append "am-" (c.token_hex 16 w.ticks)), record w { ticks = suc w.ticks })

abbrev pub set_keys : List GatewayApiKey → Db → Db
set_keys rows db = record db { gateway_api_keys = rows }

-- The SELECT of one row by its id.
unfoldable pub get_gateway_api_key : String → Db → Option GatewayApiKey
get_gateway_api_key key_id db = find_row (λ k. k.id == key_id) db.gateway_api_keys

-- `id TEXT PRIMARY KEY`, `key_hash TEXT NOT NULL UNIQUE`
unfoldable pub key_row_fits : GatewayApiKey → Db → Bool
unfolding get_gateway_api_key
key_row_fits k db =
    is_none (get_gateway_api_key k.id db)
    && is_none (find_row (λ r. r.key_hash == k.key_hash) db.gateway_api_keys)

unfoldable pub insert_key_row : GatewayApiKey → Exec (Unit {0})
unfolding key_row_fits
insert_key_row k = do
  fits ← reads (key_row_fits k)
  ensure fits integrity_error
  modify_db (λ db. set_keys (db.gateway_api_keys ++ k ∷ []) db)

-- `UPDATE gateway_api_keys SET … WHERE …`, with `cursor.rowcount > 0`.
unfoldable pub update_keys : (GatewayApiKey → Bool) → (GatewayApiKey → GatewayApiKey) → Exec Bool
update_keys p f = do
  count ← reads (λ db. count_rows p db.gateway_api_keys)
  modify_db (λ db. set_keys (update_rows p f db.gateway_api_keys) db)
  pure (ltb 0 count)

-- `1 if enabled else 0 if enabled is not None else int(existing["enabled"])`
abbrev pub new_enabled : Option Bool → ℕ → ℕ
new_enabled none existing = existing
new_enabled (some true) existing = 1
new_enabled (some false) existing = 0

abbrev pub or_existing : Option String → Option String → Option String
or_existing none existing = existing
or_existing (some text) existing = some text

-- The row that is inserted.
abbrev pub new_key_row :
    AdminTools → String → Option String → (full_key key_id : String) → ℕ → GatewayApiKey
new_key_row c name note full_key key_id now = record {
  id = key_id;
  name = name;
  key_prefix = take_chars 11 full_key;
  key_hash = c.sha256_hex full_key;
  enabled = 1;
  note = note;
  created_at = now;
  last_used_at = none;
  last_used_ip = none;
  revoked_at = none;
}

module _ (env : Env) (c : AdminTools) where
  -- The answer: the full key, shown this once, and the row.
  unfoldable pub create_gateway_api_key :
      (name : String) → (note : Option String) → Exec (String × GatewayApiKey)
  unfolding generate_gateway_key insert_key_row
  create_gateway_api_key name note = do
    full_key ← generate_gateway_key c
    key_id ← uuid4_hex env
    now ← now_iso env
    let row = new_key_row c name note full_key key_id now
    insert_key_row row
    pure (full_key, row)

  unfoldable pub update_gateway_api_key :
      (key_id : String)
      → (name note : Option String) → (enabled : Option Bool) → Exec (Option GatewayApiKey)
  unfolding get_gateway_api_key update_keys
  update_gateway_api_key key_id name note enabled = reads (get_gateway_api_key key_id) >>= λ found.
      elim found [
        | none ↦ pure none
        | some existing ↦
            update_keys (λ k. k.id == key_id)
              (λ k. record k {
                name = or_else name existing.name;
                note = or_existing note existing.note;
                enabled = new_enabled enabled existing.enabled;
              })
            >>= λ _. reads (get_gateway_api_key key_id)
      ]

  unfoldable pub revoke_gateway_api_key : String → Exec Bool
  unfolding update_keys
  revoke_gateway_api_key key_id = do
    now ← now_iso env
    update_keys (λ k. k.id == key_id && is_none k.revoked_at)
        (λ k. record k { revoked_at = some now })

  unfoldable pub has_gateway_api_key_records : Db → Bool
  has_gateway_api_key_records db = ltb 0 (length db.gateway_api_keys)

  -- `hmac.compare_digest` compares.
  unfoldable pub verify_gateway_api_key : String → Db → Option GatewayApiKey
  verify_gateway_api_key input_key db =
      if is_empty input_key
      then none
      else (elim (find_row
          (λ k. k.key_hash == c.sha256_hex input_key && (k.enabled == 1) && is_none k.revoked_at)
          db.gateway_api_keys) [
            | none ↦ none
            | some row ↦ if c.sha256_hex input_key == row.key_hash then some row else none
          ])

  unfoldable pub update_gateway_api_key_last_used : String → (ip : Option String) → Exec Bool
  unfolding update_keys
  update_gateway_api_key_last_used key_id ip = do
    now ← now_iso env
    update_keys (λ k. k.id == key_id) (λ k. record k { last_used_at = some now; last_used_ip = ip })
