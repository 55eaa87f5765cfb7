-- ===== src/Store/Effects.antt =====
-- Python code on the database: an action reads and writes the world, and returns or raises.
use ange_media_gateway.Base.{ℕ, suc, String, Bool, true, false, Option, none, some}
use ange_media_gateway.Store.Schema.{Db, Env, World}

pub data Error : Type 0 where
  job_not_found invalid_job_transition stale_job_version : Error
  outbox_claim_lost invalid_queue_message : Error
  worker_job_not_found worker_job_not_executable : Error
  image_asset_missing video_provider_disabled video_result_missing_url : Error
  value_error type_error integrity_error runtime_error : Error
  other_error : String → Error

pub data Outcome {ℓ} (A : Type ℓ) : Type ℓ where
  ok : A → Outcome A
  raised : Error → Outcome A

abbrev pub Exec {ℓ} : Type ℓ → Type ℓ
Exec A = World → Outcome A × World

module _ {ℓ} {A : Type ℓ} where
  unfoldable pub pure : A → Exec A
  pure a w = (ok a, w)

  unfoldable pub raise : Error → Exec A
  raise e w = (raised e, w)

  -- An action that changes the tables and returns.
  unfoldable pub write : (Db → Db) → A → Exec A
  write f a w = (ok a, record w { db = f w.db })

  abbrev pub end_transaction : Db → Outcome A → World → Outcome A × World
  end_transaction before (ok a) w = (ok a, w)
  end_transaction before (raised e) w = (raised e, record w { db = before })

  -- `with db_transaction(immediate=True)`: commit on return, roll back on an exception.
  -- What is not in the tables (clock readings, provider calls) is not rolled back.
  unfoldable pub db_transaction : Exec A → Exec A
  db_transaction m w = end_transaction w.db (m w).0 (m w).1

  abbrev pub resume : Option (Exec A) → Error → Exec A
  resume none e w = (raised e, w)
  resume (some k) e w = k w

  abbrev pub handle_outcome : Outcome A → (Error → Option (Exec A)) → Exec A
  handle_outcome (ok a) h w = (ok a, w)
  handle_outcome (raised e) h w = resume (h e) e w

  -- `try: m except …: h`, where `h` answers `none` to what it does not catch.
  unfoldable pub try_except : Exec A → (Error → Option (Exec A)) → Exec A
  try_except m h w = handle_outcome (m w).0 h (m w).1

-- `conn.execute("SELECT …")`: a reading of the tables.
unfoldable pub reads {ℓ} : {A : Type ℓ} → (Db → A) → Exec A
reads f w = (ok (f w.db), w)

unfoldable pub now_iso : Env → Exec ℕ
now_iso env w = (ok (env.clock w.ticks), record w { ticks = suc w.ticks })

unfoldable pub uuid4_hex : Env → Exec String
uuid4_hex env w = (ok (env.uuid w.ticks), record w { ticks = suc w.ticks })

-- `dict(row)` of a row that a query found; of None it is a `TypeError`.
unfoldable pub dict_of_row {ℓ} : {A : Type ℓ} → Option A → Exec A
dict_of_row none w = (raised type_error, w)
dict_of_row (some a) w = (ok a, w)

-- A statement that changes the tables.
unfoldable pub modify_db : (Db → Db) → Exec (Unit {0})
modify_db f w = (ok tt, record w { db = f w.db })

-- `if not test: raise e`
unfoldable pub ensure : Bool → Error → Exec (Unit {0})
ensure true e w = (ok tt, w)
ensure false e w = (raised e, w)

module _ {ℓ κ} {A : Type ℓ} {B : Type κ} where
  abbrev pub continue : Outcome A → (A → Exec B) → Exec B
  continue (ok a) f w = f a w
  continue (raised e) f w = (raised e, w)

  infixl 5 ◌>>=◌
  -- Opening this opens the basic actions too.
  unfoldable pub ◌>>=◌ : Exec A → (A → Exec B) → Exec B
  unfolding pure raise write reads now_iso uuid4_hex modify_db ensure dict_of_row
  ◌>>=◌ m f w = continue (m w).0 f (m w).1

module _ {κ} {B : Type κ} where
  infixl 5 ◌>>◌
  abbrev pub ◌>>◌ : Exec (Unit {0}) → Exec B → Exec B
  m >> n = m >>= λ _. n

-- `try: m except Exception as e: …`, with the outcome handed on as a value.
unfoldable pub catch_all {ℓ} : {A : Type ℓ} → Exec A → Exec (Outcome A)
catch_all m w = (ok (m w).0, (m w).1)
