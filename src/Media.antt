-- ===== src/Media.antt =====
-- repositories/generations.py, repositories/assets.py and services/generation_assets.py: what a job
-- leaves behind when it succeeds.
use ange_media_gateway.Text.{generated_path, sanitize_error_text, is_empty}
use ange_media_gateway.Base.{
  or_else, update_rows, ◌++◌, suc, is_some, string_eq, ◌&&◌, if◌then◌else◌, ◌==◌, not, find_row,
  false, is_none, ℕ, Bool, List, String, Option, none, some, [], ◌∷◌,
}
use ange_media_gateway.Store.{
  Asset, other_error, ensure, modify_db, ◌>>◌, integrity_error, now_iso, try_except, uuid4_hex,
  raise, ◌>>=◌, reads, pure, Error, Kind, Exec, Env, Generation, Db,
}

abbrev pub is_text : Option String → Bool
is_text none = false
is_text (some s) = not (is_empty s)

-- `WHERE job_id=?`
abbrev pub is_generation_of : Option String → Generation → Bool
is_generation_of none g = false
is_generation_of (some id) g = elim g.job_id [ none ↦ false | some j ↦ j == id ]

unfoldable pub generation_of_job : Option String → Db → Option Generation
generation_of_job job_id db = find_row (is_generation_of job_id) db.generations

-- The primary key, and the index `uq_generations_job_id`.
unfoldable pub generation_row_fits : Generation → Db → Bool
unfolding generation_of_job
generation_row_fits g db =
    is_none (find_row (λ x. x.id == g.id) db.generations) && is_none (generation_of_job g.job_id db)

unfoldable pub insert_generation_row : Generation → Exec (Unit {0})
unfolding generation_row_fits
insert_generation_row g = do
  fits ← reads (generation_row_fits g)
  ensure fits integrity_error
  modify_db (λ db. record db { generations = db.generations ++ g ∷ [] })

-- `except sqlite3.IntegrityError`: another writer may have recorded the job's generation.
unfoldable pub recorded_before : Option String → Error → Option (Exec String)
unfolding generation_of_job
recorded_before job_id integrity_error =
    if is_text job_id
    then some (
        reads (generation_of_job job_id) >>= λ existing. elim existing [
          | none ↦ raise integrity_error
          | some g ↦ pure g.id
        ])
    else none
recorded_before job_id _ = none

-- The `write` of `record_generation`.
unfoldable pub write_generation : Generation → Exec String
unfolding insert_generation_row recorded_before
write_generation g = do
  existing ← reads (λ db. if is_text g.job_id then generation_of_job g.job_id db else none)
  elim existing [
    | some old ↦ pure old.id
    | none ↦ try_except (insert_generation_row g >> pure g.id) (recorded_before g.job_id)
  ]

-- The keyword arguments of `record_generation`.
pub record NewGeneration : Type 0 where
  pub media_type : Kind
  pub prompt : String
  pub enhanced_prompt : Option String
  pub model : Option String
  pub status : String
  pub task_id : Option String
  pub provider : Option String
  pub request_model : Option String
  pub input_mode : Option String
  pub duration_ms : ℕ
  pub started_at : Option ℕ
  pub job_id : Option String

abbrev pub generation_row : Env → NewGeneration → String → ℕ → Generation
unfolding sanitize_error_text
generation_row env g record_id completed_at = record {
  id = record_id;
  media_type = g.media_type;
  prompt =
      if is_text g.job_id
      then or_else (sanitize_error_text env (some g.prompt) 8000) ""
      else g.prompt;
  enhanced_prompt = g.enhanced_prompt;
  model = g.model;
  status = g.status;
  task_id = g.task_id;
  job_id = g.job_id;
  created_at = completed_at;
  updated_at = completed_at;
  provider = g.provider;
  request_model = g.request_model;
  input_mode = g.input_mode;
  duration_ms = g.duration_ms;
  started_at = or_else g.started_at completed_at;
  completed_at = completed_at;
}

unfoldable pub record_generation : Env → NewGeneration → Exec String
unfolding write_generation
record_generation env g = do
  record_id ← uuid4_hex env
  completed_at ← now_iso env
  write_generation (generation_row env g record_id completed_at)

-- `CASE WHEN assets.job_id IS NULL AND excluded.job_id IS NOT NULL THEN …`
abbrev pub kept_job : Option String → Option String → Option String
kept_job none new = new
kept_job (some old) new = some old

-- `UNIQUE(storage_area, relative_path)`
abbrev pub same_file : Asset → Asset → Bool
same_file new old = old.storage_area == new.storage_area && old.relative_path == new.relative_path

-- `DO UPDATE SET`: the id and `created_at` of the old row stay.
unfoldable pub set_asset : Asset → Asset → Asset
set_asset new old = record new {
  id = old.id;
  created_at = old.created_at;
  job_id = kept_job old.job_id new.job_id;
}

abbrev pub clean_asset : Env → ℕ → Asset → Asset
unfolding sanitize_error_text
clean_asset env now a = record a {
  prompt = sanitize_error_text env a.prompt 8000;
  model = sanitize_error_text env a.model 256;
  provider = sanitize_error_text env a.provider 256;
  created_at = now;
}

-- `INSERT … ON CONFLICT(storage_area, relative_path) DO UPDATE`; another conflict becomes an
-- `HTTPException`.
unfoldable pub write_asset : Asset → Exec (Unit {0})
unfolding set_asset
write_asset new = do
  there ← reads (λ db. is_some (find_row (same_file new) db.assets))
  if there
      then modify_db
          (λ db. record db { assets = update_rows (same_file new) (set_asset new) db.assets })
      else reads (λ db. is_none (find_row (λ a. a.id == new.id) db.assets)) >>= λ fits.
          ensure fits (other_error "HTTPException")
          >> modify_db (λ db. record db { assets = db.assets ++ new ∷ [] })

-- The keyword arguments are the columns; `created_at` is read here.
unfoldable pub save_asset : Env → Asset → Exec (Unit {0})
unfolding write_asset
save_asset env a = do now ← now_iso env; write_asset (clean_asset env now a)

-- What a worker says of the pictures that it made.
pub record GeneratedMedia : Type 0 where
  pub media_type : Kind
  pub prompt : String
  pub model : Option String
  pub provider : Option String
  pub duration_ms : ℕ

abbrev pub generated_asset : String → String × ℕ → GeneratedMedia → Option String → Asset
generated_asset id (filename, size) g job_id = record {
  id = id;
  filename = filename;
  storage_area = "output";
  relative_path = filename;
  url_path = generated_path filename;
  media_type = g.media_type;
  source = "generated";
  size = size;
  prompt = some g.prompt;
  model = g.model;
  provider = g.provider;
  duration_ms = some g.duration_ms;
  created_at = 0;
  job_id = job_id;
}

-- `files` are the generated output files that exist, with their sizes.
unfoldable pub save_generated_asset :
    Env → List (String × ℕ) → GeneratedMedia → Option String → Exec ℕ
unfolding save_asset
save_generated_asset env [] g job_id = pure 0
save_generated_asset env (file ∷ rest) g job_id = do
  id ← uuid4_hex env
  save_asset env (generated_asset id file g job_id)
  saved ← save_generated_asset env rest g job_id
  pure (suc saved)
