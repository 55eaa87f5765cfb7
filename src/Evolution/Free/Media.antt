-- ===== src/Evolution/Free/Media.antt =====
-- A relation that leaves generations and assets free is respected by the statements on these.
use ange_media_gateway.VideoTasks.{
  TaskResult, upsert_video_task, write_video_task, validate_provider_external_id,
}
use mathlib.Core.Option.{some-injective}
use ange_media_gateway.Media.{
  NewGeneration, GeneratedMedia, write_asset, is_text, write_generation, save_generated_asset,
  save_asset, insert_generation_row, record_generation, recorded_before,
}
use ange_media_gateway.Evolution.Relates.{
  Relates-raise, Relates-modify_db, Relates-try_except, Relates-if, Relates-option, Relates-ensure,
  Relates-pure, Relates-now_iso, Relates-uuid4_hex, Relates-reads, Relates-bind, Relates,
  IsPreorder,
}
use ange_media_gateway.Base.{
  Bool, ℕ, inr, subst, inl, Bool-cases, ◌≡◌, String, Option, List, some, [], ◌∷◌,
}
use ange_media_gateway.Store.{
  VideoTask, integrity_error, Exec, Error, Env, Generation, Asset, World,
}

module _ {R : World → World → Type 0} ⦃o : IsPreorder R⦄
    (free_generations : (a : World) (l : List Generation)
      → R a (record a { db = record (a.db) { generations = l } })) where
  Free-insert_generation_row : (g : Generation) → Relates R (insert_generation_row g)
  unfolding insert_generation_row
  Free-insert_generation_row g =
      Relates-bind (Relates-reads _)
        λ _. Relates-bind (Relates-ensure _ _) λ _. Relates-modify_db _ (λ a. free_generations a _)

  recorded_related :
      (job_id : Option String) (e : Error) (m : Exec String)
      → recorded_before job_id e ≡ some m
      → Relates R m
  unfolding recorded_before
  recorded_related job_id integrity_error m h = elim (Bool-cases (is_text job_id)) [
    | inl y ↦ subst (Relates R) (some-injective _ _ (rw y at h)) (
        Relates-bind (Relates-reads _)
          λ existing. Relates-option existing (Relates-raise _) (λ g. Relates-pure _))
    | inr n ↦ cc
  ]
  recorded_related job_id _ m h = cc

  Free-write_generation : (g : Generation) → Relates R (write_generation g)
  unfolding write_generation
  Free-write_generation g = Relates-bind (Relates-reads _) λ existing.
      Relates-option existing
        (Relates-try_except (Relates-bind (Free-insert_generation_row _) λ _. Relates-pure _)
          (recorded_related g.job_id))
        (λ old. Relates-pure _)

  pub Free-generation : (env : Env) (g : NewGeneration) → Relates R (record_generation env g)
  unfolding record_generation
  Free-generation env g =
      Relates-bind (Relates-uuid4_hex env)
        λ id. Relates-bind (Relates-now_iso env) λ _. Free-write_generation _

module _ {R : World → World → Type 0} ⦃o : IsPreorder R⦄
    (free_assets : (a : World) (l : List Asset)
      → R a (record a { db = record (a.db) { assets = l } })) where
  Free-save_asset : (env : Env) (new : Asset) → Relates R (save_asset env new)
  unfolding save_asset write_asset
  Free-save_asset env new = Relates-bind (Relates-now_iso env) λ _.
      Relates-bind (Relates-reads _) λ there.
        Relates-if there (Relates-modify_db _ (λ a. free_assets a _)) (
          Relates-bind (Relates-reads _)
            λ _. Relates-bind (Relates-ensure _ _) λ _. Relates-modify_db _ (λ a. free_assets a _))

  pub Free-assets :
      (env : Env) (files : List (String × ℕ)) (g : GeneratedMedia) (job_id : Option String)
      → Relates R (save_generated_asset env files g job_id)
  unfolding save_generated_asset
  Free-assets env [] g job_id = Relates-pure _
  Free-assets env (file ∷ rest) g job_id = Relates-bind (Relates-uuid4_hex env) λ id.
      Relates-bind (Free-save_asset env _)
        λ _. Relates-bind (Free-assets env rest g job_id) λ _. Relates-pure _

module _ {R : World → World → Type 0} ⦃o : IsPreorder R⦄
    (free_video_tasks : (a : World) (l : List VideoTask)
      → R a (record a { db = record (a.db) { video_tasks = l } })) where
  Free-write_video_task : (new : VideoTask) → Relates R (write_video_task new)
  unfolding write_video_task
  Free-write_video_task new =
      Relates-bind (Relates-reads _) λ there. Relates-modify_db _ λ a. free_video_tasks a _

  Free-validate_provider_external_id :
      (text : String) → Relates R (validate_provider_external_id text)
  unfolding validate_provider_external_id
  Free-validate_provider_external_id text = Relates-bind (Relates-ensure _ _) λ _. Relates-pure _

  pub Free-video_task :
      (env : Env) (is_local : String → Bool) (task_id prompt model status : String) (r : TaskResult)
      (duration_ms : ℕ)
      → Relates R (upsert_video_task env is_local task_id prompt model status r duration_ms)
  unfolding upsert_video_task
  Free-video_task env is_local task_id prompt model status r duration_ms =
      Relates-bind (Free-validate_provider_external_id task_id) λ _.
        Relates-bind (Relates-now_iso env)
          λ _. Relates-bind (Relates-now_iso env) λ _. Free-write_video_task _
