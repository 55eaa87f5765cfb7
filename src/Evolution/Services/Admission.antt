-- ===== src/Evolution/Services/Admission.antt =====
-- Admission respects what the repositories' statements respect.
use ange_media_gateway.Text.{is_empty}
use ange_media_gateway.Admission.{
  require_job, AdmissionRequest, admit_new, dedupe_candidates, admit_or_reuse, admit, or_now_iso,
  check_request,
}
use ange_media_gateway.Base.{none, some, [], ◌∷◌, some, ℕ, String, Option, List}
use ange_media_gateway.Store.{World, Job, Env}
use ange_media_gateway.Evolution.Relates.{
  Relates-ensure, Relates-raise, IsPreorder, Relates, Relates-pure, Relates-bind, Relates-now_iso,
  Relates-reads, Relates-if, Relates-db_transaction,
}
use ange_media_gateway.Evolution.Primitives.{statements_order, primitives_statements, Primitives}

module _ {R : World → World → Type 0} ⦃o : IsPreorder R⦄ where
  Relates-dedupe_candidates :
      (l : List (Option String × Option ℕ)) → Relates R (dedupe_candidates l)
  unfolding dedupe_candidates
  Relates-dedupe_candidates [] = Relates-pure _
  Relates-dedupe_candidates ((some hash, some version) ∷ rest) =
      Relates-if (is_empty hash) (Relates-dedupe_candidates rest) (
        Relates-bind (Relates-ensure _ _)
          λ _. Relates-bind (Relates-dedupe_candidates rest) λ _. Relates-pure _)
  Relates-dedupe_candidates ((some hash, none) ∷ rest) = Relates-dedupe_candidates rest
  Relates-dedupe_candidates ((none, version) ∷ rest) = Relates-dedupe_candidates rest

  pub Relates-check_request : (r : AdmissionRequest) → Relates R (check_request r)
  unfolding check_request
  Relates-check_request r = Relates-bind (Relates-ensure _ _) λ _.
      Relates-bind (Relates-ensure _ _) λ _. Relates-bind (Relates-ensure _ _) λ _.
        Relates-bind (Relates-ensure _ _) λ _.
          Relates-bind (Relates-dedupe_candidates r.dedupe_hashes) λ _.
            Relates-bind (Relates-ensure _ _)
              λ _. Relates-bind (Relates-ensure _ _) λ _. Relates-pure _

module _ {R : World → World → Type 0} ⦃k : Primitives R⦄ where
  Relates-require_job : (o : Option Job) → Relates R (require_job o)
  Relates-require_job none = Relates-raise _
  Relates-require_job (some j) = Relates-pure j

  Relates-or_now_iso : (env : Env) (o : Option ℕ) → Relates R (or_now_iso env o)
  Relates-or_now_iso env none = Relates-now_iso env
  Relates-or_now_iso env (some t) = Relates-pure t

  pub Relates-admit_new : (env : Env) (r : AdmissionRequest) → Relates R (admit_new env r)
  unfolding admit_new
  Relates-admit_new env r = Relates-bind (k.of_insert_job env _) λ inserted.
      Relates-bind (Relates-require_job inserted) λ job.
        Relates-bind (k.statements.of_event env _ _ _ _ _ _) λ _.
          Relates-bind (Relates-or_now_iso env r.scheduled_at)
            λ _. Relates-bind (k.of_create_dispatch env _ _ _ _) λ _. Relates-pure _

  Relates-admit_or_reuse :
      (env : Env) (r : AdmissionRequest) (o : Option Job) → Relates R (admit_or_reuse env r o)
  unfolding admit_or_reuse
  Relates-admit_or_reuse env r none = Relates-admit_new env r
  Relates-admit_or_reuse env r (some j) = Relates-pure _

  pub Relates-admit : (env : Env) (r : AdmissionRequest) → Relates R (admit env r)
  unfolding admit
  Relates-admit env r = Relates-bind (Relates-check_request r) λ _.
      Relates-db_transaction
        (Relates-bind (Relates-reads _) λ found. Relates-admit_or_reuse env r found)
