-- ===== src/Evolution/Free/Dispatches.antt =====
-- A relation that leaves the outbox free is respected by the statements on the outbox.
use ange_media_gateway.Outbox.Requeue.{set_lost}
use ange_media_gateway.Outbox.{
  dispatch_status_beq, update_dispatches, update_leased, claim_rows, create_job_dispatch,
  release_dispatch, claim_pending_dispatches, mark_dispatch_published, execute_update_dispatches,
}
use ange_media_gateway.Evolution.Relates.{
  Relates-dict_of_row, Relates-uuid4_hex, Relates-db_transaction, Relates-reads, Relates-ensure,
  Relates-now_iso, Relates-modify_db, Relates-pure, Relates-bind, Relates, IsPreorder,
}
use ange_media_gateway.Base.{string_eq, ◌&&◌, ◌==◌, Bool, Option, ℕ, String, List, [], ◌∷◌}
use ange_media_gateway.Store.{
  World, DispatchStatus, modify_db, PayloadJson, ◌>>=◌, Env, JobDispatch,
}

module _ {R : World → World → Type 0} ⦃o : IsPreorder R⦄
    (free : (a : World) (l : List JobDispatch)
      → R a (record a { db = record (a.db) { job_dispatches = l } })) where
  pub Free-create_dispatch :
      (env : Env) (id topic : String) (payload : PayloadJson) (available_at : Option ℕ)
      → Relates R (create_job_dispatch env id topic payload available_at)
  unfolding create_job_dispatch
  Free-create_dispatch env id topic payload available_at = Relates-bind (Relates-ensure _ _) λ _.
      Relates-bind (Relates-uuid4_hex env) λ _. Relates-bind (Relates-now_iso env) λ _.
        Relates-bind (Relates-reads _) λ _.
          Relates-bind (Relates-ensure _ _)
            λ _. Relates-bind (Relates-modify_db _ (λ a. free a _)) λ _. Relates-pure _

  Free-claim_rows :
      (token : String) (expires cutoff : ℕ) (l : List JobDispatch)
      → Relates R (claim_rows token expires cutoff l)
  unfolding claim_rows
  Free-claim_rows token expires cutoff [] = Relates-pure _
  Free-claim_rows token expires cutoff (d ∷ rest) =
      Relates-bind (Relates-modify_db _ (λ a. free a _)) λ _. Relates-bind (Relates-reads _) λ row.
        Relates-bind (Relates-dict_of_row row)
          λ _. Relates-bind (Free-claim_rows token expires cutoff rest) λ _. Relates-pure _

  pub Free-claim_dispatches :
      (token : String) (expires limit cutoff : ℕ)
      → Relates R (claim_pending_dispatches token expires limit cutoff)
  unfolding claim_pending_dispatches
  Free-claim_dispatches token expires limit cutoff = Relates-bind (Relates-ensure _ _) λ _.
      Relates-db_transaction
        (Relates-bind (Relates-reads _) λ l. Free-claim_rows token expires cutoff l)

  Free-execute_update_dispatches :
      (p : JobDispatch → Bool) (f : JobDispatch → JobDispatch)
      → Relates R (execute_update_dispatches p f)
  unfolding execute_update_dispatches ◌>>=◌
  Free-execute_update_dispatches p f = record { at = λ w. free w _ }

  Free-update_leased :
      (id token : String) (f : JobDispatch → JobDispatch) → Relates R (update_leased id token f)
  unfolding update_leased
  Free-update_leased id token f = Relates-bind (Free-execute_update_dispatches _ _) λ _.
      Relates-bind (Relates-ensure _ _)
        λ _. Relates-bind (Relates-reads _) λ row. Relates-dict_of_row row

  pub Free-mark_published :
      (env : Env) (id token : String) (broker : Option String)
      → Relates R (mark_dispatch_published env id token broker)
  unfolding mark_dispatch_published
  Free-mark_published env id token broker =
      Relates-bind (Relates-now_iso env) λ _. Relates-db_transaction (Free-update_leased _ _ _)

  pub Free-release :
      (env : Env) (id token error : String) (available_at : Option ℕ) (terminal : Bool)
      → Relates R (release_dispatch env id token error available_at terminal)
  unfolding release_dispatch
  Free-release env id token error available_at terminal =
      Relates-bind (Relates-now_iso env) λ _. Relates-db_transaction (Free-update_leased _ _ _)

  pub Free-lost :
      (id : String) (now : ℕ)
      → Relates R (
          modify_db (
            update_dispatches
              (λ d. d.id == id && dispatch_status_beq d.status DispatchStatus.published)
              (set_lost now)))
  Free-lost id now = Relates-modify_db _ (λ a. free a _)
