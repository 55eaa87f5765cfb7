-- ===== src/Evolution/Dispatches/Updates.antt =====
-- Inserting a row, settling a leased one, and marking a lost one.
use ange_media_gateway.Outbox.Requeue.{set_lost}
use ange_media_gateway.Evolution.Outbox.{
  dispatches_world_order, updated_dispatches, dispatches_order, added_dispatch, DispatchEvolves,
  DispatchesEvolve,
}
use ange_media_gateway.Evolution.Relates.{
  OnTables, Relates-dict_of_row, Relates-modify_db, Relates-reads, Relates-uuid4_hex,
  Relates-db_transaction, Relates-ensure, Relates-now_iso, Relates-bind, Relates,
}
use ange_media_gateway.Outbox.{
  update_dispatches, holds_lease, execute_update_dispatches, dispatch_row_fits, dispatch_by_id,
  dispatch_status_beq, insert_dispatch_row, mark_dispatch_published, set_published,
  release_dispatch, create_job_dispatch, update_leased, set_released,
}
use ange_media_gateway.Base.{
  string_eq, inr, ◌&&◌, or_else, ◌==◌, inl, Bool-cases, arith, Option, true, ◌≡◌, String, ℕ, Bool,
  none, refl,
}
use ange_media_gateway.Store.{modify_db, ◌>>=◌, PayloadJson, JobDispatch, Env, DispatchStatus, Db}
use ange_media_gateway.Evolution.Dispatches.Rows.{
  dispatch_status_beq_iff, DispatchEvolves-set_published, DispatchEvolves-set_released,
  DispatchEvolves-set_lost,
}

dispatch_by_id-fits :
    (d : JobDispatch) (a : Db) → dispatch_row_fits d a ≡ true → dispatch_by_id d.id a ≡ none
unfolding dispatch_row_fits dispatch_by_id
dispatch_by_id-fits d a y = ground arith

Relates-insert_dispatch_row :
    (d : JobDispatch) → Relates (OnTables DispatchesEvolve) (insert_dispatch_row d)
unfolding insert_dispatch_row ◌>>=◌
Relates-insert_dispatch_row d = record {
  at = λ w. elim (Bool-cases (dispatch_row_fits d w.db)) [
    | inl y ↦ rw y (added_dispatch w.db d (dispatch_by_id-fits d w.db y))
    | inr n ↦ rw n (dispatches_order.same_law w.db)
  ];
}

pub Relates-create_dispatch :
    (env : Env) (id topic : String) (payload : PayloadJson) (available_at : Option ℕ)
    → Relates (OnTables DispatchesEvolve) (create_job_dispatch env id topic payload available_at)
unfolding create_job_dispatch
Relates-create_dispatch env id topic payload available_at = Relates-bind (Relates-ensure _ _) λ _.
    Relates-bind (Relates-uuid4_hex env)
      λ _. Relates-bind (Relates-now_iso env) λ _. Relates-insert_dispatch_row _

Relates-execute_update_dispatches :
    (p : JobDispatch → Bool) (f : JobDispatch → JobDispatch)
    → ((d : JobDispatch) → (f d).id ≡ d.id)
    → ((d : JobDispatch) → p d ≡ true → DispatchEvolves d (f d))
    → Relates (OnTables DispatchesEvolve) (execute_update_dispatches p f)
unfolding execute_update_dispatches ◌>>=◌
Relates-execute_update_dispatches p f keeps moves = record {
  at = λ w. updated_dispatches p f w.db keeps (λ _ id d found h. moves d h);
}

-- The update under a lease.
Relates-update_leased :
    (id token : String) (f : JobDispatch → JobDispatch)
    → ((d : JobDispatch) → (f d).id ≡ d.id)
    → ((d : JobDispatch)
        → dispatch_status_beq d.status DispatchStatus.publishing ≡ true
        → DispatchEvolves d (f d))
    → Relates (OnTables DispatchesEvolve) (update_leased id token f)
unfolding update_leased
Relates-update_leased id token f keeps moves =
    Relates-bind
      (Relates-execute_update_dispatches (holds_lease id token) f keeps
        (λ d h. moves d (ground arith)))
      λ _.
        Relates-bind (Relates-ensure _ _)
          λ _. Relates-bind (Relates-reads _) λ row. Relates-dict_of_row row

pub Relates-mark_published :
    (env : Env) (id token : String) (broker : Option String)
    → Relates (OnTables DispatchesEvolve) (mark_dispatch_published env id token broker)
unfolding mark_dispatch_published set_published
Relates-mark_published env id token broker = Relates-bind (Relates-now_iso env) λ now.
    Relates-db_transaction
      (Relates-update_leased id token _ (λ d. refl) (DispatchEvolves-set_published env broker now))

pub Relates-release :
    (env : Env) (id token error : String) (available_at : Option ℕ) (terminal : Bool)
    → Relates
        (OnTables DispatchesEvolve)
        (release_dispatch env id token error available_at terminal)
unfolding release_dispatch set_released
Relates-release env id token error available_at terminal = Relates-bind (Relates-now_iso env) λ now.
    Relates-db_transaction (
      Relates-update_leased id token _ (λ d. refl)
        (DispatchEvolves-set_released env error (or_else available_at now) terminal now))

pub Relates-lost :
    (id : String) (now : ℕ)
    → Relates (OnTables DispatchesEvolve) (
        modify_db (
          update_dispatches
            (λ d. d.id == id && dispatch_status_beq d.status DispatchStatus.published)
            (set_lost now)))
Relates-lost id now = Relates-modify_db _ λ w.
    updated_dispatches _ _ w.db (λ d. refl)
      λ _ i d found h.
        DispatchEvolves-set_lost now d (dispatch_status_beq_iff d.status _ (ground arith))
