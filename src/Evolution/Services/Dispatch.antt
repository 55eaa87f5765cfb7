-- ===== src/Evolution/Services/Dispatch.antt =====
-- The dispatcher and the repair of lost messages respect what the statements that they run respect.
use ange_media_gateway.Message.{JobStageMessage}
use ange_media_gateway.Evolution.Relates.{
  Relates-option, Relates-outcome, Relates-if, Relates-uuid4_hex, Relates-try_except,
  Relates-catch_all, Relates-reads, Relates-db_transaction, Relates-raise, Relates-now_iso,
  Relates-pure, Relates-bind, Relates,
}
use ange_media_gateway.Dispatcher.{
  publish_row, handle_failure, DispatchBatchResult, lost_to_failed, lift, send, dispatch_row_once,
  dispatch_rows, give_back, acknowledge, dispatch_once, JobDispatcher,
}
use ange_media_gateway.Outbox.Requeue.{
  loaded, repair_dispatch, requeue_rows, requeue_orphaned_published_dispatches,
}
use ange_media_gateway.Evolution.Primitives.{statements_order, primitives_statements, Primitives}
use mathlib.Core.Option.{some-injective}
use ange_media_gateway.Base.{Option, none, subst, ◌≡◌, suc, String, ℕ, List, some, [], ◌∷◌}
use ange_media_gateway.Store.{
  World, not_object, not_json, outbox_claim_lost, Outcome, object, Error, Exec, Job, PayloadJson,
  JobDispatch, Env, raised, ok,
}

module _ {R : World → World → Type 0} ⦃k : Primitives R⦄ where
  module _ (env : Env) (c : JobDispatcher) (publish : String → JobStageMessage → Exec String)
      (describe : Error → String)
      (publish_related : (topic : String) (m : JobStageMessage) → Relates R (publish topic m)) where
    Relates-lift : {A : Type 0} (r : Outcome A) → Relates R (lift r)
    Relates-lift (ok a) = Relates-pure a
    Relates-lift (raised e) = Relates-raise e

    Relates-send : (d : JobDispatch) → Relates R (send env c publish describe d)
    unfolding send
    Relates-send d = Relates-bind (Relates-lift _) λ m.
        Relates-bind (k.statements.of_event env _ _ _ _ _ _)
          λ _. Relates-bind (publish_related _ _) λ _. Relates-pure _

    Relates-acknowledge :
        (token : String) (d : JobDispatch) (m : JobStageMessage) (broker : String)
        (r : DispatchBatchResult)
        → Relates R (acknowledge env c publish describe token d m broker r)
    unfolding acknowledge
    Relates-acknowledge token d m broker r =
        Relates-bind (Relates-catch_all (k.of_mark_published env _ _ _)) λ o.
          Relates-outcome o (λ e. Relates-pure _)
            λ row.
              Relates-bind (Relates-catch_all (k.statements.of_event env _ _ _ _ _ _))
                λ _. Relates-pure _

    Relates-publish_row :
        (token : String) (d : JobDispatch) (r : DispatchBatchResult)
        → Relates R (publish_row env c publish describe token d r)
    unfolding publish_row
    Relates-publish_row token d r =
        Relates-bind (Relates-catch_all (Relates-send d))
          λ o. Relates-outcome o (λ e. Relates-pure _) (λ p. Relates-acknowledge token d p.0 p.1 r)

    lost_related :
        (r : DispatchBatchResult) (e : Error) (m : Exec DispatchBatchResult)
        → lost_to_failed r e ≡ some m
        → Relates R m
    lost_related r outbox_claim_lost m h = subst (Relates R) (some-injective _ _ h) (Relates-pure _)
    lost_related r _ m h = cc

    Relates-give_back :
        (now : ℕ) (token : String) (d : JobDispatch) (e : Error) (r : DispatchBatchResult)
        → Relates R (give_back env c publish describe now token d e r)
    unfolding give_back
    Relates-give_back now token d e r = Relates-bind (Relates-lift _) λ delay.
        Relates-try_except
          (Relates-bind (k.of_release env _ _ _ _ _)
            λ _. Relates-bind (k.statements.of_event env _ _ _ _ _ _) λ _. Relates-pure _)
          (lost_related r)

    Relates-handle_failure :
        (now : ℕ) (token : String) (d : JobDispatch) (broker : Option String) (e : Error)
        (r : DispatchBatchResult)
        → Relates R (handle_failure env c publish describe now token d broker e r)
    unfolding handle_failure
    Relates-handle_failure now token d (some broker) e r = Relates-pure _
    Relates-handle_failure now token d none e r = Relates-give_back now token d e r

    Relates-dispatch_row_once :
        (now : ℕ) (token : String) (d : JobDispatch) (r : DispatchBatchResult)
        → Relates R (dispatch_row_once env c publish describe now token d r)
    unfolding dispatch_row_once
    Relates-dispatch_row_once now token d r = Relates-bind (Relates-publish_row token d r) λ p.
        Relates-outcome p.ended
          (λ e. Relates-handle_failure now token d p.broker_message_id e p.counts)
          (λ done. Relates-pure _)

    Relates-dispatch_rows :
        (now : ℕ) (token : String) (l : List JobDispatch) (r : DispatchBatchResult)
        → Relates R (dispatch_rows env c publish describe now token l r)
    unfolding dispatch_rows
    Relates-dispatch_rows now token [] r = Relates-pure r
    Relates-dispatch_rows now token (d ∷ rest) r =
        Relates-bind (Relates-dispatch_row_once now token d r)
          λ counts. Relates-dispatch_rows now token rest counts

    pub Relates-dispatch_once : Relates R (dispatch_once env c publish describe)
    unfolding dispatch_once
    Relates-dispatch_once = Relates-bind (Relates-now_iso env) λ now.
        Relates-bind (Relates-uuid4_hex env) λ token.
          Relates-bind (k.of_claim_dispatches _ _ _ _) λ l. Relates-dispatch_rows now token l _

  Relates-loaded : (p : PayloadJson) → Relates R (loaded p)
  Relates-loaded not_json = Relates-raise _
  Relates-loaded not_object = Relates-pure _
  Relates-loaded (object stage attempt rest) = Relates-pure _

  Relates-repair_dispatch :
      (env : Env) (now : ℕ) (job : Job) (old : JobDispatch)
      → Relates R (repair_dispatch env now job old)
  unfolding repair_dispatch
  Relates-repair_dispatch env now job old = Relates-bind (k.of_lost old.id now) λ _.
      Relates-bind (Relates-loaded old.payload_json)
        λ _. Relates-bind (k.of_create_dispatch env _ _ _ _) λ _. Relates-pure _

  Relates-requeue_rows :
      (env : Env) (now : ℕ) (jobs : List Job) (repaired skipped : ℕ)
      → Relates R (requeue_rows env now jobs repaired skipped)
  unfolding requeue_rows
  Relates-requeue_rows env now [] repaired skipped = Relates-pure _
  Relates-requeue_rows env now (job ∷ rest) repaired skipped =
      let skip = Relates-requeue_rows env now rest repaired (suc skipped) in
      let repair = Relates-requeue_rows env now rest (suc repaired) skipped in
      Relates-bind (Relates-reads _) λ attempted. Relates-bind (Relates-reads _) λ found.
        Relates-if attempted skip (
          Relates-option found skip
            λ old. Relates-bind (Relates-repair_dispatch env now job old) λ _. repair)

  pub Relates-requeue :
      (env : Env) (strip : String → String) (ids : List String) (limit : ℕ)
      → Relates R (requeue_orphaned_published_dispatches env strip ids limit)
  unfolding requeue_orphaned_published_dispatches
  Relates-requeue env strip ids limit = Relates-bind (Relates-now_iso env) λ now.
      Relates-db_transaction
        (Relates-bind (Relates-reads _) λ rows. Relates-requeue_rows env now rows 0 0)
