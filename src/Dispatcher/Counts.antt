-- ===== src/Dispatcher/Counts.antt =====
-- How `dispatch_once` counts the rows that it claimed.
use ange_media_gateway.Store.{World, uuid4_hex, now_iso, ok, raised, JobDispatch, Error, Exec, Env}
use ange_media_gateway.Outbox.{claim_pending_dispatches}
use ange_media_gateway.Message.{JobStageMessage}
use ange_media_gateway.Store.Success.{
  Returns, Returns-bind, Returns-outcome, Returns-pure, Returns-any, Returns-try_except,
}
use mathlib.Core.Option.{some-injective}
use ange_media_gateway.Store.{outbox_claim_lost}
use ange_media_gateway.Base.{Bool, true, false, if◌then◌else◌}
use ange_media_gateway.Base.{subst, some, none, Option}
use ange_media_gateway.Store.Success.{bind_returns}
use ange_media_gateway.Base.{◌*◌, [], ◌∷◌, List, ◌∷◌, length, List, ◌+◌, ◌≡◌, String, suc, ℕ, arith}
use ange_media_gateway.Dispatcher.{
  second, DispatchBatchResult, dispatch_rows, dispatch_row_once, dispatch_once, JobDispatcher,
  Progress, publish_row, acknowledge, give_back, handle_failure, lost_to_failed, one_failed,
  one_retried,
}

abbrev pub Balanced : DispatchBatchResult → ℕ → Type 0
Balanced r left = r.claimed ≡ r.published + r.retried + r.failed + left

-- What the body of the outer `try` leaves: a row is counted if the body ends, and not if it raises.
abbrev InProgress : Progress → ℕ → Type 0
InProgress p left = elim p.ended [
  | raised e ↦ Balanced p.counts (suc left)
  | ok done ↦ Balanced p.counts left
]

module _ (env : Env) (c : JobDispatcher) (publish : String → JobStageMessage → Exec String)
    (describe : Error → String) where
  acknowledge_counts :
      (claim_token : String) (d : JobDispatch) (m : JobStageMessage) (id : String)
      (r : DispatchBatchResult) (left : ℕ)
      → Balanced r (suc left)
      → Returns (λ p. InProgress p left) (acknowledge env c publish describe claim_token d m id r)
  unfolding acknowledge
  acknowledge_counts claim_token d m id r left h = Returns-bind (Returns-any _) λ o _.
      Returns-outcome o (λ e _. Returns-pure _ h)
        λ row _. Returns-bind (Returns-any _) λ logged _. Returns-pure _ (omega arith)

  publish_row_counts :
      (claim_token : String) (d : JobDispatch) (r : DispatchBatchResult) (left : ℕ)
      → Balanced r (suc left)
      → Returns (λ p. InProgress p left) (publish_row env c publish describe claim_token d r)
  unfolding publish_row
  publish_row_counts claim_token d r left h = Returns-bind (Returns-any _) λ o _.
      Returns-outcome o (λ e _. Returns-pure _ h)
        λ p _. acknowledge_counts claim_token d p.0 p.1 r left h

  lost_counts :
      (r : DispatchBatchResult) (left : ℕ) (e : Error) (k : Exec DispatchBatchResult)
      → Balanced r (suc left)
      → lost_to_failed r e ≡ some k
      → Returns (λ out. Balanced out left) k
  lost_counts r left outbox_claim_lost k h same =
      subst (Returns (λ out. Balanced out left)) (some-injective _ _ same)
        (Returns-pure _ (omega arith))
  lost_counts r left _ k h same = cc

  given_back :
      (b : Bool) (r : DispatchBatchResult) (left : ℕ)
      → Balanced r (suc left)
      → Balanced (if b then one_failed r else one_retried r) left
  given_back true r left h = omega arith
  given_back false r left h = omega arith

  handle_failure_counts :
      (now : ℕ) (claim_token : String) (d : JobDispatch) (broker : Option String) (e : Error)
      (r : DispatchBatchResult) (left : ℕ)
      → Balanced r (suc left)
      → Returns
          (λ out. Balanced out left)
          (handle_failure env c publish describe now claim_token d broker e r)
  unfolding handle_failure give_back
  handle_failure_counts now claim_token d (some id) e r left h = Returns-pure _ (omega arith)
  handle_failure_counts now claim_token d none e r left h = Returns-bind (Returns-any _) λ delay _.
      Returns-try_except
        (Returns-bind (Returns-any _) λ released _.
          Returns-bind (Returns-any _) λ event _. Returns-pure _ (given_back _ r left h))
        (λ x k same. lost_counts r left x k h same)

  row_counted :
      (now : ℕ) (claim_token : String) (d : JobDispatch) (r : DispatchBatchResult) (left : ℕ)
      → Balanced r (suc left)
      → Returns
          (λ out. Balanced out left)
          (dispatch_row_once env c publish describe now claim_token d r)
  unfolding dispatch_row_once
  row_counted now claim_token d r left h =
      Returns-bind (publish_row_counts claim_token d r left h) λ p counted.
        Returns-outcome p.ended
          (λ e same.
            handle_failure_counts now claim_token d p.broker_message_id e p.counts left
              (rw same at counted))
          (λ done same. Returns-pure _ (rw same at counted))

  rows_counted :
      (now : ℕ) (claim_token : String) (rows : List JobDispatch) (r : DispatchBatchResult)
      → Balanced r (length rows)
      → Returns
          (λ out. Balanced out 0)
          (dispatch_rows env c publish describe now claim_token rows r)
  unfolding dispatch_rows
  rows_counted now claim_token [] r h = Returns-pure _ h
  rows_counted now claim_token (d ∷ rest) r h =
      Returns-bind (row_counted now claim_token d r (length rest) h)
        λ counts balanced. rows_counted now claim_token rest counts balanced

  -- A round of the dispatcher that returns has counted every row that it leased exactly once: as
  -- published, as retried or as failed.
  pub dispatch_once_counts :
      (w : World) (out : DispatchBatchResult)
      → (dispatch_once env c publish describe w).0 ≡ ok out
      → out.claimed ≡ out.published + out.retried + out.failed
  unfolding dispatch_once
  dispatch_once_counts w out h =
      let (now, read, h1, same) = bind_returns (now_iso env) _ w out h in
      let (claim_token, drawn, h2, same) = bind_returns (uuid4_hex env) _ _ out h1 in
      let (dispatches, leased, h3, same) =
        bind_returns
          (claim_pending_dispatches claim_token (now + c.lease_seconds * second) c.batch_size now) _
          _ out h2 in
      let total = (rows_counted now claim_token dispatches _ (omega arith)).holds _ out h3 in
      omega arith
