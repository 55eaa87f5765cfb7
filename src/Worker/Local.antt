-- ===== src/Worker/Local.antt =====
-- queue/local_backend.py: the backend that runs the worker in the dispatcher's own process.
use ange_media_gateway.Worker.Recovery.{handle_duplicate, handle_unhandled}
use ange_media_gateway.Outbox.{worker_task_name}
use ange_media_gateway.Message.{JobStageMessage, to_dict}
use ange_media_gateway.Worker.Runtime.{
  handle, StageResult, inflight, ambiguous, duplicate, Registry, ResultStatus,
}
use Prim.Native.String.{◌++◌}
use ange_media_gateway.Base.{string_eq, if◌then◌else◌, String, false, true, Bool, ◌==◌}
use ange_media_gateway.Store.{
  ok, pure, ◌>>=◌, catch_all, ◌>>◌, raised, value_error, Outcome, ensure, Error, Exec, Env,
}

-- `result.get("status") in {"duplicate", "ambiguous", "inflight"}`
abbrev pub is_ambiguous : ResultStatus → Bool
is_ambiguous duplicate = true
is_ambiguous ambiguous = true
is_ambiguous inflight = true
is_ambiguous _ = false

-- `describe` and `type_name` are `str` of an exception and the name of its type.
module _ (env : Env) (registry : Registry) (refresh : Exec (Unit {0}))
    (describe type_name : Error → String) where
  -- What follows the run of the worker.
  unfoldable pub settle_delivery : JobStageMessage → Outcome StageResult → Exec (Unit {0})
  settle_delivery m (raised e) = handle_unhandled env m (describe e) (type_name e) >>= λ _. pure tt
  settle_delivery m (ok r) =
      if is_ambiguous r.status then (handle_duplicate env m >>= λ _. pure tt) else pure tt

  -- `publish`
  unfoldable pub publish : String → JobStageMessage → Exec String
  unfolding settle_delivery to_dict
  publish topic m =
      ensure (topic == worker_task_name) value_error
      >> (catch_all (handle env "local" registry refresh (to_dict m)) >>= λ r.
          settle_delivery m r >> pure ("local-" ++ m.dispatch_id))
