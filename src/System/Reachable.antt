-- ===== src/System/Reachable.antt =====
-- Relations between the first and the last state of a run of the gateway.
use ange_media_gateway.Evolution.Services.{
  Relates-handle_asset_import, Relates-handle_poll, Relates-handle_submit, Relates-requeue,
  Relates-transition_current, Relates-update_job_status, Relates-handle_unhandled,
  Relates-handle_image, Relates-handle, Relates-publish, Relates-dispatch_once, Relates-admit,
}
use ange_media_gateway.Evolution.Relates.{OnTables, Relates-pure, Relates}
use ange_media_gateway.Worker.Runtime.{StageHandler}
use ange_media_gateway.Evolution.Outbox.{
  DispatchesKept, DispatchesKeyed, dispatches_world_order, DispatchesEvolve,
}
use ange_media_gateway.Evolution.Moves.{jobs_order, JobsEvolve}
use ange_media_gateway.Evolution.Primitives.{statements_order, primitives_statements, Primitives}
use ange_media_gateway.System.{
  no_refresh, local_publish, stage_registry, JobStageMessage, Step, Reach, Gateway,
}
use mathlib.Core.Option.{some-injective}
use ange_media_gateway.Evolution.Log.{log_world_order, LogGrows, log_primitives}
use ange_media_gateway.Evolution.Jobs.{jobs_primitives}
use ange_media_gateway.Evolution.Attempts.{
  attempts_world_order, AttemptsEvolve, attempts_primitives,
}
use ange_media_gateway.Evolution.Dispatches.{dispatches_primitives}
use ange_media_gateway.Base.{subst, ◌≡◌, String, List, some}
use ange_media_gateway.Store.{
  asset_import, video_poll, video_submit, image_generate, Job, Stage, World,
}

module _ (R : World → World → Type 0) ⦃k : Primitives R⦄ (g : Gateway)
    (calls_free : (a : World) (l : List (String × Stage)) → R a (record a { calls = l })) where
  handlers_related :
      (stage : Stage) (h : StageHandler)
      → stage_registry g stage ≡ some h
      → (m : JobStageMessage) (job : Job) → Relates R (h m job)
  unfolding stage_registry
  handlers_related image_generate h e m job =
      subst (λ (x : StageHandler). Relates R (x m job)) (some-injective _ _ e)
        (Relates-handle_image g.env g.worker calls_free m job)
  handlers_related video_submit h e m job =
      subst (λ (x : StageHandler). Relates R (x m job)) (some-injective _ _ e)
        (Relates-handle_submit g.env g.video calls_free m job)
  handlers_related video_poll h e m job =
      subst (λ (x : StageHandler). Relates R (x m job)) (some-injective _ _ e)
        (Relates-handle_poll g.env g.video calls_free m job)
  handlers_related asset_import h e m job =
      subst (λ (x : StageHandler). Relates R (x m job)) (some-injective _ _ e)
        (Relates-handle_asset_import g.env g.video calls_free m job)
  handlers_related _ h e m job = cc

  publish_related : (topic : String) (m : JobStageMessage) → Relates R (local_publish g topic m)
  publish_related topic m =
      Relates-publish {R = R} g.env (stage_registry g) handlers_related no_refresh (Relates-pure tt)
        g.worker.describe g.worker.type_name topic m

  pub Step-related : {a b : World} → Step g a b → R a b
  Step-related (Step.admission w r) = (Relates-admit {R = R} g.env r).at w
  Step-related (Step.dispatch w) =
      (Relates-dispatch_once {R = R} g.env g.dispatcher (local_publish g) g.worker.describe
          publish_related).at
        w
  Step-related (Step.delivery w worker_kind raw) =
      (Relates-handle {R = R} g.env worker_kind (stage_registry g) handlers_related no_refresh
          (Relates-pure tt) raw).at
        w
  Step-related (Step.recovery w m error type_name) =
      (Relates-handle_unhandled {R = R} g.env m error type_name).at w
  Step-related (Step.status_update w id status v stage event_type fields) =
      (Relates-update_job_status {R = R} g.env id status v stage event_type fields).at w
  Step-related (Step.lifecycle w id status fields) =
      (Relates-transition_current {R = R} g.env id status fields).at w
  Step-related (Step.requeue w strip ids limit) =
      (Relates-requeue {R = R} g.env strip ids limit).at w

  pub Reach-related : {a b : World} → Reach g a b → R a b
  Reach-related {a} Reach.here = k.statements.order.refl_law a
  Reach-related (Reach.next r s) =
      k.statements.order.trans_law _ _ _ (Reach-related r) (Step-related s)

-- Whatever steps the gateway takes, every job that is in the table stays there, with the same kind,
-- request hash and creation time; its status and its stage only move along their diagrams, and its
-- version counts: it never falls, and where it is the same, the whole row is.
pub Reach-JobsEvolve : (g : Gateway) {a b : World} → Reach g a b → JobsEvolve a.db b.db
Reach-JobsEvolve g r = Reach-related (OnTables JobsEvolve) g (λ a l. jobs_order.refl_law a) r

-- Whatever steps the gateway takes, every attempt stays, found by its job and number, with the same
-- stage, worker and start; its status only moves from running to an end, and an attempt that has
-- ended does not change at all.
pub Reach-AttemptsEvolve : (g : Gateway) {a b : World} → Reach g a b → AttemptsEvolve a.db b.db
Reach-AttemptsEvolve g r =
    Reach-related (OnTables AttemptsEvolve) g (λ a l. attempts_world_order.refl_law a) r

-- Whatever steps the gateway takes from a table of dispatches with distinct ids, the ids stay
-- distinct and every dispatch stays, with the same job, topic and payload; its status only moves
-- along its diagram, its version and its count of tries do not fall, and how it was delivered is kept.
pub Reach-DispatchesKept :
    (g : Gateway) {a b : World} → DispatchesKeyed a.db → Reach g a b → DispatchesKept a.db b.db
Reach-DispatchesKept g keyed r =
    let evolved =
      Reach-related (OnTables DispatchesEvolve) g (λ a l. dispatches_world_order.refl_law a) r in
    record { ids_distinct = evolved.keyed keyed; later_row = evolved.later keyed }

-- Whatever steps the gateway takes, the log of events is only appended to.
pub Reach-LogGrows : (g : Gateway) {a b : World} → Reach g a b → LogGrows a.db b.db
Reach-LogGrows g r = Reach-related (OnTables LogGrows) g (λ a l. log_world_order.refl_law a) r
