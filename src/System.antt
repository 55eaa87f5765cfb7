-- ===== src/System.antt =====
-- The gateway in local mode as a transition system: admissions, the dispatcher with the local
-- backend, the image worker and the video worker, deliveries by a broker (in any order, and repeated), status updates
-- and the repair of lost messages, each as one step.
pub mod Reachable
pub mod Duplicates
mod Tests
mod VideoTests
mod AccessTests
use ange_media_gateway.Worker.Video.Import.{handle_asset_import}
use ange_media_gateway.Worker.Video.Poll.{handle_poll}
use ange_media_gateway.Worker.Video.{VideoJobWorker}
use ange_media_gateway.Worker.Video.Submit.{handle_submit}
use ange_media_gateway.Outbox.Requeue.{requeue_orphaned_published_dispatches}
use ange_media_gateway.Lifecycle.{transition_current}
use ange_media_gateway.Jobs.{update_job_status, JobFields}
use ange_media_gateway.Worker.Recovery.{handle_unhandled}
use ange_media_gateway.Message.{RawMessage, JobStageMessage}
use ange_media_gateway.Worker.Image.{ImageJobWorker, handle_image}
use ange_media_gateway.Dispatcher.{dispatch_once, JobDispatcher}
use ange_media_gateway.Admission.{admit, AdmissionRequest}
use ange_media_gateway.Worker.Runtime.{handle, Registry}
use ange_media_gateway.Worker.Local.{publish}
use ange_media_gateway.Base.{List, ℕ, Option, String, none, some}
use ange_media_gateway.Store.{
  finalize, asset_import, video_poll, video_submit, Stage, Status, image_generate, JobDispatch,
  pure, Exec, Env, World,
}

pub record Gateway : Type 0 where
  pub env : Env
  pub dispatcher : JobDispatcher
  pub worker : ImageJobWorker
  pub video : VideoJobWorker

-- `get_job_stage_registry`: the four stages that have a handler.
unfoldable pub stage_registry : Gateway → Registry
stage_registry g image_generate = some (handle_image g.env g.worker)
stage_registry g video_submit = some (handle_submit g.env g.video)
stage_registry g video_poll = some (handle_poll g.env g.video)
stage_registry g asset_import = some (handle_asset_import g.env g.video)
stage_registry g _ = none

-- The worker's `runtime_refresher` reads settings, which are not in these tables.
abbrev pub no_refresh : Exec (Unit {0})
no_refresh = pure tt

abbrev pub local_publish : Gateway → String → JobStageMessage → Exec String
local_publish g = publish g.env (stage_registry g) no_refresh g.worker.describe g.worker.type_name

pub data Step (g : Gateway) : World → World → Type 0 where
  admission : (w : World) (r : AdmissionRequest) → Step g w (admit g.env r w).1
  dispatch :
      (w : World)
      → Step g w (dispatch_once g.env g.dispatcher (local_publish g) g.worker.describe w).1
  delivery :
      (w : World) (worker_kind : String) (raw : RawMessage)
      → Step g w (handle g.env worker_kind (stage_registry g) no_refresh raw w).1
  recovery :
      (w : World) (m : JobStageMessage) (error type_name : String)
      → Step g w (handle_unhandled g.env m error type_name w).1
  status_update :
      (w : World) (id : String) (status : Status) (v : Option ℕ) (stage : Option Stage)
      (event_type : String) (fields : JobFields)
      → Step g w (update_job_status g.env id status v stage event_type fields w).1
  lifecycle :
      (w : World) (id : String) (status : Status) (fields : JobFields)
      → Step g w (transition_current g.env id status fields w).1
  requeue :
      (w : World) (strip : String → String) (ids : List String) (limit : ℕ)
      → Step g w (requeue_orphaned_published_dispatches g.env strip ids limit w).1

pub data Reach (g : Gateway) (a : World) : World → Type 0 where
  here : Reach g a a
  next : {b c : World} → Reach g a b → Step g b c → Reach g a c
