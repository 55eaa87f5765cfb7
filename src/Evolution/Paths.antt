-- ===== src/Evolution/Paths.antt =====
-- The status and stage diagrams of a job, as relations that do not mention the tables of the code.
use ange_media_gateway.Base.{◌≡◌, ◌≢◌, refl, ◌⊎◌, true, false, arith, contains}
use ange_media_gateway.Store.{
  Status, queued, running, succeeded, failed, canceled, Stage, admitted, image_generate,
  video_submit, video_poll, asset_import, finalize, status_eq, stage_eq,
}
use ange_media_gateway.Jobs.{allowed_status_transitions, allowed_stage_transitions, is_terminal}

-- One move of a job's status: forward through queued, running, and one of three ends.
pub data StatusMove : Status → Status → Type 0 where
  start : StatusMove queued running
  fail_queued : StatusMove queued failed
  cancel_queued : StatusMove queued canceled
  succeed : StatusMove running succeeded
  fail_running : StatusMove running failed
  cancel_running : StatusMove running canceled

pub data StatusPath (s : Status) : Status → Type 0 where
  here : StatusPath s s
  onward : {t u : Status} → StatusPath s t → StatusMove t u → StatusPath s u

-- One move of a job's stage along the image or the video pipeline.
pub data StageMove : Stage → Stage → Type 0 where
  admit_image : StageMove admitted image_generate
  admit_video : StageMove admitted video_submit
  generated : StageMove image_generate asset_import
  submitted : StageMove video_submit video_poll
  polled : StageMove video_poll asset_import
  finish : {s : Stage} → s ≢ finalize → StageMove s finalize

pub data StagePath (s : Stage) : Stage → Type 0 where
  here : StagePath s s
  onward : {t u : Stage} → StagePath s t → StageMove t u → StagePath s u

pub StatusPath-trans : {s t u : Status} → StatusPath s t → StatusPath t u → StatusPath s u
StatusPath-trans p here = p
StatusPath-trans p (onward q m) = onward (StatusPath-trans p q) m

pub StagePath-trans : {s t u : Stage} → StagePath s t → StagePath t u → StagePath s u
StagePath-trans p here = p
StagePath-trans p (onward q m) = onward (StagePath-trans p q) m

-- The table `ALLOWED_STATUS_TRANSITIONS` allows the moves of the diagram and standing still.
pub allowed_status-StatusPath :
    (s t : Status) → contains (allowed_status_transitions s) t ≡ true → StatusPath s t
allowed_status-StatusPath queued queued h = here
allowed_status-StatusPath queued running h = onward here start
allowed_status-StatusPath queued failed h = onward here fail_queued
allowed_status-StatusPath queued canceled h = onward here cancel_queued
allowed_status-StatusPath running running h = here
allowed_status-StatusPath running succeeded h = onward here succeed
allowed_status-StatusPath running failed h = onward here fail_running
allowed_status-StatusPath running canceled h = onward here cancel_running
allowed_status-StatusPath succeeded succeeded h = here
allowed_status-StatusPath failed failed h = here
allowed_status-StatusPath canceled canceled h = here
allowed_status-StatusPath _ _ h = absurd (ground arith)

pub allowed_stage-StagePath :
    (s t : Stage) → contains (allowed_stage_transitions s) t ≡ true → StagePath s t
allowed_stage-StagePath admitted admitted h = here
allowed_stage-StagePath admitted image_generate h = onward here admit_image
allowed_stage-StagePath admitted video_submit h = onward here admit_video
allowed_stage-StagePath admitted finalize h = onward here (finish (λ e. cc))
allowed_stage-StagePath image_generate image_generate h = here
allowed_stage-StagePath image_generate asset_import h = onward here generated
allowed_stage-StagePath image_generate finalize h = onward here (finish (λ e. cc))
allowed_stage-StagePath video_submit video_submit h = here
allowed_stage-StagePath video_submit video_poll h = onward here submitted
allowed_stage-StagePath video_submit finalize h = onward here (finish (λ e. cc))
allowed_stage-StagePath video_poll video_poll h = here
allowed_stage-StagePath video_poll asset_import h = onward here polled
allowed_stage-StagePath video_poll finalize h = onward here (finish (λ e. cc))
allowed_stage-StagePath asset_import asset_import h = here
allowed_stage-StagePath asset_import finalize h = onward here (finish (λ e. cc))
allowed_stage-StagePath finalize finalize h = here
allowed_stage-StagePath _ _ h = absurd (ground arith)

StatusMove-not_terminal : {s t : Status} → StatusMove s t → is_terminal s ≡ false
StatusMove-not_terminal start = refl
StatusMove-not_terminal fail_queued = refl
StatusMove-not_terminal cancel_queued = refl
StatusMove-not_terminal succeed = refl
StatusMove-not_terminal fail_running = refl
StatusMove-not_terminal cancel_running = refl

-- From a terminal status the diagram leads nowhere else.
pub StatusPath-terminal : {s t : Status} → StatusPath s t → is_terminal s ≡ true → t ≡ s
StatusPath-terminal here h = refl
StatusPath-terminal (onward p m) h =
    let e = StatusPath-terminal p h in absurd (grind (arith, StatusMove-not_terminal m, e, h))

-- What a claim does: a queued or running job runs.
pub StatusPath-start : (s : Status) → (s ≡ queued) ⊎ (s ≡ running) → StatusPath s running
StatusPath-start queued h = onward here start
StatusPath-start running h = here
StatusPath-start _ h = absurd (ground arith)
