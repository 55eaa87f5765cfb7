-- ===== src/Jobs/Tables.antt =====
-- The status and stage tables at the top of repositories/jobs.py.
use ange_media_gateway.Base.{
  Bool, true, false, String, Option, List, [], ◌∷◌, contains, ◌==◌, string_eq, find_row,
}
use ange_media_gateway.Store.{
  Kind, image, video, other_kind, Status, queued, running, succeeded, failed, canceled,
  other_status, Stage, admitted, image_generate, video_submit, video_poll, asset_import, finalize,
  other_stage, kind_eq, status_eq, stage_eq, Job, Db,
}

abbrev pub active_job_statuses : List Status
active_job_statuses = queued ∷ running ∷ []

abbrev pub terminal_job_statuses : List Status
terminal_job_statuses = succeeded ∷ failed ∷ canceled ∷ []

abbrev pub valid_job_statuses : List Status
valid_job_statuses = queued ∷ running ∷ succeeded ∷ failed ∷ canceled ∷ []

abbrev pub valid_job_stages : List Stage
valid_job_stages =
    admitted ∷ image_generate ∷ video_submit ∷ video_poll ∷ asset_import ∷ finalize ∷ []

-- `JOB_STAGES_BY_KIND.get(kind, set())`; the keys are `image` and `video`.
abbrev pub job_stages_by_kind : Kind → List Stage
job_stages_by_kind image = admitted ∷ image_generate ∷ asset_import ∷ finalize ∷ []
job_stages_by_kind video = admitted ∷ video_submit ∷ video_poll ∷ asset_import ∷ finalize ∷ []
job_stages_by_kind (other_kind _) = []

abbrev pub is_job_kind : Kind → Bool
is_job_kind (other_kind _) = false
is_job_kind _ = true

-- `ALLOWED_STAGE_TRANSITIONS.get(stage, set())`
abbrev pub allowed_stage_transitions : Stage → List Stage
allowed_stage_transitions admitted = admitted ∷ image_generate ∷ video_submit ∷ finalize ∷ []
allowed_stage_transitions image_generate = image_generate ∷ asset_import ∷ finalize ∷ []
allowed_stage_transitions video_submit = video_submit ∷ video_poll ∷ finalize ∷ []
allowed_stage_transitions video_poll = video_poll ∷ asset_import ∷ finalize ∷ []
allowed_stage_transitions asset_import = asset_import ∷ finalize ∷ []
allowed_stage_transitions finalize = finalize ∷ []
allowed_stage_transitions (other_stage _) = []

-- `ALLOWED_STATUS_TRANSITIONS.get(status, set())`
abbrev pub allowed_status_transitions : Status → List Status
allowed_status_transitions queued = queued ∷ running ∷ failed ∷ canceled ∷ []
allowed_status_transitions running = running ∷ succeeded ∷ failed ∷ canceled ∷ []
allowed_status_transitions succeeded = succeeded ∷ []
allowed_status_transitions failed = failed ∷ []
allowed_status_transitions canceled = canceled ∷ []
allowed_status_transitions (other_status _) = []

abbrev pub is_terminal : Status → Bool
is_terminal s = contains terminal_job_statuses s

abbrev pub is_active : Status → Bool
is_active s = contains active_job_statuses s

-- `_job_from_connection`
unfoldable pub job_from_connection : String → Db → Option Job
job_from_connection job_id db = find_row (λ j. j.id == job_id) db.jobs
