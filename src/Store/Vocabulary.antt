-- ===== src/Store/Vocabulary.antt =====
-- The words that the columns `kind`, `status` and `stage` hold. Python keeps them as strings, so
-- each type has one constructor for any other string, which the code tests and refuses.
use ange_media_gateway.Base.{
  if◌then◌else◌, String, ◌≡◌, ◌↔◌, Bool, true, false, arith, ◌==◌, ==_iff, Eq, string_eq,
}

pub data Kind : Type 0 where
  image video : Kind
  other_kind : String → Kind

pub data Status : Type 0 where
  queued running succeeded failed canceled : Status
  other_status : String → Status

pub data Stage : Type 0 where
  admitted image_generate video_submit video_poll asset_import finalize : Stage
  other_stage : String → Stage

-- The text of a stage name, and the stage that a text names.
unfoldable pub stage_text : Stage → String
stage_text admitted = "admitted"
stage_text image_generate = "image_generate"
stage_text video_submit = "video_submit"
stage_text video_poll = "video_poll"
stage_text asset_import = "asset_import"
stage_text finalize = "finalize"
stage_text (other_stage s) = s

unfoldable pub stage_of_text : String → Stage
stage_of_text s =
    if s == "admitted"
    then admitted
    else if s == "image_generate"
    then image_generate
    else if s == "video_submit"
    then video_submit
    else if s == "video_poll"
    then video_poll
    else if s == "asset_import"
    then asset_import
    else if s == "finalize"
    then finalize
    else other_stage s

unfoldable pub kind_text : Kind → String
kind_text image = "image"
kind_text video = "video"
kind_text (other_kind s) = s

unfoldable pub status_text : Status → String
status_text queued = "queued"
status_text running = "running"
status_text succeeded = "succeeded"
status_text failed = "failed"
status_text canceled = "canceled"
status_text (other_status s) = s

abbrev pub kind_beq : Kind → Kind → Bool
kind_beq image image = true
kind_beq video video = true
kind_beq (other_kind a) (other_kind b) = a == b
kind_beq _ _ = false

abbrev pub status_beq : Status → Status → Bool
status_beq queued queued = true
status_beq running running = true
status_beq succeeded succeeded = true
status_beq failed failed = true
status_beq canceled canceled = true
status_beq (other_status a) (other_status b) = a == b
status_beq _ _ = false

abbrev pub stage_beq : Stage → Stage → Bool
stage_beq admitted admitted = true
stage_beq image_generate image_generate = true
stage_beq video_submit video_submit = true
stage_beq video_poll video_poll = true
stage_beq asset_import asset_import = true
stage_beq finalize finalize = true
stage_beq (other_stage a) (other_stage b) = a == b
stage_beq _ _ = false

pub kind_beq_iff : (a b : Kind) → (kind_beq a b ≡ true) ↔ (a ≡ b)
kind_beq_iff (other_kind a) (other_kind b) = ground (arith, ==_iff a b)
kind_beq_iff a b = ground arith

pub status_beq_iff : (a b : Status) → (status_beq a b ≡ true) ↔ (a ≡ b)
status_beq_iff (other_status a) (other_status b) = ground (arith, ==_iff a b)
status_beq_iff a b = ground arith

pub stage_beq_iff : (a b : Stage) → (stage_beq a b ≡ true) ↔ (a ≡ b)
stage_beq_iff (other_stage a) (other_stage b) = ground (arith, ==_iff a b)
stage_beq_iff a b = ground arith

instance abbrev pub kind_eq : Eq Kind
kind_eq = record { is_same_iff = kind_beq_iff; is_same = kind_beq }

instance abbrev pub status_eq : Eq Status
status_eq = record { is_same_iff = status_beq_iff; is_same = status_beq }

instance abbrev pub stage_eq : Eq Stage
stage_eq = record { is_same_iff = stage_beq_iff; is_same = stage_beq }
