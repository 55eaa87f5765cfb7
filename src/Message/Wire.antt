-- ===== src/Message/Wire.antt =====
-- What crosses the boundary to a broker: messages and their dicts.
use ange_media_gateway.Message.{
  Stage, executable_stages, to_dict, make_message, parse_job_stage_message, JobStageMessage,
  message_is_valid,
}
use ange_media_gateway.Message.{as_invalid}
use ange_media_gateway.Base.{ap, refl, arith, contains, true, ◌≡◌, string_eq, nat_eq}
use ange_media_gateway.Store.{
  stage_of_text, ok, raw_int, raw_text, stage_text, stage_eq, image_generate, video_submit,
  video_poll, asset_import, finalize,
}

stage_of_text-stage_text :
    (s : Stage) → contains executable_stages s ≡ true → stage_of_text (stage_text s) ≡ s
unfolding stage_of_text stage_text
stage_of_text-stage_text image_generate h = refl
stage_of_text-stage_text video_submit h = refl
stage_of_text-stage_text video_poll h = refl
stage_of_text-stage_text asset_import h = refl
stage_of_text-stage_text finalize h = refl
stage_of_text-stage_text _ h = ground arith

stage_of_message :
    (m : JobStageMessage) → message_is_valid m ≡ true → contains executable_stages m.stage ≡ true
unfolding message_is_valid
stage_of_message m h = ground arith

make_message_valid :
    (m : JobStageMessage)
    → message_is_valid m ≡ true
    → make_message
        (raw_int m.schema_version)
        (raw_text m.job_id)
        (raw_text (stage_text m.stage))
        (raw_int m.attempt)
        (raw_text m.dispatch_id)
        (raw_text m.trace_id)
      ≡ ok m
unfolding make_message
make_message_valid m h =
    let same = stage_of_text-stage_text m.stage (stage_of_message m h) in rw same (rw h)

-- A message that passes the checks of its constructor is read back unchanged from what it is
-- written as.
pub parse-to_dict :
    (m : JobStageMessage) → message_is_valid m ≡ true → parse_job_stage_message (to_dict m) ≡ ok m
unfolding parse_job_stage_message to_dict
parse-to_dict m h = ap as_invalid (make_message_valid m h)
