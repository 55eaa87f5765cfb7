-- ===== src/Message.antt =====
-- queue/messages.py and queue/contracts.py: what crosses the boundary to a queue backend.
pub mod Wire
pub mod Reading
pub mod Accepted
use ange_media_gateway.Base.{
  ℕ, Bool, true, not, ◌&&◌, String, Option, none, some, List, [], ◌∷◌, contains, leb, ◌==◌,
  string_eq, nat_eq, if◌then◌else◌, or_else, is_some,
}
use ange_media_gateway.Store.{
  Kind, kind_text, Stage, image_generate, video_submit, video_poll, asset_import, finalize,
  stage_text, stage_of_text, RawValue, raw_text, raw_int, raw_other, PayloadJson, object, text,
  number, stage_eq, Outcome, ok, raised, invalid_queue_message, type_error, value_error,
  other_error,
}
use ange_media_gateway.Text.{is_hex}

abbrev pub message_schema_version : ℕ
message_schema_version = 1

abbrev pub executable_stages : List Stage
executable_stages = image_generate ∷ video_submit ∷ video_poll ∷ asset_import ∷ finalize ∷ []

abbrev pub message_fields : List String
message_fields = "schema_version" ∷ "job_id" ∷ "stage" ∷ "attempt" ∷ "dispatch_id" ∷ "trace_id" ∷ []

abbrev pub required_fields : List String
required_fields = "job_id" ∷ "stage" ∷ "attempt" ∷ "dispatch_id" ∷ "trace_id" ∷ []

pub record JobStageMessage : Type 0 where
  pub job_id : String
  pub stage : Stage
  pub attempt : ℕ
  pub dispatch_id : String
  pub trace_id : String
  pub schema_version : ℕ

-- What the tests of `__post_init__` say of a message whose fields have the right types.
unfoldable pub message_is_valid : JobStageMessage → Bool
unfolding is_hex
message_is_valid m =
    m.schema_version == message_schema_version
    && is_hex 32 m.job_id
    && contains executable_stages m.stage
    && leb 1 m.attempt
    && leb m.attempt 1000
    && is_hex 32 m.dispatch_id
    && is_hex 32 m.trace_id

abbrev pub check_message : JobStageMessage → Outcome JobStageMessage
check_message m = if message_is_valid m then ok m else raised invalid_queue_message

-- The constructor with `__post_init__`; a field of another type is refused like a bad value.
unfoldable pub make_message :
    (schema_version job_id stage attempt dispatch_id trace_id : RawValue) → Outcome JobStageMessage
unfolding message_is_valid stage_of_text
make_message (raw_int v) (raw_text j) (raw_text s) (raw_int n) (raw_text d) (raw_text t) =
    check_message (record {
      job_id = j;
      stage = stage_of_text s;
      attempt = n;
      dispatch_id = d;
      trace_id = t;
      schema_version = v;
    })
make_message _ _ _ _ _ _ = raised invalid_queue_message

abbrev pub Fields : Type 0
Fields = List (String × RawValue)

unfoldable pub lookup_field : String → Fields → Option RawValue
lookup_field k [] = none
lookup_field k ((j, v) ∷ rest) = if j == k then some v else lookup_field k rest

-- A raw message is a mapping or something else.
pub data RawMessage : Type 0 where
  mapping : Fields → RawMessage
  not_mapping : RawMessage

unfoldable pub keys_known : Fields → Bool
keys_known [] = true
keys_known ((k, v) ∷ rest) = contains message_fields k && keys_known rest

unfoldable pub keys_present : List String → Fields → Bool
unfolding lookup_field
keys_present [] fields = true
keys_present (k ∷ ks) fields = is_some (lookup_field k fields) && keys_present ks fields

-- `value[key]`
unfoldable pub value_at : String → Fields → Outcome RawValue
unfolding lookup_field
value_at k fields = elim (lookup_field k fields) [
  | none ↦ raised (other_error "KeyError")
  | some v ↦ ok v
]

abbrev pub with_value :
    Outcome RawValue → (RawValue → Outcome JobStageMessage) → Outcome JobStageMessage
with_value (ok v) f = f v
with_value (raised e) f = raised e

-- `except (InvalidQueueMessage, TypeError, ValueError): raise InvalidQueueMessage()`
abbrev pub as_invalid : Outcome JobStageMessage → Outcome JobStageMessage
as_invalid (raised type_error) = raised invalid_queue_message
as_invalid (raised value_error) = raised invalid_queue_message
as_invalid r = r

-- The call of the constructor with the values of the keys.
unfoldable pub message_of_values : Fields → Outcome JobStageMessage
unfolding lookup_field value_at make_message
message_of_values fields = with_value (value_at "job_id" fields) λ job_id.
    with_value (value_at "stage" fields) λ stage. with_value (value_at "attempt" fields) λ attempt.
      with_value (value_at "dispatch_id" fields) λ dispatch_id.
        with_value (value_at "trace_id" fields) λ trace_id.
          make_message
            (or_else (lookup_field "schema_version" fields) (raw_int message_schema_version)) job_id
            stage attempt dispatch_id trace_id

unfoldable pub parse_job_stage_message : RawMessage → Outcome JobStageMessage
unfolding keys_known keys_present message_of_values
parse_job_stage_message not_mapping = raised invalid_queue_message
parse_job_stage_message (mapping fields) =
    if not (keys_known fields)
    then raised invalid_queue_message
    else if not (keys_present required_fields fields)
    then raised invalid_queue_message
    else as_invalid (message_of_values fields)

-- `asdict`
unfoldable pub to_dict : JobStageMessage → RawMessage
unfolding stage_text
to_dict m = mapping (
    ("job_id", raw_text m.job_id)
    ∷ ("stage", raw_text (stage_text m.stage))
    ∷ ("attempt", raw_int m.attempt)
    ∷ ("dispatch_id", raw_text m.dispatch_id)
    ∷ ("trace_id", raw_text m.trace_id)
    ∷ ("schema_version", raw_int m.schema_version)
    ∷ [])

pub record QueueDispatchEnvelope : Type 0 where
  pub job_id : String
  pub job_kind : Kind
  pub stage : Stage
  pub payload_schema_version : ℕ
  pub attempt : ℕ

-- `as_dict`, as the outbox stores it.
unfoldable pub as_dict : QueueDispatchEnvelope → PayloadJson
unfolding kind_text
as_dict e = object e.stage (some (raw_int e.attempt)) (
    ("job_id", text e.job_id)
    ∷ ("job_kind", text (kind_text e.job_kind))
    ∷ ("payload_schema_version", number e.payload_schema_version)
    ∷ [])
