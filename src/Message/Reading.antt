-- ===== src/Message/Reading.antt =====
-- What a raw message must be, and that every such message is read.
use ange_media_gateway.Message.{
  Fields, check_message, make_message, parse_job_stage_message, JobStageMessage, message_is_valid,
  mapping, lookup_field, message_schema_version,
}
use ange_media_gateway.Message.{message_of_values}
use ange_media_gateway.Text.{is_hex}
use ange_media_gateway.Message.{
  keys_known, keys_present, message_fields, required_fields, as_invalid, value_at,
}
use ange_media_gateway.Base.{
  All, Bool, [], ◌∷◌, String, ℕ, none, some, ◌&&◌, ==_iff, leb, ◌≤◌, sym, subst, ◌∙◌, ap, ◌⊎◌, inl,
  inr, refl, arith, contains, true, ◌≡◌, string_eq, nat_eq, or_else,
}
use ange_media_gateway.Store.{
  stage_of_text, ok, raw_int, raw_text, RawValue, stage_eq, image_generate, video_submit,
  video_poll, asset_import, finalize,
}

-- What a raw message must be to be read as a message: its keys are known, all but the version are
-- there, and its values are those of the message, which the code accepts.
pub record IsMessage (fields : Fields) (m : JobStageMessage) : Type 0 where
  pub known_keys :
      All
        (λ p.
          contains
            ("schema_version" ∷ "job_id" ∷ "stage" ∷ "attempt" ∷ "dispatch_id" ∷ "trace_id" ∷ [])
            p.0
          ≡ true)
        fields
  pub version :
      (lookup_field "schema_version" fields ≡ none)
      ⊎ (lookup_field "schema_version" fields ≡ some (raw_int 1))
  pub version_one : m.schema_version ≡ 1
  pub job : lookup_field "job_id" fields ≡ some (raw_text m.job_id)
  pub job_hex : is_hex 32 m.job_id ≡ true
  pub stage_name : String
  pub stage : lookup_field "stage" fields ≡ some (raw_text stage_name)
  pub stage_named : stage_of_text stage_name ≡ m.stage
  pub executable :
      contains (image_generate ∷ video_submit ∷ video_poll ∷ asset_import ∷ finalize ∷ []) m.stage
      ≡ true
  pub attempt : lookup_field "attempt" fields ≡ some (raw_int m.attempt)
  pub attempt_least : 1 ≤ m.attempt
  pub attempt_most : m.attempt ≤ 1000
  pub dispatch : lookup_field "dispatch_id" fields ≡ some (raw_text m.dispatch_id)
  pub dispatch_hex : is_hex 32 m.dispatch_id ≡ true
  pub trace : lookup_field "trace_id" fields ≡ some (raw_text m.trace_id)
  pub trace_hex : is_hex 32 m.trace_id ≡ true

pub known_checked :
    (fields : Fields)
    → All (λ p. contains message_fields p.0 ≡ true) fields
    → keys_known fields ≡ true
unfolding keys_known
known_checked [] h = refl
known_checked ((k, v) ∷ rest) h = rw (h.0, known_checked rest h.1) refl

pub checked_known :
    (fields : Fields)
    → keys_known fields ≡ true
    → All (λ p. contains message_fields p.0 ≡ true) fields
unfolding keys_known
checked_known [] h = tt
checked_known ((k, v) ∷ rest) h = (both_first _ _ h, checked_known rest (both_last _ _ h))
  where
    both_first : (a b : Bool) → (a && b) ≡ true → a ≡ true
    both_first a b h = ground arith

    both_last : (a b : Bool) → (a && b) ≡ true → b ≡ true
    both_last a b h = ground arith

checks_hold :
    (fields : Fields) (m : JobStageMessage) → IsMessage fields m → message_is_valid m ≡ true
unfolding message_is_valid
checks_hold fields m h =
    let version = (==_iff m.schema_version 1).1 h.version_one in
    let least : leb 1 m.attempt ≡ true = leb_holds 1 m.attempt h.attempt_least in
    let most : leb m.attempt 1000 ≡ true = leb_holds m.attempt 1000 h.attempt_most in
    rw (version, h.job_hex, h.executable, least, most, h.dispatch_hex, h.trace_hex) refl
  where
    leb_holds : (a b : ℕ) → a ≤ b → leb a b ≡ true
    leb_holds a b h = ground arith

make_accepted :
    (m : JobStageMessage) (s : String)
    → stage_of_text s ≡ m.stage
    → m.schema_version ≡ 1
    → message_is_valid m ≡ true
    → make_message
        (raw_int 1)
        (raw_text m.job_id)
        (raw_text s)
        (raw_int m.attempt)
        (raw_text m.dispatch_id)
        (raw_text m.trace_id)
      ≡ ok m
unfolding make_message
make_accepted m s named version h =
    let same : record m { stage = stage_of_text s; schema_version = 1 } ≡ m =
      λ i. record m { stage = named i; schema_version = sym version i } in
    subst (λ n. check_message n ≡ ok m) (sym same) (rw h refl)

pub value_found :
    (k : String) (fields : Fields) (v : RawValue)
    → lookup_field k fields ≡ some v
    → value_at k fields ≡ ok v
unfolding value_at
value_found k fields v h = rw (h, value_at) refl

pub values_read :
    (fields : Fields) (j s n d t : RawValue)
    → value_at "job_id" fields ≡ ok j
    → value_at "stage" fields ≡ ok s
    → value_at "attempt" fields ≡ ok n
    → value_at "dispatch_id" fields ≡ ok d
    → value_at "trace_id" fields ≡ ok t
    → message_of_values fields
      ≡ make_message
          (or_else (lookup_field "schema_version" fields) (raw_int message_schema_version))
          j
          s
          n
          d
          t
unfolding message_of_values
values_read fields j s n d t h1 h2 h3 h4 h5 = rw (h1, h2, h3, h4, h5) refl

all_present :
    (fields : Fields) (j s n d t : RawValue)
    → lookup_field "job_id" fields ≡ some j
    → lookup_field "stage" fields ≡ some s
    → lookup_field "attempt" fields ≡ some n
    → lookup_field "dispatch_id" fields ≡ some d
    → lookup_field "trace_id" fields ≡ some t
    → keys_present required_fields fields ≡ true
unfolding keys_present
all_present fields j s n d t h1 h2 h3 h4 h5 = rw (h1, h2, h3, h4, h5) refl

pub keys_checked :
    (fields : Fields)
    → keys_known fields ≡ true
    → keys_present required_fields fields ≡ true
    → parse_job_stage_message (mapping fields) ≡ as_invalid (message_of_values fields)
unfolding parse_job_stage_message
keys_checked fields h1 h2 = rw (h1, h2) refl

-- Whatever satisfies the description is read as the message.
pub read_message :
    (fields : Fields) (m : JobStageMessage)
    → IsMessage fields m
    → parse_job_stage_message (mapping fields) ≡ ok m
read_message fields m h =
    let present = all_present fields _ _ _ _ _ h.job h.stage h.attempt h.dispatch h.trace in
    let values =
      values_read fields _ _ _ _ _ (value_found _ _ _ h.job) (value_found _ _ _ h.stage)
        (value_found _ _ _ h.attempt) (value_found _ _ _ h.dispatch) (value_found _ _ _ h.trace) in
    let made = make_accepted m h.stage_name h.stage_named h.version_one (checks_hold fields m h) in
    let version : or_else (lookup_field "schema_version" fields) (raw_int 1) ≡ raw_int 1 =
      elim h.version [ inl absent ↦ rw absent refl | inr one ↦ rw one refl ] in
    keys_checked fields (known_checked fields h.known_keys) present
    ∙ ap as_invalid (
        values
        ∙ (ap
              (λ v.
                make_message v (raw_text m.job_id) (raw_text h.stage_name) (raw_int m.attempt)
                  (raw_text m.dispatch_id) (raw_text m.trace_id))
              version
            ∙ made))
