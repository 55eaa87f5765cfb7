-- ===== src/Message/Accepted.antt =====
-- Which raw messages are read.
use mathlib.Core.Bool.{false}
use ange_media_gateway.Message.{
  Outcome, Fields, executable_stages, check_message, make_message, parse_job_stage_message,
  JobStageMessage, message_is_valid, RawMessage, mapping, not_mapping, lookup_field,
}
use ange_media_gateway.Base.{is_some}
use ange_media_gateway.Message.{message_of_values}
use ange_media_gateway.Text.{is_hex}
use ange_media_gateway.Store.Success.{ok-injective}
use ange_media_gateway.Message.{keys_known, keys_present, required_fields, as_invalid}
use ange_media_gateway.Base.{
  Bool, String, ℕ, Option, none, some, ◌&&◌, ==_iff, leb, ◌≤◌, sym, subst, ◌∙◌, Bool-cases,
  Option-cases, ap, ◌⊎◌, inl, inr, refl, arith, contains, true, ◌≡◌, string_eq, nat_eq, or_else,
}
use ange_media_gateway.Store.{
  Error, stage_of_text, ok, raised, raw_int, raw_text, invalid_queue_message, RawValue, stage_eq,
}
use ange_media_gateway.Message.Reading.{
  IsMessage, checked_known, value_found, values_read, keys_checked, read_message,
}

-- What a message that the constructor makes says of its arguments.
record IsMade (v j s n d t : RawValue) (m : JobStageMessage) : Type 0 where
  pub version : v ≡ raw_int m.schema_version
  pub job : j ≡ raw_text m.job_id
  pub stage_name : String
  pub stage : s ≡ raw_text stage_name
  pub stage_named : stage_of_text stage_name ≡ m.stage
  pub attempt : n ≡ raw_int m.attempt
  pub dispatch : d ≡ raw_text m.dispatch_id
  pub trace : t ≡ raw_text m.trace_id
  pub is_valid : message_is_valid m ≡ true

check_message_same :
    (m n : JobStageMessage) → check_message m ≡ ok n → (m ≡ n) × (message_is_valid m ≡ true)
check_message_same m n h = elim (Bool-cases (message_is_valid m)) [
  | inl y ↦ (ok-injective _ _ (rw y at h), y)
  | inr k ↦ let refused = rw k at h in cc
]

make_message-IsMade :
    (v j s n d t : RawValue) (m : JobStageMessage)
    → make_message v j s n d t ≡ ok m
    → IsMade v j s n d t m
unfolding make_message
make_message-IsMade (raw_int v) (raw_text j) (raw_text s) (raw_int n) (raw_text d) (raw_text t) m
      h =
    let (same, valid) = check_message_same _ m h in
    subst (IsMade (raw_int v) (raw_text j) (raw_text s) (raw_int n) (raw_text d) (raw_text t)) same
      (record {
        version = refl;
        job = refl;
        stage_name = s;
        stage = refl;
        stage_named = refl;
        attempt = refl;
        dispatch = refl;
        trace = refl;
        is_valid = valid;
      })
make_message-IsMade _ _ _ _ _ _ m h = cc

make_message_raises :
    (v j s n d t : RawValue) (e : Error)
    → make_message v j s n d t ≡ raised e
    → e ≡ invalid_queue_message
unfolding make_message
make_message_raises (raw_int v) (raw_text j) (raw_text s) (raw_int n) (raw_text d) (raw_text t) e
      h =
    ground arith
make_message_raises _ _ _ _ _ _ e h = ground arith

-- The checks of a message, one by one.
valid_columns :
    (m : JobStageMessage)
    → message_is_valid m ≡ true
    → (m.schema_version ≡ 1)
      × (is_hex 32 m.job_id ≡ true)
      × (contains executable_stages m.stage ≡ true)
      × (1 ≤ m.attempt)
      × (m.attempt ≤ 1000)
      × (is_hex 32 m.dispatch_id ≡ true)
      × (is_hex 32 m.trace_id ≡ true)
unfolding message_is_valid
valid_columns m h =
    let (r5, trace) = split _ _ h in
    let (r4, dispatch) = split _ _ r5 in
    let (r3, most) = split _ _ r4 in
    let (r2, least) = split _ _ r3 in
    let (r1, stage) = split _ _ r2 in
    let (version, job) = split _ _ r1 in
    (
      (==_iff m.schema_version 1).0 version,
      job,
      stage,
      leb_sound 1 m.attempt least,
      leb_sound m.attempt 1000 most,
      dispatch,
      trace,
    )
  where
    split : (a b : Bool) → (a && b) ≡ true → (a ≡ true) × (b ≡ true)
    split true b h = (refl, h)
    split false b h = (h, cc)

    leb_sound : (a b : ℕ) → leb a b ≡ true → a ≤ b
    leb_sound a b h = ground arith

value_known :
    (k : String) (fields : Fields)
    → is_some (lookup_field k fields) ≡ true
    → (v : RawValue) × (lookup_field k fields ≡ some v)
value_known k fields h = elim (Option-cases (lookup_field k fields)) [
  | inl e ↦ let gone = rw e at h in cc
  | inr found ↦ found
]

present_values :
    (fields : Fields)
    → keys_present required_fields fields ≡ true
    → (j : RawValue) × (s : RawValue) × (n : RawValue) × (d : RawValue) × (t : RawValue)
      × (lookup_field "job_id" fields ≡ some j)
      × (lookup_field "stage" fields ≡ some s)
      × (lookup_field "attempt" fields ≡ some n)
      × (lookup_field "dispatch_id" fields ≡ some d)
      × (lookup_field "trace_id" fields ≡ some t)
unfolding keys_present
present_values fields h =
    let (p1, r1) = split _ _ h in
    let (p2, r2) = split _ _ r1 in
    let (p3, r3) = split _ _ r2 in
    let (p4, r4) = split _ _ r3 in
    let (p5, r5) = split _ _ r4 in
    let (j, f1) = value_known "job_id" fields p1 in
    let (s, f2) = value_known "stage" fields p2 in
    let (n, f3) = value_known "attempt" fields p3 in
    let (d, f4) = value_known "dispatch_id" fields p4 in
    let (t, f5) = value_known "trace_id" fields p5 in (j, s, n, d, t, f1, f2, f3, f4, f5)
  where
    split : (a b : Bool) → (a && b) ≡ true → (a ≡ true) × (b ≡ true)
    split true b h = (refl, h)
    split false b h = (h, cc)

version_cases :
    (o : Option RawValue) (n : ℕ)
    → or_else o (raw_int 1) ≡ raw_int n
    → n ≡ 1
    → (o ≡ none) ⊎ (o ≡ some (raw_int 1))
version_cases none n h one = inl refl
version_cases (some v) n h one = inr (ap some (h ∙ ap raw_int one))

made-IsMessage :
    (fields : Fields) (j s n d t : RawValue) (m : JobStageMessage)
    → keys_known fields ≡ true
    → lookup_field "job_id" fields ≡ some j
    → lookup_field "stage" fields ≡ some s
    → lookup_field "attempt" fields ≡ some n
    → lookup_field "dispatch_id" fields ≡ some d
    → lookup_field "trace_id" fields ≡ some t
    → IsMade (or_else (lookup_field "schema_version" fields) (raw_int 1)) j s n d t m
    → IsMessage fields m
made-IsMessage fields j s n d t m known f1 f2 f3 f4 f5 made =
    let (one, job, stage, least, most, dispatch, trace) = valid_columns m made.is_valid in
    record {
      known_keys = checked_known fields known;
      version = version_cases _ m.schema_version made.version one;
      version_one = one;
      job = f1 ∙ ap some made.job;
      job_hex = job;
      stage_name = made.stage_name;
      stage = f2 ∙ ap some made.stage;
      stage_named = made.stage_named;
      executable = stage;
      attempt = f3 ∙ ap some made.attempt;
      attempt_least = least;
      attempt_most = most;
      dispatch = f4 ∙ ap some made.dispatch;
      dispatch_hex = dispatch;
      trace = f5 ∙ ap some made.trace;
      trace_hex = trace;
    }

-- How a raw message is read.
abbrev pub IsRead : RawMessage → Type 0
IsRead raw =
    ((fields : Fields) × (m : JobStageMessage) × (raw ≡ mapping fields)
      × (parse_job_stage_message raw ≡ ok m)
      × IsMessage fields m)
    ⊎ ((parse_job_stage_message raw ≡ raised invalid_queue_message)
        × ((fields : Fields) (m : JobStageMessage) → raw ≡ mapping fields → ¬ IsMessage fields m))

refused :
    (raw : RawMessage) → parse_job_stage_message raw ≡ raised invalid_queue_message → IsRead raw
refused raw h = inr (
  h,
  λ fields m e is_message.
      let read = ap parse_job_stage_message e ∙ read_message fields m is_message in
      ok_not_raised _ _ (sym read ∙ h),
)
  where
    ok_not_raised : (m : JobStageMessage) (e : Error) → ok m ≡ raised e → ⊥
    ok_not_raised m e h = cc

message_of_values-IsRead :
    (fields : Fields) (r : Outcome JobStageMessage)
    → keys_known fields ≡ true
    → keys_present required_fields fields ≡ true
    → message_of_values fields ≡ r
    → IsRead (mapping fields)
message_of_values-IsRead fields (ok m) known present h =
    let (j, s, n, d, t, f1, f2, f3, f4, f5) = present_values fields present in
    let values =
      values_read fields j s n d t (value_found _ _ _ f1) (value_found _ _ _ f2)
        (value_found _ _ _ f3) (value_found _ _ _ f4) (value_found _ _ _ f5) in
    let made = make_message-IsMade _ j s n d t m (sym values ∙ h) in
    inl (
      fields,
      m,
      refl,
      keys_checked fields known present ∙ ap as_invalid h,
      made-IsMessage fields j s n d t m known f1 f2 f3 f4 f5 made,
    )
message_of_values-IsRead fields (raised e) known present h =
    let (j, s, n, d, t, f1, f2, f3, f4, f5) = present_values fields present in
    let values =
      values_read fields j s n d t (value_found _ _ _ f1) (value_found _ _ _ f2)
        (value_found _ _ _ f3) (value_found _ _ _ f4) (value_found _ _ _ f5) in
    let invalid = make_message_raises _ j s n d t e (sym values ∙ h) in
    refused (mapping fields)
      (keys_checked fields known present ∙ ap as_invalid (h ∙ ap raised invalid))

-- A raw message is read exactly if it is what a message is: a mapping with known keys only, all but
-- the version there, a 32-digit hex job, dispatch and trace id, an executable stage, an attempt from 1
-- to 1000 and version 1; the message read has these values. Anything else raises InvalidQueueMessage,
-- and nothing else is raised.
pub parse_accepts_messages : (raw : RawMessage) → IsRead raw
unfolding parse_job_stage_message
parse_accepts_messages not_mapping = refused not_mapping refl
parse_accepts_messages (mapping fields) = elim (Bool-cases (keys_known fields)) [
  | inr unknown ↦ refused (mapping fields) (rw (unknown, parse_job_stage_message) refl)
  | inl known ↦ elim (Bool-cases (keys_present required_fields fields)) [
    | inr missing ↦ refused (mapping fields) (rw (known, missing, parse_job_stage_message) refl)
    | inl present ↦ message_of_values-IsRead fields _ known present refl
  ]
]
