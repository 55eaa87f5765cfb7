-- ===== src/Jobs/Queries.antt =====
-- The queries of repositories/jobs.py that list and count jobs.
use ange_media_gateway.Text.{is_empty}
use ange_media_gateway.Jobs.Insert.{some_eq, latest_job}
use ange_media_gateway.Store.{
  kind_text, status_text, ok, value_error, raised, status_eq, kind_eq, Kind, Outcome, Status, Job,
  Db,
}
use ange_media_gateway.Base.{
  sort_by, drop, take, select_rows, if◌then◌else◌, List, true, false, count_rows, Bool, Option,
  ◌&&◌, ◌||◌, ◌==◌, string_eq, none, some, ltb, nat_eq,
}
use Prim.Native.String.{String, compare}
use Prim.Native.Nat.{min, max, ℕ, Ordering}

-- `if kind: … if status: …`; a falsy argument is an absent one, or an empty text.
pub record JobFilter : Type 0 where
  pub kind : Option Kind
  pub status : Option Status
  pub provider : Option String
  pub model : Option String

abbrev pub text_is : Option String → Option String → Bool
text_is none column = true
text_is (some text) column = is_empty text || some_eq column (some text)

abbrev pub kind_is : Option Kind → Kind → Bool
kind_is none column = true
kind_is (some kind) column = is_empty (kind_text kind) || column == kind

abbrev pub status_is : Option Status → Status → Bool
status_is none column = true
status_is (some status) column = is_empty (status_text status) || column == status

abbrev pub is_listed : JobFilter → Job → Bool
is_listed f j =
    kind_is f.kind j.kind
    && status_is f.status j.status
    && text_is f.provider j.provider
    && text_is f.model j.model

abbrev pub text_leb : String → String → Bool
text_leb a b = elim (compare a b) [ Ordering.gt ↦ false | _ ↦ true ]

-- `… ASC, id ASC`
abbrev pub ascending : (Job → ℕ) → Job → Job → Bool
ascending column j k = ltb (column j) (column k) || column j == column k && text_leb j.id k.id

-- `… DESC, id DESC`
abbrev pub descending : (Job → ℕ) → Job → Job → Bool
descending column j k = ltb (column k) (column j) || column j == column k && text_leb k.id j.id

-- `_jobs_order_by`
unfoldable pub jobs_order_by : String → Option (Job → Job → Bool)
jobs_order_by sort =
    if sort == "created_at_desc"
    then some (descending (λ j. j.created_at))
    else if sort == "created_at_asc"
    then some (ascending (λ j. j.created_at))
    else if sort == "updated_at_desc"
    then some (descending (λ j. j.updated_at))
    else if sort == "updated_at_asc"
    then some (ascending (λ j. j.updated_at))
    else none

unfoldable pub list_jobs :
    JobFilter → (limit offset : ℕ) → (sort : String) → Db → Outcome (List Job)
unfolding jobs_order_by kind_text status_text
list_jobs f limit offset sort db = elim (jobs_order_by sort) [
  | none ↦ raised value_error
  | some before ↦ ok (
      take (max 1 (min limit 500))
        (drop offset (sort_by before (select_rows (is_listed f) db.jobs))))
]

unfoldable pub count_jobs : JobFilter → Db → ℕ
unfolding kind_text status_text
count_jobs f db = count_rows (is_listed f) db.jobs

unfoldable pub get_job_by_external_task_id : String → Option Kind → Db → Option Job
unfolding latest_job
get_job_by_external_task_id external_task_id kind db =
    if is_empty external_task_id
    then none
    else latest_job (
        select_rows (λ j. some_eq j.external_task_id (some external_task_id) && kind_is kind j.kind)
          db.jobs)
