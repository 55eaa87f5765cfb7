-- ===== src/Jobs/Pages.antt =====
-- What the listing of jobs in pages gives.
use ange_media_gateway.Store.{
  value_error, ok, raised, Job, Db, Kind, Status, kind_text, status_text, kind_eq, status_eq,
}
use mathlib.Core.Option.{some-injective}
use ange_media_gateway.Text.{is_empty_iff}
use ange_media_gateway.Jobs.Insert.{some_eq}
use ange_media_gateway.Jobs.Queries.{
  JobFilter, list_jobs, is_listed, jobs_order_by, kind_is, status_is, text_is, ascending,
  descending,
}
use ange_media_gateway.Base.{
  ◌&&◌, ◌||◌, ℕ, Bool, true, false, String, Option, none, some, List, [], ◌++◌, ◌≡◌, refl, sym, ap,
  subst, ◌∙◌, ◌⊎◌, ◌↔◌, inl, inr, ◌≤◌, ◌<◌, ◌==◌, ==_iff, string_eq, Bool-cases, min, max, take,
  drop, length, select_rows, count_rows, count_rows-sort_by, sort_by, sort_by-Ordered, Ordered,
  take-drop, length-take_bound, short_take, arith,
}

-- What each parameter of a listing asks of its column: nothing where it is absent or an empty text.
abbrev pub KindFits : Option Kind → Kind → Type 0
KindFits none column = Unit
KindFits (some kind) column = (kind_text kind ≡ "") ⊎ (column ≡ kind)

abbrev pub StatusFits : Option Status → Status → Type 0
StatusFits none column = Unit
StatusFits (some status) column = (status_text status ≡ "") ⊎ (column ≡ status)

abbrev pub TextFits : Option String → Option String → Type 0
TextFits none column = Unit
TextFits (some text) column = (text ≡ "") ⊎ (column ≡ some text)

abbrev pub Fits : JobFilter → Job → Type 0
Fits f j =
    KindFits f.kind j.kind
    × StatusFits f.status j.status
    × TextFits f.provider j.provider
    × TextFits f.model j.model

-- The four orders that can be asked for.
pub data SortedBy : String → List Job → Type 0 where
  newest_created :
      {l : List Job} → Ordered (λ j k. k.created_at ≤ j.created_at) l → SortedBy "created_at_desc" l
  oldest_created :
      {l : List Job} → Ordered (λ j k. j.created_at ≤ k.created_at) l → SortedBy "created_at_asc" l
  newest_updated :
      {l : List Job} → Ordered (λ j k. k.updated_at ≤ j.updated_at) l → SortedBy "updated_at_desc" l
  oldest_updated :
      {l : List Job} → Ordered (λ j k. j.updated_at ≤ k.updated_at) l → SortedBy "updated_at_asc" l

-- A page among all rows that fit: `earlier` is skipped, `later` follows.
pub record IsPage (f : JobFilter) (size offset : ℕ) (sort : String) (db : Db) (rows : List Job)
    : Type 0 where
  pub earlier : List Job
  pub later : List Job
  pub fits : Job → Bool
  pub fits_exact : (j : Job) → (fits j ≡ true) ↔ Fits f j
  -- Each row that fits is there as often as in the table, and no other.
  pub all_fitting :
      (p : Job → Bool)
      → count_rows p (earlier ++ (rows ++ later)) ≡ count_rows p (select_rows fits db.jobs)
  pub in_order : SortedBy sort (earlier ++ (rows ++ later))
  pub skips : length earlier ≤ offset
  pub skips_all : length earlier < offset → rows ++ later ≡ []
  pub within_size : length rows ≤ size
  pub size_used : length rows < size → later ≡ []

abbrev pub is_known_sort : String → Bool
is_known_sort sort =
    sort == "created_at_desc"
    || sort == "created_at_asc"
    || sort == "updated_at_desc"
    || sort == "updated_at_asc"

either_iff :
    {P Q : Type 0} (a b : Bool) → (a ≡ true) ↔ P → (b ≡ true) ↔ Q → ((a || b) ≡ true) ↔ (P ⊎ Q)
either_iff true b p q = (λ h. inl (p.0 refl), λ h. refl)
either_iff false b p q =
    (λ h. inr (q.0 h), λ h. elim h [ inl x ↦ absurd_true (p.1 x) | inr y ↦ q.1 y ])
  where
    absurd_true : false ≡ true → b ≡ true
    absurd_true e = cc

both_iff :
    {P Q : Type 0} (a b : Bool) → (a ≡ true) ↔ P → (b ≡ true) ↔ Q → ((a && b) ≡ true) ↔ (P × Q)
both_iff true b p q = (λ h. (p.0 refl, q.0 h), λ h. q.1 h.1)
both_iff false b p q = (λ h. absurd_false h, λ h. p.1 h.0)
  where
    absurd_false : {A : Type 0} → false ≡ true → A
    absurd_false e = cc

kind_is_iff : (o : Option Kind) (column : Kind) → (kind_is o column ≡ true) ↔ KindFits o column
kind_is_iff none column = (λ h. tt, λ h. refl)
kind_is_iff (some kind) column = either_iff _ _ (is_empty_iff (kind_text kind)) (==_iff column kind)

status_is_iff :
    (o : Option Status) (column : Status) → (status_is o column ≡ true) ↔ StatusFits o column
status_is_iff none column = (λ h. tt, λ h. refl)
status_is_iff (some status) column =
    either_iff _ _ (is_empty_iff (status_text status)) (==_iff column status)

some_eq_iff :
    (column : Option String) (t : String) → (some_eq column (some t) ≡ true) ↔ (column ≡ some t)
some_eq_iff none t = (λ h. cc, λ h. cc)
some_eq_iff (some c) t =
    (λ h. ap some ((==_iff c t).0 h), λ h. (==_iff c t).1 (some-injective _ _ h))

text_is_iff : (o column : Option String) → (text_is o column ≡ true) ↔ TextFits o column
text_is_iff none column = (λ h. tt, λ h. refl)
text_is_iff (some t) column = either_iff _ _ (is_empty_iff t) (some_eq_iff column t)

is_listed_iff : (f : JobFilter) (j : Job) → (is_listed f j ≡ true) ↔ Fits f j
is_listed_iff f j =
    let tests =
      both_iff _ _
        (both_iff _ _ (both_iff _ _ (kind_is_iff f.kind j.kind) (status_is_iff f.status j.status))
          (text_is_iff f.provider j.provider))
        (text_is_iff f.model j.model) in
    (
      λ h. let (((kind, status), provider), model) = tests.0 h in (kind, status, provider, model),
      λ h. let (kind, status, provider, model) = h in tests.1 (((kind, status), provider), model),
    )

descending-Ordered :
    (column : Job → ℕ) (l : List Job)
    → Ordered (λ j k. column k ≤ column j) (sort_by (descending column) l)
descending-Ordered column l =
    sort_by-Ordered (descending column) (λ j k. column k ≤ column j) (λ x y h. ground arith)
      (λ x y h. ground arith) (λ x y z a b. omega arith) l

ascending-Ordered :
    (column : Job → ℕ) (l : List Job)
    → Ordered (λ j k. column j ≤ column k) (sort_by (ascending column) l)
ascending-Ordered column l =
    sort_by-Ordered (ascending column) (λ j k. column j ≤ column k) (λ x y h. ground arith)
      (λ x y h. ground arith) (λ x y z a b. omega arith) l

-- The order of an argument that is known.
abbrev HasOrder : String → Type 0
HasOrder sort =
    (before : Job → Job → Bool) × (jobs_order_by sort ≡ some before)
    × (is_known_sort sort ≡ true)
    × ((l : List Job) → SortedBy sort (sort_by before l))

newest_created-HasOrder : HasOrder "created_at_desc"
unfolding jobs_order_by
newest_created-HasOrder =
    (descending (λ j. j.created_at), refl, refl, λ l. newest_created (descending-Ordered _ l))

oldest_created-HasOrder : HasOrder "created_at_asc"
unfolding jobs_order_by
oldest_created-HasOrder =
    (ascending (λ j. j.created_at), refl, refl, λ l. oldest_created (ascending-Ordered _ l))

newest_updated-HasOrder : HasOrder "updated_at_desc"
unfolding jobs_order_by
newest_updated-HasOrder =
    (descending (λ j. j.updated_at), refl, refl, λ l. newest_updated (descending-Ordered _ l))

oldest_updated-HasOrder : HasOrder "updated_at_asc"
unfolding jobs_order_by
oldest_updated-HasOrder =
    (ascending (λ j. j.updated_at), refl, refl, λ l. oldest_updated (ascending-Ordered _ l))

known_order :
    (sort : String) → ((jobs_order_by sort ≡ none) × (is_known_sort sort ≡ false)) ⊎ HasOrder sort
unfolding jobs_order_by
known_order sort = elim (Bool-cases (sort == "created_at_desc")) [
  | inl y ↦ inr (subst HasOrder (sym ((==_iff sort _).0 y)) newest_created-HasOrder)
  | inr a ↦ elim (Bool-cases (sort == "created_at_asc")) [
    | inl y ↦ inr (subst HasOrder (sym ((==_iff sort _).0 y)) oldest_created-HasOrder)
    | inr b ↦ elim (Bool-cases (sort == "updated_at_desc")) [
      | inl y ↦ inr (subst HasOrder (sym ((==_iff sort _).0 y)) newest_updated-HasOrder)
      | inr c ↦ elim (Bool-cases (sort == "updated_at_asc")) [
        | inl y ↦ inr (subst HasOrder (sym ((==_iff sort _).0 y)) oldest_updated-HasOrder)
        | inr d ↦ inl (rw (a, b, c, d) refl, rw (a, b, c, d) refl)
      ]
    ]
  ]
]

module _ (f : JobFilter) (limit offset : ℕ) (sort : String) (db : Db) where
  -- A listing answers, for one of the four known orders, a page of the jobs that fit its parameters
  -- (an absent or empty one fits all), each as often as in the table and no other, in the order of
  -- the instants asked for: `offset` of them are skipped, and as many follow as the limit, kept
  -- between 1 and 500, allows. For any other order it raises ValueError.
  pub list_jobs-IsPage :
      ((list_jobs f limit offset sort db ≡ raised value_error) × (is_known_sort sort ≡ false))
      ⊎ ((rows : List Job) × (list_jobs f limit offset sort db ≡ ok rows)
          × (is_known_sort sort ≡ true)
          × IsPage f (max 1 (min limit 500)) offset sort db rows)
  unfolding list_jobs
  list_jobs-IsPage = elim (known_order sort) [
    | inl unknown ↦ inl (rw (unknown.0, list_jobs) refl, unknown.1)
    | inr known ↦
        let (before, is_order, is_known, sorted) = known in
        let size = max 1 (min limit 500) in
        let all = sort_by before (select_rows (is_listed f) db.jobs) in
        let rest = drop offset all in
        let whole : take offset all ++ (take size rest ++ drop size rest) ≡ all =
          ap (λ l. take offset all ++ l) (take-drop size rest) ∙ take-drop offset all in
        inr (
          take size rest,
          rw (is_order, list_jobs) refl,
          is_known,
          record {
            earlier = take offset all;
            later = drop size rest;
            fits = is_listed f;
            fits_exact = is_listed_iff f;
            all_fitting = λ p. ap (count_rows p) whole ∙ count_rows-sort_by before p _;
            in_order = subst (SortedBy sort) (sym whole) (sorted _);
            skips = length-take_bound offset all;
            skips_all = λ h. take-drop size rest ∙ short_take offset all h;
            within_size = length-take_bound size rest;
            size_used = short_take size rest;
          },
        )
  ]
