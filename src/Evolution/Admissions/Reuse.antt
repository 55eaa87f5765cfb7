-- ===== src/Evolution/Admissions/Reuse.antt =====
-- Which active job an admission finds for the hashes of its request.
use mathlib.Core.Option.{some-injective}
use ange_media_gateway.Text.{is_empty, is_empty_iff}
use ange_media_gateway.Base.{All-map}
use ange_media_gateway.Base.{
  ◌≡◌, refl, sym, ap, subst, ◌∙◌, ◌⊎◌, inl, inr, ℕ, Bool, true, false, ◌&&◌, ◌||◌, ◌==◌, ==_iff,
  string_eq, nat_eq, String, Option, none, some, List, [], ◌∷◌, All, All-select_rows, Bool-cases,
  Option-cases, contains, select_rows, count_rows, arith, ltb,
}
use ange_media_gateway.Store.{Db, Job, Kind, Status, queued, running, kind_eq, status_eq}
use ange_media_gateway.Jobs.{
  some_eq, latest_job, active_job_statuses, find_recent_job_by_request_hash,
}
use ange_media_gateway.Admission.{existing_job}
use ange_media_gateway.Evolution.Admissions.Pairs.{AmongPairs, here, there, is_active_with, usable}

-- A row of a table.
pub data IsRow (j : Job) : List Job → Type 0 where
  first : {rest : List Job} → IsRow j (j ∷ rest)
  behind : {k : Job} {rest : List Job} → IsRow j rest → IsRow j (k ∷ rest)

All-IsRow : (l : List Job) → All (λ j. IsRow j l) l
All-IsRow [] = tt
All-IsRow (k ∷ l) =
    (first, All-map (λ j. IsRow j l) (λ j. IsRow j (k ∷ l)) (λ j r. behind r) l (All-IsRow l))

-- The newest of some rows is one of them.
latest_job_sound :
    (P : Job → Type 0) (l : List Job) (j : Job) → All P l → latest_job l ≡ some j → P j
unfolding latest_job
latest_job_sound P [] j all h = cc
latest_job_sound P (k ∷ l) j all h = elim (Option-cases (latest_job l)) [
  | inl e ↦ subst P (some-injective _ _ (rw e at h)) all.0
  | inr found ↦
      let (m, e) = found in
      elim (Bool-cases (ltb k.created_at m.created_at)) [
        | inl y ↦ subst P (some-injective _ _ (rw (e, y) at h)) (latest_job_sound P l m all.1 e)
        | inr n ↦ subst P (some-injective _ _ (rw (e, n) at h)) all.0
      ]
]

latest_job-none : (l : List Job) → latest_job l ≡ none → l ≡ []
unfolding latest_job
latest_job-none [] h = refl
latest_job-none (k ∷ l) h = ground arith

-- What is known of an active job that is found.
pub record IsFound (kind : Kind) (l : List (Option String × Option ℕ)) (db : Db) (j : Job)
    : Type 0 where
  pub hash : String
  pub version : ℕ
  pub of_request : AmongPairs hash version l
  pub has_hash : j.request_hash ≡ some hash
  pub has_version : j.request_hash_version ≡ some version
  pub has_kind : j.kind ≡ kind
  pub is_active : (j.status ≡ queued) ⊎ (j.status ≡ running)
  pub in_table : IsRow j db.jobs

active_columns :
    (kind : Kind) (hash : String) (version : ℕ) (j : Job)
    → is_active_with kind hash version j ≡ true
    → ((j.status ≡ queued) ⊎ (j.status ≡ running))
      × (j.kind ≡ kind)
      × (j.request_hash ≡ some hash)
      × (j.request_hash_version ≡ some version)
active_columns kind hash version j h =
    let (rest, v) = split _ _ h in
    let (more, r) = split _ _ rest in
    let (s, k) = split _ _ more in
    (
      status_active j.status s,
      (==_iff j.kind kind).0 k,
      text_same j.request_hash r,
      number_same j.request_hash_version v,
    )
  where
    split : (a b : Bool) → (a && b) ≡ true → (a ≡ true) × (b ≡ true)
    split true b h = (refl, h)
    split false b h = (h, cc)

    status_active :
        (s : Status) → (s == queued || s == running) ≡ true → (s ≡ queued) ⊎ (s ≡ running)
    status_active queued h = inl refl
    status_active running h = inr refl
    status_active _ h = cc

    text_same : (o : Option String) → some_eq o (some hash) ≡ true → o ≡ some hash
    text_same none h = cc
    text_same (some t) h = ap some ((==_iff t hash).0 h)

    number_same : (o : Option ℕ) → some_eq o (some version) ≡ true → o ≡ some version
    number_same none h = cc
    number_same (some t) h = ap some ((==_iff t version).0 h)

abbrev lookup_active : Kind → String → ℕ → Db → Option Job
lookup_active kind hash version db =
    find_recent_job_by_request_hash kind (some hash) (some version) active_job_statuses none db

abbrev tested : Kind → String → ℕ → Job → Bool
tested kind hash version j =
    j.kind == kind
    && some_eq j.request_hash (some hash)
    && some_eq j.request_hash_version (some version)
    && contains active_job_statuses j.status
    && true

same_test :
    (kind : Kind) (hash : String) (version : ℕ) (j : Job)
    → tested kind hash version j ≡ is_active_with kind hash version j
same_test kind hash version j =
    ordered (j.kind == kind) (some_eq j.request_hash (some hash))
      (some_eq j.request_hash_version (some version)) j.status
  where
    ordered :
        (a b c : Bool) (s : Status)
        → (a && b && c && contains active_job_statuses s && true)
          ≡ ((s == queued || s == running) && a && b && c)
    ordered a b c queued = ground arith
    ordered a b c running = ground arith
    ordered a b c _ = ground arith

-- The query for one pair finds an active job with it.
lookup_sound :
    (kind : Kind) (hash : String) (version : ℕ) (db : Db) (j : Job)
    → lookup_active kind hash version db ≡ some j
    → (is_active_with kind hash version j ≡ true) × IsRow j db.jobs
unfolding find_recent_job_by_request_hash
lookup_sound kind hash version db j h = elim (Bool-cases (is_empty hash)) [
  | inl y ↦ let nothing = rw y at h in cc
  | inr n ↦
      let passing =
        All-select_rows (λ k. IsRow k db.jobs) (tested kind hash version) db.jobs
          (All-IsRow db.jobs) in
      let (row, holds) =
        latest_job_sound _ (select_rows (tested kind hash version) db.jobs) j passing (rw n at h) in
      (sym (same_test kind hash version j) ∙ holds, row)
]

none_selected : (p : Job → Bool) (l : List Job) → select_rows p l ≡ [] → count_rows p l ≡ 0
unfolding select_rows count_rows
none_selected p [] h = refl
none_selected p (j ∷ l) h = elim (Bool-cases (p j)) [
  | inl y ↦ let some_row = rw y at h in cc
  | inr n ↦ rw n (none_selected p l (rw n at h))
]

count_same :
    (p q : Job → Bool) (l : List Job) → ((j : Job) → p j ≡ q j) → count_rows p l ≡ count_rows q l
unfolding count_rows
count_same p q [] h = refl
count_same p q (j ∷ l) h = rw (h j, count_same p q l h) refl

-- A pair for which the query finds nothing has no active job.
lookup_none :
    (kind : Kind) (hash : String) (version : ℕ) (db : Db)
    → lookup_active kind hash version db ≡ none
    → (hash ≡ "") ⊎ (count_rows (is_active_with kind hash version) db.jobs ≡ 0)
unfolding find_recent_job_by_request_hash
lookup_none kind hash version db h = elim (Bool-cases (is_empty hash)) [
  | inl y ↦ inl ((is_empty_iff hash).0 y)
  | inr n ↦
      let none_left =
        latest_job-none (select_rows (tested kind hash version) db.jobs) (rw n at h) in
      inr (
        sym (count_same _ _ db.jobs (same_test kind hash version))
        ∙ none_selected (tested kind hash version) db.jobs none_left)
]

later-IsFound :
    (kind : Kind) (p : Option String × Option ℕ) (l : List (Option String × Option ℕ)) (db : Db)
    (j : Job)
    → IsFound kind l db j
    → IsFound kind (p ∷ l) db j
later-IsFound kind p l db j f = record {
  hash = f.hash;
  version = f.version;
  of_request = there f.of_request;
  has_hash = f.has_hash;
  has_version = f.has_version;
  has_kind = f.has_kind;
  is_active = f.is_active;
  in_table = f.in_table;
}

-- A job that is found for the pairs of a request is an active one with one of them.
pub existing_job_sound :
    (kind : Kind) (l : List (Option String × Option ℕ)) (db : Db) (j : Job)
    → existing_job kind (usable l) db ≡ some j
    → IsFound kind l db j
unfolding existing_job
existing_job_sound kind [] db j h = cc
existing_job_sound kind ((some hash, some version) ∷ l) db j h = elim (Bool-cases (is_empty hash)) [
  | inl y ↦ later-IsFound kind _ l db j (existing_job_sound kind l db j (rw y at h))
  | inr n ↦
      let tried : existing_job kind ((hash, version) ∷ usable l) db ≡ some j = rw n at h in
      elim (Option-cases (lookup_active kind hash version db)) [
        | inl e ↦
            later-IsFound kind _ l db j
              (existing_job_sound kind l db j (rw (e, existing_job) at tried))
        | inr found ↦
            let same = some-injective _ _ (rw (found.1, existing_job) at tried) in
            let (active, row) = lookup_sound kind hash version db j (found.1 ∙ ap some same) in
            let (is_active, has_kind, has_hash, has_version) =
              active_columns kind hash version j active in
            record {
              hash = hash;
              version = version;
              of_request = here;
              has_hash = has_hash;
              has_version = has_version;
              has_kind = has_kind;
              is_active = is_active;
              in_table = row;
            }
      ]
]
existing_job_sound kind ((some hash, none) ∷ l) db j h =
    later-IsFound kind _ l db j (existing_job_sound kind l db j h)
existing_job_sound kind ((none, version) ∷ l) db j h =
    later-IsFound kind _ l db j (existing_job_sound kind l db j h)

rest_none :
    (kind : Kind) (o : Option String) (v : Option ℕ) (l : List (Option String × Option ℕ)) (db : Db)
    → existing_job kind (usable ((o, v) ∷ l)) db ≡ none
    → existing_job kind (usable l) db ≡ none
unfolding existing_job
rest_none kind (some hash) (some version) l db h = elim (Bool-cases (is_empty hash)) [
  | inl y ↦ rw y at h
  | inr n ↦
      let tried : existing_job kind ((hash, version) ∷ usable l) db ≡ none = rw n at h in
      elim (Option-cases (lookup_active kind hash version db)) [
        | inl e ↦ rw (e, existing_job) at tried
        | inr found ↦ let one = rw (found.1, existing_job) at tried in cc
      ]
]
rest_none kind (some hash) none l db h = h
rest_none kind none v l db h = h

first_none :
    (kind : Kind) (hash : String) (version : ℕ) (l : List (Option String × Option ℕ)) (db : Db)
    → existing_job kind (usable ((some hash, some version) ∷ l)) db ≡ none
    → (hash ≡ "") ⊎ (count_rows (is_active_with kind hash version) db.jobs ≡ 0)
unfolding existing_job
first_none kind hash version l db h = elim (Bool-cases (is_empty hash)) [
  | inl y ↦ inl ((is_empty_iff hash).0 y)
  | inr n ↦
      let tried : existing_job kind ((hash, version) ∷ usable l) db ≡ none = rw n at h in
      elim (Option-cases (lookup_active kind hash version db)) [
        | inl e ↦ lookup_none kind hash version db e
        | inr found ↦ let one = rw (found.1, existing_job) at tried in cc
      ]
]

-- Where no job is found, there is no active job with any pair of the request.
pub existing_job-none :
    (kind : Kind) (hash : String) (version : ℕ) (db : Db) (l : List (Option String × Option ℕ))
    → existing_job kind (usable l) db ≡ none
    → AmongPairs hash version l
    → (hash ≡ "") ⊎ (count_rows (is_active_with kind hash version) db.jobs ≡ 0)
unfolding existing_job
existing_job-none kind hash version db _ h (here {rest}) = first_none kind hash version rest db h
existing_job-none kind hash version db _ h (there {p} {rest} m) =
    existing_job-none kind hash version db rest (rest_none kind p.0 p.1 rest db h) m
