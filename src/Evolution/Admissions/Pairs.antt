-- ===== src/Evolution/Admissions/Pairs.antt =====
-- The pairs of a hash and a version that an admission looks for.
use ange_media_gateway.Text.{is_empty}
use ange_media_gateway.Base.{
  ◌≡◌, refl, sym, ◌∙◌, inl, inr, ℕ, Bool, ◌&&◌, ◌||◌, ◌==◌, string_eq, nat_eq, if◌then◌else◌,
  String, Option, none, some, List, [], ◌∷◌, Bool-cases,
}
use ange_media_gateway.Store.{World, Job, Kind, queued, running, kind_eq, status_eq, ok, pure}
use ange_media_gateway.Store.Success.{bind_returns, ensure_returns, ok-injective}
use ange_media_gateway.Jobs.{some_eq}
use ange_media_gateway.Admission.{
  AdmissionRequest, dedupe_candidates, check_request, all_candidates,
}

-- A pair of a hash and a version that a request names.
pub data AmongPairs (hash : String) (version : ℕ) : List (Option String × Option ℕ) → Type 0 where
  here :
      {rest : List (Option String × Option ℕ)}
      → AmongPairs hash version ((some hash, some version) ∷ rest)
  there :
      {p : Option String × Option ℕ} {rest : List (Option String × Option ℕ)}
      → AmongPairs hash version rest
      → AmongPairs hash version (p ∷ rest)

abbrev pub wanted_pairs : AdmissionRequest → List (Option String × Option ℕ)
wanted_pairs r = (r.request_hash, r.request_hash_version) ∷ r.dedupe_hashes

-- A queued or running job of the kind, with the hash and the version.
abbrev pub is_active_with : Kind → String → ℕ → Job → Bool
is_active_with kind hash version j =
    (j.status == queued || j.status == running)
    && j.kind == kind
    && some_eq j.request_hash (some hash)
    && some_eq j.request_hash_version (some version)

-- The pairs that are not passed over.
abbrev pub usable : List (Option String × Option ℕ) → List (String × ℕ)
usable [] = []
usable ((some hash, some version) ∷ rest) =
    let others = usable rest in if is_empty hash then others else (hash, version) ∷ others
usable ((some hash, none) ∷ rest) = usable rest
usable ((none, version) ∷ rest) = usable rest

dedupe_returns :
    (l : List (Option String × Option ℕ)) (w : World) (out : List (String × ℕ))
    → (dedupe_candidates l w).0 ≡ ok out
    → out ≡ usable l
unfolding dedupe_candidates pure
dedupe_returns [] w out h = sym (ok-injective _ _ h)
dedupe_returns ((some hash, some version) ∷ rest) w out h = elim (Bool-cases (is_empty hash)) [
  | inl y ↦ rw y (dedupe_returns rest w out (rw y at h))
  | inr n ↦
      let (is_hash, h1, e1) = ensure_returns _ _ _ w out (rw n at h) in
      let (more, found, h2, e2) = bind_returns (dedupe_candidates rest) _ w out h1 in
      rw (n, sym (dedupe_returns rest w more found)) (sym (ok-injective _ _ h2))
]
dedupe_returns ((some hash, none) ∷ rest) w out h = dedupe_returns rest w out h
dedupe_returns ((none, version) ∷ rest) w out h = dedupe_returns rest w out h

-- The checks of a request answer the usable pairs of `dedupe_hashes`.
pub check_request_returns :
    (r : AdmissionRequest) (w : World) (out : List (String × ℕ))
    → (check_request r w).0 ≡ ok out
    → all_candidates r out ≡ usable (wanted_pairs r)
unfolding check_request pure
check_request_returns r w out h =
    let (c1, h1, e1) = ensure_returns _ _ _ w out h in
    let (c2, h2, e2) = ensure_returns _ _ _ w out h1 in
    let (c3, h3, e3) = ensure_returns _ _ _ w out h2 in
    let (c4, h4, e4) = ensure_returns _ _ _ w out h3 in
    let (candidates, found, h5, e5) = bind_returns (dedupe_candidates r.dedupe_hashes) _ w out h4 in
    let (c6, h6, e6) = ensure_returns _ _ _ _ out h5 in
    let (c7, h7, e7) = ensure_returns _ _ _ _ out h6 in
    let same = sym (ok-injective _ _ h7) ∙ dedupe_returns r.dedupe_hashes w candidates found in
    rw same (all_pairs r.request_hash r.request_hash_version)
  where
    all_pairs :
        (h : Option String) (v : Option ℕ)
        → all_candidates
            (record r { request_hash = h; request_hash_version = v })
            (usable r.dedupe_hashes)
          ≡ usable ((h, v) ∷ r.dedupe_hashes)
    all_pairs none v = refl
    all_pairs (some h) none = refl
    all_pairs (some h) (some v) = refl
