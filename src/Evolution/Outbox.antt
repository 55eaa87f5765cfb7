-- ===== src/Evolution/Outbox.antt =====
-- How the rows of the outbox change: the diagram of a dispatch, and the relation on the tables.
use ange_media_gateway.Outbox.{update_dispatches, dispatch_by_id}
use ange_media_gateway.Evolution.Relates.{tables_order, OnTables, IsTablePreorder, IsPreorder}
use ange_media_gateway.Base.{
  string_eq, inr, inl, Bool-cases, find_row-update_rows, ◌==◌, IsKeyed-update_rows, find_row-append,
  IsKeyed-append, ◌≤◌, ◌++◌, false, true, ◌≡◌, ◌∙◌, Bool, arith, IsKeyed, String, none, some, [],
  ◌∷◌, refl,
}
use ange_media_gateway.Store.{DispatchStatus, JobDispatch, Db}

-- One move of a dispatch: it is leased, and the lease ends by a delivery, another try or a failure;
-- a delivered message may turn out lost.
pub data DispatchMove : DispatchStatus → DispatchStatus → Type 0 where
  lease : DispatchMove DispatchStatus.pending DispatchStatus.publishing
  publish : DispatchMove DispatchStatus.publishing DispatchStatus.published
  give_back : DispatchMove DispatchStatus.publishing DispatchStatus.pending
  give_up : DispatchMove DispatchStatus.publishing DispatchStatus.failed
  lose : DispatchMove DispatchStatus.published DispatchStatus.failed

pub data DispatchPath (s : DispatchStatus) : DispatchStatus → Type 0 where
  here : DispatchPath s s
  onward : {t u : DispatchStatus} → DispatchPath s t → DispatchMove t u → DispatchPath s u

pub DispatchPath-trans :
    {s t u : DispatchStatus} → DispatchPath s t → DispatchPath t u → DispatchPath s u
DispatchPath-trans p here = p
DispatchPath-trans p (onward q m) = onward (DispatchPath-trans p q) m

-- The statuses that no dispatcher changes.
abbrev pub is_settled : DispatchStatus → Bool
is_settled DispatchStatus.pending = false
is_settled DispatchStatus.publishing = false
is_settled _ = true

-- `e` is a later row of the dispatch `d`: what is to be delivered never changes, and how it was
-- delivered is kept.
pub record DispatchEvolves (d e : JobDispatch) : Type 0 where
  pub same_id : e.id ≡ d.id
  pub same_job : e.job_id ≡ d.job_id
  pub same_topic : e.topic ≡ d.topic
  pub same_payload : e.payload_json ≡ d.payload_json
  pub same_created : e.created_at ≡ d.created_at
  pub version_grows : d.version ≤ e.version
  pub change_is_versioned : e.version ≡ d.version → e ≡ d
  pub attempts_grow : d.attempt_count ≤ e.attempt_count
  pub stays_settled : is_settled d.status ≡ true → is_settled e.status ≡ true
  pub delivery_is_kept :
      is_settled d.status ≡ true
      → (e.published_at ≡ d.published_at) × (e.broker_message_id ≡ d.broker_message_id)
  pub path : DispatchPath d.status e.status

pub DispatchEvolves-refl : (d : JobDispatch) → DispatchEvolves d d
DispatchEvolves-refl d = record {
  same_id = refl;
  same_job = refl;
  same_topic = refl;
  same_payload = refl;
  same_created = refl;
  version_grows = omega arith;
  change_is_versioned = λ _. refl;
  attempts_grow = omega arith;
  stays_settled = λ h. h;
  delivery_is_kept = λ _. (refl, refl);
  path = DispatchPath.here;
}

pub DispatchEvolves-trans :
    (c d e : JobDispatch) → DispatchEvolves c d → DispatchEvolves d e → DispatchEvolves c e
DispatchEvolves-trans c d e p q = record {
  same_id = q.same_id ∙ p.same_id;
  same_job = q.same_job ∙ p.same_job;
  same_topic = q.same_topic ∙ p.same_topic;
  same_payload = q.same_payload ∙ p.same_payload;
  same_created = q.same_created ∙ p.same_created;
  version_grows = omega (arith, p.version_grows, q.version_grows);
  change_is_versioned = λ h.
      q.change_is_versioned (omega (arith, p.version_grows, q.version_grows))
      ∙ p.change_is_versioned (omega (arith, p.version_grows, q.version_grows));
  attempts_grow = omega (arith, p.attempts_grow, q.attempts_grow);
  stays_settled = λ h. q.stays_settled (p.stays_settled h);
  delivery_is_kept = λ h.
      let (a, b) = p.delivery_is_kept h in
      let (a', b') = q.delivery_is_kept (p.stays_settled h) in (a' ∙ a, b' ∙ b);
  path = DispatchPath-trans p.path q.path;
}

abbrev pub dispatch_key : JobDispatch → String
dispatch_key d = d.id

abbrev pub DispatchesKeyed : Db → Type 0
DispatchesKeyed a = IsKeyed dispatch_key a.job_dispatches

-- Ids are distinct, and every earlier row is there, as a later row.
pub record DispatchesKept (a b : Db) : Type 0 where
  pub ids_distinct : DispatchesKeyed b
  pub later_row :
      (id : String) (d : JobDispatch)
      → dispatch_by_id id a ≡ some d
      → (e : JobDispatch) × (dispatch_by_id id b ≡ some e) × DispatchEvolves d e

-- The same of a table with distinct ids, as a relation that is reflexive and transitive.
pub record DispatchesEvolve (a b : Db) : Type 0 where
  pub keyed : DispatchesKeyed a → DispatchesKeyed b
  pub later :
      DispatchesKeyed a
      → (id : String) (d : JobDispatch) → dispatch_by_id id a ≡ some d
      → (e : JobDispatch) × (dispatch_by_id id b ≡ some e) × DispatchEvolves d e

pub dispatches_order : IsTablePreorder DispatchesEvolve
dispatches_order = record {
  same_law = λ a. record { keyed = λ h. h; later = λ h id d f. (d, f, DispatchEvolves-refl d) };
  chain_law = λ a b c p q. record {
    keyed = λ h. q.keyed (p.keyed h);
    later = λ h id d f.
        let (e, fe, de) = p.later h id d f in
        let (g, fg, eg) = q.later (p.keyed h) id e fe in (g, fg, DispatchEvolves-trans d e g de eg);
  };
}

instance pub dispatches_world_order : IsPreorder (OnTables DispatchesEvolve)
dispatches_world_order = tables_order dispatches_order

pub same_dispatches : (a b : Db) → b.job_dispatches ≡ a.job_dispatches → DispatchesEvolve a b
unfolding dispatch_by_id
same_dispatches a b e = record {
  keyed = λ h. rw e h;
  later = λ h id d f. (d, rw e f, DispatchEvolves-refl d);
}

-- A row under a new id.
pub added_dispatch :
    (a : Db) (d : JobDispatch)
    → dispatch_by_id d.id a ≡ none
    → DispatchesEvolve a (record a { job_dispatches = a.job_dispatches ++ d ∷ [] })
unfolding dispatch_by_id
added_dispatch a d fresh = record {
  keyed = λ h. IsKeyed-append dispatch_key a.job_dispatches d h fresh;
  later = λ h id e f.
      (e, rw (find_row-append (λ x. x.id == id) a.job_dispatches d, f), DispatchEvolves-refl e);
}

-- An `UPDATE` that keeps the ids, and makes of each row that it changes a later row.
pub updated_dispatches :
    (p : JobDispatch → Bool) (f : JobDispatch → JobDispatch) (a : Db)
    → ((d : JobDispatch) → (f d).id ≡ d.id)
    → (DispatchesKeyed a
        → (id : String) (d : JobDispatch) → dispatch_by_id id a ≡ some d
        → p d ≡ true
        → DispatchEvolves d (f d))
    → DispatchesEvolve a (update_dispatches p f a)
unfolding dispatch_by_id
updated_dispatches p f a keeps moves = record {
  keyed = λ h. IsKeyed-update_rows dispatch_key p f a.job_dispatches keeps h;
  later = λ h id d found.
      let after = find_row-update_rows (λ x. x.id == id) p f a.job_dispatches (λ x. rw (keeps x)) in
      elim (Bool-cases (p d)) [
        | inl y ↦ (f d, rw (after, found) (rw y), moves h id d found y)
        | inr n ↦ (d, rw (after, found) (rw n), DispatchEvolves-refl d)
      ];
}
