-- ===== src/Evolution/Moves.antt =====
-- What may happen to a job between two states of the tables.
use ange_media_gateway.Base.{◌≤◌, ◌≡◌, refl, ◌∙◌, String, some, arith, find_row, ◌==◌, string_eq}
use ange_media_gateway.Store.{Job, Db}
use ange_media_gateway.Evolution.Paths.{StatusPath, StagePath, StatusPath-trans, StagePath-trans}
use ange_media_gateway.Evolution.Relates.{tables_order, OnTables, IsTablePreorder, IsPreorder}

-- `k` is a later row of the job `j`. Whatever changed, the version grew.
pub record Evolves (j k : Job) : Type 0 where
  pub same_id : k.id ≡ j.id
  pub same_kind : k.kind ≡ j.kind
  pub same_hash : k.request_hash ≡ j.request_hash
  pub same_hash_version : k.request_hash_version ≡ j.request_hash_version
  pub same_created : k.created_at ≡ j.created_at
  pub version_grows : j.version ≤ k.version
  pub change_is_versioned : k.version ≡ j.version → k ≡ j
  pub status_path : StatusPath j.status k.status
  pub stage_path : StagePath j.stage k.stage

pub Evolves-refl : (j : Job) → Evolves j j
Evolves-refl j = record {
  same_id = refl;
  same_kind = refl;
  same_hash = refl;
  same_hash_version = refl;
  same_created = refl;
  version_grows = omega arith;
  change_is_versioned = λ e. refl;
  status_path = StatusPath.here;
  stage_path = StagePath.here;
}

pub Evolves-trans : (i j k : Job) → Evolves i j → Evolves j k → Evolves i k
Evolves-trans i j k p q = record {
  same_id = q.same_id ∙ p.same_id;
  same_kind = q.same_kind ∙ p.same_kind;
  same_hash = q.same_hash ∙ p.same_hash;
  same_hash_version = q.same_hash_version ∙ p.same_hash_version;
  same_created = q.same_created ∙ p.same_created;
  version_grows = omega (arith, p.version_grows, q.version_grows);
  change_is_versioned = λ e.
      q.change_is_versioned (omega (arith, p.version_grows, q.version_grows))
      ∙ p.change_is_versioned (omega (arith, p.version_grows, q.version_grows));
  status_path = StatusPath-trans p.status_path q.status_path;
  stage_path = StagePath-trans p.stage_path q.stage_path;
}

-- Every job of the first state is there in the second, as a later row.
pub record JobsEvolve (a b : Db) : Type 0 where
  pub later :
      (id : String) (j : Job)
      → find_row (λ x. x.id == id) a.jobs ≡ some j
      → (k : Job) × (find_row (λ x. x.id == id) b.jobs ≡ some k) × Evolves j k

pub JobsEvolve-preorder : IsTablePreorder JobsEvolve
JobsEvolve-preorder = record {
  same_law = λ a. record { later = λ id j h. (j, h, Evolves-refl j) };
  chain_law = λ a b c p q. record {
    later = λ id i h.
        let (j, hj, ij) = p.later id i h in
        let (k, hk, jk) = q.later id j hj in (k, hk, Evolves-trans i j k ij jk);
  };
}

instance pub jobs_order : IsPreorder (OnTables JobsEvolve)
jobs_order = tables_order JobsEvolve-preorder
