-- ===== src/GatewayKeys/Revoked.antt =====
-- A key that was revoked stays revoked.
use mathlib.Core.Option.{some-injective}
use ange_media_gateway.Base.{
  ap, All-find_row, find_row_sound, arith, ==_iff, nat_eq, All-of, All-update_rows,
  find_row-update_rows, ◌∙◌, All-append, All, find_row-append, sym, ◌≢◌, ◌==◌, string_eq,
  if◌then◌else◌, ◌⊎◌, ◌&&◌,
}
use Option.{none}
use ange_media_gateway.GatewayKeys.{
  is_empty, verify_gateway_api_key, generate_gateway_key, update_gateway_api_key_last_used,
  revoke_gateway_api_key, update_gateway_api_key, get_gateway_api_key, key_row_fits,
  create_gateway_api_key, update_keys, insert_key_row,
}
use ange_media_gateway.AdminAuth.{AdminTools}
use mathlib.Core.Option
use ange_media_gateway.Base.{
  ◌⊎◌, Bool-cases, false, some, is_none, Bool, find_row, true, is_some, Option, String, refl, ◌≡◌,
  inl, inr,
}
use ange_media_gateway.Store.{World, Db, Env, GatewayApiKey, ◌>>=◌}
use ange_media_gateway.Evolution.Relates.{
  Relates-pure, Relates-option, Relates-uuid4_hex, Relates-reads, Relates-now_iso, tables_order,
  Relates-bind, IsPreorder, OnTables, Relates,
}

-- The key is there, and every row of its id is revoked.
pub record IsRevoked (key_id : String) (db : Db) : Type 0 where
  pub is_there : is_some (find_row (λ k. k.id == key_id) db.gateway_api_keys) ≡ true
  pub all_revoked : All (λ k. k.id ≡ key_id → is_none k.revoked_at ≡ false) db.gateway_api_keys

-- The operations on keys.
pub data KeyStep (env : Env) (c : AdminTools) : World → World → Type 0 where
  create :
      (w : World) (name : String) (remark : Option String)
      → KeyStep env c w (create_gateway_api_key env c name remark w).1
  update :
      (w : World) (key_id : String) (name remark : Option String) (enabled : Option Bool)
      → KeyStep env c w (update_gateway_api_key env c key_id name remark enabled w).1
  revoke : (w : World) (key_id : String) → KeyStep env c w (revoke_gateway_api_key env c key_id w).1
  use_key :
      (w : World) (key_id : String) (ip : Option String)
      → KeyStep env c w (update_gateway_api_key_last_used env c key_id ip w).1

pub data KeyReach (env : Env) (c : AdminTools) (a : World) : World → Type 0 where
  here : KeyReach env c a a
  next : {b d : World} → KeyReach env c a b → KeyStep env c b d → KeyReach env c a d

some_stays :
    (g : GatewayApiKey → GatewayApiKey) (o : Option GatewayApiKey)
    → is_some o ≡ true
    → is_some (Option.map g o) ≡ true
some_stays g none h = h
some_stays g (some k) h = refl

some_left :
    (o p : Option GatewayApiKey)
    → is_some o ≡ true
    → is_some (elim o [ some k ↦ some k | none ↦ p ]) ≡ true
some_left none p h = cc
some_left (some k) p h = refl

module _ (env : Env) (c : AdminTools) (key_id : String) where
  -- An UPDATE that keeps the ids and revives no row.
  update_keys-IsRevoked :
      (p : GatewayApiKey → Bool) (f : GatewayApiKey → GatewayApiKey) (w : World)
      → ((k : GatewayApiKey) → (f k).id ≡ k.id)
      → ((k : GatewayApiKey) → is_none k.revoked_at ≡ false → is_none (f k).revoked_at ≡ false)
      → IsRevoked key_id w.db
      → IsRevoked key_id (update_keys p f w).1.db
  unfolding update_keys ◌>>=◌
  update_keys-IsRevoked p f w keeps revives h = record {
    is_there =
        rw
          (find_row-update_rows (λ k. k.id == key_id) p f w.db.gateway_api_keys
            (λ x. rw (keeps x) refl))
          (some_stays _ (find_row (λ k. k.id == key_id) w.db.gateway_api_keys) h.is_there);
    all_revoked =
        All-update_rows _ _ p f (λ k hk. kept k hk (Bool-cases (p k))) w.db.gateway_api_keys
          h.all_revoked;
  }
    where
      kept :
          (k : GatewayApiKey)
          → (k.id ≡ key_id → is_none k.revoked_at ≡ false)
          → (p k ≡ true) ⊎ (p k ≡ false)
          → (if p k then f k else k).id ≡ key_id
          → is_none (if p k then f k else k).revoked_at ≡ false
      kept k hk (inl y) = rw y (λ e. revives k (hk (sym (keeps k) ∙ e)))
      kept k hk (inr n) = rw n hk

  not_there :
      (k : GatewayApiKey) (db : Db)
      → k.id ≡ key_id
      → key_row_fits k db ≡ true
      → is_some (find_row (λ r. r.id == key_id) db.gateway_api_keys) ≢ true
  unfolding key_row_fits get_gateway_api_key
  not_there k db e fits there =
      both (find_row (λ r. r.id == key_id) db.gateway_api_keys) _ (rw e at fits) there
    where
      both : (o : Option GatewayApiKey) (b : Bool) → is_none o && b ≡ true → is_some o ≢ true
      both none b h there = cc
      both (some k) b h there = cc

  insert_key_row-IsRevoked :
      (k : GatewayApiKey) (w : World)
      → IsRevoked key_id w.db
      → IsRevoked key_id (insert_key_row k w).1.db
  unfolding insert_key_row key_row_fits get_gateway_api_key ◌>>=◌
  insert_key_row-IsRevoked k w h = elim (Bool-cases (key_row_fits k w.db)) [
    | inl fits ↦ rw fits (record {
      is_there =
          rw (find_row-append (λ r. r.id == key_id) w.db.gateway_api_keys k)
            (some_left (find_row (λ r. r.id == key_id) w.db.gateway_api_keys) _ h.is_there);
      all_revoked =
          All-append _ w.db.gateway_api_keys k h.all_revoked
            (λ e. absurd (not_there k w.db e fits h.is_there));
    })
    | inr refused ↦ rw refused h
  ]

  abbrev Kept : World → World → Type 0
  Kept = OnTables (λ a b. IsRevoked key_id a → IsRevoked key_id b)

  instance kept_order : IsPreorder Kept
  kept_order = tables_order (record { same_law = λ a h. h; chain_law = λ a b d f g h. g (f h) })

  Relates-update_keys :
      (p : GatewayApiKey → Bool) (f : GatewayApiKey → GatewayApiKey)
      → ((k : GatewayApiKey) → (f k).id ≡ k.id)
      → ((k : GatewayApiKey) → is_none k.revoked_at ≡ false → is_none (f k).revoked_at ≡ false)
      → Relates Kept (update_keys p f)
  Relates-update_keys p f keeps revives = record {
    at = λ w h. update_keys-IsRevoked p f w keeps revives h;
  }

  Relates-create :
      (name : String) (remark : Option String)
      → Relates Kept (create_gateway_api_key env c name remark)
  unfolding create_gateway_api_key generate_gateway_key
  Relates-create name remark =
      Relates-bind (record { at = λ w h. h })
        λ full_key. Relates-bind (Relates-uuid4_hex env) λ id.
          Relates-bind (Relates-now_iso env) λ now.
            Relates-bind (record { at = λ w h. insert_key_row-IsRevoked _ w h }) λ _. Relates-pure _

  Relates-update :
      (id : String) (name remark : Option String) (enabled : Option Bool)
      → Relates Kept (update_gateway_api_key env c id name remark enabled)
  unfolding update_gateway_api_key
  Relates-update id name remark enabled = Relates-bind (Relates-reads _) λ found.
      Relates-option found (Relates-pure _) λ existing.
        Relates-bind (Relates-update_keys _ _ (λ k. refl) (λ k h. h)) λ _. Relates-reads _

  Relates-revoke : (id : String) → Relates Kept (revoke_gateway_api_key env c id)
  unfolding revoke_gateway_api_key
  Relates-revoke id =
      Relates-bind (Relates-now_iso env) λ now. Relates-update_keys _ _ (λ k. refl) (λ k h. refl)

  Relates-use :
      (id : String) (ip : Option String)
      → Relates Kept (update_gateway_api_key_last_used env c id ip)
  unfolding update_gateway_api_key_last_used
  Relates-use id ip =
      Relates-bind (Relates-now_iso env) λ now. Relates-update_keys _ _ (λ k. refl) (λ k h. h)

  KeyStep-Kept : {a b : World} → KeyStep env c a b → Kept a b
  KeyStep-Kept (KeyStep.create w name remark) = (Relates-create name remark).at w
  KeyStep-Kept (KeyStep.update w id name remark enabled) =
      (Relates-update id name remark enabled).at w
  KeyStep-Kept (KeyStep.revoke w id) = (Relates-revoke id).at w
  KeyStep-Kept (KeyStep.use_key w id ip) = (Relates-use id ip).at w

  KeyReach-Kept : {a b : World} → KeyReach env c a b → Kept a b
  KeyReach-Kept KeyReach.here h = h
  KeyReach-Kept (KeyReach.next r s) h = KeyStep-Kept s (KeyReach-Kept r h)

  refused :
      (input_key : String) (db : Db) (row : GatewayApiKey)
      → IsRevoked key_id db
      → verify_gateway_api_key env c input_key db ≡ some row
      → row.id ≢ key_id
  unfolding verify_gateway_api_key
  refused input_key db row h verified same = elim (Bool-cases (is_empty input_key)) [
    | inl empty ↦ cc (rw empty at verified)
    | inr present ↦ by_row (find_row usable db.gateway_api_keys) refl (rw present at verified)
  ]
    where
      usable : GatewayApiKey → Bool
      usable k = k.key_hash == c.sha256_hex input_key && (k.enabled == 1) && is_none k.revoked_at

      answered : (b : Bool) (r : GatewayApiKey) → (if b then some r else none) ≡ some row → r ≡ row
      answered true r e = some-injective _ _ e
      answered false r e = cc

      third : (a b d : Bool) → (a && b && d) ≡ true → d ≡ true
      third a b d e = ground arith

      by_row :
          (o : Option GatewayApiKey)
          → find_row usable db.gateway_api_keys ≡ o
          → (elim o [
            | none ↦ none
            | some r ↦ if c.sha256_hex input_key == r.key_hash then some r else none
          ])
            ≡ some row
          → ⊥
      by_row none found e = cc
      by_row (some r) found e =
          let same_row = answered (c.sha256_hex input_key == r.key_hash) r e in
          let open_still =
            third (r.key_hash == c.sha256_hex input_key) (r.enabled == 1) (is_none r.revoked_at)
              (find_row_sound usable db.gateway_api_keys r found) in
          let closed =
            All-find_row _ usable db.gateway_api_keys r h.all_revoked found
              (ap (λ k. k.id) same_row ∙ same) in
          cc

  after_revoke :
      (w : World)
      → is_some (get_gateway_api_key key_id w.db) ≡ true
      → IsRevoked key_id (revoke_gateway_api_key env c key_id w).1.db
  unfolding revoke_gateway_api_key update_keys get_gateway_api_key ◌>>=◌
  after_revoke w there = record {
    is_there =
        rw
          (find_row-update_rows (λ k. k.id == key_id) (λ k. k.id == key_id && is_none k.revoked_at)
            (λ k. record k { revoked_at = some (env.clock w.ticks) }) w.db.gateway_api_keys
            (λ x. refl))
          (some_stays _ (find_row (λ k. k.id == key_id) w.db.gateway_api_keys) there);
    all_revoked =
        All-update_rows (λ k. Unit {0}) _ _ _ (λ k done. one_revoked k) w.db.gateway_api_keys
          (All-of _ (λ k. tt) w.db.gateway_api_keys);
  }
    where
      one_revoked :
          (k : GatewayApiKey)
          → (if k.id == key_id && is_none k.revoked_at
              then record k { revoked_at = some (env.clock w.ticks) }
              else k).id
            ≡ key_id
          → is_none
              (if k.id == key_id && is_none k.revoked_at
                then record k { revoked_at = some (env.clock w.ticks) }
                else k).revoked_at
            ≡ false
      one_revoked k = elim (Bool-cases (k.id == key_id)) [
        | inl y ↦ rw y (λ e. by_flag (Bool-cases (is_none k.revoked_at)))
        | inr n ↦ rw n (λ e. absurd (let y = (==_iff k.id key_id).1 e in cc))
      ]
        where
          by_flag :
              (is_none k.revoked_at ≡ true) ⊎ (is_none k.revoked_at ≡ false)
              → is_none
                  (if is_none k.revoked_at
                    then record k { revoked_at = some (env.clock w.ticks) }
                    else k).revoked_at
                ≡ false
          by_flag (inl t) = rw t refl
          by_flag (inr t) = rw (t, t) refl

  -- After the revocation of a key that is there, whatever keys are created, changed (enabled again,
  -- too), used or revoked, no text that a client sends is ever accepted as that key.
  pub revoked_for_good :
      (w v : World) (input_key : String) (row : GatewayApiKey)
      → is_some (get_gateway_api_key key_id w.db) ≡ true
      → KeyReach env c (revoke_gateway_api_key env c key_id w).1 v
      → verify_gateway_api_key env c input_key v.db ≡ some row
      → row.id ≢ key_id
  revoked_for_good w v input_key row there r verified =
      refused input_key v.db row (KeyReach-Kept r (after_revoke w there)) verified
