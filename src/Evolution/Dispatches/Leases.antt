-- ===== src/Evolution/Dispatches/Leases.antt =====
-- The claim of due rows.
use ange_media_gateway.Evolution.Outbox.{
  dispatches_world_order, dispatch_key, DispatchesKeyed, updated_dispatches, dispatches_order,
  DispatchesEvolve,
}
use ange_media_gateway.Evolution.Relates.{
  OnTables, Relates-db_transaction, Relates-ensure, Relates-bind, Relates,
}
use ange_media_gateway.Outbox.{
  bounded_limit, comes_before, insert_by_due, is_due, claim_pending_dispatches, due_rows,
  sort_by_due, claim_rows, update_dispatches, set_lease, dispatch_by_id,
}
use mathlib.Core.Option
use ange_media_gateway.Base.{
  FindsItself, All-select_rows, All-take, find_row-update_rows, find_row_sound, ◌∙◌, All-map,
  ==_iff, All, Option-cases, string_eq, inr, sym, ◌==◌, inl, Bool-cases, if◌then◌else◌, arith,
  Option, true, ◌≡◌, String, List, ℕ, Bool, none, some, [], ◌∷◌, refl,
}
use ange_media_gateway.Store.{
  raised, ok, pure, reads, dict_of_row, continue, Exec, Outcome, World, ◌>>=◌, JobDispatch, Db,
}
use ange_media_gateway.Evolution.Dispatches.Rows.{is_leasable, DispatchEvolves-set_lease}

-- Each selected row may be leased, when the loop comes to it.
abbrev Leasable : Db → JobDispatch → Type 0
Leasable a d = (x : JobDispatch) → dispatch_by_id d.id a ≡ some x → is_leasable x.status ≡ true

dispatch_by_id-update :
    (i : String) (p : JobDispatch → Bool) (f : JobDispatch → JobDispatch) (a : Db)
    → ((d : JobDispatch) → (f d).id ≡ d.id)
    → dispatch_by_id i (update_dispatches p f a)
      ≡ Option.map (λ x. if p x then f x else x) (dispatch_by_id i a)
unfolding dispatch_by_id
dispatch_by_id-update i p f a keeps =
    find_row-update_rows (λ x. x.id == i) p f a.job_dispatches (λ x. rw (keeps x))

id-dispatch_by_id : (i : String) (d : JobDispatch) (a : Db) → dispatch_by_id i a ≡ some d → d.id ≡ i
unfolding dispatch_by_id
id-dispatch_by_id i d a h = (==_iff d.id i).0 (find_row_sound (λ x. x.id == i) a.job_dispatches d h)

abbrev lease_row : String → String → ℕ → ℕ → Db → Db
lease_row id token expires cutoff =
    update_dispatches (λ x. x.id == id) (set_lease token expires cutoff)

Leasable-lease_row :
    (id token : String) (expires cutoff : ℕ) (a : Db) (d : JobDispatch)
    → Leasable a d
    → Leasable (lease_row id token expires cutoff a) d
Leasable-lease_row id token expires cutoff a d h x found =
    let after =
      dispatch_by_id-update d.id (λ y. y.id == id) (set_lease token expires cutoff) a (λ y. refl) in
    elim (Option-cases (dispatch_by_id d.id a)) [
      | inl missing ↦ cc after
      | inr (y, there) ↦ ground (arith, after, h y)
    ]

All-Leasable-lease_row :
    (id token : String) (expires cutoff : ℕ) (a : Db) (l : List JobDispatch)
    → All (Leasable a) l
    → All (Leasable (lease_row id token expires cutoff a)) l
All-Leasable-lease_row id token expires cutoff a =
    All-map (Leasable a) (Leasable (lease_row id token expires cutoff a))
      (Leasable-lease_row id token expires cutoff a)

DispatchesEvolve-lease_row :
    (d : JobDispatch) (token : String) (expires cutoff : ℕ) (a : Db)
    → Leasable a d
    → DispatchesEvolve a (lease_row d.id token expires cutoff a)
DispatchesEvolve-lease_row d token expires cutoff a h =
    updated_dispatches _ _ a (λ x. refl)
      λ _ i x found selected.
        let same : d.id ≡ i = sym ((==_iff x.id d.id).0 selected) ∙ id-dispatch_by_id i x a found in
        DispatchEvolves-set_lease token expires cutoff x (h x (rw same found))

-- At one world, what follows a value has only to respect the relation there.
then_related :
    {A B : Type 0} (a : Db) (r : Outcome A) (f : A → Exec B) (w : World)
    → DispatchesEvolve a w.db
    → ((x : A) → DispatchesEvolve a (f x w).1.db)
    → DispatchesEvolve a (continue r f w).1.db
then_related a (ok x) f w h hf = hf x
then_related a (raised e) f w h hf = h

claimed_related :
    (m : Exec (List JobDispatch)) (o : Option JobDispatch) (w : World)
    → DispatchesEvolve w.db (m w).1.db
    → DispatchesEvolve w.db
        ((dict_of_row o >>= λ claimed. m >>= λ others. pure (claimed ∷ others)) w).1.db
unfolding ◌>>=◌
claimed_related m none w h = dispatches_order.same_law w.db
claimed_related m (some d) w h = then_related w.db (m w).0 _ (m w).1 h (λ others. h)

DispatchesEvolve-claim_rows :
    (token : String) (expires cutoff : ℕ) (l : List JobDispatch) (w : World)
    → All (Leasable w.db) l
    → DispatchesEvolve w.db (claim_rows token expires cutoff l w).1.db
unfolding claim_rows ◌>>=◌
DispatchesEvolve-claim_rows token expires cutoff [] w h = dispatches_order.same_law w.db
DispatchesEvolve-claim_rows token expires cutoff (d ∷ rest) w h =
    let after : World = record w { db = lease_row d.id token expires cutoff w.db } in
    dispatches_order.chain_law w.db after.db _
      (DispatchesEvolve-lease_row d token expires cutoff w.db h.0)
      (claimed_related (claim_rows token expires cutoff rest) (dispatch_by_id d.id after.db) after (
        DispatchesEvolve-claim_rows token expires cutoff rest after
          (All-Leasable-lease_row d.id token expires cutoff w.db rest h.1)))

All-insert_by_due :
    (P : JobDispatch → Type 0) (d : JobDispatch) (l : List JobDispatch)
    → P d
    → All P l
    → All P (insert_by_due d l)
unfolding insert_by_due
All-insert_by_due P d [] p h = (p, tt)
All-insert_by_due P d (e ∷ rest) p h = elim (Bool-cases (comes_before d e)) [
  | inl y ↦ rw y (p, h)
  | inr n ↦ rw n (h.0, All-insert_by_due P d rest p h.1)
]

All-sort_by_due :
    (P : JobDispatch → Type 0) (l : List JobDispatch) → All P l → All P (sort_by_due l)
unfolding sort_by_due
All-sort_by_due P [] h = tt
All-sort_by_due P (d ∷ rest) h = All-insert_by_due P d _ h.0 (All-sort_by_due P rest h.1)

-- The rows that are due, in a table with distinct ids: each is found by its id, and due.
pub All-due_rows :
    (limit cutoff : ℕ) (a : Db)
    → DispatchesKeyed a
    → All
        (λ d. (dispatch_by_id d.id a ≡ some d) × (is_due cutoff d ≡ true))
        (due_rows limit cutoff a)
unfolding due_rows dispatch_by_id
All-due_rows limit cutoff a keyed = All-take _ (bounded_limit limit) _ (
    All-sort_by_due _ _ (
      All-select_rows (FindsItself dispatch_key a.job_dispatches) (is_due cutoff) a.job_dispatches
        keyed))

is_due-is_leasable :
    (cutoff : ℕ) (d : JobDispatch) → is_due cutoff d ≡ true → is_leasable d.status ≡ true
is_due-is_leasable cutoff d h = ground arith

All-Leasable-due_rows :
    (limit cutoff : ℕ) (a : Db) → DispatchesKeyed a → All (Leasable a) (due_rows limit cutoff a)
All-Leasable-due_rows limit cutoff a keyed =
    All-map (λ d. (dispatch_by_id d.id a ≡ some d) × (is_due cutoff d ≡ true)) (Leasable a)
      (λ d h x found. ground (arith, is_due-is_leasable cutoff d h.1)) (due_rows limit cutoff a)
      (All-due_rows limit cutoff a keyed)

-- The relation assumes distinct ids, so it may be shown under that hypothesis.
DispatchesEvolve-if_keyed :
    (a b : Db) → (DispatchesKeyed a → DispatchesEvolve a b) → DispatchesEvolve a b
DispatchesEvolve-if_keyed a b h = record { keyed = λ k. (h k).keyed k; later = λ k. (h k).later k }

Relates-claim_selected :
    (token : String) (expires limit cutoff : ℕ)
    → Relates
        (OnTables DispatchesEvolve)
        (reads (due_rows limit cutoff) >>= claim_rows token expires cutoff)
unfolding ◌>>=◌
Relates-claim_selected token expires limit cutoff = record {
  at = λ w. DispatchesEvolve-if_keyed w.db _ (λ k.
      DispatchesEvolve-claim_rows token expires cutoff (due_rows limit cutoff w.db) w
        (All-Leasable-due_rows limit cutoff w.db k));
}

pub Relates-claim_dispatches :
    (token : String) (expires limit cutoff : ℕ)
    → Relates (OnTables DispatchesEvolve) (claim_pending_dispatches token expires limit cutoff)
unfolding claim_pending_dispatches
Relates-claim_dispatches token expires limit cutoff =
    Relates-bind (Relates-ensure _ _)
      λ _. Relates-db_transaction (Relates-claim_selected token expires limit cutoff)
