-- ===== src/Outbox/Due.antt =====
-- What `list_pending_dispatches` gives: the pending rows that have been due the longest.
use ange_media_gateway.Outbox.{
  DispatchStatus, bounded_limit, dispatch_status_beq, Db, comes_before, sort_by_due, insert_by_due,
  list_pending_dispatches,
}
use ange_media_gateway.Base.{
  sym, leb, subst, ap, All-map, select_rows, drop, ◌∙◌, false, true, Bool-cases, Bool, All, length,
  ℕ, count_rows, List, refl, [], ◌∷◌, ◌++◌, arith, ◌≡◌, ◌≤◌, ◌<◌, ◌&&◌, inl, inr,
}
use ange_media_gateway.Base.{take-drop, length-take_bound, short_take}
use ange_media_gateway.Store.{JobDispatch}

-- No row stands before one that is due earlier.
abbrev pub InDueOrder : List JobDispatch → Type 0
InDueOrder [] = Unit
InDueOrder (d ∷ rest) = All (λ e. d.available_at ≤ e.available_at) rest × InDueOrder rest

abbrev pub is_due_row : ℕ → JobDispatch → Bool
is_due_row cutoff d =
    dispatch_status_beq d.status DispatchStatus.pending && leb d.available_at cutoff

-- The rows are the first of all due rows, in the order in which they are due.
pub record AreEarliest (limit cutoff : ℕ) (db : Db) (rows : List JobDispatch) : Type 0 where
  pub others : List JobDispatch
  pub in_order : InDueOrder (rows ++ others)
  -- Each due row is there as often as in the table.
  pub all_due :
      (p : JobDispatch → Bool)
      → count_rows p (rows ++ others)
        ≡ count_rows p (select_rows (is_due_row cutoff) db.job_dispatches)
  pub within_limit : length rows ≤ bounded_limit limit
  pub limit_used : length rows < bounded_limit limit → others ≡ []

All-insert_by_due :
    (P : JobDispatch → Type 0) (d : JobDispatch) (l : List JobDispatch)
    → P d
    → All P l
    → All P (insert_by_due d l)
unfolding insert_by_due
All-insert_by_due P d [] p h = (p, tt)
All-insert_by_due P d (e ∷ rest) p h = elim (Bool-cases (comes_before d e)) [
  | inl y ↦ rw y (p, h)
  | inr n ↦ rw n (h.0, All-insert_by_due P d rest p h.1)
]

not_before : (d e : JobDispatch) → comes_before d e ≡ false → e.available_at ≤ d.available_at
not_before d e h = ground arith

is_before_lem : (d e : JobDispatch) → comes_before d e ≡ true → d.available_at ≤ e.available_at
is_before_lem d e h = ground arith

insert_by_due-InDueOrder :
    (d : JobDispatch) (l : List JobDispatch) → InDueOrder l → InDueOrder (insert_by_due d l)
unfolding insert_by_due
insert_by_due-InDueOrder d [] h = (tt, tt)
insert_by_due-InDueOrder d (e ∷ rest) h = elim (Bool-cases (comes_before d e)) [
  | inl y ↦
      let first = is_before_lem d e y in
      rw y (
        (
          first,
          All-map (λ x. e.available_at ≤ x.available_at) (λ x. d.available_at ≤ x.available_at)
              (λ x k. omega (arith, first, k)) rest h.0,
        ),
        h,
      )
  | inr n ↦ rw n (
    All-insert_by_due (λ x. e.available_at ≤ x.available_at) d rest (not_before d e n) h.0,
    insert_by_due-InDueOrder d rest h.1,
  )
]

sort_by_due-InDueOrder : (l : List JobDispatch) → InDueOrder (sort_by_due l)
unfolding sort_by_due
sort_by_due-InDueOrder [] = tt
sort_by_due-InDueOrder (d ∷ rest) =
    insert_by_due-InDueOrder d (sort_by_due rest) (sort_by_due-InDueOrder rest)

count_rows-insert_by_due :
    (p : JobDispatch → Bool) (d : JobDispatch) (l : List JobDispatch)
    → count_rows p (insert_by_due d l) ≡ count_rows p (d ∷ l)
unfolding count_rows insert_by_due
count_rows-insert_by_due p d [] = refl
count_rows-insert_by_due p d (e ∷ rest) = elim (Bool-cases (comes_before d e)) [
  | inl y ↦ rw y refl
  | inr n ↦ rw (n, count_rows-insert_by_due p d rest) (ground arith)
]

count_rows-sort_by_due :
    (p : JobDispatch → Bool) (l : List JobDispatch) → count_rows p (sort_by_due l) ≡ count_rows p l
unfolding count_rows sort_by_due
count_rows-sort_by_due p [] = refl
count_rows-sort_by_due p (d ∷ rest) =
    count_rows-insert_by_due p d (sort_by_due rest) ∙ ground (arith, count_rows-sort_by_due p rest)

-- The pending rows that are listed are the first of all rows that are pending and due, in the order
-- in which they are due: as many as the limit allows, and all of them where fewer are due.
pub list_pending_dispatches-AreEarliest :
    (limit cutoff : ℕ) (db : Db)
    → AreEarliest limit cutoff db (list_pending_dispatches limit cutoff db)
unfolding list_pending_dispatches
list_pending_dispatches-AreEarliest limit cutoff db =
    let due = sort_by_due (select_rows (is_due_row cutoff) db.job_dispatches) in
    let whole = take-drop (bounded_limit limit) due in
    record {
      others = drop (bounded_limit limit) due;
      in_order =
          subst InDueOrder (sym whole)
            (sort_by_due-InDueOrder (select_rows (is_due_row cutoff) db.job_dispatches));
      all_due = λ p. ap (count_rows p) whole ∙ count_rows-sort_by_due p _;
      within_limit = length-take_bound (bounded_limit limit) due;
      limit_used = short_take (bounded_limit limit) due;
    }
