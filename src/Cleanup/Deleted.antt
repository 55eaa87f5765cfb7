-- ===== src/Cleanup/Deleted.antt =====
-- Rows of tables that are deleted by their ids.
use Prim.Native.Nat.{zero, suc}
use ange_media_gateway.Base.{ap, ◌≤◌, count_rows}
use ange_media_gateway.Base.{take, arith, All-update_rows, ℕ, if◌then◌else◌, ◌⊎◌}
use ange_media_gateway.Base.{
  All-select_rows, ◌⊎◌, All-map, ==_iff, length, string_eq, All-of, true, map, contains, not,
  update_rows, find_row, Bool-cases, String, false, All, subst, Bool, List, select_rows, refl, [],
  ◌∷◌, ◌==◌, inl, inr, none, some, ◌≡◌, ◌&&◌,
}
use ange_media_gateway.Jobs.{is_terminal}
use ange_media_gateway.Store.{Status, status_eq, Job}

module _ {R : Type 0} where
  -- The rows that a DELETE leaves.
  pub deleted :
      (p : R → Bool) (xs : List R) → All (λ x. p x ≡ false) (select_rows (λ x. not (p x)) xs)
  deleted p xs =
      All-map _ _ (λ x h. was_not (p x) h.1) _
        (All-select_rows (λ x. Unit {0}) (λ x. not (p x)) xs (All-of _ (λ x. tt) xs))
    where
      was_not : (b : Bool) → not b ≡ true → b ≡ false
      was_not true h = cc
      was_not false h = refl

  -- The rows that an UPDATE of those that pass `p` leaves, where the new row does not pass.
  pub unlinked :
      (p : R → Bool) (f : R → R) (xs : List R)
      → ((x : R) → p (f x) ≡ false)
      → All (λ x. p x ≡ false) (update_rows p f xs)
  unlinked p f xs h =
      All-update_rows (λ x. Unit {0}) _ p f (λ x done. one x (Bool-cases (p x))) xs
        (All-of _ (λ x. tt) xs)
    where
      one : (x : R) → (p x ≡ true) ⊎ (p x ≡ false) → p (if p x then f x else x) ≡ false
      one x (inl y) = rw y (h x)
      one x (inr n) = rw (n, n) refl

module _ (P : Job → Type 0) where
  -- An id that is among those of some rows is that of one of them.
  pub owner :
      (l : List Job) (id : String)
      → All P l
      → contains (map (λ j. j.id) l) id ≡ true
      → (j : Job) × P j × (j.id ≡ id)
  owner [] id h e = cc
  owner (j ∷ rest) id h e = elim (Bool-cases (j.id == id)) [
    | inl y ↦ (j, h.0, (==_iff j.id id).0 y)
    | inr n ↦ owner rest id h.1 (rw n at e)
  ]

pub terminal_among :
    (statuses : List Status) (s : Status)
    → contains (select_rows is_terminal statuses) s ≡ is_terminal s && contains statuses s
unfolding select_rows
terminal_among [] s = elim (Bool-cases (is_terminal s)) [ inl y ↦ rw y refl | inr n ↦ rw n refl ]
terminal_among (t ∷ rest) s = elim (Bool-cases (t == s)) [
  | inl e ↦
      let same = (==_iff t s).0 e in
      elim (Bool-cases (is_terminal t)) [
        | inl y ↦ rw (y, e, subst (λ u. is_terminal u ≡ true) same y) refl
        | inr n ↦
            let ended = subst (λ u. is_terminal u ≡ false) same n in
            rw (n, terminal_among rest s, ended) refl
      ]
  | inr n ↦ elim (Bool-cases (is_terminal t)) [
    | inl y ↦ rw (y, n) (terminal_among rest s)
    | inr k ↦ rw (k, n) (terminal_among rest s)
  ]
]

module _ {R : Type 0} where
  pub select_rows-same :
      (p q : R → Bool) (l : List R) → ((x : R) → p x ≡ q x) → select_rows p l ≡ select_rows q l
  unfolding select_rows
  select_rows-same p q [] h = refl
  select_rows-same p q (x ∷ l) h = rw (h x, select_rows-same p q l h) refl

  -- A row that passes and is found is counted among those selected.
  pub found_counted :
      (k p : R → Bool) (l : List R) (x : R)
      → find_row k l ≡ some x
      → p x ≡ true
      → 1 ≤ count_rows k (select_rows p l)
  unfolding find_row select_rows count_rows
  found_counted k p [] x found h = cc
  found_counted k p (y ∷ l) x found h = ground (arith, found_counted k p l x)

  pub count_rows-selected : (p : R → Bool) (l : List R) → count_rows p l ≡ length (select_rows p l)
  unfolding select_rows count_rows
  count_rows-selected p [] = refl
  count_rows-selected p (x ∷ l) = ground (arith, count_rows-selected p l)

  pub take_all : (n : ℕ) (l : List R) → length l ≤ n → take n l ≡ l
  take_all zero [] h = refl
  take_all zero (x ∷ l) h = absurd (omega arith)
  take_all (suc n) [] h = refl
  take_all (suc n) (x ∷ l) h = ap (λ t. x ∷ t) (take_all n l (omega arith))

pub all_counted : (l : List Job) → count_rows (λ k. true) l ≡ length l
unfolding count_rows
all_counted [] = refl
all_counted (x ∷ l) = ap suc (all_counted l)

-- An id that some row has is among the ids.
pub has_id :
    (l : List Job) (id : String)
    → 1 ≤ count_rows (λ j. j.id == id) l
    → contains (map (λ j. j.id) l) id ≡ true
unfolding count_rows
has_id [] id h = absurd (omega arith)
has_id (j ∷ l) id h = ground (arith, has_id l id)

-- A row that is not among those found is not found.
pub not_found :
    (l : List Job) (ids : List String) (id : String)
    → contains ids id ≡ true
    → find_row (λ k. k.id == id) (select_rows (λ k. not (contains ids k.id)) l) ≡ none
unfolding find_row select_rows
not_found [] ids id h = refl
not_found (j ∷ l) ids id h = elim (Bool-cases (j.id == id)) [
  | inl y ↦ rw ((==_iff j.id id).0 y, h) (not_found l ids id h)
  | inr n ↦ elim (Bool-cases (contains ids j.id)) [
    | inl t ↦ rw t (not_found l ids id h)
    | inr f ↦ rw (f, n) (not_found l ids id h)
  ]
]
