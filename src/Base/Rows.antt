-- ===== src/Base/Rows.antt =====
-- Database tables as lists of rows: `SELECT`, `UPDATE` and `DELETE` with a `WHERE` test.
use Prim.Native.Nat.{◌+◌, ◌≤◌, ◌<◌, ℕ, zero, suc}
use mathlib.Core.Path.{◌≡◌, refl, ap}
use mathlib.Core.Logic.{inl, inr}
use mathlib.Core.Bool.{Bool, true, not}
use mathlib.Core.Option
use mathlib.Core.Option.{Option, none, some, some-injective}
use mathlib.Core.List.{List, [], ◌∷◌, ◌++◌}
use native.Mathlib.Omega.{arith}
use ange_media_gateway.Base.Tests.{if◌then◌else◌, Bool-cases}

module _ {ℓ} {R : Type ℓ} where
  abbrev pub length : List R → ℕ
  length [] = 0
  length (x ∷ xs) = suc (length xs)

  abbrev pub take : ℕ → List R → List R
  take zero xs = []
  take (suc n) [] = []
  take (suc n) (x ∷ xs) = x ∷ take n xs

  abbrev pub drop : ℕ → List R → List R
  drop zero xs = xs
  drop (suc n) [] = []
  drop (suc n) (x ∷ xs) = drop n xs

  pub take-none : (n : ℕ) → take n [] ≡ []
  take-none zero = refl
  take-none (suc n) = refl

  pub drop-none : (n : ℕ) → drop n [] ≡ []
  drop-none zero = refl
  drop-none (suc n) = refl

  -- The first row that passes the test.
  unfoldable pub find_row : (R → Bool) → List R → Option R
  find_row p [] = none
  find_row p (x ∷ xs) = if p x then some x else find_row p xs

  -- The rows that pass the test.
  unfoldable pub select_rows : (R → Bool) → List R → List R
  select_rows p [] = []
  select_rows p (x ∷ xs) = let rest = select_rows p xs in if p x then x ∷ rest else rest

  -- `UPDATE … SET f WHERE p`
  unfoldable pub update_rows : (R → Bool) → (R → R) → List R → List R
  update_rows p f [] = []
  update_rows p f (x ∷ xs) = (if p x then f x else x) ∷ update_rows p f xs

  -- The number of rows that an `UPDATE … WHERE p` changes, `cursor.rowcount`.
  unfoldable pub count_rows : (R → Bool) → List R → ℕ
  count_rows p [] = 0
  count_rows p (x ∷ xs) = if p x then suc (count_rows p xs) else count_rows p xs

  abbrev pub All {κ} : (R → Type κ) → List R → Type κ
  All P [] = Unit
  All P (x ∷ xs) = P x × All P xs

  -- What an `UPDATE` does to the row that a key finds, where it leaves the key alone.
  pub find_row-update_rows :
      (k p : R → Bool) (f : R → R) (xs : List R)
      → ((x : R) → k (f x) ≡ k x)
      → find_row k (update_rows p f xs) ≡ Option.map (λ x. if p x then f x else x) (find_row k xs)
  unfolding find_row update_rows
  find_row-update_rows k p f [] h = refl
  find_row-update_rows k p f (x ∷ xs) h = ground (arith, h x, find_row-update_rows k p f xs h)

  pub find_row-append :
      (k : R → Bool) (xs : List R) (y : R)
      → find_row k (xs ++ y ∷ [])
        ≡ elim (find_row k xs) [ some x ↦ some x | none ↦ if k y then some y else none ]
  unfolding find_row
  find_row-append k [] y = ground arith
  find_row-append k (x ∷ xs) y = ground (arith, find_row-append k xs y)

  -- The row that is found passes the test.
  pub find_row_sound : (k : R → Bool) (xs : List R) (x : R) → find_row k xs ≡ some x → k x ≡ true
  unfolding find_row
  find_row_sound k [] x h = ground arith
  find_row_sound k (y ∷ ys) x h = ground (arith, find_row_sound k ys x)

  -- Rows that were removed are not found.
  pub find_row-removed :
      (k : R → Bool) (xs : List R) → find_row k (select_rows (λ x. not (k x)) xs) ≡ none
  unfolding find_row select_rows
  find_row-removed k [] = refl
  find_row-removed k (x ∷ xs) = ground (arith, find_row-removed k xs)

  -- A row that is found, and is kept, is still found.
  pub find_row-kept :
      (k p : R → Bool) (xs : List R) (x : R)
      → find_row k xs ≡ some x
      → p x ≡ true
      → find_row k (select_rows p xs) ≡ some x
  unfolding find_row select_rows
  find_row-kept k p [] x found kept = cc
  find_row-kept k p (y ∷ ys) x found kept = elim (Bool-cases (k y)) [
    | inl yes_y ↦
        let same = some-injective _ _ (rw yes_y at found) in rw (same, kept, rw same at yes_y) refl
    | inr no_y ↦ elim (Bool-cases (p y)) [
      | inl t ↦ rw (t, no_y) (find_row-kept k p ys x (rw no_y at found) kept)
      | inr f ↦ rw f (find_row-kept k p ys x (rw no_y at found) kept)
    ]
  ]

  pub length-update_rows :
      (p : R → Bool) (f : R → R) (xs : List R) → length (update_rows p f xs) ≡ length xs
  unfolding update_rows
  length-update_rows p f [] = refl
  length-update_rows p f (x ∷ xs) = ap suc (length-update_rows p f xs)

  pub take-drop : (n : ℕ) (l : List R) → take n l ++ drop n l ≡ l
  take-drop zero l = refl
  take-drop (suc n) [] = refl
  take-drop (suc n) (x ∷ l) = ap (λ t. x ∷ t) (take-drop n l)

  pub length-take_bound : (n : ℕ) (l : List R) → length (take n l) ≤ n
  length-take_bound zero l = omega arith
  length-take_bound (suc n) [] = omega arith
  length-take_bound (suc n) (x ∷ l) = omega (arith, length-take_bound n l)

  pub short_take : (n : ℕ) (l : List R) → length (take n l) < n → drop n l ≡ []
  short_take zero l h = absurd (omega arith)
  short_take (suc n) [] h = refl
  short_take (suc n) (x ∷ l) h = short_take n l (omega arith)

  -- A selection has no row more often.
  pub count_rows-select_rows :
      (p q : R → Bool) (l : List R) → count_rows p (select_rows q l) ≤ count_rows p l
  unfolding count_rows select_rows
  count_rows-select_rows p q [] = omega arith
  count_rows-select_rows p q (x ∷ l) = ground (arith, count_rows-select_rows p q l)

  pub length-removed :
      (p : R → Bool) (l : List R)
      → length l ≡ length (select_rows (λ x. not (p x)) l) + count_rows p l
  unfolding count_rows select_rows
  length-removed p [] = refl
  length-removed p (x ∷ l) = ground (arith, length-removed p l)
