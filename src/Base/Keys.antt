-- ===== src/Base/Keys.antt =====
-- Tables with a primary key: every row is the one that its key finds.
use Prim.Native.Nat.{ℕ, zero, suc}
use Prim.Native.String.{String}
use mathlib.Core.Path.{◌≡◌, refl, subst}
use mathlib.Core.Logic.{inl, inr}
use mathlib.Core.Bool.{Bool, true}
use mathlib.Core.Option.{none, some, some-injective}
use mathlib.Core.List.{List, [], ◌∷◌, ◌++◌}
use ange_media_gateway.Base.Tests.{if◌then◌else◌, ◌==◌, string_eq, ==_iff, Bool-cases}
use ange_media_gateway.Base.Rows.{
  All, find_row, update_rows, select_rows, take, find_row-update_rows, find_row-append,
}

module _ {ℓ} {R : Type ℓ} where
  pub All-map {κ ι} :
      (P : R → Type κ) (Q : R → Type ι)
      → ((x : R) → P x → Q x)
      → (xs : List R) → All P xs
      → All Q xs
  All-map P Q f [] h = tt
  All-map P Q f (x ∷ xs) h = (f x h.0, All-map P Q f xs h.1)

  pub All-append {κ} :
      (P : R → Type κ) (xs : List R) (y : R) → All P xs → P y → All P (xs ++ y ∷ [])
  All-append P [] y h p = (p, tt)
  All-append P (x ∷ xs) y h p = (h.0, All-append P xs y h.1 p)

  pub All-take {κ} : (P : R → Type κ) (n : ℕ) (xs : List R) → All P xs → All P (take n xs)
  All-take P zero xs h = tt
  All-take P (suc n) [] h = tt
  All-take P (suc n) (x ∷ xs) h = (h.0, All-take P n xs h.1)

  -- A row that is found is a row of the table.
  pub All-find_row {κ} :
      (P : R → Type κ) (p : R → Bool) (xs : List R) (x : R)
      → All P xs
      → find_row p xs ≡ some x
      → P x
  unfolding find_row
  All-find_row P p [] x h found = cc
  All-find_row P p (y ∷ ys) x h found = elim (Bool-cases (p y)) [
    | inl yes_y ↦ subst P (some-injective _ _ (rw yes_y at found)) h.0
    | inr no_y ↦ All-find_row P p ys x h.1 (rw no_y at found)
  ]

  -- Every row has what all values have.
  pub All-of {κ} : (P : R → Type κ) → ((x : R) → P x) → (xs : List R) → All P xs
  All-of P h [] = tt
  All-of P h (x ∷ xs) = (h x, All-of P h xs)

  -- The rows that are selected are rows of the table, and pass the test.
  pub All-select_rows {κ} :
      (P : R → Type κ) (p : R → Bool) (xs : List R)
      → All P xs
      → All (λ x. P x × (p x ≡ true)) (select_rows p xs)
  unfolding select_rows
  All-select_rows P p [] h = tt
  All-select_rows P p (x ∷ xs) h = elim (Bool-cases (p x)) [
    | inl y ↦ rw y ((h.0, y), All-select_rows P p xs h.1)
    | inr n ↦ rw n (All-select_rows P p xs h.1)
  ]

  pub All-update_rows {κ ι} :
      (P : R → Type κ) (Q : R → Type ι) (p : R → Bool) (f : R → R)
      → ((x : R) → P x → Q (if p x then f x else x))
      → (xs : List R) → All P xs
      → All Q (update_rows p f xs)
  unfolding update_rows
  All-update_rows P Q p f k [] h = tt
  All-update_rows P Q p f k (x ∷ xs) h = (k x h.0, All-update_rows P Q p f k xs h.1)

-- Every row is the one that its key finds: no two rows of the table share a key.
abbrev pub FindsItself {ℓ} : {R : Type ℓ} → (R → String) → List R → R → Type ℓ
FindsItself key xs x = find_row (λ y. key y == key x) xs ≡ some x

abbrev pub IsKeyed {ℓ} : {R : Type ℓ} → (R → String) → List R → Type ℓ
IsKeyed key xs = All (FindsItself key xs) xs

module _ {ℓ} {R : Type ℓ} (key : R → String) where
  -- A row under a new key keeps the table keyed.
  pub IsKeyed-append :
      (xs : List R) (y : R)
      → IsKeyed key xs
      → find_row (λ x. key x == key y) xs ≡ none
      → IsKeyed key (xs ++ y ∷ [])
  unfolding find_row
  IsKeyed-append xs y h fresh =
      All-append (FindsItself key (xs ++ y ∷ [])) xs y
        (All-map (FindsItself key xs) (FindsItself key (xs ++ y ∷ []))
          (λ x e. rw (find_row-append (λ z. key z == key x) xs y, e)) xs h)
        (rw (find_row-append (λ z. key z == key y) xs y, fresh, (==_iff (key y) (key y)).1 refl))

  -- So does an `UPDATE` that leaves the keys alone.
  pub IsKeyed-update_rows :
      (p : R → Bool) (f : R → R) (xs : List R)
      → ((x : R) → key (f x) ≡ key x)
      → IsKeyed key xs
      → IsKeyed key (update_rows p f xs)
  IsKeyed-update_rows p f xs keeps h =
      All-update_rows (FindsItself key xs) (FindsItself key (update_rows p f xs)) p f
        (λ x e. elim (Bool-cases (p x)) [
          | inl y ↦
              rw
                (
                  y,
                  keeps x,
                  find_row-update_rows (λ z. key z == key x) p f xs (λ z. rw (keeps z)),
                  e,
                )
                (rw y)
          | inr n ↦
              rw (n, find_row-update_rows (λ z. key z == key x) p f xs (λ z. rw (keeps z)), e)
                (rw n)
        ])
        xs h
