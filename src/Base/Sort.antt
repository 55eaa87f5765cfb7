-- ===== src/Base/Sort.antt =====
-- `ORDER BY`, as an insertion sort: `before x y` tells that `x` may stand before `y`.
use mathlib.Core.Path.{◌≡◌, refl, ◌∙◌}
use mathlib.Core.Logic.{inl, inr}
use mathlib.Core.Bool.{Bool}
use mathlib.Core.List.{List, [], ◌∷◌}
use native.Mathlib.Omega.{arith}
use ange_media_gateway.Base.Tests.{if◌then◌else◌, Bool-cases}
use ange_media_gateway.Base.Keys.{All-map}
use mathlib.Core.Bool.{true, false}
use ange_media_gateway.Base.Rows.{All, count_rows}

-- Each row may stand before every row behind it.
abbrev pub Ordered {ℓ κ} : {R : Type ℓ} → (R → R → Type κ) → List R → Type κ
Ordered Before [] = Unit
Ordered Before (x ∷ rest) = All (Before x) rest × Ordered Before rest

module _ {ℓ} {R : Type ℓ} (before : R → R → Bool) where
  unfoldable pub insert_by : R → List R → List R
  insert_by x [] = x ∷ []
  insert_by x (y ∷ rest) =
      let later = insert_by x rest in if before x y then x ∷ y ∷ rest else y ∷ later

  unfoldable pub sort_by : List R → List R
  unfolding insert_by
  sort_by [] = []
  sort_by (x ∷ rest) = insert_by x (sort_by rest)

  module _ {κ} (P : R → Type κ) where
    All-insert_by : (x : R) (l : List R) → P x → All P l → All P (insert_by x l)
    unfolding insert_by
    All-insert_by x [] p h = (p, tt)
    All-insert_by x (y ∷ rest) p h = elim (Bool-cases (before x y)) [
      | inl t ↦ rw t (p, h)
      | inr f ↦ rw f (h.0, All-insert_by x rest p h.1)
    ]

    pub All-sort_by : (l : List R) → All P l → All P (sort_by l)
    unfolding sort_by
    All-sort_by [] h = tt
    All-sort_by (x ∷ rest) h = All-insert_by x _ h.0 (All-sort_by rest h.1)

  count_rows-insert_by :
      (p : R → Bool) (x : R) (l : List R) → count_rows p (insert_by x l) ≡ count_rows p (x ∷ l)
  unfolding count_rows insert_by
  count_rows-insert_by p x [] = refl
  count_rows-insert_by p x (y ∷ rest) = ground (arith, count_rows-insert_by p x rest)

  -- A sort has the same rows, each as often.
  pub count_rows-sort_by : (p : R → Bool) (l : List R) → count_rows p (sort_by l) ≡ count_rows p l
  unfolding count_rows sort_by
  count_rows-sort_by p [] = refl
  count_rows-sort_by p (x ∷ rest) =
      count_rows-insert_by p x (sort_by rest) ∙ ground (arith, count_rows-sort_by p rest)

  module _ {κ} (Before : R → R → Type κ) where
    module _ (sound : (x y : R) → before x y ≡ true → Before x y)
        (total : (x y : R) → before x y ≡ false → Before y x)
        (chained : (x y z : R) → Before x y → Before y z → Before x z) where
      Ordered-insert_by : (x : R) (l : List R) → Ordered Before l → Ordered Before (insert_by x l)
      unfolding insert_by
      Ordered-insert_by x [] h = (tt, tt)
      Ordered-insert_by x (y ∷ rest) h = elim (Bool-cases (before x y)) [
        | inl t ↦ rw t (
          (
            sound x y t,
            All-map (Before y) (Before x) (λ z k. chained x y z (sound x y t) k) rest h.0,
          ),
          h,
        )
        | inr f ↦
            rw f (All-insert_by (Before y) x rest (total x y f) h.0, Ordered-insert_by x rest h.1)
      ]

      -- A sort by a test that decides a total and transitive order gives rows in that order.
      pub sort_by-Ordered : (l : List R) → Ordered Before (sort_by l)
      unfolding sort_by
      sort_by-Ordered [] = tt
      sort_by-Ordered (x ∷ rest) = Ordered-insert_by x (sort_by rest) (sort_by-Ordered rest)
