-- ===== src/Base/Upsert.antt =====
-- `INSERT … ON CONFLICT(key) DO UPDATE`: the row of the key is updated, or a row is added.
use mathlib.Core.Option
use Prim.Native.String.{String}
use mathlib.Core.Logic.{◌≢◌, inl, inr}
use mathlib.Core.Option.{Option, none, some}
use mathlib.Core.List.{List, [], ◌∷◌, ◌++◌}
use ange_media_gateway.Base.Tests.{
  if◌then◌else◌, ◌==◌, string_eq, ==_iff, ==_false, Option-cases, is_some,
}
use ange_media_gateway.Base.Rows.{
  find_row, update_rows, find_row-update_rows, find_row-append, find_row_sound,
}
use mathlib.Core.Path.{◌≡◌, refl, sym, ◌∙◌}

module _ {ℓ} {R : Type ℓ} (key : R → String) (set : R → R → R) where
  abbrev pub upserted : R → List R → List R
  upserted new rows =
      if is_some (find_row (λ t. key t == key new) rows)
      then update_rows (λ t. key t == key new) (set new) rows
      else rows ++ new ∷ []

  -- The row that is there after it.
  abbrev pub merged : R → Option R → R
  merged new none = new
  merged new (some old) = set new old

  module _ (keeps : (new old : R) → key (set new old) ≡ key old) where
    pub find_row-upserted :
        (new : R) (rows : List R)
        → find_row (λ t. key t == key new) (upserted new rows)
          ≡ some (merged new (find_row (λ t. key t == key new) rows))
    find_row-upserted new rows = elim (Option-cases (find_row (λ t. key t == key new) rows)) [
      | inl e ↦
          rw
            (
              e,
              find_row-append (λ t. key t == key new) rows new,
              e,
              (==_iff (key new) (key new)).1 refl,
            )
            refl
      | inr found ↦
          rw
            (
              found.1,
              find_row-update_rows (λ t. key t == key new) (λ t. key t == key new) (set new) rows
                  (λ x. rw (keeps new x) refl),
              found.1,
              find_row_sound (λ t. key t == key new) rows found.0 found.1,
            )
            refl
    ]

    pub other_row-upserted :
        (new : R) (rows : List R) (other : String)
        → other ≢ key new
        → find_row (λ t. key t == other) (upserted new rows) ≡ find_row (λ t. key t == other) rows
    other_row-upserted new rows other distinct =
        elim (Option-cases (find_row (λ t. key t == key new) rows)) [
          | inl e ↦
              rw (e, find_row-append (λ t. key t == other) rows new)
                (not_appended (find_row (λ t. key t == other) rows))
          | inr found ↦
              rw
                (
                  found.1,
                  find_row-update_rows (λ t. key t == other) (λ t. key t == key new) (set new) rows
                      (λ x. rw (keeps new x) refl),
                )
                (untouched (find_row (λ t. key t == other) rows) refl)
        ]
      where
        not_appended :
            (o : Option R)
            → elim o [ some x ↦ some x | none ↦ if key new == other then some new else none ] ≡ o
        not_appended none = rw (==_false (key new) other (λ p. distinct (sym p))) refl
        not_appended (some x) = refl

        untouched :
            (o : Option R)
            → find_row (λ t. key t == other) rows ≡ o
            → Option.map (λ x. if key x == key new then set new x else x) o ≡ o
        untouched none h = refl
        untouched (some x) h =
            rw
              (==_false (key x) (key new) (λ e. distinct (
                sym ((==_iff (key x) other).0 (find_row_sound (λ t. key t == other) rows x h))
                ∙ e)))
              refl
