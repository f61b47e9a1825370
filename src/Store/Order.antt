-- ===== src/Store/Order.antt =====
-- `orderBy` and cursors: a stable insertion sort on a column, and the rows behind a cursor.
pub mod Laws
use corcy.Prelude.{ℕ, Bool, Option, none, some, List, [], ◌∷◌, ◌==◌, leb, if◌then◌else◌}
use corcy.Store.Rows.{Cuid, Time}

module _ {A : Type 0} where
  unfoldable pub insert_desc : (A → Time) → A → List A → List A
  insert_desc key x [] = x ∷ []
  insert_desc key x (y ∷ ys) =
      let later = y ∷ insert_desc key x ys in if leb (key y) (key x) then x ∷ y ∷ ys else later

  -- `orderBy: { key: 'desc' }`
  unfoldable pub sort_desc : (A → Time) → List A → List A
  unfolding insert_desc
  sort_desc key [] = []
  sort_desc key (x ∷ xs) = insert_desc key x (sort_desc key xs)

  unfoldable pub insert_asc : (A → Time) → A → List A → List A
  insert_asc key x [] = x ∷ []
  insert_asc key x (y ∷ ys) =
      let later = y ∷ insert_asc key x ys in if leb (key x) (key y) then x ∷ y ∷ ys else later

  -- `orderBy: { key: 'asc' }`
  unfoldable pub sort_asc : (A → Time) → List A → List A
  unfolding insert_asc
  sort_asc key [] = []
  sort_asc key (x ∷ xs) = insert_asc key x (sort_asc key xs)

  -- `cursor: { id }, skip: 1`: the rows behind the first one with the id.
  unfoldable pub rows_after : (A → Cuid) → Cuid → List A → List A
  rows_after id c [] = []
  rows_after id c (x ∷ xs) = let rest = rows_after id c xs in if id x == c then xs else rest

  -- `rows.pop()`
  unfoldable pub pop : List A → List A
  pop [] = []
  pop (x ∷ []) = []
  pop (x ∷ y ∷ ys) = x ∷ pop (y ∷ ys)

  -- `rows[rows.length - 1]`
  unfoldable pub last? : List A → Option A
  last? [] = none
  last? (x ∷ []) = some x
  last? (x ∷ y ∷ ys) = last? (y ∷ ys)
