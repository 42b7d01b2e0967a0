-- ===== src/Rendezvous/Api/Sql.antt =====
-- The statements that apps/rendezvous runs against its SQLite tables: a table is the list of its rows.
pub mod Laws
use reachmydevice.Prelude.{
  ℕ, ◌+◌, max, Bool, true, false, ◌||◌, Option, none, some, List, [], ◌∷◌, leb, if◌then◌else◌,
}

module _ {A : Type 0} where
  -- `SELECT .. WHERE`, of which `fetch_optional` takes the first row.
  unfoldable pub select_first : (A → Bool) → List A → Option A
  select_first p [] = none
  select_first p (r ∷ rs) = if p r then some r else select_first p rs

  unfoldable pub select_all : (A → Bool) → List A → List A
  select_all p [] = []
  select_all p (r ∷ rs) = if p r then r ∷ select_all p rs else select_all p rs

  unfoldable pub exists_row : (A → Bool) → List A → Bool
  exists_row p [] = false
  exists_row p (r ∷ rs) = p r || exists_row p rs

  -- `UPDATE .. SET .. WHERE`.
  unfoldable pub update_where : (A → Bool) → (A → A) → List A → List A
  update_where p f [] = []
  update_where p f (r ∷ rs) = (if p r then f r else r) ∷ update_where p f rs

  -- `DELETE FROM .. WHERE`.
  unfoldable pub delete_where : (A → Bool) → List A → List A
  delete_where p [] = []
  delete_where p (r ∷ rs) = if p r then delete_where p rs else r ∷ delete_where p rs

  -- The `INTEGER PRIMARY KEY` of a new row: one more than the largest.
  unfoldable pub next_id : (A → ℕ) → List A → ℕ
  next_id key [] = 1
  next_id key (r ∷ rs) = max (key r + 1) (next_id key rs)

  -- `ORDER BY` a column, rows of one value in the order of the table.
  unfoldable pub insert_by : (A → ℕ) → A → List A → List A
  insert_by key a [] = a ∷ []
  insert_by key a (r ∷ rs) = if leb (key a) (key r) then a ∷ r ∷ rs else r ∷ insert_by key a rs

  unfoldable pub order_by : (A → ℕ) → List A → List A
  unfolding insert_by
  order_by key [] = []
  order_by key (r ∷ rs) = insert_by key r (order_by key rs)
