-- ===== src/Persistence/Upsert.antt =====
-- The common part of the three `upsert_many` (adapters/persistence/sales_data.py,
-- brand_performance.py and doctors.py): a dict by the conflict key, and an INSERT of many rows with
-- ON CONFLICT DO UPDATE.
pub mod Laws
pub mod Lookup
pub mod Tables
pub mod Frames
use growth_track.Session.{
  Exc, Session, return, external, write, ◌>>=◌, ◌>>◌, raise_if, Database, Env,
}
use growth_track.Prelude.{
  ℕ, Bool, false, ◌||◌, not, List, [], ◌∷◌, if◌then◌else◌, set_where, any, all,
}

module _ {A : Type 0} (same_key : A → A → Bool) where
  -- `d[key(row)] = row`: a key that is there keeps its place.
  abbrev pub dict_set : A → List A → List A
  dict_set row [] = row ∷ []
  dict_set row (x ∷ xs) =
      let rest = dict_set row xs in if same_key row x then row ∷ xs else x ∷ rest

  abbrev pub dict_set_all : List A → List A → List A
  dict_set_all entries [] = entries
  dict_set_all entries (row ∷ rows) = dict_set_all (dict_set row entries) rows

  -- `{key(row): row for row in rows}.values()`.
  abbrev pub by_key : List A → List A
  by_key rows = dict_set_all [] rows

  -- Whether two of the rows have the same key.
  abbrev pub has_duplicates : List A → Bool
  has_duplicates [] = false
  has_duplicates (x ∷ xs) = any (same_key x) xs || has_duplicates xs

  -- ON CONFLICT DO UPDATE for one row: `refresh value old` is the row that is there, with the new
  -- values.
  abbrev pub put_row : (A → A → A) → A → List A → List A
  put_row refresh value table =
      if any (same_key value) table
      then set_where (same_key value) (refresh value) table
      else value ∷ table

  abbrev pub put_rows : (A → A → A) → List A → List A → List A
  put_rows refresh [] table = table
  put_rows refresh (value ∷ values) table = put_rows refresh values (put_row refresh value table)

  -- One statement for all rows. PostgreSQL refuses an integer out of range, and a statement that
  -- would change one row twice.
  abbrev pub upsert :
      (A → Bool)
      → (A → A → A)
      → (Database → List A)
      → (List A → Database → Database)
      → List A
      → Session (Unit {0})
  upsert in_range refresh table with_table values = do
    raise_if (not (all in_range values)) Exc.data_error
    raise_if (has_duplicates values) Exc.cardinality_violation
    write (λ d. with_table (put_rows refresh values (table d)) d)

module _ {A : Type 0} (env : Env) where
  -- `"id": uuid.uuid4()` for each of the rows.
  abbrev pub with_new_ids : (ℕ → A → A) → List A → Session (List A)
  with_new_ids set_id [] = return []
  with_new_ids set_id (row ∷ rows) = do
    id ← external env.uuid4
    rest ← with_new_ids set_id rows
    return (set_id id row ∷ rest)
