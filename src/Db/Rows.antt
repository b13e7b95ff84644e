-- ===== src/Db/Rows.antt =====
-- `fetchRow` of db/utils.go: the next row of a result set as a map from its columns.
pub mod Columns
use marmot.Base.{String, Option, none, some, List, [], ◌∷◌, string_key}
use marmot.Base.Maps.{insert}
use marmot.Base.Errors.{Result, ok, ◌>>=◌}
use marmot.Db.Event.{Row, Value}

-- The loop over the columns; a row has a value for each of them.
unfoldable pub row_of_columns : List String → List Value → Row → Row
row_of_columns [] values row = row
row_of_columns (c ∷ cs) [] row = row
row_of_columns (c ∷ cs) (v ∷ vs) row = row_of_columns cs vs (insert c v row)

-- `columns` is what `Columns` returns, `scanned` what `Scan` gives or fails with.
unfoldable pub fetch_row : Result (List String) → Result (List Value) → Result Row
fetch_row columns scanned = columns >>= λ cs. scanned >>= λ vs. ok (row_of_columns cs vs [])
