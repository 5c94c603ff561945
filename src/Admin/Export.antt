-- ===== src/Admin/Export.antt =====
-- The export of the audit log by `toCsv` and `csvField` of src/admin/admin.service.ts, over code units. What `String` and
-- `JSON.stringify` make of a value is part of the row.
pub mod Reading
use dupdap_backend.Base.{
  ℕ, ◌==◌, Bool, false, ◌||◌, List, [], ◌∷◌, ◌++◌, Option, none, some, map, if◌then◌else◌,
}

-- The text of a value, or `null`.
abbrev pub Cell : Type 0
Cell = Option (List ℕ)

-- `/^[=+\\-@\\t\\r]/.test(str)`
abbrev pub starts_formula : List ℕ → Bool
starts_formula [] = false
starts_formula (c ∷ str) = c == 61 || (c == 43 || (c == 45 || (c == 64 || (c == 9 || c == 13))))

abbrev pub neutralised : List ℕ → List ℕ
neutralised str = if starts_formula str then 39 ∷ str else str

-- `str.replace(/"/g, '""')`
unfoldable pub double_quotes : List ℕ → List ℕ
double_quotes [] = []
double_quotes (c ∷ str) =
    let rest = double_quotes str in if c == 34 then 34 ∷ 34 ∷ rest else c ∷ rest

unfoldable pub csv_field : Cell → List ℕ
unfolding double_quotes
csv_field none = 34 ∷ 34 ∷ []
csv_field (some str) = 34 ∷ double_quotes (neutralised str) ++ 34 ∷ []

-- The fields with commas between.
unfoldable pub csv_line : List Cell → List ℕ
unfolding csv_field
csv_line [] = []
csv_line (cell ∷ []) = csv_field cell
csv_line (cell ∷ next ∷ cells) = csv_field cell ++ 44 ∷ csv_line (next ∷ cells)

pub record AuditRow : Type 0 where
  pub id : Cell
  pub actor : Cell
  pub action : Cell
  pub resource : Cell
  pub before : Cell
  pub after : Cell
  pub ip : Cell
  pub created_at : Cell

-- The names of the columns behind `id`, and all of them.
abbrev pub later_columns : List (List ℕ)
later_columns =
    (97 ∷ 99 ∷ 116 ∷ 111 ∷ 114 ∷ [])
    ∷ (97 ∷ 99 ∷ 116 ∷ 105 ∷ 111 ∷ 110 ∷ [])
    ∷ (114 ∷ 101 ∷ 115 ∷ 111 ∷ 117 ∷ 114 ∷ 99 ∷ 101 ∷ [])
    ∷ (98 ∷ 101 ∷ 102 ∷ 111 ∷ 114 ∷ 101 ∷ [])
    ∷ (97 ∷ 102 ∷ 116 ∷ 101 ∷ 114 ∷ [])
    ∷ (105 ∷ 112 ∷ [])
    ∷ (99 ∷ 114 ∷ 101 ∷ 97 ∷ 116 ∷ 101 ∷ 100 ∷ 65 ∷ 116 ∷ [])
    ∷ []

abbrev pub columns : List (List ℕ)
columns = (105 ∷ 100 ∷ []) ∷ later_columns

abbrev pub later_cells : AuditRow → List Cell
later_cells r = r.actor ∷ r.action ∷ r.resource ∷ r.before ∷ r.after ∷ r.ip ∷ r.created_at ∷ []

abbrev pub cells_of : AuditRow → List Cell
cells_of r = r.id ∷ later_cells r

-- The lines after the first, each behind a carriage return and a line feed.
unfoldable pub csv_rows : List AuditRow → List ℕ
unfolding csv_line
csv_rows [] = []
csv_rows (row ∷ rows) = 13 ∷ 10 ∷ csv_line (cells_of row) ++ csv_rows rows

unfoldable pub to_csv : List AuditRow → List ℕ
unfolding csv_rows
to_csv [] = csv_line (map some columns) ++ 10 ∷ []
to_csv (row ∷ rows) = csv_line (map some columns) ++ csv_rows (row ∷ rows)
