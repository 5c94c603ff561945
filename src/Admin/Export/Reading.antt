-- ===== src/Admin/Export/Reading.antt =====
-- The parser of src/payments/payment-import.csv.ts reads back what src/admin/admin.service.ts exports.
use dupdap_backend.Base.{
  ℕ, ◌≡◌, refl, ◌∙◌, ap, true, false, List, [], ◌∷◌, ◌++◌, none, some, map, ok, arith,
}
use mathlib.Core.List.{append_assoc, append-nil}
use dupdap_backend.Payments.Csv.{quote, comma, next_is, push_row, loop, finish, parse_csv}
use dupdap_backend.Payments.Csv.RoundTrip.{
  at, escape, loop-open, loop-escape, loop-comma, loop-line_end, kept, push_row-kept,
}
use dupdap_backend.Admin.Export.{
  Cell, AuditRow, neutralised, double_quotes, csv_field, csv_line, columns, later_columns, cells_of,
  later_cells, csv_rows, to_csv,
}

-- What a reader sees of a value.
abbrev pub shown : Cell → List ℕ
shown none = []
shown (some str) = neutralised str

abbrev pub shown_row : AuditRow → List (List ℕ)
shown_row row = map shown (cells_of row)

double_quotes-escape : (str : List ℕ) → double_quotes str ≡ escape str
unfolding double_quotes escape
double_quotes-escape [] = refl
double_quotes-escape (c ∷ str) = ground (arith, double_quotes-escape str)

-- All fields of a line but the last, and the last.
abbrev firsts : Cell → List Cell → List (List ℕ)
firsts cell [] = []
firsts cell (next ∷ cells) = shown cell ∷ firsts next cells

abbrev last : Cell → List Cell → List ℕ
last cell [] = shown cell
last cell (next ∷ cells) = last next cells

module _ (acc : List (List (List ℕ))) where
  loop-csv_field :
      (row : List (List ℕ)) (cell : Cell) (rest : List ℕ)
      → next_is quote rest ≡ false
      → loop (at acc row [] false) false (csv_field cell ++ rest)
        ≡ loop (at acc row (shown cell) false) false rest
  unfolding csv_field escape
  loop-csv_field row none rest h = loop-open acc row _ ∙ loop-escape acc row [] [] rest h
  loop-csv_field row (some str) rest h =
      rw
        (
          append_assoc (double_quotes (neutralised str)) (quote ∷ []) rest,
          double_quotes-escape (neutralised str),
        )
        (loop-open acc row _ ∙ loop-escape acc row [] (neutralised str) rest h)

  loop-csv_line :
      (row : List (List ℕ)) (cell : Cell) (cells : List Cell) (rest : List ℕ)
      → next_is quote rest ≡ false
      → loop (at acc row [] false) false (csv_line (cell ∷ cells) ++ rest)
        ≡ loop (at acc (row ++ firsts cell cells) (last cell cells) false) false rest
  unfolding csv_line
  loop-csv_line row cell [] rest h = rw append-nil (loop-csv_field row cell rest h)
  loop-csv_line row cell (next ∷ cells) rest h =
      rw (append_assoc (csv_field cell) (comma ∷ csv_line (next ∷ cells)) rest) (
        loop-csv_field row cell _ refl
        ∙ loop-comma acc row (shown cell) _
        ∙ loop-csv_line (row ++ shown cell ∷ []) next cells rest h
        ∙ rw (append_assoc row (shown cell ∷ []) (firsts next cells)))

-- The end of the text ends the row, too.
finish-row :
    (acc : List (List (List ℕ))) (row : List (List ℕ)) (field : List ℕ)
    → finish (at acc row field false) ≡ ok (push_row acc (row ++ field ∷ []))
unfolding finish
finish-row acc [] [] = refl
finish-row acc [] (c ∷ field) = refl
finish-row acc (x ∷ row) [] = refl
finish-row acc (x ∷ row) (c ∷ field) = refl

csv_rows-plain : (rows : List AuditRow) → next_is quote (csv_rows rows) ≡ false
unfolding csv_rows
csv_rows-plain [] = refl
csv_rows-plain (row ∷ rows) = refl

finish-csv_rows :
    (rows : List AuditRow) (acc : List (List (List ℕ))) (line : List (List ℕ)) (field : List ℕ)
    → finish (loop (at acc line field false) false (csv_rows rows))
      ≡ ok (push_row acc (line ++ field ∷ []) ++ kept (map shown_row rows))
unfolding csv_rows loop
finish-csv_rows [] acc line field = rw append-nil (finish-row acc line field)
finish-csv_rows (row ∷ rows) acc line field =
    let acc' = push_row acc (line ++ field ∷ []) in
    ap finish (
      loop-line_end acc line true field _
      ∙ loop-csv_line acc' [] row.id (later_cells row) (csv_rows rows) (csv_rows-plain rows))
    ∙ finish-csv_rows rows acc' (firsts row.id (later_cells row)) (last row.id (later_cells row))
    ∙ ap ok (push_row-kept acc' (shown_row row) (map shown_row rows))

-- An export with at least one entry is read as the names of the columns and a row for each entry that has a value that is
-- not empty: of a value the text, behind an apostrophe where it would start a formula, whatever quotes, commas and line
-- ends are in it.
pub parse_csv-to_csv :
    (row : AuditRow) (rows : List AuditRow)
    → parse_csv (to_csv (row ∷ rows)) ≡ ok (columns ∷ kept (map shown_row (row ∷ rows)))
unfolding parse_csv to_csv
parse_csv-to_csv row rows =
    ap finish (
      loop-csv_line [] [] (some (105 ∷ 100 ∷ [])) (map some later_columns) (csv_rows (row ∷ rows))
        (csv_rows-plain (row ∷ rows)))
    ∙ finish-csv_rows (row ∷ rows) [] (firsts (some (105 ∷ 100 ∷ [])) (map some later_columns))
        (last (some (105 ∷ 100 ∷ [])) (map some later_columns))
