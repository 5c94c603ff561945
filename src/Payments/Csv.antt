-- ===== src/Payments/Csv.antt =====
-- src/payments/payment-import.csv.ts: the CSV parser of the payment import, over the code units of the
-- text. The index `i` of the loop is the list that is left; `i++` inside the body is the flag `skip`.
pub mod RoundTrip
use dupdap_backend.Base.{
  ℕ, Bool, true, false, not, ◌&&◌, ◌||◌, ◌==◌, List, [], ◌∷◌, ◌++◌, Option, none, some, any, Result,
  ok, err, if◌then◌else◌,
}

abbrev pub quote : ℕ
quote = 34

abbrev pub comma : ℕ
comma = 44

abbrev pub newline : ℕ
newline = 10

abbrev pub return : ℕ
return = 13

-- `value.length > 0`
abbrev pub non_empty : List ℕ → Bool
non_empty [] = false
non_empty (_ ∷ _) = true

pub record Parser : Type 0 where
  pub rows : List (List (List ℕ))
  pub row : List (List ℕ)
  pub field : List ℕ
  pub quoted : Bool

-- `input[i + 1] === char`
abbrev pub next_is : ℕ → List ℕ → Bool
next_is char [] = false
next_is char (c ∷ _) = c == char

-- `if (row.some((value) => value.length > 0)) rows.push(row)`
abbrev pub push_row : List (List (List ℕ)) → List (List ℕ) → List (List (List ℕ))
push_row rows row = if any non_empty row then rows ++ row ∷ [] else rows

-- One round of the loop, with the input after `char`; the flag says that `i` is moved once more.
pub step : Parser → ℕ → List ℕ → Parser × Bool
step p char rest =
    if p.quoted
    then (if char == quote && next_is quote rest
        then (record p { field = p.field ++ quote ∷ [] }, true)
        else if char == quote
        then (record p { quoted = false }, false)
        else (record p { field = p.field ++ char ∷ [] }, false))
    else if char == quote && not (non_empty p.field)
    then (record p { quoted = true }, false)
    else if char == comma
    then (record p { row = p.row ++ p.field ∷ []; field = [] }, false)
    else if char == newline || char == return
    then (
      record p { rows = push_row p.rows (p.row ++ p.field ∷ []); row = []; field = [] },
      char == return && next_is newline rest,
    )
    else (record p { field = p.field ++ char ∷ [] }, false)

unfoldable pub loop : Parser → Bool → List ℕ → Parser
loop p skip [] = p
loop p true (char ∷ rest) = loop p false rest
loop p false (char ∷ rest) = let (p', skip) = step p char rest in loop p' skip rest

-- `throw new Error('CSV contains an unclosed quoted field')`
pub data CsvError : Type 0 where
  unclosed_field : CsvError

abbrev has_row : List (List ℕ) → Bool
has_row [] = false
has_row (_ ∷ _) = true

abbrev pub start : Parser
start = record { rows = []; row = []; field = []; quoted = false }

-- After the loop.
unfoldable pub finish : Parser → Result CsvError (List (List (List ℕ)))
finish p =
    if p.quoted
    then err unclosed_field
    else if non_empty p.field || has_row p.row
    then ok (push_row p.rows (p.row ++ p.field ∷ []))
    else ok p.rows

unfoldable pub parse_csv : List ℕ → Result CsvError (List (List (List ℕ)))
unfolding loop step finish
parse_csv input = finish (loop start false input)
