-- ===== src/Payments/Csv/RoundTrip.antt =====
-- The parser of src/payments/payment-import.csv.ts reads back what an RFC 4180 writer writes.
use dupdap_backend.Base.{
  ℕ, ◌≡◌, refl, ◌∙◌, ap, Bool, true, false, ◌||◌, ◌==◌, List, [], ◌∷◌, ◌++◌, any, filter, ok, arith,
  if◌then◌else◌, Bool-cases, inl, inr, ==_iff,
}
use mathlib.Core.List.{append_assoc, append-nil}
use dupdap_backend.Payments.Csv.{
  quote, comma, newline, return, non_empty, Parser, next_is, push_row, step, loop, parse_csv,
}

-- The characters for which a field is put in quotes.
abbrev pub is_special : ℕ → Bool
is_special c = c == quote || c == comma || c == newline || c == return

-- A quote inside quotes is doubled.
unfoldable pub escape : List ℕ → List ℕ
escape [] = []
escape (c ∷ s) = if c == quote then quote ∷ quote ∷ escape s else c ∷ escape s

pub print_field : List ℕ → List ℕ
unfolding escape
print_field s = if any is_special s then quote ∷ escape s ++ quote ∷ [] else s

-- The line ends with a line feed, after a carriage return if `crlf` is set.
abbrev pub line_end : Bool → List ℕ
line_end true = return ∷ newline ∷ []
line_end false = newline ∷ []

-- The fields of a row, with commas between, and the line's end.
pub print_row : Bool → List (List ℕ) → List ℕ
unfolding print_field
print_row crlf [] = line_end crlf
print_row crlf (s ∷ []) = print_field s ++ line_end crlf
print_row crlf (s ∷ t ∷ row) = print_field s ++ comma ∷ print_row crlf (t ∷ row)

pub print_csv : Bool → List (List (List ℕ)) → List ℕ
unfolding print_row
print_csv crlf [] = []
print_csv crlf (row ∷ rows) = print_row crlf row ++ print_csv crlf rows

-- A parser with these parts.
abbrev pub at : List (List (List ℕ)) → List (List ℕ) → List ℕ → Bool → Parser
at rows row field quoted = record { rows = rows; row = row; field = field; quoted = quoted }

escape-plain : (c : ℕ) (s : List ℕ) → (c == quote) ≡ false → escape (c ∷ s) ≡ c ∷ escape s
unfolding escape
escape-plain c s h = rw h

escape-nil : escape [] ≡ []
unfolding escape
escape-nil = refl

escape-quote : (s : List ℕ) → escape (quote ∷ s) ≡ quote ∷ quote ∷ escape s
unfolding escape
escape-quote s = refl

module _ (rows : List (List (List ℕ))) (row : List (List ℕ)) where
  step-quoted :
      (field rest : List ℕ) (c : ℕ)
      → (c == quote) ≡ false
      → step (at rows row field true) c rest ≡ (at rows row (field ++ c ∷ []) true, false)
  unfolding step
  step-quoted field rest c h = ground arith

  step-bare :
      (field rest : List ℕ) (c : ℕ)
      → is_special c ≡ false
      → step (at rows row field false) c rest ≡ (at rows row (field ++ c ∷ []) false, false)
  unfolding step
  step-bare field rest c h = ground arith

  -- The loop over a character whose round is known.
  loop-step :
      (p p' : Parser) (skip : Bool) (c : ℕ) (rest : List ℕ)
      → step p c rest ≡ (p', skip)
      → loop p false (c ∷ rest) ≡ loop p' skip rest
  unfolding loop
  loop-step p p' skip c rest h = rw h

  pub loop-open :
      (rest : List ℕ)
      → loop (at rows row [] false) false (quote ∷ rest) ≡ loop (at rows row [] true) false rest
  unfolding loop step
  loop-open rest = refl

  loop-doubled :
      (field rest : List ℕ)
      → loop (at rows row field true) false (quote ∷ quote ∷ rest)
        ≡ loop (at rows row (field ++ quote ∷ []) true) false rest
  unfolding loop step
  loop-doubled field rest = refl

  loop-close :
      (field rest : List ℕ)
      → next_is quote rest ≡ false
      → loop (at rows row field true) false (quote ∷ rest)
        ≡ loop (at rows row field false) false rest
  unfolding loop step
  loop-close field rest h = rw h

  pub loop-escape :
      (field s rest : List ℕ)
      → next_is quote rest ≡ false
      → loop (at rows row field true) false (escape s ++ quote ∷ rest)
        ≡ loop (at rows row (field ++ s) false) false rest
  loop-escape field [] rest h = rw (escape-nil, append-nil) (loop-close field rest h)
  loop-escape field (c ∷ s) rest h = elim (Bool-cases (c == quote)) [
    | inl q ↦
        rw ((==_iff c quote).0 q, escape-quote s)
          (loop-doubled field _
            ∙ loop-escape (field ++ quote ∷ []) s rest h
            ∙ rw (append_assoc field (quote ∷ []) s))
    | inr q ↦ rw (escape-plain c s q) (
        loop-step _ _ false c _ (step-quoted field _ c q)
        ∙ loop-escape (field ++ c ∷ []) s rest h
        ∙ rw (append_assoc field (c ∷ []) s))
  ]

  loop-bare :
      (field s rest : List ℕ)
      → any is_special s ≡ false
      → loop (at rows row field false) false (s ++ rest)
        ≡ loop (at rows row (field ++ s) false) false rest
  loop-bare field [] rest h = rw append-nil
  loop-bare field (c ∷ s) rest h =
      let here_ : is_special c ≡ false = ground arith in
      loop-step _ _ false c _ (step-bare field _ c here_)
      ∙ loop-bare (field ++ c ∷ []) s rest (ground arith)
      ∙ rw (append_assoc field (c ∷ []) s)

  -- A printed field, up to what follows it.
  loop-print_field :
      (s rest : List ℕ)
      → next_is quote rest ≡ false
      → loop (at rows row [] false) false (print_field s ++ rest)
        ≡ loop (at rows row s false) false rest
  unfolding print_field
  loop-print_field s rest h = elim (Bool-cases (any is_special s)) [
    | inl special ↦
        rw (special, append_assoc (escape s) (quote ∷ []) rest)
          (loop-open _ ∙ loop-escape [] s rest h)
    | inr plain ↦ rw plain (loop-bare [] s rest plain)
  ]

  pub loop-line_end :
      (crlf : Bool) (s rest : List ℕ)
      → loop (at rows row s false) false (line_end crlf ++ rest)
        ≡ loop (at (push_row rows (row ++ s ∷ [])) [] [] false) false rest
  unfolding loop step
  loop-line_end true s rest = refl
  loop-line_end false s rest = refl

  pub loop-comma :
      (s rest : List ℕ)
      → loop (at rows row s false) false (comma ∷ rest)
        ≡ loop (at rows (row ++ s ∷ []) [] false) false rest
  unfolding loop step
  loop-comma s rest = refl

line_end-plain : (crlf : Bool) (rest : List ℕ) → next_is quote (line_end crlf ++ rest) ≡ false
line_end-plain true rest = refl
line_end-plain false rest = refl

module _ (rows : List (List (List ℕ))) (crlf : Bool) where
  loop-print_fields :
      (row : List (List ℕ)) (s : List ℕ) (more : List (List ℕ)) (rest : List ℕ)
      → loop (at rows row [] false) false (print_row crlf (s ∷ more) ++ rest)
        ≡ loop (at (push_row rows (row ++ s ∷ more)) [] [] false) false rest
  unfolding print_row
  loop-print_fields row s [] rest = rw (append_assoc (print_field s) (line_end crlf) rest) (
      loop-print_field rows row s (line_end crlf ++ rest) (line_end-plain crlf rest)
      ∙ loop-line_end rows row crlf s rest)
  loop-print_fields row s (t ∷ more) rest =
      rw (append_assoc (print_field s) (comma ∷ print_row crlf (t ∷ more)) rest) (
        loop-print_field rows row s _ refl
        ∙ loop-comma rows row s _
        ∙ loop-print_fields (row ++ s ∷ []) t more rest
        ∙ rw (append_assoc row (s ∷ []) (t ∷ more)))

  loop-print_row :
      (row : List (List ℕ)) (rest : List ℕ)
      → loop (at rows [] [] false) false (print_row crlf row ++ rest)
        ≡ loop (at (push_row rows row) [] [] false) false rest
  unfolding print_row
  loop-print_row [] rest = loop-line_end rows [] crlf [] rest
  loop-print_row (s ∷ more) rest = loop-print_fields [] s more rest

-- The rows that the import keeps: those with a field that is not empty.
abbrev pub kept : List (List (List ℕ)) → List (List (List ℕ))
kept rows = filter (any non_empty) rows

pub push_row-kept :
    (acc : List (List (List ℕ))) (row : List (List ℕ)) (rows : List (List (List ℕ)))
    → push_row acc row ++ kept rows ≡ acc ++ kept (row ∷ rows)
push_row-kept acc row rows = elim (Bool-cases (any non_empty row)) [
  | inl full ↦ rw full (append_assoc acc (row ∷ []) (kept rows))
  | inr blank ↦ rw blank
]

loop-print_csv :
    (crlf : Bool) (acc rows : List (List (List ℕ)))
    → loop (at acc [] [] false) false (print_csv crlf rows) ≡ at (acc ++ kept rows) [] [] false
unfolding print_csv loop
loop-print_csv crlf acc [] = rw append-nil
loop-print_csv crlf acc (row ∷ rows) =
    loop-print_row acc crlf row (print_csv crlf rows)
    ∙ loop-print_csv crlf (push_row acc row) rows
    ∙ ap (λ r. at r [] [] false) (push_row-kept acc row rows)

-- Every table that is written as RFC 4180 asks, with either line ending and with quotes only where
-- they are needed, is read back as it was, less the rows that hold no value.
pub parse_csv-print_csv :
    (crlf : Bool) (rows : List (List (List ℕ))) → parse_csv (print_csv crlf rows) ≡ ok (kept rows)
unfolding parse_csv
parse_csv-print_csv crlf rows = rw (loop-print_csv crlf [] rows)
