-- ===== src/Quiz/Csv.antt =====
-- The CSV reader for imported questions: `parseCsv` of apps/api/src/modules/quiz/quiz.util.ts.
-- A text is the list of its UTF-16 units.
pub mod RoundTrip
mod Tests
use openlms.Base.{ℕ, Bool, true, false, ◌&&◌, List, [], ◌∷◌, ◌++◌, map, ◌==◌, if◌then◌else◌}

abbrev pub Text : Type 0
Text = List ℕ

abbrev pub quote : ℕ
quote = 34

abbrev pub newline : ℕ
newline = 10

abbrev pub return : ℕ
return = 13

-- `text.replace(/\r\n/g, "\n")`
unfoldable pub replace_crlf : Text → Text
replace_crlf [] = []
replace_crlf (c ∷ []) = c ∷ []
replace_crlf (c ∷ d ∷ s) =
    let joined = newline ∷ replace_crlf s in
    let kept = c ∷ replace_crlf (d ∷ s) in if c == return && d == newline then joined else kept

-- `text.replace(/\r/g, "\n")`
unfoldable pub replace_cr : Text → Text
replace_cr = map (λ c. if c == return then newline else c)

-- What stands after the loop: a last row that no newline ends.
abbrev pub finish : Text → List Text → List (List Text) → List (List Text)
finish [] [] rows = rows
finish field row rows = rows ++ (row ++ field ∷ []) ∷ []

-- The loop, over what is left of the text.
unfoldable pub read_csv : ℕ → Bool → Text → List Text → List (List Text) → Text → List (List Text)
read_csv delimiter in_quotes field row rows [] = finish field row rows
read_csv delimiter true field row rows (c ∷ []) =
    let closed = read_csv delimiter false field row rows [] in
    let longer = read_csv delimiter true (field ++ c ∷ []) row rows [] in
    if c == quote then closed else longer
read_csv delimiter true field row rows (c ∷ d ∷ s) =
    let escaped = read_csv delimiter true (field ++ quote ∷ []) row rows s in
    let closed = read_csv delimiter false field row rows (d ∷ s) in
    let longer = read_csv delimiter true (field ++ c ∷ []) row rows (d ∷ s) in
    if c == quote then (if d == quote then escaped else closed) else longer
read_csv delimiter false field row rows (c ∷ s) =
    let opened = read_csv delimiter true field row rows s in
    let next_field = read_csv delimiter false [] (row ++ field ∷ []) rows s in
    let next_row = read_csv delimiter false [] [] (rows ++ (row ++ field ∷ []) ∷ []) s in
    let longer = read_csv delimiter false (field ++ c ∷ []) row rows s in
    if c == quote
    then opened
    else if c == delimiter
    then next_field
    else if c == newline
    then next_row
    else longer

unfoldable pub parse_csv : Text → ℕ → List (List Text)
unfolding replace_crlf replace_cr read_csv
parse_csv text delimiter = read_csv delimiter false [] [] [] (replace_cr (replace_crlf text))
