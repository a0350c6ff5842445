-- ===== src/Quiz/Csv/Tests.antt =====
-- Runs of the CSV reader, with a comma for the delimiter.
use openlms.Base.{ℕ, ◌≡◌, refl, List, [], ◌∷◌, String, arith}
use openlms.Base.Texts.{codes}
use openlms.Quiz.Csv.{Text, parse_csv}
use openlms.Quiz.Csv.RoundTrip.{print_csv, parse_csv-print_csv}

abbrev text : String → Text
text content = codes content

abbrev comma : ℕ
comma = 44

parse_csv-plain :
    parse_csv (text "a,\"b\"\"c\"\r\nd") comma
    ≡ (text "a" ∷ text "b\"c" ∷ []) ∷ (text "d" ∷ []) ∷ []
unfolding parse_csv
parse_csv-plain = refl

-- The second field holds the delimiter, a quote and a newline.
abbrev table : List (Text × List Text)
table = (text "q1", text "1,\"2\n" ∷ []) ∷ (text "", []) ∷ []

parse_csv-print_csv_example :
    parse_csv (print_csv comma table) comma
    ≡ (text "q1" ∷ text "1,\"2\n" ∷ []) ∷ (text "" ∷ []) ∷ []
parse_csv-print_csv_example =
    parse_csv-print_csv comma table (omega arith) (omega arith) (omega arith) (omega arith)
