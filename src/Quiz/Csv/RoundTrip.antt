-- ===== src/Quiz/Csv/RoundTrip.antt =====
-- Reading back what a writer of quoted fields has written.
use mathlib.Core.List.{append-nil, append_assoc}
use openlms.Base.{
  ℕ, ◌≡◌, ◌≢◌, refl, ap, sym, ◌∙◌, true, false, List, [], ◌∷◌, ◌++◌, arith, ◌==◌, if◌then◌else◌,
  All, Bool-cases, inl, inr,
}
use openlms.Quiz.Csv.{Text, quote, newline, return, replace_crlf, replace_cr, read_csv, parse_csv}

-- A field in quotes, its own quotes doubled, in front of the text that follows.
abbrev pub doubled : Text → Text → Text
doubled [] rest = rest
doubled (c ∷ f) rest = if c == quote then quote ∷ quote ∷ doubled f rest else c ∷ doubled f rest

abbrev pub quoted : Text → Text → Text
quoted f rest = quote ∷ doubled f (quote ∷ rest)

-- A row of one field or more, ended by a newline.
abbrev pub print_row : ℕ → Text → List Text → Text → Text
print_row delimiter f [] rest = quoted f (newline ∷ rest)
print_row delimiter f (g ∷ fs) rest = quoted f (delimiter ∷ print_row delimiter g fs rest)

abbrev pub print_csv : ℕ → List (Text × List Text) → Text
print_csv delimiter [] = []
print_csv delimiter ((f, fs) ∷ rows) = print_row delimiter f fs (print_csv delimiter rows)

abbrev pub fields_of : List (Text × List Text) → List (List Text)
fields_of [] = []
fields_of ((f, fs) ∷ rows) = (f ∷ fs) ∷ fields_of rows

module _ (delimiter : ℕ) (field : Text) (row : List Text) (rows : List (List Text)) where
  read-plain :
      (c : ℕ) (s : Text)
      → c ≢ quote
      → read_csv delimiter true field row rows (c ∷ s)
        ≡ read_csv delimiter true (field ++ c ∷ []) row rows s
  unfolding read_csv
  read-plain c [] n = ground arith
  read-plain c (d ∷ s) n = ground arith

  read-escaped :
      (s : Text)
      → read_csv delimiter true field row rows (quote ∷ quote ∷ s)
        ≡ read_csv delimiter true (field ++ quote ∷ []) row rows s
  unfolding read_csv
  read-escaped s = refl

  read-close :
      (d : ℕ) (s : Text)
      → d ≢ quote
      → read_csv delimiter true field row rows (quote ∷ d ∷ s)
        ≡ read_csv delimiter false field row rows (d ∷ s)
  unfolding read_csv
  read-close d s n = ground arith

  read-open :
      (s : Text)
      → read_csv delimiter false field row rows (quote ∷ s)
        ≡ read_csv delimiter true field row rows s
  unfolding read_csv
  read-open s = refl

  read-delimiter :
      (s : Text)
      → delimiter ≢ quote
      → read_csv delimiter false field row rows (delimiter ∷ s)
        ≡ read_csv delimiter false [] (row ++ field ∷ []) rows s
  unfolding read_csv
  read-delimiter s n = ground arith

  read-newline :
      (s : Text)
      → delimiter ≢ newline
      → read_csv delimiter false field row rows (newline ∷ s)
        ≡ read_csv delimiter false [] [] (rows ++ (row ++ field ∷ []) ∷ []) s
  unfolding read_csv
  read-newline s n = ground arith

module _ (delimiter : ℕ) where
  -- Inside quotes: the field is read up to the closing quote, which no quote follows.
  read-doubled :
      (f field : Text) (row : List Text) (rows : List (List Text)) (d : ℕ) (s : Text)
      → d ≢ quote
      → read_csv delimiter true field row rows (doubled f (quote ∷ d ∷ s))
        ≡ read_csv delimiter false (field ++ f) row rows (d ∷ s)
  read-doubled [] field row rows d s n =
      rw (append-nil field) (read-close delimiter field row rows d s n)
  read-doubled (c ∷ f) field row rows d s n = elim (Bool-cases (c == quote)) [
    | inl t ↦
        let e : c ≡ quote = ground arith in
        rw t (
          read-escaped delimiter field row rows (doubled f (quote ∷ d ∷ s))
          ∙ read-doubled f (field ++ quote ∷ []) row rows d s n
          ∙ ap (λ z. read_csv delimiter false z row rows (d ∷ s))
              (append_assoc field (quote ∷ []) f ∙ ap (λ x. field ++ x ∷ f) (sym e)))
    | inr t ↦ rw t (
        read-plain delimiter field row rows c (doubled f (quote ∷ d ∷ s)) (ground arith)
        ∙ read-doubled f (field ++ c ∷ []) row rows d s n
        ∙ ap (λ z. read_csv delimiter false z row rows (d ∷ s)) (append_assoc field (c ∷ []) f))
  ]

module _ (delimiter : ℕ) (nq : delimiter ≢ quote) (nn : delimiter ≢ newline) where
  read-quoted :
      (f : Text) (row : List Text) (rows : List (List Text)) (d : ℕ) (s : Text)
      → d ≢ quote
      → read_csv delimiter false [] row rows (quoted f (d ∷ s))
        ≡ read_csv delimiter false f row rows (d ∷ s)
  read-quoted f row rows d s n =
      read-open delimiter [] row rows (doubled f (quote ∷ d ∷ s))
      ∙ read-doubled delimiter f [] row rows d s n

  read-print_row :
      (f : Text) (fs row : List Text) (rows : List (List Text)) (s : Text)
      → read_csv delimiter false [] row rows (print_row delimiter f fs s)
        ≡ read_csv delimiter false [] [] (rows ++ (row ++ f ∷ fs) ∷ []) s
  read-print_row f [] row rows s =
      read-quoted f row rows newline s (omega arith) ∙ read-newline delimiter f row rows s nn
  read-print_row f (g ∷ fs) row rows s =
      read-quoted f row rows delimiter (print_row delimiter g fs s) nq
      ∙ read-delimiter delimiter f row rows (print_row delimiter g fs s) nq
      ∙ read-print_row g fs (row ++ f ∷ []) rows s
      ∙ ap (λ z. read_csv delimiter false [] [] (rows ++ z ∷ []) s)
          (append_assoc row (f ∷ []) (g ∷ fs))

  read-print_csv :
      (printed : List (Text × List Text)) (rows : List (List Text))
      → read_csv delimiter false [] [] rows (print_csv delimiter printed)
        ≡ rows ++ fields_of printed
  unfolding read_csv
  read-print_csv [] rows = sym (append-nil rows)
  read-print_csv ((f, fs) ∷ printed) rows =
      read-print_row f fs [] rows (print_csv delimiter printed)
      ∙ read-print_csv printed (rows ++ (f ∷ fs) ∷ [])
      ∙ append_assoc rows ((f ∷ fs) ∷ []) (fields_of printed)

-- A text without carriage returns is left as it is.
abbrev pub NoReturn : Text → Type 0
NoReturn s = All (λ c. c ≢ return) s

replace_crlf-eq_self : (s : Text) → NoReturn s → replace_crlf s ≡ s
unfolding replace_crlf
replace_crlf-eq_self [] h = refl
replace_crlf-eq_self (c ∷ []) h = refl
replace_crlf-eq_self (c ∷ d ∷ s) (n, h) = ground (arith, replace_crlf-eq_self (d ∷ s) h)

replace_cr-eq_self : (s : Text) → NoReturn s → replace_cr s ≡ s
unfolding replace_cr
replace_cr-eq_self [] h = refl
replace_cr-eq_self (c ∷ s) (n, h) = ground (arith, replace_cr-eq_self s h)

NoReturn-doubled : (f rest : Text) → NoReturn f → NoReturn rest → NoReturn (doubled f rest)
NoReturn-doubled [] rest h k = k
NoReturn-doubled (c ∷ f) rest (n, h) k =
    let later = NoReturn-doubled f rest h k in
    elim (Bool-cases (c == quote)) [
      | inl t ↦ rw t (omega arith, (omega arith, later))
      | inr t ↦ rw t (n, later)
    ]

NoReturn-print_row :
    (delimiter : ℕ) (f : Text) (fs : List Text) (rest : Text)
    → delimiter ≢ return
    → NoReturn f
    → All NoReturn fs
    → NoReturn rest
    → NoReturn (print_row delimiter f fs rest)
NoReturn-print_row delimiter f [] rest n h hs k =
    (omega arith, NoReturn-doubled f _ h (omega arith, (omega arith, k)))
NoReturn-print_row delimiter f (g ∷ fs) rest n h (hg, hs) k = (
  omega arith,
  NoReturn-doubled f _ h (omega arith, (n, NoReturn-print_row delimiter g fs rest n hg hs k)),
)

abbrev pub NoReturns : List (Text × List Text) → Type 0
NoReturns [] = Unit
NoReturns ((f, fs) ∷ rows) = NoReturn f × All NoReturn fs × NoReturns rows

NoReturn-print_csv :
    (delimiter : ℕ) (rows : List (Text × List Text))
    → delimiter ≢ return
    → NoReturns rows
    → NoReturn (print_csv delimiter rows)
NoReturn-print_csv delimiter [] n h = tt
NoReturn-print_csv delimiter ((f, fs) ∷ rows) n (h, hs, k) =
    NoReturn-print_row delimiter f fs (print_csv delimiter rows) n h hs
      (NoReturn-print_csv delimiter rows n k)

-- Reading a table that was written with every field in quotes, its quotes doubled, and every row
-- ended by a newline gives the table back, whatever quotes, delimiters and newlines the fields
-- hold; for a delimiter that is no quote, newline or carriage return, rows of one field or more,
-- and fields without carriage returns, which the reader would turn into newlines.
pub parse_csv-print_csv :
    (delimiter : ℕ) (rows : List (Text × List Text))
    → delimiter ≢ quote
    → delimiter ≢ newline
    → delimiter ≢ return
    → NoReturns rows
    → parse_csv (print_csv delimiter rows) delimiter ≡ fields_of rows
unfolding parse_csv
parse_csv-print_csv delimiter rows nq nn nr h =
    let clean = NoReturn-print_csv delimiter rows nr h in
    rw
      (
        replace_crlf-eq_self (print_csv delimiter rows) clean,
        replace_cr-eq_self (print_csv delimiter rows) clean,
      )
      (read-print_csv delimiter nq nn rows [])
