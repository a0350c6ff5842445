-- ===== src/Rollover/ClassName.antt =====
-- The name of a new class: `nextClassName` of apps/api/src/modules/rollover/rollover.promotion.ts,
-- and the numerals it prints. A text is the list of its code units.
use openlms.Base.{ℕ, zero, suc, ◌+◌, ◌/◌, ◌%◌, Bool, ◌||◌, [], ◌∷◌, ◌++◌, ltb, ◌==◌, if◌then◌else◌}
use openlms.Base.Texts.{Text, trim}
use openlms.Base.Int.{ℤ, pos, negsuc}

-- the digits of a number before a text; the number itself is enough fuel
unfoldable pub digits_before : ℕ → ℕ → Text → Text
digits_before zero n rest = (48 + n) ∷ rest
digits_before (suc fuel) n rest =
    let longer = digits_before fuel (n / 10) ((48 + n % 10) ∷ rest) in
    if ltb n 10 then (48 + n) ∷ rest else longer

abbrev pub digits : ℕ → Text
digits n = digits_before n n []

-- `String(n)` of an integer
unfoldable pub to_text : ℤ → Text
to_text (pos n) = digits n
to_text (negsuc n) = 45 ∷ digits (suc n)

-- `ROMAN[targetGrade] ?? String(targetGrade)`
unfoldable pub roman : ℤ → Text
roman (pos n) =
    if n == 10
    then 88 ∷ []
    else if n == 11
    then 88 ∷ 73 ∷ []
    else if n == 12
    then 88 ∷ 73 ∷ 73 ∷ []
    else to_text (pos n)
roman (negsuc n) = to_text (negsuc n)

abbrev pub is_x : ℕ → Bool
is_x c = c == 88 || c == 120

abbrev pub is_i : ℕ → Bool
is_i c = c == 73 || c == 105

-- `/^(XII|XI|X{1,2})/i` replaced by the empty text: the first alternative that matches
unfoldable pub without_prefix : Text → Text
without_prefix [] = []
without_prefix (a ∷ []) = if is_x a then [] else a ∷ []
without_prefix (a ∷ b ∷ []) =
    if is_x a then (if is_i b || is_x b then [] else b ∷ []) else a ∷ b ∷ []
without_prefix (a ∷ b ∷ c ∷ s) =
    if is_x a
    then (if is_i b then (if is_i c then s else c ∷ s) else if is_x b then c ∷ s else b ∷ c ∷ s)
    else a ∷ b ∷ c ∷ s

abbrev pub base_name : Text → Text → Text
base_name numeral [] = numeral
base_name numeral (c ∷ s) = numeral ++ 32 ∷ c ∷ s

unfoldable pub next_class_name : Text → ℤ → Bool → Text
next_class_name source_name target_grade repeated =
    let name = base_name (roman target_grade) (trim (without_prefix source_name)) in
    if repeated then name ++ 32 ∷ 40 ∷ 85 ∷ 41 ∷ [] else name
