-- ===== src/Rollover/Keys.antt =====
-- The key of a target class, "<id>:<grade>:<0 or 1>", and what is read back from it:
-- `targetClassKey` and the `split(":")` of `buildPromotionPlan` of
-- apps/api/src/modules/rollover/rollover.promotion.ts.
use openlms.Base.Texts.{Text}
use openlms.Base.{
  ℕ, zero, suc, ◌+◌, ◌-◌, ◌*◌, ◌/◌, ◌%◌, ◌≤◌, ◌≡◌, refl, ap, ◌∙◌, Bool, true, false, ◌&&◌, List, [],
  ◌∷◌, ◌++◌, Option, none, some, arith, leb, ◌==◌, if◌then◌else◌, any,
}
use openlms.Base.Int.{ℤ, pos, negsuc}
use openlms.Rollover.ClassName.{digits_before, digits, to_text}

abbrev pub has_colon : Text → Bool
has_colon s = any (λ c. c == 58) s

unfoldable pub target_class_key : Text → ℤ → Bool → Text
target_class_key source_class_id grade_level repeated =
    source_class_id ++ 58 ∷ (to_text grade_level ++ 58 ∷ (if repeated then 49 else 48) ∷ [])

abbrev pub extend_first : ℕ → List Text → List Text
extend_first c [] = (c ∷ []) ∷ []
extend_first c (part ∷ parts) = (c ∷ part) ∷ parts

-- `key.split(":")`
unfoldable pub split_colons : Text → List Text
split_colons [] = [] ∷ []
split_colons (c ∷ s) =
    let parts = split_colons s in if c == 58 then [] ∷ parts else extend_first c parts

abbrev pub is_digit : ℕ → Bool
is_digit c = leb 48 c && leb c 57

-- the number that digits continue
unfoldable pub read_from : ℕ → Text → Option ℕ
read_from n [] = some n
read_from n (c ∷ s) =
    let more = read_from (n * 10 + (c - 48)) s in if is_digit c then more else none

abbrev pub negated : Option ℕ → Option ℤ
negated none = none
negated (some zero) = some (pos zero)
negated (some (suc n)) = some (negsuc n)

abbrev pub unsigned : Option ℕ → Option ℤ
unsigned none = none
unsigned (some n) = some (pos n)

-- `Number(s)` of an integer's numeral; `none` is `NaN`. A key of `target_class_key` whose id has
-- no colon has no other numeral.
unfoldable pub to_number : Text → Option ℤ
to_number [] = some (pos 0)
to_number (c ∷ []) = unsigned (read_from 0 (c ∷ []))
to_number (c ∷ d ∷ s) =
    if c == 45 then negated (read_from 0 (d ∷ s)) else unsigned (read_from 0 (c ∷ d ∷ s))

pub read_from-digits_before :
    (fuel n : ℕ) (rest : Text)
    → n ≤ fuel
    → read_from 0 (digits_before fuel n rest) ≡ read_from n rest
unfolding read_from digits_before
read_from-digits_before zero n rest h = ground arith
read_from-digits_before (suc fuel) n rest h =
    ground (arith, read_from-digits_before fuel (n / 10) ((48 + n % 10) ∷ rest))

pub has_colon-digits_before :
    (fuel n : ℕ) (rest : Text)
    → n ≤ fuel
    → has_colon rest ≡ false
    → has_colon (digits_before fuel n rest) ≡ false
unfolding digits_before
has_colon-digits_before zero n rest h k = ground arith
has_colon-digits_before (suc fuel) n rest h k =
    ground (arith, has_colon-digits_before fuel (n / 10) ((48 + n % 10) ∷ rest))

pub to_number-unsigned : (s : Text) {n : ℕ} → read_from 0 s ≡ some n → to_number s ≡ some (pos n)
unfolding read_from to_number
to_number-unsigned [] {n} h = ground arith
to_number-unsigned (c ∷ []) {n} h = ap unsigned h
to_number-unsigned (c ∷ d ∷ s) {n} h = ground arith

pub to_number-negated :
    (s : Text) {n : ℕ} → read_from 0 s ≡ some (suc n) → to_number (45 ∷ s) ≡ some (negsuc n)
unfolding read_from to_number
to_number-negated [] {n} h = ground arith
to_number-negated (c ∷ s) {n} h = ap negated h

pub to_number-to_text : (n : ℤ) → to_number (to_text n) ≡ some n
unfolding to_text read_from
to_number-to_text (pos n) =
    to_number-unsigned (digits n) (read_from-digits_before n n [] (omega arith))
to_number-to_text (negsuc n) =
    to_number-negated (digits (suc n)) (read_from-digits_before (suc n) (suc n) [] (omega arith))

pub has_colon-to_text : (n : ℤ) → has_colon (to_text n) ≡ false
unfolding to_text
has_colon-to_text (pos n) = has_colon-digits_before n n [] (omega arith) refl
has_colon-to_text (negsuc n) = has_colon-digits_before (suc n) (suc n) [] (omega arith) refl

-- A part without a colon is split off whole.
pub split_colons-append :
    (part s : Text) → has_colon part ≡ false → split_colons (part ++ 58 ∷ s) ≡ part ∷ split_colons s
unfolding split_colons
split_colons-append [] s h = refl
split_colons-append (c ∷ part) s h = ground (arith, split_colons-append part s)

abbrev pub flag : Bool → Text
flag repeated = (if repeated then 49 else 48) ∷ []

split_colons-flag : (repeated : Bool) → split_colons (flag repeated) ≡ flag repeated ∷ []
unfolding split_colons
split_colons-flag true = refl
split_colons-flag false = refl

target_class_key-eq :
    (id : Text) (grade : ℤ) (repeated : Bool)
    → target_class_key id grade repeated ≡ id ++ 58 ∷ (to_text grade ++ 58 ∷ flag repeated)
unfolding target_class_key
target_class_key-eq id grade repeated = refl

-- The parts of a key whose id has no colon are what it was made of.
pub split_colons-key :
    (id : Text) (grade : ℤ) (repeated : Bool)
    → has_colon id ≡ false
    → split_colons (target_class_key id grade repeated) ≡ id ∷ to_text grade ∷ flag repeated ∷ []
split_colons-key id grade repeated h =
    ap split_colons (target_class_key-eq id grade repeated)
    ∙ split_colons-append id (to_text grade ++ 58 ∷ flag repeated) h
    ∙ ap (λ z. id ∷ z)
        (split_colons-append (to_text grade) (flag repeated) (has_colon-to_text grade)
          ∙ ap (λ z. to_text grade ∷ z) (split_colons-flag repeated))
