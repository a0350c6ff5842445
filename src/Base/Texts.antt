-- ===== src/Base/Texts.antt =====
-- A text as the list of its code units.
use Prim.Native.Char.{code}
use Prim.Native.Nat.{ℕ}
use Prim.Native.String.{String}
use Prim.Native.Nat.{◌+◌, ◌-◌}
use mathlib.Core.Bool.{Bool, true, false, ◌&&◌, ◌||◌}
use mathlib.Core.Path.{◌≡◌, refl, subst}
use mathlib.Core.Logic.{◌↔◌}
use native.Mathlib.Omega.{arith}
use openlms.Base.Tests.{ltb, leb, ◌==◌, if◌then◌else◌}
use mathlib.Core.List.{List, [], ◌∷◌}

abbrev pub Text : Type 0
Text = List ℕ

abbrev pub codes : String → List ℕ
codes (String.◌∷◌ letter rest) = code letter ∷ codes rest
codes String.[] = []

-- `<` on texts, by their code units
abbrev pub before_codes : List ℕ → List ℕ → Bool
before_codes s [] = false
before_codes [] (b ∷ t) = true
before_codes (a ∷ s) (b ∷ t) = ltb a b || a == b && before_codes s t

abbrev pub text_before : String → String → Bool
text_before s t = before_codes (codes s) (codes t)

-- `===` on texts
abbrev pub same_text : Text → Text → Bool
same_text [] [] = true
same_text [] (b ∷ t) = false
same_text (a ∷ s) [] = false
same_text (a ∷ s) (b ∷ t) = a == b && same_text s t

pub same_text_self : (s : Text) → same_text s s ≡ true
same_text_self [] = refl
same_text_self (c ∷ s) = ground (arith, same_text_self s)

pub same_text→eq : (s t : Text) → same_text s t ≡ true → s ≡ t
same_text→eq [] [] h = refl
same_text→eq [] (b ∷ t) h = cc
same_text→eq (a ∷ s) [] h = cc
same_text→eq (a ∷ s) (b ∷ t) h = ground (arith, same_text→eq s t)

pub same_text_iff : (s t : Text) → (same_text s t ≡ true) ↔ (s ≡ t)
same_text_iff s t = (same_text→eq s t, λ e. subst (λ z. same_text s z ≡ true) e (same_text_self s))

-- `toUpperCase` and `toLowerCase` of one ASCII unit
abbrev pub to_upper : ℕ → ℕ
to_upper letter = if ltb letter b'a' || ltb b'z' letter then letter else letter - 32

abbrev pub to_lower : ℕ → ℕ
to_lower letter = if ltb letter b'A' || ltb b'Z' letter then letter else letter + 32

-- the white space of `trim` and of `\s`
abbrev pub is_space : ℕ → Bool
is_space c =
    (leb 9 c && leb c 13)
    || c == 32
    || c == 160
    || c == 5760
    || (leb 8192 c && leb c 8202)
    || c == 8232
    || c == 8233
    || c == 8239
    || c == 8287
    || c == 12288
    || c == 65279

-- `trim`
abbrev pub trim_start : Text → Text
trim_start [] = []
trim_start (c ∷ s) = let rest = trim_start s in if is_space c then rest else c ∷ s

abbrev pub keep_end : ℕ → Text → Text
keep_end c [] = if is_space c then [] else c ∷ []
keep_end c (d ∷ s) = c ∷ d ∷ s

abbrev pub trim_end : Text → Text
trim_end [] = []
trim_end (c ∷ s) = keep_end c (trim_end s)

abbrev pub trim : Text → Text
trim s = trim_end (trim_start s)
