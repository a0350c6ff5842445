-- ===== src/Access/Suffix.antt =====
-- The scope of a code is read from the text behind its last colon.
use openlms.Base.{
  ℕ, ◌≡◌, ◌≢◌, sym, ◌∙◌, List, [], ◌∷◌, ◌++◌, map, String, arith, ◌==◌, if◌then◌else◌, All,
}
use mathlib.Core.List.{append-nil, append_assoc}
use openlms.Access.{last_part, scope_named, parse_scope_from_code}
use openlms.Base.Texts.{codes, to_upper}

last_part-eq-append : (cur s : List ℕ) → All (λ c. c ≢ b':') s → last_part cur s ≡ cur ++ s
unfolding last_part
last_part-eq-append cur [] h = sym (append-nil cur)
last_part-eq-append cur (c ∷ s) (n, h) =
    let next : (if c == b':' then [] else cur ++ c ∷ []) ≡ cur ++ c ∷ [] = ground arith in
    rw next (last_part-eq-append (cur ++ c ∷ []) s h ∙ append_assoc cur (c ∷ []) s)

last_part-append_colon :
    (cur p s : List ℕ) → All (λ c. c ≢ b':') s → last_part cur (p ++ b':' ∷ s) ≡ s
unfolding last_part
last_part-append_colon cur [] s h = last_part-eq-append [] s h
last_part-append_colon cur (c ∷ p) s h =
    last_part-append_colon (if c == b':' then [] else cur ++ c ∷ []) p s h

-- Whatever stands before its last colon, the scope of a code is that of the text behind it.
parse_scope-suffix :
    (code : String) (p s : List ℕ)
    → codes code ≡ p ++ b':' ∷ s
    → All (λ c. c ≢ b':') s
    → parse_scope_from_code code ≡ scope_named (map to_upper s)
unfolding parse_scope_from_code
parse_scope-suffix code p s split no_colon = rw (split, last_part-append_colon [] p s no_colon)
