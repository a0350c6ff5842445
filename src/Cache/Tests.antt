-- ===== src/Cache/Tests.antt =====
-- Runs of the cache, with numbers for values that tell when they were loaded.
use openlms.Base.{ℕ, ◌+◌, ◌<◌, ◌≡◌, refl, ◌⊎◌, String, [], ◌∷◌}
use openlms.Base.Dict
use openlms.Base.Dict.{text_keys}
use openlms.Base.Result.{Result, ok, err}
use openlms.Cache.{Store, get, set, wrap}
use openlms.Cache.Freshness.{IsFresh, wrap-IsFresh}

abbrev store : Store ℕ
store = ("a", record { value = 5; expires_at = 65 }) ∷ []

abbrev At : String → ℕ → ℕ → Type 0
At k v t = v ≡ t

abbrev reload : Result ℕ ℕ
reload = ok 71

wrap-expired : (wrap 60 "a" reload 70 71 store).0 ≡ ok 71
unfolding wrap get set Dict.lookup Dict.erase Dict.insert
wrap-expired = refl

wrap-hit : (wrap 60 "a" reload 64 71 store).0 ≡ ok 5
unfolding wrap get set Dict.lookup Dict.erase Dict.insert
wrap-hit = refl

wrap-IsFresh_example :
    IsFresh 60 At (wrap 60 "a" reload 70 71 store).1
    × ((v : ℕ)
        → (wrap 60 "a" reload 70 71 store).0 ≡ ok v
        → (t : ℕ) × At "a" v t × ((70 < t + 60) ⊎ (t ≡ 71)))
    × ((e : ℕ) → (wrap 60 "a" reload 70 71 store).0 ≡ err e → reload ≡ err e)
wrap-IsFresh_example = wrap-IsFresh 60 At "a" reload 70 71 store ((5, refl, refl), tt) (λ v p. cc)
