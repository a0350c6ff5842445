-- ===== src/Cache/Freshness.antt =====
-- What the cache serves was loaded no longer ago than the time to live.
use openlms.Base.{
  ℕ, ◌+◌, ◌≤◌, ◌<◌, ◌≡◌, refl, sym, subst, ap, ◌∙◌, ◌⊎◌, inl, inr, Bool, Option, none, some, String,
  arith, eq_iff, if◌then◌else◌, ltb, leb, Bool-cases, Option-cases, [], ◌∷◌, ◌=ₛ◌, not, filter,
}
use openlms.Base.Dict
use openlms.Base.Dict.{text_keys}
use openlms.Base.Result.{Result, ok, err, Result-cases}
use openlms.Cache.{Entry, Store, get, set, wrap, prune}

module _ {V : Type 0} (ttl_ms : ℕ) (Loaded : String → V → ℕ → Type 0) where
  -- Every entry was loaded at the time that its expiry date tells.
  abbrev pub IsFresh : Store V → Type 0
  IsFresh [] = Unit
  IsFresh ((k, e) ∷ m) = ((t : ℕ) × Loaded k e.value t × (e.expires_at ≡ t + ttl_ms)) × IsFresh m

  lookup-IsFresh :
      (k : String) (m : Store V) {e : Entry V}
      → IsFresh m
      → Dict.lookup k m ≡ some e
      → (t : ℕ) × Loaded k e.value t × (e.expires_at ≡ t + ttl_ms)
  unfolding Dict.lookup
  lookup-IsFresh k [] h p = cc
  lookup-IsFresh k ((j, x) ∷ m) {e} h p = elim (Bool-cases (k =ₛ j)) [
    | inl t ↦
        let same : x ≡ e = ground arith in
        let (at, loaded, expiry) = h.0 in
        subst (λ y. (t : ℕ) × Loaded k y.value t × (y.expires_at ≡ t + ttl_ms)) same
          (at, subst (λ i. Loaded i x.value at) (sym ((eq_iff k j).0 t)) loaded, expiry)
    | inr t ↦ lookup-IsFresh k m h.1 (rw t at p)
  ]

  erase-IsFresh : (k : String) (m : Store V) → IsFresh m → IsFresh (Dict.erase k m)
  unfolding Dict.erase
  erase-IsFresh k [] h = tt
  erase-IsFresh k ((j, x) ∷ m) h = ground (arith, erase-IsFresh k m h.1)

  insert-IsFresh :
      (k : String) (v : V) (now : ℕ) (m : Store V)
      → Loaded k v now
      → IsFresh m
      → IsFresh (Dict.insert k (record { value = v; expires_at = now + ttl_ms }) m)
  unfolding Dict.insert
  insert-IsFresh k v now [] l h = ((now, l, refl), tt)
  insert-IsFresh k v now ((j, x) ∷ m) l h = elim (Bool-cases (k =ₛ j)) [
    | inl t ↦ rw t ((now, subst (λ i. Loaded i v now) ((eq_iff k j).0 t) l, refl), h.1)
    | inr t ↦ rw t (h.0, insert-IsFresh k v now m l h.1)
  ]

  filter-IsFresh : (p : String × Entry V → Bool) (m : Store V) → IsFresh m → IsFresh (filter p m)
  filter-IsFresh p [] h = tt
  filter-IsFresh p (x ∷ m) h = ground (arith, filter-IsFresh p m h.1)

  -- A hit was loaded less than the time to live ago, and looking keeps the cache fresh.
  get-IsFresh :
      (k : String) (now : ℕ) (m : Store V)
      → IsFresh m
      → IsFresh (get ttl_ms k now m).1
        × ((v : V) → (get ttl_ms k now m).0 ≡ some v → (t : ℕ) × Loaded k v t × (now < t + ttl_ms))
  unfolding get
  get-IsFresh k now m h = elim (Option-cases (Dict.lookup k m)) [
    | inl miss ↦ (ground arith, λ v q. absurd (ground arith))
    | inr (e, hit) ↦
        let (t, loaded, expiry) = lookup-IsFresh k m h hit in
        (
          ground (arith, erase-IsFresh k m h),
          λ v q.
              let same : e.value ≡ v = ground arith in
              (t, subst (λ x. Loaded k x t) same loaded, ground arith),
        )
  ]

  set-IsFresh :
      (k : String) (v : V) (now : ℕ) (m : Store V)
      → Loaded k v now
      → IsFresh m
      → IsFresh (set ttl_ms k v now m)
  unfolding set
  set-IsFresh k v now m l h = ground (arith, insert-IsFresh k v now m l h)

  module _ {E : Type 0} (k : String) where
    wrap-eq_hit :
        (loaded : Result E V) (now later : ℕ) (m : Store V) {c : V}
        → (get ttl_ms k now m).0 ≡ some c
        → wrap ttl_ms k loaded now later m ≡ (ok c, (get ttl_ms k now m).1)
    unfolding wrap
    wrap-eq_hit loaded now later m hit = ground arith

    wrap-eq_miss :
        (v : V) (now later : ℕ) (m : Store V)
        → (get ttl_ms k now m).0 ≡ none
        → wrap ttl_ms {E = E} k (ok v) now later m
          ≡ (ok v, set ttl_ms k v later (get ttl_ms k now m).1)
    unfolding wrap
    wrap-eq_miss v now later m miss = ground arith

    wrap-eq_err :
        (x : E) (now later : ℕ) (m : Store V)
        → (get ttl_ms k now m).0 ≡ none
        → wrap ttl_ms k (err x) now later m ≡ (err x, (get ttl_ms k now m).1)
    unfolding wrap
    wrap-eq_err x now later m miss = ground arith

  served :
      {E : Type 0} {k : String} {now later : ℕ} {o : Option V} {c : V} (v : V)
      → o ≡ some c
      → ((w : V) → o ≡ some w → (t : ℕ) × Loaded k w t × (now < t + ttl_ms))
      → ◌≡◌ {A = Result E V} (ok c) (ok v)
      → (t : ℕ) × Loaded k v t × ((now < t + ttl_ms) ⊎ (t ≡ later))
  served {c} v hit fresh q =
      let same : c ≡ v = ground arith in
      let (t, l, b) = fresh v (hit ∙ ap some same) in (t, l, inl b)

  -- `wrap` serves a value that the loader gave less than the time to live ago, or gives just
  -- now; it fails only with the loader's error; and what it leaves in the cache is fresh again.
  pub wrap-IsFresh :
      {E : Type 0} (k : String) (loaded : Result E V) (now later : ℕ) (m : Store V)
      → IsFresh m
      → ((v : V) → loaded ≡ ok v → Loaded k v later)
      → IsFresh (wrap ttl_ms k loaded now later m).1
        × ((v : V)
            → (wrap ttl_ms k loaded now later m).0 ≡ ok v
            → (t : ℕ) × Loaded k v t × ((now < t + ttl_ms) ⊎ (t ≡ later)))
        × ((e : E) → (wrap ttl_ms k loaded now later m).0 ≡ err e → loaded ≡ err e)
  wrap-IsFresh k loaded now later m h gives =
      let (kept, fresh) = get-IsFresh k now m h in
      elim (Option-cases (get ttl_ms k now m).0) [
        | inr (c, hit) ↦
            rw (wrap-eq_hit k loaded now later m hit)
              (kept, λ v q. served v hit fresh q, λ e q. absurd (ground arith))
        | inl miss ↦ elim (Result-cases loaded) [
          | inl (x, e) ↦
              rw (e, wrap-eq_miss k x now later m miss)
                (
                  set-IsFresh k x later (get ttl_ms k now m).1 (gives x e) kept,
                  λ v q. (later, gives v (e ∙ q), inr refl),
                  λ e q. absurd (ground arith),
                )
          | inr (x, e) ↦
              rw (e, wrap-eq_err k x now later m miss)
                (kept, λ v q. absurd (ground arith), λ e q. q)
        ]
      ]

module _ {V : Type 0} (ttl_ms : ℕ) where
  -- With the cache on, a stored value is served until its time to live is over and not from then
  -- on, and what is stored under the other keys is served as before.
  get-set :
      (k j : String) (v : V) (now t : ℕ) (m : Store V)
      → 0 < ttl_ms
      → (get ttl_ms j t (set ttl_ms k v now m)).0
        ≡ (if j =ₛ k then (if ltb t (now + ttl_ms) then some v else none) else (get ttl_ms j t m).0)
  unfolding get set
  get-set k j v now t m on =
      ground (arith, Dict.lookup-insert k j (record { value = v; expires_at = now + ttl_ms }) m)

  -- Pruning is not seen: from then on, every key is answered as it would have been.
  get-prune :
      (k : String) (now t : ℕ) (m : Store V)
      → Dict.IsMap m
      → now ≤ t
      → (get ttl_ms k t (prune now m)).0 ≡ (get ttl_ms k t m).0
  unfolding get prune
  get-prune k now t m h le =
      ground (arith, Dict.lookup-filter (λ e. not (leb e.1.expires_at now)) k m h)
