-- ===== src/Cache.antt =====
-- The in-memory cache with a time to live: apps/api/src/common/cache/ttl-cache.ts.
-- The clock is an argument of each call, in milliseconds; a time to live of 0 (in the source, of 0
-- or less) turns the cache off.
pub mod Freshness
mod Tests
use openlms.Base.{
  ℕ, ◌+◌, Bool, true, false, not, Option, none, some, String, ltb, leb, ◌==◌, if◌then◌else◌, List,
  [], ◌∷◌, filter, length,
}
use openlms.Base.Dict
use openlms.Base.Dict.{Dict, text_keys}
use openlms.Base.Result.{Result, ok, err}

pub record Entry (V : Type 0) : Type 0 where
  pub value : V
  pub expires_at : ℕ

abbrev pub Store : Type 0 → Type 0
Store V = Dict String (Entry V)

module _ {V : Type 0} (ttl_ms : ℕ) where
  unfoldable pub get : String → ℕ → Store V → Option V × Store V
  get key now store = if ttl_ms == 0 then (none, store) else elim (Dict.lookup key store) [
    | none ↦ (none, store)
    | some entry ↦
        if leb entry.expires_at now then (none, Dict.erase key store) else (some entry.value, store)
  ]

  unfoldable pub set : String → V → ℕ → Store V → Store V
  set key value now store =
      if ttl_ms == 0
      then store
      else Dict.insert key (record { value = value; expires_at = now + ttl_ms }) store

  -- `wrap`: the loader runs between two readings of the clock, and nothing else touches the
  -- cache meanwhile. An error of the loader passes through, and nothing is stored.
  unfoldable pub wrap : {E : Type 0} → String → Result E V → ℕ → ℕ → Store V → Result E V × Store V
  wrap key loaded now later store =
      let (cached, store') = get key now store in
      elim cached [
        | some value ↦ (ok value, store')
        | none ↦ elim loaded [
          | err e ↦ (err e, store')
          | ok value ↦ (ok value, set key value later store')
        ]
      ]

module _ {V : Type 0} where
  unfoldable pub invalidate : String → Store V → Store V
  invalidate key store = Dict.erase key store

  unfoldable pub invalidate_all : Store V → Store V
  invalidate_all store = []

  unfoldable pub prune : ℕ → Store V → Store V
  prune now store =
      if ltb (length store) 10000 then store else filter (λ e. not (leb e.1.expires_at now)) store
