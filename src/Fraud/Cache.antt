-- ===== src/Fraud/Cache.antt =====
-- services/fraud/cache.go: the cache-aside store of reference data. The loader is a gRPC call, so
-- its result is an argument: what `load()` returns if it is called now. The mutex is not modelled;
-- the fraud service calls `get` from one goroutine.
pub mod Freshness
pub mod Holds
use go_cdr_fraud_detector.Base.{
  ◌≡◌, refl, ◌⊎◌, inl, inr, Bool, true, false, Option, none, some, [], if◌then◌else◌,
}
use go_cdr_fraud_detector.Base.Int.{ltb_ℤ}
use go_cdr_fraud_detector.Base.Text.{Str}
use go_cdr_fraud_detector.Base.Dict.{Dict, lookup, insert}
use go_cdr_fraud_detector.Clock.{Time, Duration, sub_time}

-- (V, error): a value, or an error.
pub data Outcome {ℓ} (E : Type ℓ) (V : Type ℓ) : Type ℓ where
  ok : V → Outcome E V
  err : E → Outcome E V

pub Outcome-cases :
    {E V : Type 0} (r : Outcome E V) → ((v : V) × (r ≡ ok v)) ⊎ ((e : E) × (r ≡ err e))
Outcome-cases (ok v) = inl (v, refl)
Outcome-cases (err e) = inr (e, refl)

pub record CacheEntry (V : Type 0) : Type 0 where
  pub val : V
  pub at : Time

pub record RefCache (V : Type 0) : Type 0 where
  pub ttl : Duration
  pub m : Dict (CacheEntry V)

unfoldable pub new_ref_cache : {V : Type 0} → Duration → RefCache V
new_ref_cache ttl = record { ttl = ttl; m = [] }

-- `e, ok := c.m[key]; ok && now.Sub(e.at) < c.ttl`: the value of a fresh entry.
unfoldable pub fresh : {V : Type 0} → RefCache V → Str → Time → Option V
fresh c key now = elim (lookup key c.m) [
  | none ↦ none
  | some e ↦ if ltb_ℤ (sub_time now e.at) c.ttl then some e.val else none
]

-- The part of `get` behind a miss.
unfoldable pub fill :
    {E V : Type 0} → RefCache V → Str → Time → Outcome E V → RefCache V × Outcome E V
fill c key now (err e) = (c, err e)
fill c key now (ok v) = (record c { m = insert key (record { val = v; at = now }) c.m }, ok v)

-- The result says whether `load` was called, in its last part.
unfoldable pub get :
    {E V : Type 0} → RefCache V → Str → Time → Outcome E V → RefCache V × Outcome E V × Bool
unfolding fresh fill
get c key now load = elim (fresh c key now) [
  | some v ↦ (c, ok v, false)
  | none ↦ let (c', r) = fill c key now load in (c', r, true)
]
