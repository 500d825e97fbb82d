-- ===== src/Fraud/Cache/Holds.antt =====
-- The cache holds nothing but what its loader returned.
use go_cdr_fraud_detector.Base.{◌≡◌, refl, subst, some, inl, inr, Bool-cases, Option-cases, arith}
use go_cdr_fraud_detector.Base.Text.{Str, str_eq, str_eq_iff}
use go_cdr_fraud_detector.Base.Dict.{lookup, insert, lookup-insert, lookup-nil}
use go_cdr_fraud_detector.Clock.{Time, Duration}
use go_cdr_fraud_detector.Fraud.Cache.{
  Outcome, ok, err, RefCache, CacheEntry, new_ref_cache, fresh, fill, get,
}

module _ {V : Type 0} (Good : Str → V → Type 0) where
  -- What holds of every value that is stored, with its key.
  abbrev pub Holds : RefCache V → Type 0
  Holds c = (key : Str) (e : CacheEntry V) → lookup key c.m ≡ some e → Good key e.val

  pub new_ref_cache-Holds : (ttl : Duration) → Holds (new_ref_cache ttl)
  unfolding new_ref_cache
  new_ref_cache-Holds ttl key e h = absurd (ground (arith, h, lookup-nil {V = CacheEntry V} key))

  insert-Holds :
      (c : RefCache V) (key : Str) (v : V) (now : Time)
      → Holds c
      → Good key v
      → Holds (record c { m = insert key (record { val = v; at = now }) c.m })
  insert-Holds c key v now held good k e h = elim (Bool-cases (str_eq key k)) [
    | inl same ↦
        let stored : ◌≡◌ {A = CacheEntry V} (record { val = v; at = now }) e =
          ground (arith, h, same, lookup-insert key k (record { val = v; at = now }) c.m) in
        subst (λ (x : CacheEntry V). Good k x.val) stored
          (subst (λ j. Good j v) ((str_eq_iff key k).0 same) good)
    | inr other ↦
        held k e (ground (arith, h, other, lookup-insert key k (record { val = v; at = now }) c.m))
  ]

  fresh-Holds :
      (c : RefCache V) (key : Str) (now : Time) (v : V)
      → Holds c
      → fresh c key now ≡ some v
      → Good key v
  unfolding fresh
  fresh-Holds c key now v held h = elim (Option-cases (lookup key c.m)) [
    | inl missing ↦ absurd (ground (arith, h, missing))
    | inr (e, found) ↦ subst (Good key) (ground (arith, h, found)) (held key e found)
  ]

  -- Whatever `get` returns and stores holds, if it holds of the loader's result.
  pub get-Holds :
      {E : Type 0} (c : RefCache V) (key : Str) (now : Time) (load : Outcome E V)
      → Holds c
      → ((v : V) → load ≡ ok v → Good key v)
      → Holds (get c key now load).0 × ((v : V) → (get c key now load).1 ≡ ok v → Good key v)
  unfolding get fill
  get-Holds {E} c key now load held loads = elim (Option-cases (fresh c key now)) [
    | inr (v, kept) ↦ (
      rw (kept, get) held,
      λ u h.
          subst (Good key) (ground (arith, rw (kept, get) at h))
            (fresh-Holds c key now v held kept),
    )
    | inl stale ↦ rw (stale, get) (filled load loads)
  ]
    where
      filled :
          (r : Outcome E V)
          → ((v : V) → r ≡ ok v → Good key v)
          → Holds (fill c key now r).0 × ((v : V) → (fill c key now r).1 ≡ ok v → Good key v)
      filled (ok v) ok_good = (insert-Holds c key v now held (ok_good v refl), ok_good)
      filled (err e) ok_good = (held, ok_good)
