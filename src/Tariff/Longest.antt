-- ===== src/Tariff/Longest.antt =====
-- The tariff of a destination is the one with the longest matching prefix.
use go_cdr_fraud_detector.Base.{
  ◌≤◌, ◌≡◌, refl, ◌⊎◌, inl, ◌↔◌, true, ◌||◌, List, [], ◌∷◌, length, All, Among, arith,
}
use go_cdr_fraud_detector.Base.Text.{Str, codes, has_prefix}
use go_cdr_fraud_detector.Go.{Go}
use go_cdr_fraud_detector.Tariff.{Tariff, longest_from, lookup, catalog, fallback}

-- Every entry of the list that matches has a prefix no longer than that of `t`.
abbrev pub Dominates : {F : Type 0} → Str → List (Tariff F) → Tariff F → Type 0
Dominates msisdn ts t =
    All (λ s. has_prefix msisdn s.prefix ≡ true → length s.prefix ≤ length t.prefix) ts

-- `t` is a matching entry of the list, or it is `d` and no entry with a longer prefix matches.
abbrev pub IsLongest : {F : Type 0} → Str → Tariff F → List (Tariff F) → Tariff F → Type 0
IsLongest msisdn d ts t =
    ((t ≡ d) ⊎ (Among t ts × (has_prefix msisdn t.prefix ≡ true))) × Dominates msisdn ts t

longest_from_grows :
    {F : Type 0} (msisdn : Str) (best : Tariff F) (ts : List (Tariff F))
    → length best.prefix ≤ length (longest_from msisdn best ts).prefix
unfolding longest_from
longest_from_grows msisdn best [] = omega arith
longest_from_grows msisdn best (t ∷ ts) =
    ground (arith, longest_from_grows msisdn best ts, longest_from_grows msisdn t ts)

longest_from-IsLongest :
    {F : Type 0} (msisdn : Str) (best : Tariff F) (ts : List (Tariff F))
    → IsLongest msisdn best ts (longest_from msisdn best ts)
unfolding longest_from
longest_from-IsLongest msisdn best [] = (inl refl, tt)
longest_from-IsLongest msisdn best (t ∷ ts) = ground (
  arith,
  longest_from_grows msisdn best ts,
  longest_from_grows msisdn t ts,
  longest_from-IsLongest msisdn best ts,
  longest_from-IsLongest msisdn t ts,
)

-- Lookup answers with an entry of the catalog whose prefix the number has, or with the fallback,
-- and no entry whose prefix the number has has a longer prefix than the answer.
pub lookup-IsLongest :
    {F : Type 0} (go : Go F) (msisdn : Str)
    → IsLongest msisdn (fallback ⦃go = go⦄) (catalog ⦃go = go⦄) (lookup ⦃go = go⦄ msisdn)
unfolding lookup
lookup-IsLongest go msisdn = longest_from-IsLongest msisdn (fallback ⦃go = go⦄) (catalog ⦃go = go⦄)

-- Exactly the numbers that start with +881, +882, +883 or +900 have a premium tariff.
pub lookup_premium :
    {F : Type 0} (go : Go F) (msisdn : Str)
    → ((lookup ⦃go = go⦄ msisdn).premium ≡ true) ↔ (
        (has_prefix msisdn (codes "+881")
          || has_prefix msisdn (codes "+882")
          || has_prefix msisdn (codes "+883")
          || has_prefix msisdn (codes "+900"))
        ≡ true)
unfolding lookup
lookup_premium go msisdn = ground arith
