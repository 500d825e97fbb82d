-- ===== src/Generator/Fraudsters.antt =====
-- The destinations and cells of the injected fraud are what the rules look for.
use go_cdr_fraud_detector.Base.{
  ◌<◌, ◌≡◌, refl, sym, subst, inl, inr, true, none, some, Option-cases, List, [], ◌∷◌, ◌++◌, length,
  Among, Among-map-keep, Among-keep-map, arith,
}
use go_cdr_fraud_detector.Base.Int.{pos}
use go_cdr_fraud_detector.Base.Text.{Str, has_prefix-append}
use go_cdr_fraud_detector.Base.Decimal.{zero_padded}
use go_cdr_fraud_detector.Go.{Go}
use go_cdr_fraud_detector.Geo
use go_cdr_fraud_detector.Geo.{Cell}
use go_cdr_fraud_detector.Tariff
use go_cdr_fraud_detector.Tariff.Longest.{lookup_premium}
use go_cdr_fraud_detector.Generator.{
  World, pure, far_cells, far_cell_from, premium_prefixes, premium_callee, choose,
}
use go_cdr_fraud_detector.Generator.Runs.{
  IsRandom, Runs, Runs-pure, Runs-bind, Runs-rand_int, Runs-choose, Runs-weaken,
}

abbrev IsPremium : {F : Type 0} → Go F → Str → Type 0
IsPremium go s = (Tariff.lookup ⦃go = go⦄ s).premium ≡ true

-- Whatever follows a premium prefix, the destination is premium.
premium_prefixes-IsPremium :
    {F : Type 0} (go : Go F) (p rest : Str)
    → Among p (premium_prefixes go)
    → IsPremium go (p ++ rest)
unfolding premium_prefixes Tariff.catalog
premium_prefixes-IsPremium go p rest m =
    (lookup_premium go (p ++ rest)).1 (ground (arith, m, has_prefix-append p rest))

some_prefix : {F : Type 0} (go : Go F) → 0 < length (premium_prefixes go)
unfolding premium_prefixes Tariff.catalog
some_prefix go = omega arith

module _ {F W E : Type 0} (go : Go F) (world : World W E) (caller : Str)
    (random : IsRandom world) where
  -- premiumCallee does not panic, and the tariff of the number that it returns is premium, so that
  -- the call accrues IRSF spend.
  pub premium_callee-IsPremium :
      Runs world caller 0
        (λ s. (Tariff.lookup ⦃go = go⦄ s).premium ≡ true)
        (premium_callee world go)
  unfolding premium_callee
  premium_callee-IsPremium =
      Runs-bind world caller 0 0 (λ p. Among p (premium_prefixes go))
        (Runs-choose world caller random (premium_prefixes go) (some_prefix go))
        λ p member.
          Runs-bind world caller 0 0 (λ n. n < 10_000_000)
            (Runs-rand_int world caller random 10_000_000 (omega arith))
            (λ n small.
              Runs-pure world caller _ (premium_prefixes-IsPremium go p (zero_padded 7 n) member))

-- The cell is more than 2000 km from home, as the program measures it.
abbrev pub IsFar : {F : Type 0} → Go F → Cell F → Cell F → Type 0
IsFar go home c =
    go.lt (go.of_int (pos 2000)) (Geo.haversine_km ⦃go = go⦄ home.lat home.lon c.lat c.lon) ≡ true

-- Where a jump from the cell `home_id` goes: to a far cell of the catalog, or nowhere, if the cell is
-- unknown or no cell is far.
pub data Destination {F : Type 0} (go : Go F) (home_id id : Str) : Type 0 where
  jumps :
      {home : Cell F} (c : Cell F)
      → Geo.lookup ⦃go = go⦄ home_id ≡ some home
      → Among c (Geo.catalog ⦃go = go⦄)
      → c.id ≡ id
      → IsFar go home c
      → Destination go home_id id
  unknown : Geo.lookup ⦃go = go⦄ home_id ≡ none → id ≡ home_id → Destination go home_id id
  stays :
      {home : Cell F}
      → Geo.lookup ⦃go = go⦄ home_id ≡ some home
      → ((c : Cell F) → Among c (Geo.catalog ⦃go = go⦄) → ¬ (IsFar go home c))
      → id ≡ home_id
      → Destination go home_id id

far_cells_nil :
    {F : Type 0} (go : Go F) (home : Cell F)
    → far_cells go home ≡ []
    → (c : Cell F) → Among c (Geo.catalog ⦃go = go⦄)
    → ¬ (IsFar go home c)
unfolding far_cells
far_cells_nil go home none_far c member far =
    subst (Among c.id) none_far (Among-keep-map (λ c. c.id) _ (Geo.catalog ⦃go = go⦄) c member far)

module _ {F W E : Type 0} (go : Go F) (world : World W E) (caller : Str)
    (random : IsRandom world) where
  -- farCellFrom does not panic, and returns the id of a catalog cell more than 2000 km from the given
  -- cell; only if that cell is unknown, or no cell is that far, it returns the given id.
  pub far_cell_from-Destination :
      (home_id : Str)
      → Runs world caller 0 (Destination go home_id) (far_cell_from world go home_id)
  unfolding far_cell_from
  far_cell_from-Destination home_id = elim (Option-cases (Geo.lookup ⦃go = go⦄ home_id)) [
    | inl missing ↦
        rw (missing, far_cell_from) (Runs-pure world caller home_id (unknown missing refl))
    | inr (home, known) ↦ rw (known, far_cell_from) (split home known (far_cells go home) refl)
  ]
    where
      split :
          (home : Cell F)
          → Geo.lookup ⦃go = go⦄ home_id ≡ some home
          → (cells : List Str) → far_cells go home ≡ cells
          → Runs world caller 0
              (Destination go home_id)
              (elim cells [ [] ↦ pure home_id | c ∷ cs ↦ choose world (c ∷ cs) ])
      split home known [] e =
          Runs-pure world caller home_id (stays known (far_cells_nil go home e) refl)
      split home known (c ∷ cs) e =
          Runs-weaken world caller
            (λ id member.
              let (d, i, far, same) =
                Among-map-keep _ _ (Geo.catalog ⦃go = go⦄) id (subst (Among id) (sym e) member) in
              jumps d known i same far)
            (Runs-choose world caller random (c ∷ cs) (omega arith))
