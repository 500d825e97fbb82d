-- ===== src/Generator/Pool.antt =====
-- The subscribers of the pool.
use go_cdr_fraud_detector.Base.{
  ℕ, zero, suc, ◌<◌, ◌≡◌, refl, ◌⊎◌, inl, inr, true, some, List, [], ◌∷◌, ◌++◌, length,
  length-append, All, Among, Bool-cases, arith, ltb, ◌≤◌, none,
}
use go_cdr_fraud_detector.Base.Int.{ℤ, pos, ltb_ℤ, ◌<ℤ◌, ◌≤ℤ◌}
use go_cdr_fraud_detector.Base.Text.{Str, codes, has_prefix, has_prefix-append}
use go_cdr_fraud_detector.Base.Decimal.{zero_padded, length-zero_padded}
use go_cdr_fraud_detector.Go.{Go}
use go_cdr_fraud_detector.Geo
use go_cdr_fraud_detector.Geo.{Cell}
use go_cdr_fraud_detector.Geo.Lookups.{lookup-Among_iff}
use go_cdr_fraud_detector.Generator.{
  World, Subscriber, new_subscriber, fill_pool, make_pool, pool_len,
}
use go_cdr_fraud_detector.Generator.Runs.{
  IsRandom, Runs, Runs-pure, Runs-bind, Runs-rand_int, Runs-choose, Runs-weaken,
}

-- A Turkish mobile number: 13 bytes, of which the first are +905.
abbrev pub IsMobile : Str → Type 0
IsMobile s = (length s ≡ 13) × (has_prefix s (codes "+905") ≡ true)

pub padded-IsMobile : (n : ℕ) → n < 1_000_000_000 → IsMobile (codes "+905" ++ zero_padded 9 n)
padded-IsMobile n small = (
  omega (arith, length-append {0} (codes "+905") (zero_padded 9 n), length-zero_padded 8 n small),
  has_prefix-append (codes "+905") (zero_padded 9 n),
)

-- A mobile number, and a home in the catalog.
pub record IsSubscriber {F : Type 0} (go : Go F) (s : Subscriber) : Type 0 where
  pub mobile : IsMobile s.msisdn
  pub home : Cell F
  pub at_home : Geo.lookup ⦃go = go⦄ s.home_cell ≡ some home

-- A pool of `n` subscribers, and of one if `n` is not positive.
abbrev pub IsPool : {F : Type 0} → Go F → ℤ → List Subscriber → Type 0
IsPool go n pool =
    (((pos 1 ≤ℤ n) × (pos (length pool) ≡ n)) ⊎ ((n <ℤ pos 1) × (length pool ≡ 1)))
    × All (IsSubscriber go) pool

pub catalog_nonempty : {F : Type 0} (go : Go F) → 0 < length (Geo.catalog ⦃go = go⦄)
unfolding Geo.catalog
catalog_nonempty go = omega arith

module _ {F W E : Type 0} (go : Go F) (world : World W E) (caller : Str)
    (random : IsRandom world) where
  new_subscriber-IsSubscriber : Runs world caller 0 (IsSubscriber go) (new_subscriber world go)
  unfolding new_subscriber
  new_subscriber-IsSubscriber =
      Runs-bind world caller 0 0 (λ n. n < 1_000_000_000)
        (Runs-rand_int world caller random 1_000_000_000 (omega arith))
        λ n small.
          Runs-bind world caller 0 0 (λ c. Among c (Geo.catalog ⦃go = go⦄))
            (Runs-choose world caller random (Geo.catalog ⦃go = go⦄) (catalog_nonempty go))
            λ c member. Runs-pure world caller _ (record {
              mobile = padded-IsMobile n small;
              home = c;
              at_home = (lookup-Among_iff go c.id c).1 (member, refl);
            })

  fill_pool-All :
      (n : ℕ)
      → Runs world caller 0
          (λ pool. (length pool ≡ n) × All (IsSubscriber go) pool)
          (fill_pool world go n)
  unfolding fill_pool
  fill_pool-All zero = Runs-pure world caller [] (refl, tt)
  fill_pool-All (suc n) =
      Runs-bind world caller 0 0 (IsSubscriber go) new_subscriber-IsSubscriber λ s good.
        Runs-bind world caller 0 0 (λ pool. (length pool ≡ n) × All (IsSubscriber go) pool)
          (fill_pool-All n)
          (λ rest h. Runs-pure world caller (s ∷ rest) (omega (arith, h.0), (good, h.1)))

-- How makePool ends.
abbrev pub Made : {F W E : Type 0} → Go F → World W E → Str → ℤ → Type 0
Made {W} go world caller n =
    ((world.max_make < pool_len n) × ((w : W) → make_pool world go n w ≡ none))
    ⊎ ((pool_len n ≤ world.max_make) × Runs world caller 0 (IsPool go n) (make_pool world go n))

-- makePool panics, in every state, if the number it is given is above the greatest length that make
-- allows; otherwise it does not panic, and returns a pool of that many subscribers (of one, if the
-- number is not positive), each with a number of 13 bytes that starts with +905 and with a home
-- cell that the catalog knows. A number below 1 is treated as 1.
pub make_pool-IsPool :
    {F W E : Type 0} (go : Go F) (world : World W E) (caller : Str) (n : ℤ)
    → IsRandom world
    → Made go world caller n
unfolding make_pool
make_pool-IsPool go world caller n random = elim (Bool-cases (ltb world.max_make (pool_len n))) [
  | inl long ↦ inl (ground (arith, long), λ w. rw (long, make_pool))
  | inr fits ↦ inr (
    ground (arith, fits),
    elim (Bool-cases (ltb_ℤ n (pos 1))) [
      | inl low ↦
          rw (fits, make_pool)
            (Runs-weaken world caller
              (λ pool h. (inr (ground (arith, low), ground (arith, low, h.0)), h.1))
              (fill_pool-All go world caller random (pool_len n)))
      | inr high ↦
          rw (fits, make_pool)
            (Runs-weaken world caller
              (λ pool h. (inl (ground (arith, high), ground (arith, high, h.0)), h.1))
              (fill_pool-All go world caller random (pool_len n)))
    ],
  )
]
