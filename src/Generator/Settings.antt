-- ===== src/Generator/Settings.antt =====
-- services/generator/main.go: the settings that main reads, and the intervals of its tickers.
use native.Mathlib.Nat.{le-div_iff_mul-le}
use go_cdr_fraud_detector.Base.{
  ℕ, zero, suc, ◌<◌, ◌≤◌, ◌≡◌, subst, ◌↔◌, ◌/◌, ◌^◌, Option, none, some, arith, if◌then◌else◌,
}
use go_cdr_fraud_detector.Base.Int.{ℤ, pos, negsuc, ltb_ℤ, pos_part, ◌*ℤ◌, ◌≤ℤ◌, ◌<ℤ◌}
use go_cdr_fraud_detector.Base.Int64.{mul64, InInt64, wrap64-InInt64, wrap64_of_InInt64}
use go_cdr_fraud_detector.Base.Text.{Str, codes}
use go_cdr_fraud_detector.Clock.{Duration, second}
use go_cdr_fraud_detector.Go.{Go}
use go_cdr_fraud_detector.Platform.{getenv}

-- max(n, 1)
abbrev pub max_one : ℤ → ℤ
max_one n = if ltb_ℤ n (pos 1) then pos 1 else n

pub record Settings : Type 0 where
  pub rate : ℤ
  pub pool_size : ℤ
  pub burst_every : Duration
  pub burst_size : ℤ
  pub travel_every : Duration
  pub irsf_every : Duration
  pub irsf_calls : ℤ

-- So many seconds fit into a duration.
max_one-InInt64 : (n : ℤ) → InInt64 (max_one n *ℤ second) ↔ (n ≤ℤ pos 9_223_372_036)
unfolding ◌*ℤ◌
max_one-InInt64 (pos n) = ground arith
max_one-InInt64 (negsuc n) = ground arith

mul64_exact : (n : ℤ) → (mul64 (max_one n) second ≡ max_one n *ℤ second) ↔ (n ≤ℤ pos 9_223_372_036)
unfolding mul64
mul64_exact n =
    let x = max_one n *ℤ second in
    (
      λ h. (max_one-InInt64 n).0 (subst InInt64 h (wrap64-InInt64 x)),
      λ h. wrap64_of_InInt64 x ((max_one-InInt64 n).1 h),
    )

module _ {F : Type 0} (go : Go F) where
  unfoldable pub atoi : Str → ℤ
  atoi s = elim (go.parse_int s) [ none ↦ pos 0 | some n ↦ n ]

  unfoldable pub seconds : Str → Duration
  unfolding atoi mul64
  seconds s = mul64 (max_one (atoi s)) second

  unfoldable pub read_settings : (Str → Option Str) → Settings
  unfolding atoi seconds
  read_settings env = record {
    rate = atoi (getenv env (codes "RATE") (codes "10"));
    pool_size = atoi (getenv env (codes "MSISDN_POOL") (codes "200"));
    burst_every = seconds (getenv env (codes "BURST_EVERY") (codes "15"));
    burst_size = atoi (getenv env (codes "BURST_SIZE") (codes "15"));
    travel_every = seconds (getenv env (codes "TRAVEL_EVERY") (codes "20"));
    irsf_every = seconds (getenv env (codes "IRSF_EVERY") (codes "25"));
    irsf_calls = atoi (getenv env (codes "IRSF_CALLS") (codes "4"));
  }

  -- The interval is exactly the given number of seconds (one second, if the number is not positive or
  -- the text is no number) if and only if that number is at most 9223372036; beyond it the product
  -- overflows.
  pub seconds-max_one :
      (s : Str) → (seconds s ≡ max_one (atoi s) *ℤ second) ↔ (atoi s ≤ℤ pos 9_223_372_036)
  unfolding seconds
  seconds-max_one s = mul64_exact (atoi s)

-- time.Second / time.Duration(max(rate, 1))
unfoldable pub normal_every : ℤ → Duration
normal_every rate = pos (10 ^ 9 / pos_part (max_one rate))

quotient_pos : (k : ℕ) → 0 < 10 ^ 9 / suc k → suc k ≤ 10 ^ 9
quotient_pos k h =
    omega (arith, (le-div_iff_mul-le {k = suc k} {x = 1} {y = 10 ^ 9} (omega arith)).0 h)

pos_quotient : (k : ℕ) → suc k ≤ 10 ^ 9 → 0 < 10 ^ 9 / suc k
pos_quotient k h =
    (le-div_iff_mul-le {k = suc k} {x = 1} {y = 10 ^ 9} (omega arith)).1 (omega (arith, h))

-- The ticker of the normal traffic has a positive interval exactly if the rate is at most 10 ^ 9 a
-- second.
pub normal_every_pos : (rate : ℤ) → (pos 0 <ℤ normal_every rate) ↔ (rate ≤ℤ pos 1_000_000_000)
unfolding normal_every
normal_every_pos (pos zero) = ground arith
normal_every_pos (pos (suc k)) = ground (arith, quotient_pos k, pos_quotient k)
normal_every_pos (negsuc k) = ground arith
