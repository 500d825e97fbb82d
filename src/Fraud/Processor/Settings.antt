-- ===== src/Fraud/Processor/Settings.antt =====
-- services/fraud/main.go: the settings that main reads from the environment.
use go_cdr_fraud_detector.Base.{Option, none, some, arith, if◌then◌else◌}
use go_cdr_fraud_detector.Base.Int.{ℤ, pos, ltb_ℤ, ◌≤ℤ◌}
use go_cdr_fraud_detector.Base.Int64.{mul64}
use go_cdr_fraud_detector.Base.Text.{Str, codes}
use go_cdr_fraud_detector.Clock.{Duration, second}
use go_cdr_fraud_detector.Go.{Go}
use go_cdr_fraud_detector.Platform.{getenv}
use go_cdr_fraud_detector.Fraud.Processor.{Processor}

-- `if maxAttempts < 1 { maxAttempts = 1 }`
unfoldable pub at_least_one : ℤ → ℤ
at_least_one n = if ltb_ℤ n (pos 1) then pos 1 else n

module _ {F : Type 0} (go : Go F) where
  unfoldable pub atoi : Str → ℤ
  atoi s = elim (go.parse_int s) [ none ↦ pos 0 | some n ↦ n ]

  -- The processor that main builds; its caches are `new_memory`.
  unfoldable pub new_processor : (Str → Option Str) → Processor F
  unfolding atoi at_least_one
  new_processor env =
      let window_seconds = atoi (getenv env (codes "VELOCITY_WINDOW_SEC") (codes "60")) in
      let irsf_seconds = atoi (getenv env (codes "IRSF_WINDOW_SEC") (codes "300")) in
      record {
        vel = record {
          window_seconds = window_seconds;
          threshold = atoi (getenv env (codes "VELOCITY_THRESHOLD") (codes "12"));
        };
        travel = record {
          max_speed_kmh =
              go.of_int (atoi (getenv env (codes "IMPOSSIBLE_TRAVEL_MAX_KMH") (codes "1000")));
        };
        irsf_rule = record {
          window_seconds = irsf_seconds;
          spend_threshold =
              go.of_int (atoi (getenv env (codes "IRSF_SPEND_THRESHOLD") (codes "50")));
        };
        window_ms = mul64 window_seconds (pos 1000);
        irsf_window_ms = mul64 irsf_seconds (pos 1000);
        seen_ttl = mul64 (mul64 window_seconds (pos 3)) second;
        alert_cooldown = mul64 (atoi (getenv env (codes "ALERT_COOLDOWN_SEC") (codes "60"))) second;
        max_attempts = at_least_one (atoi (getenv env (codes "MAX_ATTEMPTS") (codes "5")));
        retry_backoff = second;
      }

  unfoldable pub ref_cache_ttl : (Str → Option Str) → Duration
  unfolding atoi
  ref_cache_ttl env =
      mul64 (atoi (getenv env (codes "REFERENCE_CACHE_TTL_SEC") (codes "300"))) second

  pub max_attempts-ge-one : (env : Str → Option Str) → pos 1 ≤ℤ (new_processor env).max_attempts
  unfolding new_processor
  max_attempts-ge-one env = ground arith
