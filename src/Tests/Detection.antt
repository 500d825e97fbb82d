-- ===== src/Tests/Detection.antt =====
-- A third call of a subscriber, over the Redis of one sorted set.
use go_cdr_fraud_detector.Base.{◌≡◌, ◌⊎◌, ◌^◌, ◌*◌, All, [], ◌∷◌, ◌++◌, arith}
use go_cdr_fraud_detector.Base.Int.{pos, ◌-ℤ◌}
use go_cdr_fraud_detector.Base.Int64.{sub64, wrap64}
use go_cdr_fraud_detector.Base.Text.{Str, codes}
use go_cdr_fraud_detector.Clock.{unix_milli}
use go_cdr_fraud_detector.Cdr.{Cdr, voice}
use go_cdr_fraud_detector.Go.Sample.{Fixed}
use go_cdr_fraud_detector.Playground.Velocity.{Chronological}
use go_cdr_fraud_detector.Fraud.Cache.{err}
use go_cdr_fraud_detector.Fraud.Windows.Mirror.{InRange}
use go_cdr_fraud_detector.Fraud.Processor.{Processor, check_velocity}
use go_cdr_fraud_detector.Fraud.Processor.Detection.{
  delivery, count_now, counted, after_count, check_velocity-counted,
}
use go_cdr_fraud_detector.Tests.Windows.{
  shown, shown-ComparesExactly, one_set, one_set-HasSortedSets, bob, earlier, after_second, fed,
  no_members,
}

-- The record that was counted first, delivered again.
abbrev pub third_call : Cdr
third_call = record {
  record_id = codes "r1";
  caller_msisdn = bob;
  callee_msisdn = codes "alice";
  start_time = pos (3 * 10 ^ 9);
  duration_sec = pos 60;
  cell_id = codes "CELL-IST-01";
  call_type = voice;
  bytes = pos 0;
  termination = codes "NORMAL";
}

abbrev pub strict : Processor Fixed
strict = record {
  vel = record { window_seconds = pos 60; threshold = pos 2 };
  travel = record { max_speed_kmh = shown.of_int (pos 1000) };
  irsf_rule = record { window_seconds = pos 300; spend_threshold = shown.of_int (pos 50) };
  window_ms = pos 60_000;
  irsf_window_ms = pos 300_000;
  seen_ttl = pos (180 * 10 ^ 9);
  alert_cooldown = pos (60 * 10 ^ 9);
  max_attempts = pos 5;
  retry_backoff = pos (10 ^ 9);
}

ordered : Chronological (pos 60_000) (earlier ++ delivery third_call ∷ [])
unfolding unix_milli ◌-ℤ◌
ordered = ground arith

in_range :
    All
      (InRange shown shown-ComparesExactly one_set one_set-HasSortedSets bob (pos 60_000))
      (earlier ++ delivery third_call ∷ [])
unfolding unix_milli sub64 wrap64 ◌-ℤ◌
in_range = omega arith

check_velocity-counted_example :
    ((e : Str) × ((count_now shown one_set strict third_call after_second).1 ≡ err e)
      × (check_velocity ⦃go = shown⦄ one_set strict third_call after_second
          ≡ ((count_now shown one_set strict third_call after_second).0, err e)))
    ⊎ (check_velocity ⦃go = shown⦄ one_set strict third_call after_second
        ≡ after_count shown one_set strict third_call after_second
            (counted (pos 60_000) third_call earlier))
check_velocity-counted_example =
    check_velocity-counted shown shown-ComparesExactly one_set one_set-HasSortedSets strict
      third_call [] after_second earlier (omega arith) no_members ordered in_range fed
