-- ===== src/Tests/Processor.antt =====
-- The processor of the fraud service on a record whose velocity count is 13, with services that
-- count their calls.
use go_cdr_fraud_detector.Base.{
  ℕ, suc, ◌<◌, ◌≡◌, refl, ◌⊎◌, ◌*◌, ◌^◌, true, false, Option, none, [], ◌∷◌,
}
use go_cdr_fraud_detector.Base.Int.{pos}
use go_cdr_fraud_detector.Base.Text.{Str, codes}
use go_cdr_fraud_detector.Cdr.{Cdr, voice}
use go_cdr_fraud_detector.Go.Sample.{Fixed, sample}
use go_cdr_fraud_detector.Fraud.Cache.{Outcome, ok, err, new_ref_cache}
use go_cdr_fraud_detector.Fraud.Action.{◌>>=◌, or_skip}
use go_cdr_fraud_detector.Fraud.Services.{Services, number}
use go_cdr_fraud_detector.Fraud.Retry.{returned, run_with_retry, attempts}
use go_cdr_fraud_detector.Fraud.Retry.Outcomes.{Fails, DeadLettered}
use go_cdr_fraud_detector.Fraud.Windows.{card_val, sliding_window_count, seen, mark_seen}
use go_cdr_fraud_detector.Fraud.Processor.{
  outwards, Processor, Memory, handle, check_all, check_velocity, check_impossible_travel,
  check_irsf, emit_triggered, maybe_emit, emit, get_cell_geo, get_tariff,
}
use go_cdr_fraud_detector.Base.Dict.{lookup}
use go_cdr_fraud_detector.Rules.Velocity as VelocityRule
use go_cdr_fraud_detector.Fraud.Cache
use go_cdr_fraud_detector.Fraud.Processor.Touches.{Touches}
use go_cdr_fraud_detector.Fraud.Processor.Handling.{handle-Touches}
use go_cdr_fraud_detector.Fraud.Processor.Settled.{Settled, handle-Settled}
use go_cdr_fraud_detector.Fraud.Processor.Degraded.{velocity_only, handle-velocity_only}
use go_cdr_fraud_detector.Fraud.Processor.Loop.{retry_env, committed-Settled}

abbrev pub record_nine : Cdr
record_nine = record {
  record_id = codes "r9";
  caller_msisdn = codes "+905551112233";
  callee_msisdn = codes "+905550000000";
  start_time = pos (100 * 10 ^ 9);
  duration_sec = pos 60;
  cell_id = codes "CELL-IST-01";
  call_type = voice;
  bytes = pos 0;
  termination = codes "NORMAL";
}

-- The reference service is down.
abbrev pub lone_services : Services Fixed ℕ Str
lone_services = record {
  count_keys = λ key s. (suc s, ok (pos 0));
  get_key = λ key s. (suc s, ok none);
  set_key = λ key value ttl s. (suc s, ok tt);
  exec = λ commands s. (suc s, ok (number (pos 1) ∷ number (pos 0) ∷ number (pos 13) ∷ []));
  get_cell = λ timeout id s. (suc s, err (codes "unavailable"));
  get_tariff = λ timeout dest s. (suc s, err (codes "unavailable"));
  write_alert = λ m s. (suc s, ok tt);
  write_dlq = λ m s. (suc s, ok tt);
  fetch = λ s. (suc s, ok (record { value = codes "r9"; partition = pos 0; offset = pos 7 }));
  commit = λ m s. (suc s, ok tt);
  now = λ s. pos s;
  cancelled = λ s. false;
  pause = λ d s. (s, false);
  error_text = λ e. e;
  unmarshal_cdr = λ value. ok record_nine;
  marshal_alert = λ a. ok a.record_id;
  marshal_location = λ l. ok [];
  unmarshal_location = λ text. err text;
}

abbrev pub defaults : Processor Fixed
defaults = record {
  vel = record { window_seconds = pos 60; threshold = pos 12 };
  travel = record { max_speed_kmh = sample.of_int (pos 1000) };
  irsf_rule = record { window_seconds = pos 300; spend_threshold = sample.of_int (pos 50) };
  window_ms = pos 60_000;
  irsf_window_ms = pos 300_000;
  seen_ttl = pos (180 * 10 ^ 9);
  alert_cooldown = pos (60 * 10 ^ 9);
  max_attempts = pos 5;
  retry_backoff = pos (10 ^ 9);
}

abbrev empty_memory : Memory Fixed ℕ
empty_memory = record {
  cell_cache = record { ttl = pos (300 * 10 ^ 9); m = [] };
  tariff_cache = record { ttl = pos (300 * 10 ^ 9); m = [] };
  outside = 0;
}

handle-Touches_example :
    Touches lone_services record_nine 0
      (handle lone_services defaults (codes "r9") empty_memory).0.outside
handle-Touches_example =
    handle-Touches sample lone_services defaults record_nine (codes "r9") empty_memory refl

abbrev handled : Memory Fixed ℕ
handled = record empty_memory { outside = 8 }

nothing_cached : {V : Type 0} (key : Str) → lookup {V = V} key [] ≡ none
unfolding lookup
nothing_cached key = refl

handle-succeeds : handle lone_services defaults (codes "r9") empty_memory ≡ (handled, ok tt)
unfolding handle seen check_all check_velocity sliding_window_count card_val emit_triggered
    maybe_emit emit check_impossible_travel check_irsf get_cell_geo get_tariff mark_seen ◌>>=◌
    or_skip Cache.get Cache.fresh Cache.fill VelocityRule.evaluate lookup
handle-succeeds = refl

handle-Settled_example : Settled sample lone_services defaults (codes "r9") empty_memory handled
handle-Settled_example =
    handle-Settled sample lone_services defaults (codes "r9") empty_memory handled handle-succeeds

commits :
    (run_with_retry (retry_env lone_services defaults) (pos 5) (codes "r9") empty_memory).1
    ≡ returned true
unfolding run_with_retry attempts handle seen check_all check_velocity sliding_window_count card_val
    emit_triggered maybe_emit emit check_impossible_travel check_irsf get_cell_geo get_tariff
    mark_seen ◌>>=◌ or_skip Cache.get Cache.fresh Cache.fill VelocityRule.evaluate lookup
commits = refl

committed-Settled_example :
    ((n : ℕ) × (t : Memory Fixed ℕ) × (end : Memory Fixed ℕ) × (last : Option Str) × (n < 5)
      × Fails (retry_env lone_services defaults) (codes "r9") n empty_memory none t last
      × Settled sample lone_services defaults (codes "r9") t end)
    ⊎ DeadLettered (retry_env lone_services defaults) (codes "r9") 5 empty_memory
committed-Settled_example =
    committed-Settled sample lone_services defaults (codes "r9") empty_memory commits

handle-velocity_only_example :
    handle lone_services defaults (codes "r9") empty_memory
    ≡ outwards (velocity_only lone_services defaults record_nine) empty_memory
handle-velocity_only_example =
    handle-velocity_only sample lone_services defaults record_nine (codes "r9") empty_memory refl
      (λ s. (codes "unavailable", refl)) (λ s. (codes "unavailable", refl)) (nothing_cached _)
      (nothing_cached _)
