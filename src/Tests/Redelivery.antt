-- ===== src/Tests/Redelivery.antt =====
-- A redelivery, with a Redis that holds the keys that were set.
use go_cdr_fraud_detector.Base.{◌≡◌, refl, none, some, [], arith, false}
use go_cdr_fraud_detector.Base.Int.{pos}
use go_cdr_fraud_detector.Base.Text.{Str, codes, str_eq_refl}
use go_cdr_fraud_detector.Base.Dict.{Dict, lookup, insert, lookup-insert}
use go_cdr_fraud_detector.Go.Sample.{Fixed, sample}
use go_cdr_fraud_detector.Rules.Velocity as VelocityRule
use go_cdr_fraud_detector.Fraud.Cache
use go_cdr_fraud_detector.Fraud.Cache.{Outcome, ok, err}
use go_cdr_fraud_detector.Fraud.Action.{◌>>=◌}
use go_cdr_fraud_detector.Fraud.Services.{Services}
use go_cdr_fraud_detector.Fraud.Processor.{Memory, outwards, handle}
use go_cdr_fraud_detector.Fraud.Processor.Degraded.{asks}
use go_cdr_fraud_detector.Fraud.Processor.Redelivery.{KeepsKeys, handle_again}
use go_cdr_fraud_detector.Tests.Processor.{record_nine, defaults}

abbrev redis : Services Fixed (Dict Str) Str
redis = record {
  count_keys = λ key s. (s, ok (elim (lookup key s) [ none ↦ pos 0 | some v ↦ pos 1 ]));
  get_key = λ key s. (s, ok (lookup key s));
  set_key = λ key value ttl s. (insert key value s, ok tt);
  exec = λ commands s. (s, ok []);
  get_cell = λ timeout id s. (s, err (codes "unavailable"));
  get_tariff = λ timeout dest s. (s, err (codes "unavailable"));
  write_alert = λ m s. (s, ok tt);
  write_dlq = λ m s. (s, ok tt);
  fetch = λ s. (s, err (codes "closed"));
  commit = λ m s. (s, ok tt);
  now = λ s. pos 0;
  cancelled = λ s. false;
  pause = λ d s. (s, false);
  error_text = λ e. e;
  unmarshal_cdr = λ value. ok record_nine;
  marshal_alert = λ a. ok a.record_id;
  marshal_location = λ l. ok [];
  unmarshal_location = λ text. err text;
}

redis-KeepsKeys : KeepsKeys redis
redis-KeepsKeys = record {
  present_set = λ key value ttl s _.
      (pos 1, omega arith, ground (arith, lookup-insert key key value s, str_eq_refl key));
  present_counted = λ key s present. present;
}

abbrev before : Memory Fixed (Dict Str)
before = record {
  cell_cache = record { ttl = pos 1; m = [] };
  tariff_cache = record { ttl = pos 1; m = [] };
  outside = [];
}

abbrev after_first : Memory Fixed (Dict Str)
after_first = record before { outside = insert (codes "seen:r9") (codes "1") [] }

first-succeeds : handle redis defaults (codes "r9") before ≡ (after_first, ok tt)
unfolding handle ◌>>=◌ lookup VelocityRule.evaluate Cache.get
first-succeeds = refl

handle_again_example :
    handle redis defaults (codes "r9") after_first
    ≡ outwards (asks (redis.count_keys (codes "seen:r9"))) after_first
handle_again_example =
    handle_again sample redis defaults record_nine (codes "r9") before after_first redis-KeepsKeys
      refl first-succeeds
