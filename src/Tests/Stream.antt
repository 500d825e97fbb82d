-- ===== src/Tests/Stream.antt =====
-- A Kafka whose controller is down at first, and which counts its open connections.
use go_cdr_fraud_detector.Base.{
  ℕ, zero, suc, ◌≡◌, refl, false, Option, none, some, List, [], ◌∷◌, arith,
}
use go_cdr_fraud_detector.Base.Int.{pos}
use go_cdr_fraud_detector.Base.Text.{Str, codes, has_prefix}
use go_cdr_fraud_detector.Base.Split.{contains}
use go_cdr_fraud_detector.Fraud.Cache.{ok, err}
use go_cdr_fraud_detector.Go.Sample.{Fixed}
use go_cdr_fraud_detector.Platform.{getenv}
use go_cdr_fraud_detector.ReadApi.{Services}
use go_cdr_fraud_detector.ReadApi.Startup
use go_cdr_fraud_detector.ReadApi.Startup.{brokers_of, alert_topic, serves, start-ready}
use go_cdr_fraud_detector.Stream.{Kafka, TopicSpec, brokers, create_topics, ensure_topics, returned}
use go_cdr_fraud_detector.Stream.Polls.{Fails, start, again, Polled}
use go_cdr_fraud_detector.Stream.Topics.{ensure_topics-Polled}

-- How many connections are open, and how many seconds have passed.
abbrev World : Type 0
World = ℕ × ℕ

abbrev closed_one : ℕ → ℕ
closed_one zero = zero
closed_one (suc n) = n

abbrev late : Kafka World Str Str
late = record {
  dial = λ address w. ((suc w.0, w.1), ok address);
  close = λ c w. (closed_one w.0, w.1);
  controller = λ c w.
      (w, elim w.1 [ zero ↦ err (codes "no controller") | suc n ↦ ok (codes "kafka", pos 9092) ]);
  create = λ c configs w. (w, some (codes "topic already exists"));
  already_exists = λ e. false;
  error_text = λ e. e;
  pause = λ w. ((w.0, suc w.1), false);
  context_error = λ w. codes "context canceled";
}

abbrev alerts_topic : List TopicSpec
alerts_topic = record { name = codes "cdr.alert"; partitions = pos 3 } ∷ []

abbrev two_brokers : Str
two_brokers = codes "a:1,b:2"

ensure_topics-Polled_example :
    (broker : Str) × (out : World × Option Str) × (ensure_topics late
        (brokers two_brokers)
        alerts_topic
        (0, 0)
      ≡ (out.0, returned out.1))
    × Polled late.pause late.context_error
        (create_topics late broker alerts_topic)
        180
        (0, 0)
        none
        out
ensure_topics-Polled_example = ensure_topics-Polled late alerts_topic two_brokers (0, 0)

split_brokers : brokers two_brokers ≡ codes "a:1" ∷ codes "b:2" ∷ []
unfolding brokers
split_brokers = refl

first-Fails :
    Fails late.pause late.context_error
      (create_topics late (codes "a:1") alerts_topic)
      1
      (0, 0)
      none
      (0, 1)
      (some (codes "no controller"))
unfolding create_topics
first-Fails = again (record { tried = refl; resumed = refl }) start

second_succeeds : (create_topics late (codes "a:1") alerts_topic (0, 1)).1 ≡ none
unfolding create_topics contains has_prefix
second_succeeds = refl

-- A database that is up, beside this Kafka.
abbrev database : Services Fixed World Str (Unit {0})
database = record {
  new_pool = λ dsn w. (w, ok tt);
  ping = λ pool w. (w, none);
  exec = λ pool st w. (w, none);
  query_recent = λ pool n w. (w, err (codes "down"));
  fetch = λ w. (w, err (codes "closed"));
  commit = λ m w. (w, none);
  cancelled = λ w. false;
  context_error = λ w. codes "context canceled";
  pause = λ w. (w, false);
  unmarshal_alert = λ value. err value;
}

abbrev no_env : Str → Option Str
no_env key = none

abbrev local_broker : Str
local_broker = codes "localhost:29092"

default_brokers : brokers_of no_env ≡ local_broker ∷ []
unfolding brokers getenv
default_brokers = refl

once-Fails :
    Fails late.pause late.context_error
      (create_topics late local_broker alert_topic)
      1
      (0, 0)
      none
      (0, 1)
      (some (codes "no controller"))
unfolding create_topics
once-Fails = again (record { tried = refl; resumed = refl }) start

then_succeeds : (create_topics late local_broker alert_topic (0, 1)).1 ≡ none
unfolding create_topics contains has_prefix
then_succeeds = refl

start-ready_example :
    Startup.start late database no_env (0, 0)
    ≡ ((create_topics late local_broker alert_topic (0, 1)).0, serves tt)
start-ready_example =
    start-ready late database no_env (0, 0) tt 0 (0, 0) none (0, 0) local_broker [] 1 (0, 1)
      (some (codes "no controller")) refl (omega arith) start refl refl default_brokers
      (omega arith) once-Fails then_succeeds
