-- ===== src/Tests/Mains.antt =====
-- main of the fraud service and of the generator, over a Kafka that answers.
use go_cdr_fraud_detector.Base.{ℕ, Option, none, false, [], ◌∷◌}
use go_cdr_fraud_detector.Base.Int.{pos}
use go_cdr_fraud_detector.Base.Text.{Str, codes}
use go_cdr_fraud_detector.Fraud.Cache.{ok}
use go_cdr_fraud_detector.Fraud.Main.{Survives, main-Survives}
use go_cdr_fraud_detector.Generator.Main.{
  normal_tick, burst_tick, travel_tick, irsf_tick, Ended, main-Ended,
}
use go_cdr_fraud_detector.Go.Sample.{sample}
use go_cdr_fraud_detector.Stream.{Kafka}
use go_cdr_fraud_detector.Tests.Generator.{dice, dice-IsRandom}
use go_cdr_fraud_detector.Tests.Processor.{lone_services}

abbrev up : Kafka ℕ Str Str
up = record {
  dial = λ address w. (w, ok address);
  close = λ c w. w;
  controller = λ c w. (w, ok (codes "kafka", pos 9092));
  create = λ c configs w. (w, none);
  already_exists = λ e. false;
  error_text = λ e. e;
  pause = λ w. (w, false);
  context_error = λ w. codes "context canceled";
}

abbrev defaults_only : Str → Option Str
defaults_only key = none

main-Survives_example : Survives sample lone_services up (λ address s. (s, none)) defaults_only 3 0
main-Survives_example =
    main-Survives sample lone_services up (λ address s. (s, none)) defaults_only 3 0

main-Ended_example :
    Ended sample dice up defaults_only dice-IsRandom
      (normal_tick ∷ burst_tick ∷ travel_tick ∷ irsf_tick ∷ [])
      0
main-Ended_example =
    main-Ended sample dice up defaults_only dice-IsRandom
      (normal_tick ∷ burst_tick ∷ travel_tick ∷ irsf_tick ∷ []) 0
