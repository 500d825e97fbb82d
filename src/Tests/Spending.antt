-- ===== src/Tests/Spending.antt =====
-- A second call to a premium number, just after a restart of the service.
use go_cdr_fraud_detector.Base.{◌^◌, ◌≡◌, refl, true, Option, none, [], ◌∷◌, map, All, arith}
use go_cdr_fraud_detector.Base.Dict
use go_cdr_fraud_detector.Base.Dict.{Dict}
use go_cdr_fraud_detector.Base.Int.{pos, ◌-ℤ◌, ◌*ℤ◌}
use go_cdr_fraud_detector.Base.Int64.{mul64, sub64, wrap64}
use go_cdr_fraud_detector.Base.Text.{Str, codes, has_prefix}
use go_cdr_fraud_detector.Cdr.{Cdr}
use go_cdr_fraud_detector.Clock.{unix_milli}
use go_cdr_fraud_detector.Fraud.Action.{◌>>=◌}
use go_cdr_fraud_detector.Fraud.Cache
use go_cdr_fraud_detector.Fraud.Processor.{Memory, get_tariff}
use go_cdr_fraud_detector.Fraud.Processor.Loop.{new_memory}
use go_cdr_fraud_detector.Fraud.Processor.Reference.Rounds.{starts}
use go_cdr_fraud_detector.Fraud.Processor.Spending.{charged, SpendEnds, check_irsf-spent}
use go_cdr_fraud_detector.Fraud.Windows.{premium_spend_in_window}
use go_cdr_fraud_detector.Fraud.Windows.Spend.{member}
use go_cdr_fraud_detector.Fraud.Windows.Spend.History.{entry, latest_calls, in_window, InRange}
use go_cdr_fraud_detector.Fraud.Windows.Spend.Total.{Spent, rests, calls}
use go_cdr_fraud_detector.Go.Sample.{Fixed}
use go_cdr_fraud_detector.Playground.Velocity.{Chronological}
use go_cdr_fraud_detector.Subscriber
use go_cdr_fraud_detector.Tariff
use go_cdr_fraud_detector.Tests.Detection.{third_call, strict}
use go_cdr_fraud_detector.Tests.Spend.{shown-PrintsCosts}
use go_cdr_fraud_detector.Tests.Windows.{
  shown, shown-ComparesExactly, one_set, one_set-HasSortedSets, one_set-RangesAll,
  one_set-AsksSubscriber, no_spend,
}

abbrev to_satellite : Cdr
to_satellite = record third_call { record_id = codes "r2"; callee_msisdn = codes "+8811234567" }

-- The first call, of two minutes, that was counted before the restart.
abbrev before : Cdr
before = record to_satellite {
  record_id = codes "r1";
  start_time = pos (10 ^ 9);
  duration_sec = pos 120;
}

abbrev after_before : Dict Fixed
after_before = (member shown (charged shown before), shown.of_int (pos 1_000)) ∷ []

abbrev no_settings : Str → Option Str
no_settings key = none

abbrev started : Memory Fixed (Dict Fixed)
started = new_memory ⦃go = shown⦄ one_set no_settings after_before

is_premium : (Tariff.lookup ⦃go = shown⦄ to_satellite.callee_msisdn).premium ≡ true
unfolding Tariff.lookup Tariff.longest_from Tariff.catalog Tariff.fallback has_prefix
is_premium = refl

ordered :
    Chronological
      (pos 300_000)
      (map (entry shown) (charged shown before ∷ charged shown to_satellite ∷ []))
unfolding unix_milli ◌-ℤ◌
ordered = ground arith

in_range :
    All
      (InRange shown (pos 300_000))
      (map (entry shown) (charged shown before ∷ charged shown to_satellite ∷ []))
unfolding unix_milli sub64 wrap64 ◌-ℤ◌
in_range = omega arith

once_spent :
    Spent shown shown-ComparesExactly shown-PrintsCosts one_set one_set-HasSortedSets
      one_set-RangesAll
      (codes "spend:bob")
      (pos 300_000)
      []
      (charged shown before ∷ [])
      (get_tariff ⦃go = shown⦄ one_set strict to_satellite.callee_msisdn started).0.outside
unfolding get_tariff new_memory ◌>>=◌ Cache.get Cache.fresh Cache.fill Cache.new_ref_cache
    Dict.lookup Subscriber.get_tariff premium_spend_in_window mul64 Dict.insert unix_milli sub64
    ◌-ℤ◌ wrap64 ◌*ℤ◌
once_spent = calls {r = []} {e = charged shown before} refl refl (rests refl)

check_irsf-spent_example :
    SpendEnds shown shown-ComparesExactly shown-PrintsCosts one_set one_set-HasSortedSets
      one_set-RangesAll one_set-AsksSubscriber strict to_satellite started
      (in_window shown
        (pos 300_000)
        (charged shown to_satellite)
        (latest_calls shown [] (charged shown before ∷ charged shown to_satellite ∷ [])))
check_irsf-spent_example =
    check_irsf-spent shown shown-ComparesExactly shown-PrintsCosts one_set one_set-HasSortedSets
      one_set-RangesAll one_set-AsksSubscriber strict to_satellite no_settings started []
      (charged shown before ∷ []) (omega arith) is_premium (starts after_before) no_spend ordered
      in_range once_spent
