-- ===== src/Tests/Catalogs.antt =====
-- The cache, the catalogs and the rules, with `Go.Sample` for float64.
use go_cdr_fraud_detector.Base.{
  ℕ, ◌^◌, ◌≡◌, refl, ◌↔◌, ◌*◌, ◌||◌, true, some, List, [], ◌∷◌, Among, arith,
}
use go_cdr_fraud_detector.Base.Int.{ℤ, ◌*ℤ◌, pos}
use go_cdr_fraud_detector.Base.Text.{Str, codes, has_prefix}
use go_cdr_fraud_detector.Go.Sample.{
  Fixed, sample, sample-IsOrdered, sample-IsFinite, sample-IsNumber,
}
use go_cdr_fraud_detector.Geo
use go_cdr_fraud_detector.Geo.{Cell}
use go_cdr_fraud_detector.Geo.Lookups.{lookup-Among_iff}
use go_cdr_fraud_detector.Tariff
use go_cdr_fraud_detector.Tariff.Longest.{IsLongest, lookup-IsLongest, lookup_premium}
use go_cdr_fraud_detector.Rules.Velocity.{Velocity}
use go_cdr_fraud_detector.Rules.ImpossibleTravel as TravelRule
use go_cdr_fraud_detector.Rules.ImpossibleTravel.{ImpossibleTravel}
use go_cdr_fraud_detector.Rules.Irsf as IrsfRule
use go_cdr_fraud_detector.Rules.Irsf.{Irsf}
use go_cdr_fraud_detector.Rules.Verdicts.{
  Reports, irsf-Reports, travel-Reports, travel_mono, irsf_mono,
}
use go_cdr_fraud_detector.Fraud.Cache.{ok, err, new_ref_cache}
use go_cdr_fraud_detector.Fraud.Cache.Freshness.{Request, run, run_log, run-new_ref_cache}

-- A miss, a hit, an expired entry whose reload fails, and a reload.
abbrev requests : List (Request Str ℕ)
requests =
    record { key = codes "c"; now = pos 0; load = ok 7 }
    ∷ record { key = codes "c"; now = pos 5; load = ok 8 }
    ∷ record { key = codes "c"; now = pos 10; load = err (codes "timeout") }
    ∷ record { key = codes "c"; now = pos 11; load = ok 9 }
    ∷ []

run-new_ref_cache_example : run (new_ref_cache (pos 10)) requests ≡ run_log (pos 10) [] requests
run-new_ref_cache_example = run-new_ref_cache (pos 10) requests

lookup-IsLongest_example :
    IsLongest
      (codes "+9001")
      (Tariff.fallback {F = Fixed})
      Tariff.catalog
      (Tariff.lookup (codes "+9001"))
lookup-IsLongest_example = lookup-IsLongest sample (codes "+9001")

lookup_premium_example : ((Tariff.lookup {F = Fixed} (codes "+9001")).premium ≡ true) ↔ (
    (has_prefix (codes "+9001") (codes "+881")
      || has_prefix (codes "+9001") (codes "+882")
      || has_prefix (codes "+9001") (codes "+883")
      || has_prefix (codes "+9001") (codes "+900"))
    ≡ true)
lookup_premium_example = lookup_premium sample (codes "+9001")

abbrev ankara : Cell Fixed
ankara = record {
  id = codes "CELL-ANK-01";
  lat = sample.decimal (pos 399_334) 4;
  lon = sample.decimal (pos 328_597) 4;
  name = codes "Ankara";
}

lookup-Among_iff_example :
    (Geo.lookup (codes "CELL-ANK-01") ≡ some ankara)
    ↔ (Among ankara Geo.catalog × (ankara.id ≡ codes "CELL-ANK-01"))
lookup-Among_iff_example = lookup-Among_iff sample (codes "CELL-ANK-01") ankara

abbrev twelve : Velocity
twelve = record { window_seconds = pos 60; threshold = pos 12 }

abbrev euros : ℕ → Fixed
euros n = sample.of_int (pos n)

abbrev fifty : Irsf Fixed
fifty = record { window_seconds = pos 300; spend_threshold = euros 50 }

irsf-Reports_example : Reports (IrsfRule.evaluate fifty (euros 60))
irsf-Reports_example =
    irsf-Reports sample-IsOrdered fifty (euros 60) (sample-IsFinite _) (sample-IsNumber _)

sixty-le-seventy : sample.le (euros 60) (euros 70) ≡ true
unfolding ◌*ℤ◌
sixty-le-seventy = refl

fifty-triggered : (IrsfRule.evaluate fifty (euros 60)).triggered ≡ true
unfolding IrsfRule.evaluate ◌*ℤ◌
fifty-triggered = refl

irsf_mono_example : (IrsfRule.evaluate fifty (euros 70)).triggered ≡ true
irsf_mono_example =
    irsf_mono sample-IsOrdered fifty (euros 60) (euros 70) (sample-IsNumber _) (sample-IsNumber _)
      (sample-IsNumber _) sixty-le-seventy fifty-triggered

abbrev plane : ImpossibleTravel Fixed
plane = record { max_speed_kmh = sample.of_int (pos 1000) }

abbrev minute : ℤ
minute = pos (60 * 10 ^ 9)

travel-Reports_example : Reports (TravelRule.evaluate plane (euros 600) minute)
travel-Reports_example =
    travel-Reports sample-IsOrdered plane (euros 600) minute (sample-IsFinite _) (sample-IsNumber _)

plane-triggered : (TravelRule.evaluate plane (euros 60) minute).triggered ≡ true
unfolding TravelRule.evaluate ◌*ℤ◌
plane-triggered = refl

travel_mono_example : (TravelRule.evaluate plane (euros 70) (pos (10 ^ 9))).triggered ≡ true
travel_mono_example =
    travel_mono sample-IsOrdered plane (euros 60) (euros 70) minute (pos (10 ^ 9))
      (sample-IsNumber _) sixty-le-seventy (omega arith) plane-triggered
