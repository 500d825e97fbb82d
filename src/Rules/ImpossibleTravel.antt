-- ===== src/Rules/ImpossibleTravel.antt =====
-- internal/rules/impossible_travel.go.
use go_cdr_fraud_detector.Base.{true, ◌||◌, ◌++◌, ◌∷◌, if◌then◌else◌}
use go_cdr_fraud_detector.Base.Int.{ltb_ℤ}
use go_cdr_fraud_detector.Base.Text.{Str, codes}
use go_cdr_fraud_detector.Clock.{Duration, second}
use go_cdr_fraud_detector.Go.{Go, zero_f}
use go_cdr_fraud_detector.Rules.Verdict.{Verdict, quiet}

pub record ImpossibleTravel (F : Type 0) : Type 0 where
  pub max_speed_kmh : F

-- The interval is floored at one second.
abbrev pub floor_second : Duration → Duration
floor_second dt = if ltb_ℤ dt second then second else dt

module _ {F : Type 0} ⦃go : Go F⦄ where
  -- The three bytes are the UTF-8 of the arrow.
  unfoldable pub travel_evidence : ImpossibleTravel F → F → Duration → F → Str
  travel_evidence r distance_km dt speed =
      go.fixed 0 distance_km
      ++ (codes " km in "
          ++ (go.show_duration (go.round_second dt)
              ++ (codes " "
                  ++ (0xe2 ∷ 0x86 ∷ 0x92 ∷ codes " "
                      ++ (go.fixed 0 speed
                          ++ (codes " km/h (max " ++ (go.fixed 0 r.max_speed_kmh ++ codes ")")))))))

  unfoldable pub evaluate : ImpossibleTravel F → F → Duration → Verdict F
  evaluate r distance_km dt =
      let floored = floor_second dt in
      let speed = go.over distance_km (go.hours floored) in
      if go.le distance_km zero_f || go.le r.max_speed_kmh zero_f
      then quiet
      else if go.le speed r.max_speed_kmh
      then quiet
      else (record {
        triggered = true;
        score = go.over speed r.max_speed_kmh;
        evidence = travel_evidence r distance_km floored speed;
      })
