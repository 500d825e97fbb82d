-- ===== src/Playground/Score.antt =====
-- cmd/playground/main.go: `score`, which runs the three rules over one record, and the exported
-- callbacks of `main`.
use go_cdr_fraud_detector.Base.{Option, none, some, List, [], ◌∷◌, ◌++◌, if◌then◌else◌}
use go_cdr_fraud_detector.Base.Int.{pos}
use go_cdr_fraud_detector.Base.Text.{Str, codes}
use go_cdr_fraud_detector.Base.Dict.{lookup, insert}
use go_cdr_fraud_detector.Clock.{Time, unix_milli, sub_time, abs_duration}
use go_cdr_fraud_detector.Cdr.{Cdr, FraudAlert, Rule, velocity, impossible_travel, irsf}
use go_cdr_fraud_detector.Go.{Go, Order}
use go_cdr_fraud_detector.Geo
use go_cdr_fraud_detector.Geo.{Cell}
use go_cdr_fraud_detector.Tariff
use go_cdr_fraud_detector.Tariff.{Tariff}
use go_cdr_fraud_detector.Rules.Verdict.{Verdict, quiet}
use go_cdr_fraud_detector.Rules.Velocity as VelocityRule
use go_cdr_fraud_detector.Rules.ImpossibleTravel as TravelRule
use go_cdr_fraud_detector.Rules.Irsf as IrsfRule
use go_cdr_fraud_detector.Playground.{
  Engine, Location, new_engine, configure, velocity_count, spend_in_window, emit_if,
}

-- What a run of the program settles for one rule of one record: what time.Now returns when its alert
-- is built, and the order in which its loop over a window visits it.
pub record Moment : Type 0 where
  pub now : Time
  pub order : Order

-- A call from the page: cdrConfigure with its arguments, cdrScore with what json.Unmarshal makes
-- of its text, or cdrReset.
pub data Call (F : Type 0) : Type 0 where
  configures : List F → Call F
  scores : Option Cdr → (Rule → Moment) → Call F
  resets : Call F

module _ {F : Type 0} ⦃go : Go F⦄ where
  unfoldable pub score_velocity : Engine F → Cdr → Moment → Engine F × List (FraudAlert F)
  score_velocity e rec m =
      let (e', count) =
        velocity_count e rec.caller_msisdn rec.record_id (unix_milli rec.start_time) m.order in
      emit_if e' rec velocity (VelocityRule.evaluate e'.vel count) m.now

  -- The verdict on the way from the last known location, if there is one.
  unfoldable pub travel_verdict : Engine F → Cdr → Location F → Verdict F
  travel_verdict e rec current = elim (lookup rec.caller_msisdn e.last_loc) [
    | none ↦ quiet
    | some last ↦
        TravelRule.evaluate e.travel (Geo.haversine_km last.lat last.lon current.lat current.lon)
          (abs_duration (sub_time current.at last.at))
  ]

  -- The alert is emitted before the location advances.
  unfoldable pub visit_cell : Engine F → Cdr → Cell F → Time → Engine F × List (FraudAlert F)
  unfolding travel_verdict
  visit_cell e rec cell now =
      let current : Location F = record { lat = cell.lat; lon = cell.lon; at = rec.start_time } in
      let (e', alerts) = emit_if e rec impossible_travel (travel_verdict e rec current) now in
      (record e' { last_loc = insert rec.caller_msisdn current e'.last_loc }, alerts)

  unfoldable pub score_travel : Engine F → Cdr → Time → Engine F × List (FraudAlert F)
  score_travel e rec now = elim (Geo.lookup {F = F} rec.cell_id) [
    | none ↦ (e, [])
    | some cell ↦ visit_cell e rec cell now
  ]

  unfoldable pub score_irsf : Engine F → Cdr → Moment → Engine F × List (FraudAlert F)
  score_irsf e rec m =
      let t = Tariff.lookup {F = F} rec.callee_msisdn in
      let cost =
        go.times (go.over (go.of_int rec.duration_sec) (go.of_int (pos 60))) t.rate_per_min in
      if t.premium
      then (let (e', spend) =
            spend_in_window e rec.caller_msisdn rec.record_id (unix_milli rec.start_time) cost
              m.order in
          emit_if e' rec irsf (IrsfRule.evaluate e'.irsf_rule spend) m.now)
      else (e, [])

  unfoldable pub score : Engine F → Cdr → (Rule → Moment) → Engine F × List (FraudAlert F)
  score e rec at =
      let (e₁, a₁) = score_velocity e rec (at velocity) in
      let (e₂, a₂) = score_travel e₁ rec (at impossible_travel).now in
      let (e₃, a₃) = score_irsf e₂ rec (at irsf) in (e₃, a₁ ++ (a₂ ++ a₃))

  -- The text that cdrScore returns; `encode` is json.Marshal, which fails on a NaN.
  unfoldable pub reply : (List (FraudAlert F) → Option Str) → List (FraudAlert F) → Str
  reply encode [] = codes "[]"
  reply encode alerts = elim (encode alerts) [ none ↦ codes "[]" | some text ↦ text ]

  -- The new engine, and what the page gets back: a text, or nil.
  unfoldable pub call :
      (List (FraudAlert F) → Option Str) → Engine F → Call F → Engine F × Option Str
  unfolding configure new_engine reply
  call encode e (configures (v ∷ t ∷ s ∷ [])) = (configure e v t s, none)
  call encode e (configures _) = (e, none)
  call encode e (scores none at) = (e, some (codes "[]"))
  call encode e (scores (some rec) at) =
      let (e', alerts) = score e rec at in (e', some (reply encode alerts))
  call encode e resets = (new_engine, none)
