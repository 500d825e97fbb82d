-- ===== src/Playground/Cooldown/Run.antt =====
-- Over any run of `score`, two alerts of one rule for one subscriber are a cooldown apart.
use go_cdr_fraud_detector.Base.{
  ◌≡◌, refl, List, [], ◌∷◌, ◌++◌, map, All, All-append, All-map, arith, Bool-cases, Option-cases,
  inl, inr,
}
use go_cdr_fraud_detector.Base.Int.{ℤ, pos, ◌≤ℤ◌, ◌-ℤ◌}
use go_cdr_fraud_detector.Base.Int64.{InInt64}
use go_cdr_fraud_detector.Base.Text.{Str}
use go_cdr_fraud_detector.Base.Dict.{insert}
use go_cdr_fraud_detector.Clock.{unix_milli}
use go_cdr_fraud_detector.Cdr.{Cdr, FraudAlert, Rule, velocity, impossible_travel, irsf}
use go_cdr_fraud_detector.Go.{Go}
use go_cdr_fraud_detector.Geo
use go_cdr_fraud_detector.Geo.{Cell}
use go_cdr_fraud_detector.Tariff
use go_cdr_fraud_detector.Rules.Velocity as VelocityRule
use go_cdr_fraud_detector.Rules.Irsf as IrsfRule
use go_cdr_fraud_detector.Playground.{Engine, Location, velocity_count, spend_in_window, emit_if}
use go_cdr_fraud_detector.Playground.Score.{
  Moment, score, score_velocity, score_travel, score_irsf, visit_cell, travel_verdict,
}
use go_cdr_fraud_detector.Playground.Cooldown.{key_of, Marked, Waits, Spaced, Cools, emit_if-Cools}
use go_cdr_fraud_detector.Playground.Cooldown.Compose.{after, then-Cools, after-Cools, idle-Cools}

module _ {F : Type 0} ⦃go : Go F⦄ (cd : ℤ) (rec : Cdr) (m : Moment) where
  score_velocity-Cools : Cools {F = F} cd (unix_milli rec.start_time) (λ e. score_velocity e rec m)
  unfolding score_velocity velocity_count
  score_velocity-Cools =
      let count = λ (e : Engine F).
        velocity_count e rec.caller_msisdn rec.record_id (unix_milli rec.start_time) m.order in
      emit_if-Cools cd rec velocity (λ e. (count e).0)
        (λ e. VelocityRule.evaluate (count e).0.vel (count e).1) m.now (λ e. refl) (λ e. refl)

  visit_cell-Cools :
      (cell : Cell F)
      → Cools {F = F} cd (unix_milli rec.start_time) (λ e. visit_cell e rec cell m.now)
  unfolding visit_cell
  visit_cell-Cools cell =
      let current : Location F = record { lat = cell.lat; lon = cell.lon; at = rec.start_time } in
      then-Cools cd (unix_milli rec.start_time)
        (λ e. emit_if e rec impossible_travel (travel_verdict e rec current) m.now)
        (λ e. record e { last_loc = insert rec.caller_msisdn current e.last_loc }) (λ e. refl)
        (λ e. refl)
        (emit_if-Cools cd rec impossible_travel (λ e. e) (λ e. travel_verdict e rec current) m.now
          (λ e. refl) (λ e. refl))

  score_travel-Cools : Cools {F = F} cd (unix_milli rec.start_time) (λ e. score_travel e rec m.now)
  unfolding score_travel
  score_travel-Cools = elim (Option-cases (Geo.lookup {F = F} rec.cell_id)) [
    | inl unknown ↦ rw (unknown, score_travel) (idle-Cools cd (unix_milli rec.start_time))
    | inr (cell, known) ↦ rw (known, score_travel) (visit_cell-Cools cell)
  ]

  score_irsf-Cools : Cools {F = F} cd (unix_milli rec.start_time) (λ e. score_irsf e rec m)
  unfolding score_irsf spend_in_window
  score_irsf-Cools =
      let t = Tariff.lookup {F = F} rec.callee_msisdn in
      let cost =
        go.times (go.over (go.of_int rec.duration_sec) (go.of_int (pos 60))) t.rate_per_min in
      let spend = λ (e : Engine F).
        spend_in_window e rec.caller_msisdn rec.record_id (unix_milli rec.start_time) cost
          m.order in
      elim (Bool-cases t.premium) [
        | inr ordinary ↦ rw (ordinary, score_irsf) (idle-Cools cd (unix_milli rec.start_time))
        | inl premium ↦
            rw (premium, score_irsf)
              (emit_if-Cools cd rec irsf (λ e. (spend e).0)
                (λ e. IrsfRule.evaluate (spend e).0.irsf_rule (spend e).1) m.now (λ e. refl)
                (λ e. refl))
      ]

score-Cools :
    {F : Type 0} (go : Go F) (cd : ℤ) (rec : Cdr) (at : Rule → Moment)
    → Cools {F = F} cd (unix_milli rec.start_time) (λ e. score ⦃go = go⦄ e rec at)
unfolding score
score-Cools go cd rec at =
    after-Cools cd (unix_milli rec.start_time) (λ e. score_velocity ⦃go = go⦄ e rec (at velocity))
      (after (λ e. score_travel ⦃go = go⦄ e rec (at impossible_travel).now)
        (λ e. score_irsf ⦃go = go⦄ e rec (at irsf)))
      (score_velocity-Cools ⦃go = go⦄ cd rec (at velocity))
      (after-Cools cd (unix_milli rec.start_time)
        (λ e. score_travel ⦃go = go⦄ e rec (at impossible_travel).now)
        (λ e. score_irsf ⦃go = go⦄ e rec (at irsf))
        (score_travel-Cools ⦃go = go⦄ cd rec (at impossible_travel))
        (score_irsf-Cools ⦃go = go⦄ cd rec (at irsf)))

-- An alert with the event time of the record that raised it.
pub record Emission (F : Type 0) : Type 0 where
  pub at_ms : ℤ
  pub alert : FraudAlert F

-- A record, and what the run settles for its rules.
abbrev pub Input : Type 0
Input = Cdr × (Rule → Moment)

abbrev pub ms_of : Input → ℤ
ms_of i = unix_milli i.0.start_time

-- Everything that a run of `score` emits, in order.
unfoldable pub emissions : {F : Type 0} → Go F → Engine F → List Input → List (Emission F)
emissions go e [] = []
emissions go e (i ∷ is) =
    let (e', alerts) = score ⦃go = go⦄ e i.0 i.1 in
    map (λ a. record { at_ms = ms_of i; alert = a }) alerts ++ emissions go e' is

-- The event times do not fall, and their differences stay inside int64.
abbrev pub InOrder : List Input → Type 0
InOrder [] = Unit
InOrder (i ∷ is) = All (λ j. (ms_of i ≤ℤ ms_of j) × InInt64 (ms_of j -ℤ ms_of i)) is × InOrder is

-- Any two alerts with one rule and one subscriber are `cd` milliseconds apart.
abbrev pub Apart : {F : Type 0} → ℤ → List (Emission F) → Type 0
Apart cd [] = Unit
Apart cd (x ∷ xs) =
    All
      (λ y.
        y.alert.rule ≡ x.alert.rule
        → y.alert.caller_msisdn ≡ x.alert.caller_msisdn
        → cd ≤ℤ y.at_ms -ℤ x.at_ms)
      xs
    × Apart cd xs

module _ {F : Type 0} (go : Go F) (cd : ℤ) where
  abbrev Later : Str → ℤ → List (Emission F) → Type 0
  Later key t = All λ y. key_of y.alert ≡ key → cd ≤ℤ y.at_ms -ℤ t

  Later-map :
      (key : Str) (t now : ℤ) (as' : List (FraudAlert F))
      → Waits cd key t now as'
      → Later key t (map (λ a. record { at_ms = now; alert = a }) as')
  Later-map key t now [] w = tt
  Later-map key t now (a ∷ as') w = (w.0, Later-map key t now as' w.1)

  Marked-until :
      (e : Engine F) (key : Str) (t now now' : ℤ)
      → now ≤ℤ now'
      → Marked cd e key t now
      → Marked cd e key t now'
  Marked-until e key t now now' h m = record {
    last = m.last;
    stored = m.stored;
    from = m.from;
    until = omega arith;
    cool = m.cool;
  }

  emissions-Later :
      (e : Engine F) (key : Str) (t now : ℤ) (is : List Input)
      → Marked cd e key t now
      → All (λ j. now ≤ℤ ms_of j) is
      → All (λ j. InInt64 (ms_of j -ℤ t)) is
      → InOrder is
      → Later key t (emissions go e is)
  unfolding emissions
  emissions-Later e key t now [] m later near o = tt
  emissions-Later e key t now (i ∷ is) m later near o =
      let c = score-Cools go cd i.0 i.1 in
      let (m', w) = c.forward e key t (Marked-until e key t now (ms_of i) later.0 m) near.0 in
      All-append (λ y. key_of y.alert ≡ key → cd ≤ℤ y.at_ms -ℤ t) (map _ _)
        (emissions go (score ⦃go = go⦄ e i.0 i.1).0 is) (Later-map key t (ms_of i) _ w)
        (emissions-Later (score ⦃go = go⦄ e i.0 i.1).0 key t (ms_of i) is m'
          (All-map {P = λ j. (ms_of i ≤ℤ ms_of j) × InInt64 (ms_of j -ℤ ms_of i)} (λ j h. h.0) is
            o.0)
          near.1 o.1)

  -- The alerts of one record, before whatever keeps all their keys waiting.
  Apart-append :
      (now : ℤ) (as' : List (FraudAlert F)) (rest : List (Emission F))
      → Spaced cd now as'
      → All (λ a. Later (key_of a) now rest) as'
      → Apart cd rest
      → Apart cd (map (λ a. record { at_ms = now; alert = a }) as' ++ rest)
  Apart-append now [] rest s l h = h
  Apart-append now (a ∷ as') rest s l h = (
    All-map {P = λ y. key_of y.alert ≡ key_of a → cd ≤ℤ y.at_ms -ℤ now}
        (λ y wait rule caller. wait (rw (rule, caller))) _
        (All-append (λ y. key_of y.alert ≡ key_of a → cd ≤ℤ y.at_ms -ℤ now) (map _ _) rest
          (Later-map (key_of a) now now as' s.0) l.0),
    Apart-append now as' rest s.1 l.1 h,
  )

  -- From any engine with the cooldown `cd`, for records in the order of their times, whose differences
  -- fit into int64, alerts with one rule and one subscriber are at least `cd` milliseconds apart.
  pub emissions-Apart :
      (e : Engine F) (is : List Input)
      → e.cooldown_ms ≡ cd
      → InOrder is
      → Apart cd (emissions go e is)
  unfolding emissions
  emissions-Apart e [] h o = tt
  emissions-Apart e (i ∷ is) h o =
      let c = score-Cools go cd i.0 i.1 in
      let e' = (score ⦃go = go⦄ e i.0 i.1).0 in
      let (spaced, marks) = c.own e h in
      Apart-append (ms_of i) (score ⦃go = go⦄ e i.0 i.1).1 (emissions go e' is) spaced
        (All-map {P = λ a. Marked cd e' (key_of a) (ms_of i) (ms_of i)}
          (λ a m.
            emissions-Later e' (key_of a) (ms_of i) (ms_of i) is m
              (All-map {P = λ j. (ms_of i ≤ℤ ms_of j) × InInt64 (ms_of j -ℤ ms_of i)} (λ j b. b.0)
                is o.0)
              (All-map {P = λ j. (ms_of i ≤ℤ ms_of j) × InInt64 (ms_of j -ℤ ms_of i)} (λ j b. b.1)
                is o.0)
              o.1)
          (score ⦃go = go⦄ e i.0 i.1).1 marks)
        (emissions-Apart e' is (c.keeps_cool e h) o.1)
