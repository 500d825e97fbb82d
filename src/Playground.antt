-- ===== src/Playground.antt =====
-- cmd/playground/main.go: the decision engine with its state in maps. A method returns the new
-- engine with its result. What time.Now returns when an alert is built, and the order in which a loop
-- over a map visits it, are arguments: Go may take another order whenever a loop is executed.
pub mod Score
pub mod Windows
pub mod Velocity
pub mod Keys
pub mod Cooldown
pub mod Partition
use go_cdr_fraud_detector.Base.{
  ℕ, Bool, true, false, Option, none, some, List, [], ◌∷◌, ◌++◌, ◌*◌, ◌&&◌, length, if◌then◌else◌,
}
use go_cdr_fraud_detector.Base.Int.{ℤ, pos, leb_ℤ, ltb_ℤ}
use go_cdr_fraud_detector.Base.Int64.{sub64}
use go_cdr_fraud_detector.Base.Text.{Str, codes}
use go_cdr_fraud_detector.Base.Dict.{Dict, lookup, insert, erase, keys}
use go_cdr_fraud_detector.Clock.{Time, unix_milli, sub_time, abs_duration}
use go_cdr_fraud_detector.Cdr.{Cdr, FraudAlert, Rule, velocity, impossible_travel, irsf, rule_name}
use go_cdr_fraud_detector.Go.{Go, Order, zero_f}
use go_cdr_fraud_detector.Geo
use go_cdr_fraud_detector.Tariff
use go_cdr_fraud_detector.Rules.Verdict.{Verdict}
use go_cdr_fraud_detector.Rules.Velocity as VelocityRule
use go_cdr_fraud_detector.Rules.ImpossibleTravel as TravelRule
use go_cdr_fraud_detector.Rules.Irsf as IrsfRule

pub record Location (F : Type 0) : Type 0 where
  pub lat : F
  pub lon : F
  pub at : Time

pub record SpendItem (F : Type 0) : Type 0 where
  pub ms : ℤ
  pub cost : F

pub record Engine (F : Type 0) : Type 0 where
  pub vel : VelocityRule.Velocity
  pub travel : TravelRule.ImpossibleTravel F
  pub irsf_rule : IrsfRule.Irsf F
  pub window_ms : ℤ
  pub irsf_window_ms : ℤ
  pub cooldown_ms : ℤ
  pub vel_win : Dict (Dict ℤ)
  pub last_loc : Dict (Location F)
  pub spend_win : Dict (Dict (SpendItem F))
  pub alerted : Dict ℤ

-- e.velWin[caller] and e.spendWin[caller], where a missing map is made anew.
unfoldable pub window_of : {V : Type 0} → Str → Dict (Dict V) → Dict V
window_of caller m = elim (lookup caller m) [ none ↦ [] | some w ↦ w ]

-- One round of velocityCount's loop. A key that is gone is not visited.
unfoldable pub trim_step : ℤ → Str → Dict ℤ → Dict ℤ
trim_step cutoff id w = elim (lookup id w) [
  | none ↦ w
  | some ms ↦ if leb_ℤ ms cutoff then erase id w else w
]

unfoldable pub trim : ℤ → List Str → Dict ℤ → Dict ℤ
unfolding trim_step
trim cutoff [] w = w
trim cutoff (id ∷ ids) w = trim cutoff ids (trim_step cutoff id w)

unfoldable pub alert_key : Rule → Str → Str
unfolding rule_name
alert_key rule caller = rule_name rule ++ (codes ":" ++ caller)

unfoldable pub velocity_count : {F : Type 0} → Engine F → Str → Str → ℤ → Order → Engine F × ℤ
unfolding window_of trim
velocity_count e caller record_id event_ms order =
    let w = insert record_id event_ms (window_of caller e.vel_win) in
    let w' = trim (sub64 event_ms e.window_ms) (order (keys w)) w in
    (record e { vel_win = insert caller w' e.vel_win }, pos (length w'))

module _ {F : Type 0} ⦃go : Go F⦄ where
  -- The defaults of services/fraud.
  unfoldable pub new_engine : Engine F
  new_engine = record {
    vel = record { window_seconds = pos 60; threshold = pos 12 };
    travel = record { max_speed_kmh = go.of_int (pos 1000) };
    irsf_rule = record { window_seconds = pos 300; spend_threshold = go.of_int (pos 50) };
    window_ms = pos (60 * 1000);
    irsf_window_ms = pos (300 * 1000);
    cooldown_ms = pos (60 * 1000);
    vel_win = [];
    last_loc = [];
    spend_win = [];
    alerted = [];
  }

  unfoldable pub configure : Engine F → F → F → F → Engine F
  configure e vel_threshold travel_kmh irsf_spend = record e {
    vel = record (e.vel) { threshold = go.to_int vel_threshold };
    travel = record { max_speed_kmh = travel_kmh };
    irsf_rule = record (e.irsf_rule) { spend_threshold = irsf_spend };
  }

  -- One round of spendInWindow's loop.
  unfoldable pub spend_step : ℤ → Str → Dict (SpendItem F) × F → Dict (SpendItem F) × F
  spend_step cutoff id (w, sum) = elim (lookup id w) [
    | none ↦ (w, sum)
    | some it ↦ if leb_ℤ it.ms cutoff then (erase id w, sum) else (w, go.plus sum it.cost)
  ]

  unfoldable pub spend_loop : ℤ → List Str → Dict (SpendItem F) × F → Dict (SpendItem F) × F
  unfolding spend_step
  spend_loop cutoff [] ws = ws
  spend_loop cutoff (id ∷ ids) ws = spend_loop cutoff ids (spend_step cutoff id ws)

  unfoldable pub spend_in_window : Engine F → Str → Str → ℤ → F → Order → Engine F × F
  unfolding window_of spend_loop
  spend_in_window e caller record_id event_ms cost order =
      let w =
        insert record_id (record { ms = event_ms; cost = cost }) (window_of caller e.spend_win) in
      let (w', sum) = spend_loop (sub64 event_ms e.irsf_window_ms) (order (keys w)) (w, zero_f) in
      (record e { spend_win = insert caller w' e.spend_win }, sum)

-- `last, ok := e.alerted[key]; ok && eventMs-last < e.cooldownMs`
unfoldable pub cooling : {F : Type 0} → Engine F → Str → ℤ → Bool
cooling e key event_ms = elim (lookup key e.alerted) [
  | none ↦ false
  | some last ↦ ltb_ℤ (sub64 event_ms last) e.cooldown_ms
]

unfoldable pub maybe_emit :
    {F : Type 0} → Engine F → Cdr → Rule → F → Str → ℤ → Time → Engine F × Option (FraudAlert F)
unfolding cooling
maybe_emit e rec rule score evidence event_ms now =
    let key = alert_key rule rec.caller_msisdn in
    if cooling e key event_ms then (e, none) else (
      record e { alerted = insert key event_ms e.alerted },
      some (record {
        record_id = rec.record_id;
        caller_msisdn = rec.caller_msisdn;
        rule = rule_name rule;
        score = score;
        evidence = evidence;
        detected_at = now;
      }),
    )

-- `if triggered … { if a, ok := e.maybeEmit(…); ok { alerts = append(alerts, a) } }`
unfoldable pub emit_if :
    {F : Type 0} → Engine F → Cdr → Rule → Verdict F → Time → Engine F × List (FraudAlert F)
unfolding maybe_emit
emit_if e rec rule v now =
    if v.triggered
    then (let (e', a) = maybe_emit e rec rule v.score v.evidence (unix_milli rec.start_time) now in
        (e', elim a [ none ↦ [] | some alert ↦ alert ∷ [] ]))
    else (e, [])
