-- ===== src/Fraud/Processor.antt =====
-- services/fraud/main.go: the processor of records. Logging and metrics are left out.
pub mod Settings
pub mod Touches
pub mod Own
pub mod Handling
pub mod Settled
pub mod Loop
pub mod Commits
pub mod Detection
pub mod Spending
pub mod Locations
pub mod Travelling
pub mod Degraded
pub mod Redelivery
pub mod Reference
use go_cdr_fraud_detector.Base.{
  ◌^◌, ◌*◌, Bool, true, false, Option, none, some, [], ◌++◌, if◌then◌else◌,
}
use go_cdr_fraud_detector.Base.Int.{ℤ, pos, ltb_ℤ}
use go_cdr_fraud_detector.Base.Text.{Str, codes}
use go_cdr_fraud_detector.Clock.{Duration, second, unix_milli, sub_time, abs_duration}
use go_cdr_fraud_detector.Cdr.{Cdr, FraudAlert, Rule, velocity, impossible_travel, irsf, rule_name}
use go_cdr_fraud_detector.Go.{Go}
use go_cdr_fraud_detector.Geo
use go_cdr_fraud_detector.Subscriber.{CellReply, TariffReply}
use go_cdr_fraud_detector.Rules.Verdict.{Verdict}
use go_cdr_fraud_detector.Rules.Velocity as VelocityRule
use go_cdr_fraud_detector.Rules.ImpossibleTravel as TravelRule
use go_cdr_fraud_detector.Rules.Irsf as IrsfRule
use go_cdr_fraud_detector.Fraud.Cache
use go_cdr_fraud_detector.Fraud.Cache.{Outcome, ok, err, RefCache}
use go_cdr_fraud_detector.Fraud.Action.{Action, pure, attempt, or_skip, ◌>>=◌, ◌>>◌}
use go_cdr_fraud_detector.Fraud.Services.{Services, LastLoc}
use go_cdr_fraud_detector.Fraud.Windows.{
  sliding_window_count, premium_spend_in_window, seen, mark_seen, get_last_location,
  set_last_location, returning,
}

abbrev pub grpc_timeout : Duration
grpc_timeout = pos (2 * 10 ^ 9)

abbrev pub last_loc_ttl : Duration
last_loc_ttl = pos (24 * 3600 * 10 ^ 9)

-- The fields of the processor that do not change.
pub record Processor (F : Type 0) : Type 0 where
  pub vel : VelocityRule.Velocity
  pub travel : TravelRule.ImpossibleTravel F
  pub irsf_rule : IrsfRule.Irsf F
  pub window_ms : ℤ
  pub irsf_window_ms : ℤ
  pub seen_ttl : Duration
  pub alert_cooldown : Duration
  pub max_attempts : ℤ
  pub retry_backoff : Duration

pub record CellGeo (F : Type 0) : Type 0 where
  pub lat : F
  pub lon : F

pub record TariffInfo (F : Type 0) : Type 0 where
  pub premium : Bool
  pub rate_per_min : F

-- The processor's two caches, and the outside world.
pub record Memory (F S : Type 0) : Type 0 where
  pub cell_cache : RefCache (CellGeo F)
  pub tariff_cache : RefCache (TariffInfo F)
  pub outside : S

abbrev pub outwards : {F S E A : Type 0} → Action S E A → Action (Memory F S) E A
outwards m st = let (s', r) = m st.outside in (record st { outside = s' }, r)

module _ {F S E : Type 0} ⦃go : Go F⦄ (services : Services F S E) (p : Processor F) where
  -- The loader runs only if the cache says so, and takes the outside world along.
  unfoldable pub get_cell_geo : Str → Action (Memory F S) E (CellGeo F)
  get_cell_geo cell_id st =
      let load : Action S E (CellGeo F) = services.get_cell grpc_timeout cell_id >>= λ cell.
      pure (record { lat = cell.lat; lon = cell.lon }) in
      let (s', loaded) = load st.outside in
      let (c, r, called) = Cache.get st.cell_cache cell_id (services.now st.outside) loaded in
      (record st { cell_cache = c; outside = if called then s' else st.outside }, r)

  unfoldable pub get_tariff : Str → Action (Memory F S) E (TariffInfo F)
  get_tariff dest st =
      let load : Action S E (TariffInfo F) = services.get_tariff grpc_timeout dest >>= λ t.
      pure (record { premium = t.premium; rate_per_min = t.rate_per_min }) in
      let (s', loaded) = load st.outside in
      let (c, r, called) = Cache.get st.tariff_cache dest (services.now st.outside) loaded in
      (record st { tariff_cache = c; outside = if called then s' else st.outside }, r)

  unfoldable pub emit : Cdr → Rule → F → Str → Action S E (Unit {0})
  emit rec rule score evidence s =
      (returning (
            services.marshal_alert (record {
              record_id = rec.record_id;
              caller_msisdn = rec.caller_msisdn;
              rule = rule_name rule;
              score = score;
              evidence = evidence;
              detected_at = services.now s;
            }))
          >>= λ val.
              services.write_alert (record { key = rec.caller_msisdn; value = val; headers = [] }))
        s

  -- `"alerted:" + rule + ":" + rec.CallerMSISDN`
  unfoldable pub flag_key : Rule → Str → Str
  flag_key rule caller = codes "alerted:" ++ (rule_name rule ++ (codes ":" ++ caller))

  unfoldable pub maybe_emit : Cdr → Rule → F → Str → Action S E (Unit {0})
  unfolding emit flag_key
  maybe_emit rec rule score evidence = do
    n ← services.count_keys (flag_key rule rec.caller_msisdn)
    if ltb_ℤ (pos 0) n
        then pure tt
        else (emit rec rule score evidence
            >> services.set_key (flag_key rule rec.caller_msisdn) (codes "1") p.alert_cooldown)

  -- `if triggered, score, evidence := …; triggered { return p.maybeEmit(…) }`
  unfoldable pub emit_triggered : Cdr → Rule → Verdict F → Action S E (Unit {0})
  unfolding maybe_emit
  emit_triggered rec rule v =
      if v.triggered then maybe_emit rec rule v.score v.evidence else pure tt

  unfoldable pub check_velocity : Cdr → Action S E (Unit {0})
  unfolding sliding_window_count emit_triggered
  check_velocity rec = do
    count ←
        sliding_window_count services (codes "velocity:" ++ rec.caller_msisdn)
          (unix_milli rec.start_time) p.window_ms rec.record_id
    emit_triggered rec velocity (VelocityRule.evaluate p.vel count)

  -- The comparison with the last location. The alert is emitted before the location advances.
  unfoldable pub compare_location : Cdr → LastLoc F → Option (LastLoc F) → Action S E (Unit {0})
  unfolding emit_triggered
  compare_location rec current none = pure tt
  compare_location rec current (some last) = emit_triggered rec impossible_travel (
      TravelRule.evaluate p.travel (Geo.haversine_km last.lat last.lon current.lat current.lon)
        (abs_duration (sub_time current.at last.at)))

  unfoldable pub visit : Cdr → LastLoc F → Action S E (Unit {0})
  unfolding compare_location get_last_location set_last_location
  visit rec current = do
    last ← get_last_location services rec.caller_msisdn
    compare_location rec current last
    set_last_location services rec.caller_msisdn current last_loc_ttl

  unfoldable pub check_impossible_travel : Cdr → Action (Memory F S) E (Unit {0})
  unfolding get_cell_geo visit or_skip
  check_impossible_travel rec = do
    found ← attempt (get_cell_geo rec.cell_id)
    or_skip found
        λ cg. outwards (visit rec (record { lat = cg.lat; lon = cg.lon; at = rec.start_time }))

  unfoldable pub accrue : Cdr → TariffInfo F → Action S E (Unit {0})
  unfolding premium_spend_in_window emit_triggered
  accrue rec ti =
      if ti.premium
      then (do
        spend ←
            premium_spend_in_window services (codes "spend:" ++ rec.caller_msisdn)
              (unix_milli rec.start_time) p.irsf_window_ms rec.record_id
              (go.times (go.over (go.of_int rec.duration_sec) (go.of_int (pos 60))) ti.rate_per_min)
        emit_triggered rec irsf (IrsfRule.evaluate p.irsf_rule spend))
      else pure tt

  unfoldable pub check_irsf : Cdr → Action (Memory F S) E (Unit {0})
  unfolding get_tariff accrue or_skip
  check_irsf rec = do
    found ← attempt (get_tariff rec.callee_msisdn)
    or_skip found λ ti. outwards (accrue rec ti)

  -- handle, for a record that is not marked as seen.
  unfoldable pub check_all : Cdr → Action (Memory F S) E (Unit {0})
  unfolding check_velocity check_impossible_travel check_irsf mark_seen
  check_all rec = do
    outwards (check_velocity rec)
    check_impossible_travel rec
    check_irsf rec
    outwards (mark_seen services rec.record_id p.seen_ttl)

  unfoldable pub handle : Str → Action (Memory F S) E (Unit {0})
  unfolding seen check_all
  handle value = elim (services.unmarshal_cdr value) [
    | err e ↦ pure tt
    | ok rec ↦ outwards (seen services rec.record_id) >>= λ already.
        if already then pure tt else check_all rec
  ]
