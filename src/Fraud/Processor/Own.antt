-- ===== src/Fraud/Processor/Own.antt =====
-- The steps of the handling that work on the outside world alone touch only what belongs to the
-- record.
use go_cdr_fraud_detector.Base.{◌≡◌, refl, Option, none, some}
use go_cdr_fraud_detector.Base.Int.{pos, ltb_ℤ}
use go_cdr_fraud_detector.Base.Text.{Str}
use go_cdr_fraud_detector.Cdr.{Cdr, Rule, velocity, impossible_travel, irsf}
use go_cdr_fraud_detector.Clock.{Duration}
use go_cdr_fraud_detector.Go.{Go}
use go_cdr_fraud_detector.Rules.Verdict.{Verdict}
use go_cdr_fraud_detector.Fraud.Action.{Action, pure, ◌>>=◌}
use go_cdr_fraud_detector.Fraud.Services.{Services, LastLoc}
use go_cdr_fraud_detector.Fraud.Windows.{
  sliding_window_count, premium_spend_in_window, seen, mark_seen, get_last_location,
  set_last_location, returning,
}
use go_cdr_fraud_detector.Fraud.Processor.{
  Processor, TariffInfo, emit, flag_key, maybe_emit, emit_triggered, check_velocity,
  compare_location, visit, accrue,
}
use go_cdr_fraud_detector.Fraud.Processor.Touches.{
  seen_key, velocity_key, spend_key, location_key, alerted_key, counted, read, stored, executed,
  alerted, Keeps, Keeps-bind, Keeps-if, once, never,
}

module _ {F S E : Type 0} ⦃go : Go F⦄ (services : Services F S E) (p : Processor F)
    (rec : Cdr) where
  abbrev pub Own : {A : Type 0} → Action S E A → Type 0
  Own = Keeps services rec (λ s. s)

  pub bind :
      {A B : Type 0} {m : Action S E A} {f : A → Action S E B}
      → Own m
      → ((a : A) → Own (f a))
      → Own (m >>= f)
  bind = Keeps-bind services rec (λ s. s)

  pub idle : {A : Type 0} {m : Action S E A} → ((s : S) → (m s).0 ≡ s) → Own m
  idle = never services rec (λ s. s)

  emit-Own :
      (rule : Rule) (score : F) (evidence : Str) → Own (emit services p rec rule score evidence)
  unfolding emit
  emit-Own rule score evidence = record {
    runs =
        λ s. (bind (idle (λ _. refl)) (λ val. once services rec (λ t. alerted refl refl))).runs s;
  }

  maybe_emit-Own :
      (rule : Rule) (score : F) (evidence : Str)
      → Own (maybe_emit services p rec rule score evidence)
  unfolding maybe_emit flag_key
  maybe_emit-Own rule score evidence =
      bind (once services rec (λ s. counted (alerted_key rule) refl)) λ n.
        Keeps-if services rec (λ s. s) (ltb_ℤ (pos 0) n) (idle (λ _. refl))
          (bind (emit-Own rule score evidence)
            λ _. once services rec (λ s. stored (alerted_key rule) refl))

  emit_triggered-Own : (rule : Rule) (v : Verdict F) → Own (emit_triggered services p rec rule v)
  unfolding emit_triggered
  emit_triggered-Own rule v =
      Keeps-if services rec (λ s. s) v.triggered (maybe_emit-Own rule v.score v.evidence)
        (idle (λ _. refl))

  pub check_velocity-Own : Own (check_velocity services p rec)
  unfolding check_velocity sliding_window_count
  check_velocity-Own =
      bind
        (bind
          (once services rec (λ s. executed velocity_key (refl, (refl, (refl, (refl, tt)))) refl))
          (λ _. idle (λ _. refl)))
        (λ count. emit_triggered-Own velocity _)

  get_last_location-Own : Own (get_last_location services rec.caller_msisdn)
  unfolding get_last_location
  get_last_location-Own = bind (once services rec (λ s. read location_key refl)) found
    where
      found :
          (text : Option Str)
          → Own {A = Option (LastLoc F)} (elim text [
            | none ↦ pure none
            | some s ↦ returning (services.unmarshal_location s) >>= λ l. pure (some l)
          ])
      found none = idle (λ _. refl)
      found (some text) = bind (idle (λ _. refl)) (λ l. idle (λ _. refl))

  set_last_location-Own :
      (l : LastLoc F) (ttl : Duration) → Own (set_last_location services rec.caller_msisdn l ttl)
  unfolding set_last_location
  set_last_location-Own l ttl =
      bind (idle (λ _. refl)) (λ b. once services rec (λ s. stored location_key refl))

  compare_location-Own :
      (current : LastLoc F) (last : Option (LastLoc F))
      → Own (compare_location services p rec current last)
  unfolding compare_location
  compare_location-Own current none = idle (λ _. refl)
  compare_location-Own current (some last) = emit_triggered-Own impossible_travel _

  pub visit-Own : (current : LastLoc F) → Own (visit services p rec current)
  unfolding visit
  visit-Own current =
      bind get_last_location-Own
        λ last. bind (compare_location-Own current last) (λ _. set_last_location-Own current _)

  pub accrue-Own : (ti : TariffInfo F) → Own (accrue services p rec ti)
  unfolding accrue premium_spend_in_window
  accrue-Own ti =
      Keeps-if services rec (λ s. s) ti.premium
        (bind
          (bind
            (once services rec (λ s. executed spend_key (refl, (refl, (refl, (refl, tt)))) refl))
            (λ _. idle (λ _. refl)))
          (λ spend. emit_triggered-Own irsf _))
        (idle (λ _. refl))

  pub mark_seen-Own : Own (mark_seen services rec.record_id p.seen_ttl)
  unfolding mark_seen
  mark_seen-Own = once services rec (λ s. stored seen_key refl)

  pub seen-Own : Own (seen services rec.record_id)
  unfolding seen
  seen-Own = bind (once services rec (λ s. counted seen_key refl)) (λ n. idle (λ _. refl))
