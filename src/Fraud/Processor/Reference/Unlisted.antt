-- ===== src/Fraud/Processor/Reference/Unlisted.antt =====
-- Records that the catalogs leave to the velocity rule.
use go_cdr_fraud_detector.Base.{
  ◌≡◌, refl, ◌∙◌, inl, inr, Bool, true, false, Option, none, if◌then◌else◌, arith,
}
use go_cdr_fraud_detector.Base.Text.{Str}
use go_cdr_fraud_detector.Cdr.{Cdr}
use go_cdr_fraud_detector.Go.{Go}
use go_cdr_fraud_detector.Geo
use go_cdr_fraud_detector.Geo.{Cell}
use go_cdr_fraud_detector.Tariff
use go_cdr_fraud_detector.Fraud.Cache.{ok}
use go_cdr_fraud_detector.Fraud.Action.{Action, pure, ◌>>=◌, ◌>>◌}
use go_cdr_fraud_detector.Fraud.Action.Preserves.{bind_agree}
use go_cdr_fraud_detector.Fraud.Services.{Services}
use go_cdr_fraud_detector.Fraud.Windows.{seen, mark_seen}
use go_cdr_fraud_detector.Fraud.Processor.{
  Processor, Memory, outwards, get_cell_geo, get_tariff, check_velocity, accrue,
  check_impossible_travel, check_irsf, check_all, handle,
}
use go_cdr_fraud_detector.Fraud.Processor.Degraded.{asks}
use go_cdr_fraud_detector.Fraud.Processor.Reference.{
  AsksSubscriber, outwards-Faithful, check_impossible_travel-Faithful, check_irsf-Faithful,
}
use go_cdr_fraud_detector.Fraud.Processor.Reference.Rounds.{
  Reached, Holding, Reached-Holding, travel-catalog, irsf-catalog,
}

module _ {F S E : Type 0} (go : Go F) (services : Services F S E) (p : Processor F) where
  -- What is left of the handling of a record that only the velocity rule concerns.
  abbrev velocity_and_mark : Cdr → Action (Memory F S) E (Unit {0})
  velocity_and_mark rec = do
    outwards (check_velocity ⦃go = go⦄ services p rec)
    asks (get_cell_geo ⦃go = go⦄ services p rec.cell_id)
    asks (get_tariff ⦃go = go⦄ services p rec.callee_msisdn)
    outwards (mark_seen ⦃go = go⦄ services rec.record_id p.seen_ttl)

  abbrev pub without_reference : Cdr → Action (Memory F S) E (Unit {0})
  without_reference rec = do
    already ← outwards (seen ⦃go = go⦄ services rec.record_id)
    if already then pure tt else velocity_and_mark rec

module _ {F S E : Type 0} (go : Go F) (services : Services F S E)
    (asked : AsksSubscriber go services) (p : Processor F) where
  travel-unlisted :
      (rec : Cdr) (st : Memory F S)
      → Geo.lookup ⦃go = go⦄ rec.cell_id ≡ none
      → Holding go services asked p st
      → check_impossible_travel ⦃go = go⦄ services p rec st
        ≡ asks (get_cell_geo ⦃go = go⦄ services p rec.cell_id) st
  travel-unlisted rec st unknown h = elim (travel-catalog go services asked p rec st h) [
    | inl (e, failed, skipped) ↦ skipped
    | inr (c, known, visited) ↦ absurd (ground (arith, unknown, known))
  ]

  irsf-ordinary :
      (rec : Cdr) (st : Memory F S)
      → (Tariff.lookup ⦃go = go⦄ rec.callee_msisdn).premium ≡ false
      → Holding go services asked p st
      → check_irsf ⦃go = go⦄ services p rec st
        ≡ asks (get_tariff ⦃go = go⦄ services p rec.callee_msisdn) st
  unfolding accrue
  irsf-ordinary rec st ordinary h = elim (irsf-catalog go services asked p rec st h) [
    | inl (e, failed, skipped) ↦ skipped
    | inr spent ↦ spent ∙ rw (ordinary, accrue) refl
  ]

  check_all-unlisted :
      (rec : Cdr) (st : Memory F S)
      → Geo.lookup ⦃go = go⦄ rec.cell_id ≡ none
      → (Tariff.lookup ⦃go = go⦄ rec.callee_msisdn).premium ≡ false
      → Holding go services asked p st
      → check_all ⦃go = go⦄ services p rec st ≡ velocity_and_mark go services p rec st
  unfolding check_all
  check_all-unlisted rec st unknown ordinary h =
      let H = Holding go services asked p in
      bind_agree H _ _ _ _ st (outwards-Faithful go services asked p _) h refl λ _ t ht.
        bind_agree H _ _ _ _ t (check_impossible_travel-Faithful go services asked p rec) ht
          (travel-unlisted rec t unknown ht)
          λ _ u hu.
            bind_agree H _ _ _ _ u (check_irsf-Faithful go services asked p rec) hu
              (irsf-ordinary rec u ordinary hu) (λ _ _ _. refl)

  -- A record whose cell the catalog does not know, and whose callee the tariff catalog does not mark as
  -- premium, is handled by the velocity rule alone between the test and the writing of its mark,
  -- between any two rounds of the consume loop: the two other rules do no more than getCellGeo and
  -- getTariff, whatever these return and whatever Redis holds of the caller.
  pub handle-unlisted :
      (env : Str → Option Str) (rec : Cdr) (value : Str) (st : Memory F S)
      → services.unmarshal_cdr value ≡ ok rec
      → Geo.lookup ⦃go = go⦄ rec.cell_id ≡ none
      → (Tariff.lookup ⦃go = go⦄ rec.callee_msisdn).premium ≡ false
      → Reached go services p env st
      → handle ⦃go = go⦄ services p value st ≡ without_reference go services p rec st
  unfolding handle
  handle-unlisted env rec value st parsed unknown ordinary reached =
      rw (parsed, handle)
        (bind_agree (Holding go services asked p) _ _ _ _ st
          (outwards-Faithful go services asked p _) (Reached-Holding go services asked p reached)
          refl after_seen)
    where
      after_seen :
          (already : Bool) (t : Memory F S)
          → Holding go services asked p t
          → (if already then pure tt else check_all ⦃go = go⦄ services p rec) t
            ≡ (if already then pure tt else velocity_and_mark go services p rec) t
      after_seen true t h = refl
      after_seen false t h = check_all-unlisted rec t unknown ordinary h
