-- ===== src/Fraud/Processor/Degraded.antt =====
-- The handling of a record while the reference service is down.
use go_cdr_fraud_detector.Base.{◌≡◌, refl, ap, ◌∙◌, Bool, true, false, none, arith, if◌then◌else◌}
use go_cdr_fraud_detector.Base.Text.{Str}
use go_cdr_fraud_detector.Base.Dict.{lookup}
use go_cdr_fraud_detector.Cdr.{Cdr}
use go_cdr_fraud_detector.Go.{Go}
use go_cdr_fraud_detector.Fraud.Cache
use go_cdr_fraud_detector.Fraud.Cache.{Outcome, ok, err}
use go_cdr_fraud_detector.Fraud.Action.{Action, pure, or_skip, ◌>>=◌, ◌>>◌}
use go_cdr_fraud_detector.Fraud.Services.{Services}
use go_cdr_fraud_detector.Fraud.Windows.{seen, mark_seen}
use go_cdr_fraud_detector.Fraud.Processor.{
  Processor, Memory, outwards, grpc_timeout, get_cell_geo, get_tariff, check_velocity,
  check_impossible_travel, check_irsf, check_all, handle,
}

-- A call whose result is not used.
abbrev pub asks : {S E A : Type 0} → Action S E A → Action S E (Unit {0})
asks m s = ((m s).0, ok tt)

module _ {F S E : Type 0} ⦃go : Go F⦄ (services : Services F S E) (p : Processor F)
    (rec : Cdr) where
  -- Velocity alone; the other rules only ask in vain.
  abbrev pub velocity_only : Action S E (Unit {0})
  velocity_only = do
    already ← seen services rec.record_id
    if already then pure tt else (do
      check_velocity services p rec
      asks (services.get_cell grpc_timeout rec.cell_id)
      asks (services.get_tariff grpc_timeout rec.callee_msisdn)
      mark_seen services rec.record_id p.seen_ttl)

module _ {F S E : Type 0} where
  outwards_bind :
      {A B : Type 0} (m : Action S E A) (f : A → Action S E B) (g : A → Action (Memory F S) E B)
      (st : Memory F S)
      → ((a : A) (s : S)
          → g a (record st { outside = s }) ≡ outwards (f a) (record st { outside = s }))
      → (outwards m >>= g) st ≡ outwards (m >>= f) st
  unfolding ◌>>=◌
  outwards_bind {A} m f g st h = split (m st.outside).1 refl
    where
      split :
          (r : Outcome E A) → (m st.outside).1 ≡ r → (outwards m >>= g) st ≡ outwards (m >>= f) st
      split (ok a) e = rw (e, ◌>>=◌) (h a (m st.outside).0)
      split (err x) e = rw (e, ◌>>=◌) refl

  bind_congr :
      {A B : Type 0} (m m' : Action (Memory F S) E A) (g : A → Action (Memory F S) E B)
      (st : Memory F S)
      → m st ≡ m' st
      → (m >>= g) st ≡ (m' >>= g) st
  unfolding ◌>>=◌
  bind_congr {A} {B} m m' g st h =
      let next = λ (x : Memory F S × Outcome E A).
        let r : Memory F S × Outcome E B = elim x.1 [ ok a ↦ g a x.0 | err e ↦ (x.0, err e) ] in
        r in
      ap next h

module _ {F S E : Type 0} ⦃go : Go F⦄ (services : Services F S E) (p : Processor F)
    (rec : Cdr) where
  no_cell :
      (st : Memory F S) (e : E)
      → (services.get_cell grpc_timeout rec.cell_id st.outside).1 ≡ err e
      → lookup rec.cell_id st.cell_cache.m ≡ none
      → check_impossible_travel services p rec st
        ≡ outwards (asks (services.get_cell grpc_timeout rec.cell_id)) st
  unfolding check_impossible_travel get_cell_geo ◌>>=◌ or_skip Cache.get Cache.fresh Cache.fill
  no_cell st e down empty = ground (arith, down, empty)

  no_tariff :
      (st : Memory F S) (e : E)
      → (services.get_tariff grpc_timeout rec.callee_msisdn st.outside).1 ≡ err e
      → lookup rec.callee_msisdn st.tariff_cache.m ≡ none
      → check_irsf services p rec st
        ≡ outwards (asks (services.get_tariff grpc_timeout rec.callee_msisdn)) st
  unfolding check_irsf get_tariff ◌>>=◌ or_skip Cache.get Cache.fresh Cache.fill
  no_tariff st e down empty = ground (arith, down, empty)

  check_all_degraded :
      (st : Memory F S)
      → ((s : S) → (e : E) × ((services.get_cell grpc_timeout rec.cell_id s).1 ≡ err e))
      → ((s : S) → (e : E) × ((services.get_tariff grpc_timeout rec.callee_msisdn s).1 ≡ err e))
      → lookup rec.cell_id st.cell_cache.m ≡ none
      → lookup rec.callee_msisdn st.tariff_cache.m ≡ none
      → check_all services p rec st
        ≡ outwards
            (do
              check_velocity services p rec
              asks (services.get_cell grpc_timeout rec.cell_id)
              asks (services.get_tariff grpc_timeout rec.callee_msisdn)
              mark_seen services rec.record_id p.seen_ttl)
            st
  unfolding check_all
  check_all_degraded st no_cells no_tariffs cell tariff =
      outwards_bind (check_velocity services p rec) _ _ st λ _ s.
        let t : Memory F S = record st { outside = s } in
        bind_congr (check_impossible_travel services p rec)
          (outwards (asks (services.get_cell grpc_timeout rec.cell_id))) _ t
          (no_cell t (no_cells s).0 (no_cells s).1 cell)
        ∙ outwards_bind (asks (services.get_cell grpc_timeout rec.cell_id)) _ _ t λ _ s'.
          let t' : Memory F S = record st { outside = s' } in
          bind_congr (check_irsf services p rec)
            (outwards (asks (services.get_tariff grpc_timeout rec.callee_msisdn))) _ t'
            (no_tariff t' (no_tariffs s').0 (no_tariffs s').1 tariff)
          ∙ outwards_bind (asks (services.get_tariff grpc_timeout rec.callee_msisdn)) _ _ t'
              (λ _ s''. refl)

-- While the reference service answers every question about a record's cell and destination with an
-- error, and neither is cached, handling the record is the velocity rule alone between the test and
-- the writing of its mark, with one question in vain for each of the other rules; an error of these
-- questions does not fail the record, and the caches stay as they are.
pub handle-velocity_only :
    {F S E : Type 0} (go : Go F) (services : Services F S E) (p : Processor F) (rec : Cdr)
    (value : Str) (st : Memory F S)
    → services.unmarshal_cdr value ≡ ok rec
    → ((s : S) → (e : E) × ((services.get_cell grpc_timeout rec.cell_id s).1 ≡ err e))
    → ((s : S) → (e : E) × ((services.get_tariff grpc_timeout rec.callee_msisdn s).1 ≡ err e))
    → lookup rec.cell_id st.cell_cache.m ≡ none
    → lookup rec.callee_msisdn st.tariff_cache.m ≡ none
    → handle ⦃go = go⦄ services p value st ≡ outwards (velocity_only ⦃go = go⦄ services p rec) st
unfolding handle
handle-velocity_only {S} go services p rec value st parsed no_cells no_tariffs cell tariff =
    rw (parsed, handle) (outwards_bind (seen ⦃go = go⦄ services rec.record_id) _ _ st after_seen)
  where
    after_seen :
        (already : Bool) (s : S)
        → (if already then pure tt else check_all ⦃go = go⦄ services p rec)
            (record st { outside = s })
          ≡ outwards
              (if already then pure tt else (do
                check_velocity ⦃go = go⦄ services p rec
                asks (services.get_cell grpc_timeout rec.cell_id)
                asks (services.get_tariff grpc_timeout rec.callee_msisdn)
                mark_seen ⦃go = go⦄ services rec.record_id p.seen_ttl))
              (record st { outside = s })
    after_seen true s = refl
    after_seen false s =
        check_all_degraded ⦃go = go⦄ services p rec (record st { outside = s }) no_cells no_tariffs
          cell tariff
