-- ===== src/Fraud/Processor/Reference.antt =====
-- The fraud service together with the reference service: what the caches can hold, and what the two
-- rules that use reference data make of the catalogs of internal/geo and internal/tariff.
pub mod Rounds
pub mod Unlisted
use go_cdr_fraud_detector.Base.{
  ◌≡◌, refl, sym, ap, subst, ◌∙◌, ◌⊎◌, inl, inr, Bool, true, false, Option, none, some,
  Option-cases, if◌then◌else◌, arith,
}
use go_cdr_fraud_detector.Base.Text.{Str}
use go_cdr_fraud_detector.Clock.{Duration}
use go_cdr_fraud_detector.Cdr.{Cdr}
use go_cdr_fraud_detector.Go.{Go}
use go_cdr_fraud_detector.Geo
use go_cdr_fraud_detector.Geo.{Cell}
use go_cdr_fraud_detector.Tariff
use go_cdr_fraud_detector.Subscriber
use go_cdr_fraud_detector.Subscriber.{CellReply, TariffReply, reply}
use go_cdr_fraud_detector.Fraud.Cache
use go_cdr_fraud_detector.Fraud.Cache.{Outcome, ok, err, Outcome-cases}
use go_cdr_fraud_detector.Fraud.Cache.Holds.{Holds, new_ref_cache-Holds, get-Holds}
use go_cdr_fraud_detector.Fraud.Action.{Action, pure, attempt, or_skip, ◌>>=◌, ◌>>◌}
use go_cdr_fraud_detector.Fraud.Action.Preserves.{
  Preserves, Preserves-bind, Preserves-pure, Preserves-if, Preserves-attempt, Preserves-or_skip,
  bind_agree,
}
use go_cdr_fraud_detector.Fraud.Retry.Preserves.{PreservesAll, run_with_retry-preserves}
use go_cdr_fraud_detector.Fraud.Services.{Services, Fetched}
use go_cdr_fraud_detector.Fraud.Windows.{seen, mark_seen}
use go_cdr_fraud_detector.Fraud.Processor.{
  Processor, Memory, CellGeo, TariffInfo, outwards, get_cell_geo, get_tariff, check_velocity, visit,
  accrue, check_impossible_travel, check_irsf, check_all, handle, grpc_timeout,
}
use go_cdr_fraud_detector.Fraud.Processor.Loop.{new_memory, retry_env, commit_if, round}

-- The gRPC client asks the handlers of services/subscriber: a call that succeeds returns their reply.
pub record AsksSubscriber {F S E : Type 0} (go : Go F) (services : Services F S E) : Type 0 where
  pub cell_reply :
      (timeout : Duration) (id : Str) (s : S) (r : CellReply F)
      → (services.get_cell timeout id s).1 ≡ ok r
      → Subscriber.get_cell ⦃go = go⦄ id ≡ reply r
  pub tariff_reply :
      (timeout : Duration) (dest : Str) (s : S) (r : TariffReply F)
      → (services.get_tariff timeout dest s).1 ≡ ok r
      → Subscriber.get_tariff ⦃go = go⦄ dest ≡ reply r

module _ {F : Type 0} (go : Go F) where
  -- The value is what the catalog has under the key.
  abbrev pub OfCell : Str → CellGeo F → Type 0
  OfCell id cg =
      (c : Cell F) × (Geo.lookup ⦃go = go⦄ id ≡ some c) × (cg ≡ record { lat = c.lat; lon = c.lon })

  abbrev pub tariff_of : Str → TariffInfo F
  tariff_of dest =
      let t = Tariff.lookup ⦃go = go⦄ dest in
      record { premium = t.premium; rate_per_min = t.rate_per_min }

  abbrev OfTariff : Str → TariffInfo F → Type 0
  OfTariff dest ti = ti ≡ tariff_of dest

  replied_cell :
      (id : Str) (r : CellReply F)
      → Subscriber.get_cell ⦃go = go⦄ id ≡ reply r
      → OfCell id (record { lat = r.lat; lon = r.lon })
  unfolding Subscriber.get_cell
  replied_cell id r h = elim (Option-cases (Geo.lookup ⦃go = go⦄ id)) [
    | inl unknown ↦ absurd (ground (arith, rw (unknown, Subscriber.get_cell) at h))
    | inr (c, known) ↦
        let sent = rw (known, Subscriber.get_cell) at h in (c, known, ground (arith, sent))
  ]

  replied_tariff :
      (dest : Str) (r : TariffReply F)
      → Subscriber.get_tariff ⦃go = go⦄ dest ≡ reply r
      → OfTariff dest (record { premium = r.premium; rate_per_min = r.rate_per_min })
  unfolding Subscriber.get_tariff
  replied_tariff dest r h = ground (arith, h)

module _ {F S E : Type 0} (go : Go F) (services : Services F S E)
    (asked : AsksSubscriber go services) (p : Processor F) where
  -- Both caches hold only what the catalogs have.
  pub record Faithful (st : Memory F S) : Type 0 where
    pub cells : Holds (OfCell go) st.cell_cache
    pub tariffs : Holds (OfTariff go) st.tariff_cache

  loaded_cell :
      (id : Str) (s : S) (cg : CellGeo F)
      → ((services.get_cell grpc_timeout id >>= λ c. pure (record { lat = c.lat; lon = c.lon }))
          s).1
        ≡ ok cg
      → OfCell go id cg
  unfolding ◌>>=◌
  loaded_cell id s cg h = elim (Outcome-cases (services.get_cell grpc_timeout id s).1) [
    | inr (e, failed) ↦ absurd (ground (arith, rw (failed, ◌>>=◌) at h))
    | inl (r, answered) ↦
        subst (OfCell go id) (ground (arith, rw (answered, ◌>>=◌) at h))
          (replied_cell go id r (asked.cell_reply grpc_timeout id s r answered))
  ]

  loaded_tariff :
      (dest : Str) (s : S) (ti : TariffInfo F)
      → ((services.get_tariff grpc_timeout dest >>= λ t.
            pure (record { premium = t.premium; rate_per_min = t.rate_per_min }))
          s).1
        ≡ ok ti
      → OfTariff go dest ti
  unfolding ◌>>=◌
  loaded_tariff dest s ti h = elim (Outcome-cases (services.get_tariff grpc_timeout dest s).1) [
    | inr (e, failed) ↦ absurd (ground (arith, rw (failed, ◌>>=◌) at h))
    | inl (r, answered) ↦
        subst (OfTariff go dest) (ground (arith, rw (answered, ◌>>=◌) at h))
          (replied_tariff go dest r (asked.tariff_reply grpc_timeout dest s r answered))
  ]

  get_cell_geo-Faithful : (id : Str) → Preserves Faithful (get_cell_geo ⦃go = go⦄ services p id)
  unfolding get_cell_geo
  get_cell_geo-Faithful id = record {
    runs = λ st faithful. record {
      cells =
          (get-Holds (OfCell go) st.cell_cache id (services.now st.outside) _ faithful.cells
            (loaded_cell id st.outside)).0;
      tariffs = faithful.tariffs;
    };
  }

  get_tariff-Faithful : (dest : Str) → Preserves Faithful (get_tariff ⦃go = go⦄ services p dest)
  unfolding get_tariff
  get_tariff-Faithful dest = record {
    runs = λ st faithful. record {
      cells = faithful.cells;
      tariffs =
          (get-Holds (OfTariff go) st.tariff_cache dest (services.now st.outside) _ faithful.tariffs
            (loaded_tariff dest st.outside)).0;
    };
  }

  -- What they return is what the catalogs have, however old the entry of the cache.
  pub get_cell_geo-OfCell :
      (id : Str) (st : Memory F S) (cg : CellGeo F)
      → Faithful st
      → (get_cell_geo ⦃go = go⦄ services p id st).1 ≡ ok cg
      → OfCell go id cg
  unfolding get_cell_geo
  get_cell_geo-OfCell id st cg faithful =
      (get-Holds (OfCell go) st.cell_cache id (services.now st.outside) _ faithful.cells
          (loaded_cell id st.outside)).1
        cg

  pub get_tariff-OfTariff :
      (dest : Str) (st : Memory F S) (ti : TariffInfo F)
      → Faithful st
      → (get_tariff ⦃go = go⦄ services p dest st).1 ≡ ok ti
      → OfTariff go dest ti
  unfolding get_tariff
  get_tariff-OfTariff dest st ti faithful =
      (get-Holds (OfTariff go) st.tariff_cache dest (services.now st.outside) _ faithful.tariffs
          (loaded_tariff dest st.outside)).1
        ti

  -- A change of the outside world leaves the caches alone.
  pub outwards-Faithful : {A : Type 0} (m : Action S E A) → Preserves Faithful (outwards m)
  outwards-Faithful m = record {
    runs = λ st faithful. record { cells = faithful.cells; tariffs = faithful.tariffs };
  }

  pub check_impossible_travel-Faithful :
      (rec : Cdr) → Preserves Faithful (check_impossible_travel ⦃go = go⦄ services p rec)
  unfolding check_impossible_travel
  check_impossible_travel-Faithful rec =
      Preserves-bind Faithful (Preserves-attempt Faithful (get_cell_geo-Faithful rec.cell_id))
        λ found. Preserves-or_skip Faithful found (λ cg. outwards-Faithful _)

  pub check_irsf-Faithful : (rec : Cdr) → Preserves Faithful (check_irsf ⦃go = go⦄ services p rec)
  unfolding check_irsf
  check_irsf-Faithful rec =
      Preserves-bind Faithful (Preserves-attempt Faithful (get_tariff-Faithful rec.callee_msisdn))
        λ found. Preserves-or_skip Faithful found (λ ti. outwards-Faithful _)

  check_all-Faithful : (rec : Cdr) → Preserves Faithful (check_all ⦃go = go⦄ services p rec)
  unfolding check_all
  check_all-Faithful rec = Preserves-bind Faithful (outwards-Faithful _) λ _.
      Preserves-bind Faithful (check_impossible_travel-Faithful rec)
        λ _. Preserves-bind Faithful (check_irsf-Faithful rec) λ _. outwards-Faithful _

  pub handle-Faithful : (value : Str) → Preserves Faithful (handle ⦃go = go⦄ services p value)
  unfolding handle
  handle-Faithful value = elim (Outcome-cases (services.unmarshal_cdr value)) [
    | inr (e, bad) ↦ rw (bad, handle) (Preserves-pure Faithful tt)
    | inl (rec, parsed) ↦
        rw (parsed, handle)
          (Preserves-bind Faithful (outwards-Faithful _) λ already.
            Preserves-if Faithful already (Preserves-pure Faithful tt) (check_all-Faithful rec))
  ]
