-- ===== src/Fraud/Processor/Reference/Rounds.antt =====
-- The consume loop of the fraud service from its start, and the two rules that use reference data in
-- the states that it reaches.
use go_cdr_fraud_detector.Base.{◌≡◌, refl, ap, ◌⊎◌, inl, inr, true, false, Option, some}
use go_cdr_fraud_detector.Base.Text.{Str}
use go_cdr_fraud_detector.Cdr.{Cdr}
use go_cdr_fraud_detector.Go.{Go}
use go_cdr_fraud_detector.Geo
use go_cdr_fraud_detector.Geo.{Cell}
use go_cdr_fraud_detector.Fraud.Cache.{ok, err, Outcome-cases}
use go_cdr_fraud_detector.Fraud.Cache.Holds.{new_ref_cache-Holds}
use go_cdr_fraud_detector.Fraud.Action.{or_skip, ◌>>=◌}
use go_cdr_fraud_detector.Fraud.Retry.{Ending, returned, panicked}
use go_cdr_fraud_detector.Fraud.Retry.Preserves.{PreservesAll, run_with_retry-preserves}
use go_cdr_fraud_detector.Fraud.Services.{Services, Fetched}
use go_cdr_fraud_detector.Fraud.Processor.{
  Processor, Memory, CellGeo, TariffInfo, outwards, get_cell_geo, get_tariff, visit, accrue,
  check_impossible_travel, check_irsf,
}
use go_cdr_fraud_detector.Fraud.Processor.Loop.{new_memory, retry_env, commit_if, round}
use go_cdr_fraud_detector.Fraud.Processor.Reference.{
  AsksSubscriber, OfCell, tariff_of, Faithful, get_cell_geo-OfCell, get_tariff-OfTariff,
  outwards-Faithful, handle-Faithful,
}

-- The states between two rounds of the consume loop. In between, anything may happen outside of the
-- process.
pub data Reached {F S E : Type 0} (go : Go F) (services : Services F S E) (p : Processor F)
    (env : Str → Option Str) : Memory F S → Type 0 where
  starts : (s : S) → Reached go services p env (new_memory ⦃go = go⦄ services env s)
  rounds :
      {st : Memory F S}
      → Reached go services p env st
      → Reached go services p env (round ⦃go = go⦄ services p st).0
  meanwhile :
      {st : Memory F S} (s : S)
      → Reached go services p env st
      → Reached go services p env (record st { outside = s })

module _ {F S E : Type 0} (go : Go F) (services : Services F S E)
    (asked : AsksSubscriber go services) (p : Processor F) where
  abbrev pub Holding : Memory F S → Type 0
  Holding = Faithful go services asked p

  retry_env-Holding : PreservesAll (retry_env ⦃go = go⦄ services p) Holding
  retry_env-Holding = record {
    handles = λ value. (handle-Faithful go services asked p value).runs;
    pauses = λ st h. record { cells = h.cells; tariffs = h.tariffs };
    writes = λ m st h. record { cells = h.cells; tariffs = h.tariffs };
    counts = λ st h. h;
  }

  commit_if-Holding :
      (m : Fetched) (x : Memory F S × Ending)
      → Holding x.0
      → Holding (commit_if ⦃go = go⦄ services m x).0
  unfolding commit_if
  commit_if-Holding m (st, returned true) h = record { cells = h.cells; tariffs = h.tariffs }
  commit_if-Holding m (st, returned false) h = h
  commit_if-Holding m (st, panicked) h = h

  round-Holding : (st : Memory F S) → Holding st → Holding (round ⦃go = go⦄ services p st).0
  unfolding round
  round-Holding st h =
      let fetched = (outwards-Faithful go services asked p services.fetch).runs st h in
      elim (Outcome-cases (services.fetch st.outside).1) [
        | inr (e, failed) ↦ rw (failed, round) fetched
        | inl (m, got) ↦
            rw (got, round)
              (commit_if-Holding m _ (
                run_with_retry-preserves (retry_env ⦃go = go⦄ services p) Holding retry_env-Holding
                  m.value p.max_attempts _ fetched))
      ]

  pub Reached-Holding :
      {env : Str → Option Str} {st : Memory F S} → Reached go services p env st → Holding st
  unfolding new_memory
  Reached-Holding (starts s) = record {
    cells = new_ref_cache-Holds (OfCell go) _;
    tariffs = new_ref_cache-Holds _ _;
  }
  Reached-Holding (rounds {st} r) = round-Holding st (Reached-Holding r)
  Reached-Holding (meanwhile s r) =
      let h = Reached-Holding r in record { cells = h.cells; tariffs = h.tariffs }

  -- The rules over a state whose caches hold only what the catalogs have.
  pub travel-catalog :
      (rec : Cdr) (st : Memory F S)
      → Holding st
      → let (st', found) = get_cell_geo ⦃go = go⦄ services p rec.cell_id st in
        ((e : E) × (found ≡ err e)
          × (check_impossible_travel ⦃go = go⦄ services p rec st ≡ (st', ok tt)))
        ⊎ ((c : Cell F) × (Geo.lookup ⦃go = go⦄ rec.cell_id ≡ some c)
            × (check_impossible_travel ⦃go = go⦄ services p rec st
                ≡ outwards
                    (visit ⦃go = go⦄ services p rec
                      (record { lat = c.lat; lon = c.lon; at = rec.start_time }))
                    st'))
  unfolding check_impossible_travel or_skip ◌>>=◌
  travel-catalog rec st h =
      elim (Outcome-cases (get_cell_geo ⦃go = go⦄ services p rec.cell_id st).1) [
        | inr (e, failed) ↦
            inl (e, failed, rw (failed, check_impossible_travel, or_skip, ◌>>=◌) refl)
        | inl (cg, found) ↦
            let (c, known, same) =
              get_cell_geo-OfCell go services asked p rec.cell_id st cg h found in
            inr (
              c,
              known,
              rw (found, check_impossible_travel, or_skip, ◌>>=◌)
                  (ap
                    (λ (g : CellGeo F).
                      outwards
                        (visit ⦃go = go⦄ services p rec
                          (record { lat = g.lat; lon = g.lon; at = rec.start_time }))
                        (get_cell_geo ⦃go = go⦄ services p rec.cell_id st).0)
                    same),
            )
      ]

  pub irsf-catalog :
      (rec : Cdr) (st : Memory F S)
      → Holding st
      → let (st', found) = get_tariff ⦃go = go⦄ services p rec.callee_msisdn st in
        ((e : E) × (found ≡ err e) × (check_irsf ⦃go = go⦄ services p rec st ≡ (st', ok tt)))
        ⊎ (check_irsf ⦃go = go⦄ services p rec st
            ≡ outwards (accrue ⦃go = go⦄ services p rec (tariff_of go rec.callee_msisdn)) st')
  unfolding check_irsf or_skip ◌>>=◌
  irsf-catalog rec st h =
      elim (Outcome-cases (get_tariff ⦃go = go⦄ services p rec.callee_msisdn st).1) [
        | inr (e, failed) ↦ inl (e, failed, rw (failed, check_irsf, or_skip, ◌>>=◌) refl)
        | inl (ti, found) ↦
            let same = get_tariff-OfTariff go services asked p rec.callee_msisdn st ti h found in
            inr (
              rw (found, check_irsf, or_skip, ◌>>=◌)
                (ap
                  (λ (t : TariffInfo F).
                    outwards (accrue ⦃go = go⦄ services p rec t)
                      (get_tariff ⦃go = go⦄ services p rec.callee_msisdn st).0)
                  same))
      ]

  -- Between any two rounds of the consume loop since its start, however old the entries of its caches are
  -- and whatever happened outside of the process, the travel rule either skips a record, because
  -- getCellGeo fails, or visits the coordinates that the catalog has for the record's cell, which is then
  -- known to it; and the spend rule either skips it, because getTariff fails, or uses the rate and the
  -- premium flag that the tariff catalog gives the number called.
  pub checks-catalog :
      (env : Str → Option Str) (rec : Cdr) (st : Memory F S)
      → Reached go services p env st
      → (let (st', found) = get_cell_geo ⦃go = go⦄ services p rec.cell_id st in
          ((e : E) × (found ≡ err e)
            × (check_impossible_travel ⦃go = go⦄ services p rec st ≡ (st', ok tt)))
          ⊎ ((c : Cell F) × (Geo.lookup ⦃go = go⦄ rec.cell_id ≡ some c)
              × (check_impossible_travel ⦃go = go⦄ services p rec st
                  ≡ outwards
                      (visit ⦃go = go⦄ services p rec
                        (record { lat = c.lat; lon = c.lon; at = rec.start_time }))
                      st')))
        × (let (st', found) = get_tariff ⦃go = go⦄ services p rec.callee_msisdn st in
            ((e : E) × (found ≡ err e) × (check_irsf ⦃go = go⦄ services p rec st ≡ (st', ok tt)))
            ⊎ (check_irsf ⦃go = go⦄ services p rec st
                ≡ outwards (accrue ⦃go = go⦄ services p rec (tariff_of go rec.callee_msisdn)) st'))
  checks-catalog env rec st reached =
      let h = Reached-Holding reached in (travel-catalog rec st h, irsf-catalog rec st h)
