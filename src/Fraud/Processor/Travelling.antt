-- ===== src/Fraud/Processor/Travelling.antt =====
-- The travel rule of the fraud service for two records of a subscriber, one after the other.
use go_cdr_fraud_detector.Base.{◌≡◌, sym, ap, subst, ◌∙◌, ◌⊎◌, inl, inr, Option, some, arith}
use go_cdr_fraud_detector.Base.Text.{Str}
use go_cdr_fraud_detector.Cdr.{Cdr}
use go_cdr_fraud_detector.Fraud.Cache.{Outcome, ok, err}
use go_cdr_fraud_detector.Fraud.Processor.{
  Processor, Memory, CellGeo, outwards, get_cell_geo, check_impossible_travel,
}
use go_cdr_fraud_detector.Fraud.Processor.Reference.{AsksSubscriber}
use go_cdr_fraud_detector.Fraud.Processor.Reference.Rounds.{
  Reached, Reached-Holding, travel-catalog,
}
use go_cdr_fraud_detector.Fraud.Services.{Services, LastLoc}
use go_cdr_fraud_detector.Geo
use go_cdr_fraud_detector.Geo.{Cell}
use go_cdr_fraud_detector.Go.{Go}
use go_cdr_fraud_detector.Fraud.Processor.Locations.{
  StoresLocations, location_key, Remembers, travels, visit-Remembers, visit-travels,
}

-- Where a record was, by the catalog.
abbrev pub located : {F : Type 0} → Cdr → Cell F → LastLoc F
located rec c = record { lat = c.lat; lon = c.lon; at = rec.start_time }

module _ {F S E : Type 0} (go : Go F) (services : Services F S E) (store : StoresLocations services)
    (asked : AsksSubscriber go services) (p : Processor F) where
  -- How checkImpossibleTravel ends, if the last location of the caller is this one.
  abbrev pub TravelEnds : Cdr → LastLoc F → Memory F S → Type 0
  TravelEnds rec last st =
      let (u, found) = get_cell_geo ⦃go = go⦄ services p rec.cell_id st in
      let read = λ (s : S). (services.get_key (location_key rec.caller_msisdn) s).0 in
      ((e : E) × (found ≡ err e)
        × (check_impossible_travel ⦃go = go⦄ services p rec st ≡ (u, ok tt)))
      ⊎ ((e : E) × ((services.get_key (location_key rec.caller_msisdn) u.outside).1 ≡ err e)
          × (check_impossible_travel ⦃go = go⦄ services p rec st
              ≡ (record u { outside = read u.outside }, err e)))
      ⊎ ((c : Cell F) × (Geo.lookup ⦃go = go⦄ rec.cell_id ≡ some c)
          × (check_impossible_travel ⦃go = go⦄ services p rec st
              ≡ outwards (λ s. travels go services store p rec last (located rec c) (read s)) u))

  abbrev kept : Memory F S → S × Outcome E (Unit {0}) → Memory F S × Outcome E (Unit {0})
  kept st r = (record st { outside = r.0 }, r.1)

  travel-Remembers :
      (env : Str → Option Str) (rec : Cdr) (a : Cell F) (st end : Memory F S) (cg : CellGeo F)
      → Reached go services p env st
      → Geo.lookup ⦃go = go⦄ rec.cell_id ≡ some a
      → (get_cell_geo ⦃go = go⦄ services p rec.cell_id st).1 ≡ ok cg
      → check_impossible_travel ⦃go = go⦄ services p rec st ≡ (end, ok tt)
      → Remembers go services store rec.caller_msisdn (located rec a) end.outside
  travel-Remembers env rec a st end cg reached at found checks =
      elim (travel-catalog go services asked p rec st
        (Reached-Holding go services asked p reached)) [
          | inl (e, failed, _) ↦ absurd (ground (arith, found, failed))
          | inr (c, known, visits) ↦
              let done = sym visits ∙ checks in
              let same : c ≡ a = ground (arith, known, at) in
              subst
                (λ (d : Cell F).
                  Remembers go services store rec.caller_msisdn (located rec d) end.outside)
                same
                (visit-Remembers go services store p rec (located rec c) _ end.outside (
                  ap
                    (λ (x : Memory F S × Outcome E (Unit {0})).
                      let y : S × Outcome E (Unit {0}) = (x.0.outside, x.1) in y)
                    done))
        ]

  travel-TravelEnds :
      (env : Str → Option Str) (rec : Cdr) (last : LastLoc F) (st : Memory F S)
      → Reached go services p env st
      → Remembers go services store rec.caller_msisdn last
          (get_cell_geo ⦃go = go⦄ services p rec.cell_id st).0.outside
      → TravelEnds rec last st
  travel-TravelEnds env rec last st reached held =
      let u = (get_cell_geo ⦃go = go⦄ services p rec.cell_id st).0 in
      elim (travel-catalog go services asked p rec st
        (Reached-Holding go services asked p reached)) [
          | inl skipped ↦ inl skipped
          | inr (c, known, visits) ↦
              elim (visit-travels go services store p rec last (located rec c) u.outside held) [
                | inl (e, unread, failed) ↦ inr (inl (e, unread, visits ∙ ap (kept u) failed))
                | inr travelled ↦ inr (inr (c, known, visits ∙ ap (kept u) travelled))
              ]
        ]

  -- If the check of a record, with the cell of the catalog that was found for it, succeeds between two
  -- rounds of the consume loop, and the caller's location in Redis is then left alone, the check of a
  -- later record of the caller either skips it, because getCellGeo fails, or fails with the error
  -- of Redis when it reads the location; or it takes the verdict of the rule on the haversine distance of the two
  -- catalog cells and the time between the two records, in either order, raises that, and stores the
  -- place of the later record. Redis is taken to store values and encoding/json to read back what it
  -- wrote.
  pub check_impossible_travel-again :
      (env : Str → Option Str) (first later : Cdr) (a : Cell F) (cg : CellGeo F)
      (st end next : Memory F S)
      → Reached go services p env st
      → Geo.lookup ⦃go = go⦄ first.cell_id ≡ some a
      → (get_cell_geo ⦃go = go⦄ services p first.cell_id st).1 ≡ ok cg
      → check_impossible_travel ⦃go = go⦄ services p first st ≡ (end, ok tt)
      → Reached go services p env next
      → later.caller_msisdn ≡ first.caller_msisdn
      → store.stored
          (location_key first.caller_msisdn)
          (get_cell_geo ⦃go = go⦄ services p later.cell_id next).0.outside
        ≡ store.stored (location_key first.caller_msisdn) end.outside
      → TravelEnds later (located first a) next
  check_impossible_travel-again env first later a cg st end next reached at found checks reached'
        same kept_key =
      let (b, held, read) = travel-Remembers env first a st end cg reached at found checks in
      let u = (get_cell_geo ⦃go = go⦄ services p later.cell_id next).0.outside in
      travel-TravelEnds env later (located first a) next reached' (
        subst (λ m. Remembers go services store m (located first a) u) (sym same)
          (b, kept_key ∙ held, read))
