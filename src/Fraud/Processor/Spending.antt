-- ===== src/Fraud/Processor/Spending.antt =====
-- The spend rule of the fraud service against the history of a subscriber's premium calls, with the tariff
-- that the reference service has for the number called.
use go_cdr_fraud_detector.Base.{
  ◌≡◌, refl, ap, ◌∙◌, ◌⊎◌, inl, inr, true, Option, List, [], ◌∷◌, ◌++◌, map, All,
}
use go_cdr_fraud_detector.Base.Int.{pos}
use go_cdr_fraud_detector.Base.Text.{Str, codes}
use go_cdr_fraud_detector.Cdr.{Cdr, irsf}
use go_cdr_fraud_detector.Clock.{unix_milli}
use go_cdr_fraud_detector.Fraud.Action.{◌>>=◌}
use go_cdr_fraud_detector.Fraud.Cache.{Outcome, ok, err, Outcome-cases}
use go_cdr_fraud_detector.Fraud.Processor.{
  Processor, Memory, outwards, get_tariff, accrue, check_irsf, emit_triggered,
}
use go_cdr_fraud_detector.Fraud.Processor.Reference.{AsksSubscriber, tariff_of}
use go_cdr_fraud_detector.Fraud.Processor.Reference.Rounds.{Reached, Reached-Holding, irsf-catalog}
use go_cdr_fraud_detector.Fraud.Services.{Services}
use go_cdr_fraud_detector.Fraud.Windows.{premium_spend_in_window}
use go_cdr_fraud_detector.Fraud.Windows.SortedSets.{HasSortedSets, ComparesExactly, IsWindow}
use go_cdr_fraud_detector.Fraud.Windows.Spend.{Premium, PrintsCosts, IsSpend}
use go_cdr_fraud_detector.Fraud.Windows.Spend.History.{
  entry, latest_calls, in_window, InRange, RangesAll,
}
use go_cdr_fraud_detector.Fraud.Windows.Spend.Total.{Spent, premium_spend_in_window-IsSpend}
use go_cdr_fraud_detector.Go.{Go}
use go_cdr_fraud_detector.Playground.Velocity.{Chronological}
use go_cdr_fraud_detector.Rules.Irsf as IrsfRule
use go_cdr_fraud_detector.Tariff

-- The call of a record, at the rate of the tariff catalog.
abbrev pub charged : {F : Type 0} → Go F → Cdr → Premium F
charged go rec = record {
  record_id = rec.record_id;
  ms = unix_milli rec.start_time;
  cost =
      go.times (go.over (go.of_int rec.duration_sec) (go.of_int (pos 60)))
        (Tariff.lookup ⦃go = go⦄ rec.callee_msisdn).rate_per_min;
}

abbrev pub spend_key : Cdr → Str
spend_key rec = codes "spend:" ++ rec.caller_msisdn

module _ {F S E : Type 0} (go : Go F) (services : Services F S E) (p : Processor F)
    (rec : Cdr) where
  abbrev pub spend_now : S → S × Outcome E F
  spend_now =
      let e = charged go rec in
      premium_spend_in_window ⦃go = go⦄ services (spend_key rec) e.ms p.irsf_window_ms e.record_id
        e.cost

  -- What becomes of a call to a premium number.
  accrue-premium :
      (s : S)
      → (Tariff.lookup ⦃go = go⦄ rec.callee_msisdn).premium ≡ true
      → ((e : E) × ((spend_now s).1 ≡ err e)
          × (accrue ⦃go = go⦄ services p rec (tariff_of go rec.callee_msisdn) s
              ≡ ((spend_now s).0, err e)))
        ⊎ ((x : F) × ((spend_now s).1 ≡ ok x)
            × (accrue ⦃go = go⦄ services p rec (tariff_of go rec.callee_msisdn) s
                ≡ emit_triggered ⦃go = go⦄ services p rec irsf
                    (IrsfRule.evaluate ⦃go = go⦄ p.irsf_rule x)
                    (spend_now s).0))
  unfolding accrue ◌>>=◌
  accrue-premium s premium = elim (Outcome-cases (spend_now s).1) [
    | inr (e, failed) ↦ inl (e, failed, rw (premium, failed, accrue, ◌>>=◌) refl)
    | inl (x, good) ↦ inr (x, good, rw (premium, good, accrue, ◌>>=◌) refl)
  ]

module _ {F S E : Type 0} (go : Go F) (exact : ComparesExactly go) (prints : PrintsCosts go)
    (services : Services F S E) (sets : HasSortedSets go services) (ranges : RangesAll sets)
    (asked : AsksSubscriber go services) (p : Processor F) (rec : Cdr) where
  -- The result of an action on the outside world, in the memory.
  abbrev put : {A : Type 0} → Memory F S → S × Outcome E A → Memory F S × Outcome E A
  put st r = (record st { outside = r.0 }, r.1)

  -- How checkIRSF ends, if the spend is one of these calls.
  abbrev pub SpendEnds : Memory F S → List (Premium F) → Type 0
  SpendEnds st es =
      let (u, found) = get_tariff ⦃go = go⦄ services p rec.callee_msisdn st in
      ((e : E) × (found ≡ err e) × (check_irsf ⦃go = go⦄ services p rec st ≡ (u, ok tt)))
      ⊎ ((e : E) × ((spend_now go services p rec u.outside).1 ≡ err e)
          × (check_irsf ⦃go = go⦄ services p rec st
              ≡ (record u { outside = (spend_now go services p rec u.outside).0 }, err e)))
      ⊎ ((x : F) × IsSpend go prints x es
          × (check_irsf ⦃go = go⦄ services p rec st
              ≡ outwards
                  (λ s.
                    emit_triggered ⦃go = go⦄ services p rec irsf
                      (IrsfRule.evaluate ⦃go = go⦄ p.irsf_rule x) (spend_now go services p rec s).0)
                  u))

  -- checkIRSF for a number that the tariff catalog marks as premium, between any two rounds of the
  -- consume loop. After chronological premium calls of the caller that were added to an empty window, it
  -- skips the record, because getTariff fails; or it fails with the error of the window's transaction; or it goes on
  -- with the verdict of the rule on a sum, in some order, of the printed costs of the calls newer than
  -- the window, this one included, at its minutes times the catalog's rate; a redelivered call counts
  -- once. The window is at least a millisecond and at most 4,611,686,018,427. The laws are those of the two theorems that it joins, on the caches and on the window.
  pub check_irsf-spent :
      (env : Str → Option Str) (st : Memory F S) (s : S) (h : List (Premium F))
      → IsWindow p.irsf_window_ms
      → (Tariff.lookup ⦃go = go⦄ rec.callee_msisdn).premium ≡ true
      → Reached go services p env st
      → sets.zset (spend_key rec) s ≡ []
      → Chronological p.irsf_window_ms (map (entry go) (h ++ charged go rec ∷ []))
      → All (InRange go p.irsf_window_ms) (map (entry go) (h ++ charged go rec ∷ []))
      → Spent go exact prints services sets ranges
          (spend_key rec)
          p.irsf_window_ms
          s
          h
          (get_tariff ⦃go = go⦄ services p rec.callee_msisdn st).0.outside
      → SpendEnds st (
          in_window go p.irsf_window_ms
            (charged go rec)
            (latest_calls go [] (h ++ charged go rec ∷ [])))
  check_irsf-spent env st s h wide premium reached empty ordered range run =
      let u = (get_tariff ⦃go = go⦄ services p rec.callee_msisdn st).0 in
      elim (irsf-catalog go services asked p rec st (Reached-Holding go services asked p reached)) [
        | inl skipped ↦ inl skipped
        | inr accrued ↦ elim (accrue-premium go services p rec u.outside premium) [
          | inl (e, bad, failed) ↦ inr (inl (e, bad, accrued ∙ ap (put u) failed))
          | inr (x, good, raised) ↦ inr (
              inr (
                x,
                premium_spend_in_window-IsSpend go exact prints services sets ranges (spend_key rec)
                    p.irsf_window_ms s u.outside h (charged go rec) x wide empty ordered range run
                    good,
                accrued ∙ ap (put u) raised,
              ))
        ]
      ]
