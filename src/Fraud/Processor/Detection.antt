-- ===== src/Fraud/Processor/Detection.antt =====
-- The velocity rule of the fraud service against the whole history of a subscriber.
use go_cdr_fraud_detector.Base.{
  ◌≡◌, refl, ap, ◌∙◌, ◌⊎◌, inl, inr, ◌&&◌, List, [], ◌∷◌, ◌++◌, All, keep, length, if◌then◌else◌,
  arith,
}
use go_cdr_fraud_detector.Base.Int.{ℤ, pos, ltb_ℤ, leb_ℤ}
use go_cdr_fraud_detector.Base.Int64.{sub64}
use go_cdr_fraud_detector.Base.Text.{Str, codes}
use go_cdr_fraud_detector.Base.Dict.{lookup-nil}
use go_cdr_fraud_detector.Clock.{unix_milli}
use go_cdr_fraud_detector.Cdr.{Cdr, velocity}
use go_cdr_fraud_detector.Go.{Go}
use go_cdr_fraud_detector.Go.Sample.{in_order, in_order-VisitsAll}
use go_cdr_fraud_detector.Rules.Velocity as VelocityRule
use go_cdr_fraud_detector.Rules.Velocity.{velocity_evidence}
use go_cdr_fraud_detector.Playground.{Engine, new_engine}
use go_cdr_fraud_detector.Playground.Windows.{live}
use go_cdr_fraud_detector.Playground.Velocity.{latest, Chronological, velocity_count-deliver}
use go_cdr_fraud_detector.Fraud.Action.{◌>>=◌}
use go_cdr_fraud_detector.Fraud.Cache.{Outcome, ok, err, Outcome-cases}
use go_cdr_fraud_detector.Fraud.Services.{Services}
use go_cdr_fraud_detector.Fraud.Windows.{sliding_window_count}
use go_cdr_fraud_detector.Fraud.Windows.SortedSets.{HasSortedSets, ComparesExactly, IsWindow}
use go_cdr_fraud_detector.Fraud.Windows.Mirror.{InRange, Fed, sliding_window_count-velocity_count}
use go_cdr_fraud_detector.Fraud.Processor.{Processor, check_velocity, maybe_emit, emit_triggered}

abbrev pub delivery : Cdr → Str × ℤ
delivery rec = (rec.record_id, unix_milli rec.start_time)

-- How many records of a history are counted with the current one.
abbrev pub counted : ℤ → Cdr → List (Str × ℤ) → ℤ
counted window_ms rec h =
    let cutoff = sub64 (unix_milli rec.start_time) window_ms in
    pos (length (keep (live cutoff) (latest [] (h ++ delivery rec ∷ []))))

module _ {F S E : Type 0} (go : Go F) (services : Services F S E) (p : Processor F)
    (rec : Cdr) where
  abbrev pub count_now : S → S × Outcome E ℤ
  count_now =
      sliding_window_count ⦃go = go⦄ services (codes "velocity:" ++ rec.caller_msisdn)
        (unix_milli rec.start_time) p.window_ms rec.record_id

  -- What follows a count that succeeds.
  abbrev pub after_count : S → ℤ → S × Outcome E (Unit {0})
  after_count t k =
      if ltb_ℤ (pos 0) p.vel.threshold && leb_ℤ p.vel.threshold k
      then maybe_emit ⦃go = go⦄ services p rec velocity
          (go.over (go.of_int k) (go.of_int p.vel.threshold)) (velocity_evidence go p.vel k)
          (count_now t).0
      else ((count_now t).0, ok tt)

  -- What the rule makes of a count.
  verdict_lem :
      (n : ℤ) (s : S)
      → emit_triggered ⦃go = go⦄ services p rec velocity (VelocityRule.evaluate ⦃go = go⦄ p.vel n) s
        ≡ (if ltb_ℤ (pos 0) p.vel.threshold && leb_ℤ p.vel.threshold n
            then maybe_emit ⦃go = go⦄ services p rec velocity
                (go.over (go.of_int n) (go.of_int p.vel.threshold))
                (velocity_evidence go p.vel n)
                s
            else (s, ok tt))
  unfolding emit_triggered VelocityRule.evaluate
  verdict_lem n s = ground arith

module _ {F S E : Type 0} (go : Go F) (exact : ComparesExactly go) (services : Services F S E)
    (sets : HasSortedSets go services) (p : Processor F) (rec : Cdr) where
  count-counted :
      (s t : S) (h : List (Str × ℤ)) (n : ℤ)
      → IsWindow p.window_ms
      → sets.zset (codes "velocity:" ++ rec.caller_msisdn) s ≡ []
      → Chronological p.window_ms (h ++ delivery rec ∷ [])
      → All (InRange go exact services sets rec.caller_msisdn p.window_ms) (h ++ delivery rec ∷ [])
      → Fed go exact services sets rec.caller_msisdn p.window_ms s h t
      → (count_now go services p rec t).1 ≡ ok n
      → n ≡ counted p.window_ms rec h
  count-counted s t h n wide empty ordered range run good =
      let e : Engine F = record (new_engine ⦃go = go⦄) { window_ms = p.window_ms; vel_win = [] } in
      sliding_window_count-velocity_count go exact services sets rec.caller_msisdn (λ k. in_order)
        in_order e s t h rec.record_id (unix_milli rec.start_time) n (λ k. in_order-VisitsAll)
        in_order-VisitsAll wide (lookup-nil rec.caller_msisdn) empty range run good
      ∙ velocity_count-deliver rec.caller_msisdn (λ k. in_order) in_order e h rec.record_id
          (unix_milli rec.start_time) (λ k. in_order-VisitsAll) in_order-VisitsAll
          (lookup-nil rec.caller_msisdn) ordered

  -- checkVelocity over Redis against the whole history of its caller. After chronological counts of the
  -- caller that succeeded, from an empty window, it fails with the error of its count, or it goes on to
  -- maybeEmit exactly if the threshold is positive and at most the number of different record ids of
  -- the history and the current record whose latest delivery is newer than the window, with that
  -- number in score and evidence; otherwise it succeeds after the count alone. The window is at least a
  -- millisecond and at most 4,611,686,018,427; the transactions are taken to execute as Redis documents
  -- and not to be undone by the end of the time to live, and the times to be after 1970 and, like their
  -- cutoffs, exact in float64.
  pub check_velocity-counted :
      (s t : S) (h : List (Str × ℤ))
      → IsWindow p.window_ms
      → sets.zset (codes "velocity:" ++ rec.caller_msisdn) s ≡ []
      → Chronological p.window_ms (h ++ delivery rec ∷ [])
      → All (InRange go exact services sets rec.caller_msisdn p.window_ms) (h ++ delivery rec ∷ [])
      → Fed go exact services sets rec.caller_msisdn p.window_ms s h t
      → ((e : E) × ((count_now go services p rec t).1 ≡ err e)
          × (check_velocity ⦃go = go⦄ services p rec t
              ≡ ((count_now go services p rec t).0, err e)))
        ⊎ (check_velocity ⦃go = go⦄ services p rec t
            ≡ after_count go services p rec t (counted p.window_ms rec h))
  unfolding check_velocity ◌>>=◌
  check_velocity-counted s t h wide empty ordered range run =
      elim (Outcome-cases (count_now go services p rec t).1) [
        | inr (e, bad) ↦ inl (e, bad, rw (bad, check_velocity, ◌>>=◌) refl)
        | inl (n, good) ↦ inr (
            rw (good, check_velocity, ◌>>=◌)
              (verdict_lem go services p rec n (count_now go services p rec t).0
                ∙ ap (after_count go services p rec t)
                    (count-counted s t h n wide empty ordered range run good)))
      ]
