-- ===== src/Fraud/Processor/Settled.antt =====
-- What it means that the handling of a record succeeds.
use go_cdr_fraud_detector.Base.{◌≡◌, refl, sym, ◌∙◌, ap, Bool, true, false, if◌then◌else◌, arith}
use go_cdr_fraud_detector.Base.Text.{Str}
use go_cdr_fraud_detector.Cdr.{Cdr}
use go_cdr_fraud_detector.Go.{Go}
use go_cdr_fraud_detector.Fraud.Cache.{Outcome, ok, err}
use go_cdr_fraud_detector.Fraud.Action.{Action, pure, ◌>>=◌}
use go_cdr_fraud_detector.Fraud.Services.{Services}
use go_cdr_fraud_detector.Fraud.Windows.{seen, mark_seen}
use go_cdr_fraud_detector.Fraud.Processor.{
  Processor, Memory, outwards, check_velocity, check_impossible_travel, check_irsf, check_all,
  handle,
}

-- Why a handling succeeds: the bytes are no record, the record is marked as seen already, or the
-- three checks succeed and then, as the last operation, the mark is written.
pub data Settled {F S E : Type 0} (go : Go F) (services : Services F S E) (p : Processor F)
    (value : Str) (st : Memory F S) (end : Memory F S) : Type 0 where
  unparsable :
      {e : E} → services.unmarshal_cdr value ≡ err e → end ≡ st → Settled go services p value st end
  repeated :
      {rec : Cdr}
      → services.unmarshal_cdr value ≡ ok rec
      → (outwards (seen ⦃go = go⦄ services rec.record_id) st) ≡ (end, ok true)
      → Settled go services p value st end
  checked :
      {rec : Cdr} {a b c d : Memory F S}
      → services.unmarshal_cdr value ≡ ok rec
      → outwards (seen ⦃go = go⦄ services rec.record_id) st ≡ (a, ok false)
      → outwards (check_velocity ⦃go = go⦄ services p rec) a ≡ (b, ok tt)
      → check_impossible_travel ⦃go = go⦄ services p rec b ≡ (c, ok tt)
      → check_irsf ⦃go = go⦄ services p rec c ≡ (d, ok tt)
      → outwards (mark_seen ⦃go = go⦄ services rec.record_id p.seen_ttl) d ≡ (end, ok tt)
      → Settled go services p value st end

-- The steps of a chain that succeeds.
pub bind_ok :
    {S E A B : Type 0} (m : Action S E A) (f : A → Action S E B) (s : S) {t : S} {b : B}
    → (m >>= f) s ≡ (t, ok b)
    → (a : A) × (u : S) × (m s ≡ (u, ok a)) × (f a u ≡ (t, ok b))
unfolding ◌>>=◌
bind_ok {S} {E} {A} {B} m f s {t} {b} h = split (m s).1 refl
  where
    split :
        (r : Outcome E A)
        → (m s).1 ≡ r
        → (a : A) × (u : S) × (m s ≡ (u, ok a)) × (f a u ≡ (t, ok b))
    split (ok a) e = (a, (m s).0, ap (λ x. ((m s).0, x)) e, rw (e, ◌>>=◌) at h)
    split (err x) e = absurd (ground (arith, e, h))

module _ {F S E : Type 0} (go : Go F) (services : Services F S E) (p : Processor F) where
  -- A record that is checked, and then marked.
  check_all-Settled :
      (value : Str) (rec : Cdr) (st a end : Memory F S)
      → services.unmarshal_cdr value ≡ ok rec
      → outwards (seen ⦃go = go⦄ services rec.record_id) st ≡ (a, ok false)
      → check_all ⦃go = go⦄ services p rec a ≡ (end, ok tt)
      → Settled go services p value st end
  unfolding check_all
  check_all-Settled value rec st a end parsed new h =
      let (_, b, velocity_ok, h₁) =
        bind_ok (outwards (check_velocity ⦃go = go⦄ services p rec)) _ a h in
      let (_, c, travel_ok, h₂) =
        bind_ok (check_impossible_travel ⦃go = go⦄ services p rec) _ b h₁ in
      let (_, d, irsf_ok, marked) = bind_ok (check_irsf ⦃go = go⦄ services p rec) _ c h₂ in
      checked parsed new velocity_ok travel_ok irsf_ok marked

  pub handle-Settled :
      (value : Str) (st end : Memory F S)
      → handle ⦃go = go⦄ services p value st ≡ (end, ok tt)
      → Settled go services p value st end
  unfolding handle
  handle-Settled value st end h = split (services.unmarshal_cdr value) refl
    where
      after_seen :
          (rec : Cdr) (a : Memory F S) (already : Bool)
          → services.unmarshal_cdr value ≡ ok rec
          → outwards (seen ⦃go = go⦄ services rec.record_id) st ≡ (a, ok already)
          → (if already then pure tt else check_all ⦃go = go⦄ services p rec) a ≡ (end, ok tt)
          → Settled go services p value st end
      after_seen rec a true parsed old h' =
          repeated parsed (old ∙ ap (λ x. (x, ok true)) (ap (λ x. x.0) h'))
      after_seen rec a false parsed new h' = check_all-Settled value rec st a end parsed new h'

      split :
          (r : Outcome E Cdr)
          → services.unmarshal_cdr value ≡ r
          → Settled go services p value st end
      split (err e) bad = unparsable bad (ap (λ x. x.0) (sym (rw (bad, handle) at h)))
      split (ok rec) parsed =
          let (already, a, known, h') =
            bind_ok (outwards (seen ⦃go = go⦄ services rec.record_id)) _ st
              (rw (parsed, handle) at h) in
          after_seen rec a already parsed known h'
