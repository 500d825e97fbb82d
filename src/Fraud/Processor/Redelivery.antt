-- ===== src/Fraud/Processor/Redelivery.antt =====
-- A record that is delivered again.
use go_cdr_fraud_detector.Base.{
  ◌≡◌, refl, sym, ap, subst, ◌∙◌, ◌++◌, Bool, true, arith, if◌then◌else◌,
}
use go_cdr_fraud_detector.Base.Int.{ℤ, pos, ltb_ℤ, ◌<ℤ◌}
use go_cdr_fraud_detector.Base.Text.{Str, codes}
use go_cdr_fraud_detector.Clock.{Duration}
use go_cdr_fraud_detector.Cdr.{Cdr}
use go_cdr_fraud_detector.Go.{Go}
use go_cdr_fraud_detector.Fraud.Cache.{Outcome, ok, err}
use go_cdr_fraud_detector.Fraud.Action.{◌>>=◌}
use go_cdr_fraud_detector.Fraud.Services.{Services}
use go_cdr_fraud_detector.Fraud.Windows.{seen, mark_seen}
use go_cdr_fraud_detector.Fraud.Processor.{Processor, Memory, outwards, handle}
use go_cdr_fraud_detector.Fraud.Processor.Degraded.{asks}
use go_cdr_fraud_detector.Fraud.Processor.Settled.{
  Settled, unparsable, repeated, checked, handle-Settled,
}

-- Redis counts `key` as present.
abbrev pub Present : {F S E : Type 0} → Services F S E → Str → S → Type 0
Present services key s = (n : ℤ) × (pos 0 <ℤ n) × ((services.count_keys key s).1 ≡ ok n)

-- What the service relies on: a key that was set is present until its time to live has passed, also
-- after it was counted.
pub record KeepsKeys {F S E : Type 0} (services : Services F S E) : Type 0 where
  pub present_set :
      (key value : Str) (ttl : Duration) (s : S)
      → (services.set_key key value ttl s).1 ≡ ok tt
      → Present services key (services.set_key key value ttl s).0
  pub present_counted :
      (key : Str) (s : S)
      → Present services key s
      → Present services key (services.count_keys key s).0

module _ {F S E : Type 0} ⦃go : Go F⦄ (services : Services F S E) where
  seen-true :
      (id : Str) (s : S)
      → (seen services id s).1 ≡ ok true
      → Present services (codes "seen:" ++ id) s
  unfolding seen ◌>>=◌
  seen-true id s h = split (services.count_keys (codes "seen:" ++ id) s).1 refl
    where
      split :
          (r : Outcome E ℤ)
          → (services.count_keys (codes "seen:" ++ id) s).1 ≡ r
          → Present services (codes "seen:" ++ id) s
      split (ok n) e = (n, ground (arith, e, h), e)
      split (err x) e = absurd (ground (arith, e, h))

  seen_state :
      (id : Str) (s : S) → (seen services id s).0 ≡ (services.count_keys (codes "seen:" ++ id) s).0
  unfolding seen ◌>>=◌
  seen_state id s = ground arith

  skips :
      (p : Processor F) (rec : Cdr) (value : Str) (st : Memory F S)
      → services.unmarshal_cdr value ≡ ok rec
      → Present services (codes "seen:" ++ rec.record_id) st.outside
      → handle services p value st
        ≡ outwards (asks (services.count_keys (codes "seen:" ++ rec.record_id))) st
  unfolding handle seen ◌>>=◌
  skips p rec value st parsed (n, positive, counted) =
      let skipped = λ (s : S).
        let r : Memory F S × Outcome E (Unit {0}) = (record st { outside = s }, ok tt) in r in
      let test : ltb_ℤ (pos 0) n ≡ true = ground (arith, positive) in
      rw (parsed, handle)
        (rw (counted, ◌>>=◌, seen)
          (rw (test, if◌then◌else◌) (ap skipped (seen_state rec.record_id st.outside))))

-- If Redis keeps the keys that were set, a record that was handled with success and is delivered
-- again costs one EXISTS and nothing else: it succeeds, and no rule is evaluated and no alert written.
pub handle_again :
    {F S E : Type 0} (go : Go F) (services : Services F S E) (p : Processor F) (rec : Cdr)
    (value : Str) (st end : Memory F S)
    → KeepsKeys services
    → services.unmarshal_cdr value ≡ ok rec
    → handle ⦃go = go⦄ services p value st ≡ (end, ok tt)
    → handle ⦃go = go⦄ services p value end
      ≡ outwards (asks (services.count_keys (codes "seen:" ++ rec.record_id))) end
unfolding mark_seen
handle_again {F} {S} {E} go services p rec value st end keeps parsed h =
    skips ⦃go = go⦄ services p rec value end parsed
      (present (handle-Settled go services p value st end h))
  where
    key : Cdr → Str
    key r = codes "seen:" ++ r.record_id

    same : {rec' : Cdr} → services.unmarshal_cdr value ≡ ok rec' → rec' ≡ rec
    same {rec'} parsed' = ground (arith, parsed, parsed')

    present : Settled go services p value st end → Present services (key rec) end.outside
    present (unparsable bad _) = absurd (ground (arith, parsed, bad))
    present (repeated {rec = rec'} parsed' old) =
        subst (λ r. Present services (key r) end.outside) (same parsed')
          (subst (Present services (key rec'))
            (sym (seen_state ⦃go = go⦄ services rec'.record_id st.outside)
              ∙ ap (λ (x : Memory F S × Outcome E Bool). x.0.outside) old)
            (keeps.present_counted (key rec') st.outside (
              seen-true ⦃go = go⦄ services rec'.record_id st.outside
                (ap (λ (x : Memory F S × Outcome E Bool). x.1) old))))
    present (checked {rec = rec'} {d} parsed' _ _ _ _ marked) =
        subst (λ r. Present services (key r) end.outside) (same parsed') (was_marked rec' d marked)
      where
        was_marked :
            (r : Cdr) (d : Memory F S)
            → outwards (mark_seen ⦃go = go⦄ services r.record_id p.seen_ttl) d ≡ (end, ok tt)
            → Present services (key r) end.outside
        was_marked r d m =
            subst (Present services (key r))
              (ap (λ (x : Memory F S × Outcome E (Unit {0})). x.0.outside) m)
              (keeps.present_set (key r) (codes "1") p.seen_ttl d.outside
                (ap (λ (x : Memory F S × Outcome E (Unit {0})). x.1) m))
