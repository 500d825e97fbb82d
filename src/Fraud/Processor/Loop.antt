-- ===== src/Fraud/Processor/Loop.antt =====
-- services/fraud/main.go: one round of the consume loop of main, and when an offset is committed.
use go_cdr_fraud_detector.Base.{
  ℕ, ◌<◌, ◌≡◌, refl, ap, Bool, true, false, Option, none, some, ◌⊎◌, inl, inr, arith, if◌then◌else◌,
  Bool-cases,
}
use go_cdr_fraud_detector.Base.Int.{pos_part}
use go_cdr_fraud_detector.Base.Text.{Str}
use go_cdr_fraud_detector.Go.{Go}
use go_cdr_fraud_detector.Fraud.Cache.{Outcome, ok, err, new_ref_cache}
use go_cdr_fraud_detector.Fraud.Retry.{Env, Ending, returned, panicked, run_with_retry}
use go_cdr_fraud_detector.Fraud.Retry.Outcomes.{
  Fails, Processed, processed, DeadLettered, run_with_retry-commits, run_with_retry-returns,
}
use go_cdr_fraud_detector.Fraud.Services.{Services, Fetched}
use go_cdr_fraud_detector.Fraud.Processor.{Processor, Memory, outwards, handle}
use go_cdr_fraud_detector.Fraud.Processor.Settings.{
  new_processor, ref_cache_ttl, max_attempts-ge-one,
}
use go_cdr_fraud_detector.Fraud.Processor.Settled.{Settled, handle-Settled}

-- The error of a result, if it is one.
abbrev pub failure : {E A : Type 0} → Outcome E A → Option E
failure (ok a) = none
failure (err e) = some e

-- What the loop does after a round.
pub data Next : Type 0 where
  goes_on : Next
  stops : Next
  crashes : Next

module _ {F S E : Type 0} ⦃go : Go F⦄ (services : Services F S E) where
  unfoldable pub new_memory : (Str → Option Str) → S → Memory F S
  new_memory env s = record {
    cell_cache = new_ref_cache (ref_cache_ttl go env);
    tariff_cache = new_ref_cache (ref_cache_ttl go env);
    outside = s;
  }

  -- The processor as `run_with_retry` uses it.
  abbrev pub retry_env : Processor F → Env (Memory F S) E
  retry_env p = record {
    handle = λ value st. let (st', r) = handle services p value st in (st', failure r);
    cancelled = λ st. services.cancelled st.outside;
    pause = λ st.
        let (s', done) = services.pause p.retry_backoff st.outside in
        (record st { outside = s' }, done);
    write_dlq = λ m st. let (st', r) = outwards (services.write_dlq m) st in (st', failure r);
    error_text = services.error_text;
    count_dead_letter = λ st. st;
  }

  unfoldable pub commit_if : Fetched → Memory F S × Ending → Memory F S × Next
  commit_if m (st, returned true) = ((outwards (services.commit m) st).0, goes_on)
  commit_if m (st, returned false) = (st, goes_on)
  commit_if m (st, panicked) = (st, crashes)

  unfoldable pub round : Processor F → Memory F S → Memory F S × Next
  unfolding commit_if
  round p st =
      let (st', r) = outwards services.fetch st in
      elim r [
        | err e ↦ (st', if services.cancelled st'.outside then stops else goes_on)
        | ok m ↦ commit_if m (run_with_retry (retry_env p) p.max_attempts m.value st')
      ]

module _ {F S E : Type 0} (go : Go F) (services : Services F S E) (p : Processor F) where
  -- If the offset of a record is to be committed, then after fewer failures than there are attempts
  -- the record was settled (it was no record, or seen already, or its checks succeeded and its mark
  -- was then written), or all the attempts failed and it was written to the dead-letter topic.
  pub committed-Settled :
      (value : Str) (st : Memory F S)
      → let env = retry_env ⦃go = go⦄ services p in
        (run_with_retry env p.max_attempts value st).1 ≡ returned true
        → ((n : ℕ) × (t : Memory F S) × (end : Memory F S) × (last : Option E) × (n
              < pos_part p.max_attempts)
            × Fails env value n st none t last
            × Settled go services p value t end)
          ⊎ DeadLettered env value (pos_part p.max_attempts) st
  committed-Settled value st h =
      split (run_with_retry-commits (retry_env ⦃go = go⦄ services p) value p.max_attempts st h)
    where
      succeeds :
          (t : Memory F S)
          → failure (handle ⦃go = go⦄ services p value t).1 ≡ none
          → (handle ⦃go = go⦄ services p value t).1 ≡ ok tt
      succeeds t good = ground (arith, good)

      split :
          Processed (retry_env ⦃go = go⦄ services p) value (pos_part p.max_attempts) st
            ⊎ DeadLettered (retry_env ⦃go = go⦄ services p) value (pos_part p.max_attempts) st
          → ((n : ℕ) × (t : Memory F S) × (end : Memory F S) × (last : Option E) × (n
                < pos_part p.max_attempts)
              × Fails (retry_env ⦃go = go⦄ services p) value n st none t last
              × Settled go services p value t end)
            ⊎ DeadLettered (retry_env ⦃go = go⦄ services p) value (pos_part p.max_attempts) st
      split (inr dead) = inr dead
      split (inl (processed {n} {t} {last} few fails good)) = inl (
        n,
        t,
        (handle ⦃go = go⦄ services p value t).0,
        last,
        few,
        fails,
        handle-Settled go services p value t _
            (ap (λ r. ((handle ⦃go = go⦄ services p value t).0, r)) (succeeds t good)),
      )

commit_if-goes_on :
    {F S E : Type 0} (go : Go F) (services : Services F S E) (m : Fetched) (x : Memory F S × Ending)
    (b : Bool)
    → x.1 ≡ returned b
    → (commit_if ⦃go = go⦄ services m x).1 ≡ goes_on
unfolding commit_if
commit_if-goes_on go services m (st, returned true) b h = refl
commit_if-goes_on go services m (st, returned false) b h = refl
commit_if-goes_on go services m (st, panicked) b h = cc

-- Whatever environment variables the process is started with, a round of the consume loop does not
-- crash on a nil error: the loop goes on, or the fetch failed after the context was done and the
-- loop stops.
pub round-survives :
    {F S E : Type 0} (go : Go F) (services : Services F S E) (env : Str → Option Str)
    (st : Memory F S)
    → let (st', next) = round ⦃go = go⦄ services (new_processor go env) st in
      (next ≡ goes_on)
      ⊎ ((next ≡ stops)
          × (services.cancelled st'.outside ≡ true)
          × ((e : E) × ((services.fetch st.outside).1 ≡ err e)))
unfolding round
round-survives {F} {S} {E} go services env st = split (services.fetch st.outside).1 refl
  where
    p : Processor F
    p = new_processor go env

    split :
        (r : Outcome E Fetched)
        → (services.fetch st.outside).1 ≡ r
        → let (st', next) = round ⦃go = go⦄ services p st in
          (next ≡ goes_on)
          ⊎ ((next ≡ stops)
              × (services.cancelled st'.outside ≡ true)
              × ((e : E) × ((services.fetch st.outside).1 ≡ err e)))
    split (err e) bad = elim (Bool-cases (services.cancelled (services.fetch st.outside).0)) [
      | inl gone ↦ inr (rw (bad, gone, round) refl, rw (bad, round) gone, (e, bad))
      | inr live ↦ inl (rw (bad, live, round) refl)
    ]
    split (ok m) good =
        let fetched : Memory F S = record st { outside = (services.fetch st.outside).0 } in
        let (b, ends) =
          run_with_retry-returns (retry_env ⦃go = go⦄ services p) m.value p.max_attempts fetched
            (max_attempts-ge-one go env) in
        inl (rw (good, round) (commit_if-goes_on go services m _ b ends))
