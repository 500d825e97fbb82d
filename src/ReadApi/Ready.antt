-- ===== src/ReadApi/Ready.antt =====
-- The service gets through once the database does.
use go_cdr_fraud_detector.Base.{ℕ, zero, suc, ◌<◌, ◌≡◌, ap, false, Option, none, some, arith}
use go_cdr_fraud_detector.Base.Text.{Str}
use go_cdr_fraud_detector.Cdr.{FraudAlert}
use go_cdr_fraud_detector.Fraud.Cache.{Outcome, ok, err}
use go_cdr_fraud_detector.Fraud.Services.{Fetched}
use go_cdr_fraud_detector.Stream.Polls.{Fails, poll-reaches}
use go_cdr_fraud_detector.ReadApi.{
  Services, connect_db, store_alert, store_retry, Storing, stored, commit_stored, consume_message,
  consume_round, goes_on,
}

module _ {F S E P : Type 0} (services : Services F S E P) (pool : P) (a : FraudAlert F) where
  -- A storing that fails, while the service is not shut down, and its whole pause.
  pub record StoreFails (s t : S) : Type 0 where
    pub error : E
    pub failed : (store_alert services pool a s).1 ≡ some error
    pub live : services.cancelled (store_alert services pool a s).0 ≡ false
    pub resumed : services.pause (store_alert services pool a s).0 ≡ (t, false)

  -- `n` of them in a row, and then a storing that succeeds and leads to `t`.
  pub data StoredAfter : ℕ → S → S → Type 0 where
    at_once : {s t : S} → store_alert services pool a s ≡ (t, none) → StoredAfter zero s t
    later : {n : ℕ} {s u t : S} → StoreFails s u → StoredAfter n u t → StoredAfter (suc n) s t

  store_retry-stored :
      {n : ℕ} {s t : S} (fuel : ℕ)
      → StoredAfter n s t
      → n < fuel
      → store_retry services pool a fuel s ≡ (t, stored)
  unfolding store_retry
  store_retry-stored zero h lt = absurd (omega arith)
  store_retry-stored (suc fuel) (at_once good) lt =
      rw (ap (λ (r : S × Option E). r.1) good, store_retry)
        (ap (λ (r : S × Option E). let out : S × Storing = (r.0, stored) in out) good)
  store_retry-stored {s = s} {t = t} (suc fuel) (later {n = n} {u = u} f h) lt =
      rw (f.failed, f.live, f.resumed, store_retry)
        (store_retry-stored {n = n} {s = u} {t = t} fuel h (omega arith))

-- However long the database fails: if, after some number of failures without a shutdown, the alert of
-- a fetched message is stored, then the round ends with the commit of the message, and the loop goes
-- on. The fuel only has to exceed the number of failures.
pub consume_round-commits :
    {F S E P : Type 0} (services : Services F S E P) (pool : P) (s t : S) (m : Fetched)
    (a : FraudAlert F) (n fuel : ℕ)
    → (services.fetch s).1 ≡ ok m
    → services.unmarshal_alert m.value ≡ ok a
    → StoredAfter services pool a n (services.fetch s).0 t
    → n < fuel
    → consume_round services pool fuel s ≡ ((services.commit m t).0, goes_on)
unfolding consume_round consume_message commit_stored
consume_round-commits services pool s t m a n fuel got good h lt =
    rw (got, consume_round)
      (rw (good, consume_message)
        (ap (commit_stored services m) (store_retry-stored services pool a fuel h lt)))

-- If the pool answers a ping after fewer than 15 failures, between which no pause is interrupted,
-- connectDB returns the pool.
pub connect_db-ready :
    {F S E P : Type 0} (services : Services F S E P) (dsn : Str) (pool : P) (s t : S) (n : ℕ)
    (last : Option E)
    → (services.new_pool dsn s).1 ≡ ok pool
    → n < 15
    → Fails services.pause services.context_error
        (services.ping pool)
        n
        (services.new_pool dsn s).0
        none
        t
        last
    → (services.ping pool t).1 ≡ none
    → connect_db services dsn s ≡ ((services.ping pool t).0, ok pool)
unfolding connect_db
connect_db-ready {S} {E} {P} services dsn pool s t n last made few fails good =
    rw (made, connect_db)
      (ap
        (λ (r : S × Option E).
          let out : S × Outcome E P = (r.0, elim r.1 [ none ↦ ok pool | some e ↦ err e ]) in out)
        (poll-reaches services.pause services.context_error (services.ping pool) fails few good))
