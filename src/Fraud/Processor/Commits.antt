-- ===== src/Fraud/Processor/Commits.antt =====
-- services/fraud/main.go: what becomes of a record that a round leaves uncommitted.
use go_cdr_fraud_detector.Base.{◌≡◌, refl, ap, subst, sym, ◌∙◌, false, true}
use go_cdr_fraud_detector.Base.Int.{ℤ, pos, ◌+ℤ◌, ◌≤ℤ◌, ◌<ℤ◌, int_laws}
use go_cdr_fraud_detector.Go.{Go}
use go_cdr_fraud_detector.Fraud.Cache.{ok}
use go_cdr_fraud_detector.Fraud.Retry.{returned, run_with_retry}
use go_cdr_fraud_detector.Fraud.Services.{Services, Fetched}
use go_cdr_fraud_detector.Fraud.Processor.{Processor, Memory, outwards}
use go_cdr_fraud_detector.Fraud.Processor.Loop.{retry_env, commit_if, round, goes_on}

-- Offsets as Kafka documents them: a consumer group has one position in a partition, a commit moves it
-- behind the committed record, and a consumer that starts again reads from there.
pub record TracksOffsets {F S E : Type 0} (services : Services F S E) : Type 0 where
  pub position : ℤ → S → ℤ
  pub committed :
      (m : Fetched) (s : S)
      → (services.commit m s).1 ≡ ok tt
      → position m.partition (services.commit m s).0 ≡ m.offset +ℤ pos 1
  pub restart : S → S
  pub resumed :
      (m : Fetched) (s : S)
      → (services.fetch (restart s)).1 ≡ ok m
      → position m.partition s ≤ℤ m.offset

module _ {F S E : Type 0} (go : Go F) (services : Services F S E) (offsets : TracksOffsets services)
    (p : Processor F) where
  -- A round with a record that runWithRetry is done with.
  round-committed :
      (m : Fetched) (st : Memory F S)
      → (services.fetch st.outside).1 ≡ ok m
      → let env = retry_env ⦃go = go⦄ services p in
        let ran = run_with_retry env p.max_attempts m.value (outwards services.fetch st).0 in
        ran.1 ≡ returned true
        → (services.commit m ran.0.outside).1 ≡ ok tt
        → offsets.position m.partition (round ⦃go = go⦄ services p st).0.outside ≡ m.offset +ℤ pos 1
  unfolding round commit_if
  round-committed m st got good commits =
      rw (got, good, round, commit_if) (offsets.committed m _ commits)

  round-uncommitted :
      (m : Fetched) (st : Memory F S)
      → (services.fetch st.outside).1 ≡ ok m
      → (run_with_retry
          (retry_env ⦃go = go⦄ services p)
          p.max_attempts
          m.value
          (outwards services.fetch st).0).1
        ≡ returned false
      → (round ⦃go = go⦄ services p st).1 ≡ goes_on
  unfolding round commit_if
  round-uncommitted m st got failed = rw (got, failed, round, commit_if) refl

  -- A record that a round leaves uncommitted is not redelivered once a later record of its partition is
  -- committed: the loop goes on after such a round, and if the next round commits a record with a
  -- higher offset, then a consumer that starts again reads only records behind the uncommitted one.
  pub round-passes_over :
      (m m' again : Fetched) (st : Memory F S)
      → (services.fetch st.outside).1 ≡ ok m
      → (run_with_retry
          (retry_env ⦃go = go⦄ services p)
          p.max_attempts
          m.value
          (outwards services.fetch st).0).1
        ≡ returned false
      → let next = (round ⦃go = go⦄ services p st).0 in
        (services.fetch next.outside).1 ≡ ok m'
        → m'.partition ≡ m.partition
        → m.offset <ℤ m'.offset
        → let ran =
            run_with_retry
              (retry_env ⦃go = go⦄ services p)
              p.max_attempts
              m'.value
              (outwards services.fetch next).0 in
          ran.1 ≡ returned true
          → (services.commit m' ran.0.outside).1 ≡ ok tt
          → (services.fetch (offsets.restart (round ⦃go = go⦄ services p next).0.outside)).1
            ≡ ok again
          → again.partition ≡ m.partition
          → ((round ⦃go = go⦄ services p st).1 ≡ goes_on) × (m.offset <ℤ again.offset)
  round-passes_over m m' again st got failed got' same later good commits resumes same' =
      let next = (round ⦃go = go⦄ services p st).0 in
      let end = (round ⦃go = go⦄ services p next).0.outside in
      let moved = round-committed m' next got' good commits in
      let from = offsets.resumed again end resumes in
      let at = ap (λ k. offsets.position k end) (same' ∙ sym same) ∙ moved in
      (
        round-uncommitted m st got failed,
        omega (int_laws, later, subst (λ k. k ≤ℤ again.offset) at from),
      )
