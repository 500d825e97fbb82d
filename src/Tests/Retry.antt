-- ===== src/Tests/Retry.antt =====
-- The retry loop.
use go_cdr_fraud_detector.Base.{
  ℕ, suc, ◌≡◌, refl, ◌⊎◌, length, Bool, true, false, none, some, arith, ltb, if◌then◌else◌,
}
use go_cdr_fraud_detector.Base.Int.{pos}
use go_cdr_fraud_detector.Base.Text.{Str, codes}
use go_cdr_fraud_detector.Go.Sample.{sample}
use go_cdr_fraud_detector.Fraud.Retry.{Env, returned, run_with_retry, attempts}
use go_cdr_fraud_detector.Fraud.Retry.Outcomes.{
  Processed, DeadLettered, run_with_retry-commits, run_with_retry-returns,
}
use go_cdr_fraud_detector.Fraud.Retry.Poison.{Poisonous, Written, run_with_retry-poison}

-- A handler that fails `broken` times and then succeeds; the state counts its calls.
abbrev flaky : ℕ → Env ℕ Str
flaky broken = record {
  handle = λ value s. (suc s, if ltb s broken then some (codes "redis down") else none);
  cancelled = λ s. false;
  pause = λ s. (s, false);
  write_dlq = λ m s. (s, none);
  error_text = λ e. e;
  count_dead_letter = λ s. s;
}

abbrev payload : Str
payload = codes "{}"

flaky-returns_true : (run_with_retry (flaky 2) (pos 5) payload 0).1 ≡ returned true
unfolding run_with_retry attempts
flaky-returns_true = refl

run_with_retry-commits_example :
    Processed (flaky 2) payload 5 0 ⊎ DeadLettered (flaky 2) payload 5 0
run_with_retry-commits_example =
    run_with_retry-commits (flaky 2) payload (pos 5) 0 flaky-returns_true

run_with_retry-returns_example :
    (b : Bool) × ((run_with_retry (flaky 2) (pos 1) payload 0).1 ≡ returned b)
run_with_retry-returns_example = run_with_retry-returns (flaky 2) payload (pos 1) 0 (omega arith)

-- A handler that always fails, and a dead-letter topic that keeps the number of headers.
abbrev hopeless : Env ℕ Str
hopeless = record (flaky 9) {
  handle = λ value s. (s, some (codes "redis down"));
  write_dlq = λ m s. (length m.headers, none);
}

hopeless-Poisonous : Poisonous hopeless payload
hopeless-Poisonous = record {
  fails = λ s. (codes "redis down", refl);
  live = λ s. refl;
  resumed = λ s. refl;
}

run_with_retry-poison_example : Written hopeless payload (pos 2) 0
run_with_retry-poison_example =
    run_with_retry-poison hopeless payload (pos 2) 0 (omega arith) hopeless-Poisonous
