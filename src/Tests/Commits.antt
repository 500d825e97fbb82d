-- ===== src/Tests/Commits.antt =====
-- A topic of one partition, whose first record fails, dead letter included; later ones are seen.
use go_cdr_fraud_detector.Base.{ℕ, suc, ◌==◌, ◌≡◌, refl, true, false, [], if◌then◌else◌, arith}
use go_cdr_fraud_detector.Base.Int.{ℤ, pos, negsuc, pos_part, ◌+ℤ◌, ◌<ℤ◌, ◌≤ℤ◌}
use go_cdr_fraud_detector.Base.Text.{Str, codes}
use go_cdr_fraud_detector.Go.Sample.{Fixed, sample}
use go_cdr_fraud_detector.Fraud.Cache.{ok, err}
use go_cdr_fraud_detector.Fraud.Action.{◌>>=◌}
use go_cdr_fraud_detector.Fraud.Retry.{returned, run_with_retry, attempts}
use go_cdr_fraud_detector.Fraud.Services.{Services, Fetched}
use go_cdr_fraud_detector.Fraud.Windows.{seen}
use go_cdr_fraud_detector.Fraud.Processor.{Processor, Memory, outwards, handle}
use go_cdr_fraud_detector.Fraud.Processor.Loop.{retry_env, commit_if, round, goes_on}
use go_cdr_fraud_detector.Fraud.Processor.Commits.{TracksOffsets, round-passes_over}
use go_cdr_fraud_detector.Tests.Processor.{record_nine, defaults}

-- The next offset to be fetched, and the committed position.
abbrev World : Type 0
World = ℕ × ℤ

abbrev message : ℕ → Fetched
message n = record { value = codes "r"; partition = pos 0; offset = pos n }

abbrev down : Str
down = codes "down"

abbrev one_partition : Services Fixed World Str
one_partition = record {
  count_keys = λ key w. (w, if w.0 == 1 then err down else ok (pos 1));
  get_key = λ key w. (w, err down);
  set_key = λ key value ttl w. (w, err down);
  exec = λ commands w. (w, err down);
  get_cell = λ timeout id w. (w, err down);
  get_tariff = λ timeout dest w. (w, err down);
  write_alert = λ m w. (w, err down);
  write_dlq = λ m w. (w, err down);
  fetch = λ w. ((suc w.0, w.1), ok (message w.0));
  commit = λ m w. ((w.0, m.offset +ℤ pos 1), ok tt);
  now = λ w. pos 0;
  cancelled = λ w. false;
  pause = λ d w. (w, false);
  error_text = λ e. e;
  unmarshal_cdr = λ value. ok record_nine;
  marshal_alert = λ a. err down;
  marshal_location = λ l. err down;
  unmarshal_location = λ text. err down;
}

position_reached : (k : ℤ) → k ≤ℤ pos (pos_part k)
position_reached (pos n) = ground arith
position_reached (negsuc n) = ground arith

one_partition-TracksOffsets : TracksOffsets one_partition
one_partition-TracksOffsets = record {
  position = λ k w. w.1;
  committed = λ m w h. refl;
  restart = λ w. (pos_part w.1, w.1);
  resumed = λ m w h. ground (arith, h, position_reached w.1);
}

abbrev once : Processor Fixed
once = record defaults { max_attempts = pos 1 }

abbrev at : ℕ → ℤ → Memory Fixed World
at n k = record {
  cell_cache = record { ttl = pos 1; m = [] };
  tariff_cache = record { ttl = pos 1; m = [] };
  outside = (n, k);
}

first_fails :
    (run_with_retry (retry_env one_partition once) (pos 1) (codes "r") (at 1 (pos 0))).1
    ≡ returned false
unfolding run_with_retry attempts handle seen ◌>>=◌
first_fails = refl

abbrev next : Memory Fixed World
next = (round one_partition once (at 0 (pos 0))).0

second_fetched : (one_partition.fetch next.outside).1 ≡ ok (message 1)
unfolding round commit_if run_with_retry attempts handle seen ◌>>=◌ ◌+ℤ◌
second_fetched = refl

second_returns :
    (run_with_retry
      (retry_env one_partition once)
      (pos 1)
      (codes "r")
      (outwards one_partition.fetch next).0).1
    ≡ returned true
unfolding round commit_if run_with_retry attempts handle seen ◌>>=◌ ◌+ℤ◌
second_returns = refl

fetched_again :
    (one_partition.fetch
      (one_partition-TracksOffsets.restart (round one_partition once next).0.outside)).1
    ≡ ok (message 2)
unfolding round commit_if run_with_retry attempts handle seen ◌>>=◌ ◌+ℤ◌ one_partition-TracksOffsets
fetched_again = refl

round-passes_over_example :
    ((round one_partition once (at 0 (pos 0))).1 ≡ goes_on) × (pos 0 <ℤ pos 2)
round-passes_over_example =
    round-passes_over sample one_partition one_partition-TracksOffsets once (message 0) (message 1)
      (message 2) (at 0 (pos 0)) refl first_fails second_fetched refl (omega arith) second_returns
      refl fetched_again refl
