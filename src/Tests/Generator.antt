-- ===== src/Tests/Generator.antt =====
-- The generators with dice that always show 0.
use go_cdr_fraud_detector.Base.{
  ℕ, zero, suc, ◌^◌, ◌≡◌, ◌↔◌, refl, true, false, none, some, List, [], ◌∷◌, length, arith,
}
use go_cdr_fraud_detector.Base.Int.{pos, ◌*ℤ◌, ◌≤ℤ◌}
use go_cdr_fraud_detector.Base.Text.{Str, codes}
use go_cdr_fraud_detector.Clock.{second}
use go_cdr_fraud_detector.Go.{Go}
use go_cdr_fraud_detector.Go.Sample.{Fixed, sample}
use go_cdr_fraud_detector.Fraud.Cache.{ok}
use go_cdr_fraud_detector.Generator.{World, Subscriber, new_id, far_cell_from}
use go_cdr_fraud_detector.Generator.Runs.{IsRandom, Runs}
use go_cdr_fraud_detector.Generator.Ids.{read_id, new_id-read_id}
use go_cdr_fraud_detector.Generator.Pool.{Made, make_pool-IsPool}
use go_cdr_fraud_detector.Generator.Fraudsters.{Destination, far_cell_from-Destination}
use go_cdr_fraud_detector.Generator.Ticks.{travel, calls, on_tick, OneCaller, on_tick-OneCaller}
use go_cdr_fraud_detector.Generator.Settings.{max_one, atoi, seconds, seconds-max_one}
use go_cdr_fraud_detector.Loadgen.{Driver}
use go_cdr_fraud_detector.Loadgen.Workers.{CountsMessages}

-- The state is the number of messages written so far.
abbrev pub dice : World ℕ Str
dice = record {
  int_n = λ n w. (w, 0);
  uint64 = λ w. (w, 7);
  now = λ w. pos 0;
  marshal_cdr = λ rec. ok rec.record_id;
  max_make = 2 ^ 43;
  write = λ m w. (suc w, none);
}

pub dice-IsRandom : IsRandom dice
dice-IsRandom = record { int_n-lt = λ n w h. h; uint64-lt = λ w. omega arith }

-- The program's float64, with an Atoi that reads every text as `n`.
abbrev reads_as : ℕ → Go Fixed
reads_as n = record sample { parse_int = λ s. some (pos n) }

abbrev nobody : Str
nobody = []

abbrev one_subscriber : List Subscriber
one_subscriber = record { msisdn = codes "+905000000000"; home_cell = codes "IST-001" } ∷ []

new_id-read_id_example :
    (s : Str) × (new_id dice 0 ≡ some (0, s)) × (read_id s ≡ (7, 7)) × (length s ≡ 32)
new_id-read_id_example = new_id-read_id dice 0 dice-IsRandom

make_pool-IsPool_example : Made sample dice nobody (pos 200)
make_pool-IsPool_example = make_pool-IsPool sample dice nobody (pos 200) dice-IsRandom

far_cell_from-Destination_example :
    Runs dice nobody 0
      (Destination sample (codes "IST-001"))
      (far_cell_from dice sample (codes "IST-001"))
far_cell_from-Destination_example =
    far_cell_from-Destination sample dice nobody dice-IsRandom (codes "IST-001")

on_tick-OneCaller_example :
    OneCaller dice one_subscriber (calls travel) 0 (on_tick sample dice travel one_subscriber)
on_tick-OneCaller_example =
    on_tick-OneCaller sample dice travel one_subscriber 0 dice-IsRandom (omega arith)

seconds-max_one_example :
    (seconds (reads_as 10_000_000_000) (codes "10000000000")
      ≡ max_one (atoi (reads_as 10_000_000_000) (codes "10000000000")) *ℤ second)
    ↔ (atoi (reads_as 10_000_000_000) (codes "10000000000") ≤ℤ pos 9_223_372_036)
seconds-max_one_example = seconds-max_one (reads_as 10_000_000_000) (codes "10000000000")

-- A load generator whose context ends after two messages.
abbrev two_messages : Driver ℕ Str
two_messages = record {
  cancelled = λ w. elim w [ zero ↦ false | suc zero ↦ false | suc (suc n) ↦ true ];
  wait = λ w. (w, none);
}

dice-CountsMessages : CountsMessages dice two_messages
dice-CountsMessages = record {
  accepted = λ w. w;
  drew = λ n w. refl;
  drew_uint64 = λ w. refl;
  waited = λ w. refl;
  wrote_ok = λ m w h. refl;
  wrote_err = λ m w e h. cc;
}
