-- ===== src/Tests/Loadgen.antt =====
-- Two workers of the load generator, and a context that is done after one message.
use go_cdr_fraud_detector.Base.{
  ℕ, ◌+◌, ◌*◌, ◌≤◌, ◌≡◌, refl, ◌⊎◌, true, none, some, [], ◌∷◌, All, leb, arith,
}
use go_cdr_fraud_detector.Base.Text.{Str, codes}
use go_cdr_fraud_detector.Base.Decimal.{zero_padded}
use go_cdr_fraud_detector.Geo
use go_cdr_fraud_detector.Go.Sample.{sample}
use go_cdr_fraud_detector.Fraud.Retry.{Message}
use go_cdr_fraud_detector.Generator
use go_cdr_fraud_detector.Loadgen.{Driver, random_cdr, admit}
use go_cdr_fraud_detector.Loadgen.Workers.{CountsMessages}
use go_cdr_fraud_detector.Loadgen.Turns.{
  looking, waiting, drawing, writing, adding, returned, turn, Running, launch, launched,
  is_returned, Turn, takes, Turns, stays, goes_on,
}
use go_cdr_fraud_detector.Loadgen.Turns.Total.{all_owed, launched-accepted}
use go_cdr_fraud_detector.Loadgen.Turns.Left.{StaysDone}
use go_cdr_fraud_detector.Loadgen.Turns.Return.{Quiet, Over, workers-return}
use go_cdr_fraud_detector.Tests.Generator.{dice, dice-IsRandom}

-- The state is the number of messages written so far.
abbrev brief : Driver ℕ Str
brief = record { cancelled = λ w. leb 1 w; wait = λ w. (w, none) }

brief-CountsMessages : CountsMessages dice brief
brief-CountsMessages = record {
  accepted = λ w. w;
  drew = λ n w. refl;
  drew_uint64 = λ w. refl;
  waited = λ w. refl;
  wrote_ok = λ m w h. refl;
  wrote_err = λ m w e h. cc;
}

brief-StaysDone : StaysDone dice brief
brief-StaysDone = record {
  drew = λ n w h. h;
  drew_uint64 = λ w h. h;
  waited = λ w h. h;
  wrote = λ m w h. ground (arith, h);
}

-- The first worker comes to its sent.Add.
abbrev written : Running ℕ
written = record { outside = 1; sent = 0; places = adding ∷ looking ∷ [] }

abbrev counted : Running ℕ
counted = record { outside = 1; sent = 1; places = returned ∷ returned ∷ [] }

abbrev message : Message
message = record {
  key = codes "+905000000000";
  value = codes "07000000000000000700000000000000";
  headers = [];
}

drawn : turn sample dice brief none drawing 0 0 ≡ some (0, 0, writing message)
unfolding turn random_cdr Geo.catalog zero_padded Generator.new_id Generator.rand_int
    Generator.choose Generator.index Generator.◌>>=◌
drawn = refl

to_written :
    Turns sample dice brief none
      (Quiet sample dice brief none dice-IsRandom brief-CountsMessages brief-StaysDone)
      4
      (launched 2 0)
      written
unfolding turn admit launch
to_written = goes_on (takes [] (looking ∷ []) looking refl refl refl) (
    goes_on (takes [] (looking ∷ []) waiting refl refl refl) (
      goes_on (takes [] (looking ∷ []) drawing refl refl drawn)
        (goes_on (takes [] (looking ∷ []) (writing message) refl refl refl) stays)))

to_counted :
    Turns sample dice brief none
      (Over sample dice brief none dice-IsRandom brief-CountsMessages brief-StaysDone)
      3
      written
      counted
unfolding turn
to_counted = goes_on (takes (adding ∷ []) [] looking refl refl refl) (
    goes_on (takes [] (returned ∷ []) adding refl refl refl)
      (goes_on (takes [] (returned ∷ []) looking refl refl refl) stays))

launched-accepted_example : written.outside ≡ 0 + written.sent + all_owed written.places
unfolding brief-CountsMessages
launched-accepted_example =
    launched-accepted sample dice brief none dice-IsRandom brief-CountsMessages 2 0 (λ u u' a. a)
      to_written

workers-return_example :
    (3 ≤ 5 * 2)
    × ((All (λ p. is_returned p ≡ true) counted.places × (counted.outside ≡ 0 + counted.sent))
        ⊎ ((u : Running ℕ) × Turn sample dice brief none counted u))
unfolding brief-CountsMessages
workers-return_example =
    workers-return sample dice brief none dice-IsRandom brief-CountsMessages brief-StaysDone 2 0
      to_written refl to_counted
