-- ===== src/Tests/Playground.antt =====
-- The engine of the playground, with `Go.Sample` for float64.
use go_cdr_fraud_detector.Base.{
  ℕ, ◌^◌, ◌≡◌, ◌↔◌, map, refl, ◌*◌, none, List, [], ◌∷◌, ◌++◌, keep, length, arith,
}
use go_cdr_fraud_detector.Base.Int.{ℤ, ◌-ℤ◌, pos}
use go_cdr_fraud_detector.Base.Int64.{sub64}
use go_cdr_fraud_detector.Base.Text.{Str, codes}
use go_cdr_fraud_detector.Base.Dict.{lookup}
use go_cdr_fraud_detector.Clock.{unix_milli}
use go_cdr_fraud_detector.Cdr.{Cdr, FraudAlert, Rule, voice}
use go_cdr_fraud_detector.Go.Sample.{Fixed, sample, in_order, in_order-VisitsAll}
use go_cdr_fraud_detector.Playground.{Engine, new_engine, velocity_count}
use go_cdr_fraud_detector.Playground.Score.{Moment}
use go_cdr_fraud_detector.Playground.Windows.{live}
use go_cdr_fraud_detector.Playground.Velocity.{
  deliver, latest, Chronological, velocity_count-deliver,
}
use go_cdr_fraud_detector.Playground.Cooldown.Run.{
  Input, InOrder, Apart, emissions, emissions-Apart,
}
use go_cdr_fraud_detector.Playground.Partition.Possible.{
  MayRaise, records_from, MayRaise-records_from,
}
use go_cdr_fraud_detector.Playground.Partition.Run.{alerts, alerts_on, calls_from}

-- Two calls of one subscriber, ten minutes apart, from cells of Istanbul and Ankara.
abbrev alice : Str
alice = codes "+905551112233"

abbrev bob : Str
bob = codes "+905559998877"

abbrev call_of : Str → Str → Str → ℕ → Cdr
call_of id caller cell at_second = record {
  record_id = codes "r" ++ id;
  caller_msisdn = caller;
  callee_msisdn = codes "+900123";
  start_time = pos (at_second * 10 ^ 9);
  duration_sec = pos 600;
  cell_id = cell;
  call_type = voice;
  bytes = pos 0;
  termination = codes "NORMAL";
}

-- The loops over the windows take the order of their entries.
abbrev clock : Rule → Moment
clock r = record { now = pos (10 ^ 18); order = in_order }

abbrev three_calls : List Input
three_calls =
    (call_of (codes "1") alice (codes "CELL-IST-01") 100, clock)
    ∷ (call_of (codes "2") bob (codes "CELL-IST-01") 200, clock)
    ∷ (call_of (codes "3") alice (codes "CELL-ANK-01") 700, clock)
    ∷ []

three_calls-InOrder : InOrder three_calls
unfolding unix_milli ◌-ℤ◌
three_calls-InOrder = ground arith

abbrev fresh_engine : Engine Fixed
fresh_engine = new_engine

fresh_engine-cooldown_ms : fresh_engine.cooldown_ms ≡ pos 60_000
unfolding new_engine
fresh_engine-cooldown_ms = refl

emissions-Apart_example : Apart (pos 60_000) (emissions sample fresh_engine three_calls)
emissions-Apart_example =
    emissions-Apart sample (pos 60_000) fresh_engine three_calls fresh_engine-cooldown_ms
      three_calls-InOrder

abbrev alice_history : List (Str × ℤ)
alice_history =
    (codes "r1", pos 100_000) ∷ (codes "r2", pos 130_000) ∷ (codes "r1", pos 150_000) ∷ []

alice_history-Chronological :
    Chronological fresh_engine.window_ms (alice_history ++ (codes "r3", pos 195_000) ∷ [])
unfolding new_engine ◌-ℤ◌
alice_history-Chronological = ground arith

fresh_engine-vel_win : lookup alice fresh_engine.vel_win ≡ none
unfolding new_engine lookup
fresh_engine-vel_win = refl

velocity_count-deliver_example :
    (velocity_count
      (deliver (λ n. in_order) fresh_engine alice alice_history)
      alice
      (codes "r3")
      (pos 195_000)
      in_order).1
    ≡ pos (
        length (
          keep
            (live (sub64 (pos 195_000) fresh_engine.window_ms))
            (latest [] (alice_history ++ (codes "r3", pos 195_000) ∷ []))))
velocity_count-deliver_example =
    velocity_count-deliver alice (λ n. in_order) in_order fresh_engine alice_history (codes "r3")
      (pos 195_000) (λ n. in_order-VisitsAll) in_order-VisitsAll fresh_engine-vel_win
      alice_history-Chronological

abbrev three_records : List Cdr
three_records = map (λ i. i.0) three_calls

MayRaise-records_from_example :
    ((all : List (FraudAlert Fixed)) × MayRaise sample fresh_engine three_records all
      × (alerts_on alice all ≡ alerts sample fresh_engine (calls_from alice three_calls)))
    ↔ MayRaise sample fresh_engine
        (records_from alice three_records)
        (alerts sample fresh_engine (calls_from alice three_calls))
MayRaise-records_from_example =
    MayRaise-records_from alice sample fresh_engine three_records
      (alerts sample fresh_engine (calls_from alice three_calls))
