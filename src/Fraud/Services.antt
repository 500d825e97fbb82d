-- ===== src/Fraud/Services.antt =====
-- What the fraud service calls outside of the repository, as operations on a state `S` of the
-- outside world: Redis, the gRPC client, the Kafka writers, the clock, the context and
-- encoding/json.
use go_cdr_fraud_detector.Base.{Bool, List, Option}
use go_cdr_fraud_detector.Base.Int.{ℤ}
use go_cdr_fraud_detector.Base.Text.{Str}
use go_cdr_fraud_detector.Clock.{Time, Duration}
use go_cdr_fraud_detector.Cdr.{Cdr, FraudAlert}
use go_cdr_fraud_detector.Subscriber.{CellReply, TariffReply}
use go_cdr_fraud_detector.Fraud.Cache.{Outcome}
use go_cdr_fraud_detector.Fraud.Action.{Action}
use go_cdr_fraud_detector.Fraud.Retry.{Message}

-- The commands that the service puts into a transaction, and their replies.
pub data Command (F : Type 0) : Type 0 where
  z_add : Str → F → Str → Command F
  z_rem_range_by_score : Str → Str → Str → Command F
  z_card : Str → Command F
  z_range : Str → ℤ → ℤ → Command F
  expire : Str → Duration → Command F

pub data Answer : Type 0 where
  number : ℤ → Answer
  members : List Str → Answer

-- lastLoc of services/fraud/lastloc.go.
pub record LastLoc (F : Type 0) : Type 0 where
  pub lat : F
  pub lon : F
  pub at : Time

-- kafka.Message, as it is fetched.
pub record Fetched : Type 0 where
  pub value : Str
  pub partition : ℤ
  pub offset : ℤ

pub record Services (F S E : Type 0) : Type 0 where
  -- rdb.Exists, rdb.Get (redis.Nil is `none`), rdb.Set, and Exec of a TxPipeline
  pub count_keys : Str → Action S E ℤ
  pub get_key : Str → Action S E (Option Str)
  pub set_key : Str → Str → Duration → Action S E (Unit {0})
  pub exec : List (Command F) → Action S E (List Answer)
  -- ref.GetCell and ref.GetTariff, with a timeout
  pub get_cell : Duration → Str → Action S E (CellReply F)
  pub get_tariff : Duration → Str → Action S E (TariffReply F)
  -- writer.WriteMessages and dlqWriter.WriteMessages
  pub write_alert : Message → Action S E (Unit {0})
  pub write_dlq : Message → Action S E (Unit {0})
  -- reader.FetchMessage and reader.CommitMessages
  pub fetch : Action S E Fetched
  pub commit : Fetched → Action S E (Unit {0})
  pub now : S → Time
  pub cancelled : S → Bool
  pub pause : Duration → S → S × Bool
  pub error_text : E → Str
  -- encoding/json
  pub unmarshal_cdr : Str → Outcome E Cdr
  pub marshal_alert : FraudAlert F → Outcome E Str
  pub marshal_location : LastLoc F → Outcome E Str
  pub unmarshal_location : Str → Outcome E (LastLoc F)
