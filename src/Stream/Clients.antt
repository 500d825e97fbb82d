-- ===== src/Stream/Clients.antt =====
-- internal/stream/stream.go: the settings of the Kafka clients.
use go_cdr_fraud_detector.Base.{◌^◌, ◌*◌, Bool, false, List}
use go_cdr_fraud_detector.Base.Int.{ℤ, pos}
use go_cdr_fraud_detector.Base.Text.{Str}
use go_cdr_fraud_detector.Clock.{Duration}

-- kafka.Hash, and kafka.RequireOne.
pub data Balancer : Type 0 where
  hash : Balancer

pub data RequiredAcks : Type 0 where
  require_one : RequiredAcks

-- kafka.Writer, as it is set.
pub record Writer : Type 0 where
  pub addr : List Str
  pub topic : Str
  pub balancer : Balancer
  pub async : Bool
  pub batch_size : ℤ
  pub batch_timeout : Duration
  pub required_acks : RequiredAcks

abbrev pub new_writer : List Str → Str → Writer
new_writer brokers topic = record {
  addr = brokers;
  topic = topic;
  balancer = hash;
  async = false;
  batch_size = pos 0;
  batch_timeout = pos (10 * 10 ^ 6);
  required_acks = require_one;
}

-- kafka.ReaderConfig, as it is set.
pub record Reader : Type 0 where
  pub brokers : List Str
  pub group_id : Str
  pub topic : Str
  pub min_bytes : ℤ
  pub max_bytes : ℤ

abbrev pub new_reader : List Str → Str → Str → Reader
new_reader brokers group topic = record {
  brokers = brokers;
  group_id = group;
  topic = topic;
  min_bytes = pos 1;
  max_bytes = pos (10 * 10 ^ 6);
}
