-- ===== src/Cdr.antt =====
-- internal/cdr/cdr.go: the records that flow on the topics, and the names of topics and rules.
use go_cdr_fraud_detector.Base.Int.{ℤ}
use go_cdr_fraud_detector.Base.Text.{Str, codes}
use go_cdr_fraud_detector.Clock.{Time}

abbrev pub topic_raw : Str
topic_raw = codes "cdr.raw"

abbrev pub topic_alert : Str
topic_alert = codes "cdr.fraud.alert"

abbrev pub topic_dlq : Str
topic_dlq = codes "cdr.dlq"

-- The rule identifiers, and the string that each one is.
pub data Rule : Type 0 where
  velocity : Rule
  impossible_travel : Rule
  irsf : Rule

unfoldable pub rule_name : Rule → Str
rule_name velocity = codes "velocity"
rule_name impossible_travel = codes "impossible_travel"
rule_name irsf = codes "irsf"

abbrev pub CallType : Type 0
CallType = Str

abbrev pub voice : CallType
voice = codes "VOICE"

abbrev pub sms : CallType
sms = codes "SMS"

abbrev pub call_data : CallType
call_data = codes "DATA"

pub record Cdr : Type 0 where
  pub record_id : Str
  pub caller_msisdn : Str
  pub callee_msisdn : Str
  pub start_time : Time
  pub duration_sec : ℤ
  pub cell_id : Str
  pub call_type : CallType
  pub bytes : ℤ
  pub termination : Str

pub record FraudAlert (F : Type 0) : Type 0 where
  pub record_id : Str
  pub caller_msisdn : Str
  pub rule : Str
  pub score : F
  pub evidence : Str
  pub detected_at : Time
