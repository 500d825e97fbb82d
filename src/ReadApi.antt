-- ===== src/ReadApi.antt =====
-- services/read-api/main.go: the alerts on their way into Postgres and out over HTTP. Postgres, Kafka,
-- the timer and the context are operations on a state `S` of the outside world. Logging and metrics
-- are left out.
pub mod Table
pub mod Consume
pub mod Ready
pub mod Startup
pub mod Routes
use go_cdr_fraud_detector.Base.{
  ℕ, zero, suc, Bool, true, false, Option, none, some, List, [], ◌∷◌, ◌++◌, length, if◌then◌else◌,
}
use go_cdr_fraud_detector.Base.Text.{Str, codes}
use go_cdr_fraud_detector.Cdr.{FraudAlert}
use go_cdr_fraud_detector.Fraud.Cache.{Outcome, ok, err}
use go_cdr_fraud_detector.Fraud.Services.{Fetched}
use go_cdr_fraud_detector.Stream.{poll}

-- The statements that the service executes: the schema, and INSERT … ON CONFLICT (record_id, rule) DO
-- NOTHING with the fields of an alert.
pub data Statement (F : Type 0) : Type 0 where
  create_table : Statement F
  insert_alert : FraudAlert F → Statement F

-- What a query returns: the rows as Scan reads them, one after the other, and rows.Err().
pub record Rows (F E : Type 0) : Type 0 where
  pub scanned : List (Outcome E (FraudAlert F))
  pub failed : Option E

pub record Services (F S E P : Type 0) : Type 0 where
  -- pgxpool.New, and of a pool Ping, Exec, and Query with SELECT … ORDER BY detected_at DESC LIMIT $1
  pub new_pool : Str → S → S × Outcome E P
  pub ping : P → S → S × Option E
  pub exec : P → Statement F → S → S × Option E
  pub query_recent : P → ℕ → S → S × Outcome E (Rows F E)
  -- reader.FetchMessage and reader.CommitMessages
  pub fetch : S → S × Outcome E Fetched
  pub commit : Fetched → S → S × Option E
  pub cancelled : S → Bool
  pub context_error : S → E
  -- The select between ctx.Done() and a second: true if the context was done.
  pub pause : S → S × Bool
  pub unmarshal_alert : Str → Outcome E (FraudAlert F)

-- How the loop that stores an alert ends; `pending` is a loop that has not ended within its fuel.
pub data Storing : Type 0 where
  stored : Storing
  shut_down : Storing
  pending : Storing

-- What consumeAlerts does after a round.
pub data Next : Type 0 where
  goes_on : Next
  stops : Next
  waits : Next

module _ {F S E P : Type 0} (services : Services F S E P) where
  unfoldable pub connect_db : Str → S → S × Outcome E P
  unfolding poll
  connect_db dsn s =
      let (s', r) = services.new_pool dsn s in
      elim r [
        | err e ↦ (s', err e)
        | ok pool ↦
            let (s'', failed) =
              poll services.pause services.context_error (services.ping pool) 15 none s' in
            (s'', elim failed [ none ↦ ok pool | some e ↦ err e ])
      ]

  unfoldable pub store_alert : P → FraudAlert F → S → S × Option E
  store_alert pool a = services.exec pool (insert_alert a)

  -- `for { … }` around storeAlert.
  unfoldable pub store_retry : P → FraudAlert F → ℕ → S → S × Storing
  unfolding store_alert
  store_retry pool a zero s = (s, pending)
  store_retry pool a (suc fuel) s =
      let (s', failed) = store_alert pool a s in
      elim failed [
        | none ↦ (s', stored)
        | some e ↦
            if services.cancelled s'
            then (s', shut_down)
            else (let (s'', done) = services.pause s' in
                let rest = store_retry pool a fuel s'' in if done then (s'', shut_down) else rest)
      ]

  -- What follows the loop: the commit, if the alert is stored.
  unfoldable pub commit_stored : Fetched → S × Storing → S × Next
  commit_stored m (s, stored) = ((services.commit m s).0, goes_on)
  commit_stored m (s, shut_down) = (s, stops)
  commit_stored m (s, pending) = (s, waits)

  unfoldable pub consume_message : P → ℕ → Fetched → S → S × Next
  unfolding store_retry commit_stored
  consume_message pool fuel m s = elim (services.unmarshal_alert m.value) [
    | err e ↦ ((services.commit m s).0, goes_on)
    | ok alert ↦ commit_stored m (store_retry pool alert fuel s)
  ]

  -- One round of consumeAlerts.
  unfoldable pub consume_round : P → ℕ → S → S × Next
  unfolding consume_message
  consume_round pool fuel s =
      let (s', r) = services.fetch s in
      elim r [
        | err e ↦ (s', if services.cancelled s' then stops else goes_on)
        | ok m ↦ consume_message pool fuel m s'
      ]

-- The loop over the rows.
unfoldable pub scan_rows :
    {F E : Type 0} → List (Outcome E (FraudAlert F)) → Outcome E (List (FraudAlert F))
scan_rows [] = ok []
scan_rows (err e ∷ rows) = err e
scan_rows (ok a ∷ rows) = elim (scan_rows rows) [ err e ↦ err e | ok alerts ↦ ok (a ∷ alerts) ]

-- `return alerts, rows.Err()`, of which the caller looks at the alerts only without an error.
unfoldable pub finish_rows :
    {F E : Type 0} → Option E → Outcome E (List (FraudAlert F)) → Outcome E (List (FraudAlert F))
finish_rows failed (err e) = err e
finish_rows none (ok alerts) = ok alerts
finish_rows (some e) (ok alerts) = err e

-- What a handler writes: a status, and a body.
pub data Body (F : Type 0) : Type 0 where
  text : Str → Body F
  about : Str → List Str → Body F
  alerts_json : ℕ → List (FraudAlert F) → Body F

pub record Response (F : Type 0) : Type 0 where
  pub status : ℕ
  pub body : Body F

module _ {F S E P : Type 0} (services : Services F S E P) where
  unfoldable pub recent_alerts : P → ℕ → S → S × Outcome E (List (FraudAlert F))
  unfolding scan_rows finish_rows
  recent_alerts pool limit s =
      let (s', r) = services.query_recent pool limit s in
      (s', elim r [ err e ↦ err e | ok rows ↦ finish_rows rows.failed (scan_rows rows.scanned) ])

  unfoldable pub get_alerts : P → S → S × Response F
  unfolding recent_alerts
  get_alerts pool s =
      let (s', r) = recent_alerts pool 100 s in
      (
        s',
        elim r [
          | err e ↦ record { status = 500; body = text (codes "query failed") }
          | ok alerts ↦ record { status = 200; body = alerts_json (length alerts) alerts }
        ],
      )

abbrev pub get_healthz : {F : Type 0} → Response F
get_healthz = record { status = 200; body = text (codes "ok") }

abbrev pub get_root : {F : Type 0} → Response F
get_root = record {
  status = 200;
  body = about (codes "read-api") (codes "GET /alerts" ∷ codes "GET /healthz" ∷ []);
}
