-- ===== src/Stream.antt =====
-- internal/stream/stream.go: brokers, and the creation of topics with its retries. What kafka-go, the
-- timer and the context do are operations on a state `S` of the outside world; `C` stands for a
-- connection.
pub mod Polls
pub mod Topics
pub mod Clients
use go_cdr_fraud_detector.Base.{
  ℕ, zero, suc, Bool, true, false, ◌||◌, Option, none, some, List, [], ◌∷◌, ◌++◌, map,
  if◌then◌else◌,
}
use go_cdr_fraud_detector.Base.Int.{ℤ, pos, negsuc}
use go_cdr_fraud_detector.Base.Text.{Str, codes}
use go_cdr_fraud_detector.Base.Decimal.{decimal}
use go_cdr_fraud_detector.Base.Split.{split, contains}
use go_cdr_fraud_detector.Fraud.Cache.{Outcome, ok, err}

unfoldable pub brokers : Str → List Str
unfolding split
brokers csv = split b',' csv

pub record TopicSpec : Type 0 where
  pub name : Str
  pub partitions : ℤ

-- kafka.TopicConfig, as it is set.
pub record TopicConfig : Type 0 where
  pub topic : Str
  pub num_partitions : ℤ
  pub replication_factor : ℤ

pub record Kafka (S E C : Type 0) : Type 0 where
  pub dial : Str → S → S × Outcome E C
  pub close : C → S → S
  -- The host and the port of the controller.
  pub controller : C → S → S × Outcome E (Str × ℤ)
  pub create : C → List TopicConfig → S → S × Option E
  -- errors.Is(err, kafka.TopicAlreadyExists)
  pub already_exists : E → Bool
  pub error_text : E → Str
  -- The select between ctx.Done() and a second: true if the context was done; and ctx.Err().
  pub pause : S → S × Bool
  pub context_error : S → E

-- strconv.Itoa and net.JoinHostPort
unfoldable pub itoa : ℤ → Str
unfolding decimal
itoa (pos n) = decimal n
itoa (negsuc n) = b'-' ∷ decimal (suc n)

unfoldable pub join_host_port : Str → Str → Str
join_host_port host port =
    if contains host (codes ":") || contains host (codes "%")
    then b'[' ∷ host ++ (codes "]:" ++ port)
    else host ++ (codes ":" ++ port)

-- `for i := 0; i < n; i++`: try, and wait a second after each failure.
unfoldable pub poll :
    {S E : Type 0} → (S → S × Bool) → (S → E) → (S → S × Option E) → ℕ → Option E → S → S × Option E
poll pause context_error try zero last s = (s, last)
poll pause context_error try (suc n) last s =
    let (s', failed) = try s in
    elim failed [
      | none ↦ (s', none)
      | some e ↦
          let (s'', done) = pause s' in
          let rest = poll pause context_error try n (some e) s'' in
          if done then (s'', some (context_error s'')) else rest
    ]

-- How EnsureTopics ends: with its result, or with a panic at `brokers[0]`.
pub data Ending (E : Type 0) : Type 0 where
  returned : Option E → Ending E
  panicked : Ending E

module _ {S E C : Type 0} (kafka : Kafka S E C) where
  unfoldable pub config_of : TopicSpec → TopicConfig
  config_of spec = record {
    topic = spec.name;
    num_partitions = spec.partitions;
    replication_factor = pos 1;
  }

  -- An error that says that the topics exist is none.
  unfoldable pub tolerate : Option E → Option E
  tolerate none = none
  tolerate (some e) =
      if kafka.already_exists e || contains (kafka.error_text e) (codes "already exists")
      then none
      else some e

  -- createTopics with its second connection, which is closed first.
  unfoldable pub create_at : Str → List TopicSpec → S → S × Option E
  unfolding config_of tolerate
  create_at address specs s =
      let (s', r) = kafka.dial address s in
      elim r [
        | err e ↦ (s', some e)
        | ok cc ↦
            let (s'', failed) = kafka.create cc (map config_of specs) s' in
            (kafka.close cc s'', tolerate failed)
      ]

  -- createTopics with its first connection.
  unfoldable pub create_over : C → List TopicSpec → S → S × Option E
  unfolding create_at join_host_port itoa
  create_over conn specs s =
      let (s', r) = kafka.controller conn s in
      elim r [
        | err e ↦ (s', some e)
        | ok (host, port) ↦ create_at (join_host_port host (itoa port)) specs s'
      ]

  unfoldable pub create_topics : Str → List TopicSpec → S → S × Option E
  unfolding create_over
  create_topics broker specs s =
      let (s', r) = kafka.dial broker s in
      elim r [
        | err e ↦ (s', some e)
        | ok conn ↦ let (s'', failed) = create_over conn specs s' in (kafka.close conn s'', failed)
      ]

  unfoldable pub ensure_topics : List Str → List TopicSpec → S → S × Ending E
  unfolding create_topics poll
  ensure_topics [] specs s = (s, panicked)
  ensure_topics (broker ∷ _) specs s =
      let (s', failed) =
        poll kafka.pause kafka.context_error (create_topics broker specs) 180 none s in
      (s', returned failed)
