-- ===== src/Fraud/Main.antt =====
-- services/fraud/main.go: main from its start to its end. Kafka and Redis clients connect when they are
-- used, so that only EnsureTopics and grpc.NewClient can fail before the first record. The logger, the
-- metrics server and the closing of the clients are left out.
use go_cdr_fraud_detector.Base.{
  ℕ, zero, suc, ◌≡◌, refl, ap, ◌∙◌, ◌⊎◌, inl, inr, true, Option, none, some, List, [], ◌∷◌,
}
use go_cdr_fraud_detector.Base.Int.{pos}
use go_cdr_fraud_detector.Base.Text.{Str, codes}
use go_cdr_fraud_detector.Cdr.{topic_raw, topic_alert, topic_dlq}
use go_cdr_fraud_detector.Go.{Go}
use go_cdr_fraud_detector.Platform.{getenv}
use go_cdr_fraud_detector.Stream.{
  Kafka, TopicSpec, brokers, ensure_topics, Ending, returned, panicked,
}
use go_cdr_fraud_detector.Stream.Clients.{Writer, Reader, new_writer, new_reader}
use go_cdr_fraud_detector.Stream.Topics.{ensure_topics-Polled}
use go_cdr_fraud_detector.Fraud.Services.{Services}
use go_cdr_fraud_detector.Fraud.Processor.{Memory}
use go_cdr_fraud_detector.Fraud.Processor.Settings.{new_processor}
use go_cdr_fraud_detector.Fraud.Processor.Loop.{
  new_memory, round, goes_on, stops, crashes, round-survives,
}
use go_cdr_fraud_detector.Fraud.Processor.Reference.Rounds.{Reached, starts, rounds}

abbrev pub brokers_of : (Str → Option Str) → List Str
brokers_of env = brokers (getenv env (codes "KAFKA_BROKERS") (codes "localhost:29092"))

abbrev pub topics : List TopicSpec
topics =
    record { name = topic_raw; partitions = pos 3 }
    ∷ record { name = topic_alert; partitions = pos 3 }
    ∷ record { name = topic_dlq; partitions = pos 1 }
    ∷ []

-- The clients, as main sets them up.
pub record Clients : Type 0 where
  pub redis_addr : Str
  pub subscriber_addr : Str
  pub reader : Reader
  pub writer : Writer
  pub dlq_writer : Writer

unfoldable pub clients_of : (Str → Option Str) → Clients
clients_of env = record {
  redis_addr = getenv env (codes "REDIS_ADDR") (codes "localhost:6379");
  subscriber_addr = getenv env (codes "SUBSCRIBER_ADDR") (codes "localhost:50051");
  reader = new_reader (brokers_of env) (codes "fraud") topic_raw;
  writer = new_writer (brokers_of env) topic_alert;
  dlq_writer = new_writer (brokers_of env) topic_dlq;
}

-- How the consume loop ends; `running` is a loop that has not ended within its fuel.
pub data LoopEnd : Type 0 where
  shut_down : LoopEnd
  running : LoopEnd
  crashed : LoopEnd

-- How main ends: it returns before it consumes, it comes to consume, or it panics before.
pub data Ran (F S : Type 0) : Type 0 where
  gives_up : S → Ran F S
  consumes : Clients → Memory F S → LoopEnd → Ran F S
  panics : S → Ran F S

module _ {F S E C : Type 0} (go : Go F) (services : Services F S E) (kafka : Kafka S E C)
    (new_client : Str → S → S × Option E) (env : Str → Option Str) where
  -- The loop of main, cut off after so many rounds.
  unfoldable pub consume : ℕ → Memory F S → Memory F S × LoopEnd
  unfolding round
  consume zero st = (st, running)
  consume (suc fuel) st =
      let (st', next) = round ⦃go = go⦄ services (new_processor go env) st in
      let rest = consume fuel st' in
      elim next [ goes_on ↦ rest | stops ↦ (st', shut_down) | crashes ↦ (st', crashed) ]

  -- From grpc.NewClient on.
  unfoldable pub after_client : ℕ → S × Option E → Ran F S
  unfolding consume new_memory
  after_client fuel (s, some e) = gives_up s
  after_client fuel (s, none) =
      let (st, end) = consume fuel (new_memory ⦃go = go⦄ services env s) in
      consumes (clients_of env) st end

  unfoldable pub after_topics : ℕ → S × Ending E → Ran F S
  unfolding after_client clients_of
  after_topics fuel (s, returned (some e)) = gives_up s
  after_topics fuel (s, returned none) =
      after_client fuel (new_client (clients_of env).subscriber_addr s)
  after_topics fuel (s, panicked) = panics s

  unfoldable pub main : ℕ → S → Ran F S
  unfolding after_topics ensure_topics
  main fuel s = after_topics fuel (ensure_topics kafka (brokers_of env) topics s)

  -- Where the loop is: in a state that rounds reach, at its end only after the context was done.
  abbrev pub Consumed : Memory F S → LoopEnd → Type 0
  Consumed st end =
      Reached go services (new_processor go env) env st
      × (((end ≡ shut_down) × (services.cancelled st.outside ≡ true)) ⊎ (end ≡ running))

  consume-Consumed :
      (fuel : ℕ) (st : Memory F S)
      → Reached go services (new_processor go env) env st
      → let (st', end) = consume fuel st in Consumed st' end
  unfolding consume
  consume-Consumed zero st reached = (reached, inr refl)
  consume-Consumed (suc fuel) st reached =
      let next = rounds reached in
      elim (round-survives go services env st) [
        | inl on ↦ rw (on, consume) (consume-Consumed fuel _ next)
        | inr (stopped, done, _) ↦ rw (stopped, consume) (next, inl (refl, done))
      ]

  -- Why main returns before it consumes.
  abbrev pub Refused : S → S → E → Type 0
  Refused s s' e =
      (ensure_topics kafka (brokers_of env) topics s ≡ (s', returned (some e)))
      ⊎ ((u : S) × (ensure_topics kafka (brokers_of env) topics s ≡ (u, returned none))
          × (new_client (clients_of env).subscriber_addr u ≡ (s', some e)))

  abbrev pub Survives : ℕ → S → Type 0
  Survives fuel s =
      ((s' : S) × (e : E) × (main fuel s ≡ gives_up s') × Refused s s' e)
      ⊎ ((st : Memory F S) × (end : LoopEnd) × (main fuel s ≡ consumes (clients_of env) st end)
          × Consumed st end)

  client-Survives :
      (fuel : ℕ) (s u : S) (made : S × Option E)
      → ensure_topics kafka (brokers_of env) topics s ≡ (u, returned none)
      → new_client (clients_of env).subscriber_addr u ≡ made
      → Survives fuel s
  unfolding main after_topics after_client
  client-Survives fuel s u (s', some e) created failed = inl (
    s',
    e,
    ap (after_topics fuel) created ∙ ap (after_client fuel) failed,
    inr (u, created, failed),
  )
  client-Survives fuel s u (s', none) created connected = inr (
    (consume fuel (new_memory ⦃go = go⦄ services env s')).0,
    (consume fuel (new_memory ⦃go = go⦄ services env s')).1,
    ap (after_topics fuel) created ∙ ap (after_client fuel) connected,
    consume-Consumed fuel _ (starts s'),
  )

  topics-Survives :
      (fuel : ℕ) (s : S) (out : S × Option E)
      → ensure_topics kafka (brokers_of env) topics s ≡ (out.0, returned out.1)
      → Survives fuel s
  unfolding main after_topics
  topics-Survives fuel s (s', some e) failed =
      inl (s', e, ap (after_topics fuel) failed, inl failed)
  topics-Survives fuel s (u, none) created = client-Survives fuel s u _ created refl

  -- Whatever the environment variables are, and for any number of rounds, main of the fraud service does
  -- not panic: it returns before the first record, and only with an error of EnsureTopics or of
  -- grpc.NewClient, or it consumes, in a state that rounds reach from the empty caches, and ends only
  -- after the context is done.
  pub main-Survives : (fuel : ℕ) (s : S) → Survives fuel s
  main-Survives fuel s =
      let (broker, out, ends, polled) =
        ensure_topics-Polled kafka topics
          (getenv env (codes "KAFKA_BROKERS") (codes "localhost:29092")) s in
      topics-Survives fuel s out ends
