-- ===== src/Stream/Topics.antt =====
-- The broker list, and what the creation of topics promises.
use go_cdr_fraud_detector.Base.{ℕ, suc, ◌<◌, ◌≡◌, ◌≢◌, refl, ap, Option, none, List, [], ◌∷◌, All}
use go_cdr_fraud_detector.Base.Text.{Str}
use go_cdr_fraud_detector.Base.Split.{
  Without, join, split-ne-nil, split-Without, join-split, split-join,
}
use go_cdr_fraud_detector.Fraud.Cache.{ok, err}
use go_cdr_fraud_detector.Stream.{
  Kafka, TopicSpec, brokers, create_topics, ensure_topics, Ending, returned,
}
use go_cdr_fraud_detector.Stream.Polls.{Fails, Polled, poll-Polled, poll-reaches}

-- A list of at least one broker, none of which holds a comma, is read back from its text; and the
-- brokers of any text are such a list, whose text is the given one.
pub brokers-join :
    (csv b : Str) (bs : List Str)
    → All (Without b',') (b ∷ bs)
    → (brokers (join b',' (b ∷ bs)) ≡ b ∷ bs)
      × (join b',' (brokers csv) ≡ csv)
      × All (Without b',') (brokers csv)
      × (brokers csv ≢ [])
unfolding brokers
brokers-join csv b bs h =
    (split-join b',' b bs h, join-split b',' csv, split-Without b',' csv, split-ne-nil b',' csv)

brokers-ne-nil : (csv : Str) → brokers csv ≢ []
unfolding brokers
brokers-ne-nil csv = split-ne-nil b',' csv

-- How many connections are open, as kafka-go opens and closes them.
pub record CountsConnections {S E C : Type 0} (kafka : Kafka S E C) : Type 0 where
  pub opened : S → ℕ
  pub dial_ok :
      (a : Str) (s : S) (c : C)
      → (kafka.dial a s).1 ≡ ok c
      → opened (kafka.dial a s).0 ≡ suc (opened s)
  pub dial_err :
      (a : Str) (s : S) (e : E) → (kafka.dial a s).1 ≡ err e → opened (kafka.dial a s).0 ≡ opened s
  pub closed : (c : C) (s : S) (n : ℕ) → opened s ≡ suc n → opened (kafka.close c s) ≡ n
  pub controlled : (c : C) (s : S) → opened (kafka.controller c s).0 ≡ opened s
  pub created : (c : C) (cs : List _) (s : S) → opened (kafka.create c cs s).0 ≡ opened s
  pub paused : (s : S) → opened (kafka.pause s).0 ≡ opened s

module _ {S E C : Type 0} (kafka : Kafka S E C) (specs : List TopicSpec) (csv : Str) (s : S) where
  -- With the brokers of any text EnsureTopics does not panic, and it ends in one of three ways: with
  -- nil after fewer than 180 failures of createTopics, with the error of the context as soon as a
  -- pause after such a failure is interrupted, or after 180 failures with the error of the last.
  pub ensure_topics-Polled :
      (broker : Str) × (out : S × Option E) × (ensure_topics kafka (brokers csv) specs s
        ≡ (out.0, returned out.1))
      × Polled kafka.pause kafka.context_error (create_topics kafka broker specs) 180 s none out
  unfolding ensure_topics
  ensure_topics-Polled = ends (brokers csv) (brokers-ne-nil csv)
    where
      ends :
          (bs : List Str)
          → bs ≢ []
          → (broker : Str) × (out : S × Option E) × (ensure_topics kafka bs specs s
              ≡ (out.0, returned out.1))
            × Polled kafka.pause kafka.context_error
                (create_topics kafka broker specs)
                180
                s
                none
                out
      ends [] h = absurd (h refl)
      ends (broker ∷ bs) h = (
        broker,
        _,
        refl,
        poll-Polled kafka.pause kafka.context_error (create_topics kafka broker specs) 180 none s,
      )

  -- If createTopics succeeds after fewer than 180 failures, between which no pause is interrupted,
  -- EnsureTopics returns nil, in the state that this call leaves.
  pub ensure_topics-ready :
      (broker : Str) (bs : List Str) (n : ℕ) (t : S) (last : Option E)
      → brokers csv ≡ broker ∷ bs
      → n < 180
      → Fails kafka.pause kafka.context_error (create_topics kafka broker specs) n s none t last
      → (create_topics kafka broker specs t).1 ≡ none
      → ensure_topics kafka (brokers csv) specs s
        ≡ ((create_topics kafka broker specs t).0, returned none)
  unfolding ensure_topics
  ensure_topics-ready broker bs n t last first few fails good = rw first (
      ap (λ (r : S × Option E). let out : S × Ending E = (r.0, returned r.1) in out)
        (poll-reaches kafka.pause kafka.context_error (create_topics kafka broker specs) fails few
          good))
