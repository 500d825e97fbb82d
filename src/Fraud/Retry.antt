-- ===== src/Fraud/Retry.antt =====
-- services/fraud/dlq.go: bounded retries of one record, and the dead-letter topic. The handler, the
-- context, the timer and the Kafka writer are operations on a state `S` of the outside world; an
-- error of type `E` is `some e`, and Go's nil is `none`. Logging is left out.
pub mod Outcomes
pub mod Poison
pub mod Preserves
use go_cdr_fraud_detector.Base.{
  ℕ, zero, suc, Bool, true, false, Option, none, some, List, [], ◌∷◌, if◌then◌else◌,
}
use go_cdr_fraud_detector.Base.Int.{ℤ, pos_part}
use go_cdr_fraud_detector.Base.Text.{Str, codes}
use go_cdr_fraud_detector.Cdr.{topic_raw}

pub record Header : Type 0 where
  pub key : Str
  pub value : Str

-- kafka.Message, as far as the service sets it.
pub record Message : Type 0 where
  pub key : Str
  pub value : Str
  pub headers : List Header

pub record Env (S E : Type 0) : Type 0 where
  -- handle(ctx, value)
  pub handle : Str → S → S × Option E
  -- ctx.Err() != nil
  pub cancelled : S → Bool
  -- The select between ctx.Done() and the timer: true if the context was done.
  pub pause : S → S × Bool
  -- dlqWriter.WriteMessages
  pub write_dlq : Message → S → S × Option E
  pub error_text : E → Str
  -- deadLettered.Inc()
  pub count_dead_letter : S → S

-- How a call ends: the result, or the panic of calling Error() on a nil error.
pub data Ending : Type 0 where
  returned : Bool → Ending
  panicked : Ending

module _ {S E : Type 0} (env : Env S E) where
  unfoldable pub dead_letter : Str → E → S → S × Option E
  dead_letter value cause s =
      env.write_dlq
        (record {
          key = [];
          value = value;
          headers =
              record { key = codes "error"; value = env.error_text cause }
              ∷ record { key = codes "source"; value = topic_raw }
              ∷ [];
        })
        s

  -- What follows the loop.
  unfoldable pub give_up : Str → Option E → S → S × Ending
  unfolding dead_letter
  give_up value none s = (s, panicked)
  give_up value (some cause) s =
      let (s', failed) = dead_letter value cause s in
      elim failed [
        | none ↦ (env.count_dead_letter s', returned true)
        | some e ↦ (s', returned false)
      ]

  -- The loop, with the number of attempts that are left and the last error.
  unfoldable pub attempts : Str → ℕ → Option E → S → S × Ending
  unfolding give_up
  attempts value zero err s = give_up value err s
  attempts value (suc n) err s =
      let (s', failed) = env.handle value s in
      elim failed [
        | none ↦ (s', returned true)
        | some e ↦
            if env.cancelled s'
            then (s', returned false)
            else (let (s'', done) = env.pause s' in
                let rest = attempts value n (some e) s'' in
                if done then (s'', returned false) else rest)
      ]

  unfoldable pub run_with_retry : ℤ → Str → S → S × Ending
  unfolding attempts
  run_with_retry max_attempts value s = attempts value (pos_part max_attempts) none s
