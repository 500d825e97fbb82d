-- ===== src/Fraud/Processor/Touches.antt =====
-- Which outside operations the handling of a record performs, as a relation on the outside world.
use go_cdr_fraud_detector.Base.{◌≡◌, Bool, true, false, inl, inr, List, ◌++◌, All, if◌then◌else◌}
use go_cdr_fraud_detector.Base.Text.{Str, codes}
use go_cdr_fraud_detector.Clock.{Duration}
use go_cdr_fraud_detector.Cdr.{Cdr, Rule, rule_name}
use go_cdr_fraud_detector.Fraud.Cache.{Outcome-cases}
use go_cdr_fraud_detector.Fraud.Retry.{Message}
use go_cdr_fraud_detector.Fraud.Action.{Action, ◌>>=◌}
use go_cdr_fraud_detector.Fraud.Services.{
  Services, Command, z_add, z_rem_range_by_score, z_card, z_range, expire,
}
use go_cdr_fraud_detector.Fraud.Processor.{Memory, outwards, grpc_timeout}

-- The Redis keys of a record: its own mark, and the state of its caller.
pub data KeyOf (rec : Cdr) : Str → Type 0 where
  seen_key : KeyOf rec (codes "seen:" ++ rec.record_id)
  velocity_key : KeyOf rec (codes "velocity:" ++ rec.caller_msisdn)
  spend_key : KeyOf rec (codes "spend:" ++ rec.caller_msisdn)
  location_key : KeyOf rec (codes "lastloc:" ++ rec.caller_msisdn)
  alerted_key :
      (r : Rule) → KeyOf rec (codes "alerted:" ++ (rule_name r ++ (codes ":" ++ rec.caller_msisdn)))

abbrev pub command_key : {F : Type 0} → Command F → Str
command_key (z_add key _ _) = key
command_key (z_rem_range_by_score key _ _) = key
command_key (z_card key) = key
command_key (z_range key _ _) = key
command_key (expire key _) = key

module _ {F S E : Type 0} (services : Services F S E) (rec : Cdr) where
  -- One outside operation for the record: Redis under its keys, the reference data of its cell and
  -- destination, or an alert that is keyed by its caller.
  pub data Touch (s t : S) : Type 0 where
    counted : {key : Str} → KeyOf rec key → t ≡ (services.count_keys key s).0 → Touch s t
    read : {key : Str} → KeyOf rec key → t ≡ (services.get_key key s).0 → Touch s t
    stored :
        {key value : Str} {ttl : Duration}
        → KeyOf rec key
        → t ≡ (services.set_key key value ttl s).0
        → Touch s t
    executed :
        {key : Str} {commands : List (Command F)}
        → KeyOf rec key
        → All (λ c. command_key c ≡ key) commands
        → t ≡ (services.exec commands s).0
        → Touch s t
    asked_cell : t ≡ (services.get_cell grpc_timeout rec.cell_id s).0 → Touch s t
    asked_tariff : t ≡ (services.get_tariff grpc_timeout rec.callee_msisdn s).0 → Touch s t
    alerted :
        {m : Message} → m.key ≡ rec.caller_msisdn → t ≡ (services.write_alert m s).0 → Touch s t

  -- Any number of them, in order.
  pub data Touches : S → S → Type 0 where
    rests : {s : S} → Touches s s
    moves : {s t u : S} → Touch s t → Touches t u → Touches s u

  pub Touches-trans : {s t u : S} → Touches s t → Touches t u → Touches s u
  Touches-trans rests q = q
  Touches-trans (moves t p) q = moves t (Touches-trans p q)

  -- An action that does nothing else. `out` finds the outside world in the state.
  pub record Keeps {T A : Type 0} (out : T → S) (m : Action T E A) : Type 0 where
    pub runs : (t : T) → Touches (out t) (out (m t).0)

  pub Keeps-bind :
      {T A B : Type 0} (out : T → S) {m : Action T E A} {f : A → Action T E B}
      → Keeps out m
      → ((a : A) → Keeps out (f a))
      → Keeps out (m >>= f)
  unfolding ◌>>=◌
  Keeps-bind out {m} p q = record {
    runs = λ t. elim (Outcome-cases (m t).1) [
      | inl (a, good) ↦ rw (good, ◌>>=◌) (Touches-trans (p.runs t) ((q a).runs (m t).0))
      | inr (e, bad) ↦ rw (bad, ◌>>=◌) (p.runs t)
    ];
  }

  pub Keeps-if :
      {T A : Type 0} (out : T → S) (b : Bool) {m n : Action T E A}
      → Keeps out m
      → Keeps out n
      → Keeps out (if b then m else n)
  Keeps-if out true p q = p
  Keeps-if out false p q = q

  pub Keeps-outwards :
      {A : Type 0} (m : Action S E A)
      → Keeps (λ s. s) m
      → Keeps (λ (st : Memory F S). st.outside) (outwards m)
  Keeps-outwards m p = record { runs = λ st. p.runs st.outside }

  -- An action that is one operation, and one that is none.
  pub once : {A : Type 0} {m : Action S E A} → ((s : S) → Touch s (m s).0) → Keeps (λ s. s) m
  once touch = record { runs = λ s. moves (touch s) rests }

  pub never :
      {T A : Type 0} (out : T → S) {m : Action T E A} → ((t : T) → (m t).0 ≡ t) → Keeps out m
  never out {m} same = record { runs = λ t. rw (same t) rests }
