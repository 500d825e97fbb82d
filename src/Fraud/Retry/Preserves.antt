-- ===== src/Fraud/Retry/Preserves.antt =====
-- What the handler and the calls around it preserve, runWithRetry preserves.
use go_cdr_fraud_detector.Base.{
  ℕ, zero, suc, Option, none, some, inl, inr, Bool-cases, Option-cases,
}
use go_cdr_fraud_detector.Base.Int.{ℤ, pos_part}
use go_cdr_fraud_detector.Base.Text.{Str}
use go_cdr_fraud_detector.Fraud.Retry.{Env, Message, dead_letter, give_up, attempts, run_with_retry}

-- Every operation of the environment preserves the predicate.
pub record PreservesAll {S E : Type 0} (env : Env S E) (P : S → Type 0) : Type 0 where
  pub handles : (value : Str) (s : S) → P s → P (env.handle value s).0
  pub pauses : (s : S) → P s → P (env.pause s).0
  pub writes : (m : Message) (s : S) → P s → P (env.write_dlq m s).0
  pub counts : (s : S) → P s → P (env.count_dead_letter s)

module _ {S E : Type 0} (env : Env S E) (P : S → Type 0) (laws : PreservesAll env P)
    (value : Str) where
  give_up-preserves : (last : Option E) (s : S) → P s → P (give_up env value last s).0
  unfolding give_up dead_letter
  give_up-preserves none s h = h
  give_up-preserves (some cause) s h = elim (Option-cases (dead_letter env value cause s).1) [
    | inl written ↦ rw (written, give_up) (laws.counts _ (laws.writes _ s h))
    | inr (e, failed) ↦ rw (failed, give_up) (laws.writes _ s h)
  ]

  attempts-preserves : (n : ℕ) (last : Option E) (s : S) → P s → P (attempts env value n last s).0
  unfolding attempts
  attempts-preserves zero last s h = give_up-preserves last s h
  attempts-preserves (suc n) last s h =
      let s' = (env.handle value s).0 in
      let handled = laws.handles value s h in
      let paused = laws.pauses s' handled in
      elim (Option-cases (env.handle value s).1) [
        | inl good ↦ rw (good, attempts) handled
        | inr (e, failed) ↦ elim (Bool-cases (env.cancelled s')) [
          | inl gone ↦ rw (failed, gone, attempts) handled
          | inr live ↦ elim (Bool-cases (env.pause s').1) [
            | inl done ↦ rw (failed, live, done, attempts) paused
            | inr waited ↦
                rw (failed, live, waited, attempts)
                  (attempts-preserves n (some e) (env.pause s').0 paused)
          ]
        ]
      ]

  pub run_with_retry-preserves :
      (max_attempts : ℤ) (s : S) → P s → P (run_with_retry env max_attempts value s).0
  unfolding run_with_retry
  run_with_retry-preserves max_attempts s h = attempts-preserves (pos_part max_attempts) none s h
