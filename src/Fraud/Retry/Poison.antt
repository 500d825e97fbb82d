-- ===== src/Fraud/Retry/Poison.antt =====
-- services/fraud/dlq.go: the records that no attempt can process.
use go_cdr_fraud_detector.Base.{
  ℕ, zero, suc, ◌≡◌, subst, true, false, Option, none, some, [], ◌∷◌, inl, inr, arith,
}
use go_cdr_fraud_detector.Base.Int.{ℤ, pos, pos_part, ◌≤ℤ◌}
use go_cdr_fraud_detector.Base.Text.{Str, codes}
use go_cdr_fraud_detector.Cdr.{topic_raw}
use go_cdr_fraud_detector.Fraud.Retry.{Env, Message, returned, dead_letter, give_up, run_with_retry}
use go_cdr_fraud_detector.Fraud.Retry.Outcomes.{Fails, start, again, Fails-give_up, Fails-last}

module _ {S E : Type 0} (env : Env S E) (value : Str) where
  -- The handler fails the record whatever the state, and nothing interrupts a pause.
  pub record Poisonous : Type 0 where
    pub fails : (s : S) → (e : E) × ((env.handle value s).1 ≡ some e)
    pub live : (s : S) → env.cancelled s ≡ false
    pub resumed : (s : S) → (env.pause s).1 ≡ false

  Poisonous-Fails :
      (n : ℕ) (s : S) (err : Option E)
      → Poisonous
      → (t : S) × (last : Option E) × Fails env value n s err t last
  Poisonous-Fails zero s err h = (s, err, start)
  Poisonous-Fails (suc n) s err h =
      let (e, failed) = h.fails s in
      let s' = (env.handle value s).0 in
      let on : env.pause s' ≡ ((env.pause s').0, false) = ground (arith, h.resumed s') in
      let (t, last, rest) = Poisonous-Fails n (env.pause s').0 (some e) h in
      (t, last, again (record { called = failed; live = h.live s'; resumed = on }) rest)

  -- How the call ends, after exactly that number of failures: with a write of this message.
  abbrev pub Written : ℤ → S → Type 0
  Written max_attempts s =
      (t : S) × (e : E) × Fails env value (pos_part max_attempts) s none t (some e)
      × (let message : Message = record {
        key = [];
        value = value;
        headers =
            record { key = codes "error"; value = env.error_text e }
            ∷ record { key = codes "source"; value = topic_raw }
            ∷ [];
      } in
          let (t', failed) = env.write_dlq message t in
          run_with_retry env max_attempts value s ≡ elim failed [
            | none ↦ (env.count_dead_letter t', returned true)
            | some _ ↦ (t', returned false)
          ])

  -- For a record that the handler fails in every state, with at least one attempt, a context that is
  -- never done and no pause that is interrupted, the call makes exactly the configured number of attempts and then one write to
  -- the dead-letter topic, of the record's own bytes with the text of the last error and the name of the
  -- raw topic in its headers: it returns true if that write succeeds, and false otherwise.
  pub run_with_retry-poison :
      (max_attempts : ℤ) (s : S) → pos 1 ≤ℤ max_attempts → Poisonous → Written max_attempts s
  unfolding run_with_retry give_up dead_letter
  run_with_retry-poison max_attempts s some_left poison =
      let (t, last, fails) = Poisonous-Fails (pos_part max_attempts) s none poison in
      elim (Fails-last env value fails) [
        | inl (_, none_left) ↦ absurd (omega arith)
        | inr (e, same) ↦
            let all = subst (λ l. Fails env value (pos_part max_attempts) s none t l) same fails in
            (t, e, all, Fails-give_up env value all)
      ]
