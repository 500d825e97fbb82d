-- ===== src/Fraud/Retry/Outcomes.antt =====
-- When `run_with_retry` tells its caller to commit, and when it does not.
use go_cdr_fraud_detector.Base.{
  ℕ, zero, suc, ◌<◌, ◌≡◌, refl, subst, Bool, true, false, Option, none, some, ◌⊎◌, inl, inr, arith,
  Option-cases, Bool-cases,
}
use go_cdr_fraud_detector.Base.Int.{ℤ, pos, pos_part, ◌≤ℤ◌}
use go_cdr_fraud_detector.Base.Text.{Str}
use go_cdr_fraud_detector.Fraud.Retry.{
  Env, Ending, returned, dead_letter, give_up, attempts, run_with_retry,
}

module _ {S E : Type 0} (env : Env S E) (value : Str) where
  -- One attempt that fails and is followed by its pause, with the error it leaves.
  pub record FailsOnce (s : S) (e : E) (t : S) : Type 0 where
    pub called : (env.handle value s).1 ≡ some e
    pub live : env.cancelled (env.handle value s).0 ≡ false
    pub resumed : env.pause (env.handle value s).0 ≡ (t, false)

  -- `n` failing attempts in a row; `last` is the error of the latest.
  pub data Fails : ℕ → S → Option E → S → Option E → Type 0 where
    start : {s : S} {err : Option E} → Fails zero s err s err
    again :
        {n : ℕ} {s t u : S} {err last : Option E} {e : E}
        → FailsOnce s e t
        → Fails n t (some e) u last
        → Fails (suc n) s err u last

  -- After how many failures a call ends, and in which way.
  pub data Ends (left : ℕ) (s : S) (err : Option E) : S × Ending → Type 0 where
    succeeded :
        {n : ℕ} {t : S} {last : Option E} {out : S × Ending}
        → n < left
        → Fails n s err t last
        → (env.handle value t).1 ≡ none
        → out ≡ ((env.handle value t).0, returned true)
        → Ends left s err out
    shut_down :
        {n : ℕ} {t : S} {last : Option E} {e : E} {out : S × Ending}
        → n < left
        → Fails n s err t last
        → (env.handle value t).1 ≡ some e
        → ((env.cancelled (env.handle value t).0 ≡ true)
            ⊎ ((env.pause (env.handle value t).0).1 ≡ true))
        → out.1 ≡ returned false
        → Ends left s err out
    exhausted :
        {t : S} {last : Option E} {out : S × Ending}
        → Fails left s err t last
        → out ≡ give_up env value last t
        → Ends left s err out

  Ends-again :
      {n : ℕ} {s t : S} {err : Option E} {e : E} {out : S × Ending}
      → FailsOnce s e t
      → Ends n t (some e) out
      → Ends (suc n) s err out
  Ends-again f (succeeded lt fails ok eq) = succeeded (omega arith) (again f fails) ok eq
  Ends-again f (shut_down lt fails failed why eq) =
      shut_down (omega arith) (again f fails) failed why eq
  Ends-again f (exhausted fails eq) = exhausted (again f fails) eq

  attempts-Ends :
      (left : ℕ) (err : Option E) (s : S) → Ends left s err (attempts env value left err s)
  unfolding attempts
  attempts-Ends zero err s = exhausted start refl
  attempts-Ends (suc n) err s = elim (Option-cases (env.handle value s).1) [
    | inl ok ↦ succeeded (omega arith) start ok (rw (ok, attempts))
    | inr (e, failed) ↦ elim (Bool-cases (env.cancelled (env.handle value s).0)) [
      | inl gone ↦ shut_down (omega arith) start failed (inl gone) (rw (failed, gone, attempts))
      | inr live ↦ elim (Bool-cases (env.pause (env.handle value s).0).1) [
        | inl gone ↦
            shut_down (omega arith) start failed (inr gone) (rw (failed, live, gone, attempts))
        | inr on ↦
            let t = (env.pause (env.handle value s).0).0 in
            let f : FailsOnce s e t = record {
              called = failed;
              live = live;
              resumed = ground (arith, on);
            } in
            rw (failed, live, on, attempts) (Ends-again {err = err} f (attempts-Ends n (some e) t))
      ]
    ]
  ]

  pub Fails-give_up :
      {left : ℕ} {s t : S} {err last : Option E}
      → Fails left s err t last
      → attempts env value left err s ≡ give_up env value last t
  unfolding attempts
  Fails-give_up start = refl
  Fails-give_up (again f fails) = rw (f.called, f.live, f.resumed, attempts) (Fails-give_up fails)

  pub Fails-last :
      {n : ℕ} {s t : S} {err last : Option E}
      → Fails n s err t last
      → (last ≡ err) × (n ≡ 0) ⊎ ((e : E) × (last ≡ some e))
  Fails-last start = inl (refl, refl)
  Fails-last (again {e} f fails) = elim (Fails-last fails) [
    | inl (same, _) ↦ inr (e, same)
    | inr some_error ↦ inr some_error
  ]

-- The record was processed, after fewer failures than there are attempts.
pub data Processed {S E : Type 0} (env : Env S E) (value : Str) (left : ℕ) (s : S) : Type 0 where
  processed :
      {n : ℕ} {t : S} {last : Option E}
      → n < left
      → Fails env value n s none t last
      → (env.handle value t).1 ≡ none
      → Processed env value left s

-- Every attempt failed, and the record was written to the dead-letter topic with the last error.
pub data DeadLettered {S E : Type 0} (env : Env S E) (value : Str) (left : ℕ) (s : S) : Type 0 where
  dead_lettered :
      {t : S} {e : E}
      → Fails env value left s none t (some e)
      → (dead_letter env value e t).1 ≡ none
      → DeadLettered env value left s

module _ {S E : Type 0} (env : Env S E) (value : Str) where
  give_up-commits :
      (last : Option E) (t : S)
      → (give_up env value last t).1 ≡ returned true
      → (e : E) × (last ≡ some e) × ((dead_letter env value e t).1 ≡ none)
  unfolding give_up
  give_up-commits none t h = cc
  give_up-commits (some e) t h = (e, refl, written)
    where
      written : (dead_letter env value e t).1 ≡ none
      written = ground arith

  Ends-commits :
      {left : ℕ} {s : S} {out : S × Ending}
      → Ends env value left s none out
      → out.1 ≡ returned true
      → Processed env value left s ⊎ DeadLettered env value left s
  Ends-commits (succeeded lt fails ok eq) h = inl (processed lt fails ok)
  Ends-commits (shut_down lt fails failed why eq) h = cc
  Ends-commits {left} {s} (exhausted {t} {last} fails eq) h =
      let (e, same, written) = give_up-commits last t (ground arith) in
      inr (dead_lettered (subst (λ l. Fails env value left s none t l) same fails) written)

  -- The call returns true, so that the offset is committed, only if the handler succeeded after fewer
  -- failures than there are attempts, or failed in all of them and the record was written to the
  -- dead-letter topic with its last error.
  pub run_with_retry-commits :
      (max_attempts : ℤ) (s : S)
      → (run_with_retry env max_attempts value s).1 ≡ returned true
      → Processed env value (pos_part max_attempts) s
        ⊎ DeadLettered env value (pos_part max_attempts) s
  unfolding run_with_retry
  run_with_retry-commits max_attempts s h =
      Ends-commits (attempts-Ends env value (pos_part max_attempts) none s) h

  -- With at least one attempt the call returns, and does not dereference a nil error.
  pub run_with_retry-returns :
      (max_attempts : ℤ) (s : S)
      → pos 1 ≤ℤ max_attempts
      → (b : Bool) × ((run_with_retry env max_attempts value s).1 ≡ returned b)
  unfolding run_with_retry
  run_with_retry-returns max_attempts s h =
      Ends-returns (attempts-Ends env value (pos_part max_attempts) none s)
    where
      dead_letter-returns :
          (e : E) (t : S) → (b : Bool) × ((give_up env value (some e) t).1 ≡ returned b)
      dead_letter-returns e t = elim (Option-cases (dead_letter env value e t).1) [
        | inl ok ↦ (true, rw (ok, give_up))
        | inr (e', failed) ↦ (false, rw (failed, give_up))
      ]

      Ends-returns :
          {out : S × Ending}
          → Ends env value (pos_part max_attempts) s none out
          → (b : Bool) × (out.1 ≡ returned b)
      Ends-returns (succeeded lt fails ok eq) = (true, rw eq)
      Ends-returns (shut_down lt fails failed why eq) = (false, eq)
      Ends-returns (exhausted {t} fails eq) = elim (Fails-last env value fails) [
        | inl (_, none_left) ↦ absurd (omega arith)
        | inr (e, same) ↦ rw (eq, same) (dead_letter-returns e t)
      ]
