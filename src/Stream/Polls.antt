-- ===== src/Stream/Polls.antt =====
-- How a polling loop ends.
use go_cdr_fraud_detector.Base.{
  ℕ, zero, suc, ◌<◌, ◌≡◌, refl, Bool, true, false, Option, none, some, inl, inr, arith, Bool-cases,
  Option-cases,
}
use go_cdr_fraud_detector.Stream.{poll}

module _ {S E : Type 0} (pause : S → S × Bool) (context_error : S → E)
    (try : S → S × Option E) where
  -- A try that fails, and is followed by its whole pause.
  pub record FailsOnce (s : S) (e : E) (t : S) : Type 0 where
    pub tried : (try s).1 ≡ some e
    pub resumed : pause (try s).0 ≡ (t, false)

  -- `n` of them in a row; `last` is the error of the latest.
  pub data Fails : ℕ → S → Option E → S → Option E → Type 0 where
    start : {s : S} {last : Option E} → Fails zero s last s last
    again :
        {n : ℕ} {s t u : S} {before last : Option E} {e : E}
        → FailsOnce s e t
        → Fails n t (some e) u last
        → Fails (suc n) s before u last

  -- After how many failures a loop of `left` rounds ends, and in which way.
  pub data Polled (left : ℕ) (s : S) (before : Option E) (out : S × Option E) : Type 0 where
    reached :
        {n : ℕ} {t : S} {last : Option E}
        → n < left
        → Fails n s before t last
        → (try t).1 ≡ none
        → out ≡ ((try t).0, none)
        → Polled left s before out
    cancelled :
        {n : ℕ} {t u : S} {last : Option E} {e : E}
        → n < left
        → Fails n s before t last
        → (try t).1 ≡ some e
        → pause (try t).0 ≡ (u, true)
        → out ≡ (u, some (context_error u))
        → Polled left s before out
    exhausted :
        {t : S} {last : Option E}
        → Fails left s before t last
        → out ≡ (t, last)
        → Polled left s before out

  Polled-again :
      {n : ℕ} {s t : S} {before : Option E} {e : E} {out : S × Option E}
      → FailsOnce s e t
      → Polled n t (some e) out
      → Polled (suc n) s before out
  Polled-again f (reached lt fails good eq) = reached (omega arith) (again f fails) good eq
  Polled-again f (cancelled lt fails bad gone eq) =
      cancelled (omega arith) (again f fails) bad gone eq
  Polled-again f (exhausted fails eq) = exhausted (again f fails) eq

  pub poll-Polled :
      (left : ℕ) (before : Option E) (s : S)
      → Polled left s before (poll pause context_error try left before s)
  unfolding poll
  poll-Polled zero before s = exhausted start refl
  poll-Polled (suc n) before s = elim (Option-cases (try s).1) [
    | inl good ↦ reached (omega arith) start good (rw (good, poll) refl)
    | inr (e, bad) ↦ elim (Bool-cases (pause (try s).0).1) [
      | inl gone ↦
          cancelled {u = (pause (try s).0).0} (omega arith) start bad (ground (arith, gone))
            (rw (bad, gone, poll) refl)
      | inr on ↦
          let t = (pause (try s).0).0 in
          let f : FailsOnce s e t = record { tried = bad; resumed = ground (arith, on) } in
          rw (bad, on, poll) (Polled-again f (poll-Polled n (some e) t))
    ]
  ]

  -- A loop that has rounds left after its failures ends with the success that follows them.
  pub poll-reaches :
      {n left : ℕ} {s t : S} {before last : Option E}
      → Fails n s before t last
      → n < left
      → (try t).1 ≡ none
      → poll pause context_error try left before s ≡ ((try t).0, none)
  unfolding poll
  poll-reaches {left = zero} fails lt good = absurd (omega arith)
  poll-reaches {left = suc k} start lt good = rw (good, poll) refl
  poll-reaches {left = suc k} (again f fails) lt good =
      rw (f.tried, f.resumed, poll) (poll-reaches fails (omega arith) good)

  -- What every try and every pause keeps, the loop keeps.
  pub poll-keeps :
      (P : S → Type 0)
      → ((s : S) → P s → P (try s).0)
      → ((s : S) → P s → P (pause s).0)
      → (left : ℕ) (before : Option E) (s : S) → P s
      → P (poll pause context_error try left before s).0
  unfolding poll
  poll-keeps P p q zero before s h = h
  poll-keeps P p q (suc n) before s h = elim (Option-cases (try s).1) [
    | inl good ↦ rw (good, poll) (p s h)
    | inr (e, bad) ↦ elim (Bool-cases (pause (try s).0).1) [
      | inl gone ↦ rw (bad, gone, poll) (q (try s).0 (p s h))
      | inr on ↦
          rw (bad, on, poll) (poll-keeps P p q n (some e) (pause (try s).0).0 (q (try s).0 (p s h)))
    ]
  ]
