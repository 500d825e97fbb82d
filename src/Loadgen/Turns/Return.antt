-- ===== src/Loadgen/Turns/Return.antt =====
-- The end of the workers: wg.Wait of main returns after the context is done.
use go_cdr_fraud_detector.Base.{
  ℕ, zero, suc, ◌+◌, ◌*◌, ◌≤◌, ◌≡◌, refl, ap, ◌⊎◌, true, false, Option, some, List, [], ◌∷◌, ◌++◌,
  All, length, length-append, inl, inr, Bool-cases, arith,
}
use go_cdr_fraud_detector.Go.{Go}
use go_cdr_fraud_detector.Generator.{World}
use go_cdr_fraud_detector.Generator.Runs.{IsRandom}
use go_cdr_fraud_detector.Loadgen.{Driver, Limiter}
use go_cdr_fraud_detector.Loadgen.Workers.{CountsMessages, random_cdr-IsSynthetic}
use go_cdr_fraud_detector.Loadgen.Turns.{
  Place, looking, waiting, drawing, writing, adding, returned, turn, Running, launch, launched,
  is_returned, Turn, takes, Turns, stays, goes_on, meanwhile,
}
use go_cdr_fraud_detector.Loadgen.Turns.Total.{all_owed, launch-owes, Turns-accepted}
use go_cdr_fraud_detector.Loadgen.Turns.Left.{StaysDone, all_left-bound, Turns-Closer}

busy_one :
    (ps : List Place)
    → All (λ p. is_returned p ≡ true) ps
      ⊎ ((before : List Place) × (here : Place) × (after : List Place) × (ps
            ≡ before ++ here ∷ after)
          × (is_returned here ≡ false))
busy_one [] = inl tt
busy_one (p ∷ ps) = elim (Bool-cases (is_returned p)) [
  | inr busy ↦ inr ([], p, ps, refl, busy)
  | inl gone ↦ elim (busy_one ps) [
    | inl all ↦ inl (gone, all)
    | inr (before, here, after, at, busy) ↦
        inr (p ∷ before, here, after, ap (λ qs. p ∷ qs) at, busy)
  ]
]

owed-returned : (ps : List Place) → All (λ p. is_returned p ≡ true) ps → all_owed ps ≡ 0
owed-returned [] h = refl
owed-returned (p ∷ ps) h = ground (arith, h.0, owed-returned ps h.1)

length-launch : (n : ℕ) → length (launch n) ≡ n
unfolding launch
length-launch zero = refl
length-launch (suc n) = omega (arith, length-launch n)

module _ {F W E : Type 0} (go : Go F) (world : World W E) (driver : Driver W E)
    (lim : Option Limiter) where
  Turns-length :
      {Allowed : W → W → Type 0} {k : ℕ} {s t : Running W}
      → Turns go world driver lim Allowed k s t
      → length t.places ≡ length s.places
  Turns-length stays = refl
  Turns-length (goes_on (takes before after here {there} at busy turned) rest) = rw at (
      omega (
        arith,
        Turns-length rest,
        length-append before (here ∷ after),
        length-append before (there ∷ after),
      ))
  Turns-length (meanwhile w allowed rest) = Turns-length rest

module _ {F W E : Type 0} (go : Go F) (world : World W E) (driver : Driver W E)
    (lim : Option Limiter) (random : IsRandom world) where
  turn-total :
      (here : Place) (w : W) (sent : ℕ)
      → (r : W × ℕ × Place) × (turn go world driver lim here w sent ≡ some r)
  unfolding turn
  turn-total looking w sent = (_, refl)
  turn-total waiting w sent = (_, refl)
  turn-total drawing w sent =
      rw (((random_cdr-IsSynthetic go world [] random).from w).ends, turn) (_, refl)
  turn-total (writing m) w sent = (_, refl)
  turn-total adding w sent = (_, refl)
  turn-total returned w sent = (_, refl)

  -- Either all workers have returned, or one of them has a turn, which is no panic.
  Turn-next :
      (s : Running W)
      → All (λ p. is_returned p ≡ true) s.places ⊎ ((t : Running W) × Turn go world driver lim s t)
  Turn-next s = elim (busy_one s.places) [
    | inl all ↦ inl all
    | inr (before, here, after, at, busy) ↦
        let (r, turned) = turn-total here s.outside s.sent in
        inr (_, takes before after here at busy turned)
  ]

module _ {F W E : Type 0} (go : Go F) (world : World W E) (driver : Driver W E)
    (lim : Option Limiter) (random : IsRandom world) (laws : CountsMessages world driver)
    (done : StaysDone world driver) where
  -- What else may happen: nothing is sent. After the end of the context it stays ended.
  abbrev pub Quiet : W → W → Type 0
  Quiet u u' = laws.accepted u' ≡ laws.accepted u

  abbrev pub Over : W → W → Type 0
  Over u u' = Quiet u u' × (driver.cancelled u' ≡ true)

  -- Once the context is done, the workers take at most five more turns each, however they are
  -- interleaved with each other and with what else happens. As long as one has not returned, a worker
  -- can take a turn, which is no panic; when all have, so that wg.Wait returns, `sent` is the number of
  -- messages that WriteMessages accepted since the start. The context is taken to stay done, and the
  -- limiter, the writer and the random numbers to answer.
  pub workers-return :
      (workers : ℕ) (w : W) {j k : ℕ} {s t : Running W}
      → Turns go world driver lim Quiet j (launched workers w) s
      → driver.cancelled s.outside ≡ true
      → Turns go world driver lim Over k s t
      → (k ≤ 5 * workers)
        × ((All (λ p. is_returned p ≡ true) t.places
              × (laws.accepted t.outside ≡ laws.accepted w + t.sent))
            ⊎ ((u : Running W) × Turn go world driver lim t u))
  workers-return workers w {s = s} {t = t} before gone after = (
    omega (
      arith,
      Turns-Closer go world driver lim random done (λ u u' a. a.1) after gone,
      all_left-bound s.places,
      Turns-length go world driver lim before,
      length-launch workers,
    ),
    elim (Turn-next go world driver lim random t) [
      | inr next ↦ inr next
      | inl all ↦ inl (
        all,
        omega (
          arith,
          Turns-accepted go world driver lim random laws (λ u u' a. a) before,
          Turns-accepted go world driver lim random laws (λ u u' a. a.0) after,
          launch-owes workers,
          owed-returned t.places all,
        ),
      )
    ],
  )
