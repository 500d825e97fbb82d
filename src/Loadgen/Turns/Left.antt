-- ===== src/Loadgen/Turns/Left.antt =====
-- How many turns the workers have left once the context is done.
use mathlib.Core.Option.{some-injective}
use go_cdr_fraud_detector.Base.{
  ℕ, ◌+◌, ◌*◌, ◌≤◌, ◌<◌, ◌≡◌, refl, subst, true, false, Option, some, List, [], ◌∷◌, ◌++◌, length,
  inl, inr, Option-cases, arith,
}
use go_cdr_fraud_detector.Go.{Go}
use go_cdr_fraud_detector.Fraud.Cache.{Outcome-cases}
use go_cdr_fraud_detector.Fraud.Retry.{Message}
use go_cdr_fraud_detector.Generator.{World}
use go_cdr_fraud_detector.Generator.Runs.{IsRandom, Sends-preserve}
use go_cdr_fraud_detector.Loadgen.{Driver, Limiter, admit}
use go_cdr_fraud_detector.Loadgen.Workers.{random_cdr-IsSynthetic}
use go_cdr_fraud_detector.Loadgen.Turns.{
  Place, looking, waiting, drawing, writing, adding, returned, turn, Running, is_returned, Turn,
  takes, Turns, stays, goes_on, meanwhile,
}

-- A context that is done stays done.
pub record StaysDone {W E : Type 0} (world : World W E) (driver : Driver W E) : Type 0 where
  pub drew :
      (n : ℕ) (w : W) → driver.cancelled w ≡ true → driver.cancelled (world.int_n n w).0 ≡ true
  pub drew_uint64 : (w : W) → driver.cancelled w ≡ true → driver.cancelled (world.uint64 w).0 ≡ true
  pub waited : (w : W) → driver.cancelled w ≡ true → driver.cancelled (driver.wait w).0 ≡ true
  pub wrote :
      (m : Message) (w : W)
      → driver.cancelled w ≡ true
      → driver.cancelled (world.write m w).0 ≡ true

-- How many turns a worker has left at most, once the context is done.
abbrev turns_left : Place → ℕ
turns_left waiting = 5
turns_left drawing = 4
turns_left (writing m) = 3
turns_left adding = 2
turns_left looking = 1
turns_left returned = 0

abbrev pub all_left : List Place → ℕ
all_left [] = 0
all_left (p ∷ ps) = turns_left p + all_left ps

all_left-middle :
    (before after : List Place) (p : Place)
    → all_left (before ++ p ∷ after) ≡ all_left before + (turns_left p + all_left after)
all_left-middle [] after p = omega arith
all_left-middle (q ∷ before) after p = omega (arith, all_left-middle before after p)

turns_left-bound : (p : Place) → turns_left p ≤ 5
turns_left-bound p = ground arith

pub all_left-bound : (ps : List Place) → all_left ps ≤ 5 * length ps
all_left-bound [] = omega arith
all_left-bound (p ∷ ps) = omega (arith, turns_left-bound p, all_left-bound ps)

module _ {F W E : Type 0} (go : Go F) (world : World W E) (driver : Driver W E)
    (lim : Option Limiter) (random : IsRandom world) (done : StaysDone world driver) where
  -- A turn of a worker that has not returned brings it closer to its return.
  abbrev Closer : Place → W × ℕ × Place → Type 0
  Closer here r = (turns_left r.2 < turns_left here) × (driver.cancelled r.0 ≡ true)

  admit_done :
      (w : W) → driver.cancelled w ≡ true → driver.cancelled (admit go world driver lim w).0 ≡ true
  unfolding admit
  admit_done w gone = elim (Option-cases lim) [
    | inl none_set ↦ rw (none_set, admit) gone
    | inr (l, set) ↦ rw (set, admit) (done.waited w gone)
  ]

  turn-Closer :
      (here : Place) (w : W) (sent : ℕ) (r : W × ℕ × Place)
      → driver.cancelled w ≡ true
      → is_returned here ≡ false
      → turn go world driver lim here w sent ≡ some r
      → Closer here r
  unfolding turn
  turn-Closer looking w sent r gone busy h =
      subst (Closer looking) (some-injective _ _ h) (rw gone (omega arith), gone)
  turn-Closer waiting w sent r gone busy h =
      subst (Closer waiting) (some-injective _ _ h)
        (elim (Option-cases (admit go world driver lim w).1) [
          | inl free ↦ rw free (omega arith, admit_done w gone)
          | inr (e, refused) ↦ rw refused (omega arith, admit_done w gone)
        ])
  turn-Closer drawing w sent r gone busy h =
      let call = (random_cdr-IsSynthetic go world [] random).from w in
      let drawn =
        Sends-preserve world [] (λ u. driver.cancelled u ≡ true) done.drew done.drew_uint64
          call.sends refl gone in
      subst (Closer drawing) (some-injective _ _ (rw (call.ends, turn) at h))
        (elim (Outcome-cases (world.marshal_cdr call.result)) [
          | inl (val, good) ↦ rw good (omega arith, drawn)
          | inr (e, bad) ↦ rw bad (omega arith, drawn)
        ])
  turn-Closer (writing m) w sent r gone busy h =
      subst (Closer (writing m)) (some-injective _ _ h) (elim (Option-cases (world.write m w).1) [
        | inl fine ↦ rw fine (omega arith, done.wrote m w gone)
        | inr (e, failed) ↦ rw failed (omega arith, done.wrote m w gone)
      ])
  turn-Closer adding w sent r gone busy h =
      subst (Closer adding) (some-injective _ _ h) (omega arith, gone)
  turn-Closer returned w sent r gone busy h = absurd (ground (arith, busy))

  Turn-Closer :
      {s t : Running W}
      → Turn go world driver lim s t
      → driver.cancelled s.outside ≡ true
      → (all_left t.places < all_left s.places) × (driver.cancelled t.outside ≡ true)
  Turn-Closer {s} (takes before after here {there} {w} {sent} at busy turned) gone =
      let (closer, still) = turn-Closer here s.outside s.sent (w, sent, there) gone busy turned in
      (
        rw at (
            omega (
              arith,
              closer,
              all_left-middle before after here,
              all_left-middle before after there,
            )),
        still,
      )

  pub Turns-Closer :
      {Allowed : W → W → Type 0} {k : ℕ} {s t : Running W}
      → ((u u' : W) → Allowed u u' → driver.cancelled u' ≡ true)
      → Turns go world driver lim Allowed k s t
      → driver.cancelled s.outside ≡ true
      → (k + all_left t.places ≤ all_left s.places)
  Turns-Closer over stays gone = omega arith
  Turns-Closer over (goes_on first rest) gone =
      let (closer, still) = Turn-Closer first gone in
      omega (arith, closer, Turns-Closer over rest still)
  Turns-Closer over (meanwhile {s} w allowed rest) gone =
      Turns-Closer over rest (over s.outside w allowed)
