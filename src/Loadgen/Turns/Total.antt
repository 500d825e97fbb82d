-- ===== src/Loadgen/Turns/Total.antt =====
-- The counter that the workers share, however they are interleaved.
use go_cdr_fraud_detector.Base.{
  ℕ, zero, suc, ◌+◌, ◌≡◌, refl, subst, Option, some, List, [], ◌∷◌, ◌++◌, inl, inr, Bool-cases,
  Option-cases, arith,
}
use mathlib.Core.Option.{some-injective}
use go_cdr_fraud_detector.Go.{Go}
use go_cdr_fraud_detector.Fraud.Cache.{Outcome-cases}
use go_cdr_fraud_detector.Generator.{World}
use go_cdr_fraud_detector.Generator.Runs.{IsRandom}
use go_cdr_fraud_detector.Loadgen.{Driver, Limiter, admit}
use go_cdr_fraud_detector.Loadgen.Workers.{
  CountsMessages, random_cdr-IsSynthetic, drawn_keeps, admit_keeps,
}
use go_cdr_fraud_detector.Loadgen.Turns.{
  Place, looking, waiting, drawing, writing, adding, returned, turn, Running, launch, launched,
  Turn, takes, Turns, stays, goes_on, meanwhile,
}

-- A worker whose message is accepted and not counted yet.
abbrev pub owed : Place → ℕ
owed adding = 1
owed _ = 0

abbrev pub all_owed : List Place → ℕ
all_owed [] = 0
all_owed (p ∷ ps) = owed p + all_owed ps

all_owed-middle :
    (before after : List Place) (p : Place)
    → all_owed (before ++ p ∷ after) ≡ all_owed before + (owed p + all_owed after)
all_owed-middle [] after p = omega arith
all_owed-middle (q ∷ before) after p = omega (arith, all_owed-middle before after p)

pub launch-owes : (n : ℕ) → all_owed (launch n) ≡ 0
unfolding launch
launch-owes zero = refl
launch-owes (suc n) = omega (arith, launch-owes n)

module _ {F W E : Type 0} (go : Go F) (world : World W E) (driver : Driver W E)
    (lim : Option Limiter) (random : IsRandom world) (laws : CountsMessages world driver) where
  -- A turn makes up for what it owes.
  abbrev Balanced : Place → W → ℕ → W × ℕ × Place → Type 0
  Balanced here w sent r = laws.accepted r.0 + sent + owed here ≡ laws.accepted w + r.1 + owed r.2

  same_result : {a b : W × ℕ × Place} → some a ≡ some b → a ≡ b
  same_result {a} {b} h = some-injective a b h

  turn-Balanced :
      (here : Place) (w : W) (sent : ℕ) (r : W × ℕ × Place)
      → turn go world driver lim here w sent ≡ some r
      → Balanced here w sent r
  unfolding turn
  turn-Balanced looking w sent r h =
      subst (Balanced looking w sent) (same_result h) (elim (Bool-cases (driver.cancelled w)) [
        | inl gone ↦ rw gone refl
        | inr live ↦ rw live refl
      ])
  turn-Balanced waiting w sent r h =
      subst (Balanced waiting w sent) (same_result h)
        (elim (Option-cases (admit go world driver lim w).1) [
          | inl free ↦ rw free (ground (arith, admit_keeps go world driver lim random laws w))
          | inr (e, refused) ↦
              rw refused (ground (arith, admit_keeps go world driver lim random laws w))
        ])
  turn-Balanced drawing w sent r h =
      let call = (random_cdr-IsSynthetic go world [] random).from w in
      let drawn = drawn_keeps go world driver lim random laws w call.sends in
      subst (Balanced drawing w sent) (same_result (rw (call.ends, turn) at h))
        (elim (Outcome-cases (world.marshal_cdr call.result)) [
          | inl (val, good) ↦ rw good (ground (arith, drawn))
          | inr (e, bad) ↦ rw bad (ground (arith, drawn))
        ])
  turn-Balanced (writing m) w sent r h =
      subst (Balanced (writing m) w sent) (same_result h) (elim (Option-cases (world.write m w).1) [
        | inl fine ↦ rw fine (ground (arith, laws.wrote_ok m w fine))
        | inr (e, failed) ↦ rw failed (ground (arith, laws.wrote_err m w e failed))
      ])
  turn-Balanced adding w sent r h = subst (Balanced adding w sent) (same_result h) (omega arith)
  turn-Balanced returned w sent r h = subst (Balanced returned w sent) (same_result h) refl

  Turn-accepted :
      {s t : Running W}
      → Turn go world driver lim s t
      → laws.accepted t.outside + s.sent + all_owed s.places
        ≡ laws.accepted s.outside + t.sent + all_owed t.places
  Turn-accepted {s} (takes before after here {there} {w} {sent} at busy turned) = rw at (
      omega (
        arith,
        turn-Balanced here s.outside s.sent (w, sent, there) turned,
        all_owed-middle before after here,
        all_owed-middle before after there,
      ))

  pub Turns-accepted :
      {Allowed : W → W → Type 0} {k : ℕ} {s t : Running W}
      → ((w w' : W) → Allowed w w' → laws.accepted w' ≡ laws.accepted w)
      → Turns go world driver lim Allowed k s t
      → laws.accepted t.outside + s.sent + all_owed s.places
        ≡ laws.accepted s.outside + t.sent + all_owed t.places
  Turns-accepted quiet stays = omega arith
  Turns-accepted quiet (goes_on first rest) =
      omega (arith, Turn-accepted first, Turns-accepted quiet rest)
  Turns-accepted quiet (meanwhile {s} w allowed rest) =
      omega (arith, quiet s.outside w allowed, Turns-accepted quiet rest)

  -- However the workers are interleaved, and whatever else happens in between that sends nothing, at
  -- every moment the messages that WriteMessages accepted since the start are the ones that are
  -- counted in `sent`, and one more for each worker that stands before its sent.Add.
  pub launched-accepted :
      {Allowed : W → W → Type 0} (workers : ℕ) (w : W) {k : ℕ} {t : Running W}
      → ((u u' : W) → Allowed u u' → laws.accepted u' ≡ laws.accepted u)
      → Turns go world driver lim Allowed k (launched workers w) t
      → laws.accepted t.outside ≡ laws.accepted w + t.sent + all_owed t.places
  launched-accepted workers w quiet turns =
      omega (arith, launch-owes workers, Turns-accepted quiet turns)
