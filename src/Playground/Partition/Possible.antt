-- ===== src/Playground/Partition/Possible.antt =====
-- The alerts that records may raise, over everything that Go leaves open: when an alert is built, and in
-- which order each execution of a loop visits its map.
use go_cdr_fraud_detector.Base.{
  ◌≡◌, ◌↔◌, refl, sym, subst, ap, ◌∙◌, List, [], ◌∷◌, map, All, keep, Bool-cases, inl, inr, arith,
}
use mathlib.Core.Path.{ap₂}
use go_cdr_fraud_detector.Base.Int.{pos}
use go_cdr_fraud_detector.Base.Text.{Str, str_eq}
use go_cdr_fraud_detector.Cdr.{Cdr, FraudAlert, Rule}
use go_cdr_fraud_detector.Go.{Go}
use go_cdr_fraud_detector.Go.Laws.{VisitsAll}
use go_cdr_fraud_detector.Go.Sample.{in_order, in_order-VisitsAll}
use go_cdr_fraud_detector.Playground.{Engine}
use go_cdr_fraud_detector.Playground.Partition.Run.{
  Input, alerts, calls_from, alerts_on, alerts-calls_from,
}

-- Each loop visits every key once, in some order.
abbrev pub IsPossible : Input → Type 0
IsPossible i = (r : Rule) → VisitsAll (i.1 r).order

abbrev records_of : List Input → List Cdr
records_of = map λ i. i.0

-- The records of one subscriber.
abbrev pub records_from : Str → List Cdr → List Cdr
records_from c = keep λ rec. str_eq rec.caller_msisdn c

-- A run of `score` over these records, from this engine, can have these alerts.
abbrev pub MayRaise : {F : Type 0} → Go F → Engine F → List Cdr → List (FraudAlert F) → Type 0
MayRaise go e recs out =
    (is : List Input) × (records_of is ≡ recs) × All IsPossible is × (alerts go e is ≡ out)

module _ (c : Str) where
  records_of-calls_from :
      (is : List Input) → records_of (calls_from c is) ≡ records_from c (records_of is)
  records_of-calls_from [] = refl
  records_of-calls_from (i ∷ is) = ground (arith, records_of-calls_from is)

  calls_from-IsPossible : (is : List Input) → All IsPossible is → All IsPossible (calls_from c is)
  calls_from-IsPossible [] h = tt
  calls_from-IsPossible (i ∷ is) h = elim (Bool-cases (str_eq i.0.caller_msisdn c)) [
    | inl mine ↦ rw mine (h.0, calls_from-IsPossible is h.1)
    | inr other ↦ rw other (calls_from-IsPossible is h.1)
  ]

  -- Inputs for some of the records, completed to inputs for all.
  Completes : List Cdr → List Input → Type 0
  Completes recs own =
      (is : List Input) × (records_of is ≡ recs) × All IsPossible is × (calls_from c is ≡ own)

  abbrev anyhow : Cdr → Input
  anyhow rec = (rec, λ r. record { now = pos 0; order = in_order })

  anyhow-IsPossible : (rec : Cdr) → IsPossible (anyhow rec)
  anyhow-IsPossible rec r = in_order-VisitsAll

  own_cons :
      (rec : Cdr) (rest : List Cdr) (own : List Input)
      → records_of own ≡ rec ∷ rest
      → (i : Input) × (others : List Input) × (own ≡ i ∷ others)
        × (i.0 ≡ rec)
        × (records_of others ≡ rest)
  own_cons rec rest [] h = absurd (ground (arith, h))
  own_cons rec rest (i ∷ own) h = (i, own, refl, ground (arith, h), ground (arith, h))

  complete :
      (recs : List Cdr) (own : List Input)
      → records_of own ≡ records_from c recs
      → All IsPossible own
      → Completes recs own
  unfolding Completes
  complete [] [] same h = ([], refl, tt, refl)
  complete [] (i ∷ own) same h = absurd (ground (arith, same))
  complete (rec ∷ recs) own same h = elim (Bool-cases (str_eq rec.caller_msisdn c)) [
    | inr other ↦
        let (is, all, possible, mine) = complete recs own (same ∙ rw other refl) h in
        (anyhow rec ∷ is, ap (λ rs. rec ∷ rs) all, (anyhow-IsPossible rec, possible), rw other mine)
    | inl mine ↦
        let (i, others, split, first, later) =
          own_cons rec (records_from c recs) own (same ∙ rw mine refl) in
        let possible_own = subst (All IsPossible) split h in
        let (is, all, possible, rest) = complete recs others later possible_own.1 in
        (
          i ∷ is,
          ap₂ ◌∷◌ first all,
          (possible_own.0, possible),
          rw (first, mine) (ap (λ js. i ∷ js) rest ∙ sym split),
        )
  ]

  -- The alerts on a subscriber that a run over any records can have, from any engine, are exactly those
  -- that a run over this subscriber's records alone can have, whatever the instants at which the alerts
  -- are built and whichever order each execution of a loop takes.
  pub MayRaise-records_from :
      {F : Type 0} (go : Go F) (e : Engine F) (recs : List Cdr) (out : List (FraudAlert F))
      → ((all : List (FraudAlert F)) × MayRaise go e recs all × (alerts_on c all ≡ out))
        ↔ MayRaise go e (records_from c recs) out
  unfolding Completes
  MayRaise-records_from go e recs out = (
    λ (all, (is, given, possible, run), on). (
      calls_from c is,
      records_of-calls_from is ∙ ap (records_from c) given,
      calls_from-IsPossible is possible,
      sym (alerts-calls_from go c e is) ∙ ap (alerts_on c) run ∙ on,
    ),
    λ (own, given, possible, run).
        let (is, all, possible', mine) = complete recs own given possible in
        (
          alerts go e is,
          (is, all, possible', refl),
          alerts-calls_from go c e is ∙ ap (alerts go e) mine ∙ run,
        ),
  )
