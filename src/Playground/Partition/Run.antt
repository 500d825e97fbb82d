-- ===== src/Playground/Partition/Run.antt =====
-- Partitioning the records by subscriber changes no alert, for what each record comes with.
use go_cdr_fraud_detector.Base.{
  ◌≡◌, refl, ◌∙◌, sym, Bool, true, false, List, [], ◌∷◌, ◌++◌, All, All-map, keep, keep-append,
  keep-All, arith, Bool-cases, inl, inr, ◌⊎◌, subst,
}
use mathlib.Core.Path.{ap₂}
use go_cdr_fraud_detector.Base.Text.{Str, str_eq, str_eq_iff}
use go_cdr_fraud_detector.Cdr.{Cdr, FraudAlert, Rule}
use go_cdr_fraud_detector.Go.{Go}
use go_cdr_fraud_detector.Playground.{Engine}
use go_cdr_fraud_detector.Playground.Score.{Moment, score}
use go_cdr_fraud_detector.Playground.Partition.Same.{
  SameFor, SameFor-refl, SameFor-trans, SameFor-symm,
}
use go_cdr_fraud_detector.Playground.Partition.Steps.{score-Owned}

-- A record, and what the run settles for its rules.
abbrev pub Input : Type 0
Input = Cdr × (Rule → Moment)

-- The alerts of a run of `score`, in order.
unfoldable pub alerts : {F : Type 0} → Go F → Engine F → List Input → List (FraudAlert F)
alerts go e [] = []
alerts go e (i ∷ is) = let (e', as') = score ⦃go = go⦄ e i.0 i.1 in as' ++ alerts go e' is

abbrev pub calls_from : Str → List Input → List Input
calls_from c = keep λ i. str_eq i.0.caller_msisdn c

abbrev pub alerts_on : {F : Type 0} → Str → List (FraudAlert F) → List (FraudAlert F)
alerts_on c = keep λ a. str_eq a.caller_msisdn c

keep_none : {A : Type 0} (p : A → Bool) (xs : List A) → All (λ x. p x ≡ false) xs → keep p xs ≡ []
keep_none p [] h = refl
keep_none p (x ∷ xs) h = ground (arith, keep_none p xs h.1, h.0)

module _ {F : Type 0} (go : Go F) (c : Str) where
  -- What one record adds to the alerts on `c`, and that agreement on `c` is kept.
  one_record :
      (e e' : Engine F) (i : Input)
      → SameFor c e e'
      → let out = score ⦃go = go⦄ e i.0 i.1 in
        let out' = score ⦃go = go⦄ e' i.0 i.1 in
        ((str_eq i.0.caller_msisdn c ≡ true)
          × (alerts_on c out.1 ≡ out'.1)
          × SameFor c out.0 out'.0)
        ⊎ ((str_eq i.0.caller_msisdn c ≡ false) × (alerts_on c out.1 ≡ []) × SameFor c out.0 e')
  one_record e e' i s =
      let owned = score-Owned go i.0 i.1 in
      let k = i.0.caller_msisdn in
      elim (Bool-cases (str_eq k c)) [
        | inl mine ↦
            let same : k ≡ c = (str_eq_iff k c).0 mine in
            let (equal, s') = owned.own e e' (subst (λ j. SameFor j e e') (sym same) s) in
            inl (
              mine,
              keep-All (λ a. str_eq a.caller_msisdn c) (score ⦃go = go⦄ e i.0 i.1).1
                    (All-map {P = λ a. a.caller_msisdn ≡ k} (λ a h. rw h mine)
                      (score ⦃go = go⦄ e i.0 i.1).1 (owned.callers e))
                  ∙ equal,
              subst (λ j. SameFor j (score ⦃go = go⦄ e i.0 i.1).0 (score ⦃go = go⦄ e' i.0 i.1).0)
                  same s',
            )
        | inr other ↦ inr (
          other,
          keep_none (λ a. str_eq a.caller_msisdn c) (score ⦃go = go⦄ e i.0 i.1).1
              (All-map {P = λ a. a.caller_msisdn ≡ k} (λ a h. rw h other)
                (score ⦃go = go⦄ e i.0 i.1).1 (owned.callers e)),
          SameFor-trans c (score ⦃go = go⦄ e i.0 i.1).0 e e'
              (SameFor-symm c e (score ⦃go = go⦄ e i.0 i.1).0 (owned.others c e other)) s,
        )
      ]

  alerts-split :
      (e e' : Engine F) (is : List Input)
      → SameFor c e e'
      → alerts_on c (alerts go e is) ≡ alerts go e' (calls_from c is)
  unfolding alerts
  alerts-split e e' [] s = refl
  alerts-split e e' (i ∷ is) s =
      let later = (score ⦃go = go⦄ e i.0 i.1).0 in
      keep-append (λ a. str_eq a.caller_msisdn c) (score ⦃go = go⦄ e i.0 i.1).1 (alerts go later is)
      ∙ elim (one_record e e' i s) [
        | inl (mine, equal, s') ↦
            rw mine (ap₂ ◌++◌ equal (alerts-split later (score ⦃go = go⦄ e' i.0 i.1).0 is s'))
        | inr (other, nothing, s') ↦ rw other (ap₂ ◌++◌ nothing (alerts-split later e' is s'))
      ]

  -- From any engine, the alerts that any sequence of inputs raises on a subscriber are exactly those
  -- that this subscriber's inputs raise alone.
  pub alerts-calls_from :
      (e : Engine F) (is : List Input)
      → alerts_on c (alerts go e is) ≡ alerts go e (calls_from c is)
  alerts-calls_from e is = alerts-split e e is (SameFor-refl c e)
