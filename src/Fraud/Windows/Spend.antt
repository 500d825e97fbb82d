-- ===== src/Fraud/Windows/Spend.antt =====
-- services/fraud/spend.go: the members of the spend window, and the costs that are read from them.
pub mod History
pub mod Total
use mathlib.Core.Path.{ap₂}
use mathlib.Core.List.Permᴰ
use mathlib.Core.List.{foldl, Perm, Permᴰ}
use mathlib.Core.List.Permᴰ.{nil, cons, swap, trans}
use go_cdr_fraud_detector.Base.{
  ◌≡◌, refl, sym, subst, ◌∙◌, not, Option, none, some, List, [], ◌∷◌, ◌++◌, map, All, keep, inl,
  inr, Option-cases, ◌==◌, if◌then◌else◌, arith,
}
use go_cdr_fraud_detector.Base.Int.{ℤ}
use go_cdr_fraud_detector.Base.Split.{Without}
use go_cdr_fraud_detector.Base.Text.{Str, codes, str_eq}
use go_cdr_fraud_detector.Go.{Go, zero_f}
use go_cdr_fraud_detector.Fraud.Services.{Services}
use go_cdr_fraud_detector.Fraud.Windows.{after_last, sum_costs}

-- A call that is added to the window.
pub record Premium (F : Type 0) : Type 0 where
  pub record_id : Str
  pub ms : ℤ
  pub cost : F

-- FormatFloat(x, 'f', 4, 64) writes no "|", and ParseFloat reads its text: as `x`, rounded.
pub record PrintsCosts {F : Type 0} (go : Go F) : Type 0 where
  pub rounded : F → F
  pub fixed-Without : (x : F) → Without b'|' (go.fixed 4 x)
  pub parse-fixed : (x : F) → go.parse_float (go.fixed 4 x) ≡ some (rounded x)

after_last-absent : (c : _) (s : Str) → Without c s → after_last c s ≡ none
unfolding after_last
after_last-absent c [] h = refl
after_last-absent c (x ∷ s) h = ground (arith, after_last-absent c s h.1, h.0)

after_last-append : (c : _) (s t : Str) → Without c t → after_last c (s ++ (c ∷ t)) ≡ some t
unfolding after_last
after_last-append c [] t h = ground (arith, after_last-absent c t h)
after_last-append c (x ∷ s) t h = ground (arith, after_last-append c s t h)

-- What holds of all elements holds of all in another order.
All-Permᴰ : {A : Type 0} (P : A → Type 0) {xs ys : List A} → Permᴰ xs ys → All P ys → All P xs
All-Permᴰ P nil p = tt
All-Permᴰ P (cons e d) p = (subst P (sym e) p.0, All-Permᴰ P d p.1)
All-Permᴰ P (swap e f) p = (subst P (sym e) p.1.0, (subst P (sym f) p.0, p.1.1))
All-Permᴰ P (trans d d') p = All-Permᴰ P d (All-Permᴰ P d' p)

module _ {F : Type 0} (go : Go F) where
  abbrev pub member : Premium F → Str
  member e = e.record_id ++ (codes "|" ++ go.fixed 4 e.cost)

  -- The cost in a member.
  abbrev cost_in : Str → Option F
  cost_in m = elim (after_last b'|' m) [ none ↦ none | some text ↦ go.parse_float text ]

  abbrev value_in : Str → F
  value_in m = elim (cost_in m) [ none ↦ zero_f ⦃go = go⦄ | some c ↦ c ]

  abbrev HasCost : Str → Type 0
  HasCost m = (c : F) × (cost_in m ≡ some c)

  value_in-some : (m : Str) (c : F) → cost_in m ≡ some c → value_in m ≡ c
  value_in-some m c h = ground (arith, h)

  sum_costs-foldl :
      {S E : Type 0} (services : Services F S E) (ms : List Str) (sum : F)
      → All HasCost ms
      → sum_costs ⦃go = go⦄ services ms sum ≡ foldl go.plus sum (map value_in ms)
  unfolding sum_costs
  sum_costs-foldl services [] sum h = refl
  sum_costs-foldl services (m ∷ ms) sum ((c, costs), h) =
      let rest = sum_costs-foldl services ms (go.plus sum c) h in
      rw (value_in-some m c costs) (elim (Option-cases (after_last b'|' m)) [
        | inl absent ↦ absurd (ground (arith, rw (absent, cost_in) at costs))
        | inr (text, present) ↦ rw (present, rw (present, cost_in) at costs, sum_costs) rest
      ])

  module _ (laws : PrintsCosts go) where
    cost_in-member : (e : Premium F) → cost_in (member e) ≡ some (laws.rounded e.cost)
    cost_in-member e =
        rw
          (
            after_last-append b'|' e.record_id (go.fixed 4 e.cost) (laws.fixed-Without e.cost),
            cost_in,
          )
          (laws.parse-fixed e.cost)

    members-HasCost : (es : List (Premium F)) → All HasCost (map member es)
    members-HasCost [] = tt
    members-HasCost (e ∷ es) = ((laws.rounded e.cost, cost_in-member e), members-HasCost es)

    members-values :
        (es : List (Premium F))
        → map value_in (map member es) ≡ map (λ (e : Premium F). laws.rounded e.cost) es
    members-values [] = refl
    members-values (e ∷ es) =
        ap₂ ◌∷◌ (value_in-some (member e) (laws.rounded e.cost) (cost_in-member e))
          (members-values es)

    -- A sum of the rounded costs of these calls, in some order.
    abbrev pub IsSpend : F → List (Premium F) → Type 0
    IsSpend sum es =
        (costs : List F) × Perm costs (map (λ (e : Premium F). laws.rounded e.cost) es)
        × (sum ≡ foldl go.plus (zero_f ⦃go = go⦄) costs)

    -- The loop over the members, in whichever order it gets them.
    pub sum_costs-IsSpend :
        {S E : Type 0} (services : Services F S E) (ms : List Str) (es : List (Premium F))
        → Permᴰ ms (map member es)
        → IsSpend (sum_costs ⦃go = go⦄ services ms (zero_f ⦃go = go⦄)) es
    sum_costs-IsSpend services ms es order = (
      map value_in ms,
      ∣ subst (Permᴰ (map value_in ms)) (members-values es) (Permᴰ.map value_in order) ∣₁,
      sum_costs-foldl services ms _ (All-Permᴰ HasCost order (members-HasCost es)),
    )
