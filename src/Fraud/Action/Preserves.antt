-- ===== src/Fraud/Action/Preserves.antt =====
-- Actions that preserve a predicate on the state, also where they end in an error.
use go_cdr_fraud_detector.Base.{◌≡◌, refl, ap, ◌∙◌, Bool, true, false, inl, inr, if◌then◌else◌}
use go_cdr_fraud_detector.Fraud.Cache.{Outcome, ok, err, Outcome-cases}
use go_cdr_fraud_detector.Fraud.Action.{Action, pure, attempt, or_skip, ◌>>=◌}

module _ {T E : Type 0} (P : T → Type 0) where
  pub record Preserves {A : Type 0} (m : Action T E A) : Type 0 where
    pub runs : (t : T) → P t → P (m t).0

  pub Preserves-bind :
      {A B : Type 0} {m : Action T E A} {f : A → Action T E B}
      → Preserves m
      → ((a : A) → Preserves (f a))
      → Preserves (m >>= f)
  unfolding ◌>>=◌
  Preserves-bind {m} p q = record {
    runs = λ t h. elim (Outcome-cases (m t).1) [
      | inl (a, good) ↦ rw (good, ◌>>=◌) ((q a).runs (m t).0 (p.runs t h))
      | inr (e, bad) ↦ rw (bad, ◌>>=◌) (p.runs t h)
    ];
  }

  pub Preserves-pure : {A : Type 0} (a : A) → Preserves (pure a)
  Preserves-pure a = record { runs = λ t h. h }

  pub Preserves-if :
      {A : Type 0} (b : Bool) {m n : Action T E A}
      → Preserves m
      → Preserves n
      → Preserves (if b then m else n)
  Preserves-if true p q = p
  Preserves-if false p q = q

  pub Preserves-attempt : {A : Type 0} {m : Action T E A} → Preserves m → Preserves (attempt m)
  Preserves-attempt p = record { runs = p.runs }

  pub Preserves-or_skip :
      {A : Type 0} (found : Outcome E A) {f : A → Action T E (Unit {0})}
      → ((a : A) → Preserves (f a))
      → Preserves (or_skip found f)
  unfolding or_skip
  Preserves-or_skip (ok a) p = p a
  Preserves-or_skip (err e) p = Preserves-pure tt

  -- Two sequences with the same first action agree where the predicate holds, if they do from then on.
  bind_later :
      {A B : Type 0} {m : Action T E A} (f f' : A → Action T E B) (t : T)
      → Preserves m
      → P t
      → ((a : A) (u : T) → P u → f a u ≡ f' a u)
      → (m >>= f) t ≡ (m >>= f') t
  unfolding ◌>>=◌
  bind_later {m} f f' t p h later = elim (Outcome-cases (m t).1) [
    | inl (a, good) ↦ rw (good, ◌>>=◌) (later a (m t).0 (p.runs t h))
    | inr (e, bad) ↦ rw (bad, ◌>>=◌) refl
  ]

  bind_first :
      {A B : Type 0} (m m' : Action T E A) (f : A → Action T E B) (t : T)
      → m t ≡ m' t
      → (m >>= f) t ≡ (m' >>= f) t
  unfolding ◌>>=◌
  bind_first {A} {B} m m' f t same =
      let next = λ (x : T × Outcome E A).
        let r : T × Outcome E B = elim x.1 [ ok a ↦ f a x.0 | err e ↦ (x.0, err e) ] in r in
      ap next same

  -- So do sequences whose first actions do the same on the state.
  pub bind_agree :
      {A B : Type 0} (m m' : Action T E A) (f f' : A → Action T E B) (t : T)
      → Preserves m
      → P t
      → m t ≡ m' t
      → ((a : A) (u : T) → P u → f a u ≡ f' a u)
      → (m >>= f) t ≡ (m' >>= f') t
  bind_agree m m' f f' t p h same later = bind_later f f' t p h later ∙ bind_first m m' f' t same
