-- ===== src/Rules/Verdicts.antt =====
-- What the verdicts of the three rules promise, as the comments of internal/rules state it.
use go_cdr_fraud_detector.Base.{◌^◌, ◌≡◌, ◌≢◌, ◌⊎◌, true, false, [], ◌∷◌, ◌++◌, List, arith}
use go_cdr_fraud_detector.Base.Int.{ℤ, pos, negsuc, ◌≤ℤ◌, ◌<ℤ◌}
use go_cdr_fraud_detector.Clock.{Duration}
use go_cdr_fraud_detector.Go.{Go, zero_f, one_f}
use go_cdr_fraud_detector.Go.Laws.{IsOrdered}
use go_cdr_fraud_detector.Rules.Verdict.{Verdict, quiet}
use go_cdr_fraud_detector.Rules.Velocity
use go_cdr_fraud_detector.Rules.Velocity.{Velocity, velocity_evidence}
use go_cdr_fraud_detector.Rules.ImpossibleTravel
use go_cdr_fraud_detector.Rules.ImpossibleTravel.{ImpossibleTravel, floor_second, travel_evidence}
use go_cdr_fraud_detector.Rules.Irsf
use go_cdr_fraud_detector.Rules.Irsf.{Irsf, irsf_evidence}

append-ne-nil : {A : Type 0} (xs : List A) (y : A) (ys : List A) → xs ++ y ∷ ys ≢ []
append-ne-nil [] y ys e = cc
append-ne-nil (x ∷ xs) y ys e = cc

-- A triggered verdict has a score of at least 1 and some evidence; any other is `false, 0, ""`.
abbrev pub Reports : {F : Type 0} ⦃go : Go F⦄ → Verdict F → Type 0
Reports ⦃go⦄ v =
    ((v.triggered ≡ true) × (go.le one_f v.score ≡ true) × (v.evidence ≢ [])) ⊎ (v ≡ quiet)

floor_second_mono : (a b : Duration) → a ≤ℤ b → floor_second a ≤ℤ floor_second b
floor_second_mono a b h = ground arith

velocity_evidence-ne-nil :
    {F : Type 0} (go : Go F) (v : Velocity) (count : ℤ) → velocity_evidence go v count ≢ []
unfolding velocity_evidence
velocity_evidence-ne-nil go v count = append-ne-nil (go.show_int count) _ _

module _ {F : Type 0} ⦃go : Go F⦄ where
  irsf_evidence-ne-nil : (r : Irsf F) (spend : F) → irsf_evidence r spend ≢ []
  unfolding irsf_evidence
  irsf_evidence-ne-nil r spend e = cc

  travel_evidence-ne-nil :
      (r : ImpossibleTravel F) (d : F) (dt : Duration) (speed : F)
      → travel_evidence r d dt speed ≢ []
  unfolding travel_evidence
  travel_evidence-ne-nil r d dt speed = append-ne-nil (go.fixed 0 d) _ _

  module _ (laws : IsOrdered go) where
    over_counts :
        (m n : ℤ) → pos 0 <ℤ n → n ≤ℤ m → go.le one_f (go.over (go.of_int m) (go.of_int n)) ≡ true
    over_counts m (pos k) h p =
        laws.over_ge_one (go.of_int m) (go.of_int (pos k)) (laws.of_int-IsFinite (pos k))
          (laws.of_int_pos k (omega arith)) (laws.of_int_mono (pos k) m p)
    over_counts m (negsuc k) h p = absurd (omega arith)

    -- A quotient by a limit that is neither below 0 nor above the dividend.
    over_limit :
        (x y : F)
        → laws.IsNumber x
        → laws.IsFinite y
        → go.le y zero_f ≡ false
        → go.le y x ≡ true
        → go.le one_f (go.over x y) ≡ true
    over_limit x y n f p h =
        laws.over_ge_one x y f
          (laws.lt_of_not-le y zero_f (laws.IsNumber_of_IsFinite y f)
            (laws.IsNumber_of_IsFinite zero_f (laws.of_int-IsFinite (pos 0))) p)
          h

    -- A velocity verdict either is triggered, with a score of at least 1 and evidence that is not
    -- empty, or is `false, 0, ""`.
    pub velocity-Reports : (v : Velocity) (count : ℤ) → Reports {F = F} (Velocity.evaluate v count)
    unfolding Velocity.evaluate
    velocity-Reports v count =
        ground (arith, over_counts count v.threshold, velocity_evidence-ne-nil go v count)

    -- For a finite threshold and a spend that is no NaN, an IRSF verdict either is triggered, with a
    -- score of at least 1 and evidence that is not empty, or is `false, 0, ""`.
    pub irsf-Reports :
        (r : Irsf F) (spend : F)
        → laws.IsFinite r.spend_threshold
        → laws.IsNumber spend
        → Reports {F = F} (Irsf.evaluate r spend)
    unfolding Irsf.evaluate
    irsf-Reports r spend f n = ground (
      arith,
      over_limit spend r.spend_threshold n f,
      laws.le_of_not-lt spend r.spend_threshold n (laws.IsNumber_of_IsFinite _ f),
      irsf_evidence-ne-nil r spend,
    )

    zero_number : laws.IsNumber zero_f
    zero_number = laws.IsNumber_of_IsFinite zero_f (laws.of_int-IsFinite (pos 0))

    floored_pos : (dt : Duration) → go.lt zero_f (go.hours (floor_second dt)) ≡ true
    floored_pos (pos n) = ground (arith, laws.hours_pos n, laws.hours_pos (10 ^ 9))
    floored_pos (negsuc n) = ground (arith, laws.hours_pos (10 ^ 9))

    speed_number :
        (d : F) (dt : Duration)
        → laws.IsNumber d
        → laws.IsNumber (go.over d (go.hours (floor_second dt)))
    speed_number d dt n =
        laws.over-IsNumber d (go.hours (floor_second dt)) n (laws.hours-IsFinite (floor_second dt))
          (floored_pos dt)

    -- For a finite speed limit and a distance that is no NaN, an impossible-travel verdict either is
    -- triggered, with a score of at least 1 and evidence that is not empty, or is `false, 0, ""`.
    pub travel-Reports :
        (r : ImpossibleTravel F) (d : F) (dt : Duration)
        → laws.IsFinite r.max_speed_kmh
        → laws.IsNumber d
        → Reports {F = F} (ImpossibleTravel.evaluate r d dt)
    unfolding ImpossibleTravel.evaluate
    travel-Reports r d dt f n =
        let speed = go.over d (go.hours (floor_second dt)) in
        let measured = speed_number d dt n in
        ground (
          arith,
          over_limit speed r.max_speed_kmh measured f,
          laws.le_of_lt r.max_speed_kmh speed,
          laws.lt_of_not-le speed r.max_speed_kmh measured (laws.IsNumber_of_IsFinite _ f),
          travel_evidence-ne-nil r d (floor_second dt) speed,
        )

    -- A journey at least as far in at most the time.
    speed_mono :
        (d d' : F) (dt dt' : Duration)
        → go.lt zero_f d ≡ true
        → go.le d d' ≡ true
        → dt' ≤ℤ dt
        → go.le (go.over d (go.hours (floor_second dt))) (go.over d' (go.hours (floor_second dt')))
          ≡ true
    speed_mono d d' dt dt' p h k =
        laws.over_mono d d' (go.hours (floor_second dt)) (go.hours (floor_second dt'))
          (laws.hours-IsFinite _) (laws.hours-IsFinite _) p h (floored_pos dt')
          (laws.hours_mono _ _ (floor_second_mono dt' dt k))

    -- If impossible-travel fires for a distance that is no NaN, it fires for any distance at least as
    -- great in any time at most as long.
    pub travel_mono :
        (r : ImpossibleTravel F) (d d' : F) (dt dt' : Duration)
        → laws.IsNumber d
        → go.le d d' ≡ true
        → dt' ≤ℤ dt
        → (ImpossibleTravel.evaluate r d dt).triggered ≡ true
        → (ImpossibleTravel.evaluate r d' dt').triggered ≡ true
    unfolding ImpossibleTravel.evaluate
    travel_mono r d d' dt dt' n h k fired =
        let speed = go.over d (go.hours (floor_second dt)) in
        let speed' = go.over d' (go.hours (floor_second dt')) in
        ground (
          arith,
          laws.le_trans d d' zero_f,
          laws.lt_of_not-le d zero_f n zero_number,
          speed_mono d d' dt dt',
          laws.le_trans speed speed' r.max_speed_kmh,
        )

    -- If IRSF fires for a spend, it fires for any greater spend, where the spends and the threshold
    -- are no NaN.
    pub irsf_mono :
        (r : Irsf F) (spend spend' : F)
        → laws.IsNumber spend
        → laws.IsNumber r.spend_threshold
        → laws.IsNumber spend'
        → go.le spend spend' ≡ true
        → (Irsf.evaluate r spend).triggered ≡ true
        → (Irsf.evaluate r spend').triggered ≡ true
    unfolding Irsf.evaluate
    irsf_mono r spend spend' n t n' h fired = ground (
      arith,
      laws.le_of_not-lt spend r.spend_threshold n t,
      laws.le_trans r.spend_threshold spend spend',
      laws.not-le_of_lt spend' r.spend_threshold,
    )
