-- ===== src/Rules/Velocity.antt =====
-- internal/rules/velocity.go.
use go_cdr_fraud_detector.Base.{true, ◌||◌, ◌++◌, if◌then◌else◌}
use go_cdr_fraud_detector.Base.Int.{ℤ, pos, leb_ℤ, ltb_ℤ}
use go_cdr_fraud_detector.Base.Text.{Str, codes}
use go_cdr_fraud_detector.Go.{Go}
use go_cdr_fraud_detector.Rules.Verdict.{Verdict, quiet}

pub record Velocity : Type 0 where
  pub window_seconds : ℤ
  pub threshold : ℤ

unfoldable pub velocity_evidence : {F : Type 0} → Go F → Velocity → ℤ → Str
velocity_evidence go v count =
    go.show_int count
    ++ (codes " calls within "
        ++ (go.show_int v.window_seconds
            ++ (codes "s (threshold " ++ (go.show_int v.threshold ++ codes ")"))))

module _ {F : Type 0} ⦃go : Go F⦄ where
  unfoldable pub evaluate : Velocity → ℤ → Verdict F
  evaluate v count =
      if leb_ℤ v.threshold (pos 0) || ltb_ℤ count v.threshold then quiet else (record {
        triggered = true;
        score = go.over (go.of_int count) (go.of_int v.threshold);
        evidence = velocity_evidence go v count;
      })
