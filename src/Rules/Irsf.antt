-- ===== src/Rules/Irsf.antt =====
-- internal/rules/irsf.go.
use go_cdr_fraud_detector.Base.{true, ◌||◌, ◌++◌, if◌then◌else◌}
use go_cdr_fraud_detector.Base.Int.{ℤ}
use go_cdr_fraud_detector.Base.Text.{Str, codes}
use go_cdr_fraud_detector.Go.{Go, zero_f}
use go_cdr_fraud_detector.Rules.Verdict.{Verdict, quiet}

pub record Irsf (F : Type 0) : Type 0 where
  pub window_seconds : ℤ
  pub spend_threshold : F

module _ {F : Type 0} ⦃go : Go F⦄ where
  unfoldable pub irsf_evidence : Irsf F → F → Str
  irsf_evidence r spend =
      codes "premium spend "
      ++ (go.fixed 2 spend
          ++ (codes " within "
              ++ (go.show_int r.window_seconds
                  ++ (codes "s (threshold " ++ (go.fixed 2 r.spend_threshold ++ codes ")")))))

  unfoldable pub evaluate : Irsf F → F → Verdict F
  evaluate r spend =
      if go.le r.spend_threshold zero_f || go.lt spend r.spend_threshold then quiet else (record {
        triggered = true;
        score = go.over spend r.spend_threshold;
        evidence = irsf_evidence r spend;
      })
