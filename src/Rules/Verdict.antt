-- ===== src/Rules/Verdict.antt =====
-- What each Evaluate returns: (triggered bool, score float64, evidence string).
use go_cdr_fraud_detector.Base.{Bool, false, []}
use go_cdr_fraud_detector.Base.Text.{Str}
use go_cdr_fraud_detector.Go.{Go, zero_f}

pub record Verdict (F : Type 0) : Type 0 where
  pub triggered : Bool
  pub score : F
  pub evidence : Str

-- `return false, 0, ""`
abbrev pub quiet : {F : Type 0} ⦃go : Go F⦄ → Verdict F
quiet = record { triggered = false; score = zero_f; evidence = [] }
