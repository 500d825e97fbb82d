-- ===== src/Platform.antt =====
-- internal/platform/platform.go: Getenv, over what os.LookupEnv returns.
use go_cdr_fraud_detector.Base.{Option, none, some}
use go_cdr_fraud_detector.Base.Text.{Str}

unfoldable pub getenv : (Str → Option Str) → Str → Str → Str
getenv lookup_env key fallback = elim (lookup_env key) [ none ↦ fallback | some v ↦ v ]
