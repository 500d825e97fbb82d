-- ===== src/Playground/Keys.antt =====
-- The keys of `alerted`: no two pairs of a rule and a subscriber share one.
use go_cdr_fraud_detector.Base.{◌≡◌, refl, false, arith, Bool-cases, inl, inr}
use go_cdr_fraud_detector.Base.Text.{Str, codes, append_cancel_left, str_eq, str_eq_iff}
use go_cdr_fraud_detector.Cdr.{Rule, velocity, impossible_travel, irsf}
use go_cdr_fraud_detector.Playground.{alert_key}

-- A key determines the rule and the subscriber.
pub alert_key-injective :
    (r s : Rule) (c d : Str) → alert_key r c ≡ alert_key s d → (r ≡ s) × (c ≡ d)
unfolding alert_key
alert_key-injective velocity velocity c d h = (refl, append_cancel_left (codes "velocity:") h)
alert_key-injective impossible_travel impossible_travel c d h =
    (refl, append_cancel_left (codes "impossible_travel:") h)
alert_key-injective irsf irsf c d h = (refl, append_cancel_left (codes "irsf:") h)
alert_key-injective velocity impossible_travel c d h = absurd (ground arith)
alert_key-injective velocity irsf c d h = absurd (ground arith)
alert_key-injective impossible_travel velocity c d h = absurd (ground arith)
alert_key-injective impossible_travel irsf c d h = absurd (ground arith)
alert_key-injective irsf velocity c d h = absurd (ground arith)
alert_key-injective irsf impossible_travel c d h = absurd (ground arith)

-- Keys of different subscribers differ, as the engine compares them.
pub alert_key_ne :
    (r s : Rule) (c d : Str) → str_eq c d ≡ false → str_eq (alert_key r c) (alert_key s d) ≡ false
alert_key_ne r s c d h = elim (Bool-cases (str_eq (alert_key r c) (alert_key s d))) [
  | inl same ↦
      absurd (ground (arith, alert_key-injective r s c d ((str_eq_iff _ _).0 same), str_eq_iff c d))
  | inr differ ↦ differ
]
