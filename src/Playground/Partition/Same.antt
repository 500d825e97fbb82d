-- ===== src/Playground/Partition/Same.antt =====
-- When two engines hold the same for one subscriber, and what it means that a step belongs to one.
use go_cdr_fraud_detector.Base.{◌≡◌, refl, sym, ◌∙◌, false, List, All}
use go_cdr_fraud_detector.Base.Text.{Str, str_eq}
use go_cdr_fraud_detector.Base.Dict.{lookup}
use go_cdr_fraud_detector.Cdr.{FraudAlert, Rule}
use go_cdr_fraud_detector.Playground.{Engine, alert_key}

-- Two engines agree on their settings and on what they store for the subscriber `c`.
pub record SameFor {F : Type 0} (c : Str) (e e' : Engine F) : Type 0 where
  pub vel : e.vel ≡ e'.vel
  pub travel : e.travel ≡ e'.travel
  pub irsf_rule : e.irsf_rule ≡ e'.irsf_rule
  pub window_ms : e.window_ms ≡ e'.window_ms
  pub irsf_window_ms : e.irsf_window_ms ≡ e'.irsf_window_ms
  pub cooldown_ms : e.cooldown_ms ≡ e'.cooldown_ms
  pub vel_win : lookup c e.vel_win ≡ lookup c e'.vel_win
  pub last_loc : lookup c e.last_loc ≡ lookup c e'.last_loc
  pub spend_win : lookup c e.spend_win ≡ lookup c e'.spend_win
  pub alerted : (r : Rule) → lookup (alert_key r c) e.alerted ≡ lookup (alert_key r c) e'.alerted

abbrev pub Step : Type 0 → Type 0
Step F = Engine F → Engine F × List (FraudAlert F)

-- A step that belongs to the subscriber `k`.
pub record Owned {F : Type 0} (k : Str) (f : Step F) : Type 0 where
  pub others : (c : Str) (e : Engine F) → str_eq k c ≡ false → SameFor c e (f e).0
  pub own : (e e' : Engine F) → SameFor k e e' → ((f e).1 ≡ (f e').1) × SameFor k (f e).0 (f e').0
  pub callers : (e : Engine F) → All (λ a. a.caller_msisdn ≡ k) (f e).1

module _ {F : Type 0} where
  pub SameFor-refl : (c : Str) (e : Engine F) → SameFor c e e
  SameFor-refl c e = record {
    vel = refl;
    travel = refl;
    irsf_rule = refl;
    window_ms = refl;
    irsf_window_ms = refl;
    cooldown_ms = refl;
    vel_win = refl;
    last_loc = refl;
    spend_win = refl;
    alerted = λ r. refl;
  }

  pub SameFor-trans : (c : Str) (a b d : Engine F) → SameFor c a b → SameFor c b d → SameFor c a d
  SameFor-trans c a b d p q = record {
    vel = p.vel ∙ q.vel;
    travel = p.travel ∙ q.travel;
    irsf_rule = p.irsf_rule ∙ q.irsf_rule;
    window_ms = p.window_ms ∙ q.window_ms;
    irsf_window_ms = p.irsf_window_ms ∙ q.irsf_window_ms;
    cooldown_ms = p.cooldown_ms ∙ q.cooldown_ms;
    vel_win = p.vel_win ∙ q.vel_win;
    last_loc = p.last_loc ∙ q.last_loc;
    spend_win = p.spend_win ∙ q.spend_win;
    alerted = λ r. p.alerted r ∙ q.alerted r;
  }

  pub SameFor-symm : (c : Str) (a b : Engine F) → SameFor c a b → SameFor c b a
  SameFor-symm c a b p = record {
    vel = sym p.vel;
    travel = sym p.travel;
    irsf_rule = sym p.irsf_rule;
    window_ms = sym p.window_ms;
    irsf_window_ms = sym p.irsf_window_ms;
    cooldown_ms = sym p.cooldown_ms;
    vel_win = sym p.vel_win;
    last_loc = sym p.last_loc;
    spend_win = sym p.spend_win;
    alerted = λ r. sym (p.alerted r);
  }
