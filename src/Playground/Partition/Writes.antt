-- ===== src/Playground/Partition/Writes.antt =====
-- A map of the engine written under one subscriber's key, for that subscriber and for the others.
use go_cdr_fraud_detector.Base.{◌≡◌, refl, sym, ◌∙◌, false, arith}
use go_cdr_fraud_detector.Base.Int.{ℤ}
use go_cdr_fraud_detector.Base.Text.{Str, str_eq, str_eq_refl}
use go_cdr_fraud_detector.Base.Dict.{Dict, lookup, insert, lookup-insert}
use go_cdr_fraud_detector.Playground.{Engine, Location, SpendItem}
use go_cdr_fraud_detector.Playground.Partition.Same.{SameFor}

stored_same :
    {V : Type 0} (k : Str) (w w' : V) (m m' : Dict V)
    → w ≡ w'
    → lookup k (insert k w m) ≡ lookup k (insert k w' m')
stored_same k w w' m m' h =
    ground (arith, lookup-insert k k w m, lookup-insert k k w' m', str_eq_refl k)

module _ {F : Type 0} where
  pub set_vel_win-others :
      (k c : Str) (w : Dict ℤ) (e : Engine F)
      → str_eq k c ≡ false
      → SameFor c e (record e { vel_win = insert k w e.vel_win })
  set_vel_win-others k c w e h = record {
    vel = refl;
    travel = refl;
    irsf_rule = refl;
    window_ms = refl;
    irsf_window_ms = refl;
    cooldown_ms = refl;
    vel_win = sym (lookup-insert k c w e.vel_win ∙ rw h);
    last_loc = refl;
    spend_win = refl;
    alerted = λ r. refl;
  }

  pub set_vel_win-own :
      (k : Str) (w w' : Dict ℤ) (e e' : Engine F)
      → w ≡ w'
      → SameFor k e e'
      → SameFor k
          (record e { vel_win = insert k w e.vel_win })
          (record e' { vel_win = insert k w' e'.vel_win })
  set_vel_win-own k w w' e e' h s = record {
    vel = s.vel;
    travel = s.travel;
    irsf_rule = s.irsf_rule;
    window_ms = s.window_ms;
    irsf_window_ms = s.irsf_window_ms;
    cooldown_ms = s.cooldown_ms;
    vel_win = stored_same k w w' e.vel_win e'.vel_win h;
    last_loc = s.last_loc;
    spend_win = s.spend_win;
    alerted = s.alerted;
  }

  pub set_last_loc-others :
      (k c : Str) (w : Location F) (e : Engine F)
      → str_eq k c ≡ false
      → SameFor c e (record e { last_loc = insert k w e.last_loc })
  set_last_loc-others k c w e h = record {
    vel = refl;
    travel = refl;
    irsf_rule = refl;
    window_ms = refl;
    irsf_window_ms = refl;
    cooldown_ms = refl;
    vel_win = refl;
    last_loc = sym (lookup-insert k c w e.last_loc ∙ rw h);
    spend_win = refl;
    alerted = λ r. refl;
  }

  pub set_last_loc-own :
      (k : Str) (w w' : Location F) (e e' : Engine F)
      → w ≡ w'
      → SameFor k e e'
      → SameFor k
          (record e { last_loc = insert k w e.last_loc })
          (record e' { last_loc = insert k w' e'.last_loc })
  set_last_loc-own k w w' e e' h s = record {
    vel = s.vel;
    travel = s.travel;
    irsf_rule = s.irsf_rule;
    window_ms = s.window_ms;
    irsf_window_ms = s.irsf_window_ms;
    cooldown_ms = s.cooldown_ms;
    vel_win = s.vel_win;
    last_loc = stored_same k w w' e.last_loc e'.last_loc h;
    spend_win = s.spend_win;
    alerted = s.alerted;
  }

  pub set_spend_win-others :
      (k c : Str) (w : Dict (SpendItem F)) (e : Engine F)
      → str_eq k c ≡ false
      → SameFor c e (record e { spend_win = insert k w e.spend_win })
  set_spend_win-others k c w e h = record {
    vel = refl;
    travel = refl;
    irsf_rule = refl;
    window_ms = refl;
    irsf_window_ms = refl;
    cooldown_ms = refl;
    vel_win = refl;
    last_loc = refl;
    spend_win = sym (lookup-insert k c w e.spend_win ∙ rw h);
    alerted = λ r. refl;
  }

  pub set_spend_win-own :
      (k : Str) (w w' : Dict (SpendItem F)) (e e' : Engine F)
      → w ≡ w'
      → SameFor k e e'
      → SameFor k
          (record e { spend_win = insert k w e.spend_win })
          (record e' { spend_win = insert k w' e'.spend_win })
  set_spend_win-own k w w' e e' h s = record {
    vel = s.vel;
    travel = s.travel;
    irsf_rule = s.irsf_rule;
    window_ms = s.window_ms;
    irsf_window_ms = s.irsf_window_ms;
    cooldown_ms = s.cooldown_ms;
    vel_win = s.vel_win;
    last_loc = s.last_loc;
    spend_win = stored_same k w w' e.spend_win e'.spend_win h;
    alerted = s.alerted;
  }
