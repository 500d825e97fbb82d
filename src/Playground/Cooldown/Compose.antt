-- ===== src/Playground/Cooldown/Compose.antt =====
-- Steps that cool, one after another.
use go_cdr_fraud_detector.Base.{◌≡◌, ◌∙◌, List, [], ◌∷◌, ◌++◌, All, All-append, All-map}
use go_cdr_fraud_detector.Base.Int.{ℤ, ◌≤ℤ◌, ◌-ℤ◌, int_laws}
use go_cdr_fraud_detector.Base.Int64.{InInt64}
use go_cdr_fraud_detector.Cdr.{FraudAlert}
use go_cdr_fraud_detector.Playground.{Engine}
use go_cdr_fraud_detector.Playground.Cooldown.{
  key_of, Marked, Waits, Spaced, Step, Cools, Marked-same,
}

-- One step after another.
abbrev pub after : {F : Type 0} → Step F → Step F → Step F
after f g e = let (e', a) = f e in let (e'', b) = g e' in (e'', a ++ b)

module _ {F : Type 0} (cd now : ℤ) where
  -- What does not touch the marks or the cooldown may follow a step.
  pub then-Cools :
      (f : Step F) (post : Engine F → Engine F)
      → ((e : Engine F) → (post e).alerted ≡ e.alerted)
      → ((e : Engine F) → (post e).cooldown_ms ≡ e.cooldown_ms)
      → Cools cd now f
      → Cools cd now (λ e. let (e', a) = f e in (post e', a))
  then-Cools f post same cool c = record {
    keeps_cool = λ e h. cool (f e).0 ∙ c.keeps_cool e h;
    forward = λ e key t m r.
        let (m', w) = c.forward e key t m r in
        (Marked-same cd now (f e).0 (post (f e).0) key t (same (f e).0) (cool (f e).0) m', w);
    own = λ e h.
        let (s, ms) = c.own e h in
        (
          s,
          All-map {P = λ a. Marked cd (f e).0 (key_of a) now now}
              (λ a.
                Marked-same cd now (f e).0 (post (f e).0) (key_of a) now (same (f e).0)
                  (cool (f e).0))
              (f e).1 ms,
        );
  }

  Spaced-append :
      (as' bs : List (FraudAlert F))
      → Spaced cd now as'
      → Spaced cd now bs
      → All (λ a. Waits cd (key_of a) now now bs) as'
      → Spaced cd now (as' ++ bs)
  Spaced-append [] bs s u w = u
  Spaced-append (a ∷ as') bs s u w = (
    All-append (λ b. key_of b ≡ key_of a → cd ≤ℤ now -ℤ now) as' bs s.0 w.0,
    Spaced-append as' bs s.1 u w.1,
  )

  pub after-Cools : (f g : Step F) → Cools cd now f → Cools cd now g → Cools cd now (after f g)
  after-Cools f g c d = record {
    keeps_cool = λ e h. d.keeps_cool (f e).0 (c.keeps_cool e h);
    forward = λ e key t m r.
        let (m', w) = c.forward e key t m r in
        let (m'', w') = d.forward (f e).0 key t m' r in
        (m'', All-append (λ a. key_of a ≡ key → cd ≤ℤ now -ℤ t) (f e).1 (g (f e).0).1 w w');
    own = λ e h.
        let (s, ms) = c.own e h in
        let (s', ms') = d.own (f e).0 (c.keeps_cool e h) in
        let onward = λ (a : FraudAlert F) (m : Marked cd (f e).0 (key_of a) now now).
          d.forward (f e).0 (key_of a) now m (now_InInt64 now) in
        (
          Spaced-append (f e).1 (g (f e).0).1 s s' (
              All-map {P = λ a. Marked cd (f e).0 (key_of a) now now} (λ a m. (onward a m).1)
                (f e).1 ms),
          All-append (λ a. Marked cd (g (f e).0).0 (key_of a) now now) (f e).1 (g (f e).0).1
              (All-map {P = λ a. Marked cd (f e).0 (key_of a) now now} (λ a m. (onward a m).0)
                (f e).1 ms)
              ms',
        );
  }
    where
      now_InInt64 : (n : ℤ) → InInt64 (n -ℤ n)
      now_InInt64 n = omega int_laws

  -- A step that does nothing.
  pub idle-Cools : Cools {F = F} cd now (λ e. (e, []))
  idle-Cools = record {
    keeps_cool = λ e h. h;
    forward = λ e key t m r. (m, tt);
    own = λ e h. (tt, tt);
  }
