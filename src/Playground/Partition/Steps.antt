-- ===== src/Playground/Partition/Steps.antt =====
-- Each of the three rules belongs to the caller of its record, and so does `score`.
use go_cdr_fraud_detector.Base.{
  ◌≡◌, refl, ap, false, [], ◌++◌, All-append, length, Bool-cases, Option-cases, inl, inr, arith,
}
use mathlib.Core.Path.{ap₂}
use go_cdr_fraud_detector.Base.Int.{ℤ, pos}
use go_cdr_fraud_detector.Base.Int64.{sub64}
use go_cdr_fraud_detector.Base.Text.{Str, str_eq}
use go_cdr_fraud_detector.Base.Dict.{Dict, lookup, insert, keys}
use go_cdr_fraud_detector.Clock.{unix_milli}
use go_cdr_fraud_detector.Cdr.{Cdr, Rule, velocity, impossible_travel, irsf}
use go_cdr_fraud_detector.Go.{Go, Order, zero_f}
use go_cdr_fraud_detector.Geo
use go_cdr_fraud_detector.Geo.{Cell}
use go_cdr_fraud_detector.Tariff
use go_cdr_fraud_detector.Rules.Velocity as VelocityRule
use go_cdr_fraud_detector.Rules.Irsf as IrsfRule
use go_cdr_fraud_detector.Playground.{
  Engine, Location, SpendItem, window_of, trim, velocity_count, spend_in_window, spend_loop,
}
use go_cdr_fraud_detector.Playground.Score.{
  Moment, score, score_velocity, score_travel, score_irsf, visit_cell, travel_verdict,
}
use go_cdr_fraud_detector.Playground.Partition.Same.{
  SameFor, SameFor-refl, SameFor-trans, Step, Owned,
}
use go_cdr_fraud_detector.Playground.Partition.Writes.{
  set_vel_win-others, set_vel_win-own, set_last_loc-others, set_last_loc-own, set_spend_win-others,
  set_spend_win-own,
}
use go_cdr_fraud_detector.Playground.Partition.Emits.{emit_if-others, emit_if-own, emit_if-callers}

window_of_congr :
    {V : Type 0} (k : Str) (m m' : Dict (Dict V))
    → lookup k m ≡ lookup k m'
    → window_of k m ≡ window_of k m'
unfolding window_of
window_of_congr k m m' h = rw (h, window_of)

module _ {F : Type 0} ⦃go : Go F⦄ where
  velocity_count-others :
      (e : Engine F) (k id : Str) (ms : ℤ) (order : Order) (c : Str)
      → str_eq k c ≡ false
      → SameFor c e (velocity_count e k id ms order).0
  unfolding velocity_count
  velocity_count-others e k id ms order c h = set_vel_win-others k c _ e h

  velocity_count-own :
      (e e' : Engine F) (k id : Str) (ms : ℤ) (order : Order)
      → SameFor k e e'
      → ((velocity_count e k id ms order).1 ≡ (velocity_count e' k id ms order).1)
        × SameFor k (velocity_count e k id ms order).0 (velocity_count e' k id ms order).0
  unfolding velocity_count
  velocity_count-own e e' k id ms order s =
      let entered = λ (m : Dict (Dict ℤ)). insert id ms (window_of k m) in
      let left = λ (win : ℤ) (w : Dict ℤ). trim (sub64 ms win) (order (keys w)) w in
      let same : left e.window_ms (entered e.vel_win) ≡ left e'.window_ms (entered e'.vel_win) =
        ap₂ left s.window_ms
          (ap (insert id ms) (window_of_congr k e.vel_win e'.vel_win s.vel_win)) in
      (
        ap (λ w. pos (length w)) same,
        set_vel_win-own k (left e.window_ms (entered e.vel_win))
            (left e'.window_ms (entered e'.vel_win)) e e' same s,
      )

  spend_in_window-others :
      (e : Engine F) (k id : Str) (ms : ℤ) (cost : F) (order : Order) (c : Str)
      → str_eq k c ≡ false
      → SameFor c e (spend_in_window e k id ms cost order).0
  unfolding spend_in_window
  spend_in_window-others e k id ms cost order c h = set_spend_win-others k c _ e h

  spend_in_window-own :
      (e e' : Engine F) (k id : Str) (ms : ℤ) (cost : F) (order : Order)
      → SameFor k e e'
      → ((spend_in_window e k id ms cost order).1 ≡ (spend_in_window e' k id ms cost order).1)
        × SameFor k
            (spend_in_window e k id ms cost order).0
            (spend_in_window e' k id ms cost order).0
  unfolding spend_in_window
  spend_in_window-own e e' k id ms cost order s =
      let entered = λ (m : Dict (Dict (SpendItem F))).
        insert id (record { ms = ms; cost = cost }) (window_of k m) in
      let left = λ (win : ℤ) (w : Dict (SpendItem F)).
        spend_loop (sub64 ms win) (order (keys w)) (w, zero_f) in
      let same : left e.irsf_window_ms (entered e.spend_win)
          ≡ left e'.irsf_window_ms (entered e'.spend_win) =
        ap₂ left s.irsf_window_ms (
          ap (insert id (record { ms = ms; cost = cost }))
            (window_of_congr k e.spend_win e'.spend_win s.spend_win)) in
      (ap (λ ws. ws.1) same, set_spend_win-own k _ _ e e' (ap (λ ws. ws.0) same) s)

module _ {F : Type 0} ⦃go : Go F⦄ (rec : Cdr) (m : Moment) where
  score_velocity-Owned : Owned {F = F} rec.caller_msisdn (λ e. score_velocity e rec m)
  unfolding score_velocity
  score_velocity-Owned = record {
    others = λ c e h.
        SameFor-trans c e _ _
          (velocity_count-others e rec.caller_msisdn rec.record_id _ m.order c h)
          (emit_if-others c _ rec velocity _ m.now h);
    own = λ e e' s.
        let (count, s') =
          velocity_count-own e e' rec.caller_msisdn rec.record_id (unix_milli rec.start_time)
            m.order s in
        emit_if-own _ _ rec velocity _ _ m.now (ap₂ VelocityRule.evaluate s'.vel count) s';
    callers = λ e. emit_if-callers _ rec velocity _ m.now;
  }

  travel_verdict-own :
      (e e' : Engine F) (current : Location F)
      → SameFor rec.caller_msisdn e e'
      → travel_verdict e rec current ≡ travel_verdict e' rec current
  unfolding travel_verdict
  travel_verdict-own e e' current s =
      let from = s.last_loc in let limit = s.travel in ground (arith, from, limit)

  visit_cell-Owned :
      (cell : Cell F) → Owned {F = F} rec.caller_msisdn (λ e. visit_cell e rec cell m.now)
  unfolding visit_cell
  visit_cell-Owned cell =
      let current : Location F = record { lat = cell.lat; lon = cell.lon; at = rec.start_time } in
      record {
        others = λ c e h.
            SameFor-trans c e _ _ (emit_if-others c e rec impossible_travel _ m.now h)
              (set_last_loc-others rec.caller_msisdn c current _ h);
        own = λ e e' s.
            let (same, s') =
              emit_if-own e e' rec impossible_travel _ _ m.now (travel_verdict-own e e' current s)
                s in
            (same, set_last_loc-own rec.caller_msisdn current current _ _ refl s');
        callers = λ e. emit_if-callers e rec impossible_travel _ m.now;
      }

  idle-Owned : (k : Str) → Owned {F = F} k (λ e. (e, []))
  idle-Owned k = record {
    others = λ c e h. SameFor-refl c e;
    own = λ e e' s. (refl, s);
    callers = λ e. tt;
  }

  score_travel-Owned : Owned {F = F} rec.caller_msisdn (λ e. score_travel e rec m.now)
  unfolding score_travel
  score_travel-Owned = elim (Option-cases (Geo.lookup {F = F} rec.cell_id)) [
    | inl unknown ↦ rw (unknown, score_travel) (idle-Owned rec.caller_msisdn)
    | inr (cell, known) ↦ rw (known, score_travel) (visit_cell-Owned cell)
  ]

  score_irsf-Owned : Owned {F = F} rec.caller_msisdn (λ e. score_irsf e rec m)
  unfolding score_irsf
  score_irsf-Owned =
      let t = Tariff.lookup {F = F} rec.callee_msisdn in
      let cost =
        go.times (go.over (go.of_int rec.duration_sec) (go.of_int (pos 60))) t.rate_per_min in
      elim (Bool-cases t.premium) [
        | inr ordinary ↦ rw (ordinary, score_irsf) (idle-Owned rec.caller_msisdn)
        | inl premium ↦
            rw (premium, score_irsf)
              (record {
                others = λ c e h.
                    SameFor-trans c e _ _
                      (spend_in_window-others e rec.caller_msisdn rec.record_id _ cost m.order c h)
                      (emit_if-others c _ rec irsf _ m.now h);
                own = λ e e' s.
                    let (spend, s') =
                      spend_in_window-own e e' rec.caller_msisdn rec.record_id
                        (unix_milli rec.start_time) cost m.order s in
                    emit_if-own _ _ rec irsf _ _ m.now (ap₂ IrsfRule.evaluate s'.irsf_rule spend)
                      s';
                callers = λ e. emit_if-callers _ rec irsf _ m.now;
              })
      ]

abbrev after : {F : Type 0} → Step F → Step F → Step F
after f g e = let (e', a) = f e in let (e'', b) = g e' in (e'', a ++ b)

after-Owned : {F : Type 0} (k : Str) (f g : Step F) → Owned k f → Owned k g → Owned k (after f g)
after-Owned k f g p q = record {
  others = λ c e h. SameFor-trans c e (f e).0 (g (f e).0).0 (p.others c e h) (q.others c (f e).0 h);
  own = λ e e' s.
      let (a, s') = p.own e e' s in let (b, s'') = q.own (f e).0 (f e').0 s' in (ap₂ ◌++◌ a b, s'');
  callers = λ e.
      All-append (λ a. a.caller_msisdn ≡ k) (f e).1 (g (f e).0).1 (p.callers e) (q.callers (f e).0);
}

-- `score` belongs to the caller: other subscribers' state is neither read nor written.
pub score-Owned :
    {F : Type 0} (go : Go F) (rec : Cdr) (at : Rule → Moment)
    → Owned {F = F} rec.caller_msisdn (λ e. score ⦃go = go⦄ e rec at)
unfolding score
score-Owned go rec at =
    after-Owned rec.caller_msisdn _ _ (score_velocity-Owned ⦃go = go⦄ rec (at velocity)) (
      after-Owned rec.caller_msisdn _ _ (score_travel-Owned ⦃go = go⦄ rec (at impossible_travel))
        (score_irsf-Owned ⦃go = go⦄ rec (at irsf)))
