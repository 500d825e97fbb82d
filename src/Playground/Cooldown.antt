-- ===== src/Playground/Cooldown.antt =====
-- Alerts of one rule for one subscriber are a cooldown apart: what one step of the engine does to
-- the times under which alerts are marked.
pub mod Compose
pub mod Run
use go_cdr_fraud_detector.Base.{
  ◌≡◌, refl, subst, ap, ◌∙◌, sym, Bool, true, false, Option, none, some, List, [], ◌∷◌, ◌++◌, All,
  All-append, All-map, arith, if◌then◌else◌, Bool-cases, inl, inr,
}
use go_cdr_fraud_detector.Base.Int.{ℤ, ◌≤ℤ◌, ◌-ℤ◌, ltb_ℤ, ltb_ℤ-false, int_laws}
use go_cdr_fraud_detector.Base.Int64.{sub64, sub64_of_InInt64, InInt64}
use go_cdr_fraud_detector.Base.Text.{Str, codes, str_eq, str_eq_iff, str_eq_refl}
use go_cdr_fraud_detector.Base.Dict.{Dict, lookup, insert, lookup-insert}
use go_cdr_fraud_detector.Clock.{Time, unix_milli}
use go_cdr_fraud_detector.Cdr.{Cdr, FraudAlert, Rule, rule_name}
use go_cdr_fraud_detector.Rules.Verdict.{Verdict}
use go_cdr_fraud_detector.Playground.{Engine, alert_key, cooling, maybe_emit, emit_if}

abbrev pub key_of : {F : Type 0} → FraudAlert F → Str
key_of a = a.rule ++ (codes ":" ++ a.caller_msisdn)

-- `key` was marked at some time from `t` up to `now`, and the cooldown is `cd`.
pub record Marked {F : Type 0} (cd : ℤ) (e : Engine F) (key : Str) (t now : ℤ) : Type 0 where
  pub last : ℤ
  pub stored : lookup key e.alerted ≡ some last
  pub from : t ≤ℤ last
  pub until : last ≤ℤ now
  pub cool : e.cooldown_ms ≡ cd

-- No alert under `key` before the cooldown has passed since `t`.
abbrev pub Waits : {F : Type 0} → ℤ → Str → ℤ → ℤ → List (FraudAlert F) → Type 0
Waits cd key t now = All λ a. key_of a ≡ key → cd ≤ℤ now -ℤ t

-- Each alert keeps the later ones under its key waiting.
abbrev pub Spaced : {F : Type 0} → ℤ → ℤ → List (FraudAlert F) → Type 0
Spaced cd now [] = Unit
Spaced cd now (a ∷ as') = Waits cd (key_of a) now now as' × Spaced cd now as'

abbrev pub Step : Type 0 → Type 0
Step F = Engine F → Engine F × List (FraudAlert F)

-- What a step at time `now` does: marks stay and hold back alerts, and its own alerts are spaced
-- and leave their marks.
pub record Cools {F : Type 0} (cd now : ℤ) (f : Step F) : Type 0 where
  pub keeps_cool : (e : Engine F) → e.cooldown_ms ≡ cd → (f e).0.cooldown_ms ≡ cd
  pub forward :
      (e : Engine F) (key : Str) (t : ℤ)
      → Marked cd e key t now
      → InInt64 (now -ℤ t)
      → Marked cd (f e).0 key t now × Waits cd key t now (f e).1
  pub own :
      (e : Engine F)
      → e.cooldown_ms ≡ cd
      → Spaced cd now (f e).1 × All (λ a. Marked cd (f e).0 (key_of a) now now) (f e).1

module _ {F : Type 0} where
  emit_cases :
      (P : Engine F × List (FraudAlert F) → Type 0) (e : Engine F) (rec : Cdr) (rule : Rule)
      (v : Verdict F) (now : Time)
      → let key = alert_key rule rec.caller_msisdn in
        let ms = unix_milli rec.start_time in
        P (e, [])
        → (cooling e key ms ≡ false
            → P (
              record e { alerted = insert key ms e.alerted },
              record {
                record_id = rec.record_id;
                caller_msisdn = rec.caller_msisdn;
                rule = rule_name rule;
                score = v.score;
                evidence = v.evidence;
                detected_at = now;
              }
                  ∷ [],
            ))
        → P (emit_if e rec rule v now)
  unfolding emit_if
  emit_cases P e rec rule v now quiet emitted = elim (Bool-cases v.triggered) [
    | inr idle ↦ rw (idle, emit_if) quiet
    | inl fired ↦
        elim (Bool-cases
          (cooling e (alert_key rule rec.caller_msisdn) (unix_milli rec.start_time))) [
            | inl cold ↦ rw (fired, cold, emit_if) quiet
            | inr warm ↦ rw (fired, warm, emit_if) (emitted warm)
          ]
  ]

  -- A mark that lets an alert through is a cooldown old.
  cooldown_passed :
      (cd : ℤ) (e : Engine F) (key : Str) (t now : ℤ)
      → Marked cd e key t now
      → InInt64 (now -ℤ t)
      → cooling e key now ≡ false
      → cd ≤ℤ now -ℤ t
  unfolding cooling
  cooldown_passed cd e key t now m r h =
      let warm : ltb_ℤ (sub64 now m.last) e.cooldown_ms ≡ false = rw (m.stored, cooling) at h in
      let apart : e.cooldown_ms ≤ℤ now -ℤ m.last =
        rw (sub64_of_InInt64 now m.last (omega int_laws)) at
          (ltb_ℤ-false (sub64 now m.last) e.cooldown_ms warm) in
      let within : cd ≤ℤ now -ℤ m.last = rw m.cool at apart in omega int_laws

  -- Writing the present time under any key keeps a mark.
  Marked-insert :
      (cd : ℤ) (e : Engine F) (key key' : Str) (t now : ℤ)
      → Marked cd e key t now
      → Marked cd (record e { alerted = insert key' now e.alerted }) key t now
  Marked-insert cd e key key' t now m = elim (Bool-cases (str_eq key' key)) [
    | inl same ↦ record {
      last = now;
      stored = lookup-insert key' key now e.alerted ∙ rw same;
      from = omega int_laws;
      until = omega int_laws;
      cool = m.cool;
    }
    | inr other ↦ record {
      last = m.last;
      stored = lookup-insert key' key now e.alerted ∙ rw other m.stored;
      from = m.from;
      until = m.until;
      cool = m.cool;
    }
  ]

  Marked-self :
      (cd : ℤ) (e : Engine F) (key : Str) (now : ℤ)
      → e.cooldown_ms ≡ cd
      → Marked cd (record e { alerted = insert key now e.alerted }) key now now
  Marked-self cd e key now h = record {
    last = now;
    stored = lookup-insert key key now e.alerted ∙ rw (str_eq_refl key);
    from = omega arith;
    until = omega arith;
    cool = h;
  }

  pub Marked-same :
      (cd now : ℤ) (e e' : Engine F) (key : Str) (t : ℤ)
      → e'.alerted ≡ e.alerted
      → e'.cooldown_ms ≡ e.cooldown_ms
      → Marked cd e key t now
      → Marked cd e' key t now
  Marked-same cd now e e' key t same cool m = record {
    last = m.last;
    stored = ap (lookup key) same ∙ m.stored;
    from = m.from;
    until = m.until;
    cool = cool ∙ m.cool;
  }

  -- An emission cools, whichever verdict the state gives, also after a change to other fields.
  pub emit_if-Cools :
      (cd : ℤ) (rec : Cdr) (rule : Rule) (pre : Engine F → Engine F) (v : Engine F → Verdict F)
      (now : Time)
      → ((e : Engine F) → (pre e).alerted ≡ e.alerted)
      → ((e : Engine F) → (pre e).cooldown_ms ≡ e.cooldown_ms)
      → Cools cd (unix_milli rec.start_time) (λ e. emit_if (pre e) rec rule (v e) now)
  unfolding alert_key
  emit_if-Cools cd rec rule pre v now same cool =
      let ms = unix_milli rec.start_time in
      let key = alert_key rule rec.caller_msisdn in
      record {
        keeps_cool = λ e h.
            emit_cases (λ out. out.0.cooldown_ms ≡ cd) (pre e) rec rule (v e) now (cool e ∙ h)
              (λ _. cool e ∙ h);
        forward = λ e k t m r.
            let m' = Marked-same cd ms e (pre e) k t (same e) (cool e) m in
            emit_cases (λ out. Marked cd out.0 k t ms × Waits cd k t ms out.1) (pre e) rec rule
              (v e) now (m', tt)
              λ warm. (
                Marked-insert cd (pre e) k key t ms m',
                (
                  λ found.
                      cooldown_passed cd (pre e) k t ms m' r
                        (subst (λ j. cooling (pre e) j ms ≡ false) found warm),
                  tt,
                ),
              );
        own = λ e h.
            emit_cases
              (λ out. Spaced cd ms out.1 × All (λ a. Marked cd out.0 (key_of a) ms ms) out.1)
              (pre e) rec rule (v e) now (tt, tt)
              λ warm. ((tt, tt), (Marked-self cd (pre e) key ms (cool e ∙ h), tt));
      }
