-- ===== src/Playground/Partition/Emits.antt =====
-- An emission belongs to the caller of its record.
use go_cdr_fraud_detector.Base.{
  ◌≡◌, refl, All, subst, ◌∙◌, sym, Bool, false, not, ◌&&◌, [], ◌∷◌, arith, if◌then◌else◌,
  Bool-cases, inl, inr,
}
use go_cdr_fraud_detector.Base.Text.{Str, str_eq}
use go_cdr_fraud_detector.Base.Dict.{insert, lookup-insert}
use go_cdr_fraud_detector.Clock.{Time, unix_milli}
use go_cdr_fraud_detector.Cdr.{Cdr, FraudAlert, Rule, rule_name}
use go_cdr_fraud_detector.Rules.Verdict.{Verdict}
use go_cdr_fraud_detector.Playground.{Engine, alert_key, cooling, emit_if}
use go_cdr_fraud_detector.Playground.Partition.Same.{SameFor, SameFor-refl}
use go_cdr_fraud_detector.Playground.Keys.{alert_key_ne}

module _ {F : Type 0} where
  fires : Engine F → Cdr → Rule → Verdict F → Bool
  fires e rec rule v =
      v.triggered && not (cooling e (alert_key rule rec.caller_msisdn) (unix_milli rec.start_time))

  -- The engine with the mark of an alert.
  abbrev mark : Engine F → Cdr → Rule → Engine F
  mark e rec rule = record e {
    alerted = insert (alert_key rule rec.caller_msisdn) (unix_milli rec.start_time) e.alerted;
  }

  abbrev alert_of : Cdr → Rule → Verdict F → Time → FraudAlert F
  alert_of rec rule v now = record {
    record_id = rec.record_id;
    caller_msisdn = rec.caller_msisdn;
    rule = rule_name rule;
    score = v.score;
    evidence = v.evidence;
    detected_at = now;
  }

  emit_if_lem :
      (e : Engine F) (rec : Cdr) (rule : Rule) (v : Verdict F) (now : Time)
      → emit_if e rec rule v now
        ≡ (if fires e rec rule v then (mark e rec rule, alert_of rec rule v now ∷ []) else (e, []))
  unfolding emit_if fires
  emit_if_lem e rec rule v now = elim (Bool-cases v.triggered) [
    | inr idle ↦ rw (idle, emit_if, fires) refl
    | inl fired ↦
        elim (Bool-cases
          (cooling e (alert_key rule rec.caller_msisdn) (unix_milli rec.start_time))) [
            | inl cold ↦ rw (fired, cold, emit_if, fires) refl
            | inr warm ↦ rw (fired, warm, emit_if, fires) refl
          ]
  ]

  mark-others :
      (c : Str) (e : Engine F) (rec : Cdr) (rule : Rule)
      → str_eq rec.caller_msisdn c ≡ false
      → SameFor c e (mark e rec rule)
  mark-others c e rec rule h = record {
    vel = refl;
    travel = refl;
    irsf_rule = refl;
    window_ms = refl;
    irsf_window_ms = refl;
    cooldown_ms = refl;
    vel_win = refl;
    last_loc = refl;
    spend_win = refl;
    alerted = λ r. sym (
        lookup-insert (alert_key rule rec.caller_msisdn) (alert_key r c) _ e.alerted
        ∙ rw (alert_key_ne rule r rec.caller_msisdn c h));
  }

  mark-own :
      (e e' : Engine F) (rec : Cdr) (rule : Rule)
      → SameFor rec.caller_msisdn e e'
      → SameFor rec.caller_msisdn (mark e rec rule) (mark e' rec rule)
  mark-own e e' rec rule s = record {
    vel = s.vel;
    travel = s.travel;
    irsf_rule = s.irsf_rule;
    window_ms = s.window_ms;
    irsf_window_ms = s.irsf_window_ms;
    cooldown_ms = s.cooldown_ms;
    vel_win = s.vel_win;
    last_loc = s.last_loc;
    spend_win = s.spend_win;
    alerted = λ r.
        lookup-insert (alert_key rule rec.caller_msisdn) (alert_key r rec.caller_msisdn) _ e.alerted
        ∙ rw (s.alerted r) (
            sym (
              lookup-insert (alert_key rule rec.caller_msisdn) (alert_key r rec.caller_msisdn) _
                e'.alerted));
  }

  fires-own :
      (e e' : Engine F) (rec : Cdr) (rule : Rule) (v : Verdict F)
      → SameFor rec.caller_msisdn e e'
      → fires e rec rule v ≡ fires e' rec rule v
  unfolding fires cooling
  fires-own e e' rec rule v s =
      let same = s.alerted rule in let cool = s.cooldown_ms in ground (arith, same, cool)

  pub emit_if-others :
      (c : Str) (e : Engine F) (rec : Cdr) (rule : Rule) (v : Verdict F) (now : Time)
      → str_eq rec.caller_msisdn c ≡ false
      → SameFor c e (emit_if e rec rule v now).0
  emit_if-others c e rec rule v now h =
      rw (emit_if_lem e rec rule v now) (elim (Bool-cases (fires e rec rule v)) [
        | inl yes' ↦ rw yes' (mark-others c e rec rule h)
        | inr no' ↦ rw no' (SameFor-refl c e)
      ])

  emit_same :
      (e e' : Engine F) (rec : Cdr) (rule : Rule) (v : Verdict F) (now : Time)
      → SameFor rec.caller_msisdn e e'
      → ((emit_if e rec rule v now).1 ≡ (emit_if e' rec rule v now).1)
        × SameFor rec.caller_msisdn (emit_if e rec rule v now).0 (emit_if e' rec rule v now).0
  emit_same e e' rec rule v now s =
      rw
        (emit_if_lem e rec rule v now, emit_if_lem e' rec rule v now, ← fires-own e e' rec rule v s)
        (elim (Bool-cases (fires e rec rule v)) [
          | inl yes' ↦ rw yes' (refl, mark-own e e' rec rule s)
          | inr no' ↦ rw no' (refl, s)
        ])

  -- Engines that agree for the caller emit the same on the same verdict, and still agree.
  pub emit_if-own :
      (e e' : Engine F) (rec : Cdr) (rule : Rule) (v v' : Verdict F) (now : Time)
      → v ≡ v'
      → SameFor rec.caller_msisdn e e'
      → ((emit_if e rec rule v now).1 ≡ (emit_if e' rec rule v' now).1)
        × SameFor rec.caller_msisdn (emit_if e rec rule v now).0 (emit_if e' rec rule v' now).0
  emit_if-own e e' rec rule v v' now h s =
      subst
        (λ u.
          ((emit_if e rec rule v now).1 ≡ (emit_if e' rec rule u now).1)
          × SameFor rec.caller_msisdn (emit_if e rec rule v now).0 (emit_if e' rec rule u now).0)
        h (emit_same e e' rec rule v now s)

  pub emit_if-callers :
      (e : Engine F) (rec : Cdr) (rule : Rule) (v : Verdict F) (now : Time)
      → All (λ a. a.caller_msisdn ≡ rec.caller_msisdn) (emit_if e rec rule v now).1
  emit_if-callers e rec rule v now =
      rw (emit_if_lem e rec rule v now) (elim (Bool-cases (fires e rec rule v)) [
        | inl yes' ↦ rw yes' (refl, tt)
        | inr no' ↦ rw no' tt
      ])
