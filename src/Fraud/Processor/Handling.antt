-- ===== src/Fraud/Processor/Handling.antt =====
-- The handling of a record touches only what belongs to the record.
use go_cdr_fraud_detector.Base.{◌≡◌, refl, Bool, true, false, if◌then◌else◌}
use go_cdr_fraud_detector.Base.Text.{Str}
use go_cdr_fraud_detector.Cdr.{Cdr}
use go_cdr_fraud_detector.Go.{Go}
use go_cdr_fraud_detector.Fraud.Cache.{Outcome, ok, err}
use go_cdr_fraud_detector.Fraud.Action.{Action, pure, attempt, or_skip, ◌>>=◌}
use go_cdr_fraud_detector.Fraud.Services.{Services}
use go_cdr_fraud_detector.Fraud.Windows.{seen}
use go_cdr_fraud_detector.Fraud.Processor.{
  Processor, Memory, outwards, get_cell_geo, get_tariff, check_impossible_travel, check_irsf,
  check_all, handle,
}
use go_cdr_fraud_detector.Fraud.Processor.Touches.{
  asked_cell, asked_tariff, Touches, rests, Keeps, Keeps-bind, Keeps-if, Keeps-outwards, once,
  never,
}
use go_cdr_fraud_detector.Fraud.Processor.Own.{
  bind, idle, check_velocity-Own, visit-Own, accrue-Own, mark_seen-Own, seen-Own,
}

module _ {F S E : Type 0} ⦃go : Go F⦄ (services : Services F S E) (p : Processor F)
    (rec : Cdr) where
  abbrev OwnMemory : {A : Type 0} → Action (Memory F S) E A → Type 0
  OwnMemory = Keeps services rec (λ (st : Memory F S). st.outside)

  bind_memory :
      {A B : Type 0} {m : Action (Memory F S) E A} {f : A → Action (Memory F S) E B}
      → OwnMemory m
      → ((a : A) → OwnMemory (f a))
      → OwnMemory (m >>= f)
  bind_memory = Keeps-bind services rec (λ st. st.outside)

  idle_memory :
      {A : Type 0} {m : Action (Memory F S) E A} → ((st : Memory F S) → (m st).0 ≡ st) → OwnMemory m
  idle_memory = never services rec (λ st. st.outside)

  -- A load that runs only on a miss.
  Touches-if :
      (called : Bool) {s s' : S}
      → Touches services rec s s'
      → Touches services rec s (if called then s' else s)
  Touches-if true t = t
  Touches-if false t = rests

  get_cell_geo-OwnMemory : OwnMemory (get_cell_geo services p rec.cell_id)
  unfolding get_cell_geo
  get_cell_geo-OwnMemory = record {
    runs = λ st. Touches-if _ (
        (bind services p rec (once services rec (λ s. asked_cell refl))
            (λ cell. idle services p rec (λ _. refl))).runs
          st.outside);
  }

  get_tariff-OwnMemory : OwnMemory (get_tariff services p rec.callee_msisdn)
  unfolding get_tariff
  get_tariff-OwnMemory = record {
    runs = λ st. Touches-if _ (
        (bind services p rec (once services rec (λ s. asked_tariff refl))
            (λ t. idle services p rec (λ _. refl))).runs
          st.outside);
  }

  attempt-OwnMemory :
      {A : Type 0} {m : Action (Memory F S) E A} → OwnMemory m → OwnMemory (attempt m)
  attempt-OwnMemory h = record { runs = h.runs }

  or_skip-OwnMemory :
      {A : Type 0} (found : Outcome E A) {f : A → Action (Memory F S) E (Unit {0})}
      → ((a : A) → OwnMemory (f a))
      → OwnMemory (or_skip found f)
  unfolding or_skip
  or_skip-OwnMemory (ok a) h = h a
  or_skip-OwnMemory (err e) h = idle_memory (λ _. refl)

  check_impossible_travel-OwnMemory : OwnMemory (check_impossible_travel services p rec)
  unfolding check_impossible_travel
  check_impossible_travel-OwnMemory =
      bind_memory (attempt-OwnMemory get_cell_geo-OwnMemory) (λ found.
        or_skip-OwnMemory found (λ cg. Keeps-outwards services rec _ (visit-Own services p rec _)))

  check_irsf-OwnMemory : OwnMemory (check_irsf services p rec)
  unfolding check_irsf
  check_irsf-OwnMemory = bind_memory (attempt-OwnMemory get_tariff-OwnMemory) (λ found.
      or_skip-OwnMemory found (λ ti. Keeps-outwards services rec _ (accrue-Own services p rec ti)))

  check_all-OwnMemory : OwnMemory (check_all services p rec)
  unfolding check_all
  check_all-OwnMemory =
      bind_memory (Keeps-outwards services rec _ (check_velocity-Own services p rec)) λ _.
        bind_memory check_impossible_travel-OwnMemory λ _.
          bind_memory check_irsf-OwnMemory
            λ _. Keeps-outwards services rec _ (mark_seen-Own services p rec)

-- Whatever fails, the handling of a record does nothing to the outside world but operations under
-- the record's own mark and its caller's keys in Redis, look-ups of its cell and its destination,
-- and alerts that are keyed by its caller.
pub handle-Touches :
    {F S E : Type 0} (go : Go F) (services : Services F S E) (p : Processor F) (rec : Cdr)
    (value : Str) (st : Memory F S)
    → services.unmarshal_cdr value ≡ ok rec
    → Touches services rec st.outside (handle ⦃go = go⦄ services p value st).0.outside
unfolding handle
handle-Touches go services p rec value st parsed = rw (parsed, handle) (whole.runs st)
  where
    whole : OwnMemory ⦃go = go⦄ services p rec (
        outwards (seen ⦃go = go⦄ services rec.record_id) >>= λ already.
        if already then pure tt else check_all ⦃go = go⦄ services p rec)
    whole =
        bind_memory ⦃go = go⦄ services p rec
          (Keeps-outwards services rec _ (seen-Own ⦃go = go⦄ services p rec))
          λ already.
            Keeps-if services rec (λ st. st.outside) already
              (idle_memory ⦃go = go⦄ services p rec (λ _. refl))
              (check_all-OwnMemory ⦃go = go⦄ services p rec)
