-- ===== src/Fraud/Cache/Freshness.antt =====
-- The cache against a log of the loads that succeeded, newest first, which forgets nothing.
use mathlib.Core.Path.{ap₂}
use go_cdr_fraud_detector.Base.{
  ◌≡◌, refl, ap, ◌∙◌, Bool, true, false, none, some, List, [], ◌∷◌, arith, if◌then◌else◌,
}
use go_cdr_fraud_detector.Base.Int.{ltb_ℤ}
use go_cdr_fraud_detector.Base.Text.{Str}
use go_cdr_fraud_detector.Base.Dict.{Dict, lookup, lookup-insert, lookup-cons}
use go_cdr_fraud_detector.Clock.{Time, Duration, sub_time}
use go_cdr_fraud_detector.Fraud.Cache.{Outcome, ok, err, RefCache, CacheEntry, new_ref_cache, get}

-- One call of `get`, with what the loader would return at that moment.
pub record Request (E V : Type 0) : Type 0 where
  pub key : Str
  pub now : Time
  pub load : Outcome E V

-- What a call returns, and whether it called the loader.
abbrev pub Answer : Type 0 → Type 0 → Type 0
Answer E V = Outcome E V × Bool

module _ {E V : Type 0} where
  unfoldable pub run : RefCache V → List (Request E V) → List (Answer E V)
  run c [] = []
  run c (r ∷ rs) = let (c', a, called) = get c r.key r.now r.load in (a, called) ∷ run c' rs

  -- The answer to a request: the latest successful load of the key if it is younger than the time
  -- to live, and otherwise what the loader returns now.
  abbrev pub answer : Duration → Dict (CacheEntry V) → Request E V → Answer E V
  answer ttl log r = elim (lookup r.key log) [
    | none ↦ (r.load, true)
    | some e ↦ if ltb_ℤ (sub_time r.now e.at) ttl then (ok e.val, false) else (r.load, true)
  ]

  -- A load that succeeds is noted, and nothing else.
  abbrev pub note : Dict (CacheEntry V) → Request E V → Answer E V → Dict (CacheEntry V)
  note log r (ok v, true) = (r.key, record { val = v; at = r.now }) ∷ log
  note log r _ = log

  unfoldable pub run_log : Duration → Dict (CacheEntry V) → List (Request E V) → List (Answer E V)
  run_log ttl log [] = []
  run_log ttl log (r ∷ rs) = let a = answer ttl log r in a ∷ run_log ttl (note log r a) rs

  abbrev request : Str → Time → Outcome E V → Request E V
  request key now load = record { key = key; now = now; load = load }

  answer_eq : {a b : Outcome E V} {x y : Bool} → a ≡ b → x ≡ y → ◌≡◌ {A = Answer E V} (a, x) (b, y)
  answer_eq p q = ground arith

  get-answer :
      (c : RefCache V) (key : Str) (now : Time) (load : Outcome E V)
      → (get c key now load).1 ≡ (answer c.ttl c.m (request key now load)).0
  unfolding get
  get-answer c key now (ok v) = ground arith
  get-answer c key now (err e) = ground arith

  get-called :
      (c : RefCache V) (key : Str) (now : Time) (load : Outcome E V)
      → (get c key now load).2 ≡ (answer c.ttl c.m (request key now load)).1
  unfolding get
  get-called c key now (ok v) = ground arith
  get-called c key now (err e) = ground arith

  get-m :
      (c : RefCache V) (key : Str) (now : Time) (load : Outcome E V) (k : Str)
      → let r = request key now load in
        (lookup k (get c key now load).0.m ≡ lookup k (note c.m r (answer c.ttl c.m r)))
        × ((get c key now load).0.ttl ≡ c.ttl)
  unfolding get
  get-m c key now (ok v) k = ground (
    arith,
    lookup-insert key k (record { val = v; at = now }) c.m,
    lookup-cons key k (record { val = v; at = now }) c.m,
  )
  get-m c key now (err e) k = ground arith

  answer_congr :
      (ttl : Duration) (m log : Dict (CacheEntry V)) (r : Request E V)
      → lookup r.key m ≡ lookup r.key log
      → answer ttl m r ≡ answer ttl log r
  answer_congr ttl m log r h = rw (h, answer)

  note_congr :
      (m log : Dict (CacheEntry V)) (r : Request E V) (a : Answer E V) (k : Str)
      → lookup k m ≡ lookup k log
      → lookup k (note m r a) ≡ lookup k (note log r a)
  note_congr m log r (ok v, true) k h =
      let e : CacheEntry V = record { val = v; at = r.now } in
      ground (arith, lookup-cons r.key k e m, lookup-cons r.key k e log)
  note_congr m log r _ k h = h

  -- The cache and the log hold the same value under every key.
  run-run_log :
      (c : RefCache V) (log : Dict (CacheEntry V)) (rs : List (Request E V))
      → ((k : Str) → lookup k c.m ≡ lookup k log)
      → run c rs ≡ run_log c.ttl log rs
  unfolding run run_log
  run-run_log c log [] h = refl
  run-run_log c log (r ∷ rs) h =
      let c' = (get c r.key r.now r.load).0 in
      let same = answer_congr c.ttl c.m log r (h r.key) in
      let head =
        answer_eq (get-answer c r.key r.now r.load) (get-called c r.key r.now r.load) ∙ same in
      let keys = λ (k : Str).
        (get-m c r.key r.now r.load k).0
        ∙ ap (λ a. lookup k (note c.m r a)) same
        ∙ note_congr c.m log r (answer c.ttl log r) k (h k) in
      ap₂ ◌∷◌ head (
        run-run_log c' (note log r (answer c.ttl log r)) rs keys
        ∙ ap (λ t. run_log t (note log r (answer c.ttl log r)) rs)
            (get-m c r.key r.now r.load r.key).1)

  -- A new cache answers any sequence of requests, and calls the loader, as a log does that keeps
  -- every successful load for ever: it reuses the latest load of the key while that is younger than
  -- the time to live, and never stores an error.
  pub run-new_ref_cache :
      (ttl : Duration) (rs : List (Request E V)) → run (new_ref_cache ttl) rs ≡ run_log ttl [] rs
  unfolding new_ref_cache
  run-new_ref_cache ttl rs = run-run_log (new_ref_cache ttl) [] rs (λ k. refl)
