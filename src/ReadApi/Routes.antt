-- ===== src/ReadApi/Routes.antt =====
-- The answer to GET /alerts.
use go_cdr_fraud_detector.Base.{
  ℕ, suc, ◌≤◌, ◌≡◌, refl, ap, subst, Option, none, some, ◌⊎◌, inl, inr, List, [], ◌∷◌, length,
  arith,
}
use go_cdr_fraud_detector.Base.Text.{codes}
use go_cdr_fraud_detector.Cdr.{FraudAlert}
use go_cdr_fraud_detector.Fraud.Cache.{Outcome, ok, err, Outcome-cases}
use go_cdr_fraud_detector.ReadApi.{
  Services, Rows, scan_rows, finish_rows, recent_alerts, get_alerts, text, alerts_json,
}

-- LIMIT, as Postgres documents it.
pub record Limits {F S E P : Type 0} (services : Services F S E P) : Type 0 where
  pub at_most :
      (pool : P) (n : ℕ) (s : S) (rows : Rows F E)
      → (services.query_recent pool n s).1 ≡ ok rows
      → length rows.scanned ≤ n

-- Every row reads as an alert, in this order.
pub data Reads {E A : Type 0} : List (Outcome E A) → List A → Type 0 where
  no_rows : Reads [] []
  row :
      {a : A} {rows : List (Outcome E A)} {alerts : List A}
      → Reads rows alerts
      → Reads (ok a ∷ rows) (a ∷ alerts)

-- The query, the scan of each row and the end of the rows succeed, and the rows are `alerts`.
pub record Listed {F S E P : Type 0} (services : Services F S E P) (pool : P) (s : S)
    (alerts : List (FraudAlert F)) : Type 0 where
  pub rows : Rows F E
  pub queried : (services.query_recent pool 100 s).1 ≡ ok rows
  pub each : Reads rows.scanned alerts
  pub ended : rows.failed ≡ none

Reads-length :
    {E A : Type 0} {rows : List (Outcome E A)} {alerts : List A}
    → Reads rows alerts
    → length rows ≡ length alerts
Reads-length no_rows = refl
Reads-length (row h) = ap suc (Reads-length h)

scan_rows-Reads :
    {F E : Type 0} (rows : List (Outcome E (FraudAlert F))) (alerts : List (FraudAlert F))
    → scan_rows rows ≡ ok alerts
    → Reads rows alerts
unfolding scan_rows
scan_rows-Reads [] [] h = no_rows
scan_rows-Reads [] (a ∷ alerts) h = cc
scan_rows-Reads (err e ∷ rows) alerts h = cc
scan_rows-Reads {F} {E} (ok a ∷ rows) alerts h = elim (Outcome-cases (scan_rows rows)) [
  | inr (e, bad) ↦ absurd (ground (arith, bad))
  | inl (rest, good) ↦
      subst (λ l. Reads (ok a ∷ rows) l) (ground (arith, good, h))
        (row (scan_rows-Reads rows rest good))
]

Reads-scan_rows :
    {F E : Type 0} {rows : List (Outcome E (FraudAlert F))} {alerts : List (FraudAlert F)}
    → Reads rows alerts
    → scan_rows rows ≡ ok alerts
unfolding scan_rows
Reads-scan_rows no_rows = refl
Reads-scan_rows (row h) = rw (Reads-scan_rows h) refl

finish_rows-ok :
    {F E : Type 0} (failed : Option E) (r : Outcome E (List (FraudAlert F)))
    (alerts : List (FraudAlert F))
    → finish_rows failed r ≡ ok alerts
    → (failed ≡ none) × (r ≡ ok alerts)
unfolding finish_rows
finish_rows-ok failed (err e) alerts h = cc
finish_rows-ok none (ok l) alerts h = (refl, h)
finish_rows-ok (some e) (ok l) alerts h = cc

module _ {F S E P : Type 0} (services : Services F S E P) (pool : P) (s : S) where
  recent_alerts-Listed :
      (alerts : List (FraudAlert F))
      → (recent_alerts services pool 100 s).1 ≡ ok alerts
      → Listed services pool s alerts
  unfolding recent_alerts
  recent_alerts-Listed alerts h = elim (Outcome-cases (services.query_recent pool 100 s).1) [
    | inr (e, bad) ↦ absurd (ground (arith, bad))
    | inl (rows, good) ↦
        let (ended, scanned) =
          finish_rows-ok rows.failed (scan_rows rows.scanned) alerts (rw good at h) in
        record {
          rows = rows;
          queried = good;
          each = scan_rows-Reads rows.scanned alerts scanned;
          ended = ended;
        }
  ]

  Listed-recent_alerts :
      {alerts : List (FraudAlert F)}
      → Listed services pool s alerts
      → (recent_alerts services pool 100 s).1 ≡ ok alerts
  unfolding recent_alerts finish_rows
  Listed-recent_alerts h = rw (h.queried, Reads-scan_rows h.each, h.ended) refl

-- GET /alerts, if Postgres keeps to LIMIT: either some of the query, the reading of a row and the end of
-- the rows fails, and the answer is 500 with "query failed"; or all succeed, and the answer is 200 with
-- exactly the rows, in their order, and their number, which is 100 at most.
pub get_alerts-Listed :
    {F S E P : Type 0} (services : Services F S E P) (pool : P) (s : S)
    → Limits services
    → (((get_alerts services pool s).1
          ≡ record { status = 500; body = text (codes "query failed") })
        × ((alerts : List (FraudAlert F)) → ¬ Listed services pool s alerts))
      ⊎ ((alerts : List (FraudAlert F)) × ((get_alerts services pool s).1
            ≡ record { status = 200; body = alerts_json (length alerts) alerts })
          × Listed services pool s alerts
          × (length alerts ≤ 100))
unfolding get_alerts
get_alerts-Listed services pool s limits =
    elim (Outcome-cases (recent_alerts services pool 100 s).1) [
      | inr (e, bad) ↦ inl (
        rw (bad, get_alerts) refl,
        λ alerts h. let no = Listed-recent_alerts services pool s h in cc,
      )
      | inl (alerts, good) ↦
          let h = recent_alerts-Listed services pool s alerts good in
          inr (
            alerts,
            rw (good, get_alerts) refl,
            h,
            subst (λ n. n ≤ 100) (Reads-length h.each) (limits.at_most pool 100 s h.rows h.queried),
          )
    ]
