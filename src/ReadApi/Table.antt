-- ===== src/ReadApi/Table.antt =====
-- The table fraud_alerts as Postgres documents it: its primary key is (record_id, rule), and an
-- insertion with ON CONFLICT DO NOTHING leaves a row with that key as it is.
use go_cdr_fraud_detector.Base.{
  ◌≡◌, refl, Bool, true, false, ◌&&◌, ◌||◌, none, some, List, [], ◌∷◌, ◌++◌, All, ◌⊎◌, inl, inr,
  arith, if◌then◌else◌, Bool-cases,
}
use go_cdr_fraud_detector.Base.Text.{str_eq, str_eq_refl}
use go_cdr_fraud_detector.Cdr.{FraudAlert}
use go_cdr_fraud_detector.Fraud.Services.{Fetched}
use go_cdr_fraud_detector.ReadApi.{Services, insert_alert}

module _ {F : Type 0} where
  abbrev pub same_key : FraudAlert F → FraudAlert F → Bool
  same_key a b = str_eq a.record_id b.record_id && str_eq a.rule b.rule

  unfoldable pub has_key : FraudAlert F → List (FraudAlert F) → Bool
  has_key a [] = false
  has_key a (b ∷ rows) = same_key b a || has_key a rows

  unfoldable pub insert_new : FraudAlert F → List (FraudAlert F) → List (FraudAlert F)
  unfolding has_key
  insert_new a rows = if has_key a rows then rows else a ∷ rows

  -- The table after a sequence of alerts.
  unfoldable pub upserts : List (FraudAlert F) → List (FraudAlert F) → List (FraudAlert F)
  upserts [] rows = rows
  upserts (a ∷ as') rows = upserts as' (insert_new a rows)

  -- No two rows have one key.
  abbrev pub Unique : List (FraudAlert F) → Type 0
  Unique [] = Unit
  Unique (a ∷ rows) = (has_key a rows ≡ false) × Unique rows

  pub insert_new-Unique :
      (a : FraudAlert F) (rows : List (FraudAlert F)) → Unique rows → Unique (insert_new a rows)
  unfolding insert_new
  insert_new-Unique a rows u = elim (Bool-cases (has_key a rows)) [
    | inl old ↦ rw (old, insert_new) u
    | inr new ↦ rw (new, insert_new) (new, u)
  ]

  pub has_key-insert_new :
      (a b : FraudAlert F) (rows : List (FraudAlert F))
      → has_key b rows ≡ true
      → has_key b (insert_new a rows) ≡ true
  unfolding insert_new has_key
  has_key-insert_new a b rows h = ground arith

  pub has_key_self :
      (a : FraudAlert F) (rows : List (FraudAlert F)) → has_key a (insert_new a rows) ≡ true
  unfolding insert_new has_key
  has_key_self a rows = ground (arith, str_eq_refl a.record_id, str_eq_refl a.rule)

  pub insert_again :
      (a : FraudAlert F) (rows : List (FraudAlert F))
      → has_key a rows ≡ true
      → insert_new a rows ≡ rows
  unfolding insert_new
  insert_again a rows h = rw (h, insert_new) refl

  pub upserts-Unique : (as' rows : List (FraudAlert F)) → Unique rows → Unique (upserts as' rows)
  unfolding upserts
  upserts-Unique [] rows u = u
  upserts-Unique (a ∷ as') rows u =
      upserts-Unique as' (insert_new a rows) (insert_new-Unique a rows u)

  pub has_key-upserts :
      (b : FraudAlert F) (as' rows : List (FraudAlert F))
      → has_key b rows ≡ true
      → has_key b (upserts as' rows) ≡ true
  unfolding upserts
  has_key-upserts b [] rows h = h
  has_key-upserts b (a ∷ as') rows h =
      has_key-upserts b as' (insert_new a rows) (has_key-insert_new a b rows h)

  pub upserts-All :
      (as' rows : List (FraudAlert F)) → All (λ a. has_key a (upserts as' rows) ≡ true) as'
  unfolding upserts
  upserts-All [] rows = tt
  upserts-All (a ∷ as') rows = (
    has_key-upserts a as' (insert_new a rows) (has_key_self a rows),
    upserts-All as' (insert_new a rows),
  )

  -- Alerts whose keys are there change nothing.
  pub upserts_again :
      (as' rows : List (FraudAlert F))
      → All (λ a. has_key a rows ≡ true) as'
      → upserts as' rows ≡ rows
  unfolding upserts
  upserts_again [] rows h = refl
  upserts_again (a ∷ as') rows h = rw (insert_again a rows h.0) (upserts_again as' rows h.1)

  pub upserts-append :
      (as' bs rows : List (FraudAlert F)) → upserts (as' ++ bs) rows ≡ upserts bs (upserts as' rows)
  unfolding upserts
  upserts-append [] bs rows = refl
  upserts-append (a ∷ as') bs rows = upserts-append as' bs (insert_new a rows)

-- What the service relies on: the rows of the table in some order, newest first. A failed insertion
-- may have taken effect all the same. Nothing else that the service does changes the table.
pub record HasTable {F S E P : Type 0} (services : Services F S E P) (pool : P) : Type 0 where
  pub rows : S → List (FraudAlert F)
  pub insert_ok :
      (a : FraudAlert F) (s : S)
      → (services.exec pool (insert_alert a) s).1 ≡ none
      → rows (services.exec pool (insert_alert a) s).0 ≡ insert_new a (rows s)
  pub insert_err :
      (a : FraudAlert F) (s : S) (e : E)
      → (services.exec pool (insert_alert a) s).1 ≡ some e
      → (rows (services.exec pool (insert_alert a) s).0 ≡ rows s)
        ⊎ (rows (services.exec pool (insert_alert a) s).0 ≡ insert_new a (rows s))
  pub fetched : (s : S) → rows (services.fetch s).0 ≡ rows s
  pub committed : (m : Fetched) (s : S) → rows (services.commit m s).0 ≡ rows s
  pub paused : (s : S) → rows (services.pause s).0 ≡ rows s
