-- ===== src/ReadApi/Consume.antt =====
-- The table after a run of consumeAlerts.
use go_cdr_fraud_detector.Base.{
  ℕ, zero, suc, ◌≡◌, refl, sym, ap, ◌∙◌, true, none, some, List, [], ◌∷◌, ◌++◌, All, ◌⊎◌, inl, inr,
  arith, Option-cases, Bool-cases,
}
use go_cdr_fraud_detector.Cdr.{FraudAlert}
use go_cdr_fraud_detector.Fraud.Cache.{Outcome, ok, err}
use go_cdr_fraud_detector.Fraud.Services.{Fetched}
use go_cdr_fraud_detector.ReadApi.{
  Services, store_alert, store_retry, Storing, stored, shut_down, pending, commit_stored,
  consume_message, consume_round, goes_on,
}
use go_cdr_fraud_detector.ReadApi.Table.{
  HasTable, insert_new, insert_again, has_key_self, has_key, upserts, upserts-Unique, upserts-All,
  upserts_again, upserts-append, Unique,
}

module _ {F S E P : Type 0} (services : Services F S E P) (pool : P)
    (table : HasTable services pool) where
  -- Before or after the insertion of `a` into `old`.
  abbrev Around : FraudAlert F → List (FraudAlert F) → S → Type 0
  Around a old t = (table.rows t ≡ old) ⊎ (table.rows t ≡ insert_new a old)

  insert-Around :
      (a : FraudAlert F) (old : List (FraudAlert F)) (t : S)
      → Around a old t
      → insert_new a (table.rows t) ≡ insert_new a old
  insert-Around a old t (inl before) = ap (insert_new a) before
  insert-Around a old t (inr after) =
      ap (insert_new a) after ∙ insert_again a (insert_new a old) (has_key_self a old)

  store_err :
      (a : FraudAlert F) (old : List (FraudAlert F)) (t : S) (e : E)
      → Around a old t
      → (store_alert services pool a t).1 ≡ some e
      → Around a old (store_alert services pool a t).0
  unfolding store_alert
  store_err a old t e h bad = elim (table.insert_err a t e bad) [
    | inl same ↦ elim h [ inl before ↦ inl (same ∙ before) | inr after ↦ inr (same ∙ after) ]
    | inr done ↦ inr (done ∙ insert-Around a old t h)
  ]

  store_retry-rows :
      (a : FraudAlert F) (old : List (FraudAlert F)) (fuel : ℕ) (t : S)
      → Around a old t
      → (store_retry services pool a fuel t).1 ≡ stored
      → table.rows (store_retry services pool a fuel t).0 ≡ insert_new a old
  unfolding store_retry
  store_retry-rows a old zero t h ends = cc
  store_retry-rows a old (suc fuel) t h ends =
      elim (Option-cases (store_alert services pool a t).1) [
        | inl good ↦ rw (good, store_retry) (inserted good)
        | inr (e, bad) ↦ elim (Bool-cases (services.cancelled (store_alert services pool a t).0)) [
          | inl gone ↦ absurd (ground (arith, rw (bad, gone, store_retry) at ends))
          | inr live ↦ elim (Bool-cases (services.pause (store_alert services pool a t).0).1) [
            | inl done ↦ absurd (ground (arith, rw (bad, live, done, store_retry) at ends))
            | inr on ↦
                rw (bad, live, on, store_retry)
                  (store_retry-rows a old fuel (services.pause (store_alert services pool a t).0).0
                    (paused (store_alert services pool a t).0 (store_err a old t e h bad))
                    (rw (bad, live, on, store_retry) at ends))
          ]
        ]
      ]
    where
      inserted :
          (store_alert services pool a t).1 ≡ none
          → table.rows (store_alert services pool a t).0 ≡ insert_new a old
      inserted good = unfold store_alert in table.insert_ok a t good ∙ insert-Around a old t h

      paused : (u : S) → Around a old u → Around a old (services.pause u).0
      paused u (inl before) = inl (table.paused u ∙ before)
      paused u (inr after) = inr (table.paused u ∙ after)

  -- The alert of a message, if it is one.
  abbrev pub parsed : Fetched → List (FraudAlert F)
  parsed m = elim (services.unmarshal_alert m.value) [ ok a ↦ a ∷ [] | err e ↦ [] ]

  consume_message-rows :
      (fuel : ℕ) (m : Fetched) (s : S)
      → (consume_message services pool fuel m s).1 ≡ goes_on
      → table.rows (consume_message services pool fuel m s).0 ≡ upserts (parsed m) (table.rows s)
  unfolding consume_message upserts
  consume_message-rows fuel m s on = split (services.unmarshal_alert m.value) refl
    where
      committed :
          (a : FraudAlert F) (r : S × Storing)
          → (r.1 ≡ stored → table.rows r.0 ≡ insert_new a (table.rows s))
          → (commit_stored services m r).1 ≡ goes_on
          → table.rows (commit_stored services m r).0 ≡ insert_new a (table.rows s)
      committed a (t, stored) h _ = unfold commit_stored in (table.committed m t ∙ h refl)
      committed a (t, shut_down) h e = absurd (unfold commit_stored in (ground (arith, e)))
      committed a (t, pending) h e = absurd (unfold commit_stored in (ground (arith, e)))

      split :
          (r : Outcome E (FraudAlert F))
          → services.unmarshal_alert m.value ≡ r
          → table.rows (consume_message services pool fuel m s).0
            ≡ upserts (parsed m) (table.rows s)
      split (err e) bad = rw (bad, consume_message, upserts) (table.committed m s)
      split (ok a) good =
          rw (good, consume_message, upserts)
            (committed a (store_retry services pool a fuel s)
              (store_retry-rows a (table.rows s) fuel s (inl refl))
              (rw (good, consume_message) at on))

  -- Rounds of the loop, each with fuel of its own, and the alerts that were read in them.
  pub data Consumes : S → List (FraudAlert F) → S → Type 0 where
    rests : {s : S} → Consumes s [] s
    misses :
        {s t : S} {as' : List (FraudAlert F)} {e : E} (fuel : ℕ)
        → (services.fetch s).1 ≡ err e
        → (consume_round services pool fuel s).1 ≡ goes_on
        → Consumes (consume_round services pool fuel s).0 as' t
        → Consumes s as' t
    reads :
        {s t : S} {as' all : List (FraudAlert F)} {m : Fetched} (fuel : ℕ)
        → (services.fetch s).1 ≡ ok m
        → (consume_round services pool fuel s).1 ≡ goes_on
        → Consumes (consume_round services pool fuel s).0 as' t
        → all ≡ parsed m ++ as'
        → Consumes s all t

  round_read :
      (fuel : ℕ) (m : Fetched) (s : S)
      → (services.fetch s).1 ≡ ok m
      → (consume_round services pool fuel s).1 ≡ goes_on
      → table.rows (consume_round services pool fuel s).0 ≡ upserts (parsed m) (table.rows s)
  unfolding consume_round
  round_read fuel m s got on =
      rw (got, consume_round)
        (consume_message-rows fuel m (services.fetch s).0 (rw (got, consume_round) at on)
          ∙ ap (upserts (parsed m)) (table.fetched s))

  round_missed :
      (fuel : ℕ) (e : E) (s : S)
      → (services.fetch s).1 ≡ err e
      → table.rows (consume_round services pool fuel s).0 ≡ table.rows s
  unfolding consume_round
  round_missed fuel e s bad = rw (bad, consume_round) (table.fetched s)

  consumed :
      {s t : S} {as' : List (FraudAlert F)}
      → Consumes s as' t
      → table.rows t ≡ upserts as' (table.rows s)
  unfolding upserts
  consumed rests = refl
  consumed {s} {t} {as'} (misses {e} fuel bad on rest) =
      consumed rest ∙ ap (upserts as') (round_missed fuel e s bad)
  consumed {s} {t} (reads {as'} {m} fuel got on rest split) =
      consumed rest
      ∙ ap (upserts as') (round_read fuel m s got on)
      ∙ sym (upserts-append (parsed m) as' (table.rows s))
      ∙ ap (λ l. upserts l (table.rows s)) (sym split)

  -- However often the statements fail, also after taking effect: after a run of the loop from a table
  -- with unique keys, the table is what the alerts that were read make of it one after the other, each
  -- as a new row unless its key is there; the keys are still unique, and every alert has a row.
  pub Consumes-upserts :
      (s t : S) (as' : List (FraudAlert F))
      → Unique (table.rows s)
      → Consumes s as' t
      → (table.rows t ≡ upserts as' (table.rows s))
        × Unique (table.rows t)
        × All (λ a. has_key a (table.rows t) ≡ true) as'
  Consumes-upserts s t as' u run =
      let same = consumed run in
      (
        same,
        rw same (upserts-Unique as' (table.rows s) u),
        rw same (upserts-All as' (table.rows s)),
      )

  -- Alerts that are delivered a second time leave the table as the first delivery did.
  pub Consumes-again :
      (s t u : S) (as' : List (FraudAlert F))
      → Consumes s as' t
      → Consumes t as' u
      → table.rows u ≡ table.rows t
  Consumes-again s t u as' first second =
      consumed second
      ∙ upserts_again as' (table.rows t) (rw (consumed first) (upserts-All as' (table.rows s)))
