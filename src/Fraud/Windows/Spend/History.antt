-- ===== src/Fraud/Windows/Spend/History.antt =====
-- The spend window in Redis against the whole history of a subscriber's premium calls.
use mathlib.Core.List.{Permᴰ}
use go_cdr_fraud_detector.Base.{
  ◌≡◌, refl, sym, ap, ◌∙◌, not, ◌&&◌, List, [], ◌∷◌, map, All, keep, inl, inr, arith, Bool,
}
use go_cdr_fraud_detector.Base.Dict.{Dict, insert, erase, keys}
use go_cdr_fraud_detector.Base.Int.{ℤ, pos, negsuc}
use go_cdr_fraud_detector.Base.Int64.{sub64}
use go_cdr_fraud_detector.Base.Text.{Str, codes, str_eq}
use go_cdr_fraud_detector.Fraud.Action.{◌>>=◌}
use go_cdr_fraud_detector.Fraud.Cache.{Outcome, ok, Outcome-cases}
use go_cdr_fraud_detector.Fraud.Services.{
  Services, Command, z_add, z_rem_range_by_score, z_range, expire,
}
use go_cdr_fraud_detector.Fraud.Windows.{premium_spend_in_window, sum_costs, range_val, idle_ttl}
use go_cdr_fraud_detector.Fraud.Windows.Scores.{
  IsTime, scored, insert-IsTime, insert-scored, keep-scored,
}
use go_cdr_fraud_detector.Fraud.Windows.SortedSets.{
  HasSortedSets, IsExact, ComparesExactly, effects, IsWindow, expire_lem,
}
use go_cdr_fraud_detector.Fraud.Windows.Spend.{Premium, PrintsCosts, member}
use go_cdr_fraud_detector.Go.{Go, zero_f}
use go_cdr_fraud_detector.Playground.Windows.{live}

module _ {F : Type 0} (go : Go F) where
  -- The entry of a call in the set.
  abbrev pub entry : Premium F → Str × ℤ
  entry e = (member go e, e.ms)

  -- Every call of a history, except where a later one has the same record and the same cost in print.
  unfoldable pub latest_calls : List (Premium F) → List (Premium F) → List (Premium F)
  latest_calls seen [] = seen
  latest_calls seen (e ∷ h) =
      latest_calls (e ∷ keep (λ d. not (str_eq (member go d) (member go e))) seen) h

  -- The calls that are newer than the window before the call `e`.
  abbrev pub in_window : ℤ → Premium F → List (Premium F) → List (Premium F)
  in_window window_ms e = keep (λ d. live (sub64 e.ms window_ms) (entry d))

  erase-entry :
      (k : Str) (es : List (Premium F))
      → erase k (map entry es) ≡ map entry (keep (λ d. not (str_eq (member go d) k)) es)
  unfolding erase
  erase-entry k [] = refl
  erase-entry k (e ∷ es) = ground (arith, erase-entry k es)

  pub keep-entry :
      (p : Str × ℤ → Bool) (es : List (Premium F))
      → keep p (map entry es) ≡ map entry (keep (λ e. p (entry e)) es)
  keep-entry p [] = refl
  keep-entry p (e ∷ es) = ground (arith, keep-entry p es)

  pub insert-entry :
      (e : Premium F) (es : List (Premium F))
      → insert (member go e) e.ms (map entry es)
        ≡ map entry (e ∷ keep (λ d. not (str_eq (member go d) (member go e))) es)
  unfolding insert
  insert-entry e es = ap (λ w. entry e ∷ w) (erase-entry (member go e) es)

  pub keys-scored : (w : Dict ℤ) → keys (scored go w) ≡ keys w
  unfolding scored
  keys-scored [] = refl
  keys-scored (e ∷ w) = ap (λ ks. e.0 ∷ ks) (keys-scored w)

  pub keys-entry : (es : List (Premium F)) → keys (map entry es) ≡ map (member go) es
  keys-entry [] = refl
  keys-entry (e ∷ es) = ap (λ ks. member go e ∷ ks) (keys-entry es)

  -- The call and its cutoff are exact.
  abbrev pub InRange : ℤ → Str × ℤ → Type 0
  InRange win e = IsTime e × IsExact (sub64 e.1 win)

-- ZRANGE from 0 to -1 returns all members, in some order.
abbrev pub RangesAll :
    {F S E : Type 0} {go : Go F} {services : Services F S E} → HasSortedSets go services → Type 0
RangesAll {F} sets = (z : Dict F) → Permᴰ (sets.reading.range (pos 0) (negsuc 0) z) (keys z)

module _ {F S E : Type 0} (go : Go F) (exact : ComparesExactly go) (prints : PrintsCosts go)
    (services : Services F S E) (sets : HasSortedSets go services) (ranges : RangesAll sets)
    (key : Str) (win : ℤ) where
  abbrev pub spend : Premium F → S → S × Outcome E F
  spend e = premium_spend_in_window ⦃go = go⦄ services key e.ms win e.record_id e.cost

  -- The transaction of premiumSpendInWindow.
  abbrev commands : Premium F → List (Command F)
  commands e =
      z_add key (go.of_int e.ms) (member go e)
      ∷ z_rem_range_by_score key (codes "0") (go.show_int (sub64 e.ms win))
      ∷ z_range key (pos 0) (negsuc 0)
      ∷ expire key (idle_ttl win)
      ∷ []

  -- The commands before EXPIRE.
  abbrev trims : Premium F → List (Command F)
  trims e =
      z_add key (go.of_int e.ms) (member go e)
      ∷ z_rem_range_by_score key (codes "0") (go.show_int (sub64 e.ms win))
      ∷ z_range key (pos 0) (negsuc 0)
      ∷ []

  trims-effects :
      (e : Premium F) (w : Dict ℤ)
      → InRange go win (entry go e)
      → All IsTime w
      → effects go sets.reading (trims e) (scored go w)
        ≡ scored go (keep (live (sub64 e.ms win)) (insert (member go e) e.ms w))
  trims-effects e w range times =
      let c = sub64 e.ms win in
      let z = insert (member go e) (go.of_int e.ms) (scored go w) in
      let left : F → F → Dict F → Dict F =
        λ lo hi y. keep (λ d. not (go.le lo d.1 && go.le d.1 hi)) y in
      ap (λ lo. left lo (sets.reading.score_of (go.show_int c)) z) sets.zero_bound
      ∙ ap (λ hi. left (go.of_int (pos 0)) hi z) (sets.int_bound c)
      ∙ ap (left (go.of_int (pos 0)) (go.of_int c)) (insert-scored go (member go e) e.ms w)
      ∙ keep-scored go exact c (insert (member go e) e.ms w) range.1
          (insert-IsTime (member go e) e.ms w range.0 times)

  -- The members that the transaction replies.
  abbrev pub members_of : Dict F → List Str
  members_of z = sets.reading.range (pos 0) (negsuc 0) z

  -- What a call that succeeds returns, and the set that it leaves.
  pub spend-zset :
      (e : Premium F) (x : F) (w : Dict ℤ) (s : S)
      → IsWindow win
      → sets.zset key s ≡ scored go w
      → InRange go win (entry go e)
      → All IsTime w
      → (spend e s).1 ≡ ok x
      → let left = keep (live (sub64 e.ms win)) (insert (member go e) e.ms w) in
        (x ≡ sum_costs ⦃go = go⦄ services (members_of (scored go left)) (zero_f ⦃go = go⦄))
        × (sets.zset key (spend e s).0 ≡ scored go left)
  unfolding premium_spend_in_window ◌>>=◌ range_val
  spend-zset e x w s wide same range times good =
      let cs = commands e in
      elim (Outcome-cases (services.exec cs s).1) [
        | inr (failure, bad) ↦
            absurd (ground (arith, rw (bad, premium_spend_in_window, ◌>>=◌) at good))
        | inl (answers, done) ↦
            let (replied, left) =
              sets.executed key cs s answers (refl, (refl, (refl, (refl, tt)))) done in
            let trimmed =
              ap (effects go sets.reading (trims e)) same ∙ trims-effects e w range times in
            let found : sum_costs ⦃go = go⦄ services (range_val 2 answers) (zero_f ⦃go = go⦄) ≡ x =
              ground (arith, rw (done, premium_spend_in_window, ◌>>=◌) at good) in
            let summed = λ (ms : List Str). sum_costs ⦃go = go⦄ services ms (zero_f ⦃go = go⦄) in
            (
              sym found
                  ∙ ap (λ a. summed (range_val 2 a)) replied
                  ∙ ap (λ (z : Dict F). summed (members_of z)) trimmed,
              rw (done, premium_spend_in_window, ◌>>=◌)
                  (left
                    ∙ expire_lem win (effects go sets.reading (trims e) (sets.zset key s)) wide
                    ∙ trimmed),
            )
      ]
