-- ===== src/Fraud/Windows/Spend/Total.antt =====
-- What premiumSpendInWindow returns after a history of calls.
use mathlib.Core.List.{Permᴰ}
use go_cdr_fraud_detector.Base.{◌≡◌, sym, ap, subst, ◌∙◌, not, List, [], ◌∷◌, ◌++◌, map, All, keep}
use go_cdr_fraud_detector.Base.Dict.{Dict, insert, keys}
use go_cdr_fraud_detector.Base.Int.{ℤ, pos, negsuc, ◌≤ℤ◌}
use go_cdr_fraud_detector.Base.Int64.{sub64, min_int64}
use go_cdr_fraud_detector.Base.Text.{Str, str_eq}
use go_cdr_fraud_detector.Fraud.Cache.{ok}
use go_cdr_fraud_detector.Fraud.Services.{Services}
use go_cdr_fraud_detector.Fraud.Windows.{premium_spend_in_window, sum_costs}
use go_cdr_fraud_detector.Fraud.Windows.Scores.{IsTime, scored, keep-IsTime, insert-IsTime}
use go_cdr_fraud_detector.Fraud.Windows.SortedSets.{HasSortedSets, ComparesExactly, IsWindow}
use go_cdr_fraud_detector.Fraud.Windows.Spend.{
  Premium, PrintsCosts, member, IsSpend, sum_costs-IsSpend,
}
use go_cdr_fraud_detector.Fraud.Windows.Spend.History.{
  entry, latest_calls, in_window, InRange, RangesAll, spend-zset, insert-entry, keep-entry,
  keys-scored, keys-entry,
}
use go_cdr_fraud_detector.Go.{Go, zero_f}
use go_cdr_fraud_detector.Playground.Velocity.{
  keep-insert, Chronological, Above, Above-head, min_int64-Above,
}
use go_cdr_fraud_detector.Playground.Windows.{live}

module _ {F S E : Type 0} (go : Go F) (exact : ComparesExactly go) (prints : PrintsCosts go)
    (services : Services F S E) (sets : HasSortedSets go services) (ranges : RangesAll sets)
    (key : Str) (win : ℤ) where
  -- Calls that succeed, oldest first. In between other things may happen that leave the set as it is.
  pub data Spent : S → List (Premium F) → S → Type 0 where
    rests : {s t : S} → sets.zset key t ≡ sets.zset key s → Spent s [] t
    calls :
        {s r t : S} {e : Premium F} {x : F} {h : List (Premium F)}
        → sets.zset key r ≡ sets.zset key s
        → (premium_spend_in_window ⦃go = go⦄ services key e.ms win e.record_id e.cost r).1 ≡ ok x
        → Spent (premium_spend_in_window ⦃go = go⦄ services key e.ms win e.record_id e.cost r).0 h t
        → Spent s (e ∷ h) t

  -- The calls after one more.
  abbrev with_call : List (Premium F) → Premium F → List (Premium F)
  with_call seen e = e ∷ keep (λ d. not (str_eq (member go d) (member go e))) seen

  abbrev members : Dict ℤ → List Str
  members w = sets.reading.range (pos 0) (negsuc 0) (scored go w)

  abbrev summed : Dict ℤ → F
  summed w = sum_costs ⦃go = go⦄ services (members w) (zero_f ⦃go = go⦄)

  -- The set holds what the cutoff `c` leaves of the calls `seen`.
  record Left (c : ℤ) (seen : List (Premium F)) (s : S) : Type 0 where
    same : sets.zset key s ≡ scored go (keep (live c) (map (entry go) seen))
    times : All IsTime (map (entry go) seen)

  step-Left :
      (c : ℤ) (seen : List (Premium F)) (s : S) (e : Premium F) (x : F)
      → IsWindow win
      → Left c seen s
      → c ≤ℤ sub64 e.ms win
      → InRange go win (entry go e)
      → (premium_spend_in_window ⦃go = go⦄ services key e.ms win e.record_id e.cost s).1 ≡ ok x
      → IsSpend go prints x (in_window go win e (with_call seen e))
        × Left
            (sub64 e.ms win)
            (with_call seen e)
            (premium_spend_in_window ⦃go = go⦄ services key e.ms win e.record_id e.cost s).0
  step-Left c seen s e x wide held below range good =
      let c' = sub64 e.ms win in
      let w = map (entry go) seen in
      let (returned, set) =
        spend-zset go exact prints services sets ranges key win e x (keep (live c) w) s wide
          held.same range (keep-IsTime (live c) w held.times) good in
      let now = keep (live c') (map (entry go) (with_call seen e)) in
      let left : keep (live c') (insert (member go e) e.ms (keep (live c) w)) ≡ now =
        keep-insert c c' (member go e) e.ms w below
        ∙ ap (keep (live c')) (insert-entry go e seen) in
      let order : Permᴰ (members now) (map (member go) (in_window go win e (with_call seen e))) =
        subst (Permᴰ (members now))
          (keys-scored go now
            ∙ ap keys (keep-entry go (live c') (with_call seen e))
            ∙ keys-entry go (in_window go win e (with_call seen e)))
          (ranges (scored go now)) in
      (
        subst (λ y. IsSpend go prints y (in_window go win e (with_call seen e)))
            (sym (returned ∙ ap summed left)) (sum_costs-IsSpend go prints services _ _ order),
        record {
          same = set ∙ ap (scored go) left;
          times =
              subst (All IsTime) (insert-entry go e seen)
                (insert-IsTime (member go e) e.ms w range.0 held.times);
        },
      )

  Left-same :
      (c : ℤ) (seen : List (Premium F)) (s r : S)
      → sets.zset key r ≡ sets.zset key s
      → Left c seen s
      → Left c seen r
  Left-same c seen s r same held = record { same = same ∙ held.same; times = held.times }

  -- A history, and a call that follows it.
  Spent-IsSpend :
      (c : ℤ) (seen : List (Premium F)) (s t : S) (h : List (Premium F)) (e : Premium F) (x : F)
      → IsWindow win
      → Left c seen s
      → Above win c (map (entry go) (h ++ e ∷ []))
      → Chronological win (map (entry go) (h ++ e ∷ []))
      → All (InRange go win) (map (entry go) (h ++ e ∷ []))
      → Spent s h t
      → (premium_spend_in_window ⦃go = go⦄ services key e.ms win e.record_id e.cost t).1 ≡ ok x
      → IsSpend go prints x (in_window go win e (latest_calls go seen (h ++ e ∷ [])))
  unfolding latest_calls
  Spent-IsSpend c seen s t [] e x wide held above ch range (rests same) good =
      (step-Left c seen t e x wide (Left-same c seen s t same held) above.0 range.0 good).0
  Spent-IsSpend c seen s t (d ∷ h) e x wide held above ch range
        (calls {r = r} {x = y} same done run) good =
      let (_, next) =
        step-Left c seen r d y wide (Left-same c seen s r same held) above.0 range.0 done in
      Spent-IsSpend (sub64 d.ms win) (with_call seen d) _ t h e x wide next
        (Above-head win d.ms (map (entry go) (h ++ e ∷ [])) ch.0 ch.1 ch.2) ch.2 range.1 run good

  -- After chronological calls of premiumSpendInWindow that succeeded, from an empty window, a further
  -- call that succeeds returns the sum, in some order, of the costs, as printed with four decimals, of
  -- the calls of the history and this one that are newer than the window, where of the calls with the
  -- same record and the same printed cost only the latest counts. The window is at least a millisecond
  -- and at most 4,611,686,018,427; the transactions are taken to execute as Redis documents and not to be
  -- undone by the end of the time to live, printed costs to parse, and the times to be after 1970 and,
  -- like their cutoffs, exact in float64.
  pub premium_spend_in_window-IsSpend :
      (s t : S) (h : List (Premium F)) (e : Premium F) (x : F)
      → IsWindow win
      → sets.zset key s ≡ []
      → Chronological win (map (entry go) (h ++ e ∷ []))
      → All (InRange go win) (map (entry go) (h ++ e ∷ []))
      → Spent s h t
      → (premium_spend_in_window ⦃go = go⦄ services key e.ms win e.record_id e.cost t).1 ≡ ok x
      → IsSpend go prints x (in_window go win e (latest_calls go [] (h ++ e ∷ [])))
  unfolding scored
  premium_spend_in_window-IsSpend s t h e x wide empty ch range run good =
      Spent-IsSpend min_int64 [] s t h e x wide (record { same = empty; times = tt })
        (min_int64-Above win (map (entry go) (h ++ e ∷ []))) ch range run good
