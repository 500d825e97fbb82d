-- ===== src/Fraud/Windows/Mirror.antt =====
-- The window that the fraud service keeps in Redis against the one that the playground keeps in a map.
use go_cdr_fraud_detector.Base.{
  ℕ, suc, ◌≡◌, refl, sym, ap, ◌∙◌, not, ◌&&◌, none, List, [], ◌∷◌, ◌++◌, All, keep, length, inl,
  inr, arith,
}
use go_cdr_fraud_detector.Base.Int.{ℤ, pos}
use go_cdr_fraud_detector.Base.Int64.{sub64}
use go_cdr_fraud_detector.Base.Text.{Str, codes}
use go_cdr_fraud_detector.Base.Dict.{Dict, lookup, insert, Distinct, insert-Distinct}
use go_cdr_fraud_detector.Go.{Go, Order}
use go_cdr_fraud_detector.Go.Laws.{VisitsAll}
use go_cdr_fraud_detector.Playground.{Engine, window_of, velocity_count}
use go_cdr_fraud_detector.Playground.Windows.{live, keep-Distinct}
use go_cdr_fraud_detector.Playground.Velocity.{window-velocity_count, window_of-insert, deliver}
use go_cdr_fraud_detector.Fraud.Action.{◌>>=◌}
use go_cdr_fraud_detector.Fraud.Cache.{ok, Outcome-cases}
use go_cdr_fraud_detector.Fraud.Services.{
  Services, Command, z_add, z_rem_range_by_score, z_card, expire,
}
use go_cdr_fraud_detector.Fraud.Windows.{sliding_window_count, card_val, idle_ttl}
use go_cdr_fraud_detector.Fraud.Windows.Scores.{
  IsTime, scored, keep-IsTime, insert-IsTime, insert-scored, length-scored, keep-scored,
}
use go_cdr_fraud_detector.Fraud.Windows.SortedSets.{
  HasSortedSets, IsExact, ComparesExactly, effects, IsWindow, expire_lem,
}

module _ {F S E : Type 0} (go : Go F) (exact : ComparesExactly go) (services : Services F S E)
    (sets : HasSortedSets go services) (caller : Str) where
  abbrev pub velocity_key : Str
  velocity_key = codes "velocity:" ++ caller

  -- The window of the engine, as a sorted set, is what Redis holds.
  pub record Agrees (e : Engine F) (s : S) : Type 0 where
    pub same : sets.zset velocity_key s ≡ scored go (window_of caller e.vel_win)
    pub distinct : Distinct (window_of caller e.vel_win)
    pub times : All IsTime (window_of caller e.vel_win)

  -- The record and its cutoff are exact.
  abbrev pub InRange : ℤ → Str × ℤ → Type 0
  InRange win (id, ms) = IsTime (id, ms) × IsExact (sub64 ms win)

  -- The transaction of slidingWindowCount.
  abbrev commands : Str → Str → ℤ → ℤ → List (Command F)
  commands key id ms win =
      z_add key (go.of_int ms) id
      ∷ z_rem_range_by_score key (codes "0") (go.show_int (sub64 ms win))
      ∷ z_card key
      ∷ expire key (idle_ttl win)
      ∷ []

  -- The commands before EXPIRE.
  abbrev trims : Str → Str → ℤ → ℤ → List (Command F)
  trims key id ms win =
      z_add key (go.of_int ms) id
      ∷ z_rem_range_by_score key (codes "0") (go.show_int (sub64 ms win))
      ∷ z_card key
      ∷ []

  trims-effects :
      (key id : Str) (ms win : ℤ) (w : Dict ℤ)
      → InRange win (id, ms)
      → All IsTime w
      → effects go sets.reading (trims key id ms win) (scored go w)
        ≡ scored go (keep (live (sub64 ms win)) (insert id ms w))
  trims-effects key id ms win w range times =
      let c = sub64 ms win in
      let z = insert id (go.of_int ms) (scored go w) in
      let left : F → F → Dict F → Dict F =
        λ lo hi y. keep (λ e. not (go.le lo e.1 && go.le e.1 hi)) y in
      ap (λ lo. left lo (sets.reading.score_of (go.show_int c)) z) sets.zero_bound
      ∙ ap (λ hi. left (go.of_int (pos 0)) hi z) (sets.int_bound c)
      ∙ ap (left (go.of_int (pos 0)) (go.of_int c)) (insert-scored go id ms w)
      ∙ keep-scored go exact c (insert id ms w) range.1 (insert-IsTime id ms w range.0 times)

  -- What a call that succeeds returns, and the set that it leaves.
  count-zset :
      (key id : Str) (ms win n : ℤ) (w : Dict ℤ) (s : S)
      → IsWindow win
      → sets.zset key s ≡ scored go w
      → InRange win (id, ms)
      → All IsTime w
      → (sliding_window_count ⦃go = go⦄ services key ms win id s).1 ≡ ok n
      → let left = keep (live (sub64 ms win)) (insert id ms w) in
        (n ≡ pos (length left))
        × (sets.zset key (sliding_window_count ⦃go = go⦄ services key ms win id s).0
            ≡ scored go left)
  unfolding sliding_window_count ◌>>=◌ card_val
  count-zset key id ms win n w s wide same range times good =
      let cs = commands key id ms win in
      elim (Outcome-cases (services.exec cs s).1) [
        | inr (e, bad) ↦ absurd (ground (arith, rw (bad, sliding_window_count, ◌>>=◌) at good))
        | inl (answers, done) ↦
            let (replied, left) =
              sets.executed key cs s answers (refl, (refl, (refl, (refl, tt)))) done in
            let trimmed =
              ap (effects go sets.reading (trims key id ms win)) same
              ∙ trims-effects key id ms win w range times in
            let found : card_val 2 answers ≡ n =
              ground (arith, rw (done, sliding_window_count, ◌>>=◌) at good) in
            (
              sym found
                  ∙ ap (card_val 2) replied
                  ∙ ap (λ (z : Dict F). pos (length z)) trimmed
                  ∙ ap pos (length-scored go (keep (live (sub64 ms win)) (insert id ms w))),
              rw (done, sliding_window_count, ◌>>=◌)
                  (left
                    ∙ expire_lem win
                        (effects go sets.reading (trims key id ms win) (sets.zset key s)) wide
                    ∙ trimmed),
            )
      ]

  -- Calls that succeed, oldest first. In between other things may happen that leave the set as it is.
  pub data Fed (win : ℤ) : S → List (Str × ℤ) → S → Type 0 where
    rests : {s t : S} → sets.zset velocity_key t ≡ sets.zset velocity_key s → Fed win s [] t
    calls :
        {s r t : S} {id : Str} {ms n : ℤ} {h : List (Str × ℤ)}
        → sets.zset velocity_key r ≡ sets.zset velocity_key s
        → (sliding_window_count ⦃go = go⦄ services velocity_key ms win id r).1 ≡ ok n
        → Fed win (sliding_window_count ⦃go = go⦄ services velocity_key ms win id r).0 h t
        → Fed win s ((id, ms) ∷ h) t

  -- A call with a call of the engine.
  step-Agrees :
      (e : Engine F) (s : S) (id : Str) (ms n win : ℤ) (order : Order)
      → VisitsAll order
      → IsWindow win
      → e.window_ms ≡ win
      → Agrees e s
      → InRange win (id, ms)
      → (sliding_window_count ⦃go = go⦄ services velocity_key ms win id s).1 ≡ ok n
      → (n ≡ (velocity_count e caller id ms order).1)
        × ((velocity_count e caller id ms order).0.window_ms ≡ win)
        × Agrees
            (velocity_count e caller id ms order).0
            (sliding_window_count ⦃go = go⦄ services velocity_key ms win id s).0
  step-Agrees e s id ms n win order visits wide set_to agrees range good =
      let w = window_of caller e.vel_win in
      let left = keep (live (sub64 ms win)) (insert id ms w) in
      let (counted, set) =
        count-zset velocity_key id ms win n w s wide agrees.same range agrees.times good in
      rw (window-velocity_count e caller id ms order visits agrees.distinct, set_to)
        (
          counted,
          refl,
          record {
            same = set ∙ ap (scored go) (sym (window_of-insert caller left e.vel_win));
            distinct =
                rw (window_of-insert caller left e.vel_win)
                  (keep-Distinct _ (insert id ms w) (insert-Distinct id ms w agrees.distinct));
            times =
                rw (window_of-insert caller left e.vel_win)
                  (keep-IsTime _ (insert id ms w) (insert-IsTime id ms w range.0 agrees.times));
          },
        )

  Agrees-same :
      (e : Engine F) (s r : S)
      → sets.zset velocity_key r ≡ sets.zset velocity_key s
      → Agrees e s
      → Agrees e r
  Agrees-same e s r same agrees = record {
    same = same ∙ agrees.same;
    distinct = agrees.distinct;
    times = agrees.times;
  }

  -- A history, and a call that follows it.
  Fed-count :
      (orders : ℕ → Order) (order : Order) (e : Engine F) (s t : S) (h : List (Str × ℤ)) (id : Str)
      (ms n win : ℤ)
      → ((k : ℕ) → VisitsAll (orders k))
      → VisitsAll order
      → IsWindow win
      → e.window_ms ≡ win
      → Agrees e s
      → All (InRange win) (h ++ (id, ms) ∷ [])
      → Fed win s h t
      → (sliding_window_count ⦃go = go⦄ services velocity_key ms win id t).1 ≡ ok n
      → n ≡ (velocity_count (deliver orders e caller h) caller id ms order).1
  unfolding deliver
  Fed-count orders order e s t [] id ms n win all visits wide set_to agrees range (rests same)
        good =
      (step-Agrees e t id ms n win order visits wide set_to (Agrees-same e s t same agrees) range.0
        good).0
  Fed-count orders order e s t ((id', ms') ∷ h) id ms n win all visits wide set_to agrees range
        (calls {r = r} {n = n'} same done run) good =
      let (counted, set_to', agrees') =
        step-Agrees e r id' ms' n' win (orders 0) (all 0) wide set_to
          (Agrees-same e s r same agrees) range.0 done in
      Fed-count (λ k. orders (suc k)) order (velocity_count e caller id' ms' (orders 0)).0
        (sliding_window_count ⦃go = go⦄ services velocity_key ms' win id' r).0 t h id ms n win
        (λ k. all (suc k)) visits wide set_to' agrees' range.1 run good

  -- slidingWindowCount over Redis and velocityCount of the playground agree. After the same records of
  -- one subscriber, with an empty window at first, a further call that succeeds returns the number that
  -- the playground counts, whichever orders its loops take. The window is at least a millisecond and at
  -- most 4,611,686,018,427; the transactions are taken to execute as Redis documents and not to be
  -- undone by the end of the time to live, each loop to visit every key once, and the times to be after
  -- 1970 and, like their cutoffs, exact in float64.
  pub sliding_window_count-velocity_count :
      (orders : ℕ → Order) (order : Order) (e : Engine F) (s t : S) (h : List (Str × ℤ)) (id : Str)
      (ms n : ℤ)
      → ((k : ℕ) → VisitsAll (orders k))
      → VisitsAll order
      → IsWindow e.window_ms
      → lookup caller e.vel_win ≡ none
      → sets.zset velocity_key s ≡ []
      → All (InRange e.window_ms) (h ++ (id, ms) ∷ [])
      → Fed e.window_ms s h t
      → (sliding_window_count ⦃go = go⦄ services velocity_key ms e.window_ms id t).1 ≡ ok n
      → n ≡ (velocity_count (deliver orders e caller h) caller id ms order).1
  unfolding window_of scored
  sliding_window_count-velocity_count orders order e s t h id ms n all visits wide fresh empty range
        run good =
      Fed-count orders order e s t h id ms n e.window_ms all visits wide refl
        (record {
          same = rw (fresh, window_of) empty;
          distinct = rw (fresh, window_of) tt;
          times = rw (fresh, window_of) tt;
        })
        range run good
