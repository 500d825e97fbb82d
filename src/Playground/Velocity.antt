-- ===== src/Playground/Velocity.antt =====
-- The velocity window against the whole history of a subscriber's records.
use go_cdr_fraud_detector.Base.{
  ℕ, suc, ◌≡◌, sym, ap, subst, ◌∙◌, Bool, not, ◌&&◌, none, List, [], ◌∷◌, ◌++◌, All, keep,
  keep-keep, keep_congr, length, arith,
}
use go_cdr_fraud_detector.Base.Int.{ℤ, pos, ◌≤ℤ◌, ◌-ℤ◌, int_laws}
use go_cdr_fraud_detector.Base.Int64.{sub64, sub64_of_InInt64, InInt64, min_int64, wrap64-InInt64}
use go_cdr_fraud_detector.Base.Text.{Str, str_eq, str_eq_refl}
use go_cdr_fraud_detector.Base.Dict.{
  Dict, lookup, insert, erase, keys, Distinct, insert-Distinct, lookup-insert, insert-insert,
}
use go_cdr_fraud_detector.Go.{Order}
use go_cdr_fraud_detector.Go.Laws.{VisitsAll}
use go_cdr_fraud_detector.Playground.{Engine, window_of, velocity_count}
use go_cdr_fraud_detector.Playground.Windows.{live, erase-keep, trim-live, keep-Distinct, All-of}

erase-keep_comm :
    (k : Str) (p : Str × ℤ → Bool) (w : Dict ℤ) → erase k (keep p w) ≡ keep p (erase k w)
erase-keep_comm k p w =
    erase-keep k (keep p w)
    ∙ keep-keep (λ e. not (str_eq e.0 k)) p w
    ∙ keep_congr (λ e. p e && not (str_eq e.0 k)) (λ e. not (str_eq e.0 k) && p e) w
        (All-of (λ e. ground arith) w)
    ∙ sym (keep-keep p (λ e. not (str_eq e.0 k)) w)
    ∙ ap (keep p) (sym (erase-keep k w))

keep-live-live : (c d : ℤ) (w : Dict ℤ) → c ≤ℤ d → keep (live d) (keep (live c) w) ≡ keep (live d) w
keep-live-live c d w h =
    keep-keep (live d) (live c) w
    ∙ keep_congr (λ e. live c e && live d e) (live d) w (All-of (λ e. ground arith) w)

-- Dropping stale entries before an insertion changes nothing that a later cutoff leaves.
pub keep-insert :
    (c d : ℤ) (id : Str) (ms : ℤ) (w : Dict ℤ)
    → c ≤ℤ d
    → keep (live d) (insert id ms (keep (live c) w)) ≡ keep (live d) (insert id ms w)
unfolding insert
keep-insert c d id ms w h =
    let rest : keep (live d) (erase id (keep (live c) w)) ≡ keep (live d) (erase id w) =
      ap (keep (live d)) (erase-keep_comm id (live c) w) ∙ keep-live-live c d (erase id w) h in
    ground (arith, rest)

module _ {F : Type 0} where
  pub window-velocity_count :
      (e : Engine F) (caller id : Str) (ms : ℤ) (order : Order)
      → VisitsAll order
      → Distinct (window_of caller e.vel_win)
      → let w = keep (live (sub64 ms e.window_ms)) (insert id ms (window_of caller e.vel_win)) in
        velocity_count e caller id ms order
        ≡ (record e { vel_win = insert caller w e.vel_win }, pos (length w))
  unfolding velocity_count
  window-velocity_count e caller id ms order visits d =
      let w = insert id ms (window_of caller e.vel_win) in
      rw (
        trim-live (sub64 ms e.window_ms) (order (keys w)) w
          (insert-Distinct id ms (window_of caller e.vel_win) d) (visits (keys w)))

-- The records of one subscriber, oldest first, as they are counted, with the orders that their loops
-- take one after the other.
unfoldable pub deliver : {F : Type 0} → (ℕ → Order) → Engine F → Str → List (Str × ℤ) → Engine F
deliver orders e caller [] = e
deliver orders e caller ((id, ms) ∷ h) =
    deliver (λ n. orders (suc n)) (velocity_count e caller id ms (orders 0)).0 caller h

-- Every record of a history, with the time of its latest delivery; nothing is ever dropped.
unfoldable pub latest : Dict ℤ → List (Str × ℤ) → Dict ℤ
latest w [] = w
latest w ((id, ms) ∷ h) = latest (insert id ms w) h

-- The event times do not fall, and subtracting the window from them stays inside int64.
abbrev pub Chronological : ℤ → List (Str × ℤ) → Type 0
Chronological win [] = Unit
Chronological win (a ∷ h) = InInt64 (a.1 -ℤ win) × All (λ b. a.1 ≤ℤ b.1) h × Chronological win h

abbrev pub Above : ℤ → ℤ → List (Str × ℤ) → Type 0
Above win c = All λ b. c ≤ℤ sub64 b.1 win

cutoff_mono :
    (win a b : ℤ) → InInt64 (a -ℤ win) → InInt64 (b -ℤ win) → a ≤ℤ b → sub64 a win ≤ℤ sub64 b win
cutoff_mono win a b ha hb h =
    rw (sub64_of_InInt64 a win ha, sub64_of_InInt64 b win hb) (omega int_laws)

pub Above-head :
    (win a : ℤ) (h : List (Str × ℤ))
    → InInt64 (a -ℤ win)
    → All (λ b. a ≤ℤ b.1) h
    → Chronological win h
    → Above win (sub64 a win) h
Above-head win a [] r below ch = tt
Above-head win a (b ∷ h) r below ch =
    (cutoff_mono win a b.1 r ch.0 below.0, Above-head win a h r below.1 ch.2)

pub min_int64-Above : (win : ℤ) (h : List (Str × ℤ)) → Above win min_int64 h
unfolding sub64
min_int64-Above win = All-of λ b. (wrap64-InInt64 (b.1 -ℤ win)).0

pub window_of-insert :
    (caller : Str) (w : Dict ℤ) (m : Dict (Dict ℤ)) → window_of caller (insert caller w m) ≡ w
unfolding window_of
window_of-insert caller w m = ground (arith, lookup-insert caller caller w m, str_eq_refl caller)

module _ {F : Type 0} (caller : Str) where
  -- The window of `e` holds what the cutoff `c` leaves of the records `seen`.
  record Holds (e : Engine F) (c : ℤ) (seen : Dict ℤ) : Type 0 where
    distinct : Distinct seen
    window : window_of caller e.vel_win ≡ keep (live c) seen

  counted :
      (e : Engine F) (c : ℤ) (seen : Dict ℤ) (id : Str) (ms : ℤ) (order : Order)
      → VisitsAll order
      → Holds e c seen
      → c ≤ℤ sub64 ms e.window_ms
      → let left = keep (live (sub64 ms e.window_ms)) (insert id ms seen) in
        velocity_count e caller id ms order
        ≡ (record e { vel_win = insert caller left e.vel_win }, pos (length left))
  counted e c seen id ms order visits holds h =
      let left = keep (live (sub64 ms e.window_ms)) (insert id ms (window_of caller e.vel_win)) in
      let same : left ≡ keep (live (sub64 ms e.window_ms)) (insert id ms seen) =
        ap (λ w. keep (live (sub64 ms e.window_ms)) (insert id ms w)) holds.window
        ∙ keep-insert c (sub64 ms e.window_ms) id ms seen h in
      window-velocity_count e caller id ms order visits
        (subst Distinct (sym holds.window) (keep-Distinct (live c) seen holds.distinct))
      ∙ ap
          (λ (w : Dict ℤ).
            let r : Engine F × ℤ =
              (record e { vel_win = insert caller w e.vel_win }, pos (length w)) in
            r)
          same

  count-deliver :
      (orders : ℕ → Order) (order : Order) (e : Engine F) (c : ℤ) (seen : Dict ℤ)
      (h : List (Str × ℤ)) (id : Str) (ms : ℤ)
      → ((n : ℕ) → VisitsAll (orders n))
      → VisitsAll order
      → Holds e c seen
      → Above e.window_ms c (h ++ (id, ms) ∷ [])
      → Chronological e.window_ms (h ++ (id, ms) ∷ [])
      → (velocity_count (deliver orders e caller h) caller id ms order).1
        ≡ pos (length (keep (live (sub64 ms e.window_ms)) (latest seen (h ++ (id, ms) ∷ []))))
  unfolding deliver latest
  count-deliver orders order e c seen [] id ms all visits holds above ch =
      ap (λ (r : Engine F × ℤ). r.1) (counted e c seen id ms order visits holds above.0)
  count-deliver orders order e c seen ((id', ms') ∷ h) id ms all visits holds above ch =
      let step = counted e c seen id' ms' (orders 0) (all 0) holds above.0 in
      rw step (
        count-deliver (λ n. orders (suc n)) order
          (record e {
            vel_win =
                insert caller (keep (live (sub64 ms' e.window_ms)) (insert id' ms' seen)) e.vel_win;
          })
          (sub64 ms' e.window_ms) (insert id' ms' seen) h id ms (λ n. all (suc n)) visits
          (record {
            distinct = insert-Distinct id' ms' seen holds.distinct;
            window = window_of-insert caller _ e.vel_win;
          })
          (Above-head e.window_ms ms' (h ++ (id, ms) ∷ []) ch.0 ch.1 ch.2) ch.2)

  -- For records of a subscriber without a window that arrive in the order of their times, none so
  -- early that the subtraction of the window overflows, the count is the number of distinct record
  -- ids whose latest delivery is newer than the window before the current record.
  -- The loop of each count may take another order; it is taken to visit every key once.
  pub velocity_count-deliver :
      (orders : ℕ → Order) (order : Order) (e : Engine F) (h : List (Str × ℤ)) (id : Str) (ms : ℤ)
      → ((n : ℕ) → VisitsAll (orders n))
      → VisitsAll order
      → lookup caller e.vel_win ≡ none
      → Chronological e.window_ms (h ++ (id, ms) ∷ [])
      → (velocity_count (deliver orders e caller h) caller id ms order).1
        ≡ pos (length (keep (live (sub64 ms e.window_ms)) (latest [] (h ++ (id, ms) ∷ []))))
  unfolding window_of
  velocity_count-deliver orders order e h id ms all visits fresh ch =
      count-deliver orders order e min_int64 [] h id ms all visits
        (record { distinct = tt; window = rw (fresh, window_of) })
        (min_int64-Above e.window_ms (h ++ (id, ms) ∷ [])) ch

  -- In a window without a repeated key, a record that is counted again at once leaves the count and
  -- the engine as they are, in whichever orders the two loops visit every key once.
  pub velocity_count_again :
      (e : Engine F) (id : Str) (ms : ℤ) (order again : Order)
      → VisitsAll order
      → VisitsAll again
      → Distinct (window_of caller e.vel_win)
      → velocity_count (velocity_count e caller id ms order).0 caller id ms again
        ≡ velocity_count e caller id ms order
  velocity_count_again e id ms order again visits visits' d =
      let c = sub64 ms e.window_ms in
      let seen = insert id ms (window_of caller e.vel_win) in
      let left = keep (live c) seen in
      let e' : Engine F = record e { vel_win = insert caller left e.vel_win } in
      let holds : Holds e' c seen = record {
        distinct = insert-Distinct id ms (window_of caller e.vel_win) d;
        window = window_of-insert caller left e.vel_win;
      } in
      rw (window-velocity_count e caller id ms order visits d) (
        counted e' c seen id ms again visits' holds (omega arith)
        ∙ rw (insert-insert id ms ms (window_of caller e.vel_win))
            (rw (insert-insert caller left left e.vel_win)))
