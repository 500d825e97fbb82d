-- ===== src/Fraud/Windows.antt =====
-- services/fraud/window.go, spend.go and lastloc.go: the state in Redis.
pub mod SortedSets
pub mod Scores
pub mod Mirror
pub mod Spend
use go_cdr_fraud_detector.Base.{
  ℕ, zero, suc, ◌^◌, ◌==◌, Bool, Option, none, some, List, [], ◌∷◌, ◌++◌, if◌then◌else◌,
}
use go_cdr_fraud_detector.Base.Int.{ℤ, pos, negsuc, ltb_ℤ}
use go_cdr_fraud_detector.Base.Int64.{sub64, mul64}
use go_cdr_fraud_detector.Base.Text.{Str, codes}
use go_cdr_fraud_detector.Clock.{Duration}
use go_cdr_fraud_detector.Go.{Go, zero_f}
use go_cdr_fraud_detector.Fraud.Cache.{Outcome}
use go_cdr_fraud_detector.Fraud.Action.{Action, pure, ◌>>=◌}
use go_cdr_fraud_detector.Fraud.Services.{
  Services, z_add, z_rem_range_by_score, z_card, z_range, expire, Answer, number, members, LastLoc,
}

-- card.Val() and rangeCmd.Val(), of the command at an index; the zero value if there is none.
unfoldable pub card_val : ℕ → List Answer → ℤ
card_val zero (number n ∷ answers) = n
card_val (suc i) (_ ∷ answers) = card_val i answers
card_val _ _ = pos 0

unfoldable pub range_val : ℕ → List Answer → List Str
range_val zero (members ms ∷ answers) = ms
range_val (suc i) (_ ∷ answers) = range_val i answers
range_val _ _ = []

-- What follows the last `c` in a string, if `c` is in it.
unfoldable pub after_last : ℕ → Str → Option Str
after_last c [] = none
after_last c (x ∷ s) = elim (after_last c s) [
  | some t ↦ some t
  | none ↦ if x == c then some s else none
]

-- time.Duration(windowMs*2)*time.Millisecond
abbrev pub idle_ttl : ℤ → Duration
idle_ttl window_ms = mul64 (mul64 window_ms (pos 2)) (pos (10 ^ 6))

-- A call that does not touch the state.
abbrev pub returning : {S E A : Type 0} → Outcome E A → Action S E A
returning r s = (s, r)

module _ {F S E : Type 0} ⦃go : Go F⦄ (services : Services F S E) where
  unfoldable pub sliding_window_count : Str → ℤ → ℤ → Str → Action S E ℤ
  unfolding card_val
  sliding_window_count key event_ms window_ms record_id = do
    answers ← services.exec (
        z_add key (go.of_int event_ms) record_id
        ∷ z_rem_range_by_score key (codes "0") (go.show_int (sub64 event_ms window_ms))
        ∷ z_card key
        ∷ expire key (idle_ttl window_ms)
        ∷ [])
    pure (card_val 2 answers)

  unfoldable pub seen : Str → Action S E Bool
  seen record_id = do n ← services.count_keys (codes "seen:" ++ record_id); pure (ltb_ℤ (pos 0) n)

  unfoldable pub mark_seen : Str → Duration → Action S E (Unit {0})
  mark_seen record_id ttl = services.set_key (codes "seen:" ++ record_id) (codes "1") ttl

  -- The loop over the members.
  unfoldable pub sum_costs : List Str → F → F
  unfolding after_last
  sum_costs [] sum = sum
  sum_costs (m ∷ ms) sum = sum_costs ms (elim (after_last b'|' m) [
    | none ↦ sum
    | some text ↦ elim (go.parse_float text) [ none ↦ sum | some c ↦ go.plus sum c ]
  ])

  unfoldable pub premium_spend_in_window : Str → ℤ → ℤ → Str → F → Action S E F
  unfolding range_val sum_costs
  premium_spend_in_window key event_ms window_ms record_id cost = do
    answers ← services.exec (
        z_add key (go.of_int event_ms) (record_id ++ (codes "|" ++ go.fixed 4 cost))
        ∷ z_rem_range_by_score key (codes "0") (go.show_int (sub64 event_ms window_ms))
        ∷ z_range key (pos 0) (negsuc 0)
        ∷ expire key (idle_ttl window_ms)
        ∷ [])
    pure (sum_costs (range_val 2 answers) zero_f)

  unfoldable pub get_last_location : Str → Action S E (Option (LastLoc F))
  get_last_location msisdn = do
    text ← services.get_key (codes "lastloc:" ++ msisdn)
    elim text [
      | none ↦ pure none
      | some s ↦ returning (services.unmarshal_location s) >>= λ l. pure (some l)
    ]

  unfoldable pub set_last_location : Str → LastLoc F → Duration → Action S E (Unit {0})
  set_last_location msisdn l ttl = do
    b ← returning (services.marshal_location l)
    services.set_key (codes "lastloc:" ++ msisdn) b ttl
