-- ===== src/Tests/Spend.antt =====
-- Premium calls over the Redis of one sorted set.
use go_cdr_fraud_detector.Base.{◌≡◌, refl, some, [], ◌∷◌, map, All, arith}
use go_cdr_fraud_detector.Base.Dict.{Dict, insert, erase}
use go_cdr_fraud_detector.Base.Int.{pos, negsuc, ◌*ℤ◌, ◌-ℤ◌, ◌+ℤ◌}
use go_cdr_fraud_detector.Base.Int64.{mul64, sub64, wrap64}
use go_cdr_fraud_detector.Base.Split.{Without}
use go_cdr_fraud_detector.Base.Text.{Str, codes, str_eq}
use go_cdr_fraud_detector.Fraud.Action.{◌>>=◌}
use go_cdr_fraud_detector.Fraud.Cache.{ok}
use go_cdr_fraud_detector.Fraud.Windows.{premium_spend_in_window, range_val, sum_costs, after_last}
use go_cdr_fraud_detector.Fraud.Windows.Spend.{Premium, PrintsCosts, member, IsSpend}
use go_cdr_fraud_detector.Fraud.Windows.Spend.History.{entry, latest_calls, in_window, InRange}
use go_cdr_fraud_detector.Fraud.Windows.Spend.Total.{
  Spent, rests, calls, premium_spend_in_window-IsSpend,
}
use go_cdr_fraud_detector.Go.Sample.{Fixed}
use go_cdr_fraud_detector.Playground.Velocity.{Chronological}
use go_cdr_fraud_detector.Tests.Windows.{
  print_code, read_code, shown, shown-ComparesExactly, one_set, one_set-HasSortedSets,
  one_set-RangesAll, no_spend,
}

print_code-Without : (x : Fixed) → Without b'|' (print_code x)
print_code-Without (pos n) = ground arith
print_code-Without (negsuc n) = ground arith

read-print_code : (x : Fixed) → read_code (print_code x) ≡ some x
read-print_code (pos n) = ground arith
read-print_code (negsuc n) = ground arith

pub shown-PrintsCosts : PrintsCosts shown
shown-PrintsCosts = record {
  rounded = λ x. x;
  fixed-Without = λ x. print_code-Without x;
  parse-fixed = λ x. read-print_code x;
}

abbrev five : Premium Fixed
five = record { record_id = codes "r1"; ms = pos 1_000; cost = pos 5 }

abbrev seven : Premium Fixed
seven = record { record_id = codes "r2"; ms = pos 2_000; cost = pos 7 }

-- The first call, delivered again.
abbrev five_again : Premium Fixed
five_again = record { record_id = codes "r1"; ms = pos 3_000; cost = pos 5 }

abbrev spend_key : Str
spend_key = codes "spend:bob"

abbrev after_five : Dict Fixed
after_five = (member shown five, shown.of_int (pos 1_000)) ∷ []

abbrev after_seven : Dict Fixed
after_seven = (member shown seven, shown.of_int (pos 2_000)) ∷ after_five

spent :
    Spent shown shown-ComparesExactly shown-PrintsCosts one_set one_set-HasSortedSets
      one_set-RangesAll spend_key
      (pos 60_000)
      []
      (five ∷ seven ∷ [])
      after_seven
unfolding premium_spend_in_window ◌>>=◌ range_val sum_costs after_last insert erase str_eq ◌*ℤ◌
    mul64 sub64 wrap64 ◌-ℤ◌ ◌+ℤ◌
spent =
    calls {r = []} {x = pos 5} refl refl
      (calls {r = after_five} {x = pos 12} refl refl (rests refl))

third :
    (premium_spend_in_window ⦃go = shown⦄ one_set spend_key
      (pos 3_000)
      (pos 60_000)
      (codes "r1")
      (pos 5)
      after_seven).1
    ≡ ok (pos 12)
unfolding premium_spend_in_window ◌>>=◌ range_val sum_costs after_last insert erase str_eq ◌*ℤ◌
    mul64 sub64 wrap64 ◌-ℤ◌ ◌+ℤ◌
third = refl

ordered : Chronological (pos 60_000) (map (entry shown) (five ∷ seven ∷ five_again ∷ []))
unfolding ◌-ℤ◌
ordered = ground arith

in_range : All (InRange shown (pos 60_000)) (map (entry shown) (five ∷ seven ∷ five_again ∷ []))
unfolding sub64 wrap64 ◌-ℤ◌
in_range = omega arith

premium_spend_in_window-IsSpend_example : IsSpend shown shown-PrintsCosts (pos 12) (
    in_window shown
      (pos 60_000)
      five_again
      (latest_calls shown [] (five ∷ seven ∷ five_again ∷ [])))
premium_spend_in_window-IsSpend_example =
    premium_spend_in_window-IsSpend shown shown-ComparesExactly shown-PrintsCosts one_set
      one_set-HasSortedSets one_set-RangesAll spend_key (pos 60_000) [] after_seven
      (five ∷ seven ∷ []) five_again (pos 12) (omega arith) no_spend ordered in_range spent third
