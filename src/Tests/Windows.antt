-- ===== src/Tests/Windows.antt =====
-- A Redis that holds one sorted set.
use go_cdr_fraud_detector.Base.{
  ◌+◌, ◌-◌, Option, some, All, ◌==◌, ◌≡◌, refl, none, List, [], ◌∷◌, ◌++◌, false, if◌then◌else◌,
  arith,
}
use go_cdr_fraud_detector.Base.Int.{ℤ, pos, negsuc, ◌*ℤ◌, ◌-ℤ◌, leb_ℤ}
use go_cdr_fraud_detector.Base.Int64.{mul64, sub64, wrap64}
use go_cdr_fraud_detector.Base.Text.{Str, codes, str_eq}
use go_cdr_fraud_detector.Base.Dict.{Dict, lookup, insert, erase, keys}
use go_cdr_fraud_detector.Go.{Go}
use go_cdr_fraud_detector.Go.Sample.{unit, Fixed, sample, in_order, in_order-VisitsAll}
use go_cdr_fraud_detector.Playground.{Engine, new_engine, velocity_count}
use go_cdr_fraud_detector.Playground.Velocity.{deliver}
use go_cdr_fraud_detector.Fraud.Cache.{Outcome, ok, err}
use go_cdr_fraud_detector.Fraud.Action.{◌>>=◌}
use go_cdr_fraud_detector.Fraud.Services.{Services}
use go_cdr_fraud_detector.Fraud.Processor.Reference.{AsksSubscriber}
use go_cdr_fraud_detector.Subscriber
use go_cdr_fraud_detector.Subscriber.{Reply, reply, not_found}
use go_cdr_fraud_detector.Fraud.Windows.{sliding_window_count, card_val}
use go_cdr_fraud_detector.Fraud.Windows.SortedSets.{
  Reading, HasSortedSets, ComparesExactly, effects, replies,
}
use go_cdr_fraud_detector.Fraud.Windows.Spend.History.{RangesAll}
use mathlib.Core.List.Permᴰ
use go_cdr_fraud_detector.Fraud.Windows.Mirror.{
  InRange, Fed, rests, calls, sliding_window_count-velocity_count,
}

abbrev show_sign : ℤ → Str
show_sign (pos n) = b'+' ∷ n ∷ []
show_sign (negsuc n) = b'-' ∷ n ∷ []

-- A number that is printed as a sign and one code, which is no bar.
abbrev pub print_code : ℤ → Str
print_code (pos n) = b'+' ∷ (200 + n) ∷ []
print_code (negsuc n) = b'-' ∷ (200 + n) ∷ []

abbrev pub read_code : Str → Option Fixed
read_code (sign ∷ code ∷ []) = some (if sign == b'+' then pos (code - 200) else negsuc (code - 200))
read_code s = none

abbrev pub shown : Go Fixed
shown = record sample {
  show_int = λ n. show_sign n;
  fixed = λ digits x. print_code x;
  parse_float = λ s. read_code s;
}

scaled : (a b : ℤ) → leb_ℤ (a *ℤ pos unit) (b *ℤ pos unit) ≡ leb_ℤ a b
unfolding ◌*ℤ◌
scaled a b = ground arith

pub shown-ComparesExactly : ComparesExactly shown
shown-ComparesExactly = λ a b _ _. scaled a b

abbrev read_sign : Str → Fixed
read_sign [] = pos 0
read_sign (sign ∷ []) = pos 0
read_sign (sign ∷ n ∷ rest) = shown.of_int (if sign == b'+' then pos n else negsuc n)

abbrev reading : Reading Fixed
reading = record { score_of = read_sign; range = λ from to z. keys z }

-- What a gRPC client makes of the reply of a handler.
abbrev pub received : {A : Type 0} → Reply A → Outcome Str A
received (reply a) = ok a
received (not_found text) = err text

pub received-reply : {A : Type 0} (r : Reply A) (a : A) → received r ≡ ok a → r ≡ reply a
received-reply (reply b) a h = ground (arith, h)
received-reply (not_found text) a h = absurd (ground (arith, h))

-- The state is the set.
abbrev down : Str
down = codes "unavailable"

abbrev pub one_set : Services Fixed (Dict Fixed) Str
one_set = record {
  count_keys = λ key s. (s, ok (pos 0));
  get_key = λ key s. (s, err down);
  set_key = λ key value ttl s. (s, ok tt);
  exec = λ commands z. (effects shown reading commands z, ok (replies shown reading commands z));
  get_cell = λ timeout id s. (s, received (Subscriber.get_cell ⦃go = shown⦄ id));
  get_tariff = λ timeout dest s. (s, received (Subscriber.get_tariff ⦃go = shown⦄ dest));
  write_alert = λ m s. (s, ok tt);
  write_dlq = λ m s. (s, err down);
  fetch = λ s. (s, err down);
  commit = λ m s. (s, err down);
  now = λ s. pos 0;
  cancelled = λ s. false;
  pause = λ d s. (s, false);
  error_text = λ e. e;
  unmarshal_cdr = λ value. err down;
  marshal_alert = λ a. ok a.evidence;
  marshal_location = λ l. err down;
  unmarshal_location = λ text. err down;
}

pub one_set-HasSortedSets : HasSortedSets shown one_set
unfolding ◌*ℤ◌
one_set-HasSortedSets = record {
  reading = reading;
  zset = λ key z. z;
  executed = λ key cs z answers on done. (ground (arith, done), refl);
  zero_bound = refl;
  int_bound = λ n. read_shown n;
}
  where
    read_shown : (n : ℤ) → read_sign (show_sign n) ≡ shown.of_int n
    read_shown (pos n) = refl
    read_shown (negsuc n) = refl

-- A window of a minute, two calls within it, and the first one again.
abbrev engine : Engine Fixed
engine = record (new_engine ⦃go = shown⦄) { window_ms = pos 60_000 }

abbrev pub bob : Str
bob = codes "bob"

abbrev pub earlier : List (Str × ℤ)
earlier = (codes "r1", pos 1_000) ∷ (codes "r2", pos 2_000) ∷ []

abbrev after_first : Dict Fixed
after_first = (codes "r1", shown.of_int (pos 1_000)) ∷ []

abbrev pub after_second : Dict Fixed
after_second = (codes "r2", shown.of_int (pos 2_000)) ∷ after_first

pub fed :
    Fed shown shown-ComparesExactly one_set one_set-HasSortedSets bob
      (pos 60_000)
      []
      earlier
      after_second
unfolding sliding_window_count ◌>>=◌ card_val insert erase str_eq ◌*ℤ◌ mul64 sub64 wrap64 ◌-ℤ◌
fed =
    calls {r = []} {n = pos 1} refl refl
      (calls {r = after_first} {n = pos 2} refl refl (rests refl))

third :
    (sliding_window_count ⦃go = shown⦄ one_set
      (codes "velocity:bob")
      (pos 3_000)
      (pos 60_000)
      (codes "r1")
      after_second).1
    ≡ ok (pos 2)
unfolding sliding_window_count ◌>>=◌ card_val insert erase str_eq ◌*ℤ◌ mul64 sub64 wrap64 ◌-ℤ◌
third = refl

no_window : lookup bob engine.vel_win ≡ none
unfolding new_engine lookup
no_window = refl

pub one_set-AsksSubscriber : AsksSubscriber shown one_set
one_set-AsksSubscriber = record {
  cell_reply = λ timeout id s r h. received-reply (Subscriber.get_cell ⦃go = shown⦄ id) r h;
  tariff_reply = λ timeout dest s r h. received-reply (Subscriber.get_tariff ⦃go = shown⦄ dest) r h;
}

pub one_set-RangesAll : RangesAll one_set-HasSortedSets
unfolding one_set-HasSortedSets
one_set-RangesAll z = Permᴰ.refl (keys z)

pub no_spend : one_set-HasSortedSets.zset (codes "spend:bob") [] ≡ []
unfolding one_set-HasSortedSets
no_spend = refl

pub no_members : one_set-HasSortedSets.zset (codes "velocity:bob") [] ≡ []
unfolding one_set-HasSortedSets
no_members = refl

in_range :
    All
      (InRange shown shown-ComparesExactly one_set one_set-HasSortedSets bob engine.window_ms)
      (earlier ++ (codes "r1", pos 3_000) ∷ [])
unfolding new_engine sub64 wrap64 ◌-ℤ◌
in_range = omega arith

sliding_window_count-velocity_count_example :
    pos 2
    ≡ (velocity_count
        (deliver (λ k. in_order) engine bob earlier)
        bob
        (codes "r1")
        (pos 3_000)
        in_order).1
sliding_window_count-velocity_count_example =
    sliding_window_count-velocity_count shown shown-ComparesExactly one_set one_set-HasSortedSets
      bob (λ k. in_order) in_order engine [] after_second earlier (codes "r1") (pos 3_000) (pos 2)
      (λ k. in_order-VisitsAll) in_order-VisitsAll (omega arith) no_window no_members in_range fed
      third
