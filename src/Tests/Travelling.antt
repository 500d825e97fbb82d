-- ===== src/Tests/Travelling.antt =====
-- Two calls of a subscriber, from two cells.
use go_cdr_fraud_detector.Base.{
  ℕ, ◌≡◌, refl, subst, ap, false, Option, none, some, [], ◌∷◌, ◌==◌, if◌then◌else◌, arith,
}
use go_cdr_fraud_detector.Base.Dict
use go_cdr_fraud_detector.Base.Dict.{Dict, lookup, insert, lookup-insert}
use go_cdr_fraud_detector.Base.Int.{ℤ, pos, negsuc}
use go_cdr_fraud_detector.Base.Text.{Str, codes, str_eq, str_eq_refl}
use go_cdr_fraud_detector.Cdr.{Cdr}
use go_cdr_fraud_detector.Fraud.Action.{◌>>=◌, or_skip}
use go_cdr_fraud_detector.Fraud.Cache
use go_cdr_fraud_detector.Fraud.Cache.{Outcome, ok, err}
use go_cdr_fraud_detector.Fraud.Processor.{
  Memory, CellGeo, get_cell_geo, check_impossible_travel, visit, compare_location,
}
use go_cdr_fraud_detector.Fraud.Processor.Locations.{StoresLocations, location_key}
use go_cdr_fraud_detector.Fraud.Processor.Loop.{new_memory}
use go_cdr_fraud_detector.Fraud.Processor.Reference.{AsksSubscriber}
use go_cdr_fraud_detector.Fraud.Processor.Reference.Rounds.{starts, meanwhile}
use go_cdr_fraud_detector.Fraud.Processor.Travelling.{
  located, TravelEnds, check_impossible_travel-again,
}
use go_cdr_fraud_detector.Fraud.Services.{Services, LastLoc}
use go_cdr_fraud_detector.Fraud.Windows.{get_last_location, set_last_location}
use go_cdr_fraud_detector.Geo
use go_cdr_fraud_detector.Geo.{Cell}
use go_cdr_fraud_detector.Go.Sample.{Fixed, sample}
use go_cdr_fraud_detector.Subscriber
use go_cdr_fraud_detector.Tests.Processor.{record_nine, defaults}
use go_cdr_fraud_detector.Tests.Windows.{received, received-reply}

-- Numbers as a sign and a magnitude.
abbrev sign_of : ℤ → ℕ
sign_of (pos n) = b'+'
sign_of (negsuc n) = b'-'

abbrev size_of : ℤ → ℕ
size_of (pos n) = n
size_of (negsuc n) = n

abbrev number_of : ℕ → ℕ → ℤ
number_of sign n = if sign == b'+' then pos n else negsuc n

number_of-sign_of : (x : ℤ) → number_of (sign_of x) (size_of x) ≡ x
number_of-sign_of (pos n) = refl
number_of-sign_of (negsuc n) = refl

abbrev encode : LastLoc Fixed → Str
encode l =
    sign_of l.lat ∷ size_of l.lat ∷ sign_of l.lon ∷ size_of l.lon ∷ sign_of l.at ∷ size_of l.at ∷ []

abbrev decode : Str → Outcome Str (LastLoc Fixed)
decode (a ∷ b ∷ c ∷ d ∷ e ∷ f ∷ []) =
    ok (record { lat = number_of a b; lon = number_of c d; at = number_of e f })
decode s = err s

decode-encode : (l : LastLoc Fixed) → decode (encode l) ≡ ok l
decode-encode l =
    ground (arith, number_of-sign_of l.lat, number_of-sign_of l.lon, number_of-sign_of l.at)

-- The state is the map of Redis.
abbrev keyed : Services Fixed (Dict Str) Str
keyed = record {
  count_keys = λ key s. (s, ok (pos 0));
  get_key = λ key s. (s, ok (lookup key s));
  set_key = λ key value ttl s. (insert key value s, ok tt);
  exec = λ commands s. (s, err (codes "unavailable"));
  get_cell = λ timeout id s. (s, received (Subscriber.get_cell ⦃go = sample⦄ id));
  get_tariff = λ timeout dest s. (s, received (Subscriber.get_tariff ⦃go = sample⦄ dest));
  write_alert = λ m s. (s, ok tt);
  write_dlq = λ m s. (s, ok tt);
  fetch = λ s. (s, ok (record { value = codes "r9"; partition = pos 0; offset = pos 7 }));
  commit = λ m s. (s, ok tt);
  now = λ s. pos 0;
  cancelled = λ s. false;
  pause = λ d s. (s, false);
  error_text = λ e. e;
  unmarshal_cdr = λ value. ok record_nine;
  marshal_alert = λ a. ok a.record_id;
  marshal_location = λ l. ok (encode l);
  unmarshal_location = λ text. decode text;
}

keyed-AsksSubscriber : AsksSubscriber sample keyed
keyed-AsksSubscriber = record {
  cell_reply = λ timeout id s r h. received-reply (Subscriber.get_cell ⦃go = sample⦄ id) r h;
  tariff_reply =
      λ timeout dest s r h. received-reply (Subscriber.get_tariff ⦃go = sample⦄ dest) r h;
}

keyed-StoresLocations : StoresLocations keyed
keyed-StoresLocations = record {
  stored = λ key s. lookup key s;
  set = λ key value ttl s h. ground (arith, lookup-insert key key value s, str_eq_refl key);
  got = λ key s r h. ground (arith, h);
  json = λ l b h. subst (λ s. decode s ≡ ok l) {x = encode l} (ground (arith, h)) (decode-encode l);
}

abbrev no_settings : Str → Option Str
no_settings key = none

abbrev started : Memory Fixed (Dict Str)
started = new_memory keyed no_settings []

abbrev from_istanbul : Memory Fixed (Dict Str)
from_istanbul = (check_impossible_travel keyed defaults record_nine started).0

abbrev london_later : Cdr
london_later = record record_nine { record_id = codes "r10"; cell_id = codes "CELL-LON-01" }

abbrev istanbul : Cell Fixed
istanbul = record {
  id = codes "CELL-IST-01";
  lat = sample.decimal (pos 410082) 4;
  lon = sample.decimal (pos 289784) 4;
  name = codes "Istanbul";
}

abbrev found_istanbul : CellGeo Fixed
found_istanbul = record { lat = istanbul.lat; lon = istanbul.lon }

at_istanbul : Geo.lookup record_nine.cell_id ≡ some istanbul
unfolding Geo.lookup Geo.by_id Geo.index_cells Geo.catalog Dict.lookup Dict.insert Dict.erase str_eq
at_istanbul = refl

finds_istanbul : (get_cell_geo keyed defaults record_nine.cell_id started).1 ≡ ok found_istanbul
unfolding get_cell_geo ◌>>=◌ Cache.get Cache.fresh Cache.fill new_memory Cache.new_ref_cache
    Dict.lookup Subscriber.get_cell Geo.lookup Geo.by_id Geo.index_cells Geo.catalog Dict.insert
    Dict.erase str_eq
finds_istanbul = refl

first_succeeds : check_impossible_travel keyed defaults record_nine started ≡ (from_istanbul, ok tt)
unfolding check_impossible_travel or_skip visit compare_location get_last_location set_last_location
    get_cell_geo ◌>>=◌ Cache.get Cache.fresh Cache.fill new_memory Cache.new_ref_cache Dict.lookup
    Subscriber.get_cell Geo.lookup Geo.by_id Geo.index_cells Geo.catalog Dict.insert Dict.erase
    str_eq
first_succeeds = refl

-- The service was started again in between.
abbrev restarted : Memory Fixed (Dict Str)
restarted = record started { outside = from_istanbul.outside }

asking_leaves :
    (get_cell_geo keyed defaults london_later.cell_id restarted).0.outside ≡ from_istanbul.outside
unfolding get_cell_geo ◌>>=◌ Cache.get Cache.fresh Cache.fill new_memory Cache.new_ref_cache
    Dict.lookup Subscriber.get_cell check_impossible_travel Geo.lookup Geo.by_id Geo.index_cells
    Geo.catalog insert str_eq
asking_leaves = refl

check_impossible_travel-again_example :
    TravelEnds sample keyed keyed-StoresLocations keyed-AsksSubscriber defaults london_later
      (located record_nine istanbul)
      restarted
check_impossible_travel-again_example =
    check_impossible_travel-again sample keyed keyed-StoresLocations keyed-AsksSubscriber defaults
      no_settings record_nine london_later istanbul found_istanbul started from_istanbul restarted
      (starts []) at_istanbul finds_istanbul first_succeeds
      (meanwhile from_istanbul.outside (starts [])) refl
      (ap (keyed-StoresLocations.stored (location_key record_nine.caller_msisdn)) asking_leaves)
