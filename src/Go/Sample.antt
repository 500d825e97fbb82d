-- ===== src/Go/Sample.antt =====
-- An instance of `Go` for tests, which meets the laws: fixed-point numbers, in units of
-- 1 / (3.6 * 10^12), so that a nanosecond is a whole number of hours' units. It is no model of
-- float64. Sines, roots and arcs are replaced by the first term of their series.
use Prim.Native.Nat.{ℕ, zero, suc, ◌+◌, ◌*◌, ◌/◌, ◌%◌, ◌^◌, ◌≤◌}
use mathlib.Core.List.Perm
use native.Mathlib.Nat.{le-div_iff_mul-le, div-mul-le_self, mul-le-mul_left}
use go_cdr_fraud_detector.Base.{◌≡◌, true, [], ◌∷◌, none, arith, ltb, if◌then◌else◌}
use go_cdr_fraud_detector.Base.Int.{ℤ, pos, negsuc, ◌+ℤ◌, ◌-ℤ◌, ◌*ℤ◌, leb_ℤ, ltb_ℤ, div_floor}
use go_cdr_fraud_detector.Base.Text.{Str}
use go_cdr_fraud_detector.Go.{Go, Order}
use go_cdr_fraud_detector.Go.Laws.{IsOrdered, VisitsAll}

abbrev pub unit : ℕ
unit = 36 * 10 ^ 11

abbrev pub Fixed : Type 0
Fixed = ℤ

-- A quotient by a number that is not positive is 0 here.
abbrev fixed_over : ℤ → ℤ → ℤ
fixed_over x (pos zero) = pos 0
fixed_over (pos n) (pos (suc d)) = pos (n * unit / suc d)
fixed_over (negsuc n) (pos (suc d)) = pos 0
fixed_over x (negsuc d) = pos 0

-- The last `fuel` decimal digits of a number.
digits : ℕ → ℕ → Str → Str
digits zero n out = out
digits (suc fuel) n out =
    let rest = digits fuel (n / 10) ((b'0' + n % 10) ∷ out) in
    if ltb n 10 then (b'0' + n % 10) ∷ out else rest

unfoldable pub show_ℤ : ℤ → Str
unfolding digits
show_ℤ (pos n) = digits 20 n []
show_ℤ (negsuc n) = b'-' ∷ digits 20 (suc n) []

instance abbrev pub sample : Go Fixed
sample = record {
  decimal = λ m d. div_floor (m *ℤ pos unit) (10 ^ d);
  of_int = λ n. n *ℤ pos unit;
  to_int = λ x. div_floor x unit;
  plus = λ x y. x +ℤ y;
  minus = λ x y. x -ℤ y;
  times = λ x y. div_floor (x *ℤ y) unit;
  over = fixed_over;
  lt = ltb_ℤ;
  le = leb_ℤ;
  pi = pos (31_416 * unit / 10_000);
  sin = λ x. x;
  cos = λ x. pos unit;
  sqrt = λ x. x;
  atan2 = λ y x. y;
  hours = λ d. d;
  round_second = λ d. d;
  show_duration = show_ℤ;
  show_int = show_ℤ;
  fixed = λ n x. show_ℤ (div_floor (x *ℤ pos (10 ^ n)) unit);
  parse_float = λ s. none;
  parse_int = λ s. none;
}

unit-le-div : (n d : ℕ) → suc d ≤ n → unit ≤ n * unit / suc d
unit-le-div n d h =
    (le-div_iff_mul-le {k = suc d} (omega arith)).1 (omega (arith, mul-le-mul_left unit h))

div_mono : (n n' d d' : ℕ) → n ≤ n' → suc d' ≤ suc d → n * unit / suc d ≤ n' * unit / suc d'
div_mono n n' d d' h k =
    (le-div_iff_mul-le {k = suc d'} (omega arith)).1
      (omega (arith, mul-le-mul_left (n * unit / suc d) k, div-mul-le_self (n * unit) (suc d)))

fixed_over_ge_one :
    (x y : ℤ) → ltb_ℤ (pos 0) y ≡ true → leb_ℤ y x ≡ true → leb_ℤ (pos unit) (fixed_over x y) ≡ true
fixed_over_ge_one (pos n) (pos (suc d)) p h = ground (arith, unit-le-div n d)
fixed_over_ge_one x y p h = ground arith

fixed_over_mono :
    (x x' y y' : ℤ)
    → ltb_ℤ (pos 0) x ≡ true
    → leb_ℤ x x' ≡ true
    → ltb_ℤ (pos 0) y' ≡ true
    → leb_ℤ y' y ≡ true
    → leb_ℤ (fixed_over x y) (fixed_over x' y') ≡ true
fixed_over_mono (pos n) (pos n') (pos (suc d)) (pos (suc d')) p h q k =
    ground (arith, div_mono n n' d d')
fixed_over_mono x x' y y' p h q k = ground arith

pub sample-IsOrdered : IsOrdered sample
unfolding ◌*ℤ◌
sample-IsOrdered = record {
  IsFinite = λ x. Unit {0};
  IsNumber = λ x. Unit {0};
  IsNumber_of_IsFinite = λ x h. tt;
  lt_of_not-le = λ x y _ _ p. ground arith;
  le_of_not-lt = λ x y _ _ p. ground arith;
  over-IsNumber = λ x y _ _ p. tt;
  le_trans = λ x y z p q. ground arith;
  lt-le_trans = λ x y z p q. ground arith;
  le_of_lt = λ x y p. ground arith;
  not-le_of_lt = λ x y p q. ground arith;
  of_int-IsFinite = λ n. tt;
  of_int_mono = λ m n h. ground arith;
  of_int_pos = λ n h. ground arith;
  hours-IsFinite = λ n. tt;
  hours_pos = λ n h. ground arith;
  hours_mono = λ m n h. ground arith;
  over_ge_one = λ x y _ p h. fixed_over_ge_one x y p h;
  over_mono = λ x x' y y' _ _ p h q k. fixed_over_mono x x' y y' p h q k;
}

-- Maps are visited in the order of their entries.
abbrev pub in_order : Order
in_order ks = ks

pub in_order-VisitsAll : VisitsAll in_order
in_order-VisitsAll ks = Perm.refl ks

pub sample-IsFinite : (x : Fixed) → sample-IsOrdered.IsFinite x
unfolding sample-IsOrdered
sample-IsFinite x = tt

pub sample-IsNumber : (x : Fixed) → sample-IsOrdered.IsNumber x
unfolding sample-IsOrdered
sample-IsNumber x = tt
