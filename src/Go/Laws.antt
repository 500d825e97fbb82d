-- ===== src/Go/Laws.antt =====
-- What the theorems assume of float64 and of `range`: documented behaviour of IEEE 754 arithmetic,
-- of package math and of Go's maps. Each law names the values it holds for, so that it is true of
-- infinities and NaN too.
use mathlib.Core.List.{Perm}
use go_cdr_fraud_detector.Base.{ℕ, ◌<◌, ◌≡◌, true, false, List}
use go_cdr_fraud_detector.Base.Int.{ℤ, pos, ◌≤ℤ◌}
use go_cdr_fraud_detector.Base.Text.{Str}
use go_cdr_fraud_detector.Go.{Go, Order}

-- The order, and the rounding of conversions and quotients. `IsFinite` holds of every value but
-- the infinities and NaN, `IsNumber` of every value but NaN.
pub record IsOrdered {F : Type 0} (go : Go F) : Type 1 where
  pub IsFinite : F → Type 0
  pub IsNumber : F → Type 0
  pub IsNumber_of_IsFinite : (x : F) → IsFinite x → IsNumber x
  pub le_trans : (x y z : F) → go.le x y ≡ true → go.le y z ≡ true → go.le x z ≡ true
  pub lt-le_trans : (x y z : F) → go.lt x y ≡ true → go.le y z ≡ true → go.lt x z ≡ true
  pub le_of_lt : (x y : F) → go.lt x y ≡ true → go.le x y ≡ true
  pub not-le_of_lt : (x y : F) → go.lt x y ≡ true → go.le y x ≡ true → ⊥
  pub lt_of_not-le : (x y : F) → IsNumber x → IsNumber y → go.le x y ≡ false → go.lt y x ≡ true
  pub le_of_not-lt : (x y : F) → IsNumber x → IsNumber y → go.lt x y ≡ false → go.le y x ≡ true
  pub of_int-IsFinite : (n : ℤ) → IsFinite (go.of_int n)
  pub of_int_mono : (m n : ℤ) → m ≤ℤ n → go.le (go.of_int m) (go.of_int n) ≡ true
  pub of_int_pos : (n : ℕ) → 0 < n → go.lt (go.of_int (pos 0)) (go.of_int (pos n)) ≡ true
  pub hours-IsFinite : (d : ℤ) → IsFinite (go.hours d)
  pub hours_pos : (n : ℕ) → 0 < n → go.lt (go.of_int (pos 0)) (go.hours (pos n)) ≡ true
  pub hours_mono : (m n : ℤ) → m ≤ℤ n → go.le (go.hours m) (go.hours n) ≡ true
  pub over-IsNumber :
      (x y : F)
      → IsNumber x
      → IsFinite y
      → go.lt (go.of_int (pos 0)) y ≡ true
      → IsNumber (go.over x y)
  -- A quotient of at least the divisor is at least 1.
  pub over_ge_one :
      (x y : F)
      → IsFinite y
      → go.lt (go.of_int (pos 0)) y ≡ true
      → go.le y x ≡ true
      → go.le (go.of_int (pos 1)) (go.over x y) ≡ true
  -- Division grows with the dividend and falls with the divisor.
  pub over_mono :
      (x x' y y' : F)
      → IsFinite y
      → IsFinite y'
      → go.lt (go.of_int (pos 0)) x ≡ true
      → go.le x x' ≡ true
      → go.lt (go.of_int (pos 0)) y' ≡ true
      → go.le y' y ≡ true
      → go.le (go.over x y) (go.over x' y') ≡ true

-- A `range` loop visits every key once.
abbrev pub VisitsAll : Order → Type 0
VisitsAll order = (ks : List Str) → Perm (order ks) ks
