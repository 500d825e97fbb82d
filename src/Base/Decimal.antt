-- ===== src/Base/Decimal.antt =====
-- Numbers as texts: decimal digits, zero padding (fmt's %0nd) and hexadecimal bytes.
use Prim.Native.Nat.{ℕ, zero, suc, ◌+◌, ◌-◌, ◌/◌, ◌%◌, ◌^◌, ◌≤◌, ◌<◌}
use mathlib.Core.Path.{◌≡◌, refl}
use mathlib.Core.List.{[], ◌∷◌, ◌++◌}
use native.Mathlib.Omega.{arith}
use go_cdr_fraud_detector.Base.Tests.{ltb, if◌then◌else◌}
use go_cdr_fraud_detector.Base.Lists.{length, length-append}
use go_cdr_fraud_detector.Base.Text.{Str}

-- The decimal digits of a number before `out`; the fuel bounds their number.
unfoldable pub digits : ℕ → ℕ → Str → Str
digits zero n out = out
digits (suc fuel) n out =
    let rest = digits fuel (n / 10) ((b'0' + n % 10) ∷ out) in
    if ltb n 10 then (b'0' + n % 10) ∷ out else rest

-- %d of a number below 10 ^ 20, such as every uint64.
unfoldable pub decimal : ℕ → Str
unfolding digits
decimal n = digits 20 n []

unfoldable pub zeros : ℕ → Str
zeros zero = []
zeros (suc n) = b'0' ∷ zeros n

-- %0wd
unfoldable pub zero_padded : ℕ → ℕ → Str
unfolding decimal zeros
zero_padded w n = zeros (w - length (decimal n)) ++ decimal n

length-digits-le :
    (fuel k n : ℕ) (out : Str) → n < 10 ^ suc k → length (digits fuel n out) ≤ suc k + length out
unfolding digits
length-digits-le zero k n out h = omega arith
length-digits-le (suc fuel) zero n out h = ground arith
length-digits-le (suc fuel) (suc k) n out h =
    ground (arith, length-digits-le fuel k (n / 10) ((b'0' + n % 10) ∷ out) (omega arith))

length-zeros : (n : ℕ) → length (zeros n) ≡ n
unfolding zeros
length-zeros zero = refl
length-zeros (suc n) = omega (arith, length-zeros n)

-- A number of at most `w` digits is padded to exactly `w` bytes.
pub length-zero_padded : (k n : ℕ) → n < 10 ^ suc k → length (zero_padded (suc k) n) ≡ suc k
unfolding zero_padded decimal
length-zero_padded k n h = omega (
  arith,
  length-append (zeros (suc k - length (digits 20 n []))) (digits 20 n []),
  length-zeros (suc k - length (digits 20 n [])),
  length-digits-le 20 k n [] h,
)
