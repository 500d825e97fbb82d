-- ===== src/Go.antt =====
-- What the program calls of Go's float64 and of its standard library, as an interface: `F` stands
-- for float64. The code that calls it takes an instance; the laws that a theorem needs stand in
-- `Go.Laws`, and `Go.Sample` has an instance of both.
pub mod Laws
pub mod Sample
use go_cdr_fraud_detector.Base.{ℕ, Bool, List, Option}
use go_cdr_fraud_detector.Base.Int.{ℤ, pos}
use go_cdr_fraud_detector.Base.Text.{Str}

pub record Go (F : Type 0) : Type 0 where
  -- The literal m * 10 ^ -d, and the conversions float64(n) and int(x).
  pub decimal : ℤ → ℕ → F
  pub of_int : ℤ → F
  pub to_int : F → ℤ
  pub plus : F → F → F
  pub minus : F → F → F
  pub times : F → F → F
  pub over : F → F → F
  pub lt : F → F → Bool
  pub le : F → F → Bool
  -- Package math.
  pub pi : F
  pub sin : F → F
  pub cos : F → F
  pub sqrt : F → F
  pub atan2 : F → F → F
  -- time.Duration: Hours, Round(time.Second) and String, of a number of nanoseconds.
  pub hours : ℤ → F
  pub round_second : ℤ → ℤ
  pub show_duration : ℤ → Str
  -- Packages fmt and strconv: %d, %.nf, FormatFloat(x, 'f', n, 64), ParseFloat and Atoi.
  pub show_int : ℤ → Str
  pub fixed : ℕ → F → Str
  pub parse_float : Str → Option F
  pub parse_int : Str → Option ℤ

-- The order in which one execution of a `range` loop visits a map that has these keys.
abbrev pub Order : Type 0
Order = List Str → List Str

-- The constants 0 and 1.
abbrev pub zero_f : {F : Type 0} ⦃go : Go F⦄ → F
zero_f ⦃go⦄ = go.of_int (pos 0)

abbrev pub one_f : {F : Type 0} ⦃go : Go F⦄ → F
one_f ⦃go⦄ = go.of_int (pos 1)
