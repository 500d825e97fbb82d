-- ===== src/Clock.antt =====
-- Package time, as far as the program uses it: an instant is its number of nanoseconds since 1970
-- (an unbounded integer), a duration is an int64 of nanoseconds.
use go_cdr_fraud_detector.Base.{◌^◌, if◌then◌else◌}
use go_cdr_fraud_detector.Base.Int.{ℤ, pos, ◌-ℤ◌, ltb_ℤ, div_floor}
use go_cdr_fraud_detector.Base.Int64.{wrap64, clamp64, neg64}

abbrev pub Time : Type 0
Time = ℤ

abbrev pub Duration : Type 0
Duration = ℤ

abbrev pub second : Duration
second = pos (10 ^ 9)

-- t.UnixMilli(): an int64, rounded down.
unfoldable pub unix_milli : Time → ℤ
unfolding wrap64 div_floor
unix_milli t = wrap64 (div_floor t (10 ^ 6))

-- t.Sub(u): the nearest duration.
unfoldable pub sub_time : Time → Time → Duration
unfolding clamp64 ◌-ℤ◌
sub_time t u = clamp64 (t -ℤ u)

-- `if dt < 0 { dt = -dt }`, in int64.
unfoldable pub abs_duration : Duration → Duration
unfolding neg64
abs_duration dt = if ltb_ℤ dt (pos 0) then neg64 dt else dt
