-- ===== src/Generator/Ticks.antt =====
-- What a tick of the generator writes.
use go_cdr_fraud_detector.Base.{ℕ, ◌+◌, ◌<◌, ◌≡◌, refl, subst, true, List, [], length, Among, arith}
use go_cdr_fraud_detector.Base.Int.{ℤ, pos, pos_part}
use go_cdr_fraud_detector.Base.Text.{Str}
use go_cdr_fraud_detector.Cdr.{Cdr}
use go_cdr_fraud_detector.Go.{Go}
use go_cdr_fraud_detector.Tariff
use go_cdr_fraud_detector.Fraud.Cache.{Outcome, ok, err}
use go_cdr_fraud_detector.Generator.{
  World, Gen, Subscriber, ◌>>=◌, ◌>>◌, rand_int, choose, cdr_from, emit, random_callee, on_normal,
  on_burst, on_travel, on_irsf,
}
use go_cdr_fraud_detector.Generator.Runs.{
  IsRandom, wrote, dropped, Sends, Sends-then, rests, moves, Ends, Runs, Runs-pure, Runs-bind,
  Runs-then, Runs-rand_int, Runs-choose, Runs-times, Runs-new_id, Runs-now, Anything, Done,
}
use go_cdr_fraud_detector.Generator.Fraudsters.{
  Destination, far_cell_from-Destination, premium_callee-IsPremium,
}

-- The ticks of main's select.
pub data Tick : Type 0 where
  normal : Tick
  burst : ℤ → Tick
  travel : Tick
  irsf : ℤ → Tick

unfoldable pub on_tick :
    {F W E : Type 0} → Go F → World W E → Tick → List Subscriber → Gen W (Unit {0})
on_tick go world normal pool = on_normal world pool
on_tick go world (burst n) pool = on_burst world n pool
on_tick go world travel pool = on_travel world go pool
on_tick go world (irsf n) pool = on_irsf world go n pool

module _ {W E : Type 0} (world : World W E) (caller : Str) (random : IsRandom world) where
  -- A record of `caller`.
  cdr_from-Runs :
      (callee cell : Str)
      → Runs world caller 0
          (λ (r : Cdr). r.caller_msisdn ≡ caller)
          (cdr_from world caller callee cell)
  unfolding cdr_from
  cdr_from-Runs callee cell =
      Runs-bind world caller 0 0 (Anything world caller) (Runs-new_id world caller) λ id _.
        Runs-bind world caller 0 0 (Anything world caller) (Runs-now world caller) λ now _.
          Runs-bind world caller 0 0 (λ n. n < 600)
            (Runs-rand_int world caller random 600 (omega arith))
            (λ n _. Runs-pure world caller _ refl)

  emit-Runs :
      (rec : Cdr)
      → rec.caller_msisdn ≡ caller
      → Runs world caller 1 (Done world caller) (emit world rec)
  unfolding emit
  emit-Runs rec same = record { from = λ w. written w (world.marshal_cdr rec) refl }
    where
      written :
          (w : W) (r : Outcome E Str)
          → world.marshal_cdr rec ≡ r
          → Ends world caller 1 (Done world caller) w (emit world rec w)
      written w (err e) h = record {
        state = w;
        result = tt;
        ends = rw (h, emit) refl;
        good = tt;
        sends = moves (dropped refl same h refl) rests refl;
      }
      written w (ok val) h = record {
        state = (world.write (record { key = rec.caller_msisdn; value = val; headers = [] }) w).0;
        result = tt;
        ends = rw (h, emit) refl;
        good = tt;
        sends = moves (wrote refl same h (rw same refl)) rests refl;
      }

  -- One ordinary call of `caller`, to somebody of the pool.
  module _ (pool : List Subscriber) (some_one : 0 < length pool) where
    random_callee-Runs : Runs world caller 0 (Anything world caller) (random_callee world pool)
    unfolding random_callee
    random_callee-Runs =
        Runs-bind world caller 0 0 (λ s. Among s pool)
          (Runs-choose world caller random pool some_one) (λ s _. Runs-pure world caller _ tt)

    call-Runs :
        (cell : Str) {rest : Gen W (Unit {0})}
        → Runs world caller 1 (Done world caller) rest
        → Runs world caller 2 (Done world caller) (
            random_callee world pool >>= λ callee.
            cdr_from world caller callee cell >>= λ rec. emit world rec >> rest)
    call-Runs cell r =
        Runs-bind world caller 0 2 (Anything world caller) random_callee-Runs λ callee _.
          Runs-bind world caller 0 2 (λ (r : Cdr). r.caller_msisdn ≡ caller)
            (cdr_from-Runs callee cell)
            λ rec same.
              Runs-bind world caller 1 1 (Done world caller) (emit-Runs rec same) (λ _ _. r)

    one_call-Runs :
        (cell : Str)
        → Runs world caller 1 (Done world caller) (
            random_callee world pool >>= λ callee.
            cdr_from world caller callee cell >>= λ rec. emit world rec)
    one_call-Runs cell =
        Runs-bind world caller 0 1 (Anything world caller) random_callee-Runs λ callee _.
          Runs-bind world caller 0 1 (λ (r : Cdr). r.caller_msisdn ≡ caller)
            (cdr_from-Runs callee cell) (λ rec same. emit-Runs rec same)

  two_calls-Runs :
      (pool : List Subscriber) (some_one : 0 < length pool) (home far : Str)
      → Runs world caller 2 (Done world caller) (
          random_callee world pool >>= λ callee. cdr_from world caller callee home >>= λ rec.
          emit world rec
          >> (random_callee world pool >>= λ callee'.
              cdr_from world caller callee' far >>= λ rec'. emit world rec'))
  two_calls-Runs pool some_one home far =
      call-Runs pool some_one home (one_call-Runs pool some_one far)

  irsf_call-Runs :
      (dest cell : Str)
      → Runs world caller 1 (Done world caller) (
          cdr_from world caller dest cell >>= λ rec.
          rand_int world 600 >>= λ n. emit world (record rec { duration_sec = pos (300 + n) }))
  irsf_call-Runs dest cell =
      Runs-bind world caller 0 1 (λ (r : Cdr). r.caller_msisdn ≡ caller) (cdr_from-Runs dest cell)
        λ rec same.
          Runs-bind world caller 0 1 (λ n. n < 600)
            (Runs-rand_int world caller random 600 (omega arith)) (λ n _. emit-Runs _ same)

-- How many records a tick is to send.
abbrev pub calls : Tick → ℕ
calls normal = 1
calls (burst n) = pos_part n
calls travel = 2
calls (irsf n) = pos_part n

-- A run ends without a panic, and sends `n` records, all of one subscriber of the pool.
abbrev pub OneCaller :
    {W E : Type 0} → World W E → List Subscriber → ℕ → W → Gen W (Unit {0}) → Type 0
OneCaller world pool n w m =
    (s : Subscriber) × Among s pool × Ends world s.msisdn n (Done world s.msisdn) w (m w)

module _ {W E : Type 0} (world : World W E) (random : IsRandom world) (pool : List Subscriber)
    (some_one : 0 < length pool) where
  chosen :
      (w : W) (n : ℕ) (f : Subscriber → Gen W (Unit {0}))
      → ((s : Subscriber) → Runs world s.msisdn n (Done world s.msisdn) (f s))
      → OneCaller world pool n w (choose world pool >>= f)
  unfolding ◌>>=◌
  chosen w n f h =
      let first = (Runs-choose world [] random pool some_one).from w in
      let s = first.result in
      let again = (Runs-choose world s.msisdn random pool some_one).from w in
      let rest = (h s).from first.state in
      let same : again.state ≡ first.state = ground (arith, first.ends, again.ends) in
      (
        s,
        first.good,
        record {
          state = rest.state;
          result = rest.result;
          ends = rw (first.ends, ◌>>=◌) rest.ends;
          good = tt;
          sends =
              Sends-then world s.msisdn (subst (Sends world s.msisdn 0 w) same again.sends)
                rest.sends;
        },
      )

-- With a pool that is not empty no tick panics, and what a tick does outside is to draw random numbers
-- and to send records, all of one subscriber of the pool and keyed by its number: one record in normal
-- traffic, two for a jump, and as many as the settings say for a burst and for premium calls (none, if
-- that is negative). A record that cannot be marshalled counts as sent, but is not written.
pub on_tick-OneCaller :
    {F W E : Type 0} (go : Go F) (world : World W E) (tick : Tick) (pool : List Subscriber) (w : W)
    → IsRandom world
    → 0 < length pool
    → OneCaller world pool (calls tick) w (on_tick go world tick pool)
unfolding on_tick on_normal on_burst on_travel on_irsf
on_tick-OneCaller go world normal pool w random some_one =
    chosen world random pool some_one w _ _
      (λ s. one_call-Runs world s.msisdn random pool some_one s.home_cell)
on_tick-OneCaller go world (burst n) pool w random some_one =
    chosen world random pool some_one w _ _ λ s.
      Runs-times world s.msisdn (pos_part n)
        (one_call-Runs world s.msisdn random pool some_one s.home_cell)
on_tick-OneCaller go world travel pool w random some_one =
    chosen world random pool some_one w _ _ λ s.
      Runs-bind world s.msisdn 0 2 (Destination go s.home_cell)
        (far_cell_from-Destination go world s.msisdn random s.home_cell)
        (λ far _. two_calls-Runs world s.msisdn random pool some_one s.home_cell far)
on_tick-OneCaller go world (irsf n) pool w random some_one =
    chosen world random pool some_one w _ _ λ s.
      Runs-then world s.msisdn (pos_part n) (λ d. (Tariff.lookup ⦃go = go⦄ d).premium ≡ true)
        (premium_callee-IsPremium go world s.msisdn random)
        λ dest _.
          Runs-times world s.msisdn (pos_part n)
            (irsf_call-Runs world s.msisdn random dest s.home_cell)
