-- ===== src/Loadgen.antt =====
-- cmd/loadgen/main.go: the load generator. The random numbers, the clock and the Kafka writer are those
-- of the generator's `World`; the context and the limiter are operations on the same state. `worker`
-- is the loop of one worker by itself; Turns has all the workers, with the counter that they share.
pub mod Helpers
pub mod Workers
pub mod Turns
use go_cdr_fraud_detector.Base.{
  ℕ, zero, suc, Bool, true, false, Option, none, some, List, [], ◌++◌, if◌then◌else◌, ◌/◌,
}
use go_cdr_fraud_detector.Base.Int.{ℤ, pos, ltb_ℤ, leb_ℤ, pos_part}
use go_cdr_fraud_detector.Base.Text.{Str, codes}
use go_cdr_fraud_detector.Base.Decimal.{zero_padded}
use go_cdr_fraud_detector.Base.Split.{split}
use go_cdr_fraud_detector.Clock.{Duration}
use go_cdr_fraud_detector.Cdr.{Cdr, voice}
use go_cdr_fraud_detector.Go.{Go}
use go_cdr_fraud_detector.Geo
use go_cdr_fraud_detector.Geo.{Cell}
use go_cdr_fraud_detector.Fraud.Cache.{ok, err}
use go_cdr_fraud_detector.Stream.{itoa}
use go_cdr_fraud_detector.Generator.{World, Gen, pure, ◌>>=◌, rand_int, choose}
use go_cdr_fraud_detector.Generator.Settings.{max_one}
use go_cdr_fraud_detector.Loadgen.Helpers.{new_id, getenv, atoi, seconds}

pub record Driver (W E : Type 0) : Type 0 where
  -- ctx.Err() != nil
  pub cancelled : W → Bool
  -- lim.Wait(ctx)
  pub wait : W → W × Option E

-- A limiter: its rate, and its burst.
pub record Limiter : Type 0 where
  pub rate : ℤ
  pub burst : ℤ

unfoldable pub new_limiter : ℤ → Option Limiter
new_limiter target =
    if ltb_ℤ (pos 0) target
    then some (record { rate = target; burst = max_one (pos (pos_part target / 10)) })
    else none

unfoldable pub rate_str : ℤ → Str
unfolding itoa
rate_str target = if leb_ℤ target (pos 0) then codes "unbounded" else itoa target ++ codes "/s"

pub record Settings : Type 0 where
  pub brokers : List Str
  pub target : ℤ
  pub dur : Duration
  pub workers : ℤ

unfoldable pub read_settings : {F : Type 0} → Go F → (Str → Option Str) → Settings
unfolding split getenv atoi seconds
read_settings go env = record {
  brokers = split b',' (getenv env (codes "KAFKA_BROKERS") (codes "localhost:29092"));
  target = atoi go (getenv env (codes "RATE") (codes "0"));
  dur = seconds go (getenv env (codes "DURATION") (codes "30"));
  workers = max_one (atoi go (getenv env (codes "WORKERS") (codes "8")));
}

module _ {F W E : Type 0} (go : Go F) (world : World W E) where
  unfoldable pub random_cdr : List (Cell F) → Gen W Cdr
  unfolding new_id rand_int choose zero_padded
  random_cdr cells = do
    record_id ← new_id world
    caller ← rand_int world 1_000_000_000
    callee ← rand_int world 1_000_000_000
    start_time ← λ w. some (w, world.now w)
    duration_sec ← rand_int world 600
    cell ← choose world cells
    pure (record {
      record_id = record_id;
      caller_msisdn = codes "+905" ++ zero_padded 9 caller;
      callee_msisdn = codes "+905" ++ zero_padded 9 callee;
      start_time = start_time;
      duration_sec = pos duration_sec;
      cell_id = cell.id;
      call_type = voice;
      bytes = pos 0;
      termination = codes "NORMAL";
    })

  -- From Marshal on; the result says whether `sent` is incremented.
  unfoldable pub send : Cdr → W → W × Bool
  send rec w = elim (world.marshal_cdr rec) [
    | err e ↦ (w, false)
    | ok val ↦
        let (w', failed) =
          world.write (record { key = rec.caller_msisdn; value = val; headers = [] }) w in
        (w', elim failed [ none ↦ true | some e ↦ false ])
  ]

  module _ (driver : Driver W E) (lim : Option Limiter) where
    unfoldable pub admit : W → W × Option E
    admit w = elim lim [ none ↦ (w, none) | some l ↦ driver.wait w ]

    -- The loop of a worker, cut off after `fuel` rounds: `sent`, and whether the worker returned.
    unfoldable pub worker : ℕ → ℕ → Gen W (ℕ × Bool)
    unfolding random_cdr send admit
    worker zero sent w = some (w, (sent, false))
    worker (suc fuel) sent w =
        if driver.cancelled w
        then some (w, (sent, true))
        else (let (w', refused) = admit w in
            elim refused [
              | some e ↦ some (w', (sent, true))
              | none ↦
                  let next : Cdr → Gen W (ℕ × Bool) = λ rec v.
                    let (v', counted) = send rec v in
                    worker fuel (if counted then suc sent else sent) v' in
                  (random_cdr (Geo.catalog ⦃go = go⦄) >>= next) w'
            ])
