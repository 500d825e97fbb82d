-- ===== src/Loadgen/Workers.antt =====
-- The records of the load generator, and its counter.
use go_cdr_fraud_detector.Base.{
  ℕ, zero, suc, ◌<◌, ◌≡◌, refl, ◌+◌, true, false, Bool, Option, none, some, [], Among, ◌∙◌, inl,
  inr, if◌then◌else◌, arith, Bool-cases, Option-cases,
}
use go_cdr_fraud_detector.Base.Int.{pos, ◌<ℤ◌, ◌≤ℤ◌}
use go_cdr_fraud_detector.Base.Text.{Str}
use go_cdr_fraud_detector.Cdr.{Cdr}
use go_cdr_fraud_detector.Go.{Go}
use go_cdr_fraud_detector.Geo
use go_cdr_fraud_detector.Geo.{Cell}
use go_cdr_fraud_detector.Geo.Lookups.{lookup-Among_iff}
use go_cdr_fraud_detector.Fraud.Cache.{Outcome-cases}
use go_cdr_fraud_detector.Fraud.Retry.{Message}
use go_cdr_fraud_detector.Generator.{World, ◌>>=◌}
use go_cdr_fraud_detector.Generator.Runs.{
  IsRandom, Runs, Runs-pure, Runs-bind, Runs-rand_int, Runs-choose, Runs-new_id, Runs-now, Anything,
  Sends-preserve, Sends,
}
use go_cdr_fraud_detector.Generator.Pool.{IsMobile, padded-IsMobile, catalog_nonempty}
use go_cdr_fraud_detector.Loadgen.Helpers.{new_id-generator}
use go_cdr_fraud_detector.Loadgen.{Driver, Limiter, random_cdr, send, admit, worker}

-- Two mobile numbers, a call of less than ten minutes, and a cell that the catalog knows.
pub record IsSynthetic {F : Type 0} (go : Go F) (rec : Cdr) : Type 0 where
  pub caller : IsMobile rec.caller_msisdn
  pub callee : IsMobile rec.callee_msisdn
  pub not_negative : pos 0 ≤ℤ rec.duration_sec
  pub short : rec.duration_sec <ℤ pos 600
  pub cell : Cell F
  pub known : Geo.lookup ⦃go = go⦄ rec.cell_id ≡ some cell

-- randomCDR, over the catalog, does not panic, draws random numbers and writes nothing, and returns a
-- record with two +905 numbers of 13 bytes, a duration of 0 to 599 seconds, and the id of a cell that the
-- catalog knows.
pub random_cdr-IsSynthetic :
    {F W E : Type 0} (go : Go F) (world : World W E) (key : Str)
    → IsRandom world
    → Runs world key 0 (IsSynthetic go) (random_cdr go world (Geo.catalog ⦃go = go⦄))
unfolding random_cdr
random_cdr-IsSynthetic go world key random =
    let digits = Runs-rand_int world key random 1_000_000_000 (omega arith) in
    Runs-bind world key 0 0 (Anything world key)
      (rw (new_id-generator world) (Runs-new_id world key))
      λ id _.
        Runs-bind world key 0 0 (λ n. n < 1_000_000_000) digits
          λ caller small.
            Runs-bind world key 0 0 (λ n. n < 1_000_000_000) digits
              λ callee small'.
                Runs-bind world key 0 0 (Anything world key) (Runs-now world key) λ now _.
                  Runs-bind world key 0 0 (λ n. n < 600)
                    (Runs-rand_int world key random 600 (omega arith))
                    λ n short.
                      Runs-bind world key 0 0 (λ c. Among c (Geo.catalog ⦃go = go⦄))
                        (Runs-choose world key random (Geo.catalog ⦃go = go⦄) (catalog_nonempty go))
                        λ c member. Runs-pure world key _ (record {
                          caller = padded-IsMobile caller small;
                          callee = padded-IsMobile callee small';
                          not_negative = ground arith;
                          short = ground (arith, short);
                          cell = c;
                          known = (lookup-Among_iff go c.id c).1 (member, refl);
                        })

-- A count of the messages that the writer accepts: the calls of WriteMessages that return no error.
pub record CountsMessages {W E : Type 0} (world : World W E) (driver : Driver W E) : Type 0 where
  pub accepted : W → ℕ
  pub drew : (n : ℕ) (w : W) → accepted (world.int_n n w).0 ≡ accepted w
  pub drew_uint64 : (w : W) → accepted (world.uint64 w).0 ≡ accepted w
  pub waited : (w : W) → accepted (driver.wait w).0 ≡ accepted w
  pub wrote_ok :
      (m : Message) (w : W)
      → (world.write m w).1 ≡ none
      → accepted (world.write m w).0 ≡ suc (accepted w)
  pub wrote_err :
      (m : Message) (w : W) (e : E)
      → (world.write m w).1 ≡ some e
      → accepted (world.write m w).0 ≡ accepted w

module _ {F W E : Type 0} (go : Go F) (world : World W E) (driver : Driver W E)
    (lim : Option Limiter) (random : IsRandom world) (laws : CountsMessages world driver) where
  pub drawn_keeps : (w : W) {v : W} → Sends world [] 0 w v → laws.accepted v ≡ laws.accepted w
  drawn_keeps w sends =
      Sends-preserve world [] (λ u. laws.accepted u ≡ laws.accepted w) (λ n u h. laws.drew n u ∙ h)
        (λ u h. laws.drew_uint64 u ∙ h) sends refl refl

  pub admit_keeps : (w : W) → laws.accepted (admit go world driver lim w).0 ≡ laws.accepted w
  unfolding admit
  admit_keeps w = elim (Option-cases lim) [
    | inl none_set ↦ rw (none_set, admit) refl
    | inr (l, set) ↦ rw (set, admit) (laws.waited w)
  ]

  -- `send` reports whether the message was accepted.
  pub send-accepted :
      (rec : Cdr) (w : W)
      → laws.accepted (send go world rec w).0
        ≡ (if (send go world rec w).1 then suc (laws.accepted w) else laws.accepted w)
  unfolding send
  send-accepted rec w = elim (Outcome-cases (world.marshal_cdr rec)) [
    | inr (e, bad) ↦ rw (bad, send) refl
    | inl (val, good) ↦ elim (Option-cases (world.write (message val) w).1) [
      | inl fine ↦ rw (good, fine, send) (laws.wrote_ok (message val) w fine)
      | inr (e, failed) ↦ rw (good, failed, send) (laws.wrote_err (message val) w e failed)
    ]
  ]
    where
      message : Str → Message
      message val = record { key = rec.caller_msisdn; value = val; headers = [] }

  -- The worker does not panic within `fuel` rounds, and as many messages more are accepted as its counter
  -- is higher.
  abbrev pub Counted : ℕ → ℕ → W → Type 0
  Counted fuel sent w =
      (w' : W) × (sent' : ℕ) × (back : Bool) × (worker go world driver lim fuel sent w
        ≡ some (w', (sent', back)))
      × (laws.accepted w' + sent ≡ laws.accepted w + sent')

  -- Within any number of rounds a worker does not panic, and its counter grows by exactly the number of
  -- WriteMessages calls that return no error, with or without a limiter, and also where a record cannot
  -- be marshalled, a write fails or the context ends.
  pub worker-Counted : (fuel sent : ℕ) (w : W) → Counted fuel sent w
  unfolding worker ◌>>=◌
  worker-Counted zero sent w = (w, sent, false, refl, refl)
  worker-Counted (suc fuel) sent w = elim (Bool-cases (driver.cancelled w)) [
    | inl gone ↦ (w, sent, true, rw (gone, worker) refl, refl)
    | inr live ↦ elim (Option-cases (admit go world driver lim w).1) [
      | inr (e, refused) ↦ (
        (admit go world driver lim w).0,
        sent,
        true,
        rw (live, refused, worker) refl,
        omega (arith, admit_keeps w),
      )
      | inl free ↦
          let u = (admit go world driver lim w).0 in
          let call = (random_cdr-IsSynthetic go world [] random).from u in
          let sending = send go world call.result call.state in
          let kept = admit_keeps w in
          let drawn = drawn_keeps u call.sends in
          let count = send-accepted call.result call.state in
          elim (Bool-cases sending.1) [
            | inl yes_sent ↦
                let (w', sent', back, runs, sum) = worker-Counted fuel (suc sent) sending.0 in
                (
                  w',
                  sent',
                  back,
                  rw (live, free, call.ends, yes_sent, worker, ◌>>=◌) runs,
                  ground (arith, sum, count, kept, drawn, yes_sent),
                )
            | inr unsent ↦
                let (w', sent', back, runs, sum) = worker-Counted fuel sent sending.0 in
                (
                  w',
                  sent',
                  back,
                  rw (live, free, call.ends, unsent, worker, ◌>>=◌) runs,
                  ground (arith, sum, count, kept, drawn, unsent),
                )
          ]
    ]
  ]
