-- ===== src/Loadgen/Turns.antt =====
-- cmd/loadgen/main.go: the workers of main, interleaved. A turn is what a worker does between two
-- operations on what the workers share: the context, the limiter, the writer and the counter `sent`.
-- The counter is the number of calls of Add; the source's int64 wraps after 2 ^ 63 of them.
pub mod Total
pub mod Left
pub mod Return
use go_cdr_fraud_detector.Base.{
  ℕ, zero, suc, ◌≡◌, Bool, true, false, Option, none, some, List, [], ◌∷◌, ◌++◌, if◌then◌else◌,
}
use go_cdr_fraud_detector.Go.{Go}
use go_cdr_fraud_detector.Geo
use go_cdr_fraud_detector.Fraud.Cache.{ok, err}
use go_cdr_fraud_detector.Fraud.Retry.{Message}
use go_cdr_fraud_detector.Generator.{World}
use go_cdr_fraud_detector.Loadgen.{Driver, Limiter, random_cdr, admit}

-- Where a worker is.
pub data Place : Type 0 where
  -- before `for ctx.Err() == nil`
  looking : Place
  -- before the limiter
  waiting : Place
  -- before randomCDR
  drawing : Place
  -- before WriteMessages
  writing : Message → Place
  -- before sent.Add(1)
  adding : Place
  returned : Place

module _ {F W E : Type 0} (go : Go F) (world : World W E) (driver : Driver W E)
    (lim : Option Limiter) where
  -- One turn of a worker; `none` is a panic.
  unfoldable pub turn : Place → W → ℕ → Option (W × ℕ × Place)
  unfolding random_cdr admit
  turn looking w sent = some (w, sent, if driver.cancelled w then returned else waiting)
  turn waiting w sent =
      let (w', refused) = admit go world driver lim w in
      some (w', sent, elim refused [ some e ↦ returned | none ↦ drawing ])
  turn drawing w sent = elim (random_cdr go world (Geo.catalog ⦃go = go⦄) w) [
    | none ↦ none
    | some (w', rec) ↦ some (
      w',
      sent,
      elim (world.marshal_cdr rec) [
        | err e ↦ looking
        | ok val ↦ writing (record { key = rec.caller_msisdn; value = val; headers = [] })
      ],
    )
  ]
  turn (writing m) w sent =
      let (w', failed) = world.write m w in
      some (w', sent, elim failed [ some e ↦ looking | none ↦ adding ])
  turn adding w sent = some (w, suc sent, looking)
  turn returned w sent = some (w, sent, returned)

-- The workers, the counter, and the world outside of them.
pub record Running (W : Type 0) : Type 0 where
  pub outside : W
  pub sent : ℕ
  pub places : List Place

-- `wg.Add(1); go func() …`, for every worker.
unfoldable pub launch : ℕ → List Place
launch zero = []
launch (suc n) = looking ∷ launch n

abbrev pub launched : {W : Type 0} → ℕ → W → Running W
launched workers w = record { outside = w; sent = 0; places = launch workers }

abbrev pub is_returned : Place → Bool
is_returned returned = true
is_returned _ = false

module _ {F W E : Type 0} (go : Go F) (world : World W E) (driver : Driver W E)
    (lim : Option Limiter) where
  -- One worker that has not returned takes a turn.
  pub data Turn (s : Running W) : Running W → Type 0 where
    takes :
        (before after : List Place) (here : Place) {there : Place} {w : W} {sent : ℕ}
        → s.places ≡ before ++ here ∷ after
        → is_returned here ≡ false
        → turn go world driver lim here s.outside s.sent ≡ some (w, sent, there)
        → Turn s (record { outside = w; sent = sent; places = before ++ there ∷ after })

  -- Any number of turns, in any order of the workers. In between the world outside may change.
  pub data Turns (Allowed : W → W → Type 0) : ℕ → Running W → Running W → Type 0 where
    stays : {s : Running W} → Turns Allowed 0 s s
    goes_on :
        {k : ℕ} {s t u : Running W} → Turn s t → Turns Allowed k t u → Turns Allowed (suc k) s u
    meanwhile :
        {k : ℕ} {s u : Running W} (w : W)
        → Allowed s.outside w
        → Turns Allowed k (record s { outside = w }) u
        → Turns Allowed k s u
