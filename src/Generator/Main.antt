-- ===== src/Generator/Main.antt =====
-- services/generator/main.go: main from its start to its end. The logger, the metrics server and the
-- closing of the writer and the tickers are left out.
use go_cdr_fraud_detector.Base.{
  ◌<◌, ◌≡◌, refl, ap, ◌∙◌, ◌⊎◌, inl, inr, Bool, false, ◌&&◌, Option, none, some, List, [], ◌∷◌,
  length, Bool-cases, if◌then◌else◌, arith,
}
use go_cdr_fraud_detector.Base.Int.{ℤ, pos, ltb_ℤ, ◌<ℤ◌, ◌≤ℤ◌}
use go_cdr_fraud_detector.Base.Text.{Str, codes}
use go_cdr_fraud_detector.Cdr.{topic_raw, topic_alert}
use go_cdr_fraud_detector.Go.{Go}
use go_cdr_fraud_detector.Platform.{getenv}
use go_cdr_fraud_detector.Stream.{
  Kafka, TopicSpec, brokers, ensure_topics, Ending, returned, panicked,
}
use go_cdr_fraud_detector.Stream.Topics.{ensure_topics-Polled}
use go_cdr_fraud_detector.Generator.{World, Subscriber, make_pool, pool_len}
use go_cdr_fraud_detector.Generator.Runs.{IsRandom, Ends}
use go_cdr_fraud_detector.Generator.Pool.{IsPool, make_pool-IsPool}
use go_cdr_fraud_detector.Generator.Settings.{
  Settings, read_settings, normal_every, normal_every_pos,
}
use go_cdr_fraud_detector.Generator.Ticks.{
  Tick, normal, burst, travel, irsf, on_tick, calls, OneCaller, on_tick-OneCaller,
}

abbrev pub brokers_text : (Str → Option Str) → Str
brokers_text env = getenv env (codes "KAFKA_BROKERS") (codes "localhost:29092")

abbrev pub topics : List TopicSpec
topics =
    record { name = topic_raw; partitions = pos 3 }
    ∷ record { name = topic_alert; partitions = pos 3 }
    ∷ []

-- time.NewTicker panics if its interval is not positive.
unfoldable pub tickers_start : Settings → Bool
unfolding normal_every
tickers_start set =
    ltb_ℤ (pos 0) (normal_every set.rate)
    && (ltb_ℤ (pos 0) set.burst_every
        && (ltb_ℤ (pos 0) set.travel_every && ltb_ℤ (pos 0) set.irsf_every))

-- The tickers, as a case of the select waits for them.
pub data Ticker : Type 0 where
  normal_tick : Ticker
  burst_tick : Ticker
  travel_tick : Ticker
  irsf_tick : Ticker

abbrev pub tick_of : Settings → Ticker → Tick
tick_of set normal_tick = normal
tick_of set burst_tick = burst set.burst_size
tick_of set travel_tick = travel
tick_of set irsf_tick = irsf set.irsf_calls

-- How main ends: it returns before it generates, it returns when the context is done, or it panics.
pub data Ran (W : Type 0) : Type 0 where
  gives_up : W → Ran W
  shuts_down : W → Ran W
  panics : Ran W

module _ {F W E C : Type 0} (go : Go F) (world : World W E) (kafka : Kafka W E C)
    (env : Str → Option Str) where
  -- The loop of main, with the tickers that fire before the context is done, in their order.
  unfoldable pub serve : Settings → List Subscriber → List Ticker → W → Ran W
  unfolding on_tick
  serve set pool [] w = shuts_down w
  serve set pool (t ∷ ts) w = elim (on_tick go world (tick_of set t) pool w) [
    | none ↦ panics
    | some r ↦ serve set pool ts r.0
  ]

  unfoldable pub after_pool : Settings → List Ticker → Option (W × List Subscriber) → Ran W
  unfolding serve tickers_start
  after_pool set fired none = panics
  after_pool set fired (some (w, pool)) =
      if tickers_start set then serve set pool fired w else panics

  unfoldable pub after_topics : Settings → List Ticker → W × Ending E → Ran W
  unfolding after_pool make_pool
  after_topics set fired (w, returned (some e)) = gives_up w
  after_topics set fired (w, returned none) =
      after_pool set fired (make_pool world go set.pool_size w)
  after_topics set fired (w, panicked) = panics

  unfoldable pub main : List Ticker → W → Ran W
  unfolding after_topics ensure_topics read_settings
  main fired w =
      after_topics (read_settings go env) fired
        (ensure_topics kafka (brokers (brokers_text env)) topics w)

  -- The ticks, one after the other, and what each of them does outside.
  pub data Ticks (set : Settings) (pool : List Subscriber) : List Ticker → W → W → Type 0 where
    rests : {w : W} → Ticks set pool [] w w
    ticks :
        {t : Ticker} {ts : List Ticker} {w u : W}
        → (one : OneCaller world pool
            (calls (tick_of set t))
            w
            (on_tick go world (tick_of set t) pool))
        → Ticks set pool ts one.2.state u
        → Ticks set pool (t ∷ ts) w u

  serve-Ticks :
      (set : Settings) (pool : List Subscriber) (fired : List Ticker) (w : W)
      → IsRandom world
      → 0 < length pool
      → (u : W) × (serve set pool fired w ≡ shuts_down u) × Ticks set pool fired w u
  unfolding serve
  serve-Ticks set pool [] w random some_one = (w, refl, rests)
  serve-Ticks set pool (t ∷ ts) w random some_one =
      let one = on_tick-OneCaller go world (tick_of set t) pool w random some_one in
      let (u, ends, rest) = serve-Ticks set pool ts one.2.state random some_one in
      (u, rw (one.2.ends, serve) ends, ticks one rest)

-- An interval that is not positive.
abbrev pub TooFast : Settings → Type 0
TooFast set =
    (pos 1_000_000_000 <ℤ set.rate)
    ⊎ (set.burst_every ≤ℤ pos 0)
    ⊎ (set.travel_every ≤ℤ pos 0)
    ⊎ (set.irsf_every ≤ℤ pos 0)

tickers_start-TooFast : (set : Settings) → tickers_start set ≡ false → TooFast set
unfolding tickers_start
tickers_start-TooFast set h = ground (arith, normal_every_pos set.rate, h)

module _ {F W E C : Type 0} (go : Go F) (world : World W E) (kafka : Kafka W E C)
    (env : Str → Option Str) (random : IsRandom world) where
  -- The three ways in which main ends.
  abbrev pub Ended : List Ticker → W → Type 0
  Ended fired w =
      let set = read_settings go env in
      let created = ensure_topics kafka (brokers (brokers_text env)) topics w in
      ((u : W) × (e : E) × (main go world kafka env fired w ≡ gives_up u)
        × (created ≡ (u, returned (some e))))
      ⊎ ((u : W) × (main go world kafka env fired w ≡ panics)
          × (created ≡ (u, returned none))
          × ((world.max_make < pool_len set.pool_size) ⊎ TooFast set))
      ⊎ ((u : W) × (pool : List Subscriber) × (v : W) × (main go world kafka env fired w
            ≡ shuts_down v)
          × IsPool go set.pool_size pool
          × (make_pool world go set.pool_size created.0 ≡ some (u, pool))
          × Ticks go world kafka env set pool fired u v)

  some_one : (n : ℤ) (pool : List Subscriber) → IsPool go n pool → 0 < length pool
  some_one n pool h = ground (arith, h.0)

  pool-Ended :
      (fired : List Ticker) (w u : W)
      → ensure_topics kafka (brokers (brokers_text env)) topics w ≡ (u, returned none)
      → (let set = read_settings go env in
          Ends world [] 0 (IsPool go set.pool_size) u (make_pool world go set.pool_size u))
      → Ended fired w
  unfolding main after_topics after_pool
  pool-Ended fired w u created call =
      let set = read_settings go env in
      let at_pool = ap (after_topics go world kafka env set fired) created in
      elim (Bool-cases (tickers_start set)) [
        | inr fast ↦ inr (
            inl (
              u,
              at_pool ∙ rw (call.ends, fast, after_pool) refl,
              created,
              inr (tickers_start-TooFast set fast),
            ))
        | inl start ↦
            let (v, ends, run) =
              serve-Ticks go world kafka env set call.result fired call.state random
                (some_one set.pool_size call.result call.good) in
            inr (
              inr (
                call.state,
                call.result,
                v,
                at_pool ∙ rw (call.ends, start, after_pool) ends,
                call.good,
                ap (λ c. make_pool world go set.pool_size c.0) created ∙ call.ends,
                run,
              ))
      ]

  topics-Ended :
      (fired : List Ticker) (w : W) (out : W × Option E)
      → ensure_topics kafka (brokers (brokers_text env)) topics w ≡ (out.0, returned out.1)
      → Ended fired w
  unfolding main after_topics after_pool
  topics-Ended fired w (u, some e) failed =
      inl (u, e, ap (after_topics go world kafka env (read_settings go env) fired) failed, failed)
  topics-Ended fired w (u, none) created =
      let set = read_settings go env in
      let at_pool = ap (after_topics go world kafka env set fired) created in
      elim (make_pool-IsPool go world [] set.pool_size random) [
        | inl (long, none_made) ↦
            inr (inl (u, at_pool ∙ rw (none_made u, after_pool) refl, created, inl long))
        | inr (fits, made) ↦ pool-Ended fired w u created (made.from u)
      ]

  -- main of the generator, for any settings and any tickers that fire before the context is done: it
  -- gives up with an error of EnsureTopics; or it panics after that, and then MSISDN_POOL is above the
  -- greatest length that make allows, RATE is above 10 ^ 9, or one of the three other intervals is
  -- not positive; or main comes to the end of its context,
  -- with the pool of makePool, and each ticker that fires sends its number of records, all of one
  -- subscriber of the pool, and does nothing else outside but draw random numbers.
  pub main-Ended : (fired : List Ticker) (w : W) → Ended fired w
  main-Ended fired w =
      let (broker, out, ends, polled) = ensure_topics-Polled kafka topics (brokers_text env) w in
      topics-Ended fired w out ends
