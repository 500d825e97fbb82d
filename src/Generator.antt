-- ===== src/Generator.antt =====
-- services/generator/main.go: synthetic records. The source of random numbers, the clock and the
-- Kafka writer are operations on a state `W` of the outside world. Logging and metrics are left out.
pub mod Runs
pub mod Ids
pub mod Pool
pub mod Fraudsters
pub mod Ticks
pub mod Settings
pub mod Main
use go_cdr_fraud_detector.Base.{
  ℕ, zero, suc, ◌+◌, ◌^◌, Bool, true, false, Option, none, some, List, [], ◌∷◌, ◌++◌, map, keep,
  length, ltb, if◌then◌else◌,
}
use go_cdr_fraud_detector.Base.Int.{ℤ, pos, ltb_ℤ, pos_part}
use go_cdr_fraud_detector.Base.Text.{Str, codes}
use go_cdr_fraud_detector.Base.Decimal.{zero_padded}
use go_cdr_fraud_detector.Base.Hex.{le_bytes, encode_hex}
use go_cdr_fraud_detector.Clock.{Time}
use go_cdr_fraud_detector.Cdr.{Cdr, voice}
use go_cdr_fraud_detector.Go.{Go}
use go_cdr_fraud_detector.Geo
use go_cdr_fraud_detector.Geo.{Cell}
use go_cdr_fraud_detector.Tariff
use go_cdr_fraud_detector.Tariff.{Tariff}
use go_cdr_fraud_detector.Fraud.Cache.{Outcome, ok, err}
use go_cdr_fraud_detector.Fraud.Retry.{Message}

pub record World (W E : Type 0) : Type 0 where
  -- rand.IntN of a positive number, and rand.Uint64
  pub int_n : ℕ → W → W × ℕ
  pub uint64 : W → W × ℕ
  pub now : W → Time
  pub marshal_cdr : Cdr → Outcome E Str
  -- The greatest length for which make([]subscriber, n) does not panic.
  pub max_make : ℕ
  -- w.WriteMessages
  pub write : Message → W → W × Option E

-- A computation on the outside world; `none` is a panic.
abbrev pub Gen : Type 0 → Type 0 → Type 0
Gen W A = W → Option (W × A)

abbrev pub pure : {W A : Type 0} → A → Gen W A
pure a w = some (w, a)

infixl 5 ◌>>=◌ ◌>>◌
unfoldable pub ◌>>=◌ : {W A B : Type 0} → Gen W A → (A → Gen W B) → Gen W B
◌>>=◌ m f w = elim (m w) [ none ↦ none | some r ↦ f r.1 r.0 ]

abbrev pub ◌>>◌ : {W B : Type 0} → Gen W (Unit {0}) → Gen W B → Gen W B
m >> k = m >>= λ _. k

-- xs[i], which panics out of range.
unfoldable pub index : {W A : Type 0} → List A → ℕ → Gen W A
index [] i w = none
index (x ∷ xs) zero w = some (w, x)
index (x ∷ xs) (suc i) w = index xs i w

-- `for i := 0; i < n; i++ { body }`
unfoldable pub times : {W : Type 0} → ℕ → Gen W (Unit {0}) → Gen W (Unit {0})
times zero body = pure tt
times (suc n) body = body >> times n body

pub record Subscriber : Type 0 where
  pub msisdn : Str
  pub home_cell : Str

-- The 16 bytes of an id.
unfoldable pub id_of : ℕ → ℕ → Str
unfolding le_bytes encode_hex
id_of a b = encode_hex (le_bytes 8 a ++ le_bytes 8 b)

-- max(n, 1)
abbrev pub pool_len : ℤ → ℕ
pool_len n = if ltb_ℤ n (pos 1) then 1 else pos_part n

module _ {F : Type 0} (go : Go F) where
  -- The ids of the cells more than 2000 km from a cell.
  unfoldable pub far_cells : Cell F → List Str
  far_cells home =
      map (λ (c : Cell F). c.id)
        (keep
          (λ (c : Cell F).
            go.lt (go.of_int (pos 2000)) (Geo.haversine_km ⦃go = go⦄ home.lat home.lon c.lat c.lon))
          (Geo.catalog ⦃go = go⦄))

  unfoldable pub premium_prefixes : List Str
  premium_prefixes =
      map (λ (t : Tariff F). t.prefix)
        (keep (λ (t : Tariff F). t.premium) (Tariff.catalog ⦃go = go⦄))

module _ {W E : Type 0} (world : World W E) where
  -- rand.IntN, which panics at 0.
  unfoldable pub rand_int : ℕ → Gen W ℕ
  rand_int zero w = none
  rand_int (suc n) w = some (world.int_n (suc n) w)

  -- xs[rand.IntN(len(xs))]
  unfoldable pub choose : {A : Type 0} → List A → Gen W A
  unfolding rand_int index
  choose xs = rand_int (length xs) >>= λ i. index xs i

  unfoldable pub new_id : Gen W Str
  unfolding id_of
  new_id w = let (w', a) = world.uint64 w in let (w'', b) = world.uint64 w' in some (w'', id_of a b)

  unfoldable pub cdr_from : Str → Str → Str → Gen W Cdr
  unfolding new_id rand_int
  cdr_from caller callee cell_id = do
    record_id ← new_id
    start_time ← λ w. some (w, world.now w)
    duration_sec ← rand_int 600
    pure (record {
      record_id = record_id;
      caller_msisdn = caller;
      callee_msisdn = callee;
      start_time = start_time;
      duration_sec = pos duration_sec;
      cell_id = cell_id;
      call_type = voice;
      bytes = pos 0;
      termination = codes "NORMAL";
    })

  unfoldable pub emit : Cdr → Gen W (Unit {0})
  emit rec w = elim (world.marshal_cdr rec) [
    | err e ↦ some (w, tt)
    | ok val ↦
        some ((world.write (record { key = rec.caller_msisdn; value = val; headers = [] }) w).0, tt)
  ]

  unfoldable pub random_callee : List Subscriber → Gen W Str
  unfolding choose
  random_callee pool = choose pool >>= λ s. pure s.msisdn

  module _ {F : Type 0} (go : Go F) where
    unfoldable pub new_subscriber : Gen W Subscriber
    unfolding rand_int choose zero_padded
    new_subscriber = do
      n ← rand_int 1_000_000_000
      cell ← choose (Geo.catalog ⦃go = go⦄)
      pure (record { msisdn = codes "+905" ++ zero_padded 9 n; home_cell = cell.id })

    -- The loop of makePool.
    unfoldable pub fill_pool : ℕ → Gen W (List Subscriber)
    unfolding new_subscriber
    fill_pool zero = pure []
    fill_pool (suc n) = new_subscriber >>= λ s. fill_pool n >>= λ rest. pure (s ∷ rest)

    -- make panics if the length is out of range.
    unfoldable pub make_pool : ℤ → Gen W (List Subscriber)
    unfolding fill_pool
    make_pool n = if ltb world.max_make (pool_len n) then (λ w. none) else fill_pool (pool_len n)

    unfoldable pub far_cell_from : Str → Gen W Str
    unfolding far_cells choose
    far_cell_from home_id = elim (Geo.lookup ⦃go = go⦄ home_id) [
      | none ↦ pure home_id
      | some home ↦ elim (far_cells go home) [ [] ↦ pure home_id | c ∷ cs ↦ choose (c ∷ cs) ]
    ]

    unfoldable pub premium_callee : Gen W Str
    unfolding premium_prefixes choose rand_int zero_padded
    premium_callee = do
      prefix ← choose (premium_prefixes go)
      n ← rand_int 10_000_000
      pure (prefix ++ zero_padded 7 n)

  -- The cases of main's select.
  unfoldable pub on_normal : List Subscriber → Gen W (Unit {0})
  unfolding choose random_callee cdr_from emit
  on_normal pool = do
    s ← choose pool
    callee ← random_callee pool
    rec ← cdr_from s.msisdn callee s.home_cell
    emit rec

  unfoldable pub on_burst : ℤ → List Subscriber → Gen W (Unit {0})
  unfolding choose random_callee cdr_from emit times
  on_burst burst_size pool = do
    s ← choose pool
    times (pos_part burst_size)
        (do callee ← random_callee pool; rec ← cdr_from s.msisdn callee s.home_cell; emit rec)

  unfoldable pub on_travel : {F : Type 0} → Go F → List Subscriber → Gen W (Unit {0})
  unfolding choose random_callee cdr_from emit far_cell_from
  on_travel go pool = do
    s ← choose pool
    far ← far_cell_from go s.home_cell
    callee ← random_callee pool
    rec ← cdr_from s.msisdn callee s.home_cell
    emit rec
    callee' ← random_callee pool
    rec' ← cdr_from s.msisdn callee' far
    emit rec'

  unfoldable pub on_irsf : {F : Type 0} → Go F → ℤ → List Subscriber → Gen W (Unit {0})
  unfolding choose cdr_from emit times premium_callee rand_int
  on_irsf go irsf_calls pool = do
    s ← choose pool
    dest ← premium_callee go
    times (pos_part irsf_calls) (do
      rec ← cdr_from s.msisdn dest s.home_cell
      n ← rand_int 600
      emit (record rec { duration_sec = pos (300 + n) }))
