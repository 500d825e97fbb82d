-- ===== src/Loadgen/Helpers.antt =====
-- cmd/loadgen/main.go: the small functions at its end, which the generator and internal/platform have as
-- well, and the Kafka writer of main.
use go_cdr_fraud_detector.Base.{◌≡◌, refl, ◌++◌, ◌^◌, ◌*◌, Option, none, some, true, List}
use go_cdr_fraud_detector.Base.Hex.{le_bytes, encode_hex}
use go_cdr_fraud_detector.Base.Int.{ℤ, pos}
use go_cdr_fraud_detector.Base.Int64.{mul64}
use go_cdr_fraud_detector.Base.Text.{Str}
use go_cdr_fraud_detector.Cdr.{topic_raw}
use go_cdr_fraud_detector.Clock.{Duration, second}
use go_cdr_fraud_detector.Generator
use go_cdr_fraud_detector.Generator.{World, Gen, pure, ◌>>=◌}
use go_cdr_fraud_detector.Generator.Settings
use go_cdr_fraud_detector.Generator.Settings.{max_one}
use go_cdr_fraud_detector.Go.{Go}
use go_cdr_fraud_detector.Stream.Clients.{Writer, hash, require_one}

unfoldable pub new_id : {W E : Type 0} → World W E → Gen W Str
unfolding le_bytes encode_hex
new_id world = do
  a ← λ w. some (world.uint64 w)
  b ← λ w. some (world.uint64 w)
  pure (encode_hex (le_bytes 8 a ++ le_bytes 8 b))

unfoldable pub getenv : (Str → Option Str) → Str → Str → Str
getenv lookup_env key fallback = elim (lookup_env key) [ none ↦ fallback | some v ↦ v ]

unfoldable pub atoi : {F : Type 0} → Go F → Str → ℤ
atoi go s = elim (go.parse_int s) [ none ↦ pos 0 | some n ↦ n ]

unfoldable pub seconds : {F : Type 0} → Go F → Str → Duration
unfolding atoi mul64
seconds go s = mul64 (max_one (atoi go s)) second

abbrev pub writer_of : List Str → Writer
writer_of brokers = record {
  addr = brokers;
  topic = topic_raw;
  balancer = hash;
  async = true;
  batch_size = pos 500;
  batch_timeout = pos (5 * 10 ^ 6);
  required_acks = require_one;
}

-- They are the generator's functions.
pub new_id-generator : {W E : Type 0} (world : World W E) → new_id world ≡ Generator.new_id world
unfolding new_id Generator.new_id Generator.id_of ◌>>=◌
new_id-generator world = refl

seconds-generator :
    {F : Type 0} (go : Go F) (s : Str) → seconds go s ≡ Generator.Settings.seconds go s
unfolding seconds atoi Generator.Settings.seconds Generator.Settings.atoi
seconds-generator go s = refl
