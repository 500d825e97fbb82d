-- ===== src/Generator/Ids.antt =====
-- The id of a record holds the two random numbers that it was made of.
use go_cdr_fraud_detector.Base.{
  ℕ, ◌<◌, ◌^◌, ◌≡◌, refl, subst, some, List, ◌++◌, length, length-append, take, drop, take-append,
  drop-append, All-append, arith,
}
use go_cdr_fraud_detector.Base.Text.{Str}
use go_cdr_fraud_detector.Base.Hex.{
  IsByte, le_bytes, from_le_bytes, decode_hex, le_bytes-IsByte, length-le_bytes,
  from_le_bytes-le_bytes, decode_hex-encode_hex, length-encode_hex,
}
use go_cdr_fraud_detector.Generator.{World, id_of, new_id}
use go_cdr_fraud_detector.Generator.Runs.{IsRandom}

-- The reader of an id.
unfoldable pub read_id : Str → ℕ × ℕ
read_id s = (from_le_bytes (take 8 (decode_hex s)), from_le_bytes (drop 8 (decode_hex s)))

decode_hex-id_of : (a b : ℕ) → decode_hex (id_of a b) ≡ le_bytes 8 a ++ le_bytes 8 b
unfolding id_of
decode_hex-id_of a b =
    decode_hex-encode_hex (le_bytes 8 a ++ le_bytes 8 b)
      (All-append IsByte (le_bytes 8 a) (le_bytes 8 b) (le_bytes-IsByte 8 a) (le_bytes-IsByte 8 b))

take_bytes : (a : ℕ) (ys : List ℕ) → take 8 (le_bytes 8 a ++ ys) ≡ le_bytes 8 a
take_bytes a ys =
    subst (λ k. take k (le_bytes 8 a ++ ys) ≡ le_bytes 8 a) (length-le_bytes 8 a)
      (take-append (le_bytes 8 a) ys)

drop_bytes : (a : ℕ) (ys : List ℕ) → drop 8 (le_bytes 8 a ++ ys) ≡ ys
drop_bytes a ys =
    subst (λ k. drop k (le_bytes 8 a ++ ys) ≡ ys) (length-le_bytes 8 a)
      (drop-append (le_bytes 8 a) ys)

read_id-id_of : (a b : ℕ) → a < 2 ^ 64 → b < 2 ^ 64 → read_id (id_of a b) ≡ (a, b)
unfolding read_id
read_id-id_of a b ha hb =
    rw (decode_hex-id_of a b, take_bytes a (le_bytes 8 b), drop_bytes a (le_bytes 8 b))
      (ground (arith, from_le_bytes-le_bytes 8 a ha, from_le_bytes-le_bytes 8 b hb))

length-id_of : (a b : ℕ) → length (id_of a b) ≡ 32
unfolding id_of
length-id_of a b = omega (
  arith,
  length-encode_hex (le_bytes 8 a ++ le_bytes 8 b),
  length-append {0} (le_bytes 8 a) (le_bytes 8 b),
  length-le_bytes 8 a,
  length-le_bytes 8 b,
)

-- newID draws two numbers below 2 ^ 64 and returns a text of 32 bytes from which both can be read
-- back, so that ids made of different numbers differ.
pub new_id-read_id :
    {W E : Type 0} (world : World W E) (w : W)
    → IsRandom world
    → let (w', a) = world.uint64 w in
      let (w'', b) = world.uint64 w' in
      (s : Str) × (new_id world w ≡ some (w'', s)) × (read_id s ≡ (a, b)) × (length s ≡ 32)
unfolding new_id
new_id-read_id world w random =
    let a = (world.uint64 w).1 in
    let b = (world.uint64 (world.uint64 w).0).1 in
    (
      id_of a b,
      refl,
      read_id-id_of a b (random.uint64-lt w) (random.uint64-lt (world.uint64 w).0),
      length-id_of a b,
    )
