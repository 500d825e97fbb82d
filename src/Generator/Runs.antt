-- ===== src/Generator/Runs.antt =====
-- Computations of the generator that do not panic, what they return, and whose records they write.
use go_cdr_fraud_detector.Base.{
  ℕ, zero, suc, ◌<◌, ◌^◌, ◌≡◌, ◌+◌, refl, subst, Option, some, List, [], ◌∷◌, length, Among, inl,
  inr, arith,
}
use go_cdr_fraud_detector.Base.Text.{Str}
use go_cdr_fraud_detector.Cdr.{Cdr}
use go_cdr_fraud_detector.Fraud.Cache.{ok, err}
use go_cdr_fraud_detector.Generator.{
  World, Gen, pure, ◌>>=◌, index, times, rand_int, choose, new_id,
}

-- What the package math/rand/v2 documents of the numbers it returns.
pub record IsRandom {W E : Type 0} (world : World W E) : Type 0 where
  pub int_n-lt : (n : ℕ) (w : W) → 0 < n → (world.int_n n w).1 < n
  pub uint64-lt : (w : W) → (world.uint64 w).1 < 2 ^ 64

module _ {W E : Type 0} (world : World W E) (caller : Str) where
  -- One outside operation: a random number, or a record of `caller`, which is written under its key
  -- unless it cannot be marshalled. `k` counts the records.
  pub data Send (k : ℕ) (w v : W) : Type 0 where
    drew : {n : ℕ} → k ≡ 0 → v ≡ (world.int_n n w).0 → Send k w v
    drew_uint64 : k ≡ 0 → v ≡ (world.uint64 w).0 → Send k w v
    wrote :
        {rec : Cdr} {val : Str}
        → k ≡ 1
        → rec.caller_msisdn ≡ caller
        → world.marshal_cdr rec ≡ ok val
        → v ≡ (world.write (record { key = caller; value = val; headers = [] }) w).0
        → Send k w v
    dropped :
        {rec : Cdr} {e : E}
        → k ≡ 1
        → rec.caller_msisdn ≡ caller
        → world.marshal_cdr rec ≡ err e
        → v ≡ w
        → Send k w v

  pub data Sends : ℕ → W → W → Type 0 where
    rests : {w : W} → Sends zero w w
    moves : {j k n : ℕ} {w v u : W} → Send j w v → Sends k v u → n ≡ j + k → Sends n w u

  pub Sends-trans : {j k : ℕ} {w v u : W} → Sends j w v → Sends k v u → Sends (j + k) w u
  Sends-trans {k = k} {w = w} {u = u} rests q = subst (λ n. Sends n w u) (omega arith) q
  Sends-trans (moves s p e) q = moves s (Sends-trans p q) (omega (arith, e))

  pub Sends-then : {k : ℕ} {w v u : W} → Sends 0 w v → Sends k v u → Sends k w u
  Sends-then {k} {w} {u = u} p q =
      subst (λ n. Sends n w u) (omega arith) (Sends-trans {j = 0} {k = k} p q)

  -- What random numbers preserve, operations that send no record preserve.
  Send-preserves :
      (P : W → Type 0) {k : ℕ} {w v : W}
      → ((n : ℕ) (u : W) → P u → P (world.int_n n u).0)
      → ((u : W) → P u → P (world.uint64 u).0)
      → Send k w v
      → k ≡ 0
      → P w
      → P v
  Send-preserves P {w = w} ints words (drew {n} e same) none_sent h = rw same (ints n w h)
  Send-preserves P {w = w} ints words (drew_uint64 e same) none_sent h = rw same (words w h)
  Send-preserves P ints words (wrote e same good moved) none_sent h =
      absurd (omega (arith, e, none_sent))
  Send-preserves P ints words (dropped e same bad moved) none_sent h =
      absurd (omega (arith, e, none_sent))

  pub Sends-preserve :
      (P : W → Type 0) {n : ℕ} {w v : W}
      → ((m : ℕ) (u : W) → P u → P (world.int_n m u).0)
      → ((u : W) → P u → P (world.uint64 u).0)
      → Sends n w v
      → n ≡ 0
      → P w
      → P v
  Sends-preserve P ints words rests none_sent h = h
  Sends-preserve P ints words (moves s p e) none_sent h =
      Sends-preserve P ints words p (omega (arith, e, none_sent))
        (Send-preserves P ints words s (omega (arith, e, none_sent)) h)

  -- How one run ends: not in a panic, with a result in `P`.
  pub record Ends {A : Type 0} (k : ℕ) (P : A → Type 0) (w : W) (r : Option (W × A)) : Type 0 where
    pub state : W
    pub result : A
    pub ends : r ≡ some (state, result)
    pub good : P result
    pub sends : Sends k w state

  pub record Runs {A : Type 0} (k : ℕ) (P : A → Type 0) (m : Gen W A) : Type 0 where
    pub from : (w : W) → Ends k P w (m w)

  pub Runs-pure : {A : Type 0} {P : A → Type 0} (a : A) → P a → Runs 0 P (pure a)
  Runs-pure a p = record {
    from = λ w. record { state = w; result = a; ends = refl; good = p; sends = rests };
  }

  pub Runs-bind :
      {A B : Type 0} (j k : ℕ) (P : A → Type 0) {Q : B → Type 0} {m : Gen W A} {f : A → Gen W B}
      → Runs j P m
      → ((a : A) → P a → Runs k Q (f a))
      → Runs (j + k) Q (m >>= f)
  unfolding ◌>>=◌
  Runs-bind j k P {m} p q = record {
    from = λ w.
        let first = p.from w in
        let second = (q first.result first.good).from first.state in
        record {
          state = second.state;
          result = second.result;
          ends = rw (first.ends, ◌>>=◌) second.ends;
          good = second.good;
          sends = Sends-trans first.sends second.sends;
        };
  }

  -- After a first part that sends no record.
  pub Runs-then :
      {A B : Type 0} (k : ℕ) (P : A → Type 0) {Q : B → Type 0} {m : Gen W A} {f : A → Gen W B}
      → Runs 0 P m
      → ((a : A) → P a → Runs k Q (f a))
      → Runs k Q (m >>= f)
  Runs-then k P {Q} {m} {f} p q =
      subst (λ n. Runs n Q (m >>= f)) (omega arith) (Runs-bind 0 k P p q)

  pub Runs-weaken :
      {A : Type 0} {k : ℕ} {P Q : A → Type 0} {m : Gen W A}
      → ((a : A) → P a → Q a)
      → Runs k P m
      → Runs k Q m
  Runs-weaken h p = record {
    from = λ w.
        let r = p.from w in
        record {
          state = r.state;
          result = r.result;
          ends = r.ends;
          good = h r.result r.good;
          sends = r.sends;
        };
  }

  abbrev pub Done : Unit {0} → Type 0
  Done _ = Unit

  abbrev pub Anything : {A : Type 0} → A → Type 0
  Anything _ = Unit

  pub Runs-new_id : Runs 0 Anything (new_id world)
  unfolding new_id
  Runs-new_id = record {
    from = λ w. record {
      state = (world.uint64 (world.uint64 w).0).0;
      result = _;
      ends = refl;
      good = tt;
      sends = moves (drew_uint64 refl refl) (moves (drew_uint64 refl refl) rests refl) refl;
    };
  }

  pub Runs-now : Runs 0 Anything (λ w. some (w, world.now w))
  Runs-now = record {
    from = λ w. record { state = w; result = world.now w; ends = refl; good = tt; sends = rests };
  }

  -- `n` rounds of one record each.
  pub Runs-times : (n : ℕ) {body : Gen W (Unit {0})} → Runs 1 Done body → Runs n Done (times n body)
  unfolding times
  Runs-times zero p = Runs-pure tt tt
  Runs-times (suc n) {body} p =
      subst (λ k. Runs k Done (times (suc n) body)) (omega arith)
        (Runs-bind 1 n Done p (λ _ _. Runs-times n p))

  Runs-index :
      {A : Type 0} (xs : List A) (i : ℕ) → i < length xs → Runs 0 (λ x. Among x xs) (index xs i)
  unfolding index
  Runs-index [] i h = absurd (omega arith)
  Runs-index (x ∷ xs) zero h = Runs-pure x (inl refl)
  Runs-index (x ∷ xs) (suc i) h = Runs-weaken (λ a m. inr m) (Runs-index xs i (omega arith))

  module _ (random : IsRandom world) where
    pub Runs-rand_int : (n : ℕ) → 0 < n → Runs 0 (λ i. i < n) (rand_int world n)
    unfolding rand_int
    Runs-rand_int zero h = absurd (omega arith)
    Runs-rand_int (suc n) h = record {
      from = λ w. record {
        state = (world.int_n (suc n) w).0;
        result = (world.int_n (suc n) w).1;
        ends = refl;
        good = random.int_n-lt (suc n) w h;
        sends = moves (drew refl refl) rests refl;
      };
    }

    pub Runs-choose :
        {A : Type 0} (xs : List A) → 0 < length xs → Runs 0 (λ x. Among x xs) (choose world xs)
    unfolding choose
    Runs-choose xs h =
        Runs-bind 0 0 (λ i. i < length xs) (Runs-rand_int (length xs) h) (λ i p. Runs-index xs i p)
