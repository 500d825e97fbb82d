-- ===== src/Fraud/Action.antt =====
-- A Go function that returns (A, error) and changes the state `S`, as a monad. An error leaves the
-- changes made before it.
pub mod Preserves
use go_cdr_fraud_detector.Fraud.Cache.{Outcome, ok, err}

abbrev pub Action : Type 0 → Type 0 → Type 0 → Type 0
Action S E A = S → S × Outcome E A

abbrev pub pure : {S E A : Type 0} → A → Action S E A
pure a s = (s, ok a)

-- `if err != nil { return err }` after `m`.
infixl 5 ◌>>=◌ ◌>>◌
unfoldable pub ◌>>=◌ : {S E A B : Type 0} → Action S E A → (A → Action S E B) → Action S E B
◌>>=◌ m f s = let (s', r) = m s in elim r [ ok a ↦ f a s' | err e ↦ (s', err e) ]

abbrev pub ◌>>◌ : {S E B : Type 0} → Action S E (Unit {0}) → Action S E B → Action S E B
m >> k = m >>= λ _. k

-- A call whose error the code looks at instead of returning it.
abbrev pub attempt : {S E A : Type 0} → Action S E A → Action S E (Outcome E A)
attempt m s = let (s', r) = m s in (s', ok r)

-- `if err != nil { log; return nil }`
unfoldable pub or_skip :
    {S E A : Type 0} → Outcome E A → (A → Action S E (Unit {0})) → Action S E (Unit {0})
or_skip (ok a) f = f a
or_skip (err e) f = pure tt
