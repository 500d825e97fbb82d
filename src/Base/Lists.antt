-- ===== src/Base/Lists.antt =====
-- Lists: length over the native numbers, `All`, and a filter by a Boolean test.
use Prim.Native.Nat.{ℕ, suc, ◌+◌}
use mathlib.Core.Logic.{◌⊎◌, inl, inr}
use mathlib.Core.Path.{subst, sym, ap, ◌≡◌, refl}
use mathlib.Core.Bool.{Bool, true, false, ◌&&◌}
use mathlib.Core.List.{List, [], ◌∷◌, ◌++◌, map}
use native.Mathlib.Omega.{arith}
use go_cdr_fraud_detector.Base.Tests.{if◌then◌else◌}

module _ {ℓ} {A : Type ℓ} where
  abbrev pub length : List A → ℕ
  length [] = 0
  length (x ∷ xs) = suc (length xs)

  pub length-append : (xs ys : List A) → length (xs ++ ys) ≡ length xs + length ys
  length-append [] ys = omega arith
  length-append (x ∷ xs) ys = omega (arith, length-append xs ys)

  abbrev pub All {κ} : (A → Type κ) → List A → Type κ
  All P [] = Unit
  All P (x ∷ xs) = P x × All P xs

  pub All-append {κ} : (P : A → Type κ) (xs ys : List A) → All P xs → All P ys → All P (xs ++ ys)
  All-append P [] ys p q = q
  All-append P (x ∷ xs) ys p q = (p.0, All-append P xs ys p.1 q)

  pub All-map {κ μ} :
      {P : A → Type κ} {Q : A → Type μ} (f : (x : A) → P x → Q x) (xs : List A)
      → All P xs
      → All Q xs
  All-map f [] p = tt
  All-map f (x ∷ xs) p = (f x p.0, All-map f xs p.1)

  -- The elements that pass a test.
  abbrev pub keep : (A → Bool) → List A → List A
  keep p [] = []
  keep p (x ∷ xs) = if p x then x ∷ keep p xs else keep p xs

  pub keep-append : (p : A → Bool) (xs ys : List A) → keep p (xs ++ ys) ≡ keep p xs ++ keep p ys
  keep-append p [] ys = refl
  keep-append p (x ∷ xs) ys = ground (arith, keep-append p xs ys)

  pub keep-keep : (p q : A → Bool) (xs : List A) → keep p (keep q xs) ≡ keep (λ x. q x && p x) xs
  keep-keep p q [] = refl
  keep-keep p q (x ∷ xs) = ground (arith, keep-keep p q xs)

  -- Tests that agree on the elements keep the same ones.
  pub keep_congr : (p q : A → Bool) (xs : List A) → All (λ x. p x ≡ q x) xs → keep p xs ≡ keep q xs
  keep_congr p q [] h = refl
  keep_congr p q (x ∷ xs) h = ground (arith, keep_congr p q xs h.1, h.0)

  pub keep-All : (p : A → Bool) (xs : List A) → All (λ x. p x ≡ true) xs → keep p xs ≡ xs
  keep-All p [] h = refl
  keep-All p (x ∷ xs) h = ground (arith, keep-All p xs h.1, h.0)

-- Go's xs[:n] and xs[n:], where `n` is in range.
module _ {ℓ} {A : Type ℓ} where
  unfoldable pub take : ℕ → List A → List A
  take (suc n) (x ∷ xs) = x ∷ take n xs
  take _ _ = []

  unfoldable pub drop : ℕ → List A → List A
  drop (suc n) (x ∷ xs) = drop n xs
  drop _ xs = xs

  pub take-append : (xs ys : List A) → take (length xs) (xs ++ ys) ≡ xs
  unfolding take
  take-append [] ys = refl
  take-append (x ∷ xs) ys = ap (λ r. x ∷ r) (take-append xs ys)

  pub drop-append : (xs ys : List A) → drop (length xs) (xs ++ ys) ≡ ys
  unfolding drop
  drop-append [] [] = refl
  drop-append [] (y ∷ ys) = refl
  drop-append (x ∷ xs) ys = drop-append xs ys

-- Membership, by recursion.
abbrev pub Among : {A : Type 0} → A → List A → Type 0
Among a [] = ⊥
Among a (x ∷ xs) = (a ≡ x) ⊎ Among a xs

-- What holds of all elements holds of each.
pub All-Among {κ} :
    {A : Type 0} (P : A → Type κ) (xs : List A) {a : A} → All P xs → Among a xs → P a
All-Among P [] p m = absurd m
All-Among P (x ∷ xs) p (inl e) = subst P (sym e) p.0
All-Among P (x ∷ xs) p (inr m) = All-Among P xs p.1 m

pub Among-map-keep :
    {A B : Type 0} (f : A → B) (p : A → Bool) (xs : List A) (b : B)
    → Among b (map f (keep p xs))
    → (a : A) × Among a xs × (p a ≡ true) × (f a ≡ b)
Among-map-keep f p [] b h = absurd h
Among-map-keep {A} f p (x ∷ xs) b h = split (p x) refl h (Among-map-keep f p xs b)
  where
    split :
        (t : Bool)
        → p x ≡ t
        → Among b (map f (if t then x ∷ keep p xs else keep p xs))
        → (Among b (map f (keep p xs)) → (a : A) × Among a xs × (p a ≡ true) × (f a ≡ b))
        → (a : A) × Among a (x ∷ xs) × (p a ≡ true) × (f a ≡ b)
    split true e (inl same) rest = (x, inl refl, e, sym same)
    split true e (inr m) rest = let (a, i, t, q) = rest m in (a, inr i, t, q)
    split false e m rest = let (a, i, t, q) = rest m in (a, inr i, t, q)

pub Among-keep-map :
    {A B : Type 0} (f : A → B) (p : A → Bool) (xs : List A) (a : A)
    → Among a xs
    → p a ≡ true
    → Among (f a) (map f (keep p xs))
Among-keep-map f p [] a m h = absurd m
Among-keep-map f p (x ∷ xs) a (inl e) h =
    let first : p x ≡ true = subst (λ y. p y ≡ true) e h in rw first (inl (ap f e))
Among-keep-map f p (x ∷ xs) a (inr m) h = split (p x) refl (Among-keep-map f p xs a m h)
  where
    split :
        (t : Bool)
        → p x ≡ t
        → Among (f a) (map f (keep p xs))
        → Among (f a) (map f (if t then x ∷ keep p xs else keep p xs))
    split true e i = inr i
    split false e i = i
