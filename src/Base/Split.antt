-- ===== src/Base/Split.antt =====
-- strings.Split by one byte, strings.Join, and strings.Contains.
use Prim.Native.Nat.{ℕ}
use mathlib.Core.Path.{◌≡◌, refl, ap, ◌∙◌}
use mathlib.Core.Logic.{◌≢◌}
use mathlib.Core.Bool.{Bool, ◌||◌}
use mathlib.Core.List.{List, [], ◌∷◌, ◌++◌}
use native.Mathlib.Omega.{arith}
use go_cdr_fraud_detector.Base.Tests.{◌==◌, if◌then◌else◌}
use go_cdr_fraud_detector.Base.Lists.{All}
use go_cdr_fraud_detector.Base.Text.{Str, has_prefix}

-- One more byte at the front of the first part.
unfoldable pub onto_first : ℕ → List Str → List Str
onto_first x [] = (x ∷ []) ∷ []
onto_first x (w ∷ ws) = (x ∷ w) ∷ ws

unfoldable pub split : ℕ → Str → List Str
unfolding onto_first
split c [] = [] ∷ []
split c (x ∷ s) = let rest = split c s in if x == c then [] ∷ rest else onto_first x rest

unfoldable pub join : ℕ → List Str → Str
join c [] = []
join c (w ∷ []) = w
join c (w ∷ v ∷ ws) = w ++ (c ∷ join c (v ∷ ws))

unfoldable pub contains : Str → Str → Bool
contains [] part = has_prefix [] part
contains (x ∷ s) part = has_prefix (x ∷ s) part || contains s part

abbrev pub Without : ℕ → Str → Type 0
Without c = All (λ x. x ≢ c)

pub split-ne-nil : (c : ℕ) (s : Str) → split c s ≢ []
unfolding split
split-ne-nil c [] e = cc
split-ne-nil c (x ∷ s) e = ground (arith, split-ne-nil c s)

-- The parts of a text hold no separator, and joined they are the text again.
onto_first-Without :
    (c x : ℕ) (ws : List Str) → x ≢ c → All (Without c) ws → All (Without c) (onto_first x ws)
unfolding onto_first
onto_first-Without c x [] h p = ((h, tt), tt)
onto_first-Without c x (w ∷ ws) h p = ((h, p.0), p.1)

pub split-Without : (c : ℕ) (s : Str) → All (Without c) (split c s)
unfolding split
split-Without c [] = (tt, tt)
split-Without c (x ∷ s) = ground (arith, split-Without c s, onto_first-Without c x (split c s))

join-onto_first : (c x : ℕ) (ws : List Str) → ws ≢ [] → join c (onto_first x ws) ≡ x ∷ join c ws
unfolding onto_first join
join-onto_first c x [] h = absurd (h refl)
join-onto_first c x (w ∷ []) h = refl
join-onto_first c x (w ∷ v ∷ ws) h = refl

join-nil-cons : (c : ℕ) (ws : List Str) → ws ≢ [] → join c ([] ∷ ws) ≡ c ∷ join c ws
unfolding join
join-nil-cons c [] h = absurd (h refl)
join-nil-cons c (w ∷ ws) h = refl

pub join-split : (c : ℕ) (s : Str) → join c (split c s) ≡ s
unfolding split join
join-split c [] = ground arith
join-split c (x ∷ s) = ground (
  arith,
  join-split c s,
  join-onto_first c x (split c s) (split-ne-nil c s),
  join-nil-cons c (split c s) (split-ne-nil c s),
)

split-append : (c : ℕ) (w s : Str) → Without c w → split c (w ++ c ∷ s) ≡ w ∷ split c s
unfolding split
split-append c [] s h = ground arith
split-append c (x ∷ w) s h = ground (arith, split-append c w s h.1, h.0)

split_one : (c : ℕ) (w : Str) → Without c w → split c w ≡ w ∷ []
unfolding split
split_one c [] h = refl
split_one c (x ∷ w) h = ground (arith, split_one c w h.1, h.0)

pub split-join :
    (c : ℕ) (w : Str) (ws : List Str)
    → All (Without c) (w ∷ ws)
    → split c (join c (w ∷ ws)) ≡ w ∷ ws
unfolding join
split-join c w [] h = split_one c w h.0
split-join c w (v ∷ ws) h =
    split-append c w (join c (v ∷ ws)) h.0 ∙ ap (λ r. w ∷ r) (split-join c v ws h.1)
