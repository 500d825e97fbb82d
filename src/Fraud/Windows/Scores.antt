-- ===== src/Fraud/Windows/Scores.antt =====
-- Times as scores of a sorted set.
use go_cdr_fraud_detector.Base.{
  suc, ◌≡◌, refl, ap, Bool, not, ◌&&◌, [], ◌∷◌, All, keep, length, arith,
}
use go_cdr_fraud_detector.Base.Int.{ℤ, pos, ◌≤ℤ◌}
use go_cdr_fraud_detector.Base.Text.{Str}
use go_cdr_fraud_detector.Base.Dict.{Dict, insert, erase}
use go_cdr_fraud_detector.Go.{Go}
use go_cdr_fraud_detector.Playground.Windows.{live}
use go_cdr_fraud_detector.Fraud.Windows.SortedSets.{IsExact, ComparesExactly}

-- A time that float64 represents, after 1970.
abbrev pub IsTime : Str × ℤ → Type 0
IsTime (id, ms) = (pos 0 ≤ℤ ms) × IsExact ms

-- The set with these times as scores.
unfoldable pub scored : {F : Type 0} → Go F → Dict ℤ → Dict F
scored go [] = []
scored go ((id, ms) ∷ w) = (id, go.of_int ms) ∷ scored go w

pub keep-IsTime : (p : Str × ℤ → Bool) (w : Dict ℤ) → All IsTime w → All IsTime (keep p w)
keep-IsTime p [] h = tt
keep-IsTime p (e ∷ w) h = ground (arith, keep-IsTime p w h.1, h.0)

erase-IsTime : (id : Str) (w : Dict ℤ) → All IsTime w → All IsTime (erase id w)
unfolding erase
erase-IsTime id [] h = tt
erase-IsTime id ((j, ms) ∷ w) h = ground (arith, erase-IsTime id w h.1, h.0)

pub insert-IsTime :
    (id : Str) (ms : ℤ) (w : Dict ℤ) → IsTime (id, ms) → All IsTime w → All IsTime (insert id ms w)
unfolding insert
insert-IsTime id ms w now h = (now, erase-IsTime id w h)

module _ {F : Type 0} (go : Go F) where
  erase-scored : (id : Str) (w : Dict ℤ) → erase id (scored go w) ≡ scored go (erase id w)
  unfolding scored erase
  erase-scored id [] = refl
  erase-scored id ((j, ms) ∷ w) = ground (arith, erase-scored id w)

  pub insert-scored :
      (id : Str) (ms : ℤ) (w : Dict ℤ)
      → insert id (go.of_int ms) (scored go w) ≡ scored go (insert id ms w)
  unfolding scored insert
  insert-scored id ms w = ap (λ (z : Dict F). (id, go.of_int ms) ∷ z) (erase-scored id w)

  pub length-scored : (w : Dict ℤ) → length (scored go w) ≡ length w
  unfolding scored
  length-scored [] = refl
  length-scored (e ∷ w) = ap suc (length-scored w)

  -- The scores that are not between 0 and the cutoff belong to the live entries.
  pub keep-scored :
      (exact : ComparesExactly go) (cutoff : ℤ) (w : Dict ℤ)
      → IsExact cutoff
      → All IsTime w
      → keep
          (λ e. not (go.le (go.of_int (pos 0)) e.1 && go.le e.1 (go.of_int cutoff)))
          (scored go w)
        ≡ scored go (keep (live cutoff) w)
  unfolding scored
  keep-scored exact cutoff [] c h = refl
  keep-scored exact cutoff ((id, ms) ∷ w) c h =
      ground (arith, exact (pos 0) ms, exact ms cutoff, keep-scored exact cutoff w c h.1, h.0, c)
