-- ===== src/Playground/Windows.antt =====
-- A window after a call holds the entries that are newer than the cutoff, in whichever order the
-- loop visits the keys.
use mathlib.Core.Bool.{Bool-set}
use mathlib.Core.Logic.{∥∥₁_elim}
use mathlib.Core.List.{Perm, Permᴰ}
use mathlib.Core.List.Permᴰ.{nil, cons, swap, trans}
use go_cdr_fraud_detector.Base.{
  sym, All-map, ◌≡◌, refl, ◌∙◌, Bool, true, false, not, ◌&&◌, ◌||◌, none, List, [], ◌∷◌, All, keep,
  keep-keep, keep_congr, keep-All, arith,
}
use go_cdr_fraud_detector.Base.Int.{ℤ, leb_ℤ}
use go_cdr_fraud_detector.Base.Text.{Str, str_eq, str_eq_iff, str_eq_refl}
use go_cdr_fraud_detector.Base.Dict.{Dict, lookup, erase, keys, Distinct}
use go_cdr_fraud_detector.Playground.{trim, trim_step}

-- The entries that a cutoff leaves.
abbrev pub live : ℤ → Str × ℤ → Bool
live cutoff (id, ms) = not (leb_ℤ ms cutoff)

abbrev mem : Str → List Str → Bool
mem k [] = false
mem k (x ∷ xs) = str_eq k x || mem k xs

pub erase-keep : (k : Str) (w : Dict ℤ) → erase k w ≡ keep (λ e. not (str_eq e.0 k)) w
unfolding erase
erase-keep k [] = refl
erase-keep k ((j, v) ∷ w) = ground (arith, erase-keep k w)

-- Away from `id`, or where the entry is live, a round keeps everything.
abbrev survives : ℤ → Str → Str × ℤ → Bool
survives cutoff id e = not (str_eq e.0 id && leb_ℤ e.1 cutoff)

keep_absent :
    (cutoff : ℤ) (id : Str) (w : Dict ℤ) → lookup id w ≡ none → keep (survives cutoff id) w ≡ w
unfolding lookup
keep_absent cutoff id [] h = refl
keep_absent cutoff id ((j, v) ∷ w) h = ground (arith, keep_absent cutoff id w)

erase_absent : (id : Str) (w : Dict ℤ) → lookup id w ≡ none → erase id w ≡ w
unfolding lookup erase
erase_absent id [] h = refl
erase_absent id ((j, v) ∷ w) h = ground (arith, erase_absent id w)

trim_step-keep :
    (cutoff : ℤ) (id : Str) (w : Dict ℤ)
    → Distinct w
    → trim_step cutoff id w ≡ keep (survives cutoff id) w
unfolding trim_step lookup erase
trim_step-keep cutoff id [] d = refl
trim_step-keep cutoff id ((j, v) ∷ w) d = ground (
  arith,
  str_eq_iff j id,
  erase_absent id w,
  keep_absent cutoff id w,
  trim_step-keep cutoff id w d.1,
)

lookup-keep :
    (p : Str × ℤ → Bool) (k : Str) (w : Dict ℤ) → lookup k w ≡ none → lookup k (keep p w) ≡ none
unfolding lookup
lookup-keep p k [] h = refl
lookup-keep p k ((j, v) ∷ w) h = ground (arith, lookup-keep p k w)

pub keep-Distinct : (p : Str × ℤ → Bool) (w : Dict ℤ) → Distinct w → Distinct (keep p w)
keep-Distinct p [] d = tt
keep-Distinct p ((j, v) ∷ w) d = ground (arith, lookup-keep p j w d.0, keep-Distinct p w d.1)

pub All-of {ℓ κ} : {A : Type ℓ} {P : A → Type κ} → ((a : A) → P a) → (xs : List A) → All P xs
All-of h [] = tt
All-of h (x ∷ xs) = (h x, All-of h xs)

-- A loop over some keys drops the stale entries under those keys.
trim-keep :
    (cutoff : ℤ) (ids : List Str) (w : Dict ℤ)
    → Distinct w
    → trim cutoff ids w ≡ keep (λ e. not (mem e.0 ids && leb_ℤ e.1 cutoff)) w
unfolding trim
trim-keep cutoff [] w d = sym (keep-All _ w (All-of (λ e. refl) w))
trim-keep cutoff (id ∷ ids) w d = rw (trim_step-keep cutoff id w d) (
    trim-keep cutoff ids (keep (survives cutoff id) w) (keep-Distinct _ w d)
    ∙ keep-keep _ _ w
    ∙ keep_congr (λ e. survives cutoff id e && not (mem e.0 ids && leb_ℤ e.1 cutoff))
        (λ e. not (mem e.0 (id ∷ ids) && leb_ℤ e.1 cutoff)) w (All-of (λ e. ground arith) w))

mem-Permᴰ : (k : Str) {xs ys : List Str} → Permᴰ xs ys → mem k xs ≡ mem k ys
mem-Permᴰ k nil = refl
mem-Permᴰ k (cons e d) = ground (arith, mem-Permᴰ k d, e)
mem-Permᴰ k (swap e f) = ground (arith, e, f)
mem-Permᴰ k (trans d d') = mem-Permᴰ k d ∙ mem-Permᴰ k d'

mem-keys :
    (w : Dict ℤ) (ids : List Str)
    → ((k : Str) → mem k (keys w) ≡ true → mem k ids ≡ true)
    → All (λ e. mem e.0 ids ≡ true) w
mem-keys [] ids h = tt
mem-keys ((j, v) ∷ w) ids h =
    (h j (ground (arith, str_eq_refl j)), mem-keys w ids (λ k m. h k (ground arith)))

-- `trim` over a permutation of the keys leaves the live entries.
pub trim-live :
    (cutoff : ℤ) (ids : List Str) (w : Dict ℤ)
    → Distinct w
    → Perm ids (keys w)
    → trim cutoff ids w ≡ keep (live cutoff) w
trim-live cutoff ids w d p =
    trim-keep cutoff ids w d
    ∙ keep_congr (λ e. not (mem e.0 ids && leb_ℤ e.1 cutoff)) (live cutoff) w
        (All-map {P = λ e. mem e.0 ids ≡ true} (λ e h. ground arith) w
          (mem-keys w ids λ k m. ∥∥₁_elim p (Bool-set (mem k ids) true) (λ d. mem-Permᴰ k d ∙ m)))
