-- ===== src/Fraud/Windows/SortedSets.antt =====
-- Sorted sets as Redis documents them, for the commands of the windows in services/fraud.
use go_cdr_fraud_detector.Base.{
  ℕ, ◌*◌, ◌^◌, ◌≤◌, ◌≡◌, Bool, not, ◌&&◌, none, some, List, [], ◌∷◌, All, keep, length,
  if◌then◌else◌, true, refl, arith, ap, ◌∙◌,
}
use go_cdr_fraud_detector.Base.Int.{ℤ, pos, leb_ℤ, ltb_ℤ, ◌≤ℤ◌, ◌*ℤ◌, negsuc}
use go_cdr_fraud_detector.Base.Int64.{mul64, wrap64_of_InInt64}
use go_cdr_fraud_detector.Base.Text.{Str, codes}
use go_cdr_fraud_detector.Base.Dict.{Dict, lookup, insert}
use go_cdr_fraud_detector.Go.{Go}
use go_cdr_fraud_detector.Fraud.Cache.{ok}
use go_cdr_fraud_detector.Fraud.Windows.{idle_ttl}
use go_cdr_fraud_detector.Fraud.Services.{
  Services, Command, z_add, z_rem_range_by_score, z_card, z_range, expire, Answer, number, members,
}

-- The command is about this key.
abbrev pub IsOn : {F : Type 0} → Str → Command F → Type 0
IsOn key (z_add k score m) = k ≡ key
IsOn key (z_rem_range_by_score k lo hi) = k ≡ key
IsOn key (z_card k) = k ≡ key
IsOn key (z_range k from to) = k ≡ key
IsOn key (expire k ttl) = k ≡ key

-- How Redis reads a bound, and which members a range of positions has.
pub record Reading (F : Type 0) : Type 0 where
  pub score_of : Str → F
  pub range : ℤ → ℤ → Dict F → List Str

module _ {F : Type 0} (go : Go F) (reading : Reading F) where
  abbrev pub within : Str → Str → Str × F → Bool
  within lo hi e = go.le (reading.score_of lo) e.1 && go.le e.1 (reading.score_of hi)

  -- What a command leaves of a set that is a list of members with their scores. EXPIRE deletes the key at
  -- once if the time to live is not positive, and replies 0 if there is no key.
  abbrev pub effect : Command F → Dict F → Dict F
  effect (z_add k score m) z = insert m score z
  effect (z_rem_range_by_score k lo hi) z = keep (λ e. not (within lo hi e)) z
  effect (z_card k) z = z
  effect (z_range k from to) z = z
  effect (expire k ttl) z = if ltb_ℤ (pos 0) ttl then z else []

  abbrev pub reply_to : Command F → Dict F → Answer
  reply_to (z_add k score m) z = number (elim (lookup m z) [ none ↦ pos 1 | some old ↦ pos 0 ])
  reply_to (z_rem_range_by_score k lo hi) z = number (pos (length (keep (within lo hi) z)))
  reply_to (z_card k) z = number (pos (length z))
  reply_to (z_range k from to) z = members (reading.range from to z)
  reply_to (expire k ttl) z = number (elim z [ [] ↦ pos 0 | e ∷ es ↦ pos 1 ])

  abbrev pub effects : List (Command F) → Dict F → Dict F
  effects [] z = z
  effects (c ∷ cs) z = effects cs (effect c z)

  abbrev pub replies : List (Command F) → Dict F → List Answer
  replies [] z = []
  replies (c ∷ cs) z = reply_to c z ∷ replies cs (effect c z)

-- The entries of the set under a key, the latest addition first. A transaction on one key that succeeds
-- executes its commands in their order. A bound that is an integer is read as the nearest float64,
-- which is also what Go makes of it.
pub record HasSortedSets {F S E : Type 0} (go : Go F) (services : Services F S E) : Type 0 where
  pub reading : Reading F
  pub zset : Str → S → Dict F
  pub executed :
      (key : Str) (cs : List (Command F)) (s : S) (answers : List Answer)
      → All (IsOn key) cs
      → (services.exec cs s).1 ≡ ok answers
      → (answers ≡ replies go reading cs (zset key s))
        × (zset key (services.exec cs s).0 ≡ effects go reading cs (zset key s))
  pub zero_bound : reading.score_of (codes "0") ≡ go.of_int (pos 0)
  pub int_bound : (n : ℤ) → reading.score_of (go.show_int n) ≡ go.of_int n

-- From -2 ^ 53 to 2 ^ 53, where float64 represents every integer.
abbrev pub IsExact : ℤ → Type 0
IsExact n = (negsuc 9_007_199_254_740_991 ≤ℤ n) × (n ≤ℤ pos 9_007_199_254_740_992)

-- On them the comparison of float64 is that of the integers.
abbrev pub ComparesExactly : {F : Type 0} → Go F → Type 0
ComparesExactly go =
    (a b : ℤ) → IsExact a → IsExact b → go.le (go.of_int a) (go.of_int b) ≡ leb_ℤ a b

-- A window of at least a millisecond, and of at most 2 ^ 62 nanoseconds, so that twice the window is a
-- positive time to live in int64.
abbrev pub IsWindow : ℤ → Type 0
IsWindow win = (pos 1 ≤ℤ win) × (win ≤ℤ pos 4_611_686_018_427)

-- The time to live is then twice the window, without overflow.
idle_ttl-twice : (n : ℕ) → n ≤ 4_611_686_018_427 → idle_ttl (pos n) ≡ pos (n * 2_000_000)
unfolding mul64 ◌*ℤ◌
idle_ttl-twice n small =
    ap (λ d. mul64 d (pos (10 ^ 6))) (wrap64_of_InInt64 (pos n *ℤ pos 2) (ground arith))
    ∙ wrap64_of_InInt64 ((pos n *ℤ pos 2) *ℤ pos (10 ^ 6)) (ground arith)
    ∙ ground arith

pub idle_ttl_pos : (win : ℤ) → IsWindow win → ltb_ℤ (pos 0) (idle_ttl win) ≡ true
idle_ttl_pos (pos n) h = rw (idle_ttl-twice n (omega arith)) (ground arith)
idle_ttl_pos (negsuc n) h = absurd (omega arith)

-- What EXPIRE leaves of a set, if the time to live is that of such a window.
pub expire_lem :
    {A : Type 0} (win : ℤ) (z : List A)
    → IsWindow win
    → (if ltb_ℤ (pos 0) (idle_ttl win) then z else []) ≡ z
expire_lem win z h = rw (idle_ttl_pos win h) refl
