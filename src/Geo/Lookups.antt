-- ===== src/Geo/Lookups.antt =====
-- The index of the cells answers with the entries of the catalog.
use go_cdr_fraud_detector.Base.{
  ◌≡◌, refl, ◌⊎◌, inl, inr, ◌↔◌, false, List, [], ◌∷◌, some, All, Among, arith,
}
use go_cdr_fraud_detector.Base.Text.{Str, str_eq, str_eq_iff, str_eq_refl}
use go_cdr_fraud_detector.Base.Dict.{Dict, insert, lookup-insert, lookup-nil, lookup as dict_lookup}
use go_cdr_fraud_detector.Go.{Go}
use go_cdr_fraud_detector.Geo.{Cell, catalog, by_id, index_cells, lookup}

-- No later cell has the id of an earlier one.
abbrev UniqueIds : {F : Type 0} → List (Cell F) → Type 0
UniqueIds [] = Unit
UniqueIds (c ∷ cs) = All (λ d. str_eq d.id c.id ≡ false) cs × UniqueIds cs

catalog-UniqueIds : {F : Type 0} (go : Go F) → UniqueIds (catalog ⦃go = go⦄)
unfolding catalog str_eq
catalog-UniqueIds go = ground arith

index_other :
    {F : Type 0} (k : Str) (m : Dict (Cell F)) (cs : List (Cell F))
    → All (λ d. str_eq d.id k ≡ false) cs
    → dict_lookup k (index_cells m cs) ≡ dict_lookup k m
unfolding index_cells
index_other k m [] h = refl
index_other k m (c ∷ cs) h =
    ground (arith, index_other k (insert c.id c m) cs h.1, lookup-insert c.id k c m, h.0)

index_finds :
    {F : Type 0} (m : Dict (Cell F)) (cs : List (Cell F)) {c : Cell F}
    → UniqueIds cs
    → Among c cs
    → dict_lookup c.id (index_cells m cs) ≡ some c
unfolding index_cells
index_finds m [] u a = absurd a
index_finds m (d ∷ cs) u (inr a) = index_finds (insert d.id d m) cs u.1 a
index_finds m (d ∷ cs) {c} u (inl e) = rw e (
    ground (
      arith,
      index_other d.id (insert d.id d m) cs u.0,
      lookup-insert d.id d.id d m,
      str_eq_refl d.id,
    ))

index_sound :
    {F : Type 0} (id : Str) (m : Dict (Cell F)) (cs : List (Cell F)) (c : Cell F)
    → dict_lookup id (index_cells m cs) ≡ some c
    → (Among c cs × (c.id ≡ id)) ⊎ (dict_lookup id m ≡ some c)
unfolding index_cells
index_sound id m [] c h = inr h
index_sound id m (d ∷ cs) c h =
    ground
      (arith, index_sound id (insert d.id d m) cs c, lookup-insert d.id id d m, str_eq_iff d.id id)

-- Lookup answers with a cell exactly if the cell stands in the catalog under that id.
pub lookup-Among_iff :
    {F : Type 0} (go : Go F) (id : Str) (c : Cell F)
    → (lookup ⦃go = go⦄ id ≡ some c) ↔ (Among c (catalog ⦃go = go⦄) × (c.id ≡ id))
unfolding lookup by_id
lookup-Among_iff go id c = (
  λ h. sound (index_sound id [] (catalog ⦃go = go⦄) c h),
  λ h. rw (← h.1) (index_finds [] (catalog ⦃go = go⦄) (catalog-UniqueIds go) h.0),
)
  where
    sound :
        (Among c (catalog ⦃go = go⦄) × (c.id ≡ id)) ⊎ (dict_lookup {V = Cell _} id [] ≡ some c)
        → Among c (catalog ⦃go = go⦄) × (c.id ≡ id)
    sound (inl h) = h
    sound (inr h) = cc (lookup-nil {V = Cell _} id)
