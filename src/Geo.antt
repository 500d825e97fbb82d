-- ===== src/Geo.antt =====
-- internal/geo/geo.go: the cell towers, their lookup by id, and the distance of two points.
pub mod Lookups
use go_cdr_fraud_detector.Base.{List, [], ◌∷◌, Option, foldl, ◌*◌}
use go_cdr_fraud_detector.Base.Int.{pos, negsuc}
use go_cdr_fraud_detector.Base.Text.{Str, codes}
use go_cdr_fraud_detector.Base.Dict.{Dict, lookup as dict_lookup, insert}
use go_cdr_fraud_detector.Go.{Go}

pub record Cell (F : Type 0) : Type 0 where
  pub id : Str
  pub lat : F
  pub lon : F
  pub name : Str

abbrev cell : {F : Type 0} → Str → F → F → Str → Cell F
cell id lat lon name = record { id = id; lat = lat; lon = lon; name = name }

-- The loop that fills byID.
unfoldable pub index_cells : {F : Type 0} → Dict (Cell F) → List (Cell F) → Dict (Cell F)
index_cells m [] = m
index_cells m (c ∷ rest) = index_cells (insert c.id c m) rest

module _ {F : Type 0} ⦃go : Go F⦄ where
  unfoldable pub catalog : List (Cell F)
  catalog =
      cell (codes "CELL-IST-01") (go.decimal (pos 410082) 4) (go.decimal (pos 289784) 4)
        (codes "Istanbul")
      ∷ cell (codes "CELL-IST-02") (go.decimal (pos 409930) 4) (go.decimal (pos 290300) 4)
          (codes "Istanbul-Kadikoy")
      ∷ cell (codes "CELL-ANK-01") (go.decimal (pos 399334) 4) (go.decimal (pos 328597) 4)
          (codes "Ankara")
      ∷ cell (codes "CELL-IZM-01") (go.decimal (pos 384237) 4) (go.decimal (pos 271428) 4)
          (codes "Izmir")
      ∷ cell (codes "CELL-ANT-01") (go.decimal (pos 368969) 4) (go.decimal (pos 307133) 4)
          (codes "Antalya")
      ∷ cell (codes "CELL-BUR-01") (go.decimal (pos 401826) 4) (go.decimal (pos 290665) 4)
          (codes "Bursa")
      ∷ cell (codes "CELL-KON-01") (go.decimal (pos 378746) 4) (go.decimal (pos 324932) 4)
          (codes "Konya")
      ∷ cell (codes "CELL-ADA-01") (go.decimal (pos 370000) 4) (go.decimal (pos 353213) 4)
          (codes "Adana")
      ∷ cell (codes "CELL-GAZ-01") (go.decimal (pos 370662) 4) (go.decimal (pos 373833) 4)
          (codes "Gaziantep")
      ∷ cell (codes "CELL-SAM-01") (go.decimal (pos 412867) 4) (go.decimal (pos 363300) 4)
          (codes "Samsun")
      ∷ cell (codes "CELL-TRA-01") (go.decimal (pos 410027) 4) (go.decimal (pos 397168) 4)
          (codes "Trabzon")
      ∷ cell (codes "CELL-DIY-01") (go.decimal (pos 379144) 4) (go.decimal (pos 402306) 4)
          (codes "Diyarbakir")
      ∷ cell (codes "CELL-ERZ-01") (go.decimal (pos 399043) 4) (go.decimal (pos 412679) 4)
          (codes "Erzurum")
      ∷ cell (codes "CELL-BER-01") (go.decimal (pos 525200) 4) (go.decimal (pos 134050) 4)
          (codes "Berlin")
      ∷ cell (codes "CELL-LON-01") (go.decimal (pos 515074) 4) (go.decimal (negsuc 1277) 4)
          (codes "London")
      ∷ cell (codes "CELL-PAR-01") (go.decimal (pos 488566) 4) (go.decimal (pos 23522) 4)
          (codes "Paris")
      ∷ cell (codes "CELL-DXB-01") (go.decimal (pos 252048) 4) (go.decimal (pos 552708) 4)
          (codes "Dubai")
      ∷ cell (codes "CELL-NYC-01") (go.decimal (pos 407128) 4) (go.decimal (negsuc 740059) 4)
          (codes "New York")
      ∷ cell (codes "CELL-TYO-01") (go.decimal (pos 356762) 4) (go.decimal (pos 1396503) 4)
          (codes "Tokyo")
      ∷ cell (codes "CELL-SYD-01") (go.decimal (negsuc 338687) 4) (go.decimal (pos 1512093) 4)
          (codes "Sydney")
      ∷ []

  unfoldable pub by_id : Dict (Cell F)
  by_id = index_cells [] catalog

  -- Lookup's (Cell, bool).
  unfoldable pub lookup : Str → Option (Cell F)
  lookup id = dict_lookup id by_id

  unfoldable pub rad : F → F
  rad deg = go.over (go.times deg go.pi) (go.of_int (pos 180))

  unfoldable pub haversine_km : F → F → F → F → F
  unfolding rad
  haversine_km lat1 lon1 lat2 lon2 =
      let d_lat = rad (go.minus lat2 lat1) in
      let d_lon = rad (go.minus lon2 lon1) in
      let two = go.of_int (pos 2) in
      let a = go.plus (go.times (go.sin (go.over d_lat two)) (go.sin (go.over d_lat two))) (
        go.times
          (go.times (go.times (go.cos (rad lat1)) (go.cos (rad lat2))) (go.sin (go.over d_lon two)))
          (go.sin (go.over d_lon two))) in
      go.times (go.of_int (pos (6371 * 2)))
        (go.atan2 (go.sqrt a) (go.sqrt (go.minus (go.of_int (pos 1)) a)))
