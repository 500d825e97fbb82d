-- ===== src/Subscriber.antt =====
-- services/subscriber/main.go: the handlers of the gRPC reference service. A reply message has the
-- fields of the catalog's entry, as proto/cdr/v1/reference.proto declares them.
use go_cdr_fraud_detector.Base.{Bool, none, some}
use go_cdr_fraud_detector.Base.Text.{Str}
use go_cdr_fraud_detector.Go.{Go}
use go_cdr_fraud_detector.Geo
use go_cdr_fraud_detector.Geo.{Cell}
use go_cdr_fraud_detector.Tariff
use go_cdr_fraud_detector.Tariff.{Tariff}

pub record CellReply (F : Type 0) : Type 0 where
  pub cell_id : Str
  pub lat : F
  pub lon : F
  pub name : Str

pub record TariffReply (F : Type 0) : Type 0 where
  pub prefix : Str
  pub rate_per_min : F
  pub premium : Bool
  pub name : Str

-- A handler's result: a reply, or a status. Only NotFound occurs.
pub data Reply {ℓ} (A : Type ℓ) : Type ℓ where
  reply : A → Reply A
  not_found : Str → Reply A

module _ {F : Type 0} ⦃go : Go F⦄ where
  unfoldable pub get_cell : Str → Reply (CellReply F)
  get_cell id = elim (Geo.lookup {F = F} id) [
    | none ↦ not_found id
    | some c ↦ reply (record { cell_id = c.id; lat = c.lat; lon = c.lon; name = c.name })
  ]

  unfoldable pub get_tariff : Str → Reply (TariffReply F)
  get_tariff destination =
      let t = Tariff.lookup {F = F} destination in
      reply (record {
        prefix = t.prefix;
        rate_per_min = t.rate_per_min;
        premium = t.premium;
        name = t.name;
      })
