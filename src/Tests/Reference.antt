-- ===== src/Tests/Reference.antt =====
-- A fraud service whose reference service is the one of the repository.
use go_cdr_fraud_detector.Base.{ℕ, ◌≡◌, refl, ◌⊎◌, Option, none, some, false}
use go_cdr_fraud_detector.Base.Text.{Str, codes, str_eq, has_prefix}
use go_cdr_fraud_detector.Base.Dict
use go_cdr_fraud_detector.Cdr.{Cdr}
use go_cdr_fraud_detector.Go.Sample.{Fixed, sample}
use go_cdr_fraud_detector.Geo
use go_cdr_fraud_detector.Geo.{Cell}
use go_cdr_fraud_detector.Tariff
use go_cdr_fraud_detector.Subscriber
use go_cdr_fraud_detector.Subscriber.{Reply, reply, not_found}
use go_cdr_fraud_detector.Fraud.Cache.{ok, err}
use go_cdr_fraud_detector.Fraud.Services.{Services}
use go_cdr_fraud_detector.Fraud.Processor.{
  Memory, outwards, get_cell_geo, get_tariff, visit, accrue, check_impossible_travel, check_irsf,
  handle,
}
use go_cdr_fraud_detector.Fraud.Processor.Loop.{new_memory, round}
use go_cdr_fraud_detector.Fraud.Processor.Reference.{AsksSubscriber, tariff_of}
use go_cdr_fraud_detector.Fraud.Processor.Reference.Rounds.{Reached, starts, rounds, checks-catalog}
use go_cdr_fraud_detector.Fraud.Processor.Reference.Unlisted.{without_reference, handle-unlisted}
use go_cdr_fraud_detector.Tests.Windows.{received, received-reply}
use go_cdr_fraud_detector.Tests.Processor.{record_nine, lone_services, defaults}

-- A call from a cell that is not in the catalog.
abbrev elsewhere : Cdr
elsewhere = record record_nine { cell_id = codes "CELL-XXX-00" }

abbrev joined : Services Fixed ℕ Str
joined = record lone_services {
  get_cell = λ timeout id s. (s, received (Subscriber.get_cell id));
  get_tariff = λ timeout dest s. (s, received (Subscriber.get_tariff dest));
  unmarshal_cdr = λ value. ok elsewhere;
}

joined-AsksSubscriber : AsksSubscriber sample joined
joined-AsksSubscriber = record {
  cell_reply = λ timeout id s r h. received-reply (Subscriber.get_cell id) r h;
  tariff_reply = λ timeout dest s r h. received-reply (Subscriber.get_tariff dest) r h;
}

abbrev no_env : Str → Option Str
no_env key = none

-- After the first round.
abbrev running : Memory Fixed ℕ
running = (round joined defaults (new_memory joined no_env 0)).0

running-Reached : Reached sample joined defaults no_env running
running-Reached = rounds (starts 0)

checks-catalog_example :
    (let (st', found) = get_cell_geo joined defaults record_nine.cell_id running in
      ((e : Str) × (found ≡ err e)
        × (check_impossible_travel joined defaults record_nine running ≡ (st', ok tt)))
      ⊎ ((c : Cell Fixed) × (Geo.lookup record_nine.cell_id ≡ some c)
          × (check_impossible_travel joined defaults record_nine running
              ≡ outwards
                  (visit joined defaults record_nine
                    (record { lat = c.lat; lon = c.lon; at = record_nine.start_time }))
                  st')))
    × (let (st', found) = get_tariff joined defaults record_nine.callee_msisdn running in
        ((e : Str) × (found ≡ err e)
          × (check_irsf joined defaults record_nine running ≡ (st', ok tt)))
        ⊎ (check_irsf joined defaults record_nine running
            ≡ outwards
                (accrue joined defaults record_nine (tariff_of sample record_nine.callee_msisdn))
                st'))
checks-catalog_example =
    checks-catalog sample joined joined-AsksSubscriber defaults no_env record_nine running
      running-Reached

elsewhere-unknown : Geo.lookup {F = Fixed} elsewhere.cell_id ≡ none
unfolding Geo.lookup Geo.by_id Geo.index_cells Geo.catalog Dict.lookup Dict.insert Dict.erase str_eq
elsewhere-unknown = refl

elsewhere-ordinary : (Tariff.lookup {F = Fixed} elsewhere.callee_msisdn).premium ≡ false
unfolding Tariff.lookup Tariff.longest_from Tariff.catalog Tariff.fallback has_prefix
elsewhere-ordinary = refl

handle-unlisted_example :
    handle joined defaults (codes "r9") running
    ≡ without_reference sample joined defaults elsewhere running
handle-unlisted_example =
    handle-unlisted sample joined joined-AsksSubscriber defaults no_env elsewhere (codes "r9")
      running refl elsewhere-unknown elsewhere-ordinary running-Reached
