-- ===== src/Tests/ReadApi.antt =====
-- A database that is down for some statements, and a topic with messages.
use go_cdr_fraud_detector.Base.{
  ℕ, zero, suc, ◌≤◌, ◌≡◌, refl, ◌⊎◌, inl, true, false, Option, none, some, List, [], ◌∷◌, length,
  All, arith,
}
use go_cdr_fraud_detector.Base.Int.{pos}
use go_cdr_fraud_detector.Base.Text.{Str, codes, str_eq}
use go_cdr_fraud_detector.Cdr.{FraudAlert}
use go_cdr_fraud_detector.Fraud.Cache.{Outcome, ok, err}
use go_cdr_fraud_detector.Fraud.Services.{Fetched}
use go_cdr_fraud_detector.Go.Sample.{Fixed}
use go_cdr_fraud_detector.ReadApi.{
  Services, Statement, create_table, insert_alert, store_alert, consume_round, goes_on, get_alerts,
  text, alerts_json,
}
use go_cdr_fraud_detector.ReadApi.Table.{HasTable, insert_new, has_key, upserts, Unique}
use go_cdr_fraud_detector.ReadApi.Consume.{Consumes, rests, reads, Consumes-upserts}
use go_cdr_fraud_detector.ReadApi.Ready.{StoredAfter, at_once, later, consume_round-commits}
use go_cdr_fraud_detector.ReadApi.Routes.{Limits, Listed, get_alerts-Listed}

-- The rows; how many statements are still to fail; the messages to come; how many are committed.
pub record World : Type 0 where
  pub rows : List (FraudAlert Fixed)
  pub down : ℕ
  pub messages : List Fetched
  pub committed : ℕ

abbrev alert : FraudAlert Fixed
alert = record {
  record_id = codes "r9";
  caller_msisdn = codes "+905551112233";
  rule = codes "velocity";
  score = pos 100;
  evidence = codes "10 calls";
  detected_at = pos 0;
}

abbrev message : Fetched
message = record { value = codes "alert"; partition = pos 0; offset = pos 0 }

abbrev insert_into : Statement Fixed → World → World
insert_into create_table w = w
insert_into (insert_alert a) w = record w { rows = insert_new a w.rows }

abbrev insert : ℕ → Statement Fixed → World → World × Option Str
insert zero st w = (insert_into st w, none)
insert (suc n) st w = (record w { down = n }, some (codes "down"))

abbrev first : List Fetched → World → World × Outcome Str Fetched
first [] w = (w, err (codes "closed"))
first (m ∷ ms) w = (record w { messages = ms }, ok m)

abbrev newest : ℕ → List (FraudAlert Fixed) → List (Outcome Str (FraudAlert Fixed))
newest zero rows = []
newest (suc n) [] = []
newest (suc n) (a ∷ rows) = ok a ∷ newest n rows

length-newest : (n : ℕ) (rows : List (FraudAlert Fixed)) → length (newest n rows) ≤ n
length-newest zero rows = omega arith
length-newest (suc n) [] = omega arith
length-newest (suc n) (a ∷ rows) = omega (arith, length-newest n rows)

abbrev postgres : Services Fixed World Str (Unit {0})
postgres = record {
  new_pool = λ dsn w. (w, ok tt);
  ping = λ pool w. (w, none);
  exec = λ pool st w. insert w.down st w;
  query_recent = λ pool n w. (w, ok (record { scanned = newest n w.rows; failed = none }));
  fetch = λ w. first w.messages w;
  commit = λ m w. (record w { committed = suc w.committed }, none);
  cancelled = λ w. false;
  context_error = λ w. codes "context canceled";
  pause = λ w. (w, false);
  unmarshal_alert = λ value. ok alert;
}

-- A round over `message` after one failure, and the same message again.
abbrev at_first : World
at_first = record { rows = []; down = 1; messages = message ∷ message ∷ []; committed = 0 }

abbrev at_second : World
at_second = record { rows = alert ∷ []; down = 0; messages = message ∷ []; committed = 1 }

abbrev at_last : World
at_last = record { rows = alert ∷ []; down = 0; messages = []; committed = 2 }

postgres-HasTable : HasTable postgres tt
postgres-HasTable = record {
  rows = λ w. w.rows;
  insert_ok = λ a w h. inserted a w w.down h;
  insert_err = λ a w e h. missed a w w.down e h;
  fetched = λ w. fetched w w.messages;
  committed = λ m w. refl;
  paused = λ w. refl;
}
  where
    inserted :
        (a : FraudAlert Fixed) (w : World) (n : ℕ)
        → (insert n (insert_alert a) w).1 ≡ none
        → (insert n (insert_alert a) w).0.rows ≡ insert_new a w.rows
    inserted a w zero h = refl
    inserted a w (suc n) h = cc

    missed :
        (a : FraudAlert Fixed) (w : World) (n : ℕ) (e : Str)
        → (insert n (insert_alert a) w).1 ≡ some e
        → ((insert n (insert_alert a) w).0.rows ≡ w.rows)
          ⊎ ((insert n (insert_alert a) w).0.rows ≡ insert_new a w.rows)
    missed a w zero e h = cc
    missed a w (suc n) e h = inl refl

    fetched : (w : World) (ms : List Fetched) → (first ms w).0.rows ≡ w.rows
    fetched w [] = refl
    fetched w (m ∷ ms) = refl

first_run : Consumes postgres tt postgres-HasTable at_first (alert ∷ []) at_second
unfolding consume_round insert_new
first_run = reads {m = message} 2 refl refl rests refl

second_run : Consumes postgres tt postgres-HasTable at_second (alert ∷ []) at_last
unfolding consume_round insert_new has_key str_eq
second_run = reads {m = message} 2 refl refl rests refl

Consumes-upserts_example :
    (postgres-HasTable.rows at_second ≡ upserts (alert ∷ []) (postgres-HasTable.rows at_first))
    × Unique (postgres-HasTable.rows at_second)
    × All (λ a. has_key a (postgres-HasTable.rows at_second) ≡ true) (alert ∷ [])
Consumes-upserts_example =
    Consumes-upserts postgres tt postgres-HasTable at_first at_second (alert ∷ [])
      (unfold postgres-HasTable in tt) first_run

stored_second :
    StoredAfter postgres tt alert 1 (postgres.fetch at_first).0 (record at_second { committed = 0 })
unfolding store_alert insert_new
stored_second =
    later (record { error = codes "down"; failed = refl; live = refl; resumed = refl })
      (at_once refl)

consume_round-commits_example :
    consume_round postgres tt 2 at_first
    ≡ ((postgres.commit message (record at_second { committed = 0 })).0, goes_on)
consume_round-commits_example =
    consume_round-commits postgres tt at_first (record at_second { committed = 0 }) message alert 1
      2 refl refl stored_second (omega arith)

postgres-Limits : Limits postgres
postgres-Limits = record { at_most = λ pool n w rows h. ground (arith, h, length-newest n w.rows) }

get_alerts-Listed_example :
    (((get_alerts postgres tt at_last).1
        ≡ record { status = 500; body = text (codes "query failed") })
      × ((alerts : List (FraudAlert Fixed)) → ¬ Listed postgres tt at_last alerts))
    ⊎ ((alerts : List (FraudAlert Fixed)) × ((get_alerts postgres tt at_last).1
          ≡ record { status = 200; body = alerts_json (length alerts) alerts })
        × Listed postgres tt at_last alerts
        × (length alerts ≤ 100))
get_alerts-Listed_example = get_alerts-Listed postgres tt at_last postgres-Limits
