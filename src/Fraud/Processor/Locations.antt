-- ===== src/Fraud/Processor/Locations.antt =====
-- services/fraud/lastloc.go: the location of a subscriber, as it is stored and read again.
use go_cdr_fraud_detector.Base.{◌≡◌, refl, ap, subst, ◌∙◌, ◌⊎◌, inl, inr, Option, some, ◌++◌}
use go_cdr_fraud_detector.Base.Text.{Str, codes}
use go_cdr_fraud_detector.Cdr.{Cdr, impossible_travel}
use go_cdr_fraud_detector.Clock.{Duration, sub_time, abs_duration}
use go_cdr_fraud_detector.Fraud.Action.{Action, ◌>>=◌, ◌>>◌}
use go_cdr_fraud_detector.Fraud.Cache.{Outcome, ok, err, Outcome-cases}
use go_cdr_fraud_detector.Fraud.Processor.{
  Processor, visit, compare_location, emit_triggered, last_loc_ttl,
}
use go_cdr_fraud_detector.Fraud.Processor.Settled.{bind_ok}
use go_cdr_fraud_detector.Fraud.Services.{Services, LastLoc}
use go_cdr_fraud_detector.Fraud.Windows.{get_last_location, set_last_location, returning}
use go_cdr_fraud_detector.Geo
use go_cdr_fraud_detector.Geo.{Cell}
use go_cdr_fraud_detector.Go.{Go}
use go_cdr_fraud_detector.Rules.ImpossibleTravel as TravelRule

-- Redis as a store of strings: a SET that succeeds stores its value, and a GET that succeeds returns what
-- is stored. encoding/json reads the location that it wrote.
pub record StoresLocations {F S E : Type 0} (services : Services F S E) : Type 0 where
  pub stored : Str → S → Option Str
  pub set :
      (key value : Str) (ttl : Duration) (s : S)
      → (services.set_key key value ttl s).1 ≡ ok tt
      → stored key (services.set_key key value ttl s).0 ≡ some value
  pub got :
      (key : Str) (s : S) (r : Option Str) → (services.get_key key s).1 ≡ ok r → r ≡ stored key s
  pub json :
      (l : LastLoc F) (b : Str)
      → services.marshal_location l ≡ ok b
      → services.unmarshal_location b ≡ ok l

abbrev pub location_key : Str → Str
location_key msisdn = codes "lastloc:" ++ msisdn

module _ {S E A B : Type 0} (m : Action S E A) (f : A → Action S E B) (s s' : S) where
  after : S × Outcome E A → S × Outcome E B
  after x = elim x.1 [ ok a ↦ f a x.0 | err e ↦ (x.0, err e) ]

  bind_after : (x : S × Outcome E A) → m s ≡ x → (m >>= f) s ≡ after x
  unfolding after ◌>>=◌
  bind_after x h = ap after h

  bind_of_ok : (a : A) → m s ≡ (s', ok a) → (m >>= f) s ≡ f a s'
  unfolding after
  bind_of_ok a h = bind_after (s', ok a) h

  bind_of_err : (e : E) → m s ≡ (s', err e) → (m >>= f) s ≡ (s', err e)
  unfolding after
  bind_of_err e h = bind_after (s', err e) h

module _ {F S E : Type 0} (go : Go F) (services : Services F S E)
    (store : StoresLocations services) where
  -- The location that is stored for a subscriber.
  abbrev pub Remembers : Str → LastLoc F → S → Type 0
  Remembers msisdn l s =
      (b : Str) × (store.stored (location_key msisdn) s ≡ some b)
      × (services.unmarshal_location b ≡ ok l)

  set_last_location-Remembers :
      (msisdn : Str) (l : LastLoc F) (ttl : Duration) (s t : S)
      → set_last_location ⦃go = go⦄ services msisdn l ttl s ≡ (t, ok tt)
      → Remembers msisdn l t
  unfolding set_last_location
  set_last_location-Remembers msisdn l ttl s t h =
      let (b, u, marshalled, set) = bind_ok (returning (services.marshal_location l)) _ s h in
      let written : services.marshal_location l ≡ ok b =
        ap (λ (x : S × Outcome E Str). x.1) marshalled in
      (
        b,
        subst (λ v. store.stored (location_key msisdn) v ≡ some b)
            (ap (λ (x : S × Outcome E (Unit {0})). x.0) set)
            (store.set (location_key msisdn) b ttl u
              (ap (λ (x : S × Outcome E (Unit {0})). x.1) set)),
        store.json l b written,
      )

  get_last_location-Remembers :
      (msisdn : Str) (l : LastLoc F) (s : S)
      → Remembers msisdn l s
      → let s' = (services.get_key (location_key msisdn) s).0 in
        ((e : E) × ((services.get_key (location_key msisdn) s).1 ≡ err e)
          × (get_last_location ⦃go = go⦄ services msisdn s ≡ (s', err e)))
        ⊎ (get_last_location ⦃go = go⦄ services msisdn s ≡ (s', ok (some l)))
  unfolding get_last_location ◌>>=◌
  get_last_location-Remembers msisdn l s (b, held, read) =
      elim (Outcome-cases (services.get_key (location_key msisdn) s).1) [
        | inr (e, failed) ↦ inl (e, failed, rw (failed, get_last_location, ◌>>=◌) refl)
        | inl (r, good) ↦
            let same = store.got (location_key msisdn) s r good ∙ held in
            inr (rw (good ∙ ap ok same, get_last_location, ◌>>=◌) (rw (read, ◌>>=◌) refl))
      ]

  module _ (p : Processor F) where
    pub visit-Remembers :
        (rec : Cdr) (l : LastLoc F) (s t : S)
        → visit ⦃go = go⦄ services p rec l s ≡ (t, ok tt)
        → Remembers rec.caller_msisdn l t
    unfolding visit
    visit-Remembers rec l s t h =
        let (last, u, _, rest) =
          bind_ok (get_last_location ⦃go = go⦄ services rec.caller_msisdn) _ s h in
        let (_, v, _, set) = bind_ok (compare_location ⦃go = go⦄ services p rec l last) _ u rest in
        set_last_location-Remembers rec.caller_msisdn l last_loc_ttl v t set

    -- The comparison with a location, and the advance of the stored one.
    abbrev pub travels : Cdr → LastLoc F → LastLoc F → Action S E (Unit {0})
    travels rec last current =
        emit_triggered ⦃go = go⦄ services p rec impossible_travel (
          TravelRule.evaluate ⦃go = go⦄ p.travel
            (Geo.haversine_km ⦃go = go⦄ last.lat last.lon current.lat current.lon)
            (abs_duration (sub_time current.at last.at)))
        >> set_last_location ⦃go = go⦄ services rec.caller_msisdn current last_loc_ttl

    pub visit-travels :
        (rec : Cdr) (last current : LastLoc F) (s : S)
        → Remembers rec.caller_msisdn last s
        → let s' = (services.get_key (location_key rec.caller_msisdn) s).0 in
          ((e : E) × ((services.get_key (location_key rec.caller_msisdn) s).1 ≡ err e)
            × (visit ⦃go = go⦄ services p rec current s ≡ (s', err e)))
          ⊎ (visit ⦃go = go⦄ services p rec current s ≡ travels rec last current s')
    unfolding visit compare_location
    visit-travels rec last current s held =
        let s' = (services.get_key (location_key rec.caller_msisdn) s).0 in
        elim (get_last_location-Remembers rec.caller_msisdn last s held) [
          | inl (e, unread, failed) ↦ inl (
            e,
            unread,
            bind_of_err (get_last_location ⦃go = go⦄ services rec.caller_msisdn) _ s s' e failed,
          )
          | inr found ↦ inr (
              bind_of_ok (get_last_location ⦃go = go⦄ services rec.caller_msisdn) _ s s' (some last)
                found)
        ]
