-- ===== src/Tariff.antt =====
-- internal/tariff/tariff.go: the destination tariffs, and the lookup by longest dialing prefix.
pub mod Longest
use go_cdr_fraud_detector.Base.{
  ℕ, ◌<◌, Bool, true, false, ◌&&◌, List, [], ◌∷◌, length, ltb, if◌then◌else◌,
}
use go_cdr_fraud_detector.Base.Int.{pos}
use go_cdr_fraud_detector.Base.Text.{Str, codes, has_prefix}
use go_cdr_fraud_detector.Go.{Go}

pub record Tariff (F : Type 0) : Type 0 where
  pub prefix : Str
  pub rate_per_min : F
  pub premium : Bool
  pub name : Str

module _ {F : Type 0} ⦃go : Go F⦄ where
  unfoldable pub catalog : List (Tariff F)
  catalog =
      record {
        prefix = codes "+90";
        rate_per_min = go.decimal (pos 10) 2;
        premium = false;
        name = codes "Turkey (domestic)";
      }
      ∷ record {
        prefix = codes "+1";
        rate_per_min = go.decimal (pos 40) 2;
        premium = false;
        name = codes "North America";
      }
      ∷ record {
        prefix = codes "+44";
        rate_per_min = go.decimal (pos 50) 2;
        premium = false;
        name = codes "United Kingdom";
      }
      ∷ record {
        prefix = codes "+49";
        rate_per_min = go.decimal (pos 50) 2;
        premium = false;
        name = codes "Germany";
      }
      ∷ record {
        prefix = codes "+881";
        rate_per_min = go.decimal (pos 1200) 2;
        premium = true;
        name = codes "Global Mobile Satellite (premium)";
      }
      ∷ record {
        prefix = codes "+882";
        rate_per_min = go.decimal (pos 900) 2;
        premium = true;
        name = codes "International Networks (premium)";
      }
      ∷ record {
        prefix = codes "+883";
        rate_per_min = go.decimal (pos 900) 2;
        premium = true;
        name = codes "International Networks (premium)";
      }
      ∷ record {
        prefix = codes "+900";
        rate_per_min = go.decimal (pos 800) 2;
        premium = true;
        name = codes "Premium-rate service";
      }
      ∷ []

  unfoldable pub fallback : Tariff F
  fallback = record {
    prefix = [];
    rate_per_min = go.decimal (pos 100) 2;
    premium = false;
    name = codes "International (other)";
  }

-- The loop of Lookup: `best` so far, and the entries to come.
unfoldable pub longest_from : {F : Type 0} → Str → Tariff F → List (Tariff F) → Tariff F
longest_from msisdn best [] = best
longest_from msisdn best (t ∷ rest) =
    longest_from msisdn
      (if has_prefix msisdn t.prefix && ltb (length best.prefix) (length t.prefix) then t else best)
      rest

module _ {F : Type 0} ⦃go : Go F⦄ where
  unfoldable pub lookup : Str → Tariff F
  unfolding longest_from catalog fallback
  lookup msisdn = longest_from msisdn fallback catalog
